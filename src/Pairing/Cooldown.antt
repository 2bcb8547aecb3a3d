-- ===== src/Pairing/Cooldown.antt =====
-- Five wrong guesses in a row close the pairing store for 30 seconds.
use open_pass.Base.{
  ℕ, ◌+◌, ◌<◌, String, ◌≡◌, true, false, none, List, [], ◌∷◌, ◌&&◌, ltb, leb, length, arith, All,
}
use open_pass.Base.Assoc.{lookup}
use open_pass.Pairing.{
  TokenStore, Readings, max_failed_attempts, failed_attempt_cooldown, in_cooldown, reset_count,
  count_failure, check_entry, validate, store, cleanup_expired,
}

-- A guess: the readings of its call, and the token that was tried.
abbrev pub Guess : Type 0
Guess = Readings × String

-- The store after guesses, one after the other, and the reading at the last one's failure.
unfoldable pub after : List Guess → TokenStore → TokenStore
after [] ts = ts
after (g ∷ guesses) ts = after guesses (validate g.0 g.1 ts).0

abbrev pub last_failure : Guess → List Guess → ℕ
last_failure g [] = g.0.fail
last_failure g (h ∷ guesses) = last_failure h guesses

wrong_guess :
    (at : Readings) (token : String) (ts : TokenStore)
    → lookup token ts.tokens ≡ none
    → ts.failed_count < max_failed_attempts
    → (validate at token ts).0 ≡ count_failure at ts
unfolding validate in_cooldown reset_count check_entry
wrong_guess at token ts h lt =
    let e : leb max_failed_attempts ts.failed_count ≡ false = ground (arith, lt) in rw (e, h)

-- Guesses that make the count five start a cooldown at the last of them.
guesses_close :
    (g : Guess) (guesses : List Guess) (ts : TokenStore)
    → All (λ a. lookup a.1 ts.tokens ≡ none) (g ∷ guesses)
    → ts.failed_count + length (g ∷ guesses) ≡ max_failed_attempts
    → ((after (g ∷ guesses) ts).failed_count ≡ max_failed_attempts)
      × ((after (g ∷ guesses) ts).cooldown_until ≡ last_failure g guesses + failed_attempt_cooldown)
unfolding after count_failure
guesses_close g [] ts (h, _) n =
    rw (wrong_guess g.0 g.1 ts h (omega (arith, n))) (ground (arith, n))
guesses_close g (x ∷ guesses) ts (h, hs) n =
    rw (after, wrong_guess g.0 g.1 ts h (omega (arith, n)))
      (guesses_close x guesses (count_failure g.0 ts) hs (omega (arith, n)))

-- One call on the store before an instant; storing a token takes no look at the cooldown.
pub data Step (end : ℕ) (ts : TokenStore) : TokenStore → Type 0 where
  tried : (at : Readings) (token : String) → at.block < end → Step end ts (validate at token ts).0
  stored : (now : ℕ) (token key : String) → Step end ts (store now token key ts)
  cleaned : (now : ℕ) → now < end → Step end ts (cleanup_expired now ts)

pub data Reach (end : ℕ) (ts : TokenStore) : TokenStore → Type 0 where
  start : Reach end ts ts
  next : {us vs : TokenStore} → Reach end ts us → Step end us vs → Reach end ts vs

-- The store is closed until an instant.
abbrev IsClosed : ℕ → TokenStore → Type 0
IsClosed end ts = (leb max_failed_attempts ts.failed_count ≡ true) × (ts.cooldown_until ≡ end)

closed_cooldown :
    (end : ℕ) (at : Readings) (ts : TokenStore)
    → IsClosed end ts
    → at.block < end
    → in_cooldown at ts ≡ true
unfolding in_cooldown
closed_cooldown end at ts (c, u) lt = ground (arith, c, u, lt)

-- No call before that instant opens the store, also not one that is refused.
Step-IsClosed : {end : ℕ} {ts us : TokenStore} → Step end ts us → IsClosed end ts → IsClosed end us
unfolding validate store cleanup_expired reset_count
Step-IsClosed {end} {ts} (tried at token lt) c = rw (closed_cooldown end at ts c lt) c
Step-IsClosed {end} {ts} (stored now token key) c = c
Step-IsClosed {end} {ts} (cleaned now lt) (c, u) =
    let still : (leb max_failed_attempts ts.failed_count && ltb ts.cooldown_until now) ≡ false =
      ground (arith, u, lt) in
    rw still (c, u)

Reach-IsClosed :
    {end : ℕ} {ts us : TokenStore} → Reach end ts us → IsClosed end ts → IsClosed end us
Reach-IsClosed start c = c
Reach-IsClosed (next p step) c = Step-IsClosed step (Reach-IsClosed p c)

-- After five guesses in a row of tokens that the store does not hold, begun at a count of 0, and any
-- further calls on the store in the 30 seconds from the last failure, every call of `Validate` in
-- these 30 seconds is refused, also of a token that the store holds.
pub guessing_blocked :
    (g : Guess) (guesses : List Guess) (ts later : TokenStore) (at : Readings) (token : String)
    → ts.failed_count ≡ 0
    → All (λ a. lookup a.1 ts.tokens ≡ none) (g ∷ guesses)
    → length (g ∷ guesses) ≡ 5
    → Reach (last_failure g guesses + failed_attempt_cooldown) (after (g ∷ guesses) ts) later
    → at.block < last_failure g guesses + failed_attempt_cooldown
    → (validate at token later).1 ≡ none
unfolding validate
guessing_blocked g guesses ts later at token z h n p lt =
    let (c, u) = guesses_close g guesses ts h (omega (arith, z, n)) in
    let closed = Reach-IsClosed p (ground (arith, c), u) in
    rw (closed_cooldown (last_failure g guesses + failed_attempt_cooldown) at later closed lt)
