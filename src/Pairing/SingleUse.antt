-- ===== src/Pairing/SingleUse.antt =====
-- A pairing token is good once, until it expires, and a sweep changes no answer.
use open_pass.Base.{
  ℕ, ◌+◌, ◌≤◌, String, Bool, ◌==◌, [], ◌∷◌, ◌≡◌, refl, ◌∙◌, true, false, Option, none, some, ◌&&◌,
  not, ltb, leb, if◌then◌else◌, arith, inl, inr, Bool-cases, Option-cases, eq_refl,
}
use open_pass.Base.Assoc.{
  Assoc, Distinct, lookup, retain, lookup-insert, lookup-remove, lookup-retain, passing,
}
use open_pass.Pairing.{
  TokenEntry, TokenStore, Readings, token_ttl, max_failed_attempts, store, in_cooldown, reset_count,
  delete, count_failure, check_entry, validate, cleanup_expired,
}

tokens-reset_count : (now : ℕ) (ts : TokenStore) → (reset_count now ts).tokens ≡ ts.tokens
unfolding reset_count
tokens-reset_count now ts = ground arith

tokens-cleanup_expired :
    (now : ℕ) (ts : TokenStore)
    → (cleanup_expired now ts).tokens ≡ retain (λ e. not (ltb e.expires_at now)) ts.tokens
unfolding cleanup_expired
tokens-cleanup_expired now ts = tokens-reset_count now _

-- A token that the store does not hold is refused.
unknown_refused :
    (at : Readings) (token : String) (ts : TokenStore)
    → lookup token ts.tokens ≡ none
    → (validate at token ts).1 ≡ none
unfolding validate check_entry
unknown_refused at token ts h = ground (arith, h, tokens-reset_count at.reset ts)

lookup-delete : (token : String) (ts : TokenStore) → lookup token (delete token ts).tokens ≡ none
unfolding delete
lookup-delete token ts = ground (arith, lookup-remove token token ts.tokens, eq_refl token)

check_entry_accepted :
    (at : Readings) (token key : String) (ts : TokenStore) (o : Option TokenEntry)
    → (check_entry at token ts o).1 ≡ some key
    → lookup token (check_entry at token ts o).0.tokens ≡ none
unfolding check_entry
check_entry_accepted at token key ts none h = absurd (ground arith)
check_entry_accepted at token key ts (some e) h = elim (Bool-cases (ltb e.expires_at at.expiry)) [
  | inl x ↦ absurd (ground (arith, h, x))
  | inr x ↦ ground (arith, x, lookup-delete token ts)
]

accepted_removes :
    (at : Readings) (token key : String) (ts : TokenStore)
    → (validate at token ts).1 ≡ some key
    → lookup token (validate at token ts).0.tokens ≡ none
unfolding validate
accepted_removes at token key ts h = elim (Bool-cases (in_cooldown at ts)) [
  | inl e ↦ absurd (ground (arith, h, e))
  | inr e ↦
      let ts' = reset_count at.reset ts in
      let k : (check_entry at token ts' (lookup token ts'.tokens)).1 ≡ some key =
        ground (arith, h, e) in
      ground (arith, e, check_entry_accepted at token key ts' (lookup token ts'.tokens) k)
]

-- One call on the store, which does not store the token again.
pub data Step (token : String) (ts : TokenStore) : TokenStore → Type 0 where
  tried : (at : Readings) (other : String) → Step token ts (validate at other ts).0
  stored :
      (now : ℕ) (other key : String)
      → (other == token) ≡ false
      → Step token ts (store now other key ts)
  cleaned : (now : ℕ) → Step token ts (cleanup_expired now ts)

pub data Reach (token : String) (ts : TokenStore) : TokenStore → Type 0 where
  start : Reach token ts ts
  next : {us vs : TokenStore} → Reach token ts us → Step token us vs → Reach token ts vs

check_entry_keeps :
    (at : Readings) (other token : String) (ts : TokenStore) (o : Option TokenEntry)
    → lookup token ts.tokens ≡ none
    → lookup token (check_entry at other ts o).0.tokens ≡ none
unfolding check_entry delete count_failure
check_entry_keeps at other token ts none h = h
check_entry_keeps at other token ts (some e) h = elim (Bool-cases (ltb e.expires_at at.expiry)) [
  | inl x ↦ rw (x, lookup-remove) (ground (arith, h))
  | inr x ↦ rw (x, lookup-remove) (ground (arith, h))
]

lookup-retain-none :
    (p : TokenEntry → Bool) (token : String) (m : Assoc TokenEntry)
    → lookup token m ≡ none
    → lookup token (retain p m) ≡ none
unfolding lookup retain
lookup-retain-none p token [] h = refl
lookup-retain-none p token ((k, e) ∷ m) h = ground (arith, h, lookup-retain-none p token m)

-- A call other than storing it does not bring a token back.
Step-keeps :
    {token : String} {ts us : TokenStore}
    → Step token ts us
    → lookup token ts.tokens ≡ none
    → lookup token us.tokens ≡ none
unfolding validate store
Step-keeps {token} {ts} (tried at other) h = elim (Bool-cases (in_cooldown at ts)) [
  | inl e ↦ rw e h
  | inr e ↦
      let ts' = reset_count at.reset ts in
      rw e (
        check_entry_keeps at other token ts' (lookup other ts'.tokens)
          (rw (tokens-reset_count at.reset ts) h))
]
Step-keeps {token} {ts} (stored now other key away) h = rw (lookup-insert, away) h
Step-keeps {token} {ts} (cleaned now) h =
    rw (tokens-cleanup_expired now ts) (lookup-retain-none _ token ts.tokens h)

Reach-keeps :
    {token : String} {ts us : TokenStore}
    → Reach token ts us
    → lookup token ts.tokens ≡ none
    → lookup token us.tokens ≡ none
Reach-keeps start h = h
Reach-keeps (next p step) h = Step-keeps step (Reach-keeps p h)

-- A token is good once: after a call of `Validate` that accepted it, and any further calls on the
-- store that do not store it again, `Validate` refuses it.
pub validate_single_use :
    (at again : Readings) (token key : String) (ts later : TokenStore)
    → (validate at token ts).1 ≡ some key
    → Reach token (validate at token ts).0 later
    → (validate again token later).1 ≡ none
validate_single_use at again token key ts later h p =
    unknown_refused again token later (Reach-keeps p (accepted_removes at token key ts h))

-- Outside a cooldown the answer is the key of the unexpired entry that the map holds.
answer :
    (at : Readings) (token : String) (ts : TokenStore)
    → in_cooldown at ts ≡ false
    → (validate at token ts).1 ≡ elim (lookup token ts.tokens) [
      | none ↦ none
      | some e ↦ if ltb e.expires_at at.expiry then none else some e.public_key
    ]
unfolding validate check_entry
answer at token ts quiet = elim (Option-cases (lookup token ts.tokens)) [
  | inl e ↦ ground (arith, quiet, e, tokens-reset_count at.reset ts)
  | inr (x, e) ↦ rw (quiet, tokens-reset_count at.reset ts, e) (ground arith)
]

-- A token that `Store` has saved is accepted, with its public key, until its 5 minutes are over,
-- unless a cooldown is active.
validate-store :
    (now : ℕ) (at : Readings) (token key : String) (ts : TokenStore)
    → in_cooldown at ts ≡ false
    → at.expiry ≤ now + token_ttl
    → (validate at token (store now token key ts)).1 ≡ some key
unfolding store in_cooldown
validate-store now at token key ts quiet le =
    let entry : TokenEntry = record { public_key = key; expires_at = now + token_ttl } in
    rw
      (
        answer at token (store now token key ts) quiet,
        lookup-insert token token entry ts.tokens,
        eq_refl token,
      )
      (ground (arith, le))

in_cooldown-cleanup_expired :
    (now : ℕ) (at : Readings) (ts : TokenStore)
    → now ≤ at.block
    → in_cooldown at (cleanup_expired now ts) ≡ in_cooldown at ts
unfolding in_cooldown cleanup_expired reset_count
in_cooldown-cleanup_expired now at ts le =
    elim (Bool-cases (leb max_failed_attempts ts.failed_count && ltb ts.cooldown_until now)) [
      | inl e ↦ rw e (ground (arith, e, le))
      | inr e ↦ rw e
    ]

blocked :
    (at : Readings) (token : String) (ts : TokenStore)
    → in_cooldown at ts ≡ true
    → (validate at token ts).1 ≡ none
unfolding validate
blocked at token ts h = rw h

swept :
    (now later : ℕ) (o : Option TokenEntry)
    → now ≤ later
    → elim (passing (λ e. not (ltb e.expires_at now)) o) [
      | none ↦ none
      | some e ↦ if ltb e.expires_at later then none else some e.public_key
    ]
      ≡ elim o [ none ↦ none | some e ↦ if ltb e.expires_at later then none else some e.public_key ]
swept now later none le = refl
swept now later (some e) le = ground (arith, le)

-- Sweeping the store at an instant before the readings of a call changes no answer of that call.
validate-cleanup_expired :
    (now : ℕ) (at : Readings) (token : String) (ts : TokenStore)
    → Distinct ts.tokens
    → now ≤ at.block
    → now ≤ at.expiry
    → (validate at token (cleanup_expired now ts)).1 ≡ (validate at token ts).1
validate-cleanup_expired now at token ts d le le' =
    let same = in_cooldown-cleanup_expired now at ts le in
    elim (Bool-cases (in_cooldown at ts)) [
      | inl e ↦ rw (blocked at token (cleanup_expired now ts) (same ∙ e), blocked at token ts e)
      | inr e ↦
          rw
            (
              answer at token (cleanup_expired now ts) (same ∙ e),
              answer at token ts e,
              tokens-cleanup_expired now ts,
              lookup-retain (λ e. not (ltb e.expires_at now)) token ts.tokens d,
            )
            (swept now at.expiry (lookup token ts.tokens) le')
    ]
