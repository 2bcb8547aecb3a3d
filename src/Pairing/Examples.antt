-- ===== src/Pairing/Examples.antt =====
-- Runs of the pairing store on small inputs.
use open_pass.Base.{ℕ, ◌≡◌, refl, none, List, [], ◌∷◌, arith}
use open_pass.Base.Assoc.{lookup, insert}
use open_pass.Pairing.{
  TokenStore, new_token_store, store, Readings, in_cooldown, reset_count, check_entry, validate,
}
use open_pass.Pairing.SingleUse
use open_pass.Pairing.SingleUse.{validate_single_use}
use open_pass.Pairing.Cooldown
use open_pass.Pairing.Cooldown.{Guess, after, guessing_blocked}

-- All readings of a call at one instant.
abbrev at : ℕ → Readings
at now = record { block = now; reset = now; expiry = now; fail = now }

abbrev one_token : TokenStore
one_token = store 1 "good" "age1key" new_token_store

abbrev once_used : TokenStore
once_used = (validate (at 5) "good" one_token).0

validate_single_use_example :
    (validate (at 9) "good" (store 8 "other" "age2key" (validate (at 7) "good" once_used).0)).1
    ≡ none
unfolding validate in_cooldown reset_count check_entry store lookup insert
validate_single_use_example = validate_single_use (at 5) (at 9) "good" "age1key" one_token _ refl (
    SingleUse.Reach.next
      (SingleUse.Reach.next SingleUse.Reach.start (SingleUse.Step.tried (at 7) "good"))
      (SingleUse.Step.stored 8 "other" "age2key" refl))

abbrev guesses : List Guess
guesses = (at 3, "b") ∷ (at 4, "c") ∷ (at 5, "d") ∷ (at 6, "e") ∷ []

abbrev closed : TokenStore
closed = after ((at 2, "a") ∷ guesses) one_token

guessing_blocked_example : (validate (at 1000) "good" (validate (at 500) "good" closed).0).1 ≡ none
unfolding store lookup insert
guessing_blocked_example =
    guessing_blocked (at 2, "a") guesses one_token _ (at 1000) "good" refl
      (refl, (refl, (refl, (refl, (refl, tt))))) refl
      (Cooldown.Reach.next Cooldown.Reach.start (Cooldown.Step.tried (at 500) "good" (omega arith)))
      (omega arith)
