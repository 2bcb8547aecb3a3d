-- ===== src/Token/Registry/Access.antt =====
-- What `Get` and the sweep do to the tokens that a request may present.
use open_pass.Base.{
  ℕ, ◌≤◌, String, ◌≡◌, refl, Bool, true, not, Option, none, some, ◌==◌, eq_iff, if◌then◌else◌,
  arith, inl, inr, Option-cases,
}
use open_pass.Base.Assoc.{
  lookup, Distinct, lookup-insert, lookup-remove, lookup-retain, passing, Distinct-insert,
  Distinct-remove,
}
use open_pass.Base.Clock.{passed}
use open_pass.Token.{ScopedToken}
use open_pass.Token.Registry.{TokenRegistry, get, cleanup_once, get_found}

-- What a stored token is worth at an instant: the token, marked as used, or nothing.
abbrev pub authenticated : ℕ → ℕ → Option ScopedToken → Option ScopedToken
authenticated now used none = none
authenticated now used (some t) =
    if t.revoked
    then none
    else if passed now t.expires_at
    then none
    else some (record t { last_used_at = some used })

pub get-eq-authenticated :
    (now used : ℕ) (h : String) (r : TokenRegistry)
    → (get now used h r).1 ≡ authenticated now used (lookup h r.entries)
unfolding get
get-eq-authenticated now used h r = ground arith

-- No token under a hash, or a revoked one.
abbrev pub is_refused : Option ScopedToken → Bool
is_refused none = true
is_refused (some t) = t.revoked

-- What `Get` leaves under the key that it looks up.
abbrev pub after_get : ℕ → ℕ → Option ScopedToken → Option ScopedToken
after_get now used none = none
after_get now used (some t) =
    if t.revoked
    then some t
    else if passed now t.expires_at
    then none
    else some (record t { last_used_at = some used })

pub lookup-get :
    (now used : ℕ) (h j : String) (r : TokenRegistry)
    → lookup j (get now used h r).0.entries
      ≡ (if h == j then after_get now used (lookup h r.entries) else lookup j r.entries)
unfolding get
lookup-get now used h j r = elim (Option-cases (lookup h r.entries)) [
  | inl e ↦ rw (e, get_found) (ground (arith, e, eq_iff h j))
  | inr (t, e) ↦ rw e (
      ground (
        arith,
        e,
        eq_iff h j,
        lookup-remove h j r.entries,
        lookup-insert h j (record t { last_used_at = some used }) r.entries,
      ))
]

authenticated-after_get :
    (n₁ u₁ n₂ u₂ : ℕ) (o : Option ScopedToken)
    → n₁ ≤ n₂
    → authenticated n₂ u₂ (after_get n₁ u₁ o) ≡ authenticated n₂ u₂ o
authenticated-after_get n₁ u₁ n₂ u₂ none h = refl
authenticated-after_get n₁ u₁ n₂ u₂ (some t) h = elim (Option-cases t.expires_at) [
  | inl e ↦ ground (arith, e)
  | inr (d, e) ↦ ground (arith, e)
]

-- A call of `Get` at one instant, for any hash, does not change what a call of `Get` at the same or
-- a later instant returns, for any hash.
get-get :
    (n₁ u₁ n₂ u₂ : ℕ) (h j : String) (r : TokenRegistry)
    → n₁ ≤ n₂
    → (get n₂ u₂ j (get n₁ u₁ h r).0).1 ≡ (get n₂ u₂ j r).1
get-get n₁ u₁ n₂ u₂ h j r le =
    rw (get-eq-authenticated, get-eq-authenticated, lookup-get)
      (ground (arith, eq_iff h j, authenticated-after_get n₁ u₁ n₂ u₂ (lookup h r.entries) le))

authenticated-passing :
    (t now used : ℕ) (o : Option ScopedToken)
    → t ≤ now
    → authenticated now used (passing (λ k. not (passed t k.expires_at)) o)
      ≡ authenticated now used o
authenticated-passing t now used none h = refl
authenticated-passing t now used (some k) h = elim (Option-cases k.expires_at) [
  | inl e ↦ ground (arith, e)
  | inr (d, e) ↦ ground (arith, e)
]

-- A sweep of expired tokens does not change what `Get` returns at the same or a later instant.
get-cleanup_once :
    (t now used : ℕ) (h : String) (r : TokenRegistry)
    → t ≤ now
    → Distinct r.entries
    → (get now used h (cleanup_once t r)).1 ≡ (get now used h r).1
unfolding cleanup_once
get-cleanup_once t now used h r le d =
    rw (get-eq-authenticated, get-eq-authenticated, lookup-retain _ h r.entries d)
      (authenticated-passing t now used (lookup h r.entries) le)

pub Distinct-get :
    (now used : ℕ) (h : String) (r : TokenRegistry)
    → Distinct r.entries
    → Distinct (get now used h r).0.entries
unfolding get
Distinct-get now used h r d = elim (Option-cases (lookup h r.entries)) [
  | inl e ↦ rw e d
  | inr (t, e) ↦ ground (
    arith,
    e,
    d,
    Distinct-remove h r.entries d,
    Distinct-insert h (record t { last_used_at = some used }) r.entries d,
  )
]

is_refused-after_get :
    (now used : ℕ) (o : Option ScopedToken)
    → is_refused o ≡ true
    → is_refused (after_get now used o) ≡ true
is_refused-after_get now used none d = refl
is_refused-after_get now used (some t) d = rw d

pub is_refused-get :
    (now used : ℕ) (j h : String) (r : TokenRegistry)
    → is_refused (lookup h r.entries) ≡ true
    → is_refused (lookup h (get now used j r).0.entries) ≡ true
is_refused-get now used j h r d =
    rw lookup-get (ground (arith, eq_iff j h, is_refused-after_get now used (lookup j r.entries)))

is_refused-passing :
    (p : ScopedToken → Bool) (o : Option ScopedToken)
    → is_refused o ≡ true
    → is_refused (passing p o) ≡ true
is_refused-passing p none d = refl
is_refused-passing p (some t) d = ground arith

pub is_refused-cleanup_once :
    (now : ℕ) (h : String) (r : TokenRegistry)
    → Distinct r.entries
    → is_refused (lookup h r.entries) ≡ true
    → is_refused (lookup h (cleanup_once now r).entries) ≡ true
unfolding cleanup_once
is_refused-cleanup_once now h r d e =
    rw (lookup-retain _ h r.entries d) (is_refused-passing _ (lookup h r.entries) e)

pub get_of_is_refused :
    (now used : ℕ) (h : String) (r : TokenRegistry)
    → is_refused (lookup h r.entries) ≡ true
    → (get now used h r).1 ≡ none
get_of_is_refused now used h r d =
    rw get-eq-authenticated (elim (Option-cases (lookup h r.entries)) [
      | inl e ↦ rw e
      | inr (t, e) ↦ rw e (ground (arith, d, e))
    ])
