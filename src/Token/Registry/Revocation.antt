-- ===== src/Token/Registry/Revocation.antt =====
-- What `Revoke` does to the tokens of the registry.
use open_pass.Base.{
  ℕ, String, ◌≡◌, refl, true, false, not, Option, none, some, [], ◌∷◌, ◌&&◌, ◌==◌, eq_iff,
  if◌then◌else◌, arith, All, inl, inr, Bool-cases,
}
use open_pass.Base.Assoc.{Assoc, lookup, Distinct, Fresh}
use open_pass.Token.{ScopedToken}
use open_pass.Token.Registry.{TokenRegistry, get, revoke, revoke_in}
use open_pass.Token.Registry.Access.{is_refused, get-eq-authenticated}

-- A revoked token stays revoked in every sweep of `Revoke`, whatever the id.
revoke_in-revoked :
    (at : ℕ) (id h : String) (m : Assoc ScopedToken)
    → is_refused (lookup h m) ≡ true
    → is_refused (lookup h (revoke_in at id m).0) ≡ true
unfolding revoke_in lookup
revoke_in-revoked at id h [] d = refl
revoke_in-revoked at id h ((k, t) ∷ m) d = ground (arith, revoke_in-revoked at id h m)

Fresh-revoke_in :
    (at : ℕ) (id k : String) (m : Assoc ScopedToken) → Fresh k m → Fresh k (revoke_in at id m).0
unfolding revoke_in
Fresh-revoke_in at id k [] f = tt
Fresh-revoke_in at id k ((j, t) ∷ m) (f, fs) = elim (Bool-cases ((t.id == id) && not t.revoked)) [
  | inl e ↦ rw e (f, fs)
  | inr e ↦ rw e (f, Fresh-revoke_in at id k m fs)
]

Distinct-revoke_in :
    (at : ℕ) (id : String) (m : Assoc ScopedToken) → Distinct m → Distinct (revoke_in at id m).0
unfolding revoke_in
Distinct-revoke_in at id [] d = tt
Distinct-revoke_in at id ((j, t) ∷ m) (f, d) = elim (Bool-cases ((t.id == id) && not t.revoked)) [
  | inl e ↦ rw e (f, d)
  | inr e ↦ rw e (Fresh-revoke_in at id j m f, Distinct-revoke_in at id m d)
]

pub Distinct-revoke :
    (at : ℕ) (id : String) (r : TokenRegistry)
    → Distinct r.entries
    → Distinct (revoke at id r).0.entries
unfolding revoke
Distinct-revoke at id r d = Distinct-revoke_in at id r.entries d

pub is_refused-revoke :
    (at : ℕ) (id h : String) (r : TokenRegistry)
    → is_refused (lookup h r.entries) ≡ true
    → is_refused (lookup h (revoke at id r).0.entries) ≡ true
unfolding revoke
is_refused-revoke at id h r d = revoke_in-revoked at id h r.entries d

-- No two tokens have one id.
abbrev pub UniqueIds : Assoc ScopedToken → Type 0
UniqueIds [] = Unit
UniqueIds ((h, t) ∷ m) = All (λ p. (p.1.id == t.id) ≡ false) m × UniqueIds m

-- What `Revoke` leaves under a key.
abbrev after_revoke : ℕ → String → Option ScopedToken → Option ScopedToken
after_revoke at id none = none
after_revoke at id (some t) =
    if (t.id == id) && not t.revoked
    then some (record t { revoked = true; revoked_at = some at })
    else some t

after_revoke_other :
    (at : ℕ) (id s h : String) (m : Assoc ScopedToken)
    → All (λ p. (p.1.id == s) ≡ false) m
    → (s == id) ≡ true
    → after_revoke at id (lookup h m) ≡ lookup h m
unfolding lookup
after_revoke_other at id s h [] f e = refl
after_revoke_other at id s h ((k, t) ∷ m) (g, f) e =
    ground
      (arith, g, after_revoke_other at id s h m f e, eq_iff s id, eq_iff t.id s, eq_iff t.id id)

lookup-revoke_in :
    (at : ℕ) (id h : String) (m : Assoc ScopedToken)
    → UniqueIds m
    → lookup h (revoke_in at id m).0 ≡ after_revoke at id (lookup h m)
unfolding revoke_in lookup
lookup-revoke_in at id h [] u = refl
lookup-revoke_in at id h ((k, t) ∷ m) (f, u) =
    ground (arith, lookup-revoke_in at id h m u, after_revoke_other at id t.id h m f)

-- After `Revoke` of an id, `Get` refuses the token with that id and returns every other token as
-- before, where no two tokens have one id.
get-revoke :
    (at now used : ℕ) (id h : String) (r : TokenRegistry) {t : ScopedToken}
    → UniqueIds r.entries
    → lookup h r.entries ≡ some t
    → (get now used h (revoke at id r).0).1 ≡ (if t.id == id then none else (get now used h r).1)
unfolding revoke
get-revoke at now used id h r {t} u e =
    rw (get-eq-authenticated, get-eq-authenticated, lookup-revoke_in at id h r.entries u, e)
      (ground arith)
