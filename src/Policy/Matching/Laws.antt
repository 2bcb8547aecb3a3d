-- ===== src/Policy/Matching/Laws.antt =====
-- Termination of `matchPath`, and what the tests mean.
use open_pass.Base.{
  ℕ, suc, String, ◌≡◌, ◌↔◌, ◌⊎◌, refl, true, none, some, [], ◌∷◌, eq_iff, arith, inl, inr,
  Option-cases, All,
}
use open_pass.Base.Assoc.{Assoc, lookup}
use open_pass.Policy.Matching.{Paths, match_string, match_path, expand_home, match_env_vars}

module _ (lib : Paths) where
  -- Two rounds are enough for `matchPath` where the home directory does not begin with "~/" itself:
  -- its call of itself makes no further call, and more fuel changes nothing.
  pub match_path_fuel :
      (extra : ℕ) (pattern path : String)
      → ((p : String) → expand_home lib pattern ≡ some p → expand_home lib p ≡ none)
      → match_path lib (suc (suc extra)) pattern path ≡ match_path lib 2 pattern path
  unfolding match_path
  match_path_fuel extra pattern path h = elim (Option-cases (expand_home lib pattern)) [
    | inl e ↦ rw e
    | inr (p, e) ↦ rw (e, h p e)
  ]

-- A variable is set, to a value that the pattern matches.
abbrev pub IsMatched : Assoc String → String × String → Type 0
IsMatched actual p = (v : String) × (lookup p.0 actual ≡ some v) × ((p.1 ≡ "*") ⊎ (p.1 ≡ v))

match_string_sound :
    (pattern v : String) → match_string pattern v ≡ true → (pattern ≡ "*") ⊎ (pattern ≡ v)
unfolding match_string
match_string_sound pattern v h = ground (arith, h, eq_iff pattern "*", eq_iff pattern v)

match_string_complete :
    (pattern v : String) → (pattern ≡ "*") ⊎ (pattern ≡ v) → match_string pattern v ≡ true
unfolding match_string
match_string_complete pattern v h = ground (arith, eq_iff pattern "*", eq_iff pattern v)

env_sound :
    (required actual : Assoc String)
    → match_env_vars required actual ≡ true
    → All (IsMatched actual) required
unfolding match_env_vars
env_sound [] actual h = tt
env_sound ((k, p) ∷ required) actual h = elim (Option-cases (lookup k actual)) [
  | inl e ↦ absurd (ground (arith, h, e))
  | inr (v, e) ↦ (
    (v, e, match_string_sound p v (unfold match_string in ground (arith, h, e))),
    env_sound required actual (ground (arith, h, e)),
  )
]

env_complete :
    (required actual : Assoc String)
    → All (IsMatched actual) required
    → match_env_vars required actual ≡ true
unfolding match_env_vars
env_complete [] actual h = refl
env_complete ((k, p) ∷ required) actual ((v, e, m), h) =
    ground (arith, e, match_string_complete p v m, env_complete required actual h)

-- `matchEnvVars` passes exactly when every required variable is set, to the pattern's text or, for
-- the pattern "*", to anything.
match_env_vars_iff :
    (required actual : Assoc String)
    → (match_env_vars required actual ≡ true) ↔ All (IsMatched actual) required
match_env_vars_iff required actual = (env_sound required actual, env_complete required actual)
