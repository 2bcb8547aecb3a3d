-- ===== src/Base/Assoc.antt =====
-- Go maps with string keys, as association lists. The order of the list is one order in which a
-- `range` loop may meet the keys; what holds of every list holds of every order.
use Prim.Native.String.{String}
use mathlib.Core.Path.{◌≡◌, refl, sym, subst}
use mathlib.Core.Logic.{inl, inr}
use mathlib.Core.Bool.{Bool, true, false}
use mathlib.Core.Option.{Option, none, some}
use mathlib.Core.List.{List, [], ◌∷◌, ◌++◌}
use native.Mathlib.Omega.{arith}
use text.Mathlib.Text.{◌==◌}
use text.Mathlib.TextEquality.{eq_iff}
use open_pass.Base.Tests.{All, Any, if◌then◌else◌, Bool-cases}

abbrev pub Assoc {ℓ} : Type ℓ → Type ℓ
Assoc V = List (String × V)

module _ {ℓ} {V : Type ℓ} where
  -- v, ok := m[k]
  unfoldable pub lookup : String → Assoc V → Option V
  lookup k [] = none
  lookup k ((j, v) ∷ m) = if j == k then some v else lookup k m

  -- m[k] = v
  unfoldable pub insert : String → V → Assoc V → Assoc V
  insert k v [] = (k, v) ∷ []
  insert k v ((j, w) ∷ m) = if j == k then (k, v) ∷ m else (j, w) ∷ insert k v m

  -- delete(m, k)
  unfoldable pub remove : String → Assoc V → Assoc V
  remove k [] = []
  remove k ((j, w) ∷ m) = if j == k then remove k m else (j, w) ∷ remove k m

  -- for k, v := range m { if !p(v) { delete(m, k) } }
  unfoldable pub retain : (V → Bool) → Assoc V → Assoc V
  retain p [] = []
  retain p ((j, w) ∷ m) = if p w then (j, w) ∷ retain p m else retain p m

  -- for k := range m: the keys, in the order of the loop
  abbrev pub Fresh : String → Assoc V → Type 0
  Fresh k [] = Unit
  Fresh k ((j, w) ∷ m) = ((j == k) ≡ false) × Fresh k m

  -- A Go map has each key once.
  abbrev pub Distinct : Assoc V → Type 0
  Distinct [] = Unit
  Distinct ((j, w) ∷ m) = Fresh j m × Distinct m

  pub lookup-insert :
      (new old : String) (x : V) (entries : Assoc V)
      → lookup old (insert new x entries) ≡ (if new == old then some x else lookup old entries)
  unfolding lookup insert
  lookup-insert new old x [] = refl
  lookup-insert new old x ((key, y) ∷ rest) =
      ground (arith, lookup-insert new old x rest, eq_iff key old, eq_iff key new, eq_iff new old)

  pub lookup-remove :
      (k j : String) (m : Assoc V) → lookup j (remove k m) ≡ (if k == j then none else lookup j m)
  unfolding lookup remove
  lookup-remove k j [] = ground arith
  lookup-remove k j ((i, w) ∷ m) =
      ground (arith, eq_iff k j, eq_iff i k, eq_iff i j, lookup-remove k j m)

  pub lookup_of_Fresh : (k : String) (m : Assoc V) → Fresh k m → lookup k m ≡ none
  unfolding lookup
  lookup_of_Fresh k [] h = refl
  lookup_of_Fresh k ((j, w) ∷ m) (e, h) = rw e (lookup_of_Fresh k m h)

  pub Fresh-eq : (j k : String) (m : Assoc V) → (j == k) ≡ true → Fresh j m → Fresh k m
  Fresh-eq j k [] e h = tt
  Fresh-eq j k ((i, w) ∷ m) e (f, h) =
      (ground (arith, eq_iff j k, eq_iff i j, eq_iff i k), Fresh-eq j k m e h)

  Fresh-insert :
      (k j : String) (v : V) (m : Assoc V) → (k == j) ≡ false → Fresh j m → Fresh j (insert k v m)
  unfolding insert
  Fresh-insert k j v [] e h = (e, tt)
  Fresh-insert k j v ((i, w) ∷ m) e (f, h) = elim (Bool-cases (i == k)) [
    | inl same ↦ rw same (e, h)
    | inr other ↦ rw other (f, Fresh-insert k j v m e h)
  ]

  pub Distinct-insert : (k : String) (v : V) (m : Assoc V) → Distinct m → Distinct (insert k v m)
  unfolding insert
  Distinct-insert k v [] d = (tt, tt)
  Distinct-insert k v ((i, w) ∷ m) (f, d) = elim (Bool-cases (i == k)) [
    | inl same ↦ rw same (Fresh-eq i k m same f, d)
    | inr other ↦
        rw other
          (Fresh-insert k i v m (ground (arith, eq_iff i k, eq_iff k i)) f, Distinct-insert k v m d)
  ]

  Fresh-remove : (k j : String) (m : Assoc V) → Fresh j m → Fresh j (remove k m)
  unfolding remove
  Fresh-remove k j [] h = tt
  Fresh-remove k j ((i, w) ∷ m) (f, h) = elim (Bool-cases (i == k)) [
    | inl same ↦ rw same (Fresh-remove k j m h)
    | inr other ↦ rw other (f, Fresh-remove k j m h)
  ]

  pub Distinct-remove : (k : String) (m : Assoc V) → Distinct m → Distinct (remove k m)
  unfolding remove
  Distinct-remove k [] d = tt
  Distinct-remove k ((i, w) ∷ m) (f, d) = elim (Bool-cases (i == k)) [
    | inl same ↦ rw same (Distinct-remove k m d)
    | inr other ↦ rw other (Fresh-remove k i m f, Distinct-remove k m d)
  ]

  Fresh-retain : (p : V → Bool) (j : String) (m : Assoc V) → Fresh j m → Fresh j (retain p m)
  unfolding retain
  Fresh-retain p j [] h = tt
  Fresh-retain p j ((i, w) ∷ m) (f, h) = elim (Bool-cases (p w)) [
    | inl e ↦ rw e (f, Fresh-retain p j m h)
    | inr e ↦ rw e (Fresh-retain p j m h)
  ]

  pub Distinct-retain : (p : V → Bool) (m : Assoc V) → Distinct m → Distinct (retain p m)
  unfolding retain
  Distinct-retain p [] d = tt
  Distinct-retain p ((i, w) ∷ m) (f, d) = elim (Bool-cases (p w)) [
    | inl e ↦ rw e (Fresh-retain p i m f, Distinct-retain p m d)
    | inr e ↦ rw e (Distinct-retain p m d)
  ]

  -- What a lookup finds after a sweep is what it found before, if that passes the test.
  abbrev pub passing : (V → Bool) → Option V → Option V
  passing p none = none
  passing p (some v) = if p v then some v else none

  pub lookup-retain :
      (p : V → Bool) (k : String) (m : Assoc V)
      → Distinct m
      → lookup k (retain p m) ≡ passing p (lookup k m)
  unfolding lookup retain
  lookup-retain p k [] d = refl
  lookup-retain p k ((j, w) ∷ m) (f, d) = ground (
    arith,
    lookup-retain p k m d,
    lookup_of_Fresh k m,
    λ (e : (j == k) ≡ true).
        lookup_of_Fresh k (retain p m) (Fresh-retain p k m (Fresh-eq j k m e f)),
  )

  pub insert_of_Fresh :
      (k : String) (v : V) (m : Assoc V) → Fresh k m → insert k v m ≡ m ++ (k, v) ∷ []
  unfolding insert
  insert_of_Fresh k v [] h = refl
  insert_of_Fresh k v ((j, w) ∷ m) (e, h) = rw (e, insert_of_Fresh k v m h)

  pub Fresh-append_one :
      (k j : String) (v : V) (m : Assoc V)
      → Fresh k m
      → (j == k) ≡ false
      → Fresh k (m ++ (j, v) ∷ [])
  Fresh-append_one k j v [] h e = (e, tt)
  Fresh-append_one k j v ((i, w) ∷ m) (f, h) e = (f, Fresh-append_one k j v m h e)

  found_value : (w v : V) → some w ≡ some v → w ≡ v
  found_value w v h = ground arith

  pub Any-of_lookup :
      (P : V → Type 0) (k : String) (v : V) (m : Assoc V)
      → lookup k m ≡ some v
      → P v
      → Any (λ p. P p.1) m
  unfolding lookup
  Any-of_lookup P k v [] e h = absurd (ground arith)
  Any-of_lookup P k v ((j, w) ∷ m) e h = elim (Bool-cases (j == k)) [
    | inl same ↦ Any.here (subst P (sym (found_value w v (ground (arith, e, same)))) h)
    | inr other ↦ Any.there (Any-of_lookup P k v m (ground (arith, e, other)) h)
  ]

-- What holds of every entry of a map and of a new one holds behind an insertion.
pub All-insert {ℓ} :
    {V : Type ℓ} (P : String × V → Type 0) (k : String) (v : V) (m : Assoc V)
    → P (k, v)
    → All P m
    → All P (insert k v m)
unfolding insert
All-insert P k v [] p h = (p, tt)
All-insert P k v ((j, w) ∷ m) p (q, h) = elim (Bool-cases (j == k)) [
  | inl e ↦ rw e (p, h)
  | inr e ↦ rw e (q, All-insert P k v m p h)
]
