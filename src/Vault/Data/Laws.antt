-- ===== src/Vault/Data/Laws.antt =====
-- internal/vault/entry.go: what `mergeMaps` keeps and sets, in whatever order it meets the keys.
use open_pass.Base.{
  String, true, false, ◌==◌, ◌≡◌, refl, ap, subst, ◌∙◌, inl, inr, Option, none, some, List, [], ◌∷◌,
  if◌then◌else◌, Bool-cases, arith,
}
use text.Mathlib.TextEquality.{eq_iff}
use open_pass.Vault.Data.{
  Value, null, boolean, number, text_value, array, object, Fields, no_fields, field, find_field,
  put_field, deep_clone_value, deep_clone_map, merge_maps, merged,
}

find_field-put_field :
    (name other : String) (v : Value) (fs : Fields)
    → find_field other (put_field name v fs)
      ≡ (if name == other then some v else find_field other fs)
unfolding find_field put_field
find_field-put_field name other v no_fields = refl
find_field-put_field name other v (field k w rest) = ground (
  arith,
  find_field-put_field name other v rest,
  eq_iff k name,
  eq_iff k other,
  eq_iff name other,
)

abbrev NoField : String → Fields → Type 0
NoField name no_fields = Unit
NoField name (field k v rest) = ((k == name) ≡ false) × NoField name rest

-- A Go map has each key once, and so have the maps in it.
unfoldable mutual
  pub OneEach : Fields → Type 0
  OneEach no_fields = Unit
  OneEach (field k v rest) = NoField k rest × OneEachIn v × OneEach rest

  pub OneEachIn : Value → Type 0
  OneEachIn (object fs) = OneEach fs
  OneEachIn _ = Unit

find_field_of_NoField :
    (k name : String) (fs : Fields) → NoField k fs → (k == name) ≡ true → find_field name fs ≡ none
unfolding find_field
find_field_of_NoField k name no_fields n e = refl
find_field_of_NoField k name (field j v rest) (m, n) e =
    let miss : (j == name) ≡ false =
      ground (arith, m, e, eq_iff j k, eq_iff k name, eq_iff j name) in
    rw miss (find_field_of_NoField k name rest n e)

abbrev pub merged_with : Option Value → Option Value → Option Value
merged_with old none = old
merged_with old (some v) = some (merged v old)

-- After a merge, each key has what becomes of its value alone.
pub find_field-merge_maps :
    (name : String) (dst src : Fields)
    → OneEach src
    → find_field name (merge_maps dst src) ≡ merged_with (find_field name dst) (find_field name src)
unfolding merge_maps find_field OneEach OneEachIn
find_field-merge_maps name dst no_fields d = refl
find_field-merge_maps name dst (field k v rest) (n, _, d) =
    let w = merged v (find_field k dst) in
    find_field-merge_maps name (put_field k w dst) rest d
    ∙ ap (λ o. merged_with o (find_field name rest)) (find_field-put_field k name w dst)
    ∙ elim (Bool-cases (k == name)) [
      | inl e ↦
          let gone = find_field_of_NoField k name rest n e in
          let same : k ≡ name = ground (arith, e, eq_iff k name) in
          rw (e, gone) (ap (λ j. some (merged v (find_field j dst))) same)
      | inr e ↦ rw e refl
    ]

abbrev pub cloned_or : Option Value → Option Value → Option Value
cloned_or old none = old
cloned_or old (some v) = some (deep_clone_value v)

pub find_field-deep_clone_map :
    (name : String) (fs clone : Fields)
    → OneEach fs
    → find_field name (deep_clone_map fs clone)
      ≡ cloned_or (find_field name clone) (find_field name fs)
unfolding deep_clone_value find_field OneEach OneEachIn
find_field-deep_clone_map name no_fields clone d = refl
find_field-deep_clone_map name (field k v rest) clone (n, _, d) =
    let w = deep_clone_value v in
    find_field-deep_clone_map name rest (put_field k w clone) d
    ∙ ap (λ o. cloned_or o (find_field name rest)) (find_field-put_field k name w clone)
    ∙ elim (Bool-cases (k == name)) [
      | inl e ↦ let gone = find_field_of_NoField k name rest n e in rw (e, gone) refl
      | inr e ↦ rw e refl
    ]

-- A value that is neither a list nor a map.
abbrev pub IsScalar : Value → Type 0
IsScalar (array vs) = ⊥
IsScalar (object f) = ⊥
IsScalar _ = Unit

pub deep_clone_scalar : (x : Value) → IsScalar x → deep_clone_value x ≡ x
unfolding deep_clone_value
deep_clone_scalar null s = refl
deep_clone_scalar (boolean b) s = refl
deep_clone_scalar (number n) s = refl
deep_clone_scalar (text_value t) s = refl
deep_clone_scalar (array vs) s = absurd s
deep_clone_scalar (object f) s = absurd s

pub merged_scalar : (x : Value) (old : Option Value) → IsScalar x → merged x old ≡ x
unfolding merge_maps merged deep_clone_value
merged_scalar null old s = refl
merged_scalar (boolean b) old s = refl
merged_scalar (number n) old s = refl
merged_scalar (text_value t) old s = refl
merged_scalar (array vs) old s = absurd s
merged_scalar (object f) old s = absurd s

abbrev pub then_get : Option Value → (Value → Option Value) → Option Value
then_get none next = none
then_get (some v) next = next v

-- The value that a list of keys leads to.
unfoldable pub get_path : List String → Value → Option Value
get_path [] v = some v
get_path (k ∷ p) (object fs) = then_get (find_field k fs) (get_path p)
get_path (k ∷ p) _ = none

pub then_get-some :
    (o : Option Value) (next : Value → Option Value) (x : Value)
    → then_get o next ≡ some x
    → (v : Value) × (o ≡ some v) × (next v ≡ some x)
then_get-some none next x h = absurd (ground (arith, h))
then_get-some (some v) next x h = (v, refl, h)

-- A path that leads on from a value leads through a map.
pub get_path_object :
    (k : String) (p : List String) (v x : Value)
    → get_path (k ∷ p) v ≡ some x
    → (fs : Fields) × (v ≡ object fs)
unfolding get_path
get_path_object k p (object fs) x h = (fs, refl)
get_path_object k p null x h = absurd (ground (arith, h))
get_path_object k p (boolean b) x h = absurd (ground (arith, h))
get_path_object k p (number n) x h = absurd (ground (arith, h))
get_path_object k p (text_value t) x h = absurd (ground (arith, h))
get_path_object k p (array vs) x h = absurd (ground (arith, h))

some_value : (v w : Value) → some v ≡ some w → v ≡ w
some_value v w h = ap (λ o. elim o [ none ↦ v | some x ↦ x ]) h

pub OneEachIn-find_field :
    (k : String) (fs : Fields) (v : Value) → OneEach fs → find_field k fs ≡ some v → OneEachIn v
unfolding OneEach OneEachIn find_field
OneEachIn-find_field k no_fields v d h = absurd (ground (arith, h))
OneEachIn-find_field k (field j w rest) v (n, one, d) h = elim (Bool-cases (j == k)) [
  | inl e ↦ subst OneEachIn (some_value w v (rw e at h)) one
  | inr e ↦ OneEachIn-find_field k rest v d (rw e at h)
]
