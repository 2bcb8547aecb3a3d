-- ===== src/Vault/Data/Merging.antt =====
-- internal/vault/entry.go: the values that paths of keys lead to, before and after `mergeMaps`.
use open_pass.Base.{
  String, ◌≡◌, refl, ap, subst, ◌∙◌, ◌⊎◌, inl, inr, Option, none, some, List, [], ◌∷◌,
}
use open_pass.Vault.Data.{
  Value, null, boolean, number, text_value, array, object, Fields, find_field, no_fields,
  deep_clone_value, deep_clone_map, merge_maps, merged,
}
use open_pass.Vault.Data.Laws.{
  OneEach, OneEachIn, IsScalar, get_path, then_get, then_get-some, get_path_object,
  OneEachIn-find_field, deep_clone_scalar, merged_scalar, merged_with, cloned_or,
  find_field-merge_maps, find_field-deep_clone_map,
}

some_eq : (v x : Value) → get_path [] v ≡ some x → v ≡ x
unfolding get_path
some_eq v x h = ap (λ o. elim o [ none ↦ v | some w ↦ w ]) h

clone_reaches :
    (p : List String) (v x : Value)
    → OneEachIn v
    → IsScalar x
    → get_path p v ≡ some x
    → get_path p (deep_clone_value v) ≡ some x
unfolding get_path deep_clone_value OneEachIn OneEach find_field
clone_reaches [] v x one s h = ap some (ap deep_clone_value (some_eq v x h) ∙ deep_clone_scalar x s)
clone_reaches (k ∷ p) v x one s h =
    let (fs, e) = get_path_object k p v x h in
    let d = subst OneEachIn e one in
    let (w, f, r) = then_get-some (find_field k fs) (get_path p) x (rw e at h) in
    let q : find_field k (deep_clone_map fs no_fields) ≡ some (deep_clone_value w) =
      find_field-deep_clone_map k fs no_fields d ∙ ap (cloned_or none) f in
    rw e (
      ap (λ o. then_get o (get_path p)) q
      ∙ clone_reaches p w x (OneEachIn-find_field k fs w d f) s r)

-- A map in the place of an old value: merged with an old map, or copied.
merged_object_cases :
    (fs : Fields) (old : Option Value)
    → ((d : Fields) × (merged (object fs) old ≡ object (merge_maps d fs)))
      ⊎ (merged (object fs) old ≡ deep_clone_value (object fs))
unfolding merged merge_maps
merged_object_cases fs none = inr refl
merged_object_cases fs (some null) = inr refl
merged_object_cases fs (some (boolean b)) = inr refl
merged_object_cases fs (some (number n)) = inr refl
merged_object_cases fs (some (text_value t)) = inr refl
merged_object_cases fs (some (array vs)) = inr refl
merged_object_cases fs (some (object d)) = inl (d, refl)

merged_reaches :
    (p : List String) (old : Option Value) (v x : Value)
    → OneEachIn v
    → IsScalar x
    → get_path p v ≡ some x
    → get_path p (merged v old) ≡ some x
unfolding get_path OneEachIn OneEach
merged_reaches [] old v x one s h =
    ap some (ap (λ w. merged w old) (some_eq v x h) ∙ merged_scalar x old s)
merged_reaches (k ∷ p) old v x one s h =
    let (fs, e) = get_path_object k p v x h in
    let d = subst OneEachIn e one in
    let g = rw e at h in
    rw e (elim (merged_object_cases fs old) [
      | inr c ↦ rw c (clone_reaches (k ∷ p) (object fs) x d s g)
      | inl (dst, c) ↦
          let (w, f, r) = then_get-some (find_field k fs) (get_path p) x g in
          let q = find_field-merge_maps k dst fs d ∙ ap (merged_with (find_field k dst)) f in
          rw c (
            ap (λ o. then_get o (get_path p)) q
            ∙ merged_reaches p (find_field k dst) w x (OneEachIn-find_field k fs w d f) s r)
    ])

-- Whether a merge leaves a path alone: the new data has no value on it.
abbrev UntouchedAt : (Fields → Type 0) → Option Value → Type 0
UntouchedAt next none = Unit
UntouchedAt next (some (object s)) = next s
UntouchedAt next (some _) = ⊥

abbrev pub Untouched : List String → Fields → Type 0
Untouched [] src = ⊥
Untouched (k ∷ p) src = UntouchedAt (Untouched p) (find_field k src)

Untouched_cases :
    (next : Fields → Type 0) (o : Option Value)
    → UntouchedAt next o
    → (o ≡ none) ⊎ ((s : Fields) × (o ≡ some (object s)) × next s)
Untouched_cases next none u = inl refl
Untouched_cases next (some (object s)) u = inr (s, refl, u)
Untouched_cases next (some null) u = absurd u
Untouched_cases next (some (boolean b)) u = absurd u
Untouched_cases next (some (number n)) u = absurd u
Untouched_cases next (some (text_value t)) u = absurd u
Untouched_cases next (some (array vs)) u = absurd u

module _ (dst src : Fields) (one : OneEach src) where
  -- After a merge, a path that leads to a text, number, Boolean or null of the new data leads to it,
  -- whatever the old data had on it.
  merge_maps_sets :
      (k : String) (p : List String) (x : Value)
      → IsScalar x
      → get_path (k ∷ p) (object src) ≡ some x
      → get_path (k ∷ p) (object (merge_maps dst src)) ≡ some x
  unfolding get_path
  merge_maps_sets k p x s h =
      let (w, f, r) = then_get-some (find_field k src) (get_path p) x h in
      let q = find_field-merge_maps k dst src one ∙ ap (merged_with (find_field k dst)) f in
      ap (λ o. then_get o (get_path p)) q
      ∙ merged_reaches p (find_field k dst) w x (OneEachIn-find_field k src w one f) s r

-- After a merge, a path on which the new data has no value leads where it led before.
pub merge_maps_keeps :
    (p : List String) (dst src : Fields) (x : Value)
    → OneEach src
    → Untouched p src
    → get_path p (object dst) ≡ some x
    → get_path p (object (merge_maps dst src)) ≡ some x
unfolding get_path merge_maps merged OneEachIn OneEach
merge_maps_keeps [] dst src x one u h = absurd u
merge_maps_keeps (k ∷ []) dst src x one u h =
    elim (Untouched_cases (Untouched []) (find_field k src) u) [
      | inl n ↦
          let m = find_field-merge_maps k dst src one ∙ ap (merged_with (find_field k dst)) n in
          ap (λ o. then_get o (get_path [])) m ∙ h
      | inr (s, f, v) ↦ absurd v
    ]
merge_maps_keeps (k ∷ next ∷ p) dst src x one u h =
    let m = find_field-merge_maps k dst src one in
    elim (Untouched_cases (Untouched (next ∷ p)) (find_field k src) u) [
      | inl n ↦
          ap (λ o. then_get o (get_path (next ∷ p))) (m ∙ ap (merged_with (find_field k dst)) n) ∙ h
      | inr (s, f, v) ↦
          let (w, g, r) = then_get-some (find_field k dst) (get_path (next ∷ p)) x h in
          let (d, e) = get_path_object next p w x r in
          let both : find_field k (merge_maps dst src) ≡ some (object (merge_maps d s)) =
            m
            ∙ ap (λ o. merged_with o (find_field k src)) (g ∙ ap some e)
            ∙ ap (merged_with (some (object d))) f in
          ap (λ o. then_get o (get_path (next ∷ p))) both
          ∙ merge_maps_keeps (next ∷ p) d s x (OneEachIn-find_field k src (object s) one f) v
              (rw e at r)
    ]
