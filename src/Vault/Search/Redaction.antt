-- ===== src/Vault/Search/Redaction.antt =====
-- A search learns nothing of redacted fields.

use open_pass.Base.{
  ℕ, suc, String, false, ◌==◌, ◌||◌, ◌≡◌, refl, List, [], ◌∷◌, All, if◌then◌else◌, inl, inr,
  Bool-cases,
}
use open_pass.Base.Assoc.{insert}
use open_pass.Base.Text.{contains_text}
use open_pass.Vault.Data.{
  Value, null, boolean, number, text_value, array, object, Values, no_values, value_and, Fields,
  no_fields, field,
}
use open_pass.Vault.Search.{
  Matches, is_redacted_field, key_name, item_name, collect_leaf, collect_field_matches,
  collect_fields, collect_items,
}

-- No redacted field is among the matches.
abbrev pub Discreet : List String → Matches → Type 0
Discreet redact matches = All (λ m. is_redacted_field m.0 redact ≡ false) matches

Discreet-insert :
    (redact : List String) (name : String) (matches : Matches)
    → is_redacted_field name redact ≡ false
    → Discreet redact matches
    → Discreet redact (insert name tt matches)
unfolding insert
Discreet-insert redact name [] r h = (r, tt)
Discreet-insert redact name ((k, u) ∷ rest) r (p, h) = elim (Bool-cases (k == name)) [
  | inl e ↦ rw e (r, h)
  | inr e ↦ rw e (p, Discreet-insert redact name rest r h)
]

module _ (to_lower : String → String) (digits : ℕ → String) (sprint : Value → String)
    (needle : String) (redact : List String) where
  abbrev leaf_of : Matches → String → Value → Matches
  leaf_of = collect_leaf to_lower digits sprint needle redact

  -- What is left of a value when redacted fields, at whatever depth, are taken out.
  unfoldable mutual
    pub without_redacted : String → Value → Value
    without_redacted prefix (object fields) = object (fields_without prefix fields)
    without_redacted prefix (array items) = array (items_without prefix 0 items)
    without_redacted prefix null = null
    without_redacted prefix (boolean b) =
        if is_redacted_field prefix redact then null else boolean b
    without_redacted prefix (number n) = if is_redacted_field prefix redact then null else number n
    without_redacted prefix (text_value s) =
        if is_redacted_field prefix redact then null else text_value s

    fields_without : String → Fields → Fields
    fields_without prefix no_fields = no_fields
    fields_without prefix (field key v rest) =
        field key
          (if is_redacted_field (key_name prefix key) redact
            then null
            else without_redacted (key_name prefix key) v)
          (fields_without prefix rest)

    items_without : String → ℕ → Values → Values
    items_without prefix i no_values = no_values
    items_without prefix i (value_and v rest) =
        value_and (without_redacted (item_name to_lower digits sprint needle redact prefix i) v)
          (items_without prefix (suc i) rest)

  collect_leaf-Discreet :
      (matches : Matches) (prefix : String) (v : Value)
      → Discreet redact matches
      → Discreet redact (leaf_of matches prefix v)
  collect_leaf-Discreet matches prefix v h = elim (Bool-cases (prefix == "")) [
    | inl e ↦ rw e h
    | inr e ↦ elim (Bool-cases (is_redacted_field prefix redact)) [
      | inl r ↦ rw (e, r) h
      | inr r ↦ elim (Bool-cases (needle == "" || contains_text (to_lower (sprint v)) needle)) [
        | inl m ↦ rw (e, r, m) (Discreet-insert redact prefix matches r h)
        | inr m ↦ rw (e, r, m) h
      ]
    ]
  ]

  collect_leaf-without :
      (matches : Matches) (prefix : String) (v : Value)
      → collect_field_matches to_lower digits sprint needle redact matches prefix v
        ≡ leaf_of matches prefix v
      → collect_field_matches to_lower digits sprint needle redact matches prefix
          (if is_redacted_field prefix redact then null else v)
        ≡ collect_field_matches to_lower digits sprint needle redact matches prefix v
  unfolding collect_field_matches
  collect_leaf-without matches prefix v is_leaf =
      elim (Bool-cases (is_redacted_field prefix redact)) [
        | inr r ↦ rw r refl
        | inl r ↦ elim (Bool-cases (prefix == "")) [
          | inl e ↦ rw (is_leaf, r, e) refl
          | inr e ↦ rw (is_leaf, r, e, r) refl
        ]
      ]

  abbrev collect : Matches → String → Value → Matches
  collect = collect_field_matches to_lower digits sprint needle redact

  mutual
    unfolding collect_field_matches collect_fields collect_items

    value_Discreet :
        (v : Value) (matches : Matches) (prefix : String)
        → Discreet redact matches
        → Discreet redact (collect matches prefix v)
    value_Discreet (object fs) matches prefix h = fields_Discreet fs matches prefix h
    value_Discreet (array items) matches prefix h = items_Discreet items matches prefix 0 h
    value_Discreet null matches prefix h = collect_leaf-Discreet matches prefix null h
    value_Discreet (boolean b) matches prefix h = collect_leaf-Discreet matches prefix (boolean b) h
    value_Discreet (number n) matches prefix h = collect_leaf-Discreet matches prefix (number n) h
    value_Discreet (text_value t) matches prefix h =
        collect_leaf-Discreet matches prefix (text_value t) h

    fields_Discreet :
        (fs : Fields) (matches : Matches) (prefix : String)
        → Discreet redact matches
        → Discreet redact (collect_fields to_lower digits sprint needle redact matches prefix fs)
    fields_Discreet no_fields matches prefix h = h
    fields_Discreet (field key v rest) matches prefix h =
        let name = key_name prefix key in
        let found = value_Discreet v matches name h in
        elim (Bool-cases (is_redacted_field name redact)) [
          | inl r ↦ rw r (fields_Discreet rest matches prefix h)
          | inr r ↦ rw r (fields_Discreet rest (collect matches name v) prefix found)
        ]

    items_Discreet :
        (items : Values) (matches : Matches) (prefix : String) (i : ℕ)
        → Discreet redact matches
        → Discreet redact
            (collect_items to_lower digits sprint needle redact matches prefix i items)
    items_Discreet no_values matches prefix i h = h
    items_Discreet (value_and v rest) matches prefix i h =
        items_Discreet rest
          (collect matches (item_name to_lower digits sprint needle redact prefix i) v) prefix
          (suc i)
          (value_Discreet v matches (item_name to_lower digits sprint needle redact prefix i) h)

  mutual
    unfolding collect_field_matches collect_fields collect_items without_redacted fields_without
        items_without

    value_without :
        (v : Value) (matches : Matches) (prefix : String)
        → collect matches prefix (without_redacted prefix v) ≡ collect matches prefix v
    value_without (object fs) matches prefix = fields_without_lem fs matches prefix
    value_without (array items) matches prefix = items_without_lem items matches prefix 0
    value_without null matches prefix = refl
    value_without (boolean b) matches prefix = collect_leaf-without matches prefix (boolean b) refl
    value_without (number n) matches prefix = collect_leaf-without matches prefix (number n) refl
    value_without (text_value t) matches prefix =
        collect_leaf-without matches prefix (text_value t) refl

    fields_without_lem :
        (fs : Fields) (matches : Matches) (prefix : String)
        → collect_fields to_lower digits sprint needle redact matches prefix
            (fields_without prefix fs)
          ≡ collect_fields to_lower digits sprint needle redact matches prefix fs
    fields_without_lem no_fields matches prefix = refl
    fields_without_lem (field key v rest) matches prefix =
        let name = key_name prefix key in
        let inside = value_without v matches name in
        elim (Bool-cases (is_redacted_field name redact)) [
          | inl r ↦ rw r (fields_without_lem rest matches prefix)
          | inr r ↦ rw (r, inside) (fields_without_lem rest (collect matches name v) prefix)
        ]

    items_without_lem :
        (items : Values) (matches : Matches) (prefix : String) (i : ℕ)
        → collect_items to_lower digits sprint needle redact matches prefix i
            (items_without prefix i items)
          ≡ collect_items to_lower digits sprint needle redact matches prefix i items
    items_without_lem no_values matches prefix i = refl
    items_without_lem (value_and v rest) matches prefix i =
        let name = item_name to_lower digits sprint needle redact prefix i in
        rw (value_without v matches name)
          (items_without_lem rest (collect matches name v) prefix (suc i))

  -- The fields that a search reports of an entry are not redacted, and they are the same when the
  -- values of the redacted fields, at whatever depth, are taken out of the entry.
  pub collect_field_matches-Discreet :
      (v : Value)
      → Discreet redact (collect [] "" v)
        × (collect [] "" (without_redacted "" v) ≡ collect [] "" v)
  collect_field_matches-Discreet v = (value_Discreet v [] "" tt, value_without v [] "")
