-- ===== src/Vault/Search.antt =====
-- internal/vault/search.go: the fields of an entry that a search reports, with the patterns of the
-- fields that it must not. strings.ToLower, the verb %d and fmt.Sprint are parameters. The matches are
-- a set, so that the order in which the keys of a map are met does not matter.
pub mod Redaction
use Prim.Native.String
use open_pass.Base.{
  ℕ, zero, suc, String, Bool, true, false, ◌==◌, ◌&&◌, ◌||◌, List, any, if◌then◌else◌,
}
use open_pass.Base.Assoc.{Assoc, insert}
use open_pass.Base.Text.{join, contains_text, has_prefix, has_suffix, trim_suffix}
use open_pass.Vault.Data.{
  Value, null, boolean, number, text_value, array, object, Values, no_values, value_and, Fields,
  no_fields, field,
}

abbrev pub Matches : Type 0
Matches = Assoc (Unit {0})

-- one round of the loop of `isRedactedField`
abbrev pattern_redacts : String → String → Bool
pattern_redacts name pattern_text =
    if pattern_text == name || pattern_text == "*"
    then true
    else has_suffix pattern_text ".*" && has_prefix name (join (trim_suffix pattern_text ".*") ".")

unfoldable pub is_redacted_field : String → List String → Bool
is_redacted_field name patterns = any (pattern_redacts name) patterns

-- the name of a key in a map
abbrev pub key_name : (prefix key : String) → String
key_name prefix key = if prefix == "" then key else join prefix (join "." key)

module _ (to_lower : String → String) (digits : ℕ → String) (sprint : Value → String)
    (needle : String) (redact : List String) where
  -- the name of an item of a list
  abbrev pub item_name : (prefix : String) → ℕ → String
  item_name prefix i = join prefix (join "[" (join (digits i) "]"))

  -- the case of a value that is neither a map nor a list
  abbrev pub collect_leaf : Matches → String → Value → Matches
  collect_leaf matches prefix v =
      if prefix == ""
      then matches
      else if is_redacted_field prefix redact
      then matches
      else if needle == "" || contains_text (to_lower (sprint v)) needle
      then insert prefix tt matches
      else matches

  unfoldable mutual
    pub collect_field_matches : Matches → String → Value → Matches
    collect_field_matches matches prefix (object fields) = collect_fields matches prefix fields
    collect_field_matches matches prefix (array items) = collect_items matches prefix 0 items
    collect_field_matches matches prefix null = collect_leaf matches prefix null
    collect_field_matches matches prefix (boolean b) = collect_leaf matches prefix (boolean b)
    collect_field_matches matches prefix (number n) = collect_leaf matches prefix (number n)
    collect_field_matches matches prefix (text_value s) = collect_leaf matches prefix (text_value s)

    pub collect_fields : Matches → String → Fields → Matches
    collect_fields matches prefix no_fields = matches
    collect_fields matches prefix (field key v rest) =
        let name = key_name prefix key in
        collect_fields
          (if is_redacted_field name redact then matches else collect_field_matches matches name v)
          prefix rest

    pub collect_items : Matches → String → ℕ → Values → Matches
    collect_items matches prefix i no_values = matches
    collect_items matches prefix i (value_and v rest) =
        collect_items (collect_field_matches matches (item_name prefix i) v) prefix (suc i) rest
