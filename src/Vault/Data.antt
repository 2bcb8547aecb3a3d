-- ===== src/Vault/Data.antt =====
-- internal/vault/entry.go: the data of an entry, as JSON gives it, and its merging. Maps are lists of
-- fields in the order of insertion; values are not shared between maps, as `mergeMaps` copies them.
pub mod Laws
pub mod Merging
use open_pass.Base.{
  String, Bool, true, false, ◌==◌, Option, none, some, List, [], ◌∷◌, if◌then◌else◌,
}

mutual
  -- a value of type any, as encoding/json makes it
  pub data Value : Type 0 where
    null : Value
    boolean : Bool → Value
    number : (digits : String) → Value
    text_value : String → Value
    array : Values → Value
    object : Fields → Value

  pub data Values : Type 0 where
    no_values : Values
    value_and : Value → Values → Values

  -- map[string]any
  pub data Fields : Type 0 where
    no_fields : Fields
    field : String → Value → Fields → Fields

-- v, ok := m[name]
unfoldable pub find_field : String → Fields → Option Value
find_field name no_fields = none
find_field name (field k v rest) = if k == name then some v else find_field name rest

-- m[name] = v
unfoldable pub put_field : String → Value → Fields → Fields
put_field name v no_fields = field name v no_fields
put_field name v (field k w rest) =
    if k == name then field name v rest else field k w (put_field name v rest)

unfoldable mutual
  pub deep_clone_value : Value → Value
  deep_clone_value (object fs) = object (deep_clone_map fs no_fields)
  deep_clone_value (array values) = array (deep_clone_values values)
  deep_clone_value null = null
  deep_clone_value (boolean b) = boolean b
  deep_clone_value (number n) = number n
  deep_clone_value (text_value s) = text_value s

  pub deep_clone_values : Values → Values
  deep_clone_values no_values = no_values
  deep_clone_values (value_and v rest) = value_and (deep_clone_value v) (deep_clone_values rest)

  -- the loop over the map, on the clone so far
  pub deep_clone_map : Fields → Fields → Fields
  deep_clone_map no_fields clone = clone
  deep_clone_map (field k v rest) clone =
      deep_clone_map rest (put_field k (deep_clone_value v) clone)

unfoldable mutual
  -- the loop of `mergeMaps`
  pub merge_maps : Fields → Fields → Fields
  merge_maps dst no_fields = dst
  merge_maps dst (field k v rest) = merge_maps (put_field k (merged v (find_field k dst)) dst) rest

  -- what becomes of a value in the place of an old one: two maps are merged, anything else is
  -- replaced by a copy
  pub merged : Value → Option Value → Value
  merged (object s) (some (object d)) = object (merge_maps d s)
  merged v old = deep_clone_value v
