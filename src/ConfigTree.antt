-- ===== src/ConfigTree.antt =====
-- internal/config/dottedpath.go: values of the configuration file by dotted path. A YAML tree is a
-- `Node` without its comments, anchors and styles; the content of a mapping is a list of pairs, as
-- the parser makes it. Parsing and encoding of a value are a parameter.

pub mod Laws
pub mod Errors
pub mod Keys
pub mod Examples
use open_pass.Base.{
  String, Bool, true, false, ◌==◌, Option, none, some, List, [], ◌∷◌, ◌++◌, if◌then◌else◌,
}
use open_pass.Base.Text.{join, split_on}

mutual
  -- `yaml.Node`; a node of kind 0 is what an empty file gives
  pub data Node : Type 0 where
    empty_node : Node
    document : Nodes → Node
    sequence : Nodes → Node
    mapping : Pairs → Node
    scalar : (tag value : String) → Node
    alias : (value : String) → Node

  pub data Nodes : Type 0 where
    no_nodes : Nodes
    more_nodes : Node → Nodes → Nodes

  -- the keys and values of a mapping, in turn
  pub data Pairs : Type 0 where
    no_pairs : Pairs
    pair : (key value : Node) → Pairs → Pairs

pub data GetError : Type 0 where
  parent_not_mapping : (part : String) → GetError
  key_not_found : (part : String) → GetError

pub data GetResult : Type 0 where
  found : Node → GetResult
  failed : GetError → GetResult

pub data SetError : Type 0 where
  empty_path root_not_mapping encode_failed : SetError
  set_parent_not_mapping : (part : String) → SetError

-- node.Value
abbrev pub node_value : Node → String
node_value (scalar tag v) = v
node_value (alias v) = v
node_value _ = ""

-- the value of the first key with the given text
unfoldable pub find_pair : String → Pairs → Option Node
find_pair part no_pairs = none
find_pair part (pair k v rest) = if node_value k == part then some v else find_pair part rest

-- the root, or the first child of a document
abbrev pub enter : Node → Node
enter (document (more_nodes n rest)) = n
enter n = n

-- one step along a path
abbrev pub follow : String → Option Node → (Node → GetResult) → GetResult
follow part none next = failed (key_not_found part)
follow part (some child) next = next child

-- The loop of `navigateToNode`, from one node on.
unfoldable pub navigate : List String → Node → GetResult
navigate [] n = found n
navigate (part ∷ rest) (mapping pairs) = follow part (find_pair part pairs) (navigate rest)
navigate (part ∷ rest) _ = failed (parent_not_mapping part)

abbrev pub navigate_to_node : Node → List String → GetResult
navigate_to_node root parts = navigate parts (enter root)

-- strings.Split(path, ".")
abbrev pub path_parts : String → List String
path_parts path = let parts = split_on b'.' path in parts.0 ∷ parts.1

unfoldable pub get_config_value : Node → String → GetResult
get_config_value root path = navigate_to_node root (path_parts path)

-- A change of a pair: what becomes of the value that is there, or not there, and the error. None
-- leaves the pairs as they are.
abbrev pub Change : Type 0
Change = Option Node → Option Node × Option SetError

abbrev put_value : Node → Node → Pairs → Option Node → Pairs
put_value k v rest none = pair k v rest
put_value k v rest (some w) = pair k w rest

abbrev add_pair : String → Option Node → Pairs
add_pair part none = no_pairs
add_pair part (some w) = pair (scalar "!!str" part) w no_pairs

-- The first pair with the key is changed, or a pair is added behind the others.
unfoldable pub change_pair : String → Change → Pairs → Pairs × Option SetError
change_pair part f no_pairs = let r = f none in (add_pair part r.0, r.1)
change_pair part f (pair k v rest) =
    let r = f (some v) in
    let tail = change_pair part f rest in
    if node_value k == part then (put_value k v rest r.0, r.1) else (pair k v tail.0, tail.1)

-- the value of the last part: its encoding, which may fail
abbrev pub set_last : Option Node → Change
set_last encoded old = elim encoded [ none ↦ (none, some encode_failed) | some v ↦ (some v, none) ]

abbrev keep_node : Node × Option SetError → Option Node × Option SetError
keep_node (n, e) = (some n, e)

-- a child that is a mapping is gone into, and any other, or none, gives way to a new mapping
abbrev pub set_child : (Node → Node × Option SetError) → Change
set_child go (some (mapping pairs)) = keep_node (go (mapping pairs))
set_child go _ = keep_node (go (mapping no_pairs))

abbrev set_pairs : String → Change → Node → Node × Option SetError
set_pairs part f (mapping pairs) = let r = change_pair part f pairs in (mapping r.0, r.1)
set_pairs part f n = (n, some (set_parent_not_mapping part))

-- The loop of `setNodeAtPath`, from one node on; the encoding of the value is made at the last part.
unfoldable pub set_in : Option Node → List String → Node → Node × Option SetError
set_in encoded [] n = (n, none)
set_in encoded (part ∷ []) n = set_pairs part (set_last encoded) n
set_in encoded (part ∷ next ∷ rest) n = set_pairs part (set_child (set_in encoded (next ∷ rest))) n

-- the root with its first child replaced, where it is a document
abbrev pub replace_entered : Node → Node → Node
replace_entered (document (more_nodes n rest)) m = document (more_nodes m rest)
replace_entered n m = m

abbrev set_mapping : Option Node → List String → Node → Node → Node × Option SetError
set_mapping encoded parts root (mapping pairs) =
    let r = set_in encoded parts (mapping pairs) in (replace_entered root r.0, r.1)
set_mapping encoded parts root _ = (root, some root_not_mapping)

unfoldable pub set_node_at_path : Option Node → List String → Node → Node × Option SetError
set_node_at_path encoded [] root = (root, some empty_path)
set_node_at_path encoded (part ∷ rest) root = set_mapping encoded (part ∷ rest) root (enter root)

-- `encode` is parseConfigValue with the encoding of its result.
unfoldable pub set_config_value :
    (encode : String → Option Node) → Node → String → String → Node × Option SetError
set_config_value encode root path value = set_node_at_path (encode value) (path_parts path) root

-- the prefix of `walkConfigTree` with a key behind it
abbrev pub full_path : String → String → String
full_path prefix key = if prefix == "" then key else join prefix (join "." key)

unfoldable mutual
  -- `walkConfigTree`, with the keys in the order in which it adds them
  pub walk_config_tree : Node → String → List String
  walk_config_tree empty_node prefix = []
  walk_config_tree (document nodes) prefix = walk_nodes nodes prefix
  walk_config_tree (mapping pairs) prefix = walk_pairs pairs prefix
  walk_config_tree (scalar tag v) prefix = prefix ∷ []
  walk_config_tree (sequence nodes) prefix = prefix ∷ []
  walk_config_tree (alias v) prefix = prefix ∷ []

  pub walk_nodes : Nodes → String → List String
  walk_nodes no_nodes prefix = []
  walk_nodes (more_nodes n rest) prefix = walk_config_tree n prefix ++ walk_nodes rest prefix

  pub walk_pairs : Pairs → String → List String
  walk_pairs no_pairs prefix = []
  walk_pairs (pair k v rest) prefix =
      walk_config_tree v (full_path prefix (node_value k)) ++ walk_pairs rest prefix

-- `ConfigTreeKeys`; a nil root is none
unfoldable pub config_tree_keys : Option Node → List String
config_tree_keys none = []
config_tree_keys (some root) = walk_config_tree root ""
