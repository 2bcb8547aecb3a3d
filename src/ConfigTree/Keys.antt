-- ===== src/ConfigTree/Keys.antt =====
-- internal/config/dottedpath.go: the keys that `ConfigTreeKeys` lists can be got.

use open_pass.Base.{
  String, true, false, ◌==◌, ◌≡◌, refl, sym, ap, ◌∙◌, inl, inr, none, some, List, [], ◌∷◌, ◌++◌,
  Bool-cases, arith, All, Any, Any-append, append-nil,
}
use text.Mathlib.TextEquality.{eq_iff}
use text.Mathlib.TextPositions.{eq_refl}
use mathlib.Core.List.{append_assoc}
use open_pass.Base.Text.{join, contains_char}
use open_pass.Base.Text.Lines.{split_on-join, split_on_of_part, cons_not_empty}
use open_pass.ConfigTree.{
  Node, empty_node, document, sequence, mapping, scalar, alias, Pairs, no_pairs, pair, found,
  node_value, find_pair, navigate, path_parts, get_config_value, full_path, walk_config_tree,
  walk_pairs, walk_nodes, config_tree_keys,
}

-- A key that is a part of a path by itself.
abbrev pub IsPart : String → Type 0
IsPart s = ((s == "") ≡ false) × (contains_char s b'.' ≡ false)

abbrev pub NoKey : String → Pairs → Type 0
NoKey s no_pairs = Unit
NoKey s (pair k v rest) = ((node_value k == s) ≡ false) × NoKey s rest

unfoldable mutual
  -- Below a node, every key is a part of a path, and no mapping has a key twice.
  pub WellKeyed : Node → Type 0
  WellKeyed (mapping pairs) = WellKeyedPairs pairs
  WellKeyed (document nodes) = ⊥
  WellKeyed _ = Unit

  pub WellKeyedPairs : Pairs → Type 0
  WellKeyedPairs no_pairs = Unit
  WellKeyedPairs (pair k v rest) =
      IsPart (node_value k) × NoKey (node_value k) rest × WellKeyed v × WellKeyedPairs rest

-- a prefix with parts behind it
abbrev append_parts : String → List String → String
append_parts prefix [] = prefix
append_parts prefix (part ∷ rest) = append_parts (full_path prefix part) rest

-- What a walk finds: a node that is neither a mapping nor a document.
abbrev pub IsLeaf : Node → Type 0
IsLeaf (scalar t v) = Unit
IsLeaf (sequence n) = Unit
IsLeaf (alias v) = Unit
IsLeaf _ = ⊥

abbrev Reached : Node → String → String → Type 0
Reached n prefix key =
    (parts : List String) × (x : Node) × All IsPart parts
    × (key ≡ append_parts prefix parts)
    × (navigate parts n ≡ found x)
    × IsLeaf x

abbrev ReachedPair : Pairs → String → String → Type 0
ReachedPair pairs prefix key =
    (part : String) × (parts : List String) × (x : Node) × All IsPart (part ∷ parts)
    × (key ≡ append_parts prefix (part ∷ parts))
    × (navigate (part ∷ parts) (mapping pairs) ≡ found x)
    × IsLeaf x

find_pair_of_NoKey :
    (s part : String) (pairs : Pairs)
    → NoKey s pairs
    → (s == part) ≡ true
    → find_pair part pairs ≡ none
unfolding find_pair
find_pair_of_NoKey s part no_pairs h e = refl
find_pair_of_NoKey s part (pair k v rest) (n, h) e =
    let miss : (node_value k == part) ≡ false =
      ground (arith, n, e, eq_iff s part, eq_iff (node_value k) part, eq_iff (node_value k) s) in
    rw miss (find_pair_of_NoKey s part rest h e)

-- A path that leads on from some pairs leads on where a pair with another key is in front.
navigate_behind :
    (k v : Node) (rest : Pairs) (part : String) (parts : List String) (x : Node)
    → NoKey (node_value k) rest
    → navigate (part ∷ parts) (mapping rest) ≡ found x
    → navigate (part ∷ parts) (mapping (pair k v rest)) ≡ found x
unfolding navigate find_pair
navigate_behind k v rest part parts x n h = elim (Bool-cases (node_value k == part)) [
  | inl e ↦ absurd (ground (arith, rw (find_pair_of_NoKey (node_value k) part rest n e) at h))
  | inr e ↦ rw e h
]

mutual
  unfolding walk_config_tree walk_pairs walk_nodes WellKeyed WellKeyedPairs navigate find_pair

  walk_Reached :
      (n : Node) (prefix key : String)
      → WellKeyed n
      → Any (λ k. k ≡ key) (walk_config_tree n prefix)
      → Reached n prefix key
  walk_Reached empty_node prefix key w h = elim h [ ]
  walk_Reached (document nodes) prefix key w h = absurd w
  walk_Reached (mapping pairs) prefix key w h =
      let (part, parts, x, a, e, q, leaf) = walk_pairs_Reached pairs prefix key w h in
      (part ∷ parts, x, a, e, q, leaf)
  walk_Reached (scalar t v) prefix key w (Any.here e) = ([], scalar t v, tt, sym e, refl, tt)
  walk_Reached (sequence n) prefix key w (Any.here e) = ([], sequence n, tt, sym e, refl, tt)
  walk_Reached (alias v) prefix key w (Any.here e) = ([], alias v, tt, sym e, refl, tt)
  walk_Reached (scalar t v) prefix key w (Any.there h) = elim h [ ]
  walk_Reached (sequence n) prefix key w (Any.there h) = elim h [ ]
  walk_Reached (alias v) prefix key w (Any.there h) = elim h [ ]

  walk_pairs_Reached :
      (pairs : Pairs) (prefix key : String)
      → WellKeyedPairs pairs
      → Any (λ k. k ≡ key) (walk_pairs pairs prefix)
      → ReachedPair pairs prefix key
  walk_pairs_Reached no_pairs prefix key w h = elim h [ ]
  walk_pairs_Reached (pair k v rest) prefix key (p, n, wv, w) h =
      elim (Any-append (λ s. s ≡ key) (walk_config_tree v (full_path prefix (node_value k)))
        (walk_pairs rest prefix) h) [
          | inl a ↦
              let (parts, x, all, e, q, leaf) =
                walk_Reached v (full_path prefix (node_value k)) key wv a in
              (node_value k, parts, x, (p, all), e, rw (eq_refl (node_value k)) q, leaf)
          | inr b ↦
              let (part, parts, x, all, e, q, leaf) = walk_pairs_Reached rest prefix key w b in
              (part, parts, x, all, e, navigate_behind k v rest part parts x n q, leaf)
        ]

join_not_empty : (a b : String) → (a == "") ≡ false → (join a b == "") ≡ false
join_not_empty String.[] b h = absurd (ground (arith, h))
join_not_empty (String.◌∷◌ c a) b h = cons_not_empty c (join a b)

path_parts-append_parts :
    (s : String) (parts : List String)
    → (s == "") ≡ false
    → All IsPart parts
    → path_parts (append_parts s parts) ≡ path_parts s ++ parts
path_parts-append_parts s [] h a = sym (append-nil (path_parts s))
path_parts-append_parts s (b ∷ parts) h ((n, d), a) =
    let longer = join s (join "." b) in
    let one : path_parts longer ≡ path_parts s ++ b ∷ [] =
      ap (λ p. p.0 ∷ p.1) (split_on-join "." s b)
      ∙ ap (λ p. path_parts s ++ p.0 ∷ p.1) (split_on_of_part b'.' b d) in
    rw h (
      path_parts-append_parts longer parts (join_not_empty s (join "." b) h) a
      ∙ ap (λ z. z ++ parts) one
      ∙ append_assoc (path_parts s) (b ∷ []) parts)

-- Of a configuration whose root is a mapping, with no key twice in a mapping and no key that is empty or has a dot, every key
-- that `ConfigTreeKeys` lists is found by `GetConfigValue`, and it finds a leaf.
get_config_value_listed :
    (pairs : Pairs) (key : String)
    → WellKeyedPairs pairs
    → Any (λ k. k ≡ key) (config_tree_keys (some (mapping pairs)))
    → (x : Node) × (get_config_value (mapping pairs) key ≡ found x) × IsLeaf x
unfolding config_tree_keys walk_config_tree get_config_value
get_config_value_listed pairs key w h =
    let (part, parts, x, (p, all), e, q, leaf) = walk_pairs_Reached pairs "" key w h in
    let same =
      path_parts-append_parts part parts p.0 all
      ∙ ap (λ r. (r.0 ∷ r.1) ++ parts) (split_on_of_part b'.' part p.1) in
    (x, ap (λ ks. navigate ks (mapping pairs)) (ap path_parts e ∙ same) ∙ q, leaf)
