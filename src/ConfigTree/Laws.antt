-- ===== src/ConfigTree/Laws.antt =====
-- internal/config/dottedpath.go: `SetConfigValue` and `GetConfigValue` against each other.
use open_pass.Base.{
  String, true, false, ◌==◌, ◌≡◌, refl, sym, ap, ◌∙◌, inl, inr, ◌⊎◌, Option, none, some, List, [],
  ◌∷◌, Bool-cases, Option-cases, arith,
}
use text.Mathlib.TextEquality.{eq_iff}
use text.Mathlib.TextPositions.{eq_refl}
use open_pass.Base.Text.{split_on}
use open_pass.ConfigTree.{
  Node, empty_node, document, sequence, mapping, scalar, alias, no_nodes, more_nodes, Pairs,
  no_pairs, pair, GetResult, found, SetError, node_value, find_pair, enter, follow, navigate,
  path_parts, get_config_value, Change, change_pair, set_last, set_child, keep_node, set_in,
  set_mapping, replace_entered, set_node_at_path, set_config_value,
}

-- the value after a change
abbrev after_change : Option Node → Option Node → Option Node
after_change none old = old
after_change (some v) old = some v

find_pair-change_pair :
    (part : String) (f : Change) (pairs : Pairs)
    → find_pair part (change_pair part f pairs).0
      ≡ after_change (f (find_pair part pairs)).0 (find_pair part pairs)
unfolding find_pair change_pair
find_pair-change_pair part f no_pairs = elim (Option-cases (f none).0) [
  | inl e ↦ rw e refl
  | inr (v, e) ↦ rw (e, eq_refl part) refl
]
find_pair-change_pair part f (pair k v rest) = elim (Bool-cases (node_value k == part)) [
  | inl e ↦ elim (Option-cases (f (some v)).0) [
    | inl n ↦ rw (e, n, e) refl
    | inr (w, n) ↦ rw (e, n, e) refl
  ]
  | inr e ↦ rw (e, e) (find_pair-change_pair part f rest)
]

find_pair_other :
    (part other : String) (f : Change) (pairs : Pairs)
    → (part == other) ≡ false
    → find_pair other (change_pair part f pairs).0 ≡ find_pair other pairs
unfolding find_pair change_pair
find_pair_other part other f no_pairs h = elim (Option-cases (f none).0) [
  | inl e ↦ rw e refl
  | inr (v, e) ↦ rw (e, h) refl
]
find_pair_other part other f (pair k v rest) h = elim (Bool-cases (node_value k == part)) [
  | inl e ↦
      let miss : (node_value k == other) ≡ false =
        ground (
          arith,
          e,
          h,
          eq_iff (node_value k) part,
          eq_iff (node_value k) other,
          eq_iff part other,
        ) in
      elim (Option-cases (f (some v)).0) [
        | inl n ↦ rw (e, n) refl
        | inr (w, n) ↦ rw (e, n, miss) refl
      ]
  | inr e ↦ elim (Bool-cases (node_value k == other)) [
    | inl s ↦ rw (e, s) refl
    | inr s ↦ rw (e, s) (find_pair_other part other f rest h)
  ]
]

pub change_pair_error :
    (part : String) (f : Change) (pairs : Pairs)
    → (change_pair part f pairs).1 ≡ (f (find_pair part pairs)).1
unfolding find_pair change_pair
change_pair_error part f no_pairs = refl
change_pair_error part f (pair k v rest) = elim (Bool-cases (node_value k == part)) [
  | inl e ↦ rw e refl
  | inr e ↦ rw e (change_pair_error part f rest)
]

-- The rest of the path is set in a mapping, an old one or a new one.
pub set_child_cases :
    (go : Node → Node × Option SetError) (old : Option Node)
    → (pairs : Pairs) × (set_child go old ≡ keep_node (go (mapping pairs)))
set_child_cases go none = (no_pairs, refl)
set_child_cases go (some empty_node) = (no_pairs, refl)
set_child_cases go (some (document n)) = (no_pairs, refl)
set_child_cases go (some (sequence n)) = (no_pairs, refl)
set_child_cases go (some (mapping pairs)) = (pairs, refl)
set_child_cases go (some (scalar t v)) = (no_pairs, refl)
set_child_cases go (some (alias v)) = (no_pairs, refl)

pub navigate-set_in :
    (v : Node) (part : String) (rest : List String) (pairs : Pairs)
    → (navigate (part ∷ rest) (set_in (some v) (part ∷ rest) (mapping pairs)).0 ≡ found v)
      × ((set_in (some v) (part ∷ rest) (mapping pairs)).1 ≡ none)
unfolding navigate set_in
navigate-set_in v part [] pairs =
    let q = find_pair-change_pair part (set_last (some v)) pairs in
    (rw q refl, change_pair_error part (set_last (some v)) pairs)
navigate-set_in v part (next ∷ rest) pairs =
    let go = set_in (some v) (next ∷ rest) in
    let (inside, c) = set_child_cases go (find_pair part pairs) in
    let q = find_pair-change_pair part (set_child go) pairs in
    let (a, b) = navigate-set_in v next rest inside in
    (rw (q, c) a, change_pair_error part (set_child go) pairs ∙ ap (λ r. r.1) c ∙ b)

-- Two paths part at some place: neither is the start of the other.
abbrev pub Diverges : List String → List String → Type 0
Diverges (a ∷ p) (b ∷ q) = ((a == b) ≡ false) ⊎ (((a == b) ≡ true) × Diverges p q)
Diverges _ _ = ⊥

-- A node that a path leads on from is a mapping.
is_mapping_of_navigate :
    (b : String) (q : List String) (n x : Node)
    → navigate (b ∷ q) n ≡ found x
    → (pairs : Pairs) × (n ≡ mapping pairs)
unfolding navigate
is_mapping_of_navigate b q (mapping pairs) x h = (pairs, refl)
is_mapping_of_navigate b q empty_node x h = absurd (ground (arith, h))
is_mapping_of_navigate b q (document n) x h = absurd (ground (arith, h))
is_mapping_of_navigate b q (sequence n) x h = absurd (ground (arith, h))
is_mapping_of_navigate b q (scalar t v) x h = absurd (ground (arith, h))
is_mapping_of_navigate b q (alias v) x h = absurd (ground (arith, h))

follow_found :
    (part : String) (o : Option Node) (next : Node → GetResult) (x : Node)
    → follow part o next ≡ found x
    → (child : Node) × (o ≡ some child) × (next child ≡ found x)
follow_found part none next x h = absurd (ground (arith, h))
follow_found part (some child) next x h = (child, refl, h)

navigate-set_in_other :
    (encoded : Option Node) (p q : List String) (pairs : Pairs) (x : Node)
    → Diverges p q
    → navigate q (mapping pairs) ≡ found x
    → navigate q (set_in encoded p (mapping pairs)).0 ≡ found x
unfolding navigate set_in
navigate-set_in_other encoded (a ∷ []) (b ∷ q) pairs x (inl d) h =
    rw (find_pair_other a b (set_last encoded) pairs d) h
navigate-set_in_other encoded (a ∷ next ∷ p) (b ∷ q) pairs x (inl d) h =
    rw (find_pair_other a b (set_child (set_in encoded (next ∷ p))) pairs d) h
navigate-set_in_other encoded (a ∷ next ∷ p) (b ∷ c ∷ q) pairs x (inr (e, d)) h =
    let same : b ≡ a = ground (arith, e, eq_iff a b) in
    let go = set_in encoded (next ∷ p) in
    let (child, f, r) = follow_found b (find_pair b pairs) (navigate (c ∷ q)) x h in
    let (inside, m) = is_mapping_of_navigate c q child x r in
    let old : find_pair a pairs ≡ some (mapping inside) = rw (sym same) (f ∙ ap some m) in
    let set = find_pair-change_pair a (set_child go) pairs in
    rw (same, set, old) (navigate-set_in_other encoded (next ∷ p) (c ∷ q) inside x d (rw m at r))
navigate-set_in_other encoded [] q pairs x d h = absurd d
navigate-set_in_other encoded (a ∷ []) [] pairs x d h = absurd d
navigate-set_in_other encoded (a ∷ next ∷ p) [] pairs x d h = absurd d
navigate-set_in_other encoded (a ∷ []) (b ∷ q) pairs x (inr (e, d)) h = absurd d
navigate-set_in_other encoded (a ∷ next ∷ p) (b ∷ []) pairs x (inr (e, d)) h = absurd d

-- What `SetConfigValue` sets: a mapping, or a document with one.
abbrev pub HasMapping : Node → Type 0
HasMapping root = (pairs : Pairs) × (enter root ≡ mapping pairs)

enter-replace_entered :
    (root : Node) (pairs inside : Pairs)
    → enter root ≡ mapping pairs
    → enter (replace_entered root (mapping inside)) ≡ mapping inside
enter-replace_entered (document (more_nodes n rest)) pairs inside h = refl
enter-replace_entered (document no_nodes) pairs inside h = refl
enter-replace_entered empty_node pairs inside h = refl
enter-replace_entered (mapping m) pairs inside h = refl
enter-replace_entered (sequence n) pairs inside h = refl
enter-replace_entered (scalar t v) pairs inside h = refl
enter-replace_entered (alias v) pairs inside h = refl

set_in_mapping :
    (encoded : Option Node) (part : String) (rest : List String) (pairs : Pairs)
    → (inside : Pairs) × ((set_in encoded (part ∷ rest) (mapping pairs)).0 ≡ mapping inside)
unfolding set_in
set_in_mapping encoded part [] pairs = (_, refl)
set_in_mapping encoded part (next ∷ rest) pairs = (_, refl)

set_node_at_path_mapping :
    (encoded : Option Node) (part : String) (rest : List String) (root : Node) (pairs : Pairs)
    → enter root ≡ mapping pairs
    → set_node_at_path encoded (part ∷ rest) root ≡ (
      replace_entered root (set_in encoded (part ∷ rest) (mapping pairs)).0,
      (set_in encoded (part ∷ rest) (mapping pairs)).1,
    )
unfolding set_node_at_path
set_node_at_path_mapping encoded part rest root pairs h =
    ap (set_mapping encoded (part ∷ rest) root) h

-- The root that is entered after a change is the changed root.
enter_changed :
    (encoded : Option Node) (part : String) (rest : List String) (root : Node) (pairs : Pairs)
    → enter root ≡ mapping pairs
    → enter (set_node_at_path encoded (part ∷ rest) root).0
      ≡ (set_in encoded (part ∷ rest) (mapping pairs)).0
enter_changed encoded part rest root pairs h =
    let (inside, m) = set_in_mapping encoded part rest pairs in
    ap (λ r. enter r.0) (set_node_at_path_mapping encoded part rest root pairs h)
    ∙ ap (λ n. enter (replace_entered root n)) m
    ∙ enter-replace_entered root pairs inside h
    ∙ sym m

module _ (encode : String → Option Node) where
  -- Setting a path of a configuration that is a mapping succeeds where the value has an encoding,
  -- and then getting the path gives that value, whatever was at the path and above it.
  pub get_config_value-set_config_value :
      (root : Node) (pairs : Pairs) (path value : String) (v : Node)
      → enter root ≡ mapping pairs
      → encode value ≡ some v
      → ((set_config_value encode root path value).1 ≡ none)
        × (get_config_value (set_config_value encode root path value).0 path ≡ found v)
  unfolding set_config_value get_config_value
  get_config_value-set_config_value root pairs path value v h e =
      let parts = split_on b'.' path in
      let (a, b) = navigate-set_in v parts.0 parts.1 pairs in
      rw e (
        ap (λ r. r.1) (set_node_at_path_mapping (some v) parts.0 parts.1 root pairs h) ∙ b,
        ap (navigate (path_parts path)) (enter_changed (some v) parts.0 parts.1 root pairs h) ∙ a,
      )

  -- Setting a path, also where it fails, keeps every value that another path finds, if neither path
  -- is the start of the other.
  pub set_config_value_keeps :
      (root : Node) (path value other : String) (x : Node)
      → Diverges (path_parts path) (path_parts other)
      → get_config_value root other ≡ found x
      → get_config_value (set_config_value encode root path value).0 other ≡ found x
  unfolding set_config_value get_config_value
  set_config_value_keeps root path value other x d h =
      let parts = split_on b'.' path in
      let rest = split_on b'.' other in
      let (pairs, m) = is_mapping_of_navigate rest.0 rest.1 (enter root) x h in
      ap (navigate (path_parts other)) (enter_changed (encode value) parts.0 parts.1 root pairs m)
      ∙ navigate-set_in_other (encode value) (path_parts path) (path_parts other) pairs x d
          (rw m at h)
