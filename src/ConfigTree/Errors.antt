-- ===== src/ConfigTree/Errors.antt =====
-- internal/config/dottedpath.go: when `SetConfigValue` fails.
use open_pass.Base.{String, ◌≡◌, refl, ap, ◌∙◌, Option, none, some, List, [], ◌∷◌}
use open_pass.Base.Text.{split_on}
use open_pass.ConfigTree.{
  Node, empty_node, document, sequence, mapping, scalar, alias, Pairs, SetError, encode_failed,
  root_not_mapping, find_pair, enter, set_last, set_child, set_in, set_mapping, set_node_at_path,
  set_config_value,
}
use open_pass.ConfigTree.Laws.{change_pair_error, set_child_cases, navigate-set_in}

-- the error for a root that is entered at the node
abbrev pub set_outcome : Option Node → Node → Option SetError
set_outcome none (mapping pairs) = some encode_failed
set_outcome (some v) (mapping pairs) = none
set_outcome encoded _ = some root_not_mapping

set_in_unencoded :
    (part : String) (rest : List String) (pairs : Pairs)
    → (set_in none (part ∷ rest) (mapping pairs)).1 ≡ some encode_failed
unfolding set_in
set_in_unencoded part [] pairs = change_pair_error part (set_last none) pairs
set_in_unencoded part (next ∷ rest) pairs =
    let go = set_in none (next ∷ rest) in
    let (inside, c) = set_child_cases go (find_pair part pairs) in
    change_pair_error part (set_child go) pairs
    ∙ ap (λ r. r.1) c
    ∙ set_in_unencoded next rest inside

set_mapping_error :
    (encoded : Option Node) (part : String) (rest : List String) (root n : Node)
    → (set_mapping encoded (part ∷ rest) root n).1 ≡ set_outcome encoded n
set_mapping_error none part rest root (mapping pairs) = set_in_unencoded part rest pairs
set_mapping_error (some v) part rest root (mapping pairs) = (navigate-set_in v part rest pairs).1
set_mapping_error none part rest root empty_node = refl
set_mapping_error (some v) part rest root empty_node = refl
set_mapping_error none part rest root (document n) = refl
set_mapping_error (some v) part rest root (document n) = refl
set_mapping_error none part rest root (sequence n) = refl
set_mapping_error (some v) part rest root (sequence n) = refl
set_mapping_error none part rest root (scalar t v) = refl
set_mapping_error (some w) part rest root (scalar t v) = refl
set_mapping_error none part rest root (alias v) = refl
set_mapping_error (some w) part rest root (alias v) = refl

-- `SetConfigValue` fails exactly on a root that is no mapping, and, on one that is, for a value that
-- cannot be encoded; the error says which.
set_config_value_error :
    (encode : String → Option Node) (root : Node) (path value : String)
    → (set_config_value encode root path value).1 ≡ set_outcome (encode value) (enter root)
unfolding set_config_value set_node_at_path
set_config_value_error encode root path value =
    let parts = split_on b'.' path in
    set_mapping_error (encode value) parts.0 parts.1 root (enter root)
