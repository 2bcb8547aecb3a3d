-- ===== src/ConfigTree/Examples.antt =====
-- Runs of the dotted paths on a small configuration.
use open_pass.Base.{String, ◌==◌, ◌≡◌, refl, inl, inr, Option, none, some, if◌then◌else◌}
use open_pass.Base.Text.{split_on}
use open_pass.ConfigTree.{
  Node, document, mapping, scalar, more_nodes, no_nodes, no_pairs, pair, found, find_pair, navigate,
  Pairs, get_config_value, set_config_value,
}
use open_pass.ConfigTree.Laws.{get_config_value-set_config_value, set_config_value_keeps}

abbrev text_node : String → Node
text_node s = scalar "!!str" s

-- git: {push: yes}, vault: v
abbrev sample_root : Node
sample_root = document (
    more_nodes
      (mapping (
        pair (text_node "git") (mapping (pair (text_node "push") (text_node "yes") no_pairs))
          (pair (text_node "vault") (text_node "v") no_pairs)))
      no_nodes)

abbrev encode_text : String → Option Node
encode_text s = if s == "bad" then none else some (text_node s)

get_config_value-set_config_value_example :
    ((set_config_value encode_text sample_root "git.pull" "no").1 ≡ none)
    × (get_config_value (set_config_value encode_text sample_root "git.pull" "no").0 "git.pull"
        ≡ found (text_node "no"))
get_config_value-set_config_value_example =
    get_config_value-set_config_value encode_text sample_root _ "git.pull" "no" (text_node "no")
      refl refl

set_config_value_keeps_example :
    get_config_value (set_config_value encode_text sample_root "git.pull" "bad").0 "git.push"
    ≡ found (text_node "yes")
unfolding get_config_value navigate find_pair split_on
set_config_value_keeps_example =
    set_config_value_keeps encode_text sample_root "git.pull" "bad" "git.push" (text_node "yes")
      (inr (refl, inl refl)) refl

abbrev sample_pairs : Pairs
sample_pairs =
    pair (text_node "git") (mapping (pair (text_node "push") (text_node "yes") no_pairs))
      (pair (text_node "vault") (text_node "v") no_pairs)
