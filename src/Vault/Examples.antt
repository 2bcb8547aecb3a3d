-- ===== src/Vault/Examples.antt =====
-- Runs of the path checks and of the merging of entries.
use open_pass.Base.{◌≡◌, refl, some, [], ◌∷◌, ◌++◌}
use open_pass.Base.Text.{split_on, contains_char, has_prefix, strip_prefix}
use open_pass.Vault.Path.{normalize, segments, has_control, validate_path, validate_raw_entry_path}
use open_pass.Vault.Path.Laws.{resolve, resolve_valid}
use open_pass.Vault.Data.{text_value, object, Fields, no_fields, field, find_field, merge_maps}
use open_pass.Vault.Data.Laws.{OneEach, OneEachIn, get_path}
use open_pass.Vault.Search.{collect_field_matches}
use open_pass.Vault.Search.Redaction.{Discreet, without_redacted, collect_field_matches-Discreet}
use open_pass.Vault.Data.Merging.{merge_maps_keeps}

resolve_valid_example :
    resolve ("home" ∷ "vault" ∷ []) (segments (normalize "work\\mail"))
    ≡ ("home" ∷ "vault" ∷ []) ++ segments (normalize "work\\mail")
unfolding validate_raw_entry_path validate_path contains_char has_control normalize split_on
    has_prefix strip_prefix
resolve_valid_example = resolve_valid (λ s. s) "work\\mail" ("home" ∷ "vault" ∷ []) refl

-- totp: {secret: a, issuer: b}, user: u
abbrev old_data : Fields
old_data =
    field "totp"
      (object (field "secret" (text_value "a") (field "issuer" (text_value "b") no_fields)))
      (field "user" (text_value "u") no_fields)

abbrev new_data : Fields
new_data = field "totp" (object (field "secret" (text_value "c") no_fields)) no_fields

merge_maps_keeps_example :
    get_path ("totp" ∷ "issuer" ∷ []) (object (merge_maps old_data new_data))
    ≡ some (text_value "b")
unfolding get_path find_field OneEach OneEachIn
merge_maps_keeps_example =
    merge_maps_keeps ("totp" ∷ "issuer" ∷ []) old_data new_data (text_value "b")
      (tt, (tt, tt, tt), tt) tt refl

collect_field_matches-Discreet_example :
    let collect = collect_field_matches (λ t. t) (λ n. "0") (λ v. "c") "c" ("totp.*" ∷ []) in
    Discreet ("totp.*" ∷ []) (collect [] "" (object old_data))
    × (collect [] ""
          (without_redacted (λ t. t) (λ n. "0") (λ v. "c") "c" ("totp.*" ∷ []) "" (object old_data))
        ≡ collect [] "" (object old_data))
collect_field_matches-Discreet_example =
    collect_field_matches-Discreet (λ t. t) (λ n. "0") (λ v. "c") "c" ("totp.*" ∷ [])
      (object old_data)
