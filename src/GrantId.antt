-- ===== src/GrantId.antt =====
-- internal/crypto/hmac.go: share grant ids that are bound to the grant's fields. A key, a nonce and
-- a digest are texts of bytes; JSON, HMAC and hex are parameters, as Go's library provides them.
pub mod Laws
pub mod Examples
use open_pass.Base.{ℕ, String, Bool, true, false, Option, none, some, ◌==◌, ◌≡◌, if◌then◌else◌, eqb}
use Prim.Native.String
use Prim.Native.Char.{code}

-- `GrantIDFields`
pub record GrantIdFields : Type 0 where
  pub from_agent : String
  pub to_agent : String
  pub secret_path : String
  pub secret_field : String
  pub created_at : ℕ
  pub nonce : String

-- The library functions that the code calls.
pub record Primitives : Type 0 where
  pub marshal : GrantIdFields → Option String
  pub hmac_sha256 : String → String → String
  pub hex_encode : String → String
  pub hex_decode : String → Option String

pub data GrantIdError : Type 0 where
  empty_key nonce_failed marshal_failed not_hmac_format invalid_nonce invalid_hmac : GrantIdError

pub data Result {ℓ} (A : Type ℓ) : Type ℓ where
  ok : A → Result A
  err : GrantIdError → Result A

-- The text before the first colon and the text after it: `strings.SplitN(s, ":", 2)`, with `none`
-- where there is no colon.
unfoldable pub split_colon : String → Option (String × String)
split_colon String.[] = none
split_colon (String.◌∷◌ c s) =
    if eqb (code c) b':'
    then some ("", s)
    else elim (split_colon s) [ none ↦ none | some p ↦ some (String.◌∷◌ c p.0, p.1) ]

-- `strings.Contains(s, ":")`
unfoldable pub is_hmac_format : String → Bool
is_hmac_format String.[] = false
is_hmac_format (String.◌∷◌ c s) = if eqb (code c) b':' then true else is_hmac_format s

abbrev nonce_of : Option (String × String) → Result String
nonce_of none = err not_hmac_format
nonce_of (some p) = ok p.0

unfoldable pub parse_nonce_from_id : String → Result String
parse_nonce_from_id id =
    if is_hmac_format id then nonce_of (split_colon id) else err not_hmac_format

module _ (lib : Primitives) where
  open lib use {marshal, hmac_sha256, hex_encode, hex_decode}

  abbrev sign : String → String → Option String → Result String
  sign key nonce none = err marshal_failed
  sign key nonce (some canonical) =
      ok (String.◌++◌ nonce (String.◌++◌ ":" (hex_encode (hmac_sha256 key canonical))))

  -- `random` is what the source of randomness gives when the fields have no nonce yet
  abbrev with_nonce : Option String → GrantIdFields → Result GrantIdFields
  with_nonce random f =
      if f.nonce == ""
      then elim random [
        | none ↦ err nonce_failed
        | some bytes ↦ ok (record f { nonce = hex_encode bytes })
      ]
      else ok f

  abbrev sign_fields : String → Result GrantIdFields → Result String
  sign_fields key (err e) = err e
  sign_fields key (ok f) = sign key f.nonce (marshal f)

  unfoldable pub generate_grant_id : Option String → GrantIdFields → String → Result String
  generate_grant_id random f key =
      if key == "" then err empty_key else sign_fields key (with_nonce random f)

  abbrev compare_digest : String → String → Option String → Result Bool
  compare_digest key expected none = err marshal_failed
  compare_digest key expected (some canonical) = ok (hmac_sha256 key canonical == expected)

  abbrev verify_digest :
      String → String → GrantIdFields → Option String → Option String → Result Bool
  verify_digest key nonce f none digest = err invalid_nonce
  verify_digest key nonce f (some _) none = err invalid_hmac
  verify_digest key nonce f (some _) (some expected) =
      compare_digest key expected (marshal (record f { nonce = nonce }))

  abbrev verify_parts : String → GrantIdFields → Option (String × String) → Result Bool
  verify_parts key f none = err not_hmac_format
  verify_parts key f (some p) = verify_digest key p.0 f (hex_decode p.0) (hex_decode p.1)

  unfoldable pub verify_grant_id : String → GrantIdFields → String → Result Bool
  unfolding is_hmac_format split_colon
  verify_grant_id id f key =
      if key == ""
      then err empty_key
      else if is_hmac_format id
      then verify_parts key f (split_colon id)
      else err not_hmac_format
