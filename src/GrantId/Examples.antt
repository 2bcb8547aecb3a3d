-- ===== src/GrantId/Examples.antt =====
-- Concrete functions in the place of the library's, and runs of the grant ids on them.
use Prim.Native.String
use Prim.Native.Char.{Char, code}
use open_pass.Base.{
  String, ◌≡◌, refl, ap, true, Option, none, some, arith, eqb, if◌then◌else◌, inl, inr, Bool-cases,
}
use text.Mathlib.TextEquality.{Char-path}
use open_pass.GrantId.{GrantIdFields, Primitives, ok, generate_grant_id, verify_grant_id}
use open_pass.GrantId.Laws.{NoColon, IsHex, verify-generate}

-- An encoding without colons: "x" before every other character, and "y." for a colon.
unfoldable pub encode : String → String
encode String.[] = ""
encode (String.◌∷◌ c s) =
    if eqb (code c) b':'
    then String.◌∷◌ "y" (String.◌∷◌ "." (encode s))
    else String.◌∷◌ "x" (String.◌∷◌ c (encode s))

abbrev cons_decoded : Char → Option String → Option String
cons_decoded c none = none
cons_decoded c (some s) = some (String.◌∷◌ c s)

unfoldable pub decode : String → Option String
decode String.[] = some ""
decode (String.◌∷◌ c String.[]) = none
decode (String.◌∷◌ c (String.◌∷◌ d s)) =
    let rest = decode s in if eqb (code c) b'y' then cons_decoded ":" rest else cons_decoded d rest

decode-encode : (s : String) → decode (encode s) ≡ some s
unfolding encode decode
decode-encode String.[] = refl
decode-encode (String.◌∷◌ c s) = elim (Bool-cases (eqb (code c) b':')) [
  | inl e ↦
      rw (e, decode-encode s)
        (ap (λ d. some (String.◌∷◌ d s)) (Char-path ":" c (ground (arith, e))))
  | inr e ↦ rw (e, decode-encode s)
]

encode-NoColon : (s : String) → NoColon (encode s)
unfolding encode
encode-NoColon String.[] = tt
encode-NoColon (String.◌∷◌ c s) = elim (Bool-cases (eqb (code c) b':')) [
  | inl e ↦ rw e (refl, (refl, encode-NoColon s))
  | inr e ↦ rw e (refl, (e, encode-NoColon s))
]

abbrev marshal_fields : GrantIdFields → Option String
marshal_fields f = some (
    String.◌++◌ f.from_agent
      (String.◌++◌ ">" (String.◌++◌ f.to_agent (String.◌++◌ f.secret_path f.nonce))))

abbrev pub sample_lib : Primitives
sample_lib = record {
  marshal = marshal_fields;
  hmac_sha256 = λ key text. String.◌++◌ key text;
  hex_encode = encode;
  hex_decode = decode;
}

pub sample-IsHex : IsHex sample_lib
sample-IsHex = record { decode-encode = decode-encode; encode-NoColon = encode-NoColon }

abbrev pub sample_fields : GrantIdFields
sample_fields = record {
  from_agent = "ci";
  to_agent = "bot";
  secret_path = "db/pass";
  secret_field = "";
  created_at = 5;
  nonce = "";
}

abbrev pub sample_id : String
sample_id = "xn:xkxcxix>xbxoxtxdxbx/xpxaxsxsxxxn"

verify-generate_example :
    verify_grant_id sample_lib sample_id (record sample_fields { nonce = "other" }) "k" ≡ ok true
unfolding generate_grant_id encode
verify-generate_example =
    verify-generate sample_lib sample-IsHex sample_fields "k" "n" sample_id "other" refl refl
