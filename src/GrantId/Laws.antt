-- ===== src/GrantId/Laws.antt =====
-- Verification accepts what generation made for the same fields and key, and an accepted id carries
-- the digest of the fields.
use Prim.Native.String
use Prim.Native.Char.{code}
use open_pass.Base.{
  String, ◌≡◌, true, false, some, ◌==◌, eq_iff, eq_refl, arith, eqb, inl, inr, Bool-cases,
  Option-cases,
}
use open_pass.GrantId.{
  GrantIdFields, Primitives, ok, split_colon, is_hmac_format, generate_grant_id, verify_grant_id,
}
use text.Mathlib.TextLemmas.{nil-append, cons-append}

-- No character of the text is a colon.
abbrev pub NoColon : String → Type 0
NoColon String.[] = Unit
NoColon (String.◌∷◌ c s) = (eqb (code c) b':' ≡ false) × NoColon s

split_colon-append :
    (a b : String) → NoColon a → split_colon (String.◌++◌ a (String.◌++◌ ":" b)) ≡ some (a, b)
unfolding split_colon
split_colon-append String.[] b h = rw (nil-append, cons-append, nil-append)
split_colon-append (String.◌∷◌ c a) b (e, h) = rw (cons-append, e, split_colon-append a b h)

is_hmac_format-append : (a b : String) → is_hmac_format (String.◌++◌ a (String.◌++◌ ":" b)) ≡ true
unfolding is_hmac_format
is_hmac_format-append String.[] b = rw (nil-append, cons-append)
is_hmac_format-append (String.◌∷◌ c a) b =
    rw cons-append (ground (arith, is_hmac_format-append a b))

-- What the program relies on: hex text has no colon and decodes to what it encodes.
pub record IsHex (lib : Primitives) : Type 0 where
  pub decode-encode : (bytes : String) → lib.hex_decode (lib.hex_encode bytes) ≡ some bytes
  pub encode-NoColon : (bytes : String) → NoColon (lib.hex_encode bytes)

module _ (lib : Primitives) (hex : IsHex lib) where
  verify-sign :
      (g : GrantIdFields) (key canonical bytes : String)
      → (key == "") ≡ false
      → lib.marshal (record g { nonce = lib.hex_encode bytes }) ≡ some canonical
      → verify_grant_id lib
          (String.◌++◌
            (lib.hex_encode bytes)
            (String.◌++◌ ":" (lib.hex_encode (lib.hmac_sha256 key canonical))))
          g
          key
        ≡ ok true
  unfolding verify_grant_id
  verify-sign g key canonical bytes k m = rw (
    k,
    is_hmac_format-append (lib.hex_encode bytes) (lib.hex_encode (lib.hmac_sha256 key canonical)),
    split_colon-append (lib.hex_encode bytes) (lib.hex_encode (lib.hmac_sha256 key canonical))
        (hex.encode-NoColon bytes),
    hex.decode-encode bytes,
    hex.decode-encode (lib.hmac_sha256 key canonical),
    m,
    eq_refl,
  )

  -- An id that `GenerateGrantID` makes for fields without a nonce passes `VerifyGrantID` for the same
  -- key and the same fields, whatever their nonce, where hex text decodes to what it encodes and has
  -- no colon.
  pub verify-generate :
      (f : GrantIdFields) (key bytes id nonce : String)
      → (f.nonce == "") ≡ true
      → generate_grant_id lib (some bytes) f key ≡ ok id
      → verify_grant_id lib id (record f { nonce = nonce }) key ≡ ok true
  unfolding generate_grant_id
  verify-generate f key bytes id nonce n h = elim (Bool-cases (key == "")) [
    | inl e ↦ absurd (ground (arith, e, h))
    | inr e ↦ elim (Option-cases (lib.marshal (record f { nonce = lib.hex_encode bytes }))) [
      | inl m ↦ absurd (ground (arith, e, n, m, h))
      | inr (canonical, m) ↦
          rw (← made f key bytes id canonical e n m h)
            (verify-sign (record f { nonce = nonce }) key canonical bytes e m)
    ]
  ]
    where
      made :
          (f : GrantIdFields) (key bytes id canonical : String)
          → (key == "") ≡ false
          → (f.nonce == "") ≡ true
          → lib.marshal (record f { nonce = lib.hex_encode bytes }) ≡ some canonical
          → generate_grant_id lib (some bytes) f key ≡ ok id
          → String.◌++◌
              (lib.hex_encode bytes)
              (String.◌++◌ ":" (lib.hex_encode (lib.hmac_sha256 key canonical)))
            ≡ id
      made f key bytes id canonical e n m h = ground (arith, e, n, m, h)

module _ (lib : Primitives) where
  -- An accepted id has a colon, hex text before it, and after it the hex text of the digest of the
  -- fields with that nonce, under a key that is not empty.
  pub verify_grant_id_sound :
      (id key : String) (f : GrantIdFields)
      → verify_grant_id lib id f key ≡ ok true
      → ((key == "") ≡ false)
        × ((p : String × String) × (split_colon id ≡ some p)
            × ((canonical : String) × (lib.marshal (record f { nonce = p.0 }) ≡ some canonical)
                × (lib.hex_decode p.1 ≡ some (lib.hmac_sha256 key canonical))))
  unfolding verify_grant_id
  verify_grant_id_sound id key f h = elim (Option-cases (split_colon id)) [
    | inl e ↦ absurd (ground (arith, h, e))
    | inr (p, e) ↦ elim (Option-cases (lib.marshal (record f { nonce = p.0 }))) [
      | inl m ↦ absurd (ground (arith, h, e, m))
      | inr (c, m) ↦ elim (Option-cases (lib.hex_decode p.1)) [
        | inl d ↦ absurd (ground (arith, h, e, m, d))
        | inr (b, d) ↦ (
          ground (arith, h),
          (p, e, (c, m, ground (arith, h, e, m, d, eq_iff (lib.hmac_sha256 key c) b))),
        )
      ]
    ]
  ]
