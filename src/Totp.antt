-- ===== src/Totp.antt =====
-- internal/crypto/totp.go: one-time codes by the clock. Base32, HMAC and the upper case of texts are
-- parameters.
pub mod Laws
pub mod Examples
use Prim.Native.Char.{code}
use Prim.Native.String
use open_pass.Base.{
  ℕ, zero, suc, ◌+◌, ◌-◌, ◌*◌, ◌/◌, ◌%◌, ◌^◌, String, Bool, true, false, not, ◌==◌, ◌&&◌, ◌⊎◌, inl,
  inr, Option, none, some, List, [], ◌∷◌, ◌++◌, length, if◌then◌else◌, ltb, eqb,
}
use open_pass.Base.Clock.{ℤ, pos, negsuc, is_positive, ltz}
use open_pass.Base.Decimal.{digit}
use open_pass.Base.Slices.{drop}
use open_pass.Base.Text.{text_length}

pub data HashName : Type 0 where
  sha1 sha256 sha512 : HashName

-- a reading of the clock: t.Unix() and t.Nanosecond()
pub record Reading (A : Type 0) : Type 0 where
  pub unix : A
  pub nanos : ℕ

-- `TOTPCode`
pub record TotpCode : Type 0 where
  pub expires_at : Reading ℕ
  pub code : String
  pub period : ℕ

pub data TotpError : Type 0 where
  invalid_algorithm invalid_digits invalid_period invalid_secret before_epoch : TotpError
  out_of_range panics : TotpError
  too_long not_base32 too_short same_bytes sequential_bytes : TotpError

-- strings.ToUpper, encoding/base32 with and without padding, and crypto/hmac over a hash
pub record Crypto : Type 0 where
  pub to_upper : String → String
  pub base32 : String → Option (List ℕ)
  pub base32_unpadded : String → Option (List ℕ)
  pub hmac : HashName → (key message : List ℕ) → List ℕ

-- strings.ReplaceAll(s, " ", "")
unfoldable pub remove_spaces : String → String
remove_spaces String.[] = ""
remove_spaces (String.◌∷◌ c s) =
    let rest = remove_spaces s in if eqb (code c) b' ' then rest else String.◌∷◌ c rest

unfoldable pub all_bytes_same : List ℕ → Bool
all_bytes_same (a ∷ b ∷ rest) = eqb b a && all_bytes_same (a ∷ rest)
all_bytes_same _ = true

unfoldable pub bytes_sequential : List ℕ → Bool
bytes_sequential (a ∷ b ∷ rest) = eqb b ((a + 1) % 256) && bytes_sequential (b ∷ rest)
bytes_sequential _ = true

-- `power10`
unfoldable pub power10 : ℕ → ℕ
power10 zero = 1
power10 (suc n) = 10 * power10 n

abbrev pub is_number : ℤ → ℕ → Bool
is_number (pos n) k = eqb n k
is_number (negsuc n) k = false

-- the default in place of 0; there is no negative number behind the tests of the parameters
abbrev pub or_default : ℕ → ℤ → ℕ
or_default d (pos n) = if eqb n 0 then d else n
or_default d (negsuc n) = 0

-- `binary.BigEndian.PutUint64`, for 8 bytes
unfoldable pub big_endian : (width : ℕ) → ℕ → List ℕ
big_endian zero n = []
big_endian (suc width) n = big_endian width (n / 256) ++ (n % 256 ∷ [])

-- `binary.BigEndian.Uint32`, which needs four bytes
unfoldable pub uint32 : List ℕ → Option ℕ
uint32 (a ∷ b ∷ c ∷ d ∷ rest) = some (((a * 256 + b) * 256 + c) * 256 + d)
uint32 _ = none

-- hash[len(hash)-1]
unfoldable pub last_byte : List ℕ → Option ℕ
last_byte [] = none
last_byte (a ∷ []) = some a
last_byte (a ∷ b ∷ rest) = last_byte (b ∷ rest)

abbrev masked : Option ℕ → Option ℕ
masked none = none
masked (some n) = some (n % 2 ^ 31)

abbrev truncate_at : List ℕ → Option ℕ → Option ℕ
truncate_at hash none = none
truncate_at hash (some b) = masked (uint32 (drop (b % 16) hash))

-- the dynamic truncation; none where an index is out of range
unfoldable pub truncate : List ℕ → Option ℕ
truncate hash = truncate_at hash (last_byte hash)

-- fmt.Sprintf("%0*d", width, n), for n below 10 ^ width
unfoldable pub zero_padded : (width n : ℕ) → String → String
zero_padded zero n text = text
zero_padded (suc width) n text = zero_padded width (n / 10) (String.◌∷◌ (digit (n % 10)) text)

-- `expiresAt`
unfoldable pub expiry : ℕ → ℕ → ℕ → Reading ℕ
expiry period unix nanos = record { unix = unix + period - (unix + period) % period; nanos = nanos }

module _ (c : Crypto) where
  unfoldable pub validate_totp_params : String → (digits period : ℤ) → Option TotpError
  validate_totp_params algorithm digits period =
      let algo = c.to_upper algorithm in
      if not (algo == "")
        && not (algo == "SHA1")
        && not (algo == "SHA256")
        && not (algo == "SHA512")
      then some invalid_algorithm
      else if not (is_number digits 0) && not (is_number digits 6) && not (is_number digits 8)
      then some invalid_digits
      else if not (is_number period 0)
          && (if is_positive period then ltz (pos 3600) period else true)
      then some invalid_period
      else none

  abbrev or_unpadded : String → Option (List ℕ) → Option (List ℕ)
  or_unpadded secret none = c.base32_unpadded secret
  or_unpadded secret (some key) = some key

  -- the cleaned secret, decoded with or without padding
  unfoldable pub decode_secret : String → Option (List ℕ)
  decode_secret secret =
      let clean = c.to_upper (remove_spaces secret) in or_unpadded clean (c.base32 clean)

  abbrev weakness : Option (List ℕ) → Option TotpError
  weakness none = some not_base32
  weakness (some key) =
      if ltb (length key) 16
      then some too_short
      else if all_bytes_same key
      then some same_bytes
      else if bytes_sequential key
      then some sequential_bytes
      else none

  unfoldable pub validate_totp_secret : String → Option TotpError
  validate_totp_secret secret =
      if ltb 256 (text_length (c.to_upper (remove_spaces secret)))
      then some too_long
      else weakness (decode_secret secret)

  abbrev pub hash_name : String → HashName
  hash_name algorithm =
      let upper = c.to_upper (if algorithm == "" then "SHA1" else algorithm) in
      if upper == "SHA256" then sha256 else if upper == "SHA512" then sha512 else sha1

  abbrev pub code_of : (digits period : ℕ) → Reading ℕ → Option ℕ → TotpError ⊎ TotpCode
  code_of digits period expires none = inl panics
  code_of digits period expires (some n) =
      if ltb 4294967295 (power10 digits)
      then inl out_of_range
      else inr (record {
        expires_at = expires;
        code = zero_padded digits (n % power10 digits) "";
        period = period;
      })

  abbrev pub code_at :
      (algorithm : String) → (digits period : ℕ) → List ℕ → ℤ → (nanos : ℕ) → TotpError ⊎ TotpCode
  code_at algorithm digits period key (negsuc n) nanos = inl before_epoch
  code_at algorithm digits period key (pos unix) nanos =
      code_of digits period (expiry period unix nanos)
        (truncate (c.hmac (hash_name algorithm) key (big_endian 8 (unix / period))))

  abbrev decoded :
      (algorithm : String)
      → (digits period : ℕ) → Reading ℤ
      → Option (List ℕ)
      → TotpError ⊎ TotpCode
  decoded algorithm digits period now none = inl invalid_secret
  decoded algorithm digits period now (some key) =
      code_at algorithm digits period key now.unix now.nanos

  abbrev validated :
      (secret algorithm : String)
      → (digits period : ℤ) → Reading ℤ
      → Option TotpError
      → TotpError ⊎ TotpCode
  validated secret algorithm digits period now (some e) = inl e
  validated secret algorithm digits period now none =
      decoded algorithm (or_default 6 digits) (or_default 30 period) now (decode_secret secret)

  unfoldable pub generate_totp :
      (secret algorithm : String) → (digits period : ℤ) → Reading ℤ → TotpError ⊎ TotpCode
  generate_totp secret algorithm digits period now =
      validated secret algorithm digits period now (validate_totp_params algorithm digits period)
