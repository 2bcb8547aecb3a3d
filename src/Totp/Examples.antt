-- ===== src/Totp/Examples.antt =====
-- Runs of the one-time codes, with the bytes of the example of RFC 4226 as the end of each hash.

use open_pass.Base.{
  ℕ, ◌≤◌, ◌%◌, ◌^◌, ◌<◌, String, ◌==◌, ◌≡◌, refl, inr, none, some, List, [], ◌∷◌, ◌++◌, length,
  if◌then◌else◌, arith,
}
use open_pass.Base.Clock.{pos}
use open_pass.Base.Decimal.{read_decimal}
use open_pass.Base.Slices.{drop, length-append}
use open_pass.Base.Text.{text_length}
use open_pass.Totp.{
  HashName, Crypto, TotpError, remove_spaces, validate_totp_params, validate_totp_secret,
  decode_secret, generate_totp, truncate, last_byte, uint32, power10, zero_padded, expiry,
  big_endian,
}
use open_pass.Totp.Laws.{generate_totp_until_expiry, step_end, step_hash, totp_code}

abbrev sample_key : List ℕ
sample_key = 72 ∷ 101 ∷ 108 ∷ 108 ∷ 111 ∷ 33 ∷ 222 ∷ 173 ∷ 190 ∷ 239 ∷ []

abbrev sample_bytes : List ℕ
sample_bytes =
    31 ∷ 134 ∷ 152 ∷ 105 ∷ 14 ∷ 2 ∷ 202 ∷ 22 ∷ 97 ∷ 133 ∷ 80 ∷ 239 ∷ 127 ∷ 25 ∷ 218 ∷ 142 ∷ 148 ∷ 91
    ∷ 85 ∷ 90 ∷ []

abbrev sample_crypto : Crypto
sample_crypto = record {
  to_upper = λ s. s;
  base32 = λ s. none;
  base32_unpadded = λ s. if s == "JBSWY3DPEHPK3PXP" then some sample_key else none;
  hmac = λ h key message. message ++ sample_bytes;
}

sample_sums : (h : HashName) (key message : List ℕ) → 20 ≤ length (message ++ sample_bytes)
sample_sums h key message = let e = length-append message sample_bytes in omega (arith, e)

-- The secret is typed in groups, and its key has fewer than the 16 bytes that are asked for.
refuses_short : validate_totp_secret sample_crypto "JBSW Y3DP EHPK 3PXP" ≡ some TotpError.too_short
unfolding validate_totp_secret decode_secret remove_spaces text_length
refuses_short = refl

refuses_seven_digits :
    validate_totp_params sample_crypto "SHA1" (pos 7) (pos 30) ≡ some TotpError.invalid_digits
unfolding validate_totp_params
refuses_seven_digits = refl

sample_params : validate_totp_params sample_crypto "" (pos 0) (pos 0) ≡ none
unfolding validate_totp_params
sample_params = refl

sample_secret : decode_secret sample_crypto "JBSW Y3DP EHPK 3PXP" ≡ some sample_key
unfolding decode_secret remove_spaces
sample_secret = refl

generates :
    generate_totp sample_crypto "JBSW Y3DP EHPK 3PXP" ""
      (pos 0)
      (pos 0)
      (record { unix = pos 1000; nanos = 5 })
    ≡ inr (totp_code "538050" 30 1000 5)
unfolding generate_totp validate_totp_params decode_secret remove_spaces truncate last_byte uint32
    power10 zero_padded expiry big_endian drop
generates = refl

generate_totp_until_expiry_example :
    (n : ℕ) × (code : String) × (truncate (step_hash sample_crypto "" sample_key 30 1000) ≡ some n)
    × (text_length code ≡ 6)
    × (read_decimal 0 code ≡ n % 10 ^ 6)
    × (1000 < step_end 30 1000)
    × (generate_totp sample_crypto "JBSW Y3DP EHPK 3PXP" ""
          (pos 0)
          (pos 0)
          (record { unix = pos 1000; nanos = 5 })
        ≡ inr (totp_code code 30 1000 5))
    × (generate_totp sample_crypto "JBSW Y3DP EHPK 3PXP" ""
          (pos 0)
          (pos 0)
          (record { unix = pos 1019; nanos = 9 })
        ≡ inr (totp_code code 30 1000 9))
generate_totp_until_expiry_example =
    generate_totp_until_expiry sample_crypto sample_sums "JBSW Y3DP EHPK 3PXP" "" (pos 0) (pos 0)
      sample_key 1000 1019 5 9 sample_params sample_secret (omega arith) (omega arith)
