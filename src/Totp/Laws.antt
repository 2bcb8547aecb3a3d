-- ===== src/Totp/Laws.antt =====
-- internal/crypto/totp.go: `GenerateTOTP` gives a code, and the same one until it expires.
use native.Mathlib.Numerals.{unary_clauses}
use native.Mathlib.Nat.{
  mod-lt, lt-div-mul-add, div-add-mod, add-mod_right, le-div_iff_mul-le, div-lt_iff_lt-mul,
}
use open_pass.Base.{
  ℕ, zero, suc, ◌+◌, ◌-◌, ◌*◌, ◌/◌, ◌%◌, ◌^◌, ◌≤◌, ◌<◌, String, false, ◌≡◌, refl, sym, ap, ◌∙◌, ◌⊎◌,
  inl, inr, none, some, List, [], ◌∷◌, length, ltb, arith,
}
use open_pass.Base.Clock.{ℤ, pos}
use open_pass.Base.Decimal.{digit, code-digit, read_decimal}
use open_pass.Base.Slices.{drop}
use open_pass.Base.Text.{text_length}
use open_pass.Totp.{
  HashName, Reading, TotpCode, Crypto, power10, or_default, uint32, last_byte, truncate,
  zero_padded, expiry, validate_totp_params, decode_secret, generate_totp, code_at, hash_name,
  big_endian,
}

last_byte-some : (a : ℕ) (xs : List ℕ) → (b : ℕ) × (last_byte (a ∷ xs) ≡ some b)
unfolding last_byte
last_byte-some a [] = (a, refl)
last_byte-some a (b ∷ xs) = last_byte-some b xs

uint32-drop : (n : ℕ) (xs : List ℕ) → n + 4 ≤ length xs → (v : ℕ) × (uint32 (drop n xs) ≡ some v)
unfolding drop uint32
uint32-drop zero (a ∷ b ∷ c ∷ d ∷ xs) h = (_, refl)
uint32-drop zero [] h = absurd (omega (arith, h))
uint32-drop zero (a ∷ []) h = absurd (omega (arith, h))
uint32-drop zero (a ∷ b ∷ []) h = absurd (omega (arith, h))
uint32-drop zero (a ∷ b ∷ c ∷ []) h = absurd (omega (arith, h))
uint32-drop (suc n) [] h = absurd (omega (arith, h))
uint32-drop (suc n) (a ∷ xs) h = uint32-drop n xs (omega (arith, h))

-- A hash of 19 bytes or more has every byte that the truncation reads.
truncate-some : (hash : List ℕ) → 19 ≤ length hash → (n : ℕ) × (truncate hash ≡ some n)
unfolding truncate
truncate-some [] h = absurd (omega (arith, h))
truncate-some (a ∷ xs) h =
    let (b, e) = last_byte-some a xs in
    let (v, f) = uint32-drop (b % 16) (a ∷ xs) (omega (arith, h)) in (v % 2 ^ 31, rw e (rw f refl))

text_length-zero_padded :
    (width n : ℕ) (text : String)
    → text_length (zero_padded width n text) ≡ width + text_length text
unfolding zero_padded text_length
text_length-zero_padded zero n text = omega arith
text_length-zero_padded (suc width) n text =
    let e = text_length-zero_padded width (n / 10) (String.◌∷◌ (digit (n % 10)) text) in
    omega (arith, e)

read_decimal-zero_padded :
    (width n : ℕ) (text : String)
    → n < power10 width
    → read_decimal 0 (zero_padded width n text) ≡ read_decimal n text
unfolding zero_padded read_decimal power10
read_decimal-zero_padded zero n text h =
    let z : n ≡ 0 = omega (arith, h) in ap (λ k. read_decimal k text) (sym z)
read_decimal-zero_padded (suc width) n text h =
    let value : n / 10 * 10 + (Prim.Native.Char.code (digit (n % 10)) - 48) ≡ n =
      let d = code-digit (n % 10) (omega arith) in omega (arith, d) in
    read_decimal-zero_padded width (n / 10) (String.◌∷◌ (digit (n % 10)) text) (omega (arith, h))
    ∙ ap (λ k. read_decimal k text) value

-- The end of a step of the clock is the first multiple of the period behind the time.
expiry_lem :
    (period unix nanos : ℕ)
    → 0 < period
    → expiry period unix nanos ≡ record { unix = (unix / period + 1) * period; nanos = nanos }
unfolding expiry
expiry_lem period unix nanos h =
    let same = add-mod_right unix period in
    let whole = div-add-mod unix period in
    let e : unix + period - (unix + period) % period ≡ (unix / period + 1) * period =
      omega (arith, same, whole) in
    rw e refl

-- Where the step of a time ends.
abbrev pub step_end : (period unix : ℕ) → ℕ
step_end period unix = (unix / period + 1) * period

step_end_after : (period unix : ℕ) → 0 < period → unix < step_end period unix
step_end_after period unix h = let l = lt-div-mul-add {a = unix} {b = period} h in omega (arith, l)

-- The code of the step of a time.
abbrev pub totp_code : String → (period unix nanos : ℕ) → TotpCode
totp_code code period unix nanos = record {
  expires_at = record { unix = step_end period unix; nanos = nanos };
  code = code;
  period = period;
}

-- The tests of the parameters keep the power of ten in range.
power10_fits : (digits : ℕ) → (digits ≡ 6) ⊎ (digits ≡ 8) → ltb 4294967295 (power10 digits) ≡ false
unfolding power10
power10_fits digits (inl e) = rw e refl
power10_fits digits (inr e) = rw e refl

power10_positive : (n : ℕ) → 0 < power10 n
unfolding power10
power10_positive zero = omega arith
power10_positive (suc n) = let p = power10_positive n in omega (arith, p)

power10_lem : (n : ℕ) → power10 n ≡ 10 ^ n
unfolding power10
power10_lem zero = refl
power10_lem (suc n) = let e = power10_lem n in simp unary_clauses (omega (arith, e))

-- The digits write the number, modulo the power of ten.
read_decimal-code :
    (digits n : ℕ) → read_decimal 0 (zero_padded digits (n % power10 digits) "") ≡ n % 10 ^ digits
unfolding read_decimal
read_decimal-code digits n =
    let power = power10_lem digits in
    let positive : 0 < power10 digits = power10_positive digits in
    rw (← power) (read_decimal-zero_padded digits (n % power10 digits) "" (mod-lt n positive))

-- The number of the step stays the same until the step ends.
div_same :
    (period unix later : ℕ)
    → 0 < period
    → unix ≤ later
    → later < (unix / period + 1) * period
    → later / period ≡ unix / period
div_same period unix later h le lt =
    let whole = div-add-mod unix period in
    let low =
      (le-div_iff_mul-le {k = period} {x = unix / period} {y = later} h).1
        (omega (arith, whole, le)) in
    let high = (div-lt_iff_lt-mul {k = period} {x = later} {y = unix / period + 1} h).1 lt in
    omega (arith, low, high)

module _ (c : Crypto) where
  valid_digits :
      (algorithm : String) (digits period : ℤ)
      → validate_totp_params c algorithm digits period ≡ none
      → (or_default 6 digits ≡ 6) ⊎ (or_default 6 digits ≡ 8)
  unfolding validate_totp_params
  valid_digits algorithm digits period h = ground arith

  valid_period :
      (algorithm : String) (digits period : ℤ)
      → validate_totp_params c algorithm digits period ≡ none
      → 0 < or_default 30 period
  unfolding validate_totp_params
  valid_period algorithm digits period h = ground arith

  -- The HMAC of the step of a time.
  abbrev pub step_hash : String → List ℕ → (period unix : ℕ) → List ℕ
  step_hash algorithm key period unix =
      c.hmac (hash_name c algorithm) key (big_endian 8 (unix / period))

  -- The code of a time is that of every time in the same step.
  code_at_lem :
      (algorithm : String) (digits period : ℕ) (key : List ℕ) (unix now nanos n : ℕ)
      → (digits ≡ 6) ⊎ (digits ≡ 8)
      → 0 < period
      → now / period ≡ unix / period
      → truncate (step_hash algorithm key period unix) ≡ some n
      → code_at c algorithm digits period key (pos now) nanos
        ≡ inr (totp_code (zero_padded digits (n % power10 digits) "") period unix nanos)
  code_at_lem algorithm digits period key unix now nanos n six_or_eight p same e =
      let end = expiry_lem period now nanos p in
      let small = power10_fits digits six_or_eight in rw (end, same, e, small) refl

  generate_totp-code_at :
      (secret algorithm : String) (digits period : ℤ) (key : List ℕ) (now : Reading ℤ)
      → validate_totp_params c algorithm digits period ≡ none
      → decode_secret c secret ≡ some key
      → generate_totp c secret algorithm digits period now
        ≡ code_at c algorithm (or_default 6 digits) (or_default 30 period) key now.unix now.nanos
  unfolding generate_totp
  generate_totp-code_at secret algorithm digits period key now v d = rw (v, d) refl

  -- What the code reads of HMAC: no sum is shorter than the 20 bytes of SHA-1.
  module _
      (sum_size : (h : HashName) (key message : List ℕ) → 20 ≤ length (c.hmac h key message)) where
    truncate-step_hash :
        (algorithm : String) (key : List ℕ) (period unix : ℕ)
        → (n : ℕ) × (truncate (step_hash algorithm key period unix) ≡ some n)
    truncate-step_hash algorithm key period unix =
        let big = sum_size (hash_name c algorithm) key (big_endian 8 (unix / period)) in
        truncate-some (step_hash algorithm key period unix) (omega (arith, big))

    -- With valid parameters, a secret that is decoded and a time that is not before the epoch,
    -- `GenerateTOTP` gives a code: it has 6 digits, or as many as asked for, and they write the
    -- truncated HMAC of the number of the step, modulo that power of ten. It expires at the end of
    -- the step, with the fraction of a second of the call. A later call before that end gives the
    -- same code.
    pub generate_totp_until_expiry :
        (secret algorithm : String) (digits period : ℤ) (key : List ℕ)
        (unix later nanos fraction : ℕ)
        → validate_totp_params c algorithm digits period ≡ none
        → decode_secret c secret ≡ some key
        → unix ≤ later
        → later < step_end (or_default 30 period) unix
        → (n : ℕ) × (code : String) × (truncate
              (step_hash algorithm key (or_default 30 period) unix)
            ≡ some n)
          × (text_length code ≡ or_default 6 digits)
          × (read_decimal 0 code ≡ n % 10 ^ or_default 6 digits)
          × (unix < step_end (or_default 30 period) unix)
          × (generate_totp c secret algorithm digits period
                (record { unix = pos unix; nanos = nanos })
              ≡ inr (totp_code code (or_default 30 period) unix nanos))
          × (generate_totp c secret algorithm digits period
                (record { unix = pos later; nanos = fraction })
              ≡ inr (totp_code code (or_default 30 period) unix fraction))
    unfolding text_length
    generate_totp_until_expiry secret algorithm digits period key unix later nanos fraction v d le
          lt =
        let p = valid_period algorithm digits period v in
        let (n, e) = truncate-step_hash algorithm key (or_default 30 period) unix in
        let small = valid_digits algorithm digits period v in
        let same = div_same (or_default 30 period) unix later p le lt in
        let length_lem =
          text_length-zero_padded (or_default 6 digits) (n % power10 (or_default 6 digits)) "" in
        (
          n,
          zero_padded (or_default 6 digits) (n % power10 (or_default 6 digits)) "",
          e,
          omega (arith, length_lem),
          read_decimal-code (or_default 6 digits) n,
          step_end_after (or_default 30 period) unix p,
          generate_totp-code_at secret algorithm digits period key
                (record { unix = pos unix; nanos = nanos }) v d
              ∙ code_at_lem algorithm (or_default 6 digits) (or_default 30 period) key unix unix
                  nanos n small p refl e,
          generate_totp-code_at secret algorithm digits period key
                (record { unix = pos later; nanos = fraction }) v d
              ∙ code_at_lem algorithm (or_default 6 digits) (or_default 30 period) key unix later
                  fraction n small p same e,
        )
