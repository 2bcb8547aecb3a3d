-- ===== src/Anomaly/Itoa.antt =====
-- internal/anomaly/rules.go: `itoa`, on integers without a bound.

use Prim.Native.Char.{code}
use open_pass.Base.Clock.{ℤ, pos, negsuc}
use open_pass.Base.Decimal.{digit, code-digit, read_decimal}
use native.Mathlib.Numerals.{unary_clauses}
use open_pass.Base.{
  ℕ, zero, suc, ◌+◌, ◌-◌, ◌*◌, ◌/◌, ◌%◌, ◌^◌, ◌<◌, String, ◌≡◌, refl, sym, ap, ◌∙◌, inl, inr,
  if◌then◌else◌, eqb, Bool-cases, arith,
}

-- The loop fills the buffer from its end: `room` is the number of free bytes, `text` what is behind
-- them.
unfoldable pub itoa_loop : ℕ → ℕ → String → String
itoa_loop zero n text = text
itoa_loop (suc room) n text =
    let rest = itoa_loop room (n / 10) (String.◌∷◌ (digit (n % 10)) text) in
    if eqb n 0 then text else rest

-- `itoa`, with a buffer of 20 bytes
unfoldable pub itoa : ℤ → String
itoa (pos n) = if eqb n 0 then "0" else itoa_loop 20 n ""
itoa (negsuc n) = String.◌∷◌ "-" (itoa_loop 19 (suc n) "")

read_decimal-itoa_loop :
    (room n : ℕ) (text : String)
    → n < 10 ^ room
    → read_decimal 0 (itoa_loop room n text) ≡ read_decimal n text
unfolding itoa_loop read_decimal
read_decimal-itoa_loop zero n text h =
    let z : n ≡ 0 = omega (arith, simp unary_clauses at h) in ap (λ k. read_decimal k text) (sym z)
read_decimal-itoa_loop (suc room) n text h = elim (Bool-cases (eqb n 0)) [
  | inl e ↦ let z : n ≡ 0 = ground (arith, e) in rw z refl
  | inr e ↦
      let p = simp unary_clauses at h in
      let small : n % 10 < 10 = omega arith in
      let value : n / 10 * 10 + (code (digit (n % 10)) - 48) ≡ n =
        let d = code-digit (n % 10) small in omega (arith, d) in
      rw e (
        read_decimal-itoa_loop room (n / 10) (String.◌∷◌ (digit (n % 10)) text) (omega (arith, p))
        ∙ ap (λ k. read_decimal k text) value)
]

-- `itoa` writes the decimal digits of every natural number that its buffer of 20 bytes holds.
read_decimal-itoa : (n : ℕ) → n < 10 ^ 20 → read_decimal 0 (itoa (pos n)) ≡ n
unfolding itoa read_decimal
read_decimal-itoa n h = elim (Bool-cases (eqb n 0)) [
  | inl e ↦ let z : n ≡ 0 = ground (arith, e) in rw e (sym z)
  | inr e ↦ rw e (read_decimal-itoa_loop 20 n "" h)
]
