-- ===== src/Update/Examples.antt =====
-- Runs on versions with a concrete way to write numbers.

use open_pass.Base.{
  ℕ, zero, suc, ◌-◌, String, false, ◌==◌, ◌≡◌, refl, ap, Option, some, none, arith,
}
use open_pass.Base.Clock.{ℤ, pos}
use open_pass.Base.Text.{text_length, contains_char, strip_prefix}
use open_pass.Base.Text.Lines.{cons_not_empty}
use open_pass.Update.{StableVersion, parse_stable_version, version_string}
use open_pass.Update.Laws.{Decimal, parse_stable_version-version_string}

-- A number as a text of strokes.
unfoldable strokes : ℕ → String
strokes zero = "i"
strokes (suc n) = String.◌∷◌ "i" (strokes n)

abbrev count_strokes : String → Option ℤ
count_strokes s = some (pos (text_length s - 1))

text_length-strokes : (n : ℕ) → text_length (strokes n) ≡ suc n
unfolding text_length strokes
text_length-strokes zero = refl
text_length-strokes (suc n) = ap suc (text_length-strokes n)

strokes_not_empty : (n : ℕ) → (strokes n == "") ≡ false
unfolding strokes
strokes_not_empty zero = refl
strokes_not_empty (suc n) = cons_not_empty "i" (strokes n)

strokes_no_v : (n : ℕ) → strip_prefix "v" (strokes n) ≡ none
unfolding strip_prefix strokes
strokes_no_v zero = refl
strokes_no_v (suc n) = refl

strokes_no_point : (n : ℕ) → contains_char (strokes n) b'.' ≡ false
unfolding contains_char strokes
strokes_no_point zero = refl
strokes_no_point (suc n) = strokes_no_point n

strokes_no_minus : (n : ℕ) → contains_char (strokes n) b'-' ≡ false
unfolding contains_char strokes
strokes_no_minus zero = refl
strokes_no_minus (suc n) = strokes_no_minus n

strokes_no_plus : (n : ℕ) → contains_char (strokes n) b'+' ≡ false
unfolding contains_char strokes
strokes_no_plus zero = refl
strokes_no_plus (suc n) = strokes_no_plus n

strokes-Decimal : Decimal strokes count_strokes
strokes-Decimal = record {
  reads = λ n. let s = text_length-strokes n in ap (λ k. some (pos k)) (omega (arith, s));
  not_empty = strokes_not_empty;
  no_v = strokes_no_v;
  no_point = strokes_no_point;
  no_minus = strokes_no_minus;
  no_plus = strokes_no_plus;
}

abbrev old_version : StableVersion
old_version = record { major = 1; minor = 2; patch = 3 }

abbrev new_version : StableVersion
new_version = record { major = 1; minor = 3; patch = 0 }

parse_stable_version-version_string_example :
    parse_stable_version (λ s. s) count_strokes (version_string strokes old_version)
    ≡ some old_version
parse_stable_version-version_string_example =
    parse_stable_version-version_string strokes count_strokes strokes-Decimal (λ s. s) old_version
      refl
