-- ===== src/Base/Text/Lines.antt =====
-- Laws of lines, lengths and slices of texts.

use Prim.Native.String.{String}
use Prim.Native.Char.{Char, code}
use Prim.Native.Nat.{ℕ, zero, suc, ◌+◌}
use mathlib.Core.Path.{◌≡◌, refl, sym, ap}
use mathlib.Core.Logic.{inl, inr}
use mathlib.Core.Bool.{true, false}
use mathlib.Core.Option.{some}
use mathlib.Core.List.{List, [], ◌∷◌, ◌++◌}
use text.Mathlib.Text.{◌==◌}
use native.Mathlib.Omega.{arith}
use native.Mathlib.Numerals.{unary_clauses}
use text.Mathlib.TextEquality.{Char-path, eq_iff}
use open_pass.Base.Tests.{eqb, Bool-cases}
use open_pass.Base.Text.{
  contains_char, join, text_length, drop_text, after_newline, split_on, split_lines,
}

-- lines, each with its line feed
unfoldable pub written : List String → String
written [] = ""
written (line ∷ rest) = join line (join "\n" (written rest))

pub join_assoc : (a b c : String) → join (join a b) c ≡ join a (join b c)
join_assoc String.[] b c = refl
join_assoc (String.◌∷◌ d a) b c = ap (String.◌∷◌ d) (join_assoc a b c)

pub join_empty : (a : String) → join a "" ≡ a
join_empty String.[] = refl
join_empty (String.◌∷◌ d a) = ap (String.◌∷◌ d) (join_empty a)

pub written-append : (xs ys : List String) → written (xs ++ ys) ≡ join (written xs) (written ys)
unfolding written
written-append [] ys = refl
written-append (x ∷ xs) ys =
    rw (written-append xs ys, join_assoc x (join "\n" (written xs)) (written ys))

-- Splitting at a separator.
pub split_on-join :
    (c : Char) (a b : String)
    → split_on (code c) (join a (String.◌∷◌ c b)) ≡ (
      (split_on (code c) a).0,
      (split_on (code c) a).1 ++ (split_on (code c) b).0 ∷ (split_on (code c) b).1,
    )
unfolding split_on
split_on-join c String.[] b = let same : eqb (code c) (code c) ≡ true = ground arith in rw same refl
split_on-join c (String.◌∷◌ d a) b = elim (Bool-cases (eqb (code d) (code c))) [
  | inl e ↦ rw (e, split_on-join c a b)
  | inr e ↦ rw (e, split_on-join c a b)
]

-- A text without the separator is one part.
pub split_on_of_part :
    (sep : ℕ) (a : String) → contains_char a sep ≡ false → split_on sep a ≡ (a, [])
unfolding split_on contains_char
split_on_of_part sep String.[] h = refl
split_on_of_part sep (String.◌∷◌ c a) h = elim (Bool-cases (eqb (code c) sep)) [
  | inl e ↦ absurd (ground (arith, e, h))
  | inr e ↦ rw (e, split_on_of_part sep a (ground (arith, e, h)))
]

pub split_lines-join :
    (a b : String)
    → split_lines (join a (join "\n" b))
      ≡ ((split_lines a).0, (split_lines a).1 ++ (split_lines b).0 ∷ (split_lines b).1)
split_lines-join a b = split_on-join "\n" a b

pub split_lines_of_line : (a : String) → contains_char a b'\n' ≡ false → split_lines a ≡ (a, [])
split_lines_of_line a h = split_on_of_part b'\n' a h

pub text_length-join : (a b : String) → text_length (join a b) ≡ text_length a + text_length b
unfolding text_length
text_length-join String.[] b = omega arith
text_length-join (String.◌∷◌ c a) b = let e = text_length-join a b in omega arith

pub drop_text-join :
    (n : ℕ) (a b : String) → drop_text (n + text_length a) (join a b) ≡ drop_text n b
unfolding drop_text text_length
drop_text-join n String.[] b = simp unary_clauses refl
drop_text-join n (String.◌∷◌ c a) b = simp unary_clauses (drop_text-join n a b)

-- The text before a slice.
unfoldable pub take_text : ℕ → String → String
take_text zero s = ""
take_text (suc n) String.[] = ""
take_text (suc n) (String.◌∷◌ c s) = String.◌∷◌ c (take_text n s)

pub join-take_text-drop_text : (n : ℕ) (s : String) → join (take_text n s) (drop_text n s) ≡ s
unfolding take_text drop_text
join-take_text-drop_text zero s = refl
join-take_text-drop_text (suc n) String.[] = refl
join-take_text-drop_text (suc n) (String.◌∷◌ c s) = ap (String.◌∷◌ c) (join-take_text-drop_text n s)

pub lf_eq :
    (c : Char) (s rest : String)
    → eqb (code c) b'\n' ≡ true
    → s ≡ rest
    → String.◌∷◌ c s ≡ join "\n" rest
lf_eq c s rest e q = rw q (ap (λ d. String.◌∷◌ d rest) (sym (Char-path "\n" c (ground (arith, e)))))

-- What is behind a line feed, with the text before it.
pub after_newline_sound :
    (s rest : String) → after_newline s ≡ some rest → (a : String) × (s ≡ join a (join "\n" rest))
unfolding after_newline
after_newline_sound String.[] rest h = absurd (ground (arith, h))
after_newline_sound (String.◌∷◌ c s) rest h = elim (Bool-cases (eqb (code c) b'\n')) [
  | inl e ↦ ("", lf_eq c s rest e (ground (arith, h, e)))
  | inr e ↦
      let (a, q) = after_newline_sound s rest (ground (arith, h, e)) in
      (String.◌∷◌ c a, ap (String.◌∷◌ c) q)
]

-- A text with a character is not empty.
pub cons_not_empty : (c : Char) (s : String) → (String.◌∷◌ c s == "") ≡ false
unfolding text_length
cons_not_empty c s = elim (Bool-cases (String.◌∷◌ c s == "")) [
  | inl e ↦
      let q : String.◌∷◌ c s ≡ "" = ground (arith, e, eq_iff (String.◌∷◌ c s) "") in
      let n = ap text_length q in absurd (omega (arith, n))
  | inr e ↦ e
]
