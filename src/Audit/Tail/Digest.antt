-- ===== src/Audit/Tail/Digest.antt =====
-- internal/audit/audit.go: which digest `readLastHMAC` gives the logger.

use Prim.Native.Char.{code}
use open_pass.Base.{
  ℕ, zero, suc, ◌+◌, ◌-◌, ◌≤◌, String, true, false, ◌==◌, ◌≡◌, refl, sym, ap, ◌∙◌, ◌⊎◌, inl, inr,
  some, List, [], ◌∷◌, ◌++◌, if◌then◌else◌, ltb, eqb, Bool-cases, arith,
}
use open_pass.Base.Text.{join, text_length, drop_text, after_newline, split_on, contains_char}
use open_pass.Base.Text.Lines.{join_assoc, split_lines-join, split_lines_of_line, text_length-join}
use open_pass.Audit.{Library}
use open_pass.Audit.Writing.{NoNewline}
use open_pass.Audit.Tail.{
  first_size, lines_of, last_line, clamp, last_hmac, last_hmac_in, piece_text, read_hmac,
  read_last_hmac,
}

-- a file whose last line is the given one
abbrev pub ending_with : String → String → String
ending_with old line = join old (join "\n" (join line "\n"))

-- Slices of two texts one after the other.
drop_text_within :
    (n : ℕ) (a b : String) → n ≤ text_length a → drop_text n (join a b) ≡ join (drop_text n a) b
unfolding drop_text text_length
drop_text_within zero a b h = refl
drop_text_within (suc n) String.[] b h = absurd (omega (arith, h))
drop_text_within (suc n) (String.◌∷◌ c a) b h = drop_text_within n a b (omega (arith, h))

drop_text_behind :
    (n : ℕ) (a b : String)
    → text_length a ≤ n
    → drop_text n (join a b) ≡ drop_text (n - text_length a) b
unfolding drop_text text_length
drop_text_behind n String.[] b h = ap (λ k. drop_text k b) (omega arith)
drop_text_behind zero (String.◌∷◌ c a) b h = absurd (omega (arith, h))
drop_text_behind (suc n) (String.◌∷◌ c a) b h =
    drop_text_behind n a b (omega (arith, h)) ∙ ap (λ k. drop_text k b) (omega arith)

drop_text-NoNewline : (n : ℕ) (s : String) → NoNewline s → NoNewline (drop_text n s)
unfolding drop_text contains_char
drop_text-NoNewline zero s h = h
drop_text-NoNewline (suc n) String.[] h = refl
drop_text-NoNewline (suc n) (String.◌∷◌ c s) h = drop_text-NoNewline n s (ground (arith, h))

after_newline_of_line :
    (s rest : String) → NoNewline s → after_newline (join s (join "\n" rest)) ≡ some rest
unfolding after_newline contains_char
after_newline_of_line String.[] rest h = refl
after_newline_of_line (String.◌∷◌ c s) rest h = elim (Bool-cases (eqb (code c) b'\n')) [
  | inl e ↦ absurd (ground (arith, e, h))
  | inr e ↦ rw e (after_newline_of_line s rest (ground (arith, e, h)))
]

-- Behind the first line feed of a text with a whole last line there is still that line.
after_newline-join :
    (a b : String)
    → (after_newline (join a (join "\n" b)) ≡ some b)
      ⊎ ((x : String) × (after_newline (join a (join "\n" b)) ≡ some (join x (join "\n" b))))
unfolding after_newline
after_newline-join String.[] b = inl refl
after_newline-join (String.◌∷◌ c a) b = elim (Bool-cases (eqb (code c) b'\n')) [
  | inl e ↦ inr (a, rw e refl)
  | inr e ↦ rw e (after_newline-join a b)
]

clamp_start : (len size : ℕ) → len - clamp len size ≡ len - size
unfolding clamp
clamp_start len size = elim (Bool-cases (ltb len size)) [
  | inl e ↦ rw e (let small : suc len ≤ size = ground (arith, e) in omega (arith, small))
  | inr e ↦ rw e refl
]

module _ (lib : Library) (trim_empty : lib.trim_space "" ≡ "") where
  last_line-append :
      (xs : List String) (line : String)
      → (lib.trim_space line == "") ≡ false
      → last_line lib (xs ++ line ∷ "" ∷ []) ≡ some line
  unfolding last_line
  last_line-append [] line h = rw (trim_empty, h) refl
  last_line-append (x ∷ xs) line h = rw (last_line, last_line-append xs line h) refl

  last_of_line :
      (line : String)
      → NoNewline line
      → (lib.trim_space line == "") ≡ false
      → last_hmac_in lib (join line "\n") ≡ last_hmac lib (some line)
  unfolding split_on
  last_of_line line n h =
      ap (λ p. last_hmac lib (last_line lib (p.0 ∷ p.1)))
        (split_lines-join line "" ∙ ap (λ p. (p.0, p.1 ++ "" ∷ [])) (split_lines_of_line line n))
      ∙ ap (last_hmac lib) (last_line-append [] line h)

  last_of_lines :
      (a line : String)
      → NoNewline line
      → (lib.trim_space line == "") ≡ false
      → last_hmac_in lib (ending_with a line) ≡ last_hmac lib (some line)
  unfolding split_on
  last_of_lines a line n h =
      ap (λ p. last_hmac lib (last_line lib (p.0 ∷ p.1))) (split_lines-join a (join line "\n"))
      ∙ ap (λ p. last_hmac lib (last_line lib (lines_of a ++ p.0 ∷ p.1)))
          (split_lines-join line "" ∙ ap (λ p. (p.0, p.1 ++ "" ∷ [])) (split_lines_of_line line n))
      ∙ ap (last_hmac lib) (last_line-append (lines_of a) line h)

  text_length_ending :
      (old line : String)
      → text_length (ending_with old line) ≡ text_length old + suc (suc (text_length line))
  unfolding text_length
  text_length_ending old line =
      let a = text_length-join old (join "\n" (join line "\n")) in
      let b = text_length-join line "\n" in omega (arith, a, b)

  last_hmac_of_nothing : last_hmac_in lib "" ≡ some ""
  unfolding split_on last_line
  last_hmac_of_nothing = rw trim_empty refl

  -- What the first piece holds, by the length of the last line.
  first_piece :
      (old line : String) (start : ℕ)
      → NoNewline line
      → (lib.trim_space line == "") ≡ false
      → start ≤ text_length old
      → (text : String) × (piece_text start (drop_text start (ending_with old line)) ≡ some text)
        × (last_hmac_in lib text ≡ last_hmac lib (some line))
  unfolding drop_text
  first_piece old line start n h s = elim (Bool-cases (ltb 0 start)) [
    | inl p ↦
        let q = drop_text_within start old (join "\n" (join line "\n")) s in
        elim (after_newline-join (drop_text start old) (join line "\n")) [
          | inl e ↦ (join line "\n", rw (p, q, e) refl, last_of_line line n h)
          | inr (x, e) ↦ (ending_with x line, rw (p, q, e) refl, last_of_lines x line n h)
        ]
    | inr p ↦
        let z : start ≡ 0 = ground (arith, p) in
        (ending_with old line, rw z refl, last_of_lines old line n h)
  ]

  long_piece :
      (old line : String) (start : ℕ)
      → NoNewline line
      → suc (text_length old) ≤ start
      → start ≤ suc (text_length old) + text_length line
      → piece_text start (drop_text start (ending_with old line)) ≡ some ""
  unfolding text_length
  long_piece old line start n a b =
      let front = join old "\n" in
      let size = text_length-join old "\n" in
      let k = start - text_length front in
      let positive : ltb 0 start ≡ true = ground (arith, a) in
      let q =
        ap (drop_text start) (sym (join_assoc old "\n" (join line "\n")))
        ∙ drop_text_behind start front (join line "\n") (omega (arith, a, size))
        ∙ drop_text_within k line "\n" (omega (arith, a, b, size)) in
      rw (positive, q) (after_newline_of_line (drop_text k line) "" (drop_text-NoNewline k line n))

  read_hmac_first :
      (fuel : ℕ) (file : String) (size : ℕ) (text : String)
      → piece_text (text_length file - size) (drop_text (text_length file - size) file) ≡ some text
      → read_hmac lib (suc fuel) file size ≡ last_hmac_in lib text
  unfolding read_hmac
  read_hmac_first fuel file size text h =
      let z = clamp_start (text_length file) size in rw (read_hmac, z, h) refl

  first_round :
      (file text : String) (k : ℕ)
      → text_length file ≡ suc k
      → piece_text (text_length file - first_size) (drop_text (text_length file - first_size) file)
        ≡ some text
      → read_last_hmac lib (some file) ≡ last_hmac_in lib text
  unfolding read_last_hmac
  first_round file text k z h =
      let positive : eqb (text_length file) 0 ≡ false = ground (arith, z) in
      rw positive (
        ap (λ fuel. read_hmac lib fuel file first_size) z
        ∙ read_hmac_first k file first_size text h)

  -- On a file with a line feed before its last line, which is not blank and ends in a line feed, `readLastHMAC` gives the digest of
  -- that line, but no digest if the line has 4095 bytes or more.
  pub read_last_hmac_lem :
      (old line : String)
      → NoNewline line
      → (lib.trim_space line == "") ≡ false
      → read_last_hmac lib (some (ending_with old line))
        ≡ (if ltb 4094 (text_length line) then some "" else last_hmac lib (some line))
  read_last_hmac_lem old line n h =
      let len = text_length_ending old line in
      let file = ending_with old line in
      let start = text_length file - first_size in
      let size : text_length file ≡ suc (text_length old + suc (text_length line)) =
        omega (arith, len) in
      elim (Bool-cases (ltb 4094 (text_length line))) [
        | inl long ↦
            let many : 4095 ≤ text_length line = ground (arith, long) in
            let q =
              long_piece old line start n (omega (arith, len, many)) (omega (arith, len, many)) in
            rw long (first_round file "" _ size q ∙ last_hmac_of_nothing)
        | inr short ↦
            let few : text_length line ≤ 4094 = ground (arith, short) in
            let (text, q, e) = first_piece old line start n h (omega (arith, len, few)) in
            rw short (first_round file text _ size q ∙ e)
      ]
