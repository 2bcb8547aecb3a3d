-- ===== src/Audit/Tail/Laws.antt =====
-- internal/audit/audit.go: `lastNEntries` against the entries of the whole file.

use Prim.Native.Char.{Char, code}
use open_pass.Base.{
  ℕ, zero, suc, ◌+◌, ◌-◌, ◌*◌, ◌≤◌, String, true, false, ◌==◌, ◌≡◌, refl, sym, ap, ◌∙◌, ◌⊎◌, inl,
  inr, some, List, [], ◌∷◌, ◌++◌, ltb, leb, eqb, length, Bool-cases, Option-cases, append-nil,
  arith,
}
use text.Mathlib.TextEquality.{eq_iff}
use open_pass.Base.Text.{join, text_length, drop_text, after_newline, split_on}
use open_pass.Base.Text.Lines.{
  join_assoc, split_lines-join, take_text, join-take_text-drop_text, after_newline_sound, lf_eq,
}
use open_pass.Base.Slices.{last_n, last_n_nil, last_n-append}
use open_pass.Audit.{LogEntry, Library, parse_lines}
use open_pass.Audit.Writing.{parse_lines-append}
use open_pass.Audit.Tail.{
  first_size, lines_of, skip_newlines, parse_whole, parse_tail_entries, clamp, tail_of, read_tail,
  last_n_entries,
}

pub Nat-cases : (n : ℕ) → (n ≡ 0) ⊎ ((k : ℕ) × (n ≡ suc k))
Nat-cases zero = inl refl
Nat-cases (suc k) = inr (k, refl)

text_length_zero : (s : String) → text_length s ≡ 0 → s ≡ ""
unfolding text_length
text_length_zero String.[] h = refl
text_length_zero (String.◌∷◌ c s) h = absurd (omega (arith, h))

module _ (lib : Library) where
  -- the entries of a text, line by line
  abbrev pub entries_of : String → List LogEntry
  entries_of s = parse_lines lib (lines_of s)

module _ (lib : Library) (trim_empty : lib.trim_space "" ≡ "") where
  entries_of_empty : entries_of lib "" ≡ []
  unfolding split_on parse_lines
  entries_of_empty = rw trim_empty refl

  entries_of-join :
      (a b : String) → entries_of lib (join a (join "\n" b)) ≡ entries_of lib a ++ entries_of lib b
  entries_of-join a b =
      ap (λ p. parse_lines lib (p.0 ∷ p.1)) (split_lines-join a b)
      ∙ parse_lines-append lib (lines_of a) (lines_of b)

  entries_of_newline :
      (c : Char) (s : String)
      → eqb (code c) b'\n' ≡ true
      → entries_of lib (String.◌∷◌ c s) ≡ entries_of lib s
  entries_of_newline c s e =
      ap (entries_of lib) (lf_eq c s s e refl)
      ∙ entries_of-join "" s
      ∙ ap (λ z. z ++ entries_of lib s) entries_of_empty

  entries_of-skip_newlines : (s : String) → entries_of lib (skip_newlines s) ≡ entries_of lib s
  unfolding skip_newlines
  entries_of-skip_newlines String.[] = refl
  entries_of-skip_newlines (String.◌∷◌ c s) = elim (Bool-cases (eqb (code c) b'\n')) [
    | inl e ↦ rw e (entries_of-skip_newlines s ∙ sym (entries_of_newline c s e))
    | inr e ↦ rw e refl
  ]

  parse_whole-some : (s : String) → parse_whole lib (some s) ≡ entries_of lib s
  parse_whole-some s = elim (Bool-cases (skip_newlines s == "")) [
    | inl e ↦ rw e (
        sym entries_of_empty
        ∙ ap (entries_of lib) (sym (ground (arith, e, eq_iff (skip_newlines s) "")))
        ∙ entries_of-skip_newlines s)
    | inr e ↦ rw e (entries_of-skip_newlines s)
  ]

  parse_tail_entries_start : (s : String) → parse_tail_entries lib s true ≡ entries_of lib s
  unfolding parse_tail_entries
  parse_tail_entries_start String.[] = parse_whole-some ""
  parse_tail_entries_start (String.◌∷◌ c s) = parse_whole-some (String.◌∷◌ c s)

  -- A piece of the file gives an end of the file's entries.
  parse_tail_entries_end :
      (a s : String)
      → (front : List LogEntry) × (entries_of lib (join a s)
          ≡ front ++ parse_tail_entries lib s false)
  unfolding parse_tail_entries
  parse_tail_entries_end a String.[] =
      let front = entries_of lib (join a "") in
      (
        front,
        sym (append-nil front) ∙ ap (front ++◌) (sym (parse_whole-some "" ∙ entries_of_empty)),
      )
  parse_tail_entries_end a (String.◌∷◌ c s) = elim (Bool-cases (eqb (code c) b'\n')) [
    | inl e ↦
        let q = parse_whole-some (String.◌∷◌ c s) ∙ entries_of_newline c s e in
        (
          entries_of lib a,
          ap (λ z. entries_of lib (join a z)) (lf_eq c s s e refl)
              ∙ entries_of-join a s
              ∙ rw e (ap (entries_of lib a ++◌) (sym q)),
        )
    | inr e ↦ elim (Option-cases (after_newline (String.◌∷◌ c s))) [
      | inl n ↦
          let front = entries_of lib (join a (String.◌∷◌ c s)) in
          (front, rw (e, n) (sym (append-nil front)))
      | inr (t, n) ↦
          let (x, q) = after_newline_sound (String.◌∷◌ c s) t n in
          (
            entries_of lib (join a x),
            ap (λ z. entries_of lib (join a z)) q
                ∙ ap (entries_of lib) (sym (join_assoc a x (join "\n" t)))
                ∙ entries_of-join (join a x) t
                ∙ rw (e, n) (ap (entries_of lib (join a x) ++◌) (sym (parse_whole-some t))),
          )
    ]
  ]

  tail_of_end :
      (file : String) (size : ℕ)
      → (front : List LogEntry) × (entries_of lib file ≡ front ++ tail_of lib file size)
  unfolding drop_text
  tail_of_end file size = elim (Bool-cases (eqb (text_length file - size) 0)) [
    | inl e ↦
        let z : text_length file - size ≡ 0 = ground (arith, e) in
        ([], rw z (sym (parse_tail_entries_start file)))
    | inr e ↦
        let start = text_length file - size in
        let q = parse_tail_entries_end (take_text start file) (drop_text start file) in
        (q.0, rw e (ap (entries_of lib) (sym (join-take_text-drop_text start file)) ∙ q.1))
  ]

  tail_of_all :
      (file : String) (size : ℕ)
      → leb (text_length file) size ≡ true
      → tail_of lib file size ≡ entries_of lib file
  unfolding drop_text
  tail_of_all file size h =
      let z : text_length file - size ≡ 0 = ground (arith, h) in
      rw z (parse_tail_entries_start file)

  last_of_tail :
      (n : ℕ) (file : String) (size : ℕ)
      → leb n (length (tail_of lib file size)) ≡ true
      → some (last_n n (tail_of lib file size)) ≡ some (last_n n (entries_of lib file))
  last_of_tail n file size a =
      let (front, q) = tail_of_end file size in
      ap some (sym (ap (last_n n) q ∙ last_n-append n front (tail_of lib file size) a))

  -- Enough rounds of the loop find the last entries.
  clamp_small :
      (len size : ℕ) → leb len (clamp len size) ≡ false → (clamp len size ≡ size) × (suc size ≤ len)
  unfolding clamp
  clamp_small len size h = elim (Bool-cases (ltb len size)) [
    | inl e ↦ absurd (ground (arith, h, e))
    | inr e ↦ (rw e refl, ground (arith, h, e))
  ]

  read_tail_lem :
      (fuel n : ℕ) (file : String) (size : ℕ)
      → suc zero ≤ size
      → text_length file ≤ size + fuel
      → read_tail lib (suc fuel) n file size ≡ some (last_n n (entries_of lib file))
  unfolding read_tail
  read_tail_lem zero n file size p h =
      let size' = clamp (text_length file) size in
      elim (Bool-cases (leb n (length (tail_of lib file size')))) [
        | inl a ↦ rw (read_tail, a) (last_of_tail n file size' a)
        | inr a ↦ elim (Bool-cases (leb (text_length file) size')) [
          | inl b ↦ rw (read_tail, a, b) (ap (λ es. some (last_n n es)) (tail_of_all file size' b))
          | inr b ↦ absurd (let q = clamp_small (text_length file) size b in omega (arith, h, q))
        ]
      ]
  read_tail_lem (suc fuel) n file size p h =
      let size' = clamp (text_length file) size in
      elim (Bool-cases (leb n (length (tail_of lib file size')))) [
        | inl a ↦ rw (read_tail, a) (last_of_tail n file size' a)
        | inr a ↦ elim (Bool-cases (leb (text_length file) size')) [
          | inl b ↦ rw (read_tail, a, b) (ap (λ es. some (last_n n es)) (tail_of_all file size' b))
          | inr b ↦
              let q = clamp_small (text_length file) size b in
              rw (read_tail, a, b)
                (read_tail_lem fuel n file (size' * 2) (omega (arith, p, q))
                  (omega (arith, p, h, q)))
        ]
      ]

  -- `lastNEntries` ends, and gives the last n entries of the whole file, a last line included that no
  -- line feed ends.
  pub last_n_entries_lem :
      (n : ℕ) (file : String) → last_n_entries lib n file ≡ some (last_n n (entries_of lib file))
  unfolding last_n_entries text_length
  last_n_entries_lem n file = elim (Nat-cases (text_length file)) [
    | inl z ↦
        let empty : file ≡ "" = text_length_zero file z in
        rw empty (ap some (sym (last_n_nil n) ∙ ap (last_n n) (sym entries_of_empty)))
    | inr (k, z) ↦
        let positive : eqb (text_length file) 0 ≡ false = ground (arith, z) in
        rw (positive, z) (read_tail_lem k n file first_size (omega arith) (omega (arith, z)))
  ]
