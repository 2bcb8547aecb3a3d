-- ===== src/Approval/Terminal.antt =====
-- internal/mcp/approval.go and internal/mcp/approval_helper.go: the texts that are shown at the
-- terminal, as texts of bytes. No control character passes `stripTerminalControl`, and what
-- has none stays as it is.

use Prim.Native.Char.{code}
use open_pass.Base.{
  ℕ, zero, suc, ◌-◌, ◌/◌, ◌≤◌, String, Bool, true, false, not, ◌&&◌, ◌||◌, ◌≡◌, ◌≢◌, ◌⊎◌, refl, ap,
  Option, none, some, if◌then◌else◌, ltb, leb, eqb, arith, inl, inr, Bool-cases,
}
use open_pass.Base.Text.{join, text_length}
use open_pass.Base.Text.Lines.{take_text, text_length-join}

-- Where the loop of `stripTerminalControl` is: in plain text, behind an escape character, or in an
-- operating system command; `opening` is the place of the bracket that starts one.
pub data Mode : Type 0 where
  plain in_escape opening in_osc : Mode

abbrev escape_goes_on : ℕ → Bool
escape_goes_on b = eqb b b'[' || (leb b'0' b && leb b b'9') || eqb b b';'

-- a byte that is dropped from plain text
abbrev pub is_control : ℕ → Bool
is_control b = (ltb b 0x20 && not (eqb b 9) && not (eqb b 10) && not (eqb b 13)) || eqb b 0x7f

abbrev after_escape_char : Option ℕ → Mode
after_escape_char none = plain
after_escape_char (some b) = if eqb b b'[' then in_escape else if eqb b b']' then opening else plain

-- one round of the loop: the mode after a byte, with the byte behind it, and whether the byte is kept
unfoldable pub strip_step : Mode → ℕ → Option ℕ → Mode × Bool
strip_step in_escape b next = (if escape_goes_on b then in_escape else plain, false)
strip_step opening b next = (in_osc, false)
strip_step in_osc b next = (if eqb b 7 || eqb b b'\\' then plain else in_osc, false)
strip_step plain b next =
    if eqb b 0x1b then (after_escape_char next, false) else (plain, not (is_control b))

abbrev first_code : String → Option ℕ
first_code String.[] = none
first_code (String.◌∷◌ c s) = some (code c)

unfoldable pub strip_from : Mode → String → String
strip_from m String.[] = ""
strip_from m (String.◌∷◌ c s) =
    let (m', kept) = strip_step m (code c) (first_code s) in
    let rest = strip_from m' s in if kept then String.◌∷◌ c rest else rest

unfoldable pub strip_terminal_control : String → String
unfolding strip_from
strip_terminal_control s = strip_from plain s

-- A byte is a tab, a line feed, a carriage return, or neither below the blank nor the delete character.
abbrev pub IsShown : ℕ → Type 0
IsShown b = (b ≡ 9) ⊎ (b ≡ 10) ⊎ (b ≡ 13) ⊎ ((32 ≤ b) × (b ≢ 127))

-- Every byte is shown.
abbrev pub HasNoControl : String → Type 0
HasNoControl String.[] = Unit
HasNoControl (String.◌∷◌ c s) = IsShown (code c) × HasNoControl s

is_control-IsShown : (b : ℕ) → is_control b ≡ false → IsShown b
is_control-IsShown b h = ground (arith, h)

shown_is_kept : (b : ℕ) → IsShown b → is_control b ≡ false
shown_is_kept b h = ground (arith, h)

kept_is_clean :
    (m : Mode) (b : ℕ) (next : Option ℕ) → (strip_step m b next).1 ≡ true → is_control b ≡ false
unfolding strip_step
kept_is_clean in_escape b next h = absurd (ground (arith, h))
kept_is_clean opening b next h = absurd (ground (arith, h))
kept_is_clean in_osc b next h = absurd (ground (arith, h))
kept_is_clean plain b next h = elim (Bool-cases (eqb b 0x1b)) [
  | inl e ↦ absurd (ground (arith, rw e at h))
  | inr e ↦ let k = rw e at h in ground (arith, k)
]

strip_from-HasNoControl : (m : Mode) (s : String) → HasNoControl (strip_from m s)
unfolding strip_from
strip_from-HasNoControl m String.[] = tt
strip_from-HasNoControl m (String.◌∷◌ c s) =
    let r = strip_step m (code c) (first_code s) in
    elim (Bool-cases r.1) [
      | inl e ↦ rw e (
        is_control-IsShown (code c) (kept_is_clean m (code c) (first_code s) e),
        strip_from-HasNoControl r.0 s,
      )
      | inr e ↦ rw e (strip_from-HasNoControl r.0 s)
    ]

clean_step :
    (b : ℕ) (next : Option ℕ) → is_control b ≡ false → strip_step plain b next ≡ (plain, true)
unfolding strip_step
clean_step b next h = elim (Bool-cases (eqb b 0x1b)) [
  | inl e ↦ absurd (ground (arith, e, h))
  | inr e ↦ rw (e, h) refl
]

strip_from_clean : (s : String) → HasNoControl s → strip_from plain s ≡ s
unfolding strip_from
strip_from_clean String.[] h = refl
strip_from_clean (String.◌∷◌ c s) (k, h) =
    rw (clean_step (code c) (first_code s) (shown_is_kept (code c) k))
      (ap (String.◌∷◌ c) (strip_from_clean s h))

-- `stripTerminalControl` leaves no byte below the blank but tabs, line feeds and carriage returns, and
-- no delete character, and it changes no text that has none of these.
pub strip_terminal_control_lem :
    (s : String)
    → HasNoControl (strip_terminal_control s) × (HasNoControl s → strip_terminal_control s ≡ s)
unfolding strip_terminal_control
strip_terminal_control_lem s = (strip_from-HasNoControl plain s, strip_from_clean s)

-- strings.Repeat(" ", n)
unfoldable pub spaces : ℕ → String
spaces zero = ""
spaces (suc n) = String.◌∷◌ " " (spaces n)

unfoldable pub truncate : String → (max_len : ℕ) → String
truncate s max_len =
    if leb (text_length s) max_len
    then s
    else if leb max_len 3
    then take_text max_len s
    else join (take_text (max_len - 3) s) "..."

unfoldable pub center_text : String → (width : ℕ) → String
center_text text width =
    if leb width (text_length text)
    then take_text width text
    else let padding = width - text_length text in
      let left = padding / 2 in
      let right = padding - left in join (spaces left) (join text (spaces right))

text_length-take_text : (n : ℕ) (s : String) → n ≤ text_length s → text_length (take_text n s) ≡ n
unfolding take_text text_length
text_length-take_text zero s h = refl
text_length-take_text (suc n) String.[] h = absurd (omega (arith, h))
text_length-take_text (suc n) (String.◌∷◌ c s) h =
    ap suc (text_length-take_text n s (omega (arith, h)))

text_length-spaces : (n : ℕ) → text_length (spaces n) ≡ n
unfolding spaces text_length
text_length-spaces zero = refl
text_length-spaces (suc n) = ap suc (text_length-spaces n)

three_dots : text_length "..." ≡ 3
unfolding text_length
three_dots = refl

text_length-truncate : (s : String) (max_len : ℕ) → text_length (truncate s max_len) ≤ max_len
unfolding truncate
text_length-truncate s max_len = elim (Bool-cases (leb (text_length s) max_len)) [
  | inl e ↦ rw e (ground (arith, e))
  | inr e ↦ elim (Bool-cases (leb max_len 3)) [
    | inl f ↦
        let n = text_length-take_text max_len s (ground (arith, e)) in rw (e, f) (omega (arith, n))
    | inr f ↦
        let n = text_length-take_text (max_len - 3) s (ground (arith, e)) in
        let j = text_length-join (take_text (max_len - 3) s) "..." in
        let d = three_dots in rw (e, f) (ground (arith, j, n, d, f))
  ]
]

-- The texts of the prompt fit its box: `truncate` gives no more than the length that it is given, and
-- `centerText` exactly its width.
text_length-center_text :
    (s : String) (width : ℕ)
    → (text_length (truncate s width) ≤ width) × (text_length (center_text s width) ≡ width)
unfolding center_text
text_length-center_text s width = (
  text_length-truncate s width,
  elim (Bool-cases (leb width (text_length s))) [
    | inl e ↦ rw e (text_length-take_text width s (ground (arith, e)))
    | inr e ↦
        let left = (width - text_length s) / 2 in
        let right = width - text_length s - left in
        let j = text_length-join (spaces left) (join s (spaces right)) in
        let k = text_length-join s (spaces right) in
        let m = text_length-spaces left in
        let n = text_length-spaces right in rw e (ground (arith, e, j, k, m, n))
  ],
)
