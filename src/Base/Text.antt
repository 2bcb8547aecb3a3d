-- ===== src/Base/Text.antt =====
-- What the program uses of Go's package strings, on texts as lists of characters.
pub mod Lines
use Prim.Native.Char.{code}
use Prim.Native.Nat.{ℕ, zero, suc}
use mathlib.Core.List.{List, [], ◌∷◌}
use Prim.Native.String.{String}
use mathlib.Core.Bool.{Bool, true, false, ◌||◌}
use mathlib.Core.Option.{Option, none, some}
use text.Mathlib.Text.{◌==◌}
use open_pass.Base.Tests.{eqb, if◌then◌else◌}

-- a + b
abbrev pub join : String → String → String
join String.[] b = b
join (String.◌∷◌ c a) b = String.◌∷◌ c (join a b)

-- the rest of a text behind a prefix
unfoldable pub strip_prefix : String → String → Option String
strip_prefix String.[] s = some s
strip_prefix (String.◌∷◌ c p) String.[] = none
strip_prefix (String.◌∷◌ c p) (String.◌∷◌ d s) =
    if eqb (code c) (code d) then strip_prefix p s else none

-- strings.HasPrefix(s, p)
unfoldable pub has_prefix : String → String → Bool
unfolding strip_prefix
has_prefix s p = elim (strip_prefix p s) [ none ↦ false | some rest ↦ true ]

-- strings.HasSuffix(s, e)
unfoldable pub has_suffix : String → String → Bool
has_suffix String.[] e = e == ""
has_suffix (String.◌∷◌ c s) e = (String.◌∷◌ c s == e) || has_suffix s e

-- strings.TrimSuffix(s, e)
unfoldable pub trim_suffix : String → String → String
trim_suffix String.[] e = ""
trim_suffix (String.◌∷◌ c s) e = if String.◌∷◌ c s == e then "" else String.◌∷◌ c (trim_suffix s e)

-- strings.Contains(s, string(c)), for one character
unfoldable pub contains_char : String → ℕ → Bool
contains_char String.[] k = false
contains_char (String.◌∷◌ c s) k = eqb (code c) k || contains_char s k

-- strings.Contains(s, part)
unfoldable pub contains_text : String → String → Bool
contains_text String.[] part = part == ""
contains_text (String.◌∷◌ c s) part = has_prefix (String.◌∷◌ c s) part || contains_text s part

-- len(s), for a text of bytes
unfoldable pub text_length : String → ℕ
text_length String.[] = 0
text_length (String.◌∷◌ c s) = suc (text_length s)

-- s[n:], and nothing from the end on
unfoldable pub drop_text : ℕ → String → String
drop_text zero s = s
drop_text (suc n) String.[] = ""
drop_text (suc n) (String.◌∷◌ c s) = drop_text n s

-- the text behind the first line feed: s[strings.IndexByte(s, '\n') + 1:]
unfoldable pub after_newline : String → Option String
after_newline String.[] = none
after_newline (String.◌∷◌ c s) = if eqb (code c) b'\n' then some s else after_newline s

-- strings.Split(s, string(sep)), as the first part and the others
unfoldable pub split_on : ℕ → String → String × List String
split_on sep String.[] = ("", [])
split_on sep (String.◌∷◌ c s) =
    let rest = split_on sep s in
    if eqb (code c) sep then ("", rest.0 ∷ rest.1) else (String.◌∷◌ c rest.0, rest.1)

-- strings.Split(s, "\n")
abbrev pub split_lines : String → String × List String
split_lines s = split_on b'\n' s
