-- ===== src/Update.antt =====
-- internal/update/checker.go: the versions of releases. The trimming of blanks and strconv.Atoi are
-- parameters; a part that Atoi reads as a negative number is none.
pub mod Laws
pub mod Examples
use Prim.Native.String
use open_pass.Base.{
  ℕ, zero, suc, ◌+◌, String, Bool, true, false, not, ◌==◌, ◌||◌, Option, none, some, List, [], ◌∷◌,
  if◌then◌else◌, ltb, eqb,
}
use open_pass.Base.Clock.{ℤ, pos, negsuc}
use open_pass.Base.Text.{join, split_on, strip_prefix, contains_char}

-- `stableVersion`
pub record StableVersion : Type 0 where
  pub major : ℕ
  pub minor : ℕ
  pub patch : ℕ

abbrev or_else : Option String → String → String
or_else none s = s
or_else (some rest) s = rest

-- strings.TrimPrefix(s, "v")
abbrev trim_v : String → String
trim_v s = or_else (strip_prefix "v" s) s

abbrev pub version_of : Option ℕ → Option ℕ → Option ℕ → Option StableVersion
version_of (some a) (some b) (some c) = some (record { major = a; minor = b; patch = c })
version_of _ _ _ = none

module _ (trim : String → String) (atoi : String → Option ℤ) where
  abbrev natural : Option ℤ → Option ℕ
  natural (some (pos n)) = some n
  natural _ = none

  -- one part: not empty, and a number that is not negative
  abbrev pub part_value : String → Option ℕ
  part_value part = if part == "" then none else natural (atoi part)

  abbrev pub parse_parts : List String → Option StableVersion
  parse_parts (a ∷ b ∷ c ∷ []) = version_of (part_value a) (part_value b) (part_value c)
  parse_parts _ = none

  abbrev parse_trimmed : String → Option StableVersion
  parse_trimmed s =
      if contains_char s b'-' || contains_char s b'+'
      then none
      else let parts = split_on b'.' s in parse_parts (parts.0 ∷ parts.1)

  unfoldable pub parse_stable_version : String → Option StableVersion
  parse_stable_version raw =
      let trimmed = trim raw in if trimmed == "" then none else parse_trimmed (trim_v trimmed)

-- -1, 0 or 1
abbrev sign_of : Bool → ℤ
sign_of less = if less then negsuc 0 else pos 1

unfoldable pub compare_stable_versions : StableVersion → StableVersion → ℤ
compare_stable_versions left right =
    if not (eqb left.major right.major)
    then sign_of (ltb left.major right.major)
    else if not (eqb left.minor right.minor)
    then sign_of (ltb left.minor right.minor)
    else if not (eqb left.patch right.patch)
    then sign_of (ltb left.patch right.patch)
    else pos 0

-- `String`, where `digits` is the verb %d
unfoldable pub version_string : (digits : ℕ → String) → StableVersion → String
version_string digits v =
    join (digits v.major) (join "." (join (digits v.minor) (join "." (digits v.patch))))
