-- ===== src/Update/Laws.antt =====
-- internal/update/checker.go: parsing against printing, and the order of versions.

use Prim.Native.Char.{code}
use open_pass.Base.{
  ℕ, ◌<◌, String, false, ◌==◌, ◌≡◌, refl, ap, ◌∙◌, ◌⊎◌, ◌↔◌, inl, inr, Option, none, some, [], ◌∷◌,
  eqb, Bool-cases, arith,
}
use open_pass.Base.Clock.{ℤ, pos, negsuc}
use open_pass.Base.Text.{join, split_on, strip_prefix, contains_char}
use open_pass.Base.Text.Lines.{split_on-join, split_on_of_part, cons_not_empty}
use open_pass.Update.{
  StableVersion, part_value, parse_stable_version, compare_stable_versions, version_string,
}

version_eq :
    (a b : StableVersion) → a.major ≡ b.major → a.minor ≡ b.minor → a.patch ≡ b.patch → a ≡ b
version_eq a b p q r =
    ap (λ x. record a { major = x }) p
    ∙ ap (λ x. record a { major = b.major; minor = x }) q
    ∙ ap (λ x. record b { patch = x }) r

-- The order of versions: the first number that differs decides.
abbrev pub Older : StableVersion → StableVersion → Type 0
Older a b =
    (a.major < b.major)
    ⊎ ((a.major ≡ b.major) × ((a.minor < b.minor) ⊎ ((a.minor ≡ b.minor) × (a.patch < b.patch))))

-- `compareStableVersions` is negative exactly for an older version, zero exactly for the same, and its sign
-- turns with its arguments.
compare_stable_versions_lem :
    (a b : StableVersion)
    → ((compare_stable_versions a b ≡ negsuc 0) ↔ Older a b)
      × ((compare_stable_versions a b ≡ pos 1) ↔ Older b a)
      × ((compare_stable_versions a b ≡ pos 0) ↔ (a ≡ b))
unfolding compare_stable_versions
compare_stable_versions_lem a b = (
  ((λ h. ground (arith, h)), (λ h. ground (arith, h))),
  ((λ h. ground (arith, h)), (λ h. ground (arith, h))),
  (
    (λ h. version_eq a b (ground (arith, h)) (ground (arith, h)) (ground (arith, h))),
    (λ h. rw h (ground arith)),
  ),
)

-- What the round trip needs of the verb %d and of Atoi: digits are read back, are not empty, do not
-- start with a "v", and have none of the marks of a version.
pub record Decimal (digits : ℕ → String) (atoi : String → Option ℤ) : Type 0 where
  pub reads : (n : ℕ) → atoi (digits n) ≡ some (pos n)
  pub not_empty : (n : ℕ) → (digits n == "") ≡ false
  pub no_v : (n : ℕ) → strip_prefix "v" (digits n) ≡ none
  pub no_point : (n : ℕ) → contains_char (digits n) b'.' ≡ false
  pub no_minus : (n : ℕ) → contains_char (digits n) b'-' ≡ false
  pub no_plus : (n : ℕ) → contains_char (digits n) b'+' ≡ false

contains_char-join :
    (a b : String) (k : ℕ)
    → contains_char a k ≡ false
    → contains_char b k ≡ false
    → contains_char (join a b) k ≡ false
unfolding contains_char
contains_char-join String.[] b k p q = q
contains_char-join (String.◌∷◌ c a) b k p q =
    let rest = contains_char-join a b k (ground (arith, p)) q in ground (arith, p, rest)

strip_prefix-join :
    (a b : String)
    → (a == "") ≡ false
    → strip_prefix "v" a ≡ none
    → strip_prefix "v" (join a b) ≡ none
unfolding strip_prefix
strip_prefix-join String.[] b n h = absurd (ground (arith, n))
strip_prefix-join (String.◌∷◌ c a) b n h = elim (Bool-cases (eqb b'v' (code c))) [
  | inl e ↦ absurd (ground (arith, rw e at h))
  | inr e ↦ rw e refl
]

join_not_empty : (a b : String) → (a == "") ≡ false → (join a b == "") ≡ false
join_not_empty String.[] b h = absurd (ground (arith, h))
join_not_empty (String.◌∷◌ c a) b h = cons_not_empty c (join a b)

module _ (digits : ℕ → String) (atoi : String → Option ℤ) (dec : Decimal digits atoi) where
  no_mark :
      (v : StableVersion) (k : ℕ)
      → contains_char "." k ≡ false
      → ((n : ℕ) → contains_char (digits n) k ≡ false)
      → contains_char (version_string digits v) k ≡ false
  unfolding version_string
  no_mark v k p d =
      contains_char-join (digits v.major)
        (join "." (join (digits v.minor) (join "." (digits v.patch)))) k (d v.major)
        (contains_char-join "." (join (digits v.minor) (join "." (digits v.patch))) k p (
          contains_char-join (digits v.minor) (join "." (digits v.patch)) k (d v.minor)
            (contains_char-join "." (digits v.patch) k p (d v.patch))))

  parts_of :
      (v : StableVersion)
      → split_on b'.' (version_string digits v)
        ≡ (digits v.major, digits v.minor ∷ digits v.patch ∷ [])
  unfolding version_string
  parts_of v =
      split_on-join "." (digits v.major) (join (digits v.minor) (join "." (digits v.patch)))
      ∙ rw
          (
            split_on_of_part b'.' (digits v.major) (dec.no_point v.major),
            split_on-join "." (digits v.minor) (digits v.patch),
            split_on_of_part b'.' (digits v.minor) (dec.no_point v.minor),
            split_on_of_part b'.' (digits v.patch) (dec.no_point v.patch),
          )
          refl

  not_empty_string : (v : StableVersion) → (version_string digits v == "") ≡ false
  unfolding version_string
  not_empty_string v = join_not_empty (digits v.major) _ (dec.not_empty v.major)

  no_prefix : (v : StableVersion) → strip_prefix "v" (version_string digits v) ≡ none
  unfolding version_string
  no_prefix v = strip_prefix-join (digits v.major) _ (dec.not_empty v.major) (dec.no_v v.major)

  part_of : (trim : String → String) (n : ℕ) → part_value trim atoi (digits n) ≡ some n
  part_of trim n = let a = dec.not_empty n in let b = dec.reads n in rw (a, b) refl

  -- A printed version parses to itself, if it has no blanks to trim.
  pub parse_stable_version-version_string :
      (trim : String → String) (v : StableVersion)
      → trim (version_string digits v) ≡ version_string digits v
      → parse_stable_version trim atoi (version_string digits v) ≡ some v
  unfolding parse_stable_version contains_char
  parse_stable_version-version_string trim v t =
      let nonempty = not_empty_string v in
      let no_minus = no_mark v b'-' refl dec.no_minus in
      let no_plus = no_mark v b'+' refl dec.no_plus in
      rw
        (
          t,
          nonempty,
          no_prefix v,
          no_minus,
          no_plus,
          parts_of v,
          part_of trim v.major,
          part_of trim v.minor,
          part_of trim v.patch,
        )
        refl
