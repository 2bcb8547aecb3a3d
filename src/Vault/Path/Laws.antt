-- ===== src/Vault/Path/Laws.antt =====
-- internal/pathutil/pathutil.go and internal/vault/entry.go: a valid path stays where it is put.

use Prim.Native.Char.{code}
use open_pass.Base.{
  String, true, false, ◌==◌, ◌&&◌, ◌||◌, ◌≡◌, refl, sym, ◌∙◌, inl, inr, Option, none, some, List,
  [], ◌∷◌, ◌++◌, if◌then◌else◌, ltb, eqb, any, length, Bool-cases, arith, append-nil, All,
}
use mathlib.Core.List.{append_assoc}
use open_pass.Base.Text.{split_on}
use open_pass.Base.Text.Lines.{cons_not_empty}
use open_pass.Base.Text.{contains_char, has_prefix}
use open_pass.Vault.Path.{
  PathError, has_control, normalize, segments, check_segments, check_dots, validate_path,
  validate_raw_entry_path,
}

-- The directory without its last name.
abbrev parent : List String → List String
parent [] = []
parent (name ∷ []) = []
parent (name ∷ next ∷ rest) = name ∷ parent (next ∷ rest)

-- Where a path leads from a directory, name by name: "" and "." stay, ".." goes up.
abbrev pub resolve : List String → List String → List String
resolve dir [] = dir
resolve dir (name ∷ rest) =
    if name == "" || name == "."
    then resolve dir rest
    else if name == ".."
    then resolve (parent dir) rest
    else resolve (dir ++ name ∷ []) rest

abbrev IsName : String → Type 0
IsName s = ((s == "") ≡ false) × ((s == ".") ≡ false) × ((s == "..") ≡ false)

resolve_names : (dir names : List String) → All IsName names → resolve dir names ≡ dir ++ names
resolve_names dir [] h = sym (append-nil dir)
resolve_names dir (s ∷ names) ((a, b, c), h) =
    rw (a, b, c) (resolve_names (dir ++ s ∷ []) names h ∙ append_assoc dir (s ∷ []) names)

names_of :
    (parts : List String)
    → any (λ s. s == "") parts ≡ false
    → any (λ s. s == ".") parts ≡ false
    → any (λ s. s == "..") parts ≡ false
    → All IsName parts
names_of [] a b c = tt
names_of (s ∷ parts) a b c = (
  (ground (arith, a), ground (arith, b), ground (arith, c)),
  names_of parts (ground (arith, a)) (ground (arith, b)) (ground (arith, c)),
)

no_empty_of_first :
    (p : String) (parts : List String)
    → (p == "") ≡ false
    → (any (λ q. q == "") (p ∷ parts) && ltb 1 (length (p ∷ parts))) ≡ false
    → any (λ q. q == "") (p ∷ parts) ≡ false
no_empty_of_first p [] n h = rw n refl
no_empty_of_first p (q ∷ parts) n h =
    let two : ltb 1 (length (p ∷ q ∷ parts)) ≡ true = ground arith in ground (arith, h, two)

-- A text that is not empty has a part that is not empty, or two parts.
no_empty_part :
    (s : String)
    → (s == "") ≡ false
    → (any (λ p. p == "") (segments s) && ltb 1 (length (segments s))) ≡ false
    → any (λ p. p == "") (segments s) ≡ false
unfolding split_on
no_empty_part String.[] n h = absurd (ground (arith, n))
no_empty_part (String.◌∷◌ c s) n h = elim (Bool-cases (eqb (code c) b'/')) [
  | inl e ↦ absurd (ground (arith, rw e at h))
  | inr e ↦ rw e (
      no_empty_of_first (String.◌∷◌ c (split_on b'/' s).0) (split_on b'/' s).1
        (cons_not_empty c (split_on b'/' s).0) (rw e at h))
]

normalize_not_empty : (s : String) → (s == "") ≡ false → (normalize s == "") ≡ false
unfolding normalize
normalize_not_empty String.[] h = absurd (ground (arith, h))
normalize_not_empty (String.◌∷◌ c s) h = elim (Bool-cases (eqb (code c) b'\\')) [
  | inl e ↦ rw e (cons_not_empty "/" (normalize s))
  | inr e ↦ rw e (cons_not_empty c (normalize s))
]

-- What the checks leave of a valid path.
validate_path_sound :
    (path : String)
    → validate_path path ≡ none
    → ((path == "") ≡ false) × (check_segments (segments (normalize path)) ≡ none)
unfolding validate_path
validate_path_sound path h = elim (Bool-cases (path == "")) [
  | inl e ↦ absurd (ground (arith, rw e at h))
  | inr e ↦ elim (Bool-cases (contains_char path 0)) [
    | inl z ↦ absurd (ground (arith, rw (e, z) at h))
    | inr z ↦ elim (Bool-cases (has_control path)) [
      | inl k ↦ absurd (ground (arith, rw (e, z, k) at h))
      | inr k ↦ elim (Bool-cases (has_prefix (normalize path) "/")) [
        | inl p ↦ absurd (ground (arith, rw (e, z, k, p) at h))
        | inr p ↦ (e, rw (e, z, k, p) at h)
      ]
    ]
  ]
]

check_segments_sound :
    (parts : List String)
    → check_segments parts ≡ none
    → (any (λ s. s == "..") parts ≡ false)
      × ((any (λ s. s == "") parts && ltb 1 (length parts)) ≡ false)
check_segments_sound parts h = elim (Bool-cases (any (λ s. s == "..") parts)) [
  | inl e ↦ absurd (ground (arith, rw e at h))
  | inr e ↦ elim (Bool-cases (any (λ s. s == "") parts && ltb 1 (length parts))) [
    | inl k ↦ absurd (ground (arith, rw (e, k) at h))
    | inr k ↦ (e, k)
  ]
]

check_dots_sound :
    (parts : List String) (o : Option PathError)
    → check_dots parts o ≡ none
    → (o ≡ none) × (any (λ s. s == ".") parts ≡ false)
check_dots_sound parts (some e) h = absurd (ground (arith, h))
check_dots_sound parts none h = elim (Bool-cases (any (λ s. s == ".") parts)) [
  | inl e ↦ absurd (ground (arith, rw e at h))
  | inr e ↦ (refl, e)
]

-- A path that `validateRawEntryPath` accepts leads, without the blanks around it and with each "\" as a "/", from any directory down along its own
-- names: no name goes up, stays, or starts at the root.
pub resolve_valid :
    (trim : String → String) (path : String) (dir : List String)
    → validate_raw_entry_path trim path ≡ none
    → resolve dir (segments (normalize (trim path))) ≡ dir ++ segments (normalize (trim path))
unfolding validate_raw_entry_path
resolve_valid trim path dir h =
    let t = trim path in
    let parts = segments (normalize t) in
    let (valid, no_dot) = check_dots_sound parts (validate_path t) h in
    let (nonempty, checked) = validate_path_sound t valid in
    let (no_parent, parts_ok) = check_segments_sound parts checked in
    resolve_names dir parts (
      names_of parts (no_empty_part (normalize t) (normalize_not_empty t nonempty) parts_ok) no_dot
        no_parent)
