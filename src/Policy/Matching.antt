-- ===== src/Policy/Matching.antt =====
-- internal/policy/engine.go: the tests of a rule's conditions against a context
pub mod Laws
use Prim.Native.String
use open_pass.Base.{
  ℕ, zero, suc, String, Bool, true, false, not, Option, none, some, List, [], ◌∷◌, ◌==◌, ◌&&◌, ◌||◌,
  any, if◌then◌else◌,
}
use open_pass.Base.Assoc.{Assoc, lookup}
use open_pass.Base.Text.{strip_prefix, has_prefix, has_suffix, trim_suffix, contains_char}

-- What the code uses of path, filepath, strings.TrimSpace and os: `clean` is
-- `filepath.ToSlash(filepath.Clean(p))`, `glob` is `path.Match` with its error, `home` is
-- `os.UserHomeDir`, and `join` is `filepath.ToSlash(filepath.Join(a, b))`.
pub record Paths : Type 0 where
  pub clean : String → String
  pub glob : String → String → Option Bool
  pub home : Option String
  pub join : String → String → String
  pub trim_space : String → String

unfoldable pub match_string : String → String → Bool
match_string pattern value = if pattern == "*" then true else pattern == value

-- the two prefix tests share this one: the directory itself, or something below it
abbrev pub at_or_below : String → String → Bool
at_or_below directory path = path == directory || has_prefix path (String.◌++◌ directory "/")

abbrev pub glob_matches : Option Bool → Bool
glob_matches none = false
glob_matches (some matched) = matched

module _ (lib : Paths) where
  abbrev clean_path : String → String
  clean_path path = let cleaned = lib.clean path in if cleaned == "." then "" else cleaned

  -- the tests that need no home directory, on the cleaned path
  pub match_here : String → String → Bool
  match_here pattern path =
      if pattern == path
      then true
      else if glob_matches (lib.glob pattern path)
      then true
      else if has_suffix pattern "/**"
          && (let dir = trim_suffix (trim_suffix pattern "/**") "/" in
              not (dir == "") && at_or_below dir path)
      then true
      else if has_suffix pattern "/"
          && (let dir = trim_suffix pattern "/" in not (dir == "") && at_or_below dir path)
      then true
      else not (contains_char pattern b'*') && at_or_below pattern path

  -- `pattern[2:]` under the home directory, if the pattern begins with "~/" and there is one
  abbrev pub expand_home : String → Option String
  expand_home pattern = elim (strip_prefix "~/" pattern) [
    | none ↦ none
    | some rest ↦ elim lib.home [
      | none ↦ none
      | some home ↦ if home == "" then none else some (lib.join home rest)
    ]
  ]

  -- `matchPath`, with fuel for its call of itself on the expanded pattern
  pub match_path : ℕ → String → String → Bool
  match_path zero pattern path = false
  match_path (suc fuel) pattern path =
      let cleaned = clean_path path in
      let again : Bool = elim (expand_home pattern) [
        | none ↦ false
        | some p ↦ match_path fuel p cleaned
      ] in
      if pattern == ""
      then true
      else if pattern == "*"
      then true
      else if match_here pattern cleaned
      then true
      else again

pub match_any_tag : List String → List String → Bool
match_any_tag required actual = any (λ r. any (λ a. r == a) actual) required

abbrev env_matches : String → Option String → Bool
env_matches pattern none = false
env_matches pattern (some value) = match_string pattern value

-- the loop over the required variables
pub match_env_vars : Assoc String → Assoc String → Bool
unfolding match_string
match_env_vars [] actual = true
match_env_vars ((key, pattern) ∷ required) actual =
    if env_matches pattern (lookup key actual) then match_env_vars required actual else false

abbrev is_nil : List String → Bool
is_nil [] = true
is_nil (_ ∷ _) = false

pub match_allowed_tool : List String → String → Bool
match_allowed_tool allowed tool =
    if is_nil allowed || tool == "" then true else any (λ t. t == tool) allowed

unfoldable pub normalize_pattern : Paths → String → String
normalize_pattern lib pattern =
    if pattern == ""
    then ""
    else let cleaned = lib.trim_space pattern in if cleaned == "." then "" else cleaned
