-- ===== src/Vault/Path.antt =====
-- internal/pathutil/pathutil.go, and `validateRawEntryPath` of internal/vault/entry.go: which paths
-- an entry may have. The separator is "/"; the trimming of blanks is a parameter.
pub mod Laws
use Prim.Native.String
use Prim.Native.Char.{code}
use open_pass.Base.{
  ℕ, String, Bool, true, false, not, ◌==◌, ◌&&◌, ◌||◌, Option, none, some, List, [], ◌∷◌,
  if◌then◌else◌, ltb, eqb, any, length,
}
use open_pass.Base.Text.{split_on, has_prefix, contains_char}

pub data PathError : Type 0 where
  path_empty null_byte control_character not_relative parent_segment empty_segment dot_segment :
      PathError

-- strings.ReplaceAll(path, "\\", "/")
unfoldable pub normalize : String → String
normalize String.[] = ""
normalize (String.◌∷◌ c s) =
    if eqb (code c) b'\\' then String.◌∷◌ "/" (normalize s) else String.◌∷◌ c (normalize s)

-- a character below 0x20 that is neither a tab nor a line feed
unfoldable pub has_control : String → Bool
has_control String.[] = false
has_control (String.◌∷◌ c s) =
    if ltb (code c) 32 && not (eqb (code c) 9) && not (eqb (code c) 10) then true else has_control s

abbrev pub segments : String → List String
segments s = let parts = split_on b'/' s in parts.0 ∷ parts.1

abbrev pub check_segments : List String → Option PathError
check_segments parts =
    if any (λ s. s == "..") parts
    then some parent_segment
    else if any (λ s. s == "") parts && ltb 1 (length parts)
    then some empty_segment
    else none

unfoldable pub validate_path : String → Option PathError
validate_path path =
    if path == ""
    then some path_empty
    else if contains_char path 0
    then some null_byte
    else if has_control path
    then some control_character
    else if has_prefix (normalize path) "/"
    then some not_relative
    else check_segments (segments (normalize path))

-- On a path with "/" as its only separator, filepath.ToSlash changes nothing.
abbrev pub has_traversal : String → Bool
has_traversal path = any (λ s. s == "..") (segments path)

abbrev check_dots : List String → Option PathError → Option PathError
check_dots parts (some e) = some e
check_dots parts none = if any (λ s. s == ".") parts then some dot_segment else none

-- `trim` is strings.TrimSpace
unfoldable pub validate_raw_entry_path : (trim : String → String) → String → Option PathError
validate_raw_entry_path trim path =
    check_dots (segments (normalize (trim path))) (validate_path (trim path))
