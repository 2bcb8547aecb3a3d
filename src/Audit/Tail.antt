-- ===== src/Audit/Tail.antt =====
-- internal/audit/audit.go: reading the end of the log file in growing pieces.
pub mod Laws
pub mod Digest
use Prim.Native.String
use Prim.Native.Char.{code}
use open_pass.Base.{
  ℕ, zero, suc, ◌-◌, ◌*◌, String, Bool, true, false, not, ◌==◌, ◌&&◌, ◌||◌, Option, none, some,
  List, [], ◌∷◌, if◌then◌else◌, ltb, leb, eqb, length, keep,
}
use open_pass.Base.Text.{text_length, drop_text, after_newline, split_lines}
use open_pass.Base.Slices.{last_n}
use open_pass.Audit.{LogEntry, Library, parse_lines}
use open_pass.Audit.Logger.{Logger}

-- the number of bytes that the first piece has
abbrev pub first_size : ℕ
first_size = 4096

abbrev pub lines_of : String → List String
lines_of s = let lines = split_lines s in lines.0 ∷ lines.1

-- the text behind its leading line feeds
unfoldable pub skip_newlines : String → String
skip_newlines String.[] = ""
skip_newlines (String.◌∷◌ c s) = if eqb (code c) b'\n' then skip_newlines s else String.◌∷◌ c s

-- the last line that is not blank
abbrev later_or : Option String → Option String → Option String
later_or none line = line
later_or (some later) line = some later

unfoldable pub last_line : Library → List String → Option String
last_line lib [] = none
last_line lib (line ∷ rest) =
    later_or (last_line lib rest) (if lib.trim_space line == "" then none else some line)

-- `if readSize > fileSize { readSize = fileSize }`
unfoldable pub clamp : ℕ → ℕ → ℕ
clamp file_size read_size = if ltb file_size read_size then file_size else read_size

-- The piece behind its partial line; none where the piece is all of one line, and then it does
-- not start at the start of the file, so that the test of the file's size never holds.
abbrev pub piece_text : ℕ → String → Option String
piece_text start piece = if ltb 0 start then after_newline piece else some piece

module _ (lib : Library) where
  -- the rest of `parseTailEntries` behind the partial line
  abbrev pub parse_whole : Option String → List LogEntry
  parse_whole none = []
  parse_whole (some s) =
      let text = skip_newlines s in if text == "" then [] else parse_lines lib (lines_of text)

  -- A piece that starts with a line feed, or at the start of the file, has no partial line.
  unfoldable pub parse_tail_entries : String → Bool → List LogEntry
  parse_tail_entries String.[] at_start = parse_whole (some "")
  parse_tail_entries (String.◌∷◌ c s) at_start =
      if not at_start && not (eqb (code c) b'\n')
      then parse_whole (after_newline (String.◌∷◌ c s))
      else parse_whole (some (String.◌∷◌ c s))

  -- One round of the loop with a piece of `size` bytes.
  abbrev pub tail_of : String → ℕ → List LogEntry
  tail_of file size =
      let start = text_length file - size in parse_tail_entries (drop_text start file) (eqb start 0)

  -- The loop of `lastNEntries`, on fuel.
  unfoldable pub read_tail : ℕ → ℕ → String → ℕ → Option (List LogEntry)
  read_tail zero n file read_size = none
  read_tail (suc fuel) n file read_size =
      let size = clamp (text_length file) read_size in
      let entries = tail_of file size in
      elim (leb n (length entries) || leb (text_length file) size) [
        | true ↦ some (last_n n entries)
        | false ↦ read_tail fuel n file (size * 2)
      ]

  -- `lastNEntries` on the text of the file, whose reading succeeds
  unfoldable pub last_n_entries : ℕ → String → Option (List LogEntry)
  last_n_entries n file =
      if eqb (text_length file) 0 then some [] else read_tail (text_length file) n file first_size

  -- The last digest that a line gives; none where its hex text does not decode.
  abbrev pub hmac_of : Option LogEntry → Option String
  hmac_of none = some ""
  hmac_of (some e) = if e.hmac == "" then some "" else lib.hex_decode e.hmac

  abbrev pub last_hmac : Option String → Option String
  last_hmac none = some ""
  last_hmac (some line) = hmac_of (lib.unmarshal line)

  abbrev pub last_hmac_in : String → Option String
  last_hmac_in text = last_hmac (last_line lib (lines_of text))

  -- The loop of `readLastHMAC`, on fuel: none for an error, and an empty digest for nil.
  unfoldable pub read_hmac : ℕ → String → ℕ → Option String
  read_hmac zero file read_size = none
  read_hmac (suc fuel) file read_size =
      let size = clamp (text_length file) read_size in
      let start = text_length file - size in
      elim (piece_text start (drop_text start file)) [
        | some text ↦ last_hmac_in text
        | none ↦ read_hmac fuel file (size * 2)
      ]

  unfoldable pub read_last_hmac : Option String → Option String
  read_last_hmac none = some ""
  read_last_hmac (some file) =
      if eqb (text_length file) 0 then some "" else read_hmac (text_length file) file first_size
