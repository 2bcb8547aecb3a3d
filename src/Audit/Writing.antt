-- ===== src/Audit/Writing.antt =====
-- internal/audit/audit.go: what `LogEntry` writes, `VerifyLog` accepts.

use open_pass.Base.{
  ℕ, ◌+◌, String, Bool, true, false, ◌==◌, ◌≡◌, refl, sym, ap, subst, inl, inr, ◌⊎◌, ◌∙◌, none,
  some, List, [], ◌∷◌, ◌++◌, leb, length, append-nil, Option-cases, arith, All, All-append,
}
use open_pass.Base.Text.{contains_char, text_length, split_on, split_lines}
use open_pass.Base.Text.Lines.{
  written, join_empty, written-append, split_lines-join, split_lines_of_line,
}
use open_pass.Audit.{
  LogEntry, VerifyResult, Library, done, empty_result, chain_digest, compute_hmac, scan_entries,
  scanned, parse_line, parse_lines, verify_log, max_scan_token,
}
use open_pass.Audit.Logger.{
  Logger, Outcome, WriteOutcome, wrote, stopped, log_entry, with_timestamp, with_hmac, write_entry,
  log_all, log_to, after_write, append_line,
}
use open_pass.Audit.Chain.{Chained, chain_end, Chained-append, chain_end-append}
use open_pass.Audit.Acceptance.{HexLaw, verify_entries-Chained}

-- What the code relies on: encoding/json gives one line, which parses back for an entry whose texts are
-- valid UTF-8 (`is_text`), and the encoding of a digest is such a text, and not empty.
pub record Laws (lib : Library) (is_text : LogEntry → Bool) : Type 0 where
  pub trim_empty : lib.trim_space "" ≡ ""
  pub signed_text :
      (key prev : String) (e : LogEntry)
      → is_text e ≡ true
      → is_text (record e { hmac = compute_hmac lib key prev e }) ≡ true
  pub line_parses :
      (e : LogEntry) (line : String)
      → is_text e ≡ true
      → lib.marshal e ≡ some line
      → parse_line lib line ≡ some e
  pub line_whole :
      (e : LogEntry) (line : String) → lib.marshal e ≡ some line → contains_char line b'\n' ≡ false
  pub hex : HexLaw lib
  pub digest_text : (key text : String) → (lib.hex_encode (lib.hmac_sha256 key text) == "") ≡ false

abbrev pub NoNewline : String → Type 0
NoNewline line = contains_char line b'\n' ≡ false

-- shorter than the scanner's buffer
abbrev pub Short : String → Type 0
Short line = leb max_scan_token (text_length line) ≡ false

abbrev pub file_lines : String → List String
file_lines file = let lines = split_lines file in lines.0 ∷ lines.1

-- the result for n entries that are all verified
abbrev pub all_verified : ℕ → VerifyResult
all_verified n = record (empty_result n) { verified = n }

pub split_lines-written :
    (lines : List String)
    → All NoNewline lines
    → (split_lines (written lines)).0 ∷ (split_lines (written lines)).1 ≡ lines ++ "" ∷ []
unfolding written split_on
split_lines-written [] h = refl
split_lines-written (line ∷ rest) (n, h) =
    rw (split_lines-join line (written rest), split_lines_of_line line n)
      (ap (λ z. line ∷ z) (split_lines-written rest h))

pub scanned_of_Short : (lines : List String) → All Short lines → scanned lines ≡ lines
unfolding scanned
scanned_of_Short [] h = refl
scanned_of_Short (line ∷ rest) (s, h) = rw (s, scanned_of_Short rest h) refl

module _ (lib : Library) where
  open lib use {marshal, unmarshal, trim_space, hex_encode, hex_decode}

  pub parse_lines-append :
      (xs ys : List String) → parse_lines lib (xs ++ ys) ≡ parse_lines lib xs ++ parse_lines lib ys
  unfolding parse_lines
  parse_lines-append [] ys = refl
  parse_lines-append (x ∷ xs) ys = elim (Option-cases (parse_line lib x)) [
    | inl n ↦ rw (parse_lines, n) (parse_lines-append xs ys)
    | inr (e, n) ↦ rw (parse_lines, n) (ap (λ z. e ∷ z) (parse_lines-append xs ys))
  ]

  -- The file is a chain of whole lines, and the logger has its last digest.
  abbrev pub InStep : Logger → Type 0
  InStep l =
      (lines : List String) × (l.file ≡ some (written lines))
      × All NoNewline lines
      × Chained lib l.hmac_key "" (parse_lines lib lines)
      × (l.prev_hmac ≡ chain_end lib l.hmac_key "" (parse_lines lib lines))

module _ (lib : Library) (is_text : LogEntry → Bool) (laws : Laws lib is_text) where
  open lib use {marshal, hex_encode, hex_decode}

  parse_one :
      (e : LogEntry) (line : String)
      → is_text e ≡ true
      → marshal e ≡ some line
      → parse_lines lib (line ∷ []) ≡ e ∷ []
  unfolding parse_lines
  parse_one e line u m = let q = laws.line_parses e line u m in rw (parse_lines, q) refl

  -- An entry is signed over the digest of the logger.
  with_hmac_signed :
      (l : Logger) (e : LogEntry)
      → (l.hmac_key == "") ≡ false
      → (((with_hmac lib l e).hmac == "") ≡ false)
        × (hex_decode (with_hmac lib l e).hmac
            ≡ some (chain_digest lib l.hmac_key l.prev_hmac (with_hmac lib l e)))
  unfolding compute_hmac chain_digest
  with_hmac_signed l e k = rw k (laws.digest_text _ _, laws.hex _)

  -- The entry as it is written.
  abbrev stamped : Outcome → LogEntry → Logger → LogEntry
  stamped o e l = with_hmac lib l (with_timestamp lib o.clock e)

  pub log_entry_written :
      (o : Outcome) (e : LogEntry) (l : Logger) (old line : String)
      → l.file ≡ some old
      → marshal (stamped o e l) ≡ some line
      → o.writing ≡ wrote
      → (log_entry lib o e l).0 ≡ after_write lib (stamped o e l) (append_line lib old line l)
  unfolding log_entry
  log_entry_written o e l old line f m ok =
      ap (λ file. (log_to lib o e file l).0) f
      ∙ ap (λ text. (write_entry lib o old (stamped o e l) text l).0) m
      ∙ rw ok refl

  log_entry_refused :
      (o : Outcome) (e : LogEntry) (l : Logger) (old : String)
      → l.file ≡ some old
      → marshal (stamped o e l) ≡ none
      → (log_entry lib o e l).0 ≡ l
  unfolding log_entry
  log_entry_refused o e l old f n =
      ap (λ file. (log_to lib o e file l).0) f
      ∙ ap (λ text. (write_entry lib o old (stamped o e l) text l).0) n

  log_entry_stopped :
      (o : Outcome) (e : LogEntry) (l : Logger) (old line : String)
      → l.file ≡ some old
      → marshal (stamped o e l) ≡ some line
      → o.writing ≡ stopped ""
      → (log_entry lib o e l).0 ≡ l
  unfolding log_entry
  log_entry_stopped o e l old line f m none_left =
      ap (λ file. (log_to lib o e file l).0) f
      ∙ ap (λ text. (write_entry lib o old (stamped o e l) text l).0) m
      ∙ rw (none_left, join_empty old) (ap (λ file. record l { file = file }) (sym f))

  append_InStep :
      (s : LogEntry) (l : Logger) (lines : List String) (line : String)
      → is_text s ≡ true
      → (s.hmac == "") ≡ false
      → hex_decode s.hmac ≡ some (chain_digest lib l.hmac_key l.prev_hmac s)
      → All NoNewline lines
      → Chained lib l.hmac_key "" (parse_lines lib lines)
      → l.prev_hmac ≡ chain_end lib l.hmac_key "" (parse_lines lib lines)
      → marshal s ≡ some line
      → InStep lib (after_write lib s (append_line lib (written lines) line l))
  unfolding written
  append_InStep s l lines line u n d w c p m =
      let q =
        parse_lines-append lib lines (line ∷ [])
        ∙ ap (parse_lines lib lines ++◌) (parse_one s line u m) in
      let es = parse_lines lib lines in
      rw (n, d)
        (
          lines ++ line ∷ [],
          ap some (sym (written-append lines (line ∷ []))),
          All-append NoNewline lines _ w (laws.line_whole s line m, tt),
          rw q (
              Chained-append lib l.hmac_key "" es s c n
                (subst (λ z. hex_decode s.hmac ≡ some (chain_digest lib l.hmac_key z s)) p d)),
          ap (λ z. chain_digest lib l.hmac_key z s) p
              ∙ sym (chain_end-append lib l.hmac_key "" es s)
              ∙ ap (chain_end lib l.hmac_key "") (sym q),
        )

  -- A write is whole, or fails before its first byte.
  abbrev pub IsWhole : WriteOutcome → Type 0
  IsWhole wrote = Unit
  IsWhole (stopped left) = left ≡ ""

  -- A call whose write is whole or leaves nothing, of an entry whose texts are valid UTF-8.
  abbrev pub IsFair : Outcome × LogEntry → Type 0
  IsFair (o, e) = IsWhole o.writing × (is_text (with_timestamp lib o.clock e) ≡ true)

  writing_cases : (w : WriteOutcome) → IsWhole w → (w ≡ wrote) ⊎ (w ≡ stopped "")
  writing_cases wrote h = inl refl
  writing_cases (stopped left) h = inr (ap stopped h)

  -- `LogEntry` keeps the chain, also where it fails, and the key.
  log_entry-InStep :
      (o : Outcome) (e : LogEntry) (l : Logger)
      → IsFair (o, e)
      → (l.hmac_key == "") ≡ false
      → InStep lib l
      → InStep lib (log_entry lib o e l).0 × ((log_entry lib o e l).0.hmac_key ≡ l.hmac_key)
  log_entry-InStep o e l (whole, u) k (lines, f, w, c, p) =
      elim (Option-cases (marshal (stamped o e l))) [
        | inl n ↦ rw (log_entry_refused o e l _ f n) ((lines, f, w, c, p), refl)
        | inr (line, m) ↦ elim (writing_cases o.writing whole) [
          | inl ok ↦
              let (n, d) = with_hmac_signed l (with_timestamp lib o.clock e) k in
              let v : is_text (stamped o e l) ≡ true =
                rw k (laws.signed_text l.hmac_key l.prev_hmac (with_timestamp lib o.clock e) u) in
              rw (log_entry_written o e l _ line f m ok)
                (append_InStep (stamped o e l) l lines line v n d w c p m, refl)
          | inr left ↦ rw (log_entry_stopped o e l _ line f m left) ((lines, f, w, c, p), refl)
        ]
      ]

  pub scan_entries_written :
      (lines : List String)
      → All NoNewline lines
      → All Short (file_lines (written lines))
      → scan_entries lib (written lines) ≡ parse_lines lib lines
  unfolding parse_lines
  scan_entries_written lines w s =
      ap (parse_lines lib)
        (scanned_of_Short (file_lines (written lines)) s ∙ split_lines-written lines w)
      ∙ parse_lines-append lib lines ("" ∷ [])
      ∙ ap (parse_lines lib lines ++◌) (rw laws.trim_empty refl)
      ∙ append-nil (parse_lines lib lines)

  verify_InStep :
      (l : Logger) (file : String)
      → (l.hmac_key == "") ≡ false
      → InStep lib l
      → l.file ≡ some file
      → All Short (file_lines file)
      → verify_log lib (some file) l.hmac_key ≡ done (all_verified (length (scan_entries lib file)))
  unfolding verify_log
  verify_InStep l file k (lines, f, w, c, p) g s =
      let same : file ≡ written lines = ground (arith, f, g) in
      let es = scan_entries_written lines w (rw same at s) in
      let q =
        verify_entries-Chained lib laws.hex l.hmac_key 0 (parse_lines lib lines) ""
          (empty_result (length (parse_lines lib lines))) c in
      let n = length (parse_lines lib lines) in
      let z : 0 + n ≡ n = omega arith in rw (same, k, es, q, z) refl

  -- Whatever calls of `LogEntry` a logger with a key has run on a file that it found as a chain, with
  -- entries whose texts are valid UTF-8, also calls that failed, but for a write that left a part of
  -- its line: as long as every line fits the scanner's buffer, `VerifyLog` finds every entry of the
  -- file verified.
  pub verify-log_all :
      (calls : List (Outcome × LogEntry)) (l : Logger) (file : String)
      → All IsFair calls
      → (l.hmac_key == "") ≡ false
      → InStep lib l
      → (log_all lib calls l).file ≡ some file
      → All Short (file_lines file)
      → verify_log lib (some file) l.hmac_key ≡ done (all_verified (length (scan_entries lib file)))
  verify-log_all [] l file fair k i g s = verify_InStep l file k i g s
  verify-log_all ((o, e) ∷ rest) l file (f, fair) k i g s =
      let (j, q) = log_entry-InStep o e l f k i in
      subst
        (λ key.
          verify_log lib (some file) key ≡ done (all_verified (length (scan_entries lib file))))
        q (verify-log_all rest (log_entry lib o e l).0 file fair (rw q k) j g s)
