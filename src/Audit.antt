-- ===== src/Audit.antt =====
-- internal/audit/audit.go: the entries of the audit log, the chain of digests over them, and its
-- verification. The log file is the text of its bytes; JSON, HMAC and hex are parameters.
pub mod Logger
pub mod Chain
pub mod Acceptance
pub mod Writing
pub mod Limits
pub mod Tail
pub mod Sample
pub mod Examples
use open_pass.Base.{
  ℕ, suc, ◌+◌, String, Bool, true, false, ◌==◌, Option, none, some, List, [], ◌∷◌, if◌then◌else◌,
  leb, length,
}
use open_pass.Base.Clock.{ℤ, pos, negsuc}
use open_pass.Base.Text.{join, text_length, split_lines}

-- `LogEntry`
pub record LogEntry : Type 0 where
  pub timestamp : String
  pub agent : String
  pub action : String
  pub path : String
  pub field : String
  pub transport : String
  pub reason : String
  pub share_id : String
  pub from_agent : String
  pub to_agent : String
  pub share_action : String
  pub dur_ms : ℤ
  pub token_id : String
  pub request_id : String
  pub session_id : String
  pub hmac : String
  pub ok : Bool

-- `VerifyResult`
pub record VerifyResult : Type 0 where
  pub valid : Bool
  pub total : ℕ
  pub verified : ℕ
  pub legacy : ℕ
  pub tampered : ℕ
  pub first_bad_idx : ℤ

-- The library functions that the code calls.
pub record Library : Type 0 where
  pub marshal : LogEntry → Option String
  pub unmarshal : String → Option LogEntry
  pub trim_space : String → String
  pub hmac_sha256 : String → String → String
  pub hex_encode : String → String
  pub hex_decode : String → Option String

pub data AuditError : Type 0 where
  empty_key read_failed marshal_failed write_failed sync_failed not_initialized : AuditError

pub data Result {ℓ} (A : Type ℓ) : Type ℓ where
  done : A → Result A
  err : AuditError → Result A

-- bufio.MaxScanTokenSize
abbrev max_scan_token : ℕ
max_scan_token = 65536

-- The lines that the scanner gives: it stops at the first one that its buffer does not hold.
unfoldable pub scanned : List String → List String
scanned [] = []
scanned (line ∷ rest) = if leb max_scan_token (text_length line) then [] else line ∷ scanned rest

abbrev pub empty_result : ℕ → VerifyResult
empty_result total = record {
  valid = true;
  total = total;
  verified = 0;
  legacy = 0;
  tampered = 0;
  first_bad_idx = negsuc 0;
}

-- `if result.FirstBadIdx < 0 { result.FirstBadIdx = i }`
abbrev pub first_index : ℤ → ℕ → ℤ
first_index (pos j) i = pos j
first_index (negsuc j) i = pos i

abbrev pub count_legacy : VerifyResult → VerifyResult
count_legacy r = record r { legacy = suc r.legacy }

abbrev pub count_verified : VerifyResult → VerifyResult
count_verified r = record r { verified = suc r.verified }

abbrev pub count_tampered : ℕ → VerifyResult → VerifyResult
count_tampered i r = record r {
  tampered = suc r.tampered;
  valid = false;
  first_bad_idx = first_index r.first_bad_idx i;
}

module _ (lib : Library) where
  open lib use {marshal, unmarshal, trim_space, hmac_sha256, hex_encode, hex_decode}

  -- The entry of a line, unless the line is blank or does not parse.
  abbrev pub parse_line : String → Option LogEntry
  parse_line line = let text = trim_space line in if text == "" then none else unmarshal text

  abbrev cons_parsed : Option LogEntry → List LogEntry → List LogEntry
  cons_parsed none others = others
  cons_parsed (some e) others = e ∷ others

  unfoldable pub parse_lines : List String → List LogEntry
  parse_lines [] = []
  parse_lines (line ∷ rest) = cons_parsed (parse_line line) (parse_lines rest)

  abbrev text_of : Option String → String
  text_of none = ""
  text_of (some s) = s

  abbrev pub canonical_json : LogEntry → String
  canonical_json entry = text_of (marshal (record entry { hmac = "" }))

  -- the digest before its encoding: a nil previous digest is empty and adds nothing
  unfoldable pub chain_digest : String → String → LogEntry → String
  chain_digest key prev entry = hmac_sha256 key (join prev (canonical_json entry))

  unfoldable pub compute_hmac : String → String → LogEntry → String
  compute_hmac key prev entry = hex_encode (chain_digest key prev entry)

  -- hmac.Equal on the decoded digests, false where one does not decode
  abbrev same_digest : Option String → Option String → Bool
  same_digest none stored = false
  same_digest (some expected) none = false
  same_digest (some expected) (some stored) = expected == stored

  abbrev pub genuine : String → String → LogEntry → Bool
  genuine key prev entry =
      same_digest (hex_decode (compute_hmac key prev entry)) (hex_decode entry.hmac)

  -- The previous digest and the result after the i-th entry.
  unfoldable pub verify_entry :
      String → ℕ → LogEntry → String → VerifyResult → String × VerifyResult
  verify_entry key i entry prev r =
      if entry.hmac == ""
      then ("", count_legacy r)
      else if genuine key prev entry
      then (text_of (hex_decode entry.hmac), count_verified r)
      else (prev, count_tampered i r)

  unfoldable pub verify_entries :
      String → ℕ → List LogEntry → String → VerifyResult → String × VerifyResult
  verify_entries key i [] prev r = (prev, r)
  verify_entries key i (entry ∷ rest) prev r =
      let next = verify_entry key i entry prev r in verify_entries key (suc i) rest next.0 next.1

  -- the entries that `VerifyLog` reads from the file
  abbrev pub scan_entries : String → List LogEntry
  scan_entries file = let lines = split_lines file in parse_lines (scanned (lines.0 ∷ lines.1))

  abbrev pub verify_file : String → Option String → Result VerifyResult
  verify_file key none = err read_failed
  verify_file key (some file) =
      let entries = scan_entries file in
      done (verify_entries key 0 entries "" (empty_result (length entries))).1

  -- `file` is what os.ReadFile gives; an empty log is valid as it starts
  unfoldable pub verify_log : Option String → String → Result VerifyResult
  verify_log file key = if key == "" then err empty_key else verify_file key file
