-- ===== src/Audit/Logger.antt =====
-- internal/audit/audit.go: the logger, which appends entries to the chain. A nil file is none; a nil
-- digest or key is empty.
use open_pass.Base.{String, Bool, ◌==◌, Option, none, some, List, [], ◌∷◌, if◌then◌else◌}
use open_pass.Base.Text.{join}
use open_pass.Audit.{
  LogEntry, Library, AuditError, marshal_failed, write_failed, sync_failed, compute_hmac,
}

-- `Logger`, with the text of its file
pub record Logger : Type 0 where
  pub file : Option String
  pub hmac_key : String
  pub prev_hmac : String

-- What a write does: it may fail and leave a part of the line behind the file.
pub data WriteOutcome : Type 0 where
  wrote : WriteOutcome
  stopped : (left : String) → WriteOutcome

-- What a call meets: the text of the clock, what the write does, and whether the sync succeeds.
pub record Outcome : Type 0 where
  pub clock : String
  pub writing : WriteOutcome
  pub sync_ok : Bool

module _ (lib : Library) where
  open lib use {marshal, hex_decode}

  abbrev pub with_timestamp : String → LogEntry → LogEntry
  with_timestamp clock e = if e.timestamp == "" then record e { timestamp = clock } else e

  abbrev pub with_hmac : Logger → LogEntry → LogEntry
  with_hmac l e =
      if l.hmac_key == "" then e else record e { hmac = compute_hmac lib l.hmac_key l.prev_hmac e }

  abbrev pub next_hmac : String → Option String → String
  next_hmac prev none = prev
  next_hmac prev (some bytes) = bytes

  -- the part behind the write; the digest stays where the entry has none
  abbrev pub after_write : LogEntry → Logger → Logger
  after_write e l = record l {
    prev_hmac = if e.hmac == "" then l.prev_hmac else next_hmac l.prev_hmac (hex_decode e.hmac);
  }

  abbrev pub append_line : String → String → Logger → Logger
  append_line old line l = record l { file = some (join old (join line "\n")) }

  abbrev pub write_line :
      (sync_ok : Bool)
      → (old line : String) → LogEntry
      → Logger
      → WriteOutcome
      → Logger × Option AuditError
  write_line sync_ok old line e l wrote =
      (after_write e (append_line old line l), if sync_ok then none else some sync_failed)
  write_line sync_ok old line e l (stopped left) =
      (record l { file = some (join old left) }, some write_failed)

  abbrev pub write_entry :
      Outcome → String → LogEntry → Option String → Logger → Logger × Option AuditError
  write_entry o old e none l = (l, some marshal_failed)
  write_entry o old e (some line) l = write_line o.sync_ok old line e l o.writing

  abbrev pub log_to : Outcome → LogEntry → Option String → Logger → Logger × Option AuditError
  log_to o e none l = (l, none)
  log_to o e (some old) l =
      let stamped = with_hmac l (with_timestamp o.clock e) in
      write_entry o old stamped (marshal stamped) l

  unfoldable pub log_entry : Outcome → LogEntry → Logger → Logger × Option AuditError
  log_entry o e l = log_to o e l.file l

  -- a sequence of calls, each with what it meets
  abbrev pub log_all : List (Outcome × LogEntry) → Logger → Logger
  log_all [] l = l
  log_all ((o, e) ∷ rest) l = log_all rest (log_entry o e l).0
