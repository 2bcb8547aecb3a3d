-- ===== src/Quotas.antt =====
-- internal/quotas/counter.go: the counters of calls by tool, in a file under a lock. JSON is a
-- parameter, and each call takes what it meets at the operating system.
pub mod Laws
pub mod Examples
use open_pass.Base.{
  ℕ, zero, suc, ◌-◌, ◌^◌, eqb, String, Bool, true, false, not, ◌==◌, Option, none, some, List, [],
  ◌∷◌, if◌then◌else◌,
}
use open_pass.Base.Assoc.{Assoc, lookup, insert}
use open_pass.Base.Clock.{ℤ, pos, negsuc, is_positive, ltz}

-- encoding/json on `quotaData`: a text that parses may leave the map nil
pub record Json : Type 0 where
  pub marshal : Assoc ℤ → Option String
  pub unmarshal : String → Option (Option (Assoc ℤ))

-- `QuotaCounter`, with the text of its file; a closed counter has none
pub record QuotaCounter : Type 0 where
  pub file : Option String

-- What a write does: it may fail and leave a part of the text.
pub data WriteOutcome : Type 0 where
  wrote : WriteOutcome
  stopped : (left : String) → WriteOutcome

-- What a call meets: whether the lock, the reading, the truncation, the seek and the sync succeed.
pub record Faults : Type 0 where
  pub lock_ok : Bool
  pub read_ok : Bool
  pub truncate_ok : Bool
  pub seek_ok : Bool
  pub writing : WriteOutcome
  pub sync_ok : Bool

-- the file after the write, and whether the sync was reached and succeeded
abbrev pub finish_write : WriteOutcome → Bool → String → String × Bool
finish_write wrote synced text = (text, synced)
finish_write (stopped left) synced text = (left, false)

-- the file after the truncation, and whether the whole write succeeded
abbrev write_text : Faults → String → String × Bool
write_text o text = if o.seek_ok then finish_write o.writing o.sync_ok text else ("", false)

abbrev pub write_raw : Faults → String → Option String → String × Bool
write_raw o old none = (old, false)
write_raw o old (some text) = if o.truncate_ok then write_text o text else (old, false)

-- the greatest int
abbrev pub max_int : ℕ
max_int = 2 ^ 63 - 1

-- m[k]++, with 0 for a missing key; it wraps around
unfoldable pub succ : ℤ → ℤ
succ (pos n) = if eqb n max_int then negsuc max_int else pos (suc n)
succ (negsuc zero) = pos 0
succ (negsuc (suc n)) = negsuc n

abbrev pub or_zero : Option ℤ → ℤ
or_zero none = pos 0
or_zero (some n) = n

module _ (json : Json) where
  open json use {marshal, unmarshal}

  -- `write`
  abbrev pub write : Faults → String → Assoc ℤ → String × Bool
  write o old counters = write_raw o old (marshal counters)

  abbrev pub counters_of : Option (Option (Assoc ℤ)) → Option (Assoc ℤ)
  counters_of none = none
  counters_of (some none) = some []
  counters_of (some (some m)) = some m

  -- `read`: an empty file, and a nil map, have no counters
  unfoldable pub read_text : String → Option (Assoc ℤ)
  read_text text = if text == "" then some [] else counters_of (unmarshal text)

  abbrev pub read : Faults → String → Option (Assoc ℤ)
  read o text = if o.read_ok then read_text text else none

  abbrev store_count : ℤ → String × Bool → QuotaCounter × Option ℤ
  store_count n (text, ok) = (record { file = some text }, if ok then some n else none)

  abbrev increment_read : Faults → String → String → Option (Assoc ℤ) → QuotaCounter × Option ℤ
  increment_read o tool old none = (record { file = some old }, none)
  increment_read o tool old (some m) =
      let n = succ (or_zero (lookup tool m)) in store_count n (write o old (insert tool n m))

  abbrev increment_open : Faults → String → Option String → QuotaCounter × Option ℤ
  increment_open o tool none = (record { file = none }, none)
  increment_open o tool (some old) =
      if o.lock_ok
      then increment_read o tool old (read o old)
      else (record { file = some old }, none)

  -- `Increment`: the new count, and none for an error
  unfoldable pub increment : Faults → String → QuotaCounter → QuotaCounter × Option ℤ
  increment o tool qc = increment_open o tool qc.file

  abbrev check_count : String → ℤ → Option (Assoc ℤ) → Bool × ℤ
  check_count tool limit none = (false, pos 0)
  check_count tool limit (some m) = let n = or_zero (lookup tool m) in (ltz n limit, n)

  abbrev check_open : Faults → String → ℤ → Option String → Bool × ℤ
  check_open o tool limit none = (false, pos 0)
  check_open o tool limit (some text) =
      if o.lock_ok then check_count tool limit (read o text) else (false, pos 0)

  -- `Check`: whether the count is below the limit, and the count
  unfoldable pub check : Faults → String → ℤ → QuotaCounter → Bool × ℤ
  check o tool limit qc =
      if not (is_positive limit) then (false, pos 0) else check_open o tool limit qc.file

  abbrev reset_open : Faults → Option String → QuotaCounter
  reset_open o none = record { file = none }
  reset_open o (some old) = record { file = some (if o.lock_ok then (write o old []).0 else old) }

  unfoldable pub reset : Faults → QuotaCounter → QuotaCounter
  reset o qc = reset_open o qc.file

  abbrev pub close : QuotaCounter → QuotaCounter
  close qc = record { file = none }
