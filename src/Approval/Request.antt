-- ===== src/Approval/Request.antt =====
-- internal/mcp/approval.go: the request for the approval of the user at the terminal.

use open_pass.Base.{
  ℕ, String, Bool, false, not, ◌==◌, ◌&&◌, ◌||◌, Option, none, some, List, [], ◌∷◌, ◌++◌,
  if◌then◌else◌, ltb, eqb,
}
use open_pass.Base.Clock.{ℤ, pos, is_positive}

-- `RiskLevel`: 0 is low, 1 medium, 2 high and 3 critical; negative levels do not occur
abbrev pub RiskLevel : Type 0
RiskLevel = ℕ

unfoldable pub can_remember : RiskLevel → Bool
can_remember risk = ltb risk 3

unfoldable pub risk_label : RiskLevel → String
risk_label risk =
    if eqb risk 0
    then "LOW"
    else if eqb risk 1
    then "MEDIUM"
    else if eqb risk 2
    then "HIGH"
    else if eqb risk 3
    then "CRITICAL"
    else "UNKNOWN"

-- What reading the answer gives.
pub data Reading : Type 0 where
  answered : (text : String) → Reading
  timed_out read_failed : Reading

-- What a call meets at the terminal: whether it opens for the test and for the prompt, whether the raw
-- mode, the writing of the prompt, the return from the raw mode and the closing succeed, and the
-- answer within a time limit. The code ignores the errors of the last two.
pub record Tty : Type 0 where
  pub is_present : Bool
  pub opens : Bool
  pub raw_ok : Bool
  pub prompt_ok : Bool
  pub restore_ok : Bool
  pub close_ok : Bool
  pub reading : (timeout : ℤ) → Reading

-- A call on the terminal that was made; `restored` and `closed` may have failed.
pub data TtyEvent : Type 0 where
  opened raw_set prompted restored closed : TtyEvent
  shown : (approved : Bool) → TtyEvent

pub data ApprovalError : Type 0 where
  no_tty raw_mode_failed write_failed approval_timed_out reading_failed : ApprovalError
  not_initialized denied_by_mode not_approved : ApprovalError

-- `ApprovalResult`
pub record ApprovalResult : Type 0 where
  pub error : Option ApprovalError
  pub approved : Bool
  pub remembered : Bool

abbrev pub default_timeout : ℤ
default_timeout = pos 30000000000

abbrev pub or_default : ℤ → ℤ
or_default timeout = if is_positive timeout then timeout else default_timeout

abbrev failed : ApprovalError → ApprovalResult
failed e = record { error = some e; approved = false; remembered = false }

module _ (lower_trim : String → String) where
  unfoldable pub parse_approval_response : String → Bool
  parse_approval_response response =
      let lower = lower_trim response in
      lower == "y" || lower == "yes" || lower == "r" || lower == "remember"

  unfoldable pub parse_remember_response : String → Bool
  parse_remember_response response =
      let lower = lower_trim response in lower == "r" || lower == "remember"

  -- the end of `RequestApproval`, on the answer
  unfoldable pub answer_result : (can_remember : Bool) → Reading → List TtyEvent × ApprovalResult
  answer_result can timed_out = (restored ∷ closed ∷ [], failed approval_timed_out)
  answer_result can read_failed = (restored ∷ closed ∷ [], failed reading_failed)
  answer_result can (answered text) =
      let remember = can && parse_remember_response text in
      let approve = parse_approval_response text || remember in
      (
        restored ∷ shown approve ∷ closed ∷ [],
        record { error = none; approved = approve; remembered = remember },
      )

  abbrev after : List TtyEvent → List TtyEvent × ApprovalResult → List TtyEvent × ApprovalResult
  after events (later, r) = (events ++ later, r)

  unfoldable pub request_approval :
      Tty → (timeout : ℤ) → (can : Bool) → List TtyEvent × ApprovalResult
  request_approval tty timeout can =
      if not tty.opens
      then ([], failed no_tty)
      else if not tty.raw_ok
      then (opened ∷ closed ∷ [], failed raw_mode_failed)
      else if not tty.prompt_ok
      then (opened ∷ raw_set ∷ restored ∷ closed ∷ [], failed write_failed)
      else after (opened ∷ raw_set ∷ prompted ∷ [])
          (answer_result can (tty.reading (or_default timeout)))
