-- ===== src/Approval.antt =====
-- internal/mcp/approval.go, internal/mcp/approval_helper.go and the approval cache of
-- internal/mcp/server.go: whether a sensitive operation is approved, by the mode of the agent, by what
-- was remembered in this session, or by the answer of the user at the terminal. The prompt's layout
-- and the project context that it shows are left out. `lower_trim` is ToLower of TrimSpace, and
-- `native` is Clean of TrimSpace of FromSlash.
pub mod Request
pub mod Terminal
pub mod Laws
pub mod Remembering
pub mod Examples
unfoldable pub use Request.*
use Prim.Native.String
use open_pass.Base.{
  ℕ, suc, String, Bool, true, false, not, ◌==◌, ◌&&◌, ◌||◌, Option, none, some, List, [], ◌∷◌, ◌++◌,
  if◌then◌else◌, ltb, eqb,
}
use open_pass.Base.Assoc.{Assoc, lookup, insert}
use open_pass.Base.Clock.{ℤ, pos, is_positive}
use open_pass.Base.Text.{join, contains_text}
use open_pass.Authorize.{
  AgentProfile, Server, log_audit, normalize_scope_path, text_or_empty, is_set,
}

unfoldable pub approval_cache_key : (native : String → String) → (agent tool path : String) → String
approval_cache_key native agent tool path =
    let key = if contains_text path "://" then path else normalize_scope_path native path in
    join agent (join ":" (join tool (join ":" key)))

-- `Server`, with what these functions use of it besides the authorization, and the time limit of the
-- agent's profile
pub record ApprovalServer : Type 0 where
  pub server : Server
  pub approval_timeout : Option ℤ
  pub approval_cache : Option (Assoc Bool)
  pub key_counter : ℕ

-- `Intent`
pub record Intent : Type 0 where
  pub action : String
  pub entry_path : String

abbrev pub or_false : Option Bool → Bool
or_false none = false
or_false (some b) = b

abbrev pub is_remembered : String → Option (Assoc Bool) → Bool
is_remembered key none = false
is_remembered key (some cache) = or_false (lookup key cache)

abbrev pub set_remembered : String → Option (Assoc Bool) → Option (Assoc Bool)
set_remembered key none = none
set_remembered key (some cache) = some (insert key true cache)

abbrev pub emptied : Option (Assoc Bool) → Option (Assoc Bool)
emptied none = none
emptied (some cache) = some []

unfoldable pub invalidate_approval_cache : ApprovalServer → ApprovalServer
invalidate_approval_cache s = record s { approval_cache = emptied s.approval_cache }

unfoldable pub approval_mode : AgentProfile → String
approval_mode a =
    let mode = text_or_empty a.approval_mode in
    if mode == "" then (if is_set a.require_approval then "prompt" else "none") else mode

abbrev pub is_there {ℓ} : {A : Type ℓ} → Option A → Bool
is_there none = false
is_there (some a) = true

abbrev pub or_none : Option ℤ → ℤ
or_none none = pos 0
or_none (some t) = t

abbrev pub timeout_of : ApprovalServer → ℤ
timeout_of s = or_default (or_none s.approval_timeout)

module _ (lower_trim native : String → String) (risk_of : String → RiskLevel) (tty : Tty)
    (intent : Intent) where
  abbrev pub log : AgentProfile → String → Bool → ApprovalServer → ApprovalServer
  log a what ok s = record s {
    server = log_audit a (join "approval." (join intent.action what)) intent.entry_path ok s.server;
  }

  abbrev pub key_for : AgentProfile → String
  key_for a = approval_cache_key native a.name intent.action intent.entry_path

  abbrev pub risk : RiskLevel
  risk = risk_of intent.action

  abbrev pub remember : AgentProfile → ApprovalServer → ApprovalServer
  remember a s =
      log a ".remembered" true
        (record s { approval_cache = set_remembered (key_for a) s.approval_cache })

  -- what the answer is remembered by
  abbrev pub after_answer : AgentProfile → Bool → ApprovalServer → ApprovalServer
  after_answer a remembered s =
      if (remembered && can_remember risk) && is_there s.approval_cache then remember a s else s

  abbrev pub granted : AgentProfile → ApprovalServer → ApprovalServer × Option ApprovalError
  granted a s = (log a ".granted" true (record s { key_counter = suc s.key_counter }), none)

  -- the end of `requireApproval`, on the result of the request
  abbrev pub after_result :
      AgentProfile
      → ApprovalServer
      → ApprovalResult
      → Option ApprovalError
      → ApprovalServer × Option ApprovalError
  after_result a s r (some e) = (s, some e)
  after_result a s r none =
      if not r.approved
      then (log a ".denied" false s, some not_approved)
      else granted a (after_answer a r.remembered s)

  -- asking the user
  abbrev pub ask :
      AgentProfile → ApprovalServer → List TtyEvent × ApprovalServer × Option ApprovalError
  ask a s =
      let (events, r) = request_approval lower_trim tty (timeout_of s) (can_remember risk) in
      let (s', error) = after_result a (log a ".requested" true s) r r.error in (events, s', error)

  -- behind the test that opens and closes the terminal
  abbrev pub after_test :
      List TtyEvent × ApprovalServer × Option ApprovalError
      → List TtyEvent × ApprovalServer × Option ApprovalError
  after_test (events, s', error) = (opened ∷ closed ∷ events, s', error)

  -- whether the terminal is there, and whether the approval was remembered
  abbrev pub prompt_by :
      (present known : Bool)
      → AgentProfile
      → ApprovalServer
      → List TtyEvent × ApprovalServer × Option ApprovalError
  prompt_by false known a s = ([], log a ".denied" false s, some no_tty)
  prompt_by true true a s = (opened ∷ closed ∷ [], log a ".remembered" true s, none)
  prompt_by true false a s = after_test (ask a s)

  unfoldable pub prompt_approval :
      AgentProfile → ApprovalServer → List TtyEvent × ApprovalServer × Option ApprovalError
  prompt_approval a s =
      prompt_by tty.is_present (can_remember risk && is_remembered (key_for a) s.approval_cache) a s

  abbrev pub by_agent :
      ApprovalServer → Option AgentProfile → List TtyEvent × ApprovalServer × Option ApprovalError
  by_agent s none = ([], s, some not_initialized)
  by_agent s (some a) =
      let mode = approval_mode a in
      if mode == "none" || mode == "auto"
      then ([], s, none)
      else if mode == "deny"
      then ([], log a ".denied" false s, some denied_by_mode)
      else if mode == "prompt"
      then prompt_approval a s
      else ([], s, none)

  unfoldable pub require_approval :
      ApprovalServer → List TtyEvent × ApprovalServer × Option ApprovalError
  require_approval s = by_agent s s.server.agent
