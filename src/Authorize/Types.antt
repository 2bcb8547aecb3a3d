-- ===== src/Authorize/Types.antt =====
-- internal/mcp/server.go, internal/config/config.go and internal/audit/audit.go: what the authorization
-- reads of the server, of an agent's profile and of a call's surroundings, and the entries it logs.
use open_pass.Base.{ℕ, String, Bool, Option, List}
use open_pass.Share.{ShareGrant, ShareStore}
use open_pass.Policy.{WallClock}
use open_pass.Policy.Engine.{CompiledRule}

-- `AgentProfile`, as far as these functions read it
pub record AgentProfile : Type 0 where
  pub name : String
  pub approval_mode : Option String
  pub require_approval : Option Bool
  pub allowed_paths : List String
  pub redact_fields : List String
  pub can_write : Option Bool

-- An entry of the audit log, as far as these functions write it; the share is empty but for grants.
pub record LogEntry : Type 0 where
  pub agent : String
  pub action : String
  pub path : String
  pub ok : Bool
  pub reason : String
  pub share_id : String

-- `Server`, as far as these functions use it; a nil pointer is none
pub record Server : Type 0 where
  pub agent : Option AgentProfile
  pub policy_engine : Option (List CompiledRule)
  pub share_store : Option ShareStore
  pub audit_log : Option (List LogEntry)

pub data AuthError : Type 0 where
  not_initialized empty_path no_matching_rule outside_scope cannot_write approval_required :
      AuthError
  policy_denied policy_prompt policy_biometry : (rule : String) → AuthError

-- What a call reads from its surroundings: the context of the policy, the clock in `CheckAccess` at each grant, and
-- the clock in the test after it.
pub record Surroundings : Type 0 where
  pub working_dir : String
  pub git_branch : String
  pub home_dir : String
  pub wall_clock : WallClock
  pub share_now : ShareGrant → ℕ
  pub expiry_now : ℕ
