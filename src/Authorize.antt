-- ===== src/Authorize.antt =====
-- internal/mcp/server_authorize.go: whether a call of the MCP server may use a path, by the policy
-- engine, the scope of the agent with its share grants, and the modes of writing and approval; and
-- `BuildContext` of internal/policy/context.go. Metrics are left out; texts such as the working
-- directory are inputs. The path separator is "/".
pub mod Types
pub mod Scope
pub mod Permission
pub mod Examples
unfoldable pub use Types.*
use Prim.Native.String
use open_pass.Base.{
  ℕ, String, Bool, true, false, not, Option, none, some, List, [], ◌∷◌, ◌++◌, ◌==◌, ◌&&◌, ◌||◌, any,
  if◌then◌else◌,
}
use open_pass.Base.Clock.{passed}
use open_pass.Base.Text.{has_prefix, has_suffix, trim_suffix}
use open_pass.GrantId.{Primitives}
use open_pass.Share.{ShareGrant, ShareStore, check_access}
use open_pass.Policy.{Action, WallClock, Outcome}
use open_pass.Policy.TimeOfDay.{ClockParser}
use open_pass.Policy.RateLimit.{FloatOps}
use open_pass.Policy.Matching.{Paths}
use open_pass.Policy.Engine.{CompiledRule, EvalContext, EvalState, Readings, evaluate}

abbrev pub add_entry : Option (List LogEntry) → LogEntry → Option (List LogEntry)
add_entry none e = none
add_entry (some entries) e = some (entries ++ e ∷ [])

unfoldable pub log_audit : AgentProfile → String → String → Bool → Server → Server
log_audit a action path ok s = record s {
  audit_log = add_entry s.audit_log (record {
    agent = a.name;
    action = action;
    path = path;
    ok = ok;
    reason = if ok then "" else action;
    share_id = "";
  });
}

pub log_audit_share : AgentProfile → String → String → ShareGrant → Bool → Server → Server
log_audit_share a action path g ok s = record s {
  audit_log = add_entry s.audit_log (record {
    agent = a.name;
    action = action;
    path = path;
    ok = ok;
    reason = "";
    share_id = g.id;
  });
}

-- `BuildContext` with nil tags: it sets no tool, no count of secrets, no rate limiter and no log.
pub build_context : Surroundings → String → String → String → EvalContext
build_context e agent path action_type = record {
  agent_id = agent;
  path = path;
  tags = [];
  working_dir = e.working_dir;
  env_vars = ("GIT_BRANCH", e.git_branch) ∷ ("HOME", e.home_dir) ∷ [];
  action_type = action_type;
  tool_name = "";
  now = some e.wall_clock;
  secrets_accessed = 0;
  audited = false;
}

abbrev action_type_of : Bool → String
action_type_of write = if write then "write" else "read"

abbrev pub is_set : Option Bool → Bool
is_set none = false
is_set (some b) = b

pub can_write : AgentProfile → Bool
can_write a = is_set a.can_write

abbrev mode_requires : String → Bool
mode_requires mode =
    if mode == "none" then false else if mode == "deny" then true else mode == "prompt"

abbrev pub text_or_empty : Option String → String
text_or_empty none = ""
text_or_empty (some text) = text

pub requires_approval : AgentProfile → Bool
requires_approval a =
    let mode = text_or_empty a.approval_mode in
    if mode == ""
    then (if is_set a.require_approval then mode_requires "prompt" else false)
    else mode_requires mode

abbrev redacts : String → String → Bool
redacts field pattern =
    if pattern == field || pattern == "*"
    then true
    else has_suffix pattern ".*" && has_prefix field (String.◌++◌ (trim_suffix pattern ".*") ".")

pub should_redact_field : AgentProfile → String → Bool
should_redact_field a field = any (redacts field) a.redact_fields

-- `normalizeScopePath`, where `native` is Clean of TrimSpace of FromSlash
pub normalize_scope_path : (String → String) → String → String
normalize_scope_path native path =
    let cleaned = native path in if cleaned == "." then "" else cleaned

-- one round of the loop of `checkScope`
pub path_allows : (String → String) → String → String → Bool
path_allows native path allowed =
    let normalized = normalize_scope_path native path in
    let base = normalize_scope_path native allowed in
    allowed == "*" || (normalized == base || has_prefix normalized (String.◌++◌ base "/"))

module _ (lib : Primitives) (native : String → String) where
  abbrev found_share :
      Surroundings → AgentProfile → String → Option ShareGrant → Server → Server × Option ShareGrant
  found_share e a path none s = (s, none)
  found_share e a path (some g) s =
      if passed e.expiry_now g.expires_at
      then (log_audit_share a "share_expired" path g false s, none)
      else (s, some g)

  abbrev access_of : Surroundings → AgentProfile → String → Option ShareStore → Option ShareGrant
  access_of e a path none = none
  access_of e a path (some store) = check_access lib e.share_now a.name path store

  pub check_share_access :
      Surroundings → AgentProfile → String → Server → Server × Option ShareGrant
  check_share_access e a path s = found_share e a path (access_of e a path s.share_store) s

  abbrev share_allows : AgentProfile → String → Server × Option ShareGrant → Server × Bool
  share_allows a path (s, none) = (s, false)
  share_allows a path (s, some g) = (log_audit_share a "share_grant" path g true s, true)

  abbrev has_paths : List String → Bool
  has_paths [] = false
  has_paths (_ ∷ _) = true

  -- `checkScope`
  pub check_scope : Surroundings → AgentProfile → String → Server → Server × Bool
  check_scope e a path s =
      if has_paths a.allowed_paths
      then (if any (path_allows native path) a.allowed_paths
          then (s, true)
          else share_allows a path (check_share_access e a path s))
      else (s, false)

module _ (lib : Primitives) (native : String → String) (paths : Paths) (clock : ClockParser)
    (fuel : ℕ) (ops : FloatOps) where
  abbrev no_limits : EvalState paths clock fuel ops
  no_limits = record { limiter = none; log = [] }

  abbrev no_readings : ℕ → Readings
  no_readings i = record { refill_now = 0; window_now = 0; allow_now = 0 }

  abbrev action_verdict : Action → String → Option (String × AuthError)
  action_verdict Action.allow rule = none
  action_verdict Action.deny rule = some ("policy_denied", policy_denied rule)
  action_verdict Action.prompt rule = some ("policy_prompt", policy_prompt rule)
  action_verdict Action.require_biometry rule = some ("policy_biometry", policy_biometry rule)
  action_verdict (Action.other text) rule = none

  -- what `checkPolicy` makes of the engine's verdict: the action that it logs, and the error
  abbrev verdict : Outcome → Option (String × AuthError)
  verdict o =
      if o.matched
      then action_verdict o.action o.rule_name
      else some ("policy_denied", no_matching_rule)

  pub evaluate_policy : Surroundings → AgentProfile → String → String → List CompiledRule → Outcome
  evaluate_policy e a path action_type rules =
      (evaluate paths clock fuel ops no_readings e.wall_clock rules
        (build_context e a.name path action_type) no_limits).1

  abbrev refusal :
      Surroundings
      → AgentProfile
      → String
      → String
      → Option (List CompiledRule)
      → Option (String × AuthError)
  refusal e a path action_type none = none
  refusal e a path action_type (some rules) = verdict (evaluate_policy e a path action_type rules)

  abbrev refuse :
      AgentProfile → String → Option (String × AuthError) → Server → Server × Option AuthError
  refuse a path none s = (s, none)
  refuse a path (some (action, error)) s = (log_audit a action path false s, some error)

  pub check_policy :
      Surroundings → AgentProfile → String → String → Server → Server × Option AuthError
  check_policy e a path action_type s =
      refuse a path (refusal e a path action_type s.policy_engine) s

  abbrev after_scope :
      AgentProfile → String → Bool → Bool → String → Server × Bool → Server × Option AuthError
  after_scope a path write approved action_type (s, false) =
      (log_audit a "scope_denied" path false s, some outside_scope)
  after_scope a path write approved action_type (s, true) =
      if write && not (can_write a)
      then (log_audit a "write_denied" path false s, some AuthError.cannot_write)
      else if (write && requires_approval a) && not approved
      then (log_audit a "approval_required" path false s, some approval_required)
      else (log_audit a action_type path approved s, none)

  abbrev after_policy :
      Surroundings
      → AgentProfile
      → String
      → Bool
      → Bool
      → String
      → Server × Option AuthError
      → Server × Option AuthError
  after_policy e a path write approved action_type (s, some error) = (s, some error)
  after_policy e a path write approved action_type (s, none) =
      after_scope a path write approved action_type (check_scope lib native e a path s)

  abbrev authorize_agent :
      Surroundings → String → Bool → Bool → Option AgentProfile → Server → Server × Option AuthError
  authorize_agent e path write approved none s = (s, some not_initialized)
  authorize_agent e path write approved (some a) s =
      if path == ""
      then (s, some empty_path)
      else after_policy e a path write approved (action_type_of write)
          (check_policy e a path (action_type_of write) s)

  -- `authorize`; no error is none
  pub authorize : Surroundings → String → Bool → Bool → Server → Server × Option AuthError
  authorize e path write approved s = authorize_agent e path write approved s.agent s
