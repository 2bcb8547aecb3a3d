-- ===== src/Token.antt =====
-- internal/mcp/token.go: scoped MCP tokens and their registry. A method that reads the clock takes
-- the reading as an argument; what one locked sweep reads is one instant. A save takes the outcome
-- of the file system's atomic write, and a failed write leaves the file as it was.
pub mod Registry
pub mod Rotation
use open_pass.Base.{
  ℕ, String, Bool, true, false, not, Option, none, some, List, ◌==◌, any, if◌then◌else◌,
}
use open_pass.Base.Clock.{passed}

-- `ScopedToken`, less its mutex
pub record ScopedToken : Type 0 where
  pub id : String
  pub label : String
  pub hash : String
  pub prefix : String
  pub allowed_tools : List String
  pub tool_registry_hash : String
  pub agent_name : String
  pub created_at : ℕ
  pub expires_at : Option ℕ
  pub last_used_at : Option ℕ
  pub revoked : Bool
  pub revoked_at : Option ℕ
  pub refresh_token_hash : String
  pub refresh_expires_at : Option ℕ

-- `TokenRegistryEntry`: a list of tools that is missing from the file is nil
pub record TokenRegistryEntry : Type 0 where
  pub id : String
  pub label : String
  pub hash : String
  pub prefix : String
  pub allowed_tools : Option (List String)
  pub tool_registry_hash : String
  pub agent_name : String
  pub created_at : ℕ
  pub expires_at : Option ℕ
  pub last_used_at : Option ℕ
  pub revoked : Bool
  pub revoked_at : Option ℕ
  pub refresh_token_hash : String
  pub refresh_expires_at : Option ℕ

-- The methods take a pointer, and `none` is a nil receiver.
pub is_expired : ℕ → Option ScopedToken → Bool
is_expired now none = true
is_expired now (some t) = passed now t.expires_at

pub is_refresh_expired : ℕ → Option ScopedToken → Bool
is_refresh_expired now none = true
is_refresh_expired now (some t) = passed now t.refresh_expires_at

pub is_tool_allowed : Option ScopedToken → String → Bool
is_tool_allowed none tool = false
is_tool_allowed (some t) tool =
    any (λ allowed. if allowed == "*" then true else allowed == tool) t.allowed_tools

-- `current` is what `ComputeToolRegistryHash` returns in the running binary
pub is_tool_registry_drift_detected : String → Option ScopedToken → Bool
is_tool_registry_drift_detected current none = false
is_tool_registry_drift_detected current (some t) =
    if t.tool_registry_hash == "" then false else not (t.tool_registry_hash == current)

pub update_last_used : ℕ → ScopedToken → ScopedToken
update_last_used now t = record t { last_used_at = some now }

pub to_entry : ScopedToken → TokenRegistryEntry
to_entry t = record {
  id = t.id;
  label = t.label;
  hash = t.hash;
  prefix = t.prefix;
  allowed_tools = some t.allowed_tools;
  tool_registry_hash = t.tool_registry_hash;
  agent_name = t.agent_name;
  created_at = t.created_at;
  expires_at = t.expires_at;
  last_used_at = t.last_used_at;
  revoked = t.revoked;
  revoked_at = t.revoked_at;
  refresh_token_hash = t.refresh_token_hash;
  refresh_expires_at = t.refresh_expires_at;
}

-- nil becomes the empty list
abbrev pub tools_or_empty : Option (List String) → List String
tools_or_empty none = List.[]
tools_or_empty (some tools) = tools

pub entry_to_scoped_token : TokenRegistryEntry → ScopedToken
entry_to_scoped_token e = record {
  id = e.id;
  label = e.label;
  hash = e.hash;
  prefix = e.prefix;
  allowed_tools = tools_or_empty e.allowed_tools;
  tool_registry_hash = e.tool_registry_hash;
  agent_name = e.agent_name;
  created_at = e.created_at;
  expires_at = e.expires_at;
  last_used_at = e.last_used_at;
  revoked = e.revoked;
  revoked_at = e.revoked_at;
  refresh_token_hash = e.refresh_token_hash;
  refresh_expires_at = e.refresh_expires_at;
}
