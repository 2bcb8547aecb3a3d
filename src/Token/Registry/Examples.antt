-- ===== src/Token/Registry/Examples.antt =====
-- Runs of the registry of tokens on small inputs; a text stands for its own hash.
use open_pass.Base.{String, true, false, Option, none, some, [], ◌∷◌}
use open_pass.Base.Clock.{pos}
use open_pass.Token.{ScopedToken}
use open_pass.Token.Registry.{missing, TokenRegistry, CreateInput, create}

abbrev sample : ScopedToken
sample = record {
  id = "id1";
  label = "ci";
  hash = "aaaa";
  prefix = "aaaa";
  allowed_tools = "list" ∷ [];
  tool_registry_hash = "";
  agent_name = "bot";
  created_at = 1;
  expires_at = some 10;
  last_used_at = none;
  revoked = false;
  revoked_at = none;
  refresh_token_hash = "";
  refresh_expires_at = none;
}

abbrev lasting : ScopedToken
lasting = record sample { id = "id2"; hash = "bbbb"; expires_at = none }

abbrev two : TokenRegistry
two = record { entries = ("aaaa", sample) ∷ ("bbbb", lasting) ∷ []; file = missing }

abbrev creation : CreateInput
creation = record {
  raw = some "cccc";
  id = "id3";
  tool_registry_hash = "h";
  ttl_now = 20;
  created_now = 21;
  written = true;
}

abbrev made : ScopedToken
made = record {
  id = "id3";
  label = "new";
  hash = "cccc";
  prefix = "cccc";
  allowed_tools = "get" ∷ [];
  tool_registry_hash = "h";
  agent_name = "bot";
  created_at = 21;
  expires_at = some 50;
  last_used_at = none;
  revoked = false;
  revoked_at = none;
  refresh_token_hash = "";
  refresh_expires_at = none;
}

abbrev created : TokenRegistry
created = (create (λ s. s) creation "new" (some ("get" ∷ [])) "bot" (pos 30) two).0

abbrev failing : CreateInput
failing = record creation { written = false }

abbrev raw_or : Option String → String
raw_or none = ""
raw_or (some raw) = raw

abbrev after_failure : TokenRegistry
after_failure = (create (λ s. s) failing "new" none "bot" (pos 30) two).0
