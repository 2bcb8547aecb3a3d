-- ===== src/Authorize/Examples.antt =====
-- Runs of the authorization of calls on small inputs.
use open_pass.Base.{◌≡◌, refl, true, false, none, some, [], ◌∷◌, ◌==◌}
use open_pass.Base.Text.{strip_prefix, has_prefix}
use open_pass.GrantId.Examples.{sample_lib}
use open_pass.Policy.Engine.{
  CompiledRule, compile_all, new_engine, static_match, matches, evaluate_rules, evaluate,
  compile_rules, compile, select, sort_rounds,
}
use open_pass.Policy.Matching.{match_string, normalize_pattern}
use open_pass.Policy.TimeOfDay.{contains, parse_range}
use open_pass.Policy.Engine.Decision.{IsDecidedBy}
use open_pass.Policy.Examples.{sample_paths, sample_clock, sample_ops, sample_policy, half_past_one}
use open_pass.Authorize.{
  AgentProfile, Server, Surroundings, build_context, evaluate_policy, path_allows,
  normalize_scope_path, check_scope, check_policy, authorize,
}
use open_pass.Authorize.Scope.{InScope, MayWrite}
use open_pass.Authorize.Permission.{Permits, authorize_sound}

abbrev agent : AgentProfile
agent = record {
  name = "bot";
  approval_mode = some "prompt";
  require_approval = none;
  allowed_paths = "db" ∷ [];
  redact_fields = [];
  can_write = some true;
}

abbrev around : Surroundings
around = record {
  working_dir = "/work";
  git_branch = "main";
  home_dir = "/home/me";
  wall_clock = half_past_one;
  share_now = λ g. 7;
  expiry_now = 7;
}

abbrev unguarded : Server
unguarded = record {
  agent = some agent;
  policy_engine = none;
  share_store = none;
  audit_log = some [];
}

abbrev guarded : Server
guarded = record unguarded { policy_engine = some (new_engine sample_paths (sample_policy ∷ [])) }

authorize_sound_example :
    (("db/pass" == "") ≡ false)
    × ((c : CompiledRule) × IsDecidedBy sample_paths sample_clock 2
          (build_context around "bot" "db/pass" "read")
          half_past_one
          (compile_all sample_paths (sample_policy ∷ []))
          (evaluate_policy sample_lib
            (λ p. p)
            sample_paths
            sample_clock
            2
            sample_ops
            around
            agent
            "db/pass"
            "read"
            (new_engine sample_paths (sample_policy ∷ [])))
          c
        × Permits c.rule.action)
    × InScope sample_lib (λ p. p) around agent "db/pass" none
    × MayWrite agent false false
unfolding authorize check_policy check_scope evaluate_policy build_context path_allows
    normalize_scope_path has_prefix strip_prefix evaluate evaluate_rules matches static_match
    new_engine compile_all compile_rules compile select sort_rounds normalize_pattern match_string
    contains parse_range
authorize_sound_example =
    authorize_sound sample_lib (λ p. p) sample_paths sample_clock 2 sample_ops around "db/pass"
      false false guarded agent (sample_policy ∷ []) refl refl refl
