-- ===== src/Policy/Engine.antt =====
-- internal/policy/engine.go: the engine, the order of its rules, and their evaluation. The rate
-- limiter and the audit log are threaded through; a reading of the clock is taken for each rule.
pub mod Order
pub mod Decision
use open_pass.Base.{
  ℕ, zero, suc, ◌+◌, String, Bool, true, false, not, Option, none, some, List, [], ◌∷◌, ◌++◌, ◌==◌,
  ◌&&◌, ◌||◌, length, if◌then◌else◌,
}
use open_pass.Base.Assoc.{Assoc}
use open_pass.Base.Clock.{ℤ, ltz, is_positive}
use open_pass.Policy.{
  Action, deny, TimeRange, RateLimitCondition, Conditions, Rule, Policy, WallClock, Outcome,
  default_result,
}
use open_pass.Policy.TimeOfDay.{ClockParser, contains}
use open_pass.Policy.RateLimit.{FloatOps, Limiter, allow, set_limits, has_limits, reached}
use open_pass.Policy.Matching.{
  Paths, match_string, match_path, match_any_tag, match_env_vars, match_allowed_tool,
  normalize_pattern,
}

-- `compiledRule`
pub record CompiledRule : Type 0 where
  pub rule : Rule
  pub path_pattern : String
  pub work_dir_pattern : String

unfoldable pub compile : Paths → Rule → CompiledRule
compile lib r = record {
  rule = r;
  path_pattern = normalize_pattern lib r.conditions.path;
  work_dir_pattern = normalize_pattern lib r.conditions.working_dir;
}

-- the two loops that gather the rules
unfoldable pub compile_rules : Paths → List Rule → List CompiledRule
compile_rules lib [] = []
compile_rules lib (r ∷ rules) = compile lib r ∷ compile_rules lib rules

unfoldable pub compile_all : Paths → List Policy → List CompiledRule
compile_all lib [] = []
compile_all lib (p ∷ policies) = compile_rules lib p.rules ++ compile_all lib policies

-- The inner loop of the sort: `x` is `rules[i]`, and the list is what stands after it.
unfoldable pub select : CompiledRule → List CompiledRule → CompiledRule × List CompiledRule
select x [] = (x, [])
select x (y ∷ ys) =
    let swapped : CompiledRule × List CompiledRule =
      (let (m, rest) = select y ys in (m, x ∷ rest)) in
    let kept : CompiledRule × List CompiledRule = (let (m, rest) = select x ys in (m, y ∷ rest)) in
    if ltz x.rule.priority y.rule.priority then swapped else kept

-- The outer loop, by the number of its rounds.
unfoldable pub sort_rounds : ℕ → List CompiledRule → List CompiledRule
sort_rounds zero rules = rules
sort_rounds (suc n) [] = []
sort_rounds (suc n) (x ∷ xs) = let (m, rest) = select x xs in m ∷ sort_rounds n rest

unfoldable pub new_engine : Paths → List Policy → List CompiledRule
new_engine lib policies = let rules = compile_all lib policies in sort_rounds (length rules) rules

-- `EvalContext`, less the rate limiter and the log; `now` is nil where it is the zero time
pub record EvalContext : Type 0 where
  pub agent_id : String
  pub path : String
  pub tags : List String
  pub working_dir : String
  pub env_vars : Assoc String
  pub action_type : String
  pub tool_name : String
  pub now : Option WallClock
  pub secrets_accessed : ℕ
  pub audited : Bool

-- What a call of the log function is given; the reason names what happened.
pub data Reason : Type 0 where
  deny_rule rate_limit_exceeded max_secrets_exceeded no_matching_rule : Reason

pub record AuditEvent : Type 0 where
  pub rule_name : String
  pub reason : Reason

abbrev is_empty : List String → Bool
is_empty [] = true
is_empty (_ ∷ _) = false

abbrev no_vars : Assoc String → Bool
no_vars [] = true
no_vars (_ ∷ _) = false

-- The readings that the rate limiter makes for one rule.
pub record Readings : Type 0 where
  pub refill_now : ℕ
  pub window_now : ℕ
  pub allow_now : ℕ

module _ (lib : Paths) (clock : ClockParser) (fuel : ℕ) where
  abbrev time_matches : Option TimeRange → WallClock → Bool
  time_matches none t = true
  time_matches (some r) t = contains clock r t

  -- The tests of `matches` up to the rate limit; an unset condition passes.
  unfoldable pub static_match : CompiledRule → EvalContext → WallClock → Bool
  static_match cr ctx t =
      let c = cr.rule.conditions in
      (c.agent_id == "" || match_string c.agent_id ctx.agent_id)
      && ((c.path == "" || match_path lib fuel cr.path_pattern ctx.path)
          && ((is_empty c.tags || match_any_tag c.tags ctx.tags)
              && ((c.working_dir == "" || match_path lib fuel cr.work_dir_pattern ctx.working_dir)
                  && (time_matches c.time_of_day t
                      && ((no_vars c.env_vars || match_env_vars c.env_vars ctx.env_vars)
                          && ((c.action_type == "" || match_string c.action_type ctx.action_type)
                              && (is_empty c.allowed_tools
                                  || match_allowed_tool c.allowed_tools ctx.tool_name)))))))

  module _ (ops : FloatOps) where
    -- What an evaluation changes: the rate limiter, if there is one, and the log.
    pub record EvalState : Type 0 where
      pub limiter : Option (Limiter ops)
      pub log : List AuditEvent

    abbrev audit : EvalContext → String → Reason → EvalState → EvalState
    audit ctx name reason s =
        if ctx.audited
        then record s { log = s.log ++ record { rule_name = name; reason = reason } ∷ [] }
        else s

    abbrev with_limiter :
        Readings
        → EvalContext
        → String
        → RateLimitCondition
        → Option (Limiter ops)
        → EvalState
        → EvalState × Bool
    with_limiter at ctx name limit none s = (s, false)
    with_limiter at ctx name limit (some rl) s =
        let set =
          if has_limits ops ctx.agent_id rl
          then rl
          else set_limits ops at.refill_now at.window_now ctx.agent_id limit.max_reads_per_hour
              limit.max_reads_per_day rl in
        let (rl', allowed) = allow ops at.allow_now ctx.agent_id set in
        let s' : EvalState = record s { limiter = some rl' } in
        if allowed then (s', true) else (audit ctx name rate_limit_exceeded s', false)

    abbrev rate_matches :
        Readings → EvalContext → String → Option RateLimitCondition → EvalState → EvalState × Bool
    rate_matches at ctx name none s = (s, true)
    rate_matches at ctx name (some limit) s = with_limiter at ctx name limit s.limiter s

    abbrev secrets_match : EvalContext → Rule → EvalState × Bool → EvalState × Bool
    secrets_match ctx r (s, false) = (s, false)
    secrets_match ctx r (s, true) =
        if is_positive r.conditions.max_secrets
          && reached ctx.secrets_accessed r.conditions.max_secrets
        then (audit ctx r.name max_secrets_exceeded s, false)
        else (s, true)

    unfoldable pub matches :
        Readings → CompiledRule → EvalContext → WallClock → EvalState → EvalState × Bool
    matches at cr ctx t s =
        if static_match cr ctx t
        then secrets_match ctx cr.rule
            (rate_matches at ctx cr.rule.name cr.rule.conditions.rate_limit s)
        else (s, false)

    abbrev is_deny : Action → Bool
    is_deny Action.deny = true
    is_deny _ = false

    abbrev outcome_of : Rule → Outcome
    outcome_of r = record { action = r.action; rule_name = r.name; matched = true }

    -- the loop over the rules; `at` gives the readings for the rule at an index
    unfoldable pub evaluate_rules :
        (ℕ → Readings)
        → ℕ
        → List CompiledRule
        → EvalContext
        → WallClock
        → EvalState
        → EvalState × Outcome
    evaluate_rules at i [] ctx t s = (audit ctx "" no_matching_rule s, default_result)
    evaluate_rules at i (cr ∷ rules) ctx t s =
        let (s', found) = matches (at i) cr ctx t s in
        let rest = evaluate_rules at (i + 1) rules ctx t s' in
        if found
        then (if is_deny cr.rule.action
            then (audit ctx cr.rule.name deny_rule s', outcome_of cr.rule)
            else (s', outcome_of cr.rule))
        else rest

    -- `Evaluate`; `time_now` is what `time.Now` returns where the context has no time
    unfoldable pub evaluate :
        (ℕ → Readings)
        → WallClock
        → List CompiledRule
        → EvalContext
        → EvalState
        → EvalState × Outcome
    evaluate at time_now [] ctx s = (s, default_result)
    evaluate at time_now (cr ∷ rules) ctx s =
        evaluate_rules at 0 (cr ∷ rules) ctx (elim ctx.now [ none ↦ time_now | some t ↦ t ]) s
