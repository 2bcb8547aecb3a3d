-- ===== src/Authorize/Permission.antt =====
-- What a call that `authorize` lets through satisfies, and what the audit log says of it.
use open_pass.Base.{
  ℕ, String, ◌≡◌, ◌⊎◌, refl, sym, ap, ◌∙◌, subst, Bool, true, false, not, Option, none, some, List,
  [], ◌∷◌, ◌==◌, ◌&&◌, any, arith, inl, inr, Bool-cases,
}
use open_pass.GrantId.{Primitives}
use open_pass.Policy.{Action, allow, other, Policy, Outcome, default_result}
use open_pass.Policy.TimeOfDay.{ClockParser}
use open_pass.Policy.RateLimit.{FloatOps}
use open_pass.Policy.Matching.{Paths}
use open_pass.Policy.Engine.{CompiledRule, compile_all, new_engine}
use open_pass.Policy.Engine.Decision.{IsDecision, IsDecidedBy, evaluate_decides}
use open_pass.Authorize.{
  AgentProfile, Server, AuthError, Surroundings, log_audit, build_context, can_write,
  requires_approval, path_allows, check_scope, has_paths, evaluate_policy, check_policy,
  action_verdict, verdict, action_type_of, refuse, refusal, after_scope, after_policy,
  authorize_agent, authorize,
}
use open_pass.Authorize.Scope.{MayWrite, InScope, check_scope-InScope, may_write}

-- Of the actions of a rule, the ones that let a call through.
abbrev pub Permits : Action → Type 0
Permits action = (action ≡ allow) ⊎ ((text : String) × (action ≡ other text))

module _ (lib : Primitives) (native : String → String) (paths : Paths) (clock : ClockParser)
    (fuel : ℕ) (ops : FloatOps) where
  after_scope-eq-none :
      (a : AgentProfile) (path : String) (write approved : Bool) (action_type : String)
      (r : Server × Bool)
      → (after_scope lib native paths clock fuel ops a path write approved action_type r).1 ≡ none
      → (r.1 ≡ true) × MayWrite a write approved
  after_scope-eq-none a path write approved action_type (s, false) h = absurd (ground arith)
  after_scope-eq-none a path write approved action_type (s, true) h =
      elim (Bool-cases (write && not (can_write a))) [
        | inl e ↦ absurd (ground (arith, h, e))
        | inr e ↦ elim (Bool-cases ((write && requires_approval a) && not approved)) [
          | inl f ↦ absurd (ground (arith, h, e, f))
          | inr f ↦ (refl, may_write a (e, f))
        ]
      ]

  after_policy-eq-none :
      (e : Surroundings) (a : AgentProfile) (path : String) (write approved : Bool)
      (action_type : String) (r : Server × Option AuthError)
      → (after_policy lib native paths clock fuel ops e a path write approved action_type r).1
        ≡ none
      → (r.1 ≡ none) × (check_scope lib native e a path r.0).1 ≡ true × MayWrite a write approved
  after_policy-eq-none e a path write approved action_type (s, some error) h = absurd (ground arith)
  after_policy-eq-none e a path write approved action_type (s, none) h =
      let (scope, write_ok) =
        after_scope-eq-none a path write approved action_type (check_scope lib native e a path s)
          h in
      (refl, scope, write_ok)

  permitted :
      (action : Action) (rule : String)
      → action_verdict lib native paths clock fuel ops action rule ≡ none
      → Permits action
  permitted allow rule h = inl refl
  permitted (other text) rule h = inr (text, refl)
  permitted _ rule h = absurd (ground arith)

  refuse-eq-none :
      (a : AgentProfile) (path : String) (o : Option (String × AuthError)) (s : Server)
      → (refuse lib native paths clock fuel ops a path o s).1 ≡ none
      → (o ≡ none) × ((refuse lib native paths clock fuel ops a path o s).0 ≡ s)
  refuse-eq-none a path none s h = (refl, refl)
  refuse-eq-none a path (some p) s h = absurd (ground arith)

  default_refused : verdict lib native paths clock fuel ops default_result ≡ none → ⊥
  unfolding default_result
  default_refused h = ground arith

  decided :
      (e : Surroundings) (a : AgentProfile) (path action_type : String) (policies : List Policy)
      (o : Outcome)
      → IsDecision paths clock fuel
          (build_context e a.name path action_type)
          e.wall_clock
          (compile_all paths policies)
          o
      → verdict lib native paths clock fuel ops o ≡ none
      → (c : CompiledRule) × IsDecidedBy paths clock fuel
          (build_context e a.name path action_type)
          e.wall_clock
          (compile_all paths policies)
          o
          c
        × Permits c.rule.action
  decided e a path action_type policies o (inl (is_default, d)) h =
      absurd (default_refused (rw is_default at h))
  decided e a path action_type policies o (inr (c, d)) h =
      (c, d, permitted c.rule.action c.rule.name (rw d.outcome at h))

  -- On a server with a policy engine that `NewEngine` made of some policies, a call that `authorize`
  -- lets through names a path. A rule of these policies decided it whose action is to allow, or is none
  -- of the known ones, with no applicable rule of a higher priority; one of the agent's paths covers
  -- the path, or a share grant entitles the agent to it; and a write is for an agent that can write,
  -- and approved if the agent requires that. (Without an engine no rule is asked.)
  pub authorize_sound :
      (e : Surroundings) (path : String) (write approved : Bool) (s : Server) (a : AgentProfile)
      (policies : List Policy)
      → s.agent ≡ some a
      → s.policy_engine ≡ some (new_engine paths policies)
      → (authorize lib native paths clock fuel ops e path write approved s).1 ≡ none
      → ((path == "") ≡ false)
        × ((c : CompiledRule) × IsDecidedBy paths clock fuel
              (build_context e a.name path (action_type_of write))
              e.wall_clock
              (compile_all paths policies)
              (evaluate_policy lib native paths clock fuel ops e a path
                (action_type_of write)
                (new_engine paths policies))
              c
            × Permits c.rule.action)
        × InScope lib native e a path s.share_store
        × MayWrite a write approved
  unfolding authorize check_policy evaluate_policy build_context
  authorize_sound e path write approved s a policies is_agent engine h =
      let by_agent = authorize_agent lib native paths clock fuel ops e path write approved in
      let type = action_type_of write in
      let k : (by_agent (some a) s).1 ≡ none = subst (λ o. (by_agent o s).1 ≡ none) is_agent h in
      elim (Bool-cases (path == "")) [
        | inl e ↦ absurd (ground (arith, k, e))
        | inr p ↦
            let (passed_policy, scope, write_ok) =
              after_policy-eq-none e a path write approved type
                (check_policy lib native paths clock fuel ops e a path type s) (rw p at k) in
            let (no_refusal, same) =
              refuse-eq-none a path
                (refusal lib native paths clock fuel ops e a path type s.policy_engine) s
                passed_policy in
            let verdict_none =
              ap (refusal lib native paths clock fuel ops e a path type) (sym engine)
              ∙ no_refusal in
            (
              p,
              decided e a path type policies _
                  (evaluate_decides paths clock fuel ops policies (build_context e a.name path type)
                    _ e.wall_clock _ refl)
                  verdict_none,
              check_scope-InScope lib native e a path s
                  (subst (λ t. (check_scope lib native e a path t).1 ≡ true) same scope),
              write_ok,
            )
      ]

  covered_has_paths :
      (path : String) (allowed : List String)
      → any (path_allows native path) allowed ≡ true
      → has_paths lib native allowed ≡ true
  covered_has_paths path [] h = absurd (ground arith)
  covered_has_paths path (p ∷ allowed) h = refl

  writes_pass :
      (a : AgentProfile) (write approved : Bool)
      → MayWrite a write approved
      → ((write && not (can_write a)) ≡ false)
        × (((write && requires_approval a) && not approved) ≡ false)
  writes_pass a write approved (inl reads) = (rw reads, rw reads)
  writes_pass a write approved (inr (can, inl free)) = (ground (arith, can), ground (arith, free))
  writes_pass a write approved (inr (can, inr yes_it)) =
      (ground (arith, can), ground (arith, yes_it))

  -- Without a policy engine, a call for a path that one of the agent's paths covers, which is a read or
  -- a write that the agent may do, is let through, and is logged as successful only if it was approved:
  -- also a read, which needs no approval.
  authorize_logs :
      (e : Surroundings) (path : String) (write approved : Bool) (s : Server) (a : AgentProfile)
      → s.agent ≡ some a
      → s.policy_engine ≡ none
      → (path == "") ≡ false
      → any (path_allows native path) a.allowed_paths ≡ true
      → MayWrite a write approved
      → authorize lib native paths clock fuel ops e path write approved s
        ≡ (log_audit a (action_type_of write) path approved s, none)
  unfolding authorize check_policy check_scope
  authorize_logs e path write approved s a is_agent no_engine p covered w =
      let (x, y) = writes_pass a write approved w in
      let some_path : has_paths lib native a.allowed_paths ≡ true =
        covered_has_paths path a.allowed_paths covered in
      rw (is_agent, p, no_engine, some_path, covered, x, y)
