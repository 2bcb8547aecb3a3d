-- ===== src/Policy/Engine/Decision.antt =====
-- What `Evaluate` decides where the context has no rate limiter.
use mathlib.Core.List.{Permᴰ}
use mathlib.Core.List.Permᴰ
use open_pass.Base.{
  ℕ, ◌+◌, ◌≡◌, ◌⊎◌, refl, ◌∙◌, Bool, true, false, none, some, List, [], ◌∷◌, String, not, ◌&&◌, inl,
  inr, Bool-cases, Option-cases, All, Any, is_some,
}
use open_pass.Base.Clock.{is_positive}
use open_pass.Policy.{Policy, WallClock, Outcome, default_result}
use open_pass.Policy.TimeOfDay.{ClockParser}
use open_pass.Policy.RateLimit.{FloatOps, reached}
use open_pass.Policy.Matching.{Paths}
use open_pass.Policy.Engine.{
  CompiledRule, compile_all, new_engine, EvalContext, Readings, EvalState, static_match, matches,
  audit, is_deny, Reason, max_secrets_exceeded, evaluate_rules, evaluate,
}
use open_pass.Policy.Engine.Order.{
  All-perm, Any-perm, All-map, ltz_irrefl, AtMost, Descending, new_engine_lem,
}

-- The time that the evaluation takes the context to have.
abbrev pub time_of : EvalContext → WallClock → WallClock
time_of ctx time_now = elim ctx.now [ none ↦ time_now | some t ↦ t ]

module _ (lib : Paths) (clock : ClockParser) (fuel : ℕ) where
  -- The rule's conditions hold: its static tests pass, it sets no rate limit, and the count of
  -- secrets is below its bound, if it sets one.
  abbrev pub applies : EvalContext → WallClock → CompiledRule → Bool
  applies ctx t cr =
      static_match lib clock fuel cr ctx t
      && (not (is_some cr.rule.conditions.rate_limit)
          && not (
              is_positive cr.rule.conditions.max_secrets
              && reached ctx.secrets_accessed cr.rule.conditions.max_secrets))

  -- What a rule contributes as the one that decides: its action and its name.
  abbrev pub decided_by : CompiledRule → Outcome
  decided_by cr = record { action = cr.rule.action; rule_name = cr.rule.name; matched = true }

  -- A rule of the list applies and decides, and every rule of a higher priority does not apply.
  pub record IsDecidedBy (ctx : EvalContext) (t : WallClock) (rules : List CompiledRule)
      (o : Outcome) (c : CompiledRule) : Type 0 where
    pub member : Any (λ d. d ≡ c) rules
    pub applicable : applies ctx t c ≡ true
    pub outcome : o ≡ decided_by c
    pub highest : All (λ d. (applies ctx t d ≡ false) ⊎ AtMost c d) rules

  -- The outcome is the default one and no rule applies, or an applicable rule of the highest
  -- priority decides.
  abbrev pub IsDecision : EvalContext → WallClock → List CompiledRule → Outcome → Type 0
  IsDecision ctx t rules o =
      ((o ≡ default_result) × All (λ d. applies ctx t d ≡ false) rules)
      ⊎ ((c : CompiledRule) × IsDecidedBy ctx t rules o c)

  -- A rule that does not apply changes no decision.
  skipped :
      {ctx : EvalContext} {t : WallClock} {o : Outcome} (c : CompiledRule)
      (rules : List CompiledRule)
      → applies ctx t c ≡ false
      → IsDecision ctx t rules o
      → IsDecision ctx t (c ∷ rules) o
  skipped c rules e (inl (p, h)) = inl (p, (e, h))
  skipped c rules e (inr (d, h)) = inr (
    d,
    record {
      member = Any.there h.member;
      applicable = h.applicable;
      outcome = h.outcome;
      highest = (inl e, h.highest);
    },
  )

  module _ (ops : FloatOps) (ctx : EvalContext) (t : WallClock) where
    audit-limiter :
        (name : String) (r : Reason) (s : EvalState lib clock fuel ops)
        → (audit lib clock fuel ops ctx name r s).limiter ≡ s.limiter
    audit-limiter name r s = elim (Bool-cases ctx.audited) [ inl e ↦ rw e | inr e ↦ rw e ]

    -- With no limiter, a rule's test is `applies`, and there is no limiter afterwards.
    matches-applies :
        (at : Readings) (cr : CompiledRule) (s : EvalState lib clock fuel ops)
        → s.limiter ≡ none
        → ((matches lib clock fuel ops at cr ctx t s).1 ≡ applies ctx t cr)
          × ((matches lib clock fuel ops at cr ctx t s).0.limiter ≡ none)
    unfolding matches
    matches-applies at cr s h = elim (Bool-cases (static_match lib clock fuel cr ctx t)) [
      | inr e ↦ rw e (refl, h)
      | inl e ↦ elim (Option-cases cr.rule.conditions.rate_limit) [
        | inr (l, f) ↦ rw (e, f, h) (refl, refl)
        | inl f ↦
            elim (Bool-cases (
              is_positive cr.rule.conditions.max_secrets
              && reached ctx.secrets_accessed cr.rule.conditions.max_secrets)) [
                | inl g ↦ rw (e, f, g) (refl, audit-limiter cr.rule.name max_secrets_exceeded s ∙ h)
                | inr g ↦ rw (e, f, g) (refl, h)
              ]
      ]
    ]

    -- The first rule decides where it applies, and else the rules after it.
    first_applies :
        (at : ℕ → Readings) (i : ℕ) (cr : CompiledRule) (rules : List CompiledRule)
        (s : EvalState lib clock fuel ops)
        → (matches lib clock fuel ops (at i) cr ctx t s).1 ≡ true
        → (evaluate_rules lib clock fuel ops at i (cr ∷ rules) ctx t s).1 ≡ decided_by cr
    unfolding evaluate_rules
    first_applies at i cr rules s h =
        elim (Bool-cases (is_deny lib clock fuel ops cr.rule.action)) [
          | inl f ↦ rw (h, f)
          | inr f ↦ rw (h, f)
        ]

    first_skipped :
        (at : ℕ → Readings) (i : ℕ) (cr : CompiledRule) (rules : List CompiledRule)
        (s : EvalState lib clock fuel ops)
        → (matches lib clock fuel ops (at i) cr ctx t s).1 ≡ false
        → (evaluate_rules lib clock fuel ops at i (cr ∷ rules) ctx t s).1
          ≡ (evaluate_rules lib clock fuel ops at
              (i + 1)
              rules
              ctx
              t
              (matches lib clock fuel ops (at i) cr ctx t s).0).1
    unfolding evaluate_rules
    first_skipped at i cr rules s h = rw h

    evaluate_rules-IsDecision :
        (at : ℕ → Readings) (i : ℕ) (rules : List CompiledRule) (s : EvalState lib clock fuel ops)
        → s.limiter ≡ none
        → Descending rules
        → IsDecision ctx t rules (evaluate_rules lib clock fuel ops at i rules ctx t s).1
    evaluate_rules-IsDecision at i [] s h d = inl (unfold evaluate_rules in refl, tt)
    evaluate_rules-IsDecision at i (cr ∷ rules) s h (top, d) =
        let (p, q) = matches-applies (at i) cr s h in
        elim (Bool-cases (applies ctx t cr)) [
          | inl e ↦ inr (
            cr,
            record {
              member = Any.here refl;
              applicable = e;
              outcome = first_applies at i cr rules s (p ∙ e);
              highest = (
                inr (ltz_irrefl cr.rule.priority),
                All-map (AtMost cr) (λ d. (applies ctx t d ≡ false) ⊎ AtMost cr d) rules
                    (λ d k. inr k) top,
              );
            },
          )
          | inr e ↦
              rw (first_skipped at i cr rules s (p ∙ e))
                (skipped cr rules e (evaluate_rules-IsDecision at (i + 1) rules _ q d))
        ]

    evaluate-IsDecision :
        (at : ℕ → Readings) (time_now : WallClock) (rules : List CompiledRule)
        (s : EvalState lib clock fuel ops)
        → time_of ctx time_now ≡ t
        → s.limiter ≡ none
        → Descending rules
        → IsDecision ctx t rules (evaluate lib clock fuel ops at time_now rules ctx s).1
    unfolding evaluate
    evaluate-IsDecision at time_now [] s e h d = inl (refl, tt)
    evaluate-IsDecision at time_now (cr ∷ rules) s e h d =
        rw e (evaluate_rules-IsDecision at 0 (cr ∷ rules) s h d)

  IsDecision-perm :
      {ctx : EvalContext} {t : WallClock} {o : Outcome} {xs ys : List CompiledRule}
      → Permᴰ xs ys
      → IsDecision ctx t xs o
      → IsDecision ctx t ys o
  IsDecision-perm p (inl (e, h)) = inl (e, All-perm (λ d. applies _ _ d ≡ false) p h)
  IsDecision-perm {ctx} {t} p (inr (c, h)) = inr (
    c,
    record {
      member = Any-perm (λ d. d ≡ c) p h.member;
      applicable = h.applicable;
      outcome = h.outcome;
      highest = All-perm (λ d. (applies ctx t d ≡ false) ⊎ AtMost c d) p h.highest;
    },
  )

  -- Where the context has no rate limiter, `Evaluate` on the engine that `NewEngine` builds gives
  -- the action and the name of a rule of the policies that applies, such that each rule of a higher
  -- priority does not apply; or no rule of the policies applies, and it denies by default.
  pub evaluate_decides :
      (ops : FloatOps) (policies : List Policy) (ctx : EvalContext) (at : ℕ → Readings)
      (time_now : WallClock) (s : EvalState lib clock fuel ops)
      → s.limiter ≡ none
      → IsDecision ctx
          (time_of ctx time_now)
          (compile_all lib policies)
          (evaluate lib clock fuel ops at time_now (new_engine lib policies) ctx s).1
  evaluate_decides ops policies ctx at time_now s h =
      let (p, d) = new_engine_lem lib policies in
      IsDecision-perm (Permᴰ.symm p)
        (evaluate-IsDecision ops ctx _ at time_now (new_engine lib policies) s refl h d)
