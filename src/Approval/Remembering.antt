-- ===== src/Approval/Remembering.antt =====
-- An approval that is remembered lets the same operation pass without asking, until the cache is
-- emptied; and every call leaves the terminal at rest.

use open_pass.Base.{
  String, Bool, true, false, ◌==◌, ◌&&◌, ◌||◌, ◌≡◌, refl, sym, ap, ◌∙◌, subst, Option, none, some,
  List, [], ◌∷◌, eq_refl, arith, inl, inr, Bool-cases,
}
use open_pass.Base.Assoc.{Assoc, lookup, lookup-insert}
use open_pass.Authorize.{AgentProfile}
use open_pass.Approval.{
  RiskLevel, can_remember, answered, Tty, TtyEvent, opened, closed, ApprovalError, ApprovalResult,
  or_default, parse_approval_response, parse_remember_response, answer_result, request_approval,
  ApprovalServer, Intent, is_remembered, emptied, set_remembered, approval_mode, is_there,
  invalidate_approval_cache, log, key_for, timeout_of, after_result, prompt_by, prompt_approval,
  by_agent, require_approval,
}
use open_pass.Approval.Laws.{
  at_rest, do_events, IsLeft, request_approval_restores, IsRemembered, Approves,
  require_approval_sound,
}

not_remembered :
    (key : String) (cache : Option (Assoc Bool)) → is_remembered key (emptied cache) ≡ false
unfolding lookup
not_remembered key none = refl
not_remembered key (some cache) = refl

module _ (lower_trim native : String → String) (risk_of : String → RiskLevel) (tty : Tty)
    (intent : Intent) where
  abbrev requires : ApprovalServer → List TtyEvent × ApprovalServer × Option ApprovalError
  requires = require_approval lower_trim native risk_of tty intent

  abbrev level : RiskLevel
  level = risk_of intent.action

  prompt_by_restores :
      (present known : Bool) (a : AgentProfile) (s : ApprovalServer)
      → IsLeft tty (
          do_events tty
            (prompt_by lower_trim native risk_of tty intent present known a s).0
            at_rest)
  unfolding do_events
  prompt_by_restores false known a s = (refl, refl)
  prompt_by_restores true true a s = (ground arith, refl)
  prompt_by_restores true false a s =
      request_approval_restores lower_trim tty (timeout_of s) (can_remember level)
        (do_events tty (opened ∷ closed ∷ []) at_rest) (ground arith, refl)

  by_agent_restores :
      (s : ApprovalServer) (o : Option AgentProfile)
      → IsLeft tty (do_events tty (by_agent lower_trim native risk_of tty intent s o).0 at_rest)
  unfolding do_events prompt_approval
  by_agent_restores s none = (refl, refl)
  by_agent_restores s (some a) =
      elim (Bool-cases (approval_mode a == "none" || approval_mode a == "auto")) [
        | inl e ↦ rw e (refl, refl)
        | inr e ↦ elim (Bool-cases (approval_mode a == "deny")) [
          | inl f ↦ rw (e, f) (refl, refl)
          | inr f ↦ elim (Bool-cases (approval_mode a == "prompt")) [
            | inr g ↦ rw (e, f, g) (refl, refl)
            | inl g ↦
                rw (e, f, g)
                  (prompt_by_restores tty.is_present
                    (can_remember level
                      && is_remembered (key_for lower_trim native risk_of tty intent a)
                          s.approval_cache)
                    a s)
          ]
        ]
      ]

  -- On every path the calls on the terminal end with it closed, where closing it succeeds, and out of
  -- the raw mode, where the return from that succeeds. Where one of the two fails, which the code
  -- does not report, nothing is said.
  pub require_approval_restores :
      (s : ApprovalServer) → IsLeft tty (do_events tty (requires s).0 at_rest)
  unfolding require_approval
  require_approval_restores s = by_agent_restores s s.server.agent

  prompts_of_mode :
      (s : ApprovalServer) (a : AgentProfile)
      → s.server.agent ≡ some a
      → approval_mode a ≡ "prompt"
      → requires s ≡ prompt_approval lower_trim native risk_of tty intent a s
  unfolding require_approval
  prompts_of_mode s a is_agent mode =
      ap (by_agent lower_trim native risk_of tty intent s) is_agent ∙ rw mode refl

  -- A remembered approval lets the operation pass without asking, and is logged.
  remembered_passes :
      (s : ApprovalServer) (a : AgentProfile)
      → s.server.agent ≡ some a
      → approval_mode a ≡ "prompt"
      → tty.is_present ≡ true
      → IsRemembered lower_trim native risk_of tty intent a s
      → requires s ≡ (
        opened ∷ closed ∷ [],
        log lower_trim native risk_of tty intent a ".remembered" true s,
        none,
      )
  unfolding prompt_approval
  remembered_passes s a is_agent mode there (can, known) =
      let key = key_for lower_trim native risk_of tty intent a in
      let is_known : (can_remember level && is_remembered key s.approval_cache) ≡ true =
        ground (arith, can, known) in
      prompts_of_mode s a is_agent mode
      ∙ ap
          (λ (p : Bool).
            prompt_by lower_trim native risk_of tty intent p
              (can_remember level && is_remembered key s.approval_cache) a s)
          there
      ∙ ap (λ (k : Bool). prompt_by lower_trim native risk_of tty intent true k a s) is_known

  -- The answer "r" to the prompt.
  abbrev pub AnswersRemember : ApprovalServer → Type 0
  AnswersRemember s =
      (tty.opens ≡ true)
      × (tty.raw_ok ≡ true)
      × (tty.prompt_ok ≡ true)
      × ((text : String) × (tty.reading (or_default (timeout_of s)) ≡ answered text)
          × (parse_remember_response lower_trim text ≡ true))

  answer_remembered :
      (text : String)
      → parse_remember_response lower_trim text ≡ true
      → (answer_result lower_trim true (answered text)).1
        ≡ record { error = none; approved = true; remembered = true }
  unfolding answer_result
  answer_remembered text h = elim (Bool-cases (parse_approval_response lower_trim text)) [
    | inl e ↦ rw (h, e) refl
    | inr e ↦ rw (h, e) refl
  ]

  request_remembered :
      (s : ApprovalServer)
      → AnswersRemember s
      → (request_approval lower_trim tty (timeout_of s) true).1
        ≡ record { error = none; approved = true; remembered = true }
  unfolding request_approval
  request_remembered s (opens, raw, prompt, (text, reads, remembers)) =
      rw (opens, raw, prompt, reads) (answer_remembered text remembers)

  remembered_lookup :
      (key : String) (cache : Option (Assoc Bool))
      → is_there cache ≡ true
      → is_remembered key (set_remembered key cache) ≡ true
  remembered_lookup key none h = absurd (ground (arith, h))
  remembered_lookup key (some cache) h = rw (lookup-insert key key true cache, eq_refl key) refl

  -- the result of the request, with the state it leaves
  after_remember :
      (a : AgentProfile) (s : ApprovalServer) (r : ApprovalResult)
      → can_remember level ≡ true
      → is_there s.approval_cache ≡ true
      → r ≡ record { error = none; approved = true; remembered = true }
      → IsRemembered lower_trim native risk_of tty intent a
          (after_result lower_trim native risk_of tty intent a s r r.error).0
  after_remember a s r can there q =
      let key = key_for lower_trim native risk_of tty intent a in
      subst
        (λ x.
          IsRemembered lower_trim native risk_of tty intent a
            (after_result lower_trim native risk_of tty intent a s x x.error).0)
        (sym q) (can, rw (can, there) (remembered_lookup key s.approval_cache there))

  prompt_by_remembers :
      (known : Bool) (a : AgentProfile) (s : ApprovalServer)
      → can_remember level ≡ true
      → is_there s.approval_cache ≡ true
      → (known ≡ true
          → is_remembered (key_for lower_trim native risk_of tty intent a) s.approval_cache ≡ true)
      → AnswersRemember s
      → IsRemembered lower_trim native risk_of tty intent a
          (prompt_by lower_trim native risk_of tty intent true known a s).1
  prompt_by_remembers true a s can there old answer = (can, old refl)
  prompt_by_remembers false a s can there old answer =
      let s' = log lower_trim native risk_of tty intent a ".requested" true s in
      let r = (request_approval lower_trim tty (timeout_of s) (can_remember level)).1 in
      after_remember a s' r can there (
        ap (λ (c : Bool). (request_approval lower_trim tty (timeout_of s) c).1) can
        ∙ request_remembered s answer)

  -- The answer "r" to the prompt for an operation that is not critical is remembered for it.
  pub require_approval_remembers :
      (s : ApprovalServer) (a : AgentProfile)
      → s.server.agent ≡ some a
      → approval_mode a ≡ "prompt"
      → tty.is_present ≡ true
      → can_remember level ≡ true
      → is_there s.approval_cache ≡ true
      → AnswersRemember s
      → IsRemembered lower_trim native risk_of tty intent a (requires s).1
  unfolding prompt_approval
  require_approval_remembers s a is_agent mode there can cache answer =
      let key = key_for lower_trim native risk_of tty intent a in
      let known = can_remember level && is_remembered key s.approval_cache in
      subst (λ r. IsRemembered lower_trim native risk_of tty intent a r.1)
        (sym (
          prompts_of_mode s a is_agent mode
          ∙ ap (λ (p : Bool). prompt_by lower_trim native risk_of tty intent p known a s) there))
        (prompt_by_remembers known a s can cache (λ h. ground (arith, h)) answer)

  -- After the cache is emptied, an operation of an agent whose mode is to prompt passes only if the
  -- user is asked and approves.
  pub invalidated_asks :
      (s : ApprovalServer) (a : AgentProfile)
      → s.server.agent ≡ some a
      → approval_mode a ≡ "prompt"
      → (requires (invalidate_approval_cache s)).2 ≡ none
      → Approves lower_trim tty (timeout_of s)
  unfolding invalidate_approval_cache
  invalidated_asks s a is_agent mode h =
      elim (require_approval_sound lower_trim native risk_of tty intent
        (invalidate_approval_cache s) a is_agent h).1 [
          | inl other ↦ absurd (ground (arith, rw mode at other))
          | inr (inl (can, known)) ↦ absurd (
              ground (
                arith,
                known,
                not_remembered (key_for lower_trim native risk_of tty intent a) s.approval_cache,
              ))
          | inr (inr asked) ↦ asked
        ]
