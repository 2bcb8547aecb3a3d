-- ===== src/Approval/Laws.antt =====
-- What lets an operation pass, what is remembered, and how the terminal is left.

use open_pass.Base.{
  String, Bool, true, false, not, ◌==◌, ◌&&◌, ◌≡◌, ◌⊎◌, refl, subst, Option, none, some, List, [],
  ◌∷◌, ◌++◌, eq_iff, arith, inl, inr, Bool-cases,
}
use open_pass.Base.Clock.{ℤ}
use open_pass.Authorize.{AgentProfile}
use open_pass.Approval.{
  RiskLevel, can_remember, Reading, answered, timed_out, read_failed, Tty, TtyEvent, opened,
  raw_set, prompted, restored, closed, shown, ApprovalError, ApprovalResult, or_default,
  parse_approval_response, parse_remember_response, answer_result, request_approval,
  approval_cache_key, ApprovalServer, Intent, is_remembered, approval_mode, log, timeout_of,
  after_result, ask, prompt_by, prompt_approval, by_agent, require_approval,
}

-- The state of the terminal.
pub record TtyState : Type 0 where
  pub is_open : Bool
  pub is_raw : Bool

abbrev pub at_rest : TtyState
at_rest = record { is_open = false; is_raw = false }

-- What a call does to the terminal: a return from the raw mode or a closing that fails does nothing.
unfoldable pub do_event : Tty → TtyEvent → TtyState → TtyState
do_event tty opened t = record t { is_open = true }
do_event tty closed t = record t { is_open = t.is_open && not tty.close_ok }
do_event tty raw_set t = record t { is_raw = true }
do_event tty restored t = record t { is_raw = t.is_raw && not tty.restore_ok }
do_event tty prompted t = t
do_event tty (shown approved) t = t

unfoldable pub do_events : Tty → List TtyEvent → TtyState → TtyState
unfolding do_event
do_events tty [] t = t
do_events tty (e ∷ es) t = do_events tty es (do_event tty e t)

-- The terminal is closed if it can be closed, and out of the raw mode if that can be left.
abbrev pub IsLeft : Tty → TtyState → Type 0
IsLeft tty t = ((t.is_open && tty.close_ok) ≡ false) × ((t.is_raw && tty.restore_ok) ≡ false)

module _ (lower_trim : String → String) (tty : Tty) where
  -- Whatever goes wrong, the request closes the terminal and leaves the raw mode, if that succeeds.
  pub request_approval_restores :
      (timeout : ℤ) (can : Bool) (t : TtyState)
      → IsLeft tty t
      → IsLeft tty (do_events tty (request_approval lower_trim tty timeout can).0 t)
  unfolding request_approval do_events answer_result
  request_approval_restores timeout can t left = elim (Bool-cases tty.opens) [
    | inr e ↦ rw e left
    | inl e ↦ elim (Bool-cases tty.raw_ok) [
      | inr f ↦ rw (e, f) (ground arith, ground (arith, left))
      | inl f ↦ elim (Bool-cases tty.prompt_ok) [
        | inr g ↦ rw (e, f, g) (ground arith, ground arith)
        | inl g ↦ rw (e, f, g) (on_reading (tty.reading (or_default timeout)))
      ]
    ]
  ]
    where
      on_reading :
          (r : Reading)
          → IsLeft tty (
              do_events tty
                ((opened ∷ raw_set ∷ prompted ∷ []) ++ (answer_result lower_trim can r).0)
                t)
      on_reading (answered text) = (ground arith, ground arith)
      on_reading timed_out = (ground arith, ground arith)
      on_reading read_failed = (ground arith, ground arith)

  -- The user was asked, and gave an answer of approval.
  abbrev pub Approves : ℤ → Type 0
  Approves timeout =
      (tty.opens ≡ true)
      × (tty.raw_ok ≡ true)
      × (tty.prompt_ok ≡ true)
      × ((text : String) × (tty.reading (or_default timeout) ≡ answered text)
          × (parse_approval_response lower_trim text ≡ true))

  remember_is_approval :
      (text : String)
      → parse_remember_response lower_trim text ≡ true
      → parse_approval_response lower_trim text ≡ true
  unfolding parse_remember_response parse_approval_response
  remember_is_approval text h = ground (arith, h)

  answer_result_sound :
      (can : Bool) (r : Reading)
      → (answer_result lower_trim can r).1.error ≡ none
      → (answer_result lower_trim can r).1.approved ≡ true
      → (text : String) × (r ≡ answered text) × (parse_approval_response lower_trim text ≡ true)
  unfolding answer_result
  answer_result_sound can (answered text) e h =
      (text, refl, ground (arith, h, remember_is_approval text))
  answer_result_sound can timed_out e h = absurd (ground (arith, e))
  answer_result_sound can read_failed e h = absurd (ground (arith, e))

  request_approval_sound :
      (timeout : ℤ) (can : Bool)
      → (request_approval lower_trim tty timeout can).1.error ≡ none
      → (request_approval lower_trim tty timeout can).1.approved ≡ true
      → Approves timeout
  unfolding request_approval
  request_approval_sound timeout can e h = elim (Bool-cases tty.opens) [
    | inr o ↦ absurd (ground (arith, rw o at e))
    | inl o ↦ elim (Bool-cases tty.raw_ok) [
      | inr r ↦ absurd (ground (arith, rw (o, r) at e))
      | inl r ↦ elim (Bool-cases tty.prompt_ok) [
        | inr p ↦ absurd (ground (arith, rw (o, r, p) at e))
        | inl p ↦ (
          o,
          r,
          p,
          answer_result_sound can (tty.reading (or_default timeout)) (rw (o, r, p) at e)
              (rw (o, r, p) at h),
        )
      ]
    ]
  ]

both : {a b : Bool} → (a && b) ≡ true → (a ≡ true) × (b ≡ true)
both h = (ground (arith, h), ground (arith, h))

module _ (lower_trim native : String → String) (risk_of : String → RiskLevel) (tty : Tty)
    (intent : Intent) where
  abbrev requires : ApprovalServer → List TtyEvent × ApprovalServer × Option ApprovalError
  requires = require_approval lower_trim native risk_of tty intent

  abbrev prompts :
      AgentProfile → ApprovalServer → List TtyEvent × ApprovalServer × Option ApprovalError
  prompts = prompt_approval lower_trim native risk_of tty intent

  abbrev level : RiskLevel
  level = risk_of intent.action

  abbrev key_of : AgentProfile → String
  key_of a = approval_cache_key native a.name intent.action intent.entry_path

  after_result_sound :
      (a : AgentProfile) (s : ApprovalServer) (r : ApprovalResult) (e : Option ApprovalError)
      → (after_result lower_trim native risk_of tty intent a s r e).1 ≡ none
      → (e ≡ none) × (r.approved ≡ true)
  after_result_sound a s r (some e) h = absurd (ground (arith, h))
  after_result_sound a s r none h = elim (Bool-cases r.approved) [
    | inl q ↦ (refl, q)
    | inr q ↦ absurd (ground (arith, rw q at h))
  ]

  ask_sound :
      (a : AgentProfile) (s : ApprovalServer)
      → (ask lower_trim native risk_of tty intent a s).2 ≡ none
      → Approves lower_trim tty (timeout_of s)
  ask_sound a s h =
      let r = (request_approval lower_trim tty (timeout_of s) (can_remember level)).1 in
      let (no_error, approved) =
        after_result_sound a (log lower_trim native risk_of tty intent a ".requested" true s) r
          r.error h in
      request_approval_sound lower_trim tty (timeout_of s) (can_remember level) no_error approved

  -- What was remembered for the operation.
  abbrev pub IsRemembered : AgentProfile → ApprovalServer → Type 0
  IsRemembered a s =
      (can_remember level ≡ true) × (is_remembered (key_of a) s.approval_cache ≡ true)

  prompt_by_sound :
      (present known : Bool) (a : AgentProfile) (s : ApprovalServer)
      → (prompt_by lower_trim native risk_of tty intent present known a s).2 ≡ none
      → (known ≡ true) ⊎ Approves lower_trim tty (timeout_of s)
  prompt_by_sound false known a s h = absurd (ground (arith, h))
  prompt_by_sound true true a s h = inl refl
  prompt_by_sound true false a s h = inr (ask_sound a s h)

  prompt_approval_sound :
      (a : AgentProfile) (s : ApprovalServer)
      → (prompts a s).2 ≡ none
      → IsRemembered a s ⊎ Approves lower_trim tty (timeout_of s)
  unfolding prompt_approval
  prompt_approval_sound a s h =
      let known = can_remember level && is_remembered (key_of a) s.approval_cache in
      elim (prompt_by_sound tty.is_present known a s h) [
        | inl k ↦ inl (both k)
        | inr asked ↦ inr asked
      ]

  by_agent_sound :
      (s : ApprovalServer) (a : AgentProfile)
      → (by_agent lower_trim native risk_of tty intent s (some a)).2 ≡ none
      → ((approval_mode a == "deny") ≡ false)
        × (((approval_mode a == "prompt") ≡ false)
            ⊎ (IsRemembered a s ⊎ Approves lower_trim tty (timeout_of s)))
  by_agent_sound s a h = elim (Bool-cases (approval_mode a == "deny")) [
    | inl d ↦ absurd (ground (arith, rw ((eq_iff (approval_mode a) "deny").0 d) at h))
    | inr d ↦ elim (Bool-cases (approval_mode a == "prompt")) [
      | inr p ↦ (d, inl p)
      | inl p ↦
          (d, inr (prompt_approval_sound a s (rw ((eq_iff (approval_mode a) "prompt").0 p) at h)))
    ]
  ]

  -- An operation is let through only if the agent's mode is not to deny, and where it is to prompt, if
  -- the approval was remembered, which is so for no critical tool, or the user is asked and approves.
  pub require_approval_sound :
      (s : ApprovalServer) (a : AgentProfile)
      → s.server.agent ≡ some a
      → (requires s).2 ≡ none
      → ((approval_mode a == "deny") ≡ false)
        × (((approval_mode a == "prompt") ≡ false)
            ⊎ (IsRemembered a s ⊎ Approves lower_trim tty (timeout_of s)))
  unfolding require_approval
  require_approval_sound s a is_agent h =
      by_agent_sound s a
        (subst (λ o. (by_agent lower_trim native risk_of tty intent s o).2 ≡ none) is_agent h)
