-- ===== src/Anomaly/Window.antt =====
-- internal/anomaly/detector.go: the window of the detector against the history of all calls.
use open_pass.Base.{
  ℕ, suc, ◌-◌, ◌≤◌, ◌≡◌, sym, ap, ◌∙◌, inl, inr, Option, none, some, List, [], ◌∷◌, ◌++◌, leb,
  length, Bool-cases, arith, append-nil,
}
use mathlib.Core.List.{append_assoc}
use open_pass.Base.Slices.{
  drop, last_n, last_n-drop, length-append, last_n-last_n, length-last_n_le, last_n_short,
}
use open_pass.Anomaly.{
  ToolCallEvent, AnomalyDetector, AnomalyAlert, shift, with_events, add_event, evaluated, check,
}

-- A window that the detector can have: not larger than its bound, which is not 0.
abbrev pub Bounded : AnomalyDetector → Type 0
Bounded d = (1 ≤ d.max_events) × (length d.events ≤ d.max_events)

-- A detector with another window.
abbrev with_window : AnomalyDetector → List ToolCallEvent → AnomalyDetector
with_window d events = record d { events = events }

full_window :
    (n : ℕ) (events : List ToolCallEvent) (e : ToolCallEvent)
    → 1 ≤ n
    → length events ≡ n
    → shift events e ≡ some (last_n n (events ++ e ∷ []))
unfolding drop
full_window n [] e p h = absurd (omega (arith, p, h))
full_window n (x ∷ xs) e p h =
    let size = length-append xs (e ∷ []) in
    let one : length (x ∷ xs ++ e ∷ []) - n ≡ 1 = omega (arith, size, h) in
    ap some (sym (last_n-drop n (x ∷ xs ++ e ∷ []) ∙ ap (λ k. drop k (x ∷ xs ++ e ∷ [])) one))

short_window :
    (n : ℕ) (events : List ToolCallEvent) (e : ToolCallEvent)
    → suc (length events) ≤ n
    → events ++ e ∷ [] ≡ last_n n (events ++ e ∷ [])
unfolding drop
short_window n events e h =
    let size = length-append events (e ∷ []) in
    let none : length (events ++ e ∷ []) - n ≡ 0 = omega (arith, size, h) in
    sym (last_n-drop n (events ++ e ∷ []) ∙ ap (λ k. drop k (events ++ e ∷ [])) none)

add_event_window :
    (e : ToolCallEvent) (d : AnomalyDetector)
    → Bounded d
    → add_event e d ≡ some (with_window d (last_n d.max_events (d.events ++ e ∷ [])))
unfolding add_event
add_event_window e d (p, h) = elim (Bool-cases (leb d.max_events (length d.events))) [
  | inl full ↦
      rw full (ap (with_events d) (full_window d.max_events d.events e p (ground (arith, full, h))))
  | inr less ↦ rw less (
      ap (λ w. some (with_window d w))
        (short_window d.max_events d.events e (ground (arith, less))))
]

abbrev then_check :
    Option (AnomalyDetector × List AnomalyAlert)
    → (AnomalyDetector → Option AnomalyDetector)
    → Option AnomalyDetector
then_check none next = none
then_check (some (d, alerts)) next = next d

-- A sequence of calls of `Check`, with the detector at the end.
abbrev pub check_all : (ℕ → ℕ) → List ToolCallEvent → AnomalyDetector → Option AnomalyDetector
check_all hour_of [] d = some d
check_all hour_of (e ∷ rest) d = then_check (check hour_of e d) (check_all hour_of rest)

-- After any calls of `Check`, none of which panics, the window is the last calls of all, those of the window at first included, as many as
-- the bound says, if the bound is not 0.
pub check_all_window :
    (hour_of : ℕ → ℕ) (es : List ToolCallEvent) (d : AnomalyDetector)
    → Bounded d
    → check_all hour_of es d ≡ some (record d { events = last_n d.max_events (d.events ++ es) })
unfolding check
check_all_window hour_of [] d (p, h) =
    ap (λ w. some (with_window d w))
      (sym (last_n_short d.max_events d.events h)
        ∙ ap (last_n d.max_events) (sym (append-nil d.events)))
check_all_window hour_of (e ∷ es) d (p, h) =
    let n = d.max_events in
    let next = with_window d (last_n n (d.events ++ e ∷ [])) in
    ap (λ o. then_check (evaluated hour_of e o) (check_all hour_of es))
      (add_event_window e d (p, h))
    ∙ check_all_window hour_of es next (p, length-last_n_le n (d.events ++ e ∷ []))
    ∙ ap (λ w. some (with_window d w))
        (last_n-last_n n (d.events ++ e ∷ []) es
          ∙ ap (last_n n) (append_assoc d.events (e ∷ []) es))
