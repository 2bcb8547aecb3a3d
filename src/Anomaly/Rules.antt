-- ===== src/Anomaly/Rules.antt =====
-- internal/anomaly/rules.go: when the rules raise an alert.
use open_pass.Base.{
  ℕ, ◌+◌, ◌-◌, ◌%◌, ◌≤◌, ◌<◌, String, true, false, ◌==◌, ◌≡◌, refl, sym, ◌∙◌, ◌↔◌, inl, inr, Option,
  none, some, List, [], ◌∷◌, ◌++◌, ltb, is_some, Bool-cases, arith, All, All-append, Any,
  Any-append, Any-append_left, Any-append_right,
}
use open_pass.Anomaly.{
  ToolCallEvent, AnomalyDetector, cutoff, is_off_hours, find_large_read, is_large_read, reverse,
  runs_command, detect_tool_chain, tool_chain_alert,
}

-- Off-hours are the arc of the clock from the start to the end, over midnight too.
is_off_hours_arc :
    (start end hour : ℕ)
    → start < 24
    → end < 24
    → hour < 24
    → is_off_hours start end hour ≡ ltb ((hour + 24 - start) % 24) ((end + 24 - start) % 24)
unfolding is_off_hours
is_off_hours_arc start end hour s e h = ground arith

-- A read by the agent, since an instant, of a field that is large for the detector.
abbrev pub LargeRead : AnomalyDetector → String → ℕ → ToolCallEvent → Type 0
LargeRead d agent from e =
    (from ≤ e.timestamp) × ((e.agent == agent) ≡ true) × (is_large_read d e ≡ true)

-- The clock does not go back from one event to the next.
abbrev pub InOrder : List ToolCallEvent → Type 0
InOrder [] = Unit
InOrder (e ∷ rest) = All (λ f. e.timestamp ≤ f.timestamp) rest × InOrder rest

find_large_read_sound :
    (d : AnomalyDetector) (agent : String) (from : ℕ) (es : List ToolCallEvent)
    → is_some (find_large_read d agent from es) ≡ true
    → Any (LargeRead d agent from) es
unfolding find_large_read
find_large_read_sound d agent from [] h = absurd (ground (arith, h))
find_large_read_sound d agent from (e ∷ es) h = elim (Bool-cases (ltb e.timestamp from)) [
  | inl old ↦ absurd (ground (arith, rw old at h))
  | inr new ↦ elim (Bool-cases (e.agent == agent)) [
    | inr other ↦ Any.there (find_large_read_sound d agent from es (rw (new, other) at h))
    | inl same ↦ elim (Bool-cases (is_large_read d e)) [
      | inl large ↦ Any.here (ground (arith, new), same, large)
      | inr small ↦ Any.there (find_large_read_sound d agent from es (rw (new, same, small) at h))
    ]
  ]
]

abbrev Descending : List ToolCallEvent → Type 0
Descending [] = Unit
Descending (e ∷ rest) = All (λ f. f.timestamp ≤ e.timestamp) rest × Descending rest

All_Any :
    (P Q : ToolCallEvent → Type 0) (es : List ToolCallEvent)
    → All P es
    → Any Q es
    → (e : ToolCallEvent) × P e × Q e
All_Any P Q [] h q = elim q [ ]
All_Any P Q (e ∷ es) (p, ps) (Any.here q) = (e, p, q)
All_Any P Q (e ∷ es) (p, ps) (Any.there h) = All_Any P Q es ps h

find_large_read_complete :
    (d : AnomalyDetector) (agent : String) (from : ℕ) (es : List ToolCallEvent)
    → Descending es
    → Any (LargeRead d agent from) es
    → is_some (find_large_read d agent from es) ≡ true
unfolding find_large_read
find_large_read_complete d agent from [] o h = elim h [ ]
find_large_read_complete d agent from (e ∷ es) (o, os) (Any.here (t, same, large)) =
    let new : ltb e.timestamp from ≡ false = ground (arith, t) in rw (new, same, large) refl
find_large_read_complete d agent from (e ∷ es) (o, os) (Any.there h) =
    let (f, less, (t, same, large)) =
      All_Any (λ f. f.timestamp ≤ e.timestamp) (LargeRead d agent from) es o h in
    let new : ltb e.timestamp from ≡ false = ground (arith, less, t) in
    let rest = find_large_read_complete d agent from es os h in
    rw new (elim (Bool-cases (e.agent == agent)) [
      | inr other ↦ rw other rest
      | inl equal ↦ elim (Bool-cases (is_large_read d e)) [
        | inl big ↦ rw (equal, big) refl
        | inr small ↦ rw (equal, small) rest
      ]
    ])

Any-reverse : (P : ToolCallEvent → Type 0) (es : List ToolCallEvent) → Any P (reverse es) → Any P es
unfolding reverse
Any-reverse P [] h = h
Any-reverse P (e ∷ es) h = elim (Any-append P (reverse es) (e ∷ []) h) [
  | inl a ↦ Any.there (Any-reverse P es a)
  | inr (Any.here p) ↦ Any.here p
  | inr (Any.there b) ↦ elim b [ ]
]

reverse-Any : (P : ToolCallEvent → Type 0) (es : List ToolCallEvent) → Any P es → Any P (reverse es)
unfolding reverse
reverse-Any P [] h = h
reverse-Any P (e ∷ es) (Any.here p) = Any-append_right P (reverse es) (Any.here p)
reverse-Any P (e ∷ es) (Any.there h) = Any-append_left P (e ∷ []) (reverse-Any P es h)

All-reverse : (P : ToolCallEvent → Type 0) (es : List ToolCallEvent) → All P es → All P (reverse es)
unfolding reverse
All-reverse P [] h = tt
All-reverse P (e ∷ es) (p, h) = All-append P (reverse es) (e ∷ []) (All-reverse P es h) (p, tt)

Descending-append_one :
    (es : List ToolCallEvent) (e : ToolCallEvent)
    → Descending es
    → All (λ f. e.timestamp ≤ f.timestamp) es
    → Descending (es ++ e ∷ [])
Descending-append_one [] e d h = (tt, tt)
Descending-append_one (f ∷ es) e (o, d) (p, h) = (
  All-append (λ g. g.timestamp ≤ f.timestamp) es (e ∷ []) o (p, tt),
  Descending-append_one es e d h,
)

reverse-Descending : (es : List ToolCallEvent) → InOrder es → Descending (reverse es)
unfolding reverse
reverse-Descending [] h = tt
reverse-Descending (e ∷ es) (o, h) =
    Descending-append_one (reverse es) e (reverse-Descending es h)
      (All-reverse (λ f. e.timestamp ≤ f.timestamp) es o)

tool_chain_found :
    (event : ToolCallEvent) (o : Option ToolCallEvent)
    → is_some (tool_chain_alert event o) ≡ is_some o
tool_chain_found event none = refl
tool_chain_found event (some e) = refl

-- With a clock that does not go back, a call raises the alert of a tool chain exactly when it runs a
-- command and the window has a read of a large field by the same agent, not older than the window of time.
pub detect_tool_chain_iff :
    (d : AnomalyDetector) (event : ToolCallEvent)
    → InOrder d.events
    → (is_some (detect_tool_chain d event) ≡ true) ↔ (
        (runs_command event ≡ true)
        × Any (LargeRead d event.agent (cutoff event d.tool_chain_window)) d.events)
unfolding detect_tool_chain
detect_tool_chain_iff d event o =
    let from = cutoff event d.tool_chain_window in
    let found = find_large_read d event.agent from (reverse d.events) in
    elim (Bool-cases (runs_command event)) [
      | inl r ↦ rw r (
        λ h. (
          refl,
          Any-reverse (LargeRead d event.agent from) d.events (
              find_large_read_sound d event.agent from (reverse d.events)
                (sym (tool_chain_found event found) ∙ h)),
        ),
        λ h.
            tool_chain_found event found
            ∙ find_large_read_complete d event.agent from (reverse d.events)
                (reverse-Descending d.events o)
                (reverse-Any (LargeRead d event.agent from) d.events h.1),
      )
      | inr r ↦ rw r ((λ h. absurd (ground (arith, h))), (λ h. absurd (ground (arith, h.0))))
    ]
