-- ===== src/Anomaly.antt =====
-- internal/anomaly/detector.go and rules.go: the detector of anomalies with its window of calls and
-- its rules. Thresholds, hours and lengths are natural numbers, and the hour of an instant is a
-- parameter, as it depends on the time zone.
pub mod Types
pub mod Itoa
pub mod Window
pub mod Rules
pub mod Sweep
pub mod Examples
unfoldable pub use Types.*
use open_pass.Base.{
  ℕ, zero, suc, ◌-◌, String, Bool, true, false, not, ◌==◌, ◌&&◌, ◌||◌, Option, none, some, List, [],
  ◌∷◌, ◌++◌, if◌then◌else◌, ltb, leb, eqb, length, any,
}
use open_pass.Base.Clock.{ℤ, pos, negsuc, add_duration}
use open_pass.Base.Text.{join}
use open_pass.Anomaly.Itoa.{itoa}

-- -d
abbrev pub negate : ℤ → ℤ
negate (pos zero) = pos zero
negate (pos (suc n)) = negsuc n
negate (negsuc n) = pos (suc n)

-- event.Timestamp.Add(-window)
abbrev pub cutoff : ToolCallEvent → ℤ → ℕ
cutoff event window = add_duration event.timestamp (negate window)

-- The window without its first event and with the new one: none is the panic on an empty slice.
abbrev pub shift : List ToolCallEvent → ToolCallEvent → Option (List ToolCallEvent)
shift [] event = none
shift (first ∷ rest) event = some (rest ++ event ∷ [])

abbrev with_events : AnomalyDetector → Option (List ToolCallEvent) → Option AnomalyDetector
with_events d none = none
with_events d (some events) = some (record d { events = events })

unfoldable pub add_event : ToolCallEvent → AnomalyDetector → Option AnomalyDetector
add_event event d = with_events d (
    if leb d.max_events (length d.events)
    then shift d.events event
    else some (d.events ++ event ∷ []))

abbrev alert_of : ToolCallEvent → AlertType → Severity → String → AnomalyAlert
alert_of event type severity description = record {
  alert_type = type;
  severity = severity;
  description = description;
  timestamp = event.timestamp;
  agent = event.agent;
  path = event.path;
  tool = event.tool;
  request_id = event.request_id;
}

unfoldable pub detect_canary_access : ToolCallEvent → Option AnomalyAlert
detect_canary_access event =
    if not event.is_canary || event.path == ""
    then none
    else some (
        alert_of event alert_canary_access severity_critical
          (join "Honeytoken/canary entry accessed by agent " event.agent))

-- `isOffHours`
unfoldable pub is_off_hours : ℕ → ℕ → ℕ → Bool
is_off_hours start end hour =
    if leb start end then leb start hour && ltb hour end else leb start hour || ltb hour end

unfoldable pub detect_off_hours :
    (hour_of : ℕ → ℕ) → AnomalyDetector → ToolCallEvent → Option AnomalyAlert
detect_off_hours hour_of d event =
    if event.path == ""
    then none
    else if is_off_hours d.off_hours_start d.off_hours_end (hour_of event.timestamp)
    then some (
        alert_of event alert_off_hours severity_low
          (join "Entry access during off-hours by agent " event.agent))
    else none

-- seen[p] = struct{}{}, for paths that are not empty
abbrev add_path : String → List String → List String
add_path p seen = if p == "" || any (λ q. q == p) seen then seen else p ∷ seen

-- The set of the paths in the window, as the list of its members.
unfoldable pub seen_paths : ℕ → List ToolCallEvent → List String
seen_paths from [] = []
seen_paths from (e ∷ rest) =
    let seen = seen_paths from rest in if ltb e.timestamp from then seen else add_path e.path seen

unfoldable pub detect_sweep : AnomalyDetector → ToolCallEvent → Option AnomalyAlert
detect_sweep d event =
    let n = length (seen_paths (cutoff event d.sweep_window) d.events) in
    if event.path == ""
    then none
    else if leb d.sweep_threshold n
    then some (
        alert_of event alert_sweep severity_medium (
          join "Sweep access detected: "
            (join event.agent (join " accessed " (join (itoa (pos n)) " unique paths")))))
    else none

-- the calls of one agent since an instant
unfoldable pub count_calls : String → ℕ → List ToolCallEvent → ℕ
count_calls agent from [] = 0
count_calls agent from (e ∷ rest) =
    let n = count_calls agent from rest in
    if ltb e.timestamp from then n else if e.agent == agent then suc n else n

unfoldable pub detect_rate_anomaly : AnomalyDetector → ToolCallEvent → Option AnomalyAlert
detect_rate_anomaly d event =
    let n = count_calls event.agent (cutoff event d.rate_window) d.events in
    if ltb d.rate_limit n
    then some
        (record (alert_of event alert_rate_anomaly severity_medium (
          join "Rate anomaly: "
            (join event.agent (join " made " (join (itoa (pos n)) " requests"))))) { path = "" })
    else none

abbrev pub is_large_read : AnomalyDetector → ToolCallEvent → Bool
is_large_read d e =
    (e.tool == "get_entry" || e.tool == "get_entry_value")
    && leb d.tool_chain_threshold e.field_length

-- The loop from the newest event back, on the events in that order: it stops at the first old one.
unfoldable pub find_large_read :
    AnomalyDetector → String → ℕ → List ToolCallEvent → Option ToolCallEvent
find_large_read d agent from [] = none
find_large_read d agent from (e ∷ rest) =
    let older = find_large_read d agent from rest in
    if ltb e.timestamp from
    then none
    else if not (e.agent == agent)
    then older
    else if is_large_read d e
    then some e
    else older

unfoldable pub reverse : List ToolCallEvent → List ToolCallEvent
reverse [] = []
reverse (e ∷ rest) = reverse rest ++ e ∷ []

abbrev tool_chain_alert : ToolCallEvent → Option ToolCallEvent → Option AnomalyAlert
tool_chain_alert event none = none
tool_chain_alert event (some e) = some (
    alert_of event alert_tool_chain severity_high (
      join "Tool-chain: agent " (
        join event.agent (
          join " read a large field ("
            (join (itoa (pos e.field_length)) (join " bytes) then invoked " event.tool))))))

abbrev pub runs_command : ToolCallEvent → Bool
runs_command event = event.tool == "run_command" || event.tool == "execute_with_secret"

unfoldable pub detect_tool_chain : AnomalyDetector → ToolCallEvent → Option AnomalyAlert
detect_tool_chain d event =
    if runs_command event
    then tool_chain_alert event
        (find_large_read d event.agent (cutoff event d.tool_chain_window) (reverse d.events))
    else none

abbrev pub add_alert : Option AnomalyAlert → List AnomalyAlert → List AnomalyAlert
add_alert none alerts = alerts
add_alert (some a) alerts = a ∷ alerts

-- The alerts of all rules, in their order.
unfoldable pub evaluate_event :
    (hour_of : ℕ → ℕ) → AnomalyDetector → ToolCallEvent → List AnomalyAlert
evaluate_event hour_of d event = add_alert (detect_canary_access event) (
    add_alert (detect_off_hours hour_of d event) (
      add_alert (detect_sweep d event)
        (add_alert (detect_rate_anomaly d event) (add_alert (detect_tool_chain d event) []))))

abbrev evaluated :
    (ℕ → ℕ) → ToolCallEvent → Option AnomalyDetector → Option (AnomalyDetector × List AnomalyAlert)
evaluated hour_of event none = none
evaluated hour_of event (some d) = some (d, evaluate_event hour_of d event)

-- `Check`: the alerts go to the hooks in turn, and the first of them is returned.
unfoldable pub check :
    (hour_of : ℕ → ℕ)
    → ToolCallEvent
    → AnomalyDetector
    → Option (AnomalyDetector × List AnomalyAlert)
check hour_of event d = evaluated hour_of event (add_event event d)

abbrev pub first_alert : List AnomalyAlert → Option AnomalyAlert
first_alert [] = none
first_alert (a ∷ rest) = some a
