-- ===== src/Anomaly/Types.antt =====
-- internal/anomaly/detector.go: the calls, the alerts, and the detector with its options.
use open_pass.Base.{ℕ, String, Bool, List, [], ◌∷◌}
use open_pass.Base.Clock.{ℤ, pos}

-- `Severity`
pub data Severity : Type 0 where
  severity_low severity_medium severity_high severity_critical : Severity

-- `AlertType`
pub data AlertType : Type 0 where
  alert_sweep alert_stale_access alert_rate_anomaly alert_off_hours alert_canary_access
        alert_tool_chain :
      AlertType

-- `ToolCallEvent`
pub record ToolCallEvent : Type 0 where
  pub timestamp : ℕ
  pub agent : String
  pub tool : String
  pub path : String
  pub duration : ℤ
  pub ok : Bool
  pub is_canary : Bool
  pub request_id : String
  pub field_length : ℕ

-- `AnomalyAlert`
pub record AnomalyAlert : Type 0 where
  pub alert_type : AlertType
  pub severity : Severity
  pub description : String
  pub timestamp : ℕ
  pub agent : String
  pub path : String
  pub tool : String
  pub request_id : String

-- `AnomalyDetector`
pub record AnomalyDetector : Type 0 where
  pub events : List ToolCallEvent
  pub max_events : ℕ
  pub sweep_window : ℤ
  pub sweep_threshold : ℕ
  pub rate_window : ℤ
  pub rate_limit : ℕ
  pub off_hours_start : ℕ
  pub off_hours_end : ℕ
  pub stale_days : ℕ
  pub tool_chain_window : ℤ
  pub tool_chain_threshold : ℕ

abbrev default_detector : AnomalyDetector
default_detector = record {
  events = [];
  max_events = 1000;
  sweep_window = pos 60000000000;
  sweep_threshold = 10;
  rate_window = pos 60000000000;
  rate_limit = 30;
  off_hours_start = 22;
  off_hours_end = 6;
  stale_days = 90;
  tool_chain_window = pos 30000000000;
  tool_chain_threshold = 500;
}

abbrev apply_options : List (AnomalyDetector → AnomalyDetector) → AnomalyDetector → AnomalyDetector
apply_options [] d = d
apply_options (option ∷ rest) d = apply_options rest (option d)

-- `New`
unfoldable pub new_detector : List (AnomalyDetector → AnomalyDetector) → AnomalyDetector
new_detector options = record (apply_options options default_detector) { events = [] }

abbrev pub with_window_size : ℕ → AnomalyDetector → AnomalyDetector
with_window_size n d = record d { max_events = n }

abbrev pub with_sweep_threshold : ℕ → AnomalyDetector → AnomalyDetector
with_sweep_threshold x d = record d { sweep_threshold = x }

abbrev pub with_sweep_window : ℤ → AnomalyDetector → AnomalyDetector
with_sweep_window x d = record d { sweep_window = x }

abbrev pub with_rate_limit : ℕ → AnomalyDetector → AnomalyDetector
with_rate_limit x d = record d { rate_limit = x }

abbrev pub with_rate_window : ℤ → AnomalyDetector → AnomalyDetector
with_rate_window x d = record d { rate_window = x }

abbrev pub with_off_hours_start : ℕ → AnomalyDetector → AnomalyDetector
with_off_hours_start x d = record d { off_hours_start = x }

abbrev pub with_off_hours_end : ℕ → AnomalyDetector → AnomalyDetector
with_off_hours_end x d = record d { off_hours_end = x }

abbrev pub with_stale_threshold : ℕ → AnomalyDetector → AnomalyDetector
with_stale_threshold x d = record d { stale_days = x }

abbrev pub with_tool_chain_window : ℤ → AnomalyDetector → AnomalyDetector
with_tool_chain_window x d = record d { tool_chain_window = x }

abbrev pub with_tool_chain_field_threshold : ℕ → AnomalyDetector → AnomalyDetector
with_tool_chain_field_threshold x d = record d { tool_chain_threshold = x }
