-- ===== src/Anomaly/Examples.antt =====
-- Runs of the detector on a few calls.
use open_pass.Base.{ℕ, ◌%◌, String, true, false, ◌≡◌, ◌↔◌, some, List, [], ◌∷◌, is_some, Any, arith}
use open_pass.Base.Clock.{pos}
use open_pass.Base.Slices.{last_n}
use open_pass.Anomaly.{
  ToolCallEvent, AnomalyDetector, new_detector, with_window_size, cutoff, runs_command,
  detect_tool_chain,
}
use open_pass.Anomaly.Window.{check_all, check_all_window}
use open_pass.Anomaly.Rules.{LargeRead, detect_tool_chain_iff}

abbrev call : ℕ → String → String → ℕ → ToolCallEvent
call time tool path size = record {
  timestamp = time;
  agent = "ci";
  tool = tool;
  path = path;
  duration = pos 1;
  ok = true;
  is_canary = false;
  request_id = "";
  field_length = size;
}

abbrev history : List ToolCallEvent
history = call 1 "get_entry" "a" 600 ∷ call 2 "list" "b" 0 ∷ call 3 "run_command" "" 0 ∷ []

unfoldable small_detector : AnomalyDetector
unfolding new_detector
small_detector = new_detector (with_window_size 2 ∷ [])

abbrev busy_detector : AnomalyDetector
busy_detector = record small_detector { events = history; sweep_threshold = 2 }

check_all_window_example :
    check_all (λ t. t % 24) history small_detector
    ≡ some (record small_detector { events = last_n 2 history })
unfolding small_detector
check_all_window_example =
    check_all_window (λ t. t % 24) history small_detector (omega arith, omega arith)

detect_tool_chain_iff_example :
    (is_some (detect_tool_chain busy_detector (call 3 "run_command" "" 0)) ≡ true) ↔ (
      (runs_command (call 3 "run_command" "" 0) ≡ true)
      × Any
          (LargeRead busy_detector "ci"
            (cutoff (call 3 "run_command" "" 0) busy_detector.tool_chain_window))
          history)
detect_tool_chain_iff_example =
    detect_tool_chain_iff busy_detector (call 3 "run_command" "" 0)
      ((omega arith, (omega arith, tt)), ((omega arith, tt), (tt, tt)))
