-- ===== src/Approval/Examples.antt =====
-- Runs of the approval of an operation.

use open_pass.Base.{ℕ, String, true, false, ◌==◌, ◌≡◌, ◌⊎◌, refl, Option, none, some, List, []}
use open_pass.Base.Assoc.{lookup}
use open_pass.Authorize.{AgentProfile}
use open_pass.Approval.{
  can_remember, answered, Tty, TtyEvent, ApprovalError, parse_approval_response,
  parse_remember_response, answer_result, request_approval, ApprovalServer, Intent, approval_mode,
  timeout_of, prompt_approval, require_approval, invalidate_approval_cache,
}
use open_pass.Approval.Laws.{
  at_rest, do_events, IsLeft, IsRemembered, Approves, require_approval_sound,
}
use open_pass.Approval.Remembering.{require_approval_restores, invalidated_asks}
use open_pass.Approval.Terminal.{HasNoControl, strip_terminal_control, strip_terminal_control_lem}

abbrev same : String → String
same s = s

abbrev high_risk : String → ℕ
high_risk tool = 2

abbrev sample_tty : Tty
sample_tty = record {
  is_present = true;
  opens = true;
  raw_ok = true;
  prompt_ok = true;
  restore_ok = true;
  close_ok = true;
  reading = λ timeout. answered "r";
}

abbrev sample_agent : AgentProfile
sample_agent = record {
  name = "bot";
  approval_mode = some "prompt";
  require_approval = none;
  allowed_paths = [];
  redact_fields = [];
  can_write = none;
}

abbrev sample_server : ApprovalServer
sample_server = record {
  server = record {
    agent = some sample_agent;
    policy_engine = none;
    share_store = none;
    audit_log = some [];
  };
  approval_timeout = none;
  approval_cache = some [];
  key_counter = 0;
}

abbrev sample_intent : Intent
sample_intent = record { action = "delete_entry"; entry_path = "mail" }

abbrev call_sample : ApprovalServer → List TtyEvent × ApprovalServer × Option ApprovalError
call_sample = require_approval same same high_risk sample_tty sample_intent

passes : (call_sample sample_server).2 ≡ none
unfolding require_approval prompt_approval approval_mode can_remember lookup request_approval
    answer_result parse_approval_response parse_remember_response
passes = refl

require_approval_sound_example :
    ((approval_mode sample_agent == "deny") ≡ false)
    × (((approval_mode sample_agent == "prompt") ≡ false)
        ⊎ (IsRemembered same same high_risk sample_tty sample_intent sample_agent sample_server
            ⊎ Approves same sample_tty (timeout_of sample_server)))
require_approval_sound_example =
    require_approval_sound same same high_risk sample_tty sample_intent sample_server sample_agent
      refl passes

require_approval_restores_example :
    IsLeft sample_tty (do_events sample_tty (call_sample sample_server).0 at_rest)
require_approval_restores_example =
    require_approval_restores same same high_risk sample_tty sample_intent sample_server

is_prompting : approval_mode sample_agent ≡ "prompt"
unfolding approval_mode
is_prompting = refl

is_rememberable : can_remember 2 ≡ true
unfolding can_remember
is_rememberable = refl

is_remember_answer : parse_remember_response same "r" ≡ true
unfolding parse_remember_response
is_remember_answer = refl

passes_again : (call_sample (invalidate_approval_cache sample_server)).2 ≡ none
unfolding require_approval prompt_approval approval_mode can_remember lookup request_approval
    answer_result parse_approval_response parse_remember_response invalidate_approval_cache
passes_again = refl

invalidated_asks_example : Approves same sample_tty (timeout_of sample_server)
invalidated_asks_example =
    invalidated_asks same same high_risk sample_tty sample_intent sample_server sample_agent refl
      is_prompting passes_again

strip_terminal_control_lem_example :
    HasNoControl (strip_terminal_control "mail")
    × (HasNoControl "mail" → strip_terminal_control "mail" ≡ "mail")
strip_terminal_control_lem_example = strip_terminal_control_lem "mail"
