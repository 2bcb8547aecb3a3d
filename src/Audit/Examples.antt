-- ===== src/Audit/Examples.antt =====
-- Runs of the audit log on the sample encoding.

use open_pass.Base.{
  String, true, ◌≡◌, refl, ◌↔◌, Option, none, some, List, [], ◌∷◌, if◌then◌else◌, ltb, length,
}
use open_pass.Base.Clock.{pos, negsuc}
use open_pass.Base.Text.{join, text_length, split_on, contains_char}
use open_pass.Base.Text.Lines.{written}
use open_pass.GrantId.Examples.{encode, decode}
use open_pass.Base.Slices.{last_n}
use open_pass.Audit.{
  LogEntry, VerifyResult, done, chain_digest, compute_hmac, verify_entry, verify_entries,
  scan_entries, scanned, parse_lines, verify_log,
}
use open_pass.Audit.Logger.{Logger, Outcome, wrote, stopped, log_entry, log_all}
use open_pass.Audit.Chain.{Chained}
use open_pass.Audit.Acceptance.{verify_log_iff}
use open_pass.Audit.Writing.{all_verified, verify-log_all}
use open_pass.Audit.Tail.{last_n_entries, read_last_hmac, last_hmac}
use open_pass.Audit.Tail.Laws.{entries_of, last_n_entries_lem}
use open_pass.Audit.Tail.Digest.{ending_with, read_last_hmac_lem}
use open_pass.Audit.Sample.{sample_library, sample-Laws, escape, escape_all, unescape, tally_text}

abbrev sample_entry : String → LogEntry
sample_entry action = record {
  timestamp = "t";
  agent = "ci";
  action = action;
  path = "";
  field = "";
  transport = "";
  reason = "";
  share_id = "";
  from_agent = "";
  to_agent = "";
  share_action = "";
  dur_ms = pos 0;
  token_id = "";
  request_id = "";
  session_id = "";
  hmac = "";
  ok = true;
}

abbrev fresh_logger : Logger
fresh_logger = record { file = some ""; hmac_key = "k"; prev_hmac = "" }

abbrev works : Outcome
works = record { clock = "t"; writing = wrote; sync_ok = true }

abbrev fails : Outcome
fails = record works { writing = stopped "" }

abbrev sample_calls : List (Outcome × LogEntry)
sample_calls =
    (works, sample_entry "get") ∷ (fails, sample_entry "list") ∷ (works, sample_entry "set") ∷ []

abbrev text_or_empty : Option String → String
text_or_empty none = ""
text_or_empty (some s) = s

unfoldable sample_file : String
unfolding log_entry compute_hmac chain_digest escape escape_all tally_text encode
sample_file = text_or_empty (log_all sample_library sample_calls fresh_logger).file

verify-log_all_example :
    verify_log sample_library (some sample_file) "k"
    ≡ done (all_verified (length (scan_entries sample_library sample_file)))
unfolding sample_file log_entry compute_hmac chain_digest escape escape_all tally_text encode
    split_on text_length contains_char written parse_lines decode
verify-log_all_example =
    verify-log_all sample_library (λ e. true) sample-Laws sample_calls fresh_logger sample_file
      ((tt, refl), ((refl, refl), ((tt, refl), tt))) refl ([], refl, tt, tt, refl) refl
      (refl, (refl, (refl, tt)))

abbrev plain_line : String
plain_line = "xtz.xcxiz.xgxextz.z.z.z.z.z.z.z.z.xpz.z.z.z.z.xtz."

abbrev plain_file : String
plain_file = join plain_line "\n"

abbrev plain_result : VerifyResult
plain_result = record {
  valid = true;
  total = 1;
  verified = 0;
  legacy = 1;
  tampered = 0;
  first_bad_idx = negsuc 0;
}

verify_log_iff_example :
    (plain_result.valid ≡ true) × (plain_result.legacy ≡ 0)
    ↔ Chained sample_library "k" "" (scan_entries sample_library plain_file)
unfolding scanned parse_lines split_on text_length unescape verify_entry verify_entries verify_log
verify_log_iff_example =
    verify_log_iff sample_library sample-Laws.hex "k" plain_file plain_result refl

last_n_entries_lem_example :
    last_n_entries sample_library 1 sample_file
    ≡ some (last_n 1 (entries_of sample_library sample_file))
last_n_entries_lem_example = last_n_entries_lem sample_library refl 1 sample_file

read_last_hmac_lem_example : read_last_hmac sample_library (some (ending_with "a" plain_line)) ≡ (
    if ltb 4094 (text_length plain_line)
    then some ""
    else last_hmac sample_library (some plain_line))
unfolding contains_char
read_last_hmac_lem_example = read_last_hmac_lem sample_library refl "a" plain_line refl refl
