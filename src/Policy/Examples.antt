-- ===== src/Policy/Examples.antt =====
-- Runs of the policy engine and its parts on small inputs.
use Prim.Native.String
use open_pass.Base.{
  ℕ, ◌+◌, ◌-◌, ◌*◌, ◌/◌, ◌≤◌, ◌<◌, String, ◌≡◌, refl, true, Option, none, some, [], ◌∷◌, ◌==◌, ltb,
  leb, if◌then◌else◌, arith, inl, inr, Bool-cases,
}
use open_pass.Base.Clock.{pos, negsuc}
use open_pass.Policy.{allow, deny, TimeRange, Conditions, Rule, Policy, WallClock}
use open_pass.Policy.TimeOfDay.{ClockParser}
use open_pass.Policy.RateLimit.{FloatOps, Bucket}
use open_pass.Policy.RateLimit.Quota.{allow_all, allow_all-le}
use open_pass.Policy.Matching.{Paths}
use open_pass.Policy.Engine.{compile_all, new_engine, EvalContext, Readings, EvalState, evaluate}
use open_pass.Policy.Engine.Decision.{IsDecision, evaluate_decides}

abbrev pub sample_clock : ClockParser
sample_clock = record {
  parse = λ text.
      if text == "22:00" then some (22, 0) else if text == "06:00" then some (6, 0) else none;
}

sample_clock_in_range :
    (text : String) (p : ℕ × ℕ) → sample_clock.parse text ≡ some p → (p.0 < 24) × (p.1 < 60)
sample_clock_in_range text p h = elim (Bool-cases (text == "22:00")) [
  | inl e ↦ (ground (arith, h, e), ground (arith, h, e))
  | inr e ↦ elim (Bool-cases (text == "06:00")) [
    | inl f ↦ (ground (arith, h, e, f), ground (arith, h, e, f))
    | inr f ↦ absurd (ground (arith, h, e, f))
  ]
]

abbrev night : TimeRange
night = record { start = "22:00"; end = "06:00" }

abbrev pub half_past_one : WallClock
half_past_one = record { hour = 1; minute = 30; second = 0 }

abbrev unconditional : Conditions
unconditional = record {
  agent_id = "";
  path = "";
  tags = [];
  working_dir = "";
  time_of_day = none;
  env_vars = [];
  action_type = "";
  rate_limit = none;
  allowed_tools = [];
  max_secrets = pos 0;
}

abbrev catch_all : Rule
catch_all = record { name = "rest"; priority = pos 0; conditions = unconditional; action = deny }

abbrev reads : Rule
reads = record {
  name = "reads";
  priority = pos 5;
  conditions = record unconditional { action_type = "read"; time_of_day = some night };
  action = allow;
}

abbrev pub sample_policy : Policy
sample_policy = record { version = "1"; description = ""; rules = catch_all ∷ reads ∷ [] }

abbrev pub sample_ops : FloatOps
sample_ops = record {
  Float = ℕ;
  of_int = λ z. elim z [ pos n ↦ n | negsuc n ↦ 0 ];
  seconds = λ z. elim z [ pos n ↦ n / 1_000_000_000 | negsuc n ↦ 0 ];
  add = λ a b. a + b;
  sub = λ a b. a - b;
  mul = λ a b. a * b;
  div = λ a b. a / b;
  min_of = λ a b. if leb a b then a else b;
  lt = λ a b. ltb a b;
}

abbrev sample_bucket : Bucket sample_ops
sample_bucket = record {
  tokens = 7;
  capacity = 7;
  refill_rate = 1;
  last_refill = 0;
  daily_count = 1;
  daily_window_start = 0;
  max_per_day = pos 2;
}

allow_all-le_example : (allow_all sample_ops (5 ∷ 6 ∷ 7 ∷ []) sample_bucket).1 + 1 ≤ 2
allow_all-le_example =
    allow_all-le sample_ops (5 ∷ 6 ∷ 7 ∷ []) 2 sample_bucket refl (omega arith) (omega arith)
      (omega arith, (omega arith, (omega arith, tt)))

abbrev pub sample_paths : Paths
sample_paths = record {
  clean = λ p. p;
  glob = λ pattern path. some (pattern == path);
  home = some "/home/me";
  join = λ a b. String.◌++◌ a (String.◌++◌ "/" b);
  trim_space = λ p. p;
}

abbrev text_or : Option String → String
text_or none = ""
text_or (some text) = text

abbrev sample_context : EvalContext
sample_context = record {
  agent_id = "bot";
  path = "db/pass";
  tags = [];
  working_dir = "";
  env_vars = [];
  action_type = "read";
  tool_name = "";
  now = some half_past_one;
  secrets_accessed = 0;
  audited = true;
}

abbrev start_state : EvalState sample_paths sample_clock 2 sample_ops
start_state = record { limiter = none; log = [] }

abbrev no_readings : ℕ → Readings
no_readings i = record { refill_now = 0; window_now = 0; allow_now = 0 }

evaluate_decides_example :
    IsDecision sample_paths sample_clock 2 sample_context half_past_one
      (compile_all sample_paths (sample_policy ∷ []))
      (evaluate sample_paths sample_clock 2 sample_ops no_readings half_past_one
        (new_engine sample_paths (sample_policy ∷ []))
        sample_context
        start_state).1
evaluate_decides_example =
    evaluate_decides sample_paths sample_clock 2 sample_ops (sample_policy ∷ []) sample_context
      no_readings half_past_one start_state refl
