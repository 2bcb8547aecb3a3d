-- ===== src/Policy.antt =====
-- internal/policy/types.go: policies, rules and their conditions. What Go's time package makes of a
-- clock text is a parameter; a wall clock time is its hour, minute and second.
pub mod TimeOfDay
pub mod Validation
pub mod RateLimit
pub mod Matching
pub mod Engine
pub mod Examples
use open_pass.Base.{
  ℕ, ◌+◌, ◌*◌, String, Bool, true, false, Option, none, some, List, [], ◌∷◌, ◌==◌, ◌||◌,
  if◌then◌else◌,
}
use open_pass.Base.Assoc.{Assoc}
use open_pass.Base.Clock.{ℤ}

-- `Action`, a text in the source: the four known ones, and any other text
pub data Action : Type 0 where
  allow deny prompt require_biometry : Action
  other : String → Action

abbrev pub is_valid_action : Action → Bool
is_valid_action allow = true
is_valid_action deny = true
is_valid_action prompt = true
is_valid_action require_biometry = true
is_valid_action (other text) = false

pub record TimeRange : Type 0 where
  pub start : String
  pub end : String

pub record RateLimitCondition : Type 0 where
  pub max_reads_per_hour : ℤ
  pub max_reads_per_day : ℤ

pub record Conditions : Type 0 where
  pub agent_id : String
  pub path : String
  pub tags : List String
  pub working_dir : String
  pub time_of_day : Option TimeRange
  pub env_vars : Assoc String
  pub action_type : String
  pub rate_limit : Option RateLimitCondition
  pub allowed_tools : List String
  pub max_secrets : ℤ

pub record Rule : Type 0 where
  pub name : String
  pub priority : ℤ
  pub conditions : Conditions
  pub action : Action

pub record Policy : Type 0 where
  pub version : String
  pub description : String
  pub rules : List Rule

-- A wall clock reading, and its seconds since midnight.
pub record WallClock : Type 0 where
  pub hour : ℕ
  pub minute : ℕ
  pub second : ℕ

abbrev pub seconds_of : ℕ → ℕ → ℕ → ℕ
seconds_of hour minute second = (hour * 60 + minute) * 60 + second

-- `Result` of an evaluation
pub record Outcome : Type 0 where
  pub action : Action
  pub rule_name : String
  pub matched : Bool

unfoldable pub default_result : Outcome
default_result = record { action = deny; rule_name = ""; matched = false }
