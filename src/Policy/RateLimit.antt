-- ===== src/Policy/RateLimit.antt =====
-- internal/policy/ratelimit.go: a token bucket and a daily count for each agent. The float64 numbers
-- are a parameter, and a call takes its reading of the clock.
pub mod Quota
use open_pass.Base.{
  ℕ, ◌+◌, String, Bool, true, false, Option, none, some, List, [], ◌&&◌, ltb, leb, if◌then◌else◌,
  is_some,
}
use open_pass.Base.Assoc.{Assoc, lookup, insert}
use open_pass.Base.Clock.{ℤ, pos, negsuc, is_positive, sub_time, ltz}

-- What the code uses of float64.
pub record FloatOps : Type 1 where
  pub Float : Type 0
  pub of_int : ℤ → Float
  pub seconds : ℤ → Float
  pub add : Float → Float → Float
  pub sub : Float → Float → Float
  pub mul : Float → Float → Float
  pub div : Float → Float → Float
  pub min_of : Float → Float → Float
  pub lt : Float → Float → Bool

-- `24*time.Hour`, in nanoseconds
abbrev pub day : ℕ
day = 86_400_000_000_000

-- `count >= limit`
abbrev pub reached : ℕ → ℤ → Bool
reached count (pos limit) = leb limit count
reached count (negsuc limit) = true

module _ (ops : FloatOps) where
  open ops use {Float, of_int, seconds, add, sub, mul, div, min_of, lt}

  pub record Bucket : Type 0 where
    pub tokens : Float
    pub capacity : Float
    pub refill_rate : Float
    pub last_refill : ℕ
    pub daily_count : ℕ
    pub daily_window_start : ℕ
    pub max_per_day : ℤ

  -- the refill at the start of `allow`
  pub refill : ℕ → Bucket → Bucket
  refill now b =
      let elapsed = seconds (sub_time now b.last_refill) in
      if lt (of_int (pos 0)) elapsed
      then record b {
        tokens = min_of b.capacity (add b.tokens (mul elapsed b.refill_rate));
        last_refill = now;
      }
      else b

  -- `now.Sub(b.dailyWindowStart) >= 24*time.Hour`
  abbrev pub window_over : ℕ → ℕ → Bool
  window_over now start = leb (start + day) now

  pub new_window : ℕ → Bucket → Bucket
  new_window now b =
      if is_positive b.max_per_day
      then (if window_over now b.daily_window_start
          then record b { daily_count = 0; daily_window_start = now }
          else b)
      else b

  pub take_token : Bucket → Bucket × Bool
  take_token b =
      if is_positive b.max_per_day && reached b.daily_count b.max_per_day
      then (b, false)
      else if lt b.tokens (of_int (pos 1))
      then (b, false)
      else (
        record b {
          tokens = sub b.tokens (of_int (pos 1));
          daily_count = if is_positive b.max_per_day then b.daily_count + 1 else b.daily_count;
        },
        true,
      )

  -- `(*bucket).allow`
  pub bucket_allow : ℕ → Bucket → Bucket × Bool
  bucket_allow now b = take_token (new_window now (refill now b))

  -- `AgentRateLimiter`
  abbrev pub Limiter : Type 0
  Limiter = Assoc Bucket

  abbrev allow_found : ℕ → String → Option Bucket → Limiter → Limiter × Bool
  allow_found now agent none rl = (rl, true)
  allow_found now agent (some b) rl =
      let (b', allowed) = bucket_allow now b in (insert agent b' rl, allowed)

  pub allow : ℕ → String → Limiter → Limiter × Bool
  unfolding bucket_allow
  allow now agent rl = allow_found now agent (lookup agent rl) rl

  -- `SetLimits`, with the two readings of the clock in its literal
  pub set_limits : ℕ → ℕ → String → ℤ → ℤ → Limiter → Limiter
  set_limits refill_now window_now agent hour per_day rl =
      insert agent
        (record {
          tokens = of_int hour;
          capacity = of_int hour;
          refill_rate = div (of_int hour) (of_int (pos 3600));
          last_refill = refill_now;
          daily_count = 0;
          daily_window_start = window_now;
          max_per_day = per_day;
        })
        rl

  pub has_limits : String → Limiter → Bool
  has_limits agent rl = is_some (lookup agent rl)

  pub cleanup : Limiter → Limiter
  cleanup rl = []
