-- ===== src/Base/Clock.antt =====
-- Readings of the clock and durations. A `time.Time` is a number of nanoseconds; a `time.Duration`
-- is an integer, written `pos n` or `negsuc n` (which is -(n + 1)).
use Prim.Native.Nat.{ℕ, suc, ◌+◌, ◌-◌}
use mathlib.Core.Bool.{Bool, true, false}
use mathlib.Core.Option.{Option, none, some}
use open_pass.Base.Tests.{ltb, leb, if◌then◌else◌}

pub data ℤ : Type 0 where
  pos : ℕ → ℤ
  negsuc : ℕ → ℤ

-- `d > 0`
abbrev pub is_positive : ℤ → Bool
is_positive (pos n) = ltb 0 n
is_positive (negsuc n) = false

-- `t.Add(d)`; times before the origin of the scale do not occur
abbrev pub add_duration : ℕ → ℤ → ℕ
add_duration t (pos n) = t + n
add_duration t (negsuc n) = t - suc n

-- `t.Sub(u)`
abbrev pub sub_time : ℕ → ℕ → ℤ
sub_time t u = if leb u t then pos (t - u) else negsuc (u - t - 1)

-- `if d < 0 { d = 0 }`
abbrev pub clamp_duration : ℤ → ℤ
clamp_duration (pos n) = pos n
clamp_duration (negsuc n) = pos 0

-- `now.After(*deadline)`, where a nil deadline never passes
abbrev pub passed : ℕ → Option ℕ → Bool
passed now none = false
passed now (some t) = ltb t now

-- the deadline that a positive time to live sets, and nil for any other
abbrev pub deadline : ℕ → ℤ → Option ℕ
deadline now ttl = if is_positive ttl then some (add_duration now ttl) else none

-- `a < b` on integers
abbrev pub ltz : ℤ → ℤ → Bool
ltz (pos a) (pos b) = ltb a b
ltz (pos a) (negsuc b) = false
ltz (negsuc a) (pos b) = true
ltz (negsuc a) (negsuc b) = ltb b a
