-- ===== src/Policy/RateLimit/Quota.antt =====
-- How many reads a bucket allows.
use open_pass.Base.{ℕ, ◌+◌, ◌≤◌, ◌<◌, ◌≡◌, ap, ◌∙◌, List, [], ◌∷◌, if◌then◌else◌, arith, All}
use open_pass.Base.Clock.{pos}
use open_pass.Policy.RateLimit.{FloatOps, Bucket, bucket_allow, refill, new_window, take_token, day}

module _ (ops : FloatOps) where
  -- The calls of `allow` at the given readings: the bucket after them, and how many were allowed.
  pub allow_all : List ℕ → Bucket ops → Bucket ops × ℕ
  allow_all [] b = (b, 0)
  allow_all (now ∷ later) b =
      let (b', allowed) = bucket_allow ops now b in
      let (b'', n) = allow_all later b' in (b'', if allowed then n + 1 else n)

  refill_keeps :
      (now : ℕ) (b : Bucket ops)
      → ((refill ops now b).max_per_day ≡ b.max_per_day)
        × ((refill ops now b).daily_window_start ≡ b.daily_window_start)
        × ((refill ops now b).daily_count ≡ b.daily_count)
  unfolding refill
  refill_keeps now b = ground arith

  module _ (now limit : ℕ) (b : Bucket ops) (m : b.max_per_day ≡ pos limit) (p : 0 < limit) where
    new_window_same : now < b.daily_window_start + day → new_window ops now b ≡ b
    unfolding new_window
    new_window_same w = rw m (ground arith)

    new_window_new :
        b.daily_window_start + day ≤ now
        → ((new_window ops now b).max_per_day ≡ pos limit)
          × ((new_window ops now b).daily_window_start ≡ now)
          × ((new_window ops now b).daily_count ≡ 0)
    unfolding new_window
    new_window_new w = ground (arith, m)

    take_token_counts :
        b.daily_count ≤ limit
        → ((take_token ops b).0.max_per_day ≡ pos limit)
          × ((take_token ops b).0.daily_window_start ≡ b.daily_window_start)
          × ((take_token ops b).0.daily_count ≤ limit)
          × ((take_token ops b).0.daily_count
              ≡ (if (take_token ops b).1 then b.daily_count + 1 else b.daily_count))
    unfolding take_token
    take_token_counts c = ground (arith, m)

  one_call :
      (now limit : ℕ) (b : Bucket ops)
      → b.max_per_day ≡ pos limit
      → 0 < limit
      → now < b.daily_window_start + day
      → b.daily_count ≤ limit
      → ((bucket_allow ops now b).0.max_per_day ≡ pos limit)
        × ((bucket_allow ops now b).0.daily_window_start ≡ b.daily_window_start)
        × ((bucket_allow ops now b).0.daily_count ≤ limit)
        × ((bucket_allow ops now b).0.daily_count
            ≡ (if (bucket_allow ops now b).1 then b.daily_count + 1 else b.daily_count))
  unfolding bucket_allow
  one_call now limit b m p w c =
      let (same_max, same_start, same_count) = refill_keeps now b in
      let m' : (refill ops now b).max_per_day ≡ pos limit = same_max ∙ m in
      let (a, b', c', d) = take_token_counts now limit (refill ops now b) m' p (omega arith) in
      rw (new_window_same now limit (refill ops now b) m' p (omega arith)) (
        a,
        b' ∙ same_start,
        c',
        d ∙ ap (λ n. if (take_token ops (refill ops now b)).1 then n + 1 else n) same_count,
      )

  -- Within one daily window of a bucket with a daily limit, the calls allowed from now on and those
  -- counted before are together at most the limit, whatever the token bucket and the clock do.
  pub allow_all-le :
      (times : List ℕ) (limit : ℕ) (b : Bucket ops)
      → b.max_per_day ≡ pos limit
      → 0 < limit
      → b.daily_count ≤ limit
      → All (λ now. now < b.daily_window_start + day) times
      → (allow_all times b).1 + b.daily_count ≤ limit
  unfolding allow_all
  allow_all-le [] limit b m p c w = omega arith
  allow_all-le (now ∷ later) limit b m p c (w, ws) =
      let (m', start, c', count) = one_call now limit b m p w c in
      let ih = allow_all-le later limit (bucket_allow ops now b).0 m' p c' (rw start ws) in
      ground (arith, ih, count)

  -- A bucket that starts a new day has its whole daily limit again, less the call that starts it.
  new_day_resets :
      (now limit : ℕ) (b : Bucket ops)
      → b.max_per_day ≡ pos limit
      → 0 < limit
      → b.daily_window_start + day ≤ now
      → ((bucket_allow ops now b).0.daily_window_start ≡ now)
        × ((bucket_allow ops now b).0.daily_count ≤ 1)
  unfolding bucket_allow
  new_day_resets now limit b m p w =
      let (same_max, same_start, same_count) = refill_keeps now b in
      let m' : (refill ops now b).max_per_day ≡ pos limit = same_max ∙ m in
      let (x, y, z) = new_window_new now limit (refill ops now b) m' p (omega arith) in
      let (u, v, _, t) =
        take_token_counts now limit (new_window ops now (refill ops now b)) x p (omega arith) in
      (v ∙ y, ground (arith, t, z))
