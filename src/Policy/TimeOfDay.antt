-- ===== src/Policy/TimeOfDay.antt =====
-- internal/policy/types.go: `TimeRange.Parse` and `TimeRange.Contains`
use Prim.Native.Nat.{◌%◌}
use open_pass.Base.{
  ℕ, ◌+◌, ◌-◌, ◌<◌, String, ◌≡◌, Bool, false, Option, none, some, ◌&&◌, ◌||◌, ltb, eqb,
  if◌then◌else◌, arith, inl, inr, Option-cases,
}
use open_pass.Policy.{TimeRange, WallClock, seconds_of}

-- `time.Parse("15:04", text)`: an hour and a minute, or an error
pub record ClockParser : Type 0 where
  pub parse : String → Option (ℕ × ℕ)

-- The length of a range on the clock's circle, the whole day if its ends are one.
abbrev pub span : ℕ → ℕ → ℕ
span start end = if eqb start end then 86_400 else (end + 86_400 - start) % 86_400

-- The tests of `Contains` on seconds since midnight, and the position on the circle.
on_circle :
    (now start end : ℕ)
    → now < 86_400
    → start < 86_400
    → end < 86_400
    → (if ltb end start || eqb end start
        then (eqb now start || ltb start now) || ltb now end
        else (eqb now start || ltb start now) && ltb now end)
      ≡ ltb ((now + 86_400 - start) % 86_400) (span start end)
on_circle now start end a b c = ground arith

in_day :
    (hour minute second : ℕ)
    → hour < 24
    → minute < 60
    → second < 60
    → seconds_of hour minute second < 86_400
in_day hour minute second h m s = omega arith

module _ (clock : ClockParser) where
  abbrev both : Option (ℕ × ℕ) → Option (ℕ × ℕ) → Option ((ℕ × ℕ) × (ℕ × ℕ))
  both none end = none
  both (some s) none = none
  both (some s) (some e) = some (s, e)

  unfoldable pub parse_range : TimeRange → Option ((ℕ × ℕ) × (ℕ × ℕ))
  parse_range r = both (clock.parse r.start) (clock.parse r.end)

  abbrev contains_parsed : Option ((ℕ × ℕ) × (ℕ × ℕ)) → WallClock → Bool
  contains_parsed none t = false
  contains_parsed (some p) t =
      let now = seconds_of t.hour t.minute t.second in
      let start = seconds_of p.0.0 p.0.1 0 in
      let end = seconds_of p.1.0 p.1.1 0 in
      if ltb end start || eqb end start
      then (eqb now start || ltb start now) || ltb now end
      else (eqb now start || ltb start now) && ltb now end

  unfoldable pub contains : TimeRange → WallClock → Bool
  unfolding parse_range
  contains r t = contains_parsed (parse_range r) t

  -- A range holds the instants that follow its start, round the clock, by less than its length: also
  -- where it runs over midnight, and all day where its ends are one. A range that does not parse
  -- holds none.
  contains_iff :
      (r : TimeRange) (t : WallClock)
      → t.hour < 24
      → t.minute < 60
      → t.second < 60
      → ((text : String) (p : ℕ × ℕ) → clock.parse text ≡ some p → (p.0 < 24) × (p.1 < 60))
      → contains r t ≡ (elim (parse_range r) [
        | none ↦ false
        | some p ↦
            let start = seconds_of p.0.0 p.0.1 0 in
            ltb
              ((seconds_of t.hour t.minute t.second + 86_400 - start) % 86_400)
              (span start (seconds_of p.1.0 p.1.1 0))
      ])
  unfolding contains
  contains_iff r t h m s ranges = elim (Option-cases (clock.parse r.start)) [
    | inl e ↦ rw e
    | inr (p, e) ↦ elim (Option-cases (clock.parse r.end)) [
      | inl f ↦ rw (e, f)
      | inr (q, f) ↦
          rw (e, f)
            (on_circle (seconds_of t.hour t.minute t.second) (seconds_of p.0 p.1 0)
              (seconds_of q.0 q.1 0) (in_day t.hour t.minute t.second h m s)
              (in_day p.0 p.1 0 (ranges r.start p e).0 (ranges r.start p e).1 (omega arith))
              (in_day q.0 q.1 0 (ranges r.end q f).0 (ranges r.end q f).1 (omega arith)))
    ]
  ]
