-- ===== src/Anomaly/Sweep.antt =====
-- internal/anomaly/rules.go: `detectSweep` counts the different paths in its window of time.
use open_pass.Base.{
  ℕ, suc, ◌≤◌, String, Bool, true, false, ◌==◌, ◌||◌, ◌≡◌, refl, ◌↔◌, inl, inr, List, [], ◌∷◌,
  if◌then◌else◌, ltb, leb, is_some, length, Bool-cases, arith, All, Any, any,
}
use text.Mathlib.TextEquality.{eq_iff}
use text.Mathlib.TextPositions.{eq_refl}
use open_pass.Anomaly.{ToolCallEvent, AnomalyDetector, cutoff, add_path, seen_paths, detect_sweep}

abbrev pub member : String → List String → Bool
member p paths = any (λ q. q == p) paths

-- All different.
abbrev pub NoDup : List String → Type 0
NoDup [] = Unit
NoDup (p ∷ paths) = (member p paths ≡ false) × NoDup paths

-- A path that is not empty, of an event since an instant.
abbrev pub Visited : ℕ → List ToolCallEvent → String → Type 0
Visited from events p =
    Any (λ e. (from ≤ e.timestamp) × ((e.path == "") ≡ false) × (e.path ≡ p)) events

abbrev without : String → List String → List String
without p [] = []
without p (q ∷ paths) = if q == p then paths else q ∷ without p paths

length-without :
    (p : String) (paths : List String)
    → member p paths ≡ true
    → suc (length (without p paths)) ≡ length paths
length-without p [] h = absurd (ground (arith, h))
length-without p (q ∷ paths) h = elim (Bool-cases (q == p)) [
  | inl e ↦ rw e refl
  | inr e ↦ rw e (let r = length-without p paths (rw e at h) in omega (arith, r))
]

member-without :
    (p r : String) (paths : List String)
    → (r == p) ≡ false
    → member r paths ≡ true
    → member r (without p paths) ≡ true
member-without p r [] n h = h
member-without p r (q ∷ paths) n h = elim (Bool-cases (q == p)) [
  | inl e ↦
      let miss : (q == r) ≡ false = ground (arith, e, n, eq_iff q p, eq_iff q r, eq_iff r p) in
      rw e (rw miss at h)
  | inr e ↦ elim (Bool-cases (q == r)) [
    | inl s ↦ rw (e, s) refl
    | inr s ↦ rw (e, s) (member-without p r paths n (rw s at h))
  ]
]

All-without :
    (p : String) (ps qs : List String)
    → member p ps ≡ false
    → All (λ r. member r qs ≡ true) ps
    → All (λ r. member r (without p qs) ≡ true) ps
All-without p [] qs n h = tt
All-without p (r ∷ ps) qs n (m, h) = elim (Bool-cases (r == p)) [
  | inl e ↦ absurd (ground (arith, e, n))
  | inr e ↦ (member-without p r qs e m, All-without p ps qs (rw e at n) h)
]

-- Different members of a list are no more than the list has.
pigeonhole :
    (ps qs : List String) → NoDup ps → All (λ r. member r qs ≡ true) ps → length ps ≤ length qs
pigeonhole [] qs d h = omega arith
pigeonhole (p ∷ ps) qs (n, d) (m, h) =
    let rest = pigeonhole ps (without p qs) d (All-without p ps qs n h) in
    let size = length-without p qs m in omega (arith, rest, size)

add_path-NoDup : (p : String) (seen : List String) → NoDup seen → NoDup (add_path p seen)
add_path-NoDup p seen d = elim (Bool-cases (p == "")) [
  | inl e ↦ rw e d
  | inr e ↦ elim (Bool-cases (member p seen)) [ inl m ↦ rw (e, m) d | inr m ↦ rw (e, m) (m, d) ]
]

seen_paths-NoDup : (from : ℕ) (es : List ToolCallEvent) → NoDup (seen_paths from es)
unfolding seen_paths
seen_paths-NoDup from [] = tt
seen_paths-NoDup from (e ∷ es) = elim (Bool-cases (ltb e.timestamp from)) [
  | inl old ↦ rw old (seen_paths-NoDup from es)
  | inr new ↦ rw new (add_path-NoDup e.path (seen_paths from es) (seen_paths-NoDup from es))
]

seen_paths_sound :
    (from : ℕ) (es : List ToolCallEvent) (p : String)
    → member p (seen_paths from es) ≡ true
    → Visited from es p
unfolding seen_paths
seen_paths_sound from [] p h = absurd (ground (arith, h))
seen_paths_sound from (e ∷ es) p h = elim (Bool-cases (ltb e.timestamp from)) [
  | inl old ↦ Any.there (seen_paths_sound from es p (rw old at h))
  | inr new ↦ elim (Bool-cases (e.path == "" || member e.path (seen_paths from es))) [
    | inl skip ↦ Any.there (seen_paths_sound from es p (rw (new, skip) at h))
    | inr add ↦ elim (Bool-cases (e.path == p)) [
      | inl s ↦
          Any.here (ground (arith, new), ground (arith, add), ground (arith, s, eq_iff e.path p))
      | inr s ↦ Any.there (seen_paths_sound from es p (rw (new, add, s) at h))
    ]
  ]
]

add_path_keeps :
    (p q : String) (seen : List String) → member p seen ≡ true → member p (add_path q seen) ≡ true
add_path_keeps p q seen h = elim (Bool-cases (q == "" || member q seen)) [
  | inl skip ↦ rw skip h
  | inr add ↦ rw add (ground (arith, h))
]

add_path_adds :
    (p : String) (seen : List String) → (p == "") ≡ false → member p (add_path p seen) ≡ true
add_path_adds p seen n = elim (Bool-cases (member p seen)) [
  | inl m ↦ rw (n, m) m
  | inr m ↦ rw (n, m, eq_refl p) refl
]

seen_paths_complete :
    (from : ℕ) (es : List ToolCallEvent) (p : String)
    → Visited from es p
    → member p (seen_paths from es) ≡ true
unfolding seen_paths
seen_paths_complete from [] p h = elim h [ ]
seen_paths_complete from (e ∷ es) p (Any.here (t, n, q)) =
    let new : ltb e.timestamp from ≡ false = ground (arith, t) in
    rw (new, q) (add_path_adds p (seen_paths from es) (rw q at n))
seen_paths_complete from (e ∷ es) p (Any.there h) =
    let rest = seen_paths_complete from es p h in
    elim (Bool-cases (ltb e.timestamp from)) [
      | inl old ↦ rw old rest
      | inr new ↦ rw new (add_path_keeps p e.path (seen_paths from es) rest)
    ]

All-member :
    (P : String → Type 0) (paths : List String)
    → ((p : String) → member p paths ≡ true → P p)
    → All P paths
All-member P [] h = tt
All-member P (p ∷ paths) h =
    (h p (rw (eq_refl p) refl), All-member P paths (λ q m. h q (ground (arith, m))))

All-map :
    (P Q : String → Type 0) (paths : List String)
    → ((p : String) → P p → Q p)
    → All P paths
    → All Q paths
All-map P Q [] f h = tt
All-map P Q (p ∷ paths) f (a, h) = (f p a, All-map P Q paths f h)

-- A call with a path raises the alert of a sweep exactly when at least as many different paths as the
-- threshold were accessed within the window of time.
detect_sweep_iff :
    (d : AnomalyDetector) (event : ToolCallEvent)
    → (event.path == "") ≡ false
    → (is_some (detect_sweep d event) ≡ true) ↔ (
        (paths : List String) × NoDup paths
        × (d.sweep_threshold ≤ length paths)
        × All (Visited (cutoff event d.sweep_window) d.events) paths)
unfolding detect_sweep
detect_sweep_iff d event n =
    let from = cutoff event d.sweep_window in
    let seen = seen_paths from d.events in
    rw n (
      λ h. (
        seen,
        seen_paths-NoDup from d.events,
        ground (arith, h),
        All-member (Visited from d.events) seen (seen_paths_sound from d.events),
      ),
      λ (paths, dup, enough, all).
          let fits = pigeonhole paths seen dup (
            All-map (Visited from d.events) (λ p. member p seen ≡ true) paths
              (seen_paths_complete from d.events) all) in
          let reached : leb d.sweep_threshold (length seen) ≡ true = ground (arith, enough, fits) in
          rw reached refl,
    )
