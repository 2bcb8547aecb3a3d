-- ===== src/Quotas/Laws.antt =====
-- internal/quotas/counter.go: what the counters count.
use open_pass.Base.{
  String, Bool, true, false, ◌==◌, ◌≡◌, refl, sym, ap, ◌∙◌, subst, [], All, inl, inr, Option, none,
  some, if◌then◌else◌, Bool-cases, Option-cases, arith,
}
use open_pass.Base.Assoc.{Assoc, lookup, insert, lookup-insert, All-insert}
use open_pass.Base.Clock.{ℤ, pos, is_positive, ltz}
use open_pass.Quotas.{
  Json, QuotaCounter, Faults, WriteOutcome, wrote, stopped, write_raw, finish_write, succ, or_zero,
  write, read_text, counters_of, increment, increment_open, check,
}

-- encoding/json: a map whose keys are valid UTF-8 (`is_text`) is marshalled to a text that is not empty,
-- and that parses to a map with the same counters; every key that is parsed is valid.
pub record JsonLaws (json : Json) (is_text : String → Bool) : Type 0 where
  pub reads_back :
      (m : Assoc ℤ) (text : String)
      → All (λ p. is_text p.0 ≡ true) m
      → json.marshal m ≡ some text
      → ((text == "") ≡ false)
        × ((n : Assoc ℤ) × (json.unmarshal text ≡ some (some n))
            × ((tool : String) → lookup tool n ≡ lookup tool m))
  pub parsed_text :
      (text : String) (m : Assoc ℤ)
      → json.unmarshal text ≡ some (some m)
      → All (λ p. is_text p.0 ≡ true) m

abbrev counted : String → Option (Assoc ℤ) → Option ℤ
counted tool none = none
counted tool (some m) = some (or_zero (lookup tool m))

-- The count of a tool in a file, where it can be read.
abbrev pub count_in : Json → String → Option String → Option ℤ
count_in json tool none = none
count_in json tool (some text) = counted tool (read_text json text)

finish_write_done :
    (w : WriteOutcome) (synced : Bool) (text : String)
    → (finish_write w synced text).1 ≡ true
    → (finish_write w synced text).0 ≡ text
finish_write_done wrote synced text h = refl
finish_write_done (stopped left) synced text h = absurd (ground (arith, h))

write_raw_done :
    (o : Faults) (old text : String)
    → (write_raw o old (some text)).1 ≡ true
    → (write_raw o old (some text)).0 ≡ text
write_raw_done o old text h = elim (Bool-cases o.truncate_ok) [
  | inr e ↦ absurd (ground (arith, rw e at h))
  | inl e ↦ elim (Bool-cases o.seek_ok) [
    | inr s ↦ absurd (ground (arith, rw (e, s) at h))
    | inl s ↦ rw (e, s) (finish_write_done o.writing o.sync_ok text (rw (e, s) at h))
  ]
]

pick :
    (c : ℤ) (found : Option ℤ) (old : Option ℤ) (b : Bool)
    → old ≡ some (or_zero found)
    → some (or_zero (if b then some c else found)) ≡ (if b then some c else old)
pick c found old true h = refl
pick c found old false h = sym h

the_map : (n m : Assoc ℤ) → some n ≡ some m → n ≡ m
the_map n m h = cc

module _ (json : Json) (is_text : String → Bool) (laws : JsonLaws json is_text) where
  write_done :
      (o : Faults) (old : String) (m : Assoc ℤ)
      → (write json o old m).1 ≡ true
      → (text : String) × (json.marshal m ≡ some text) × ((write json o old m).0 ≡ text)
  write_done o old m h = elim (Option-cases (json.marshal m)) [
    | inl e ↦ absurd (ground (arith, rw e at h))
    | inr (text, e) ↦ (text, e, rw e (write_raw_done o old text (rw e at h)))
  ]

  -- a marshalled file reads back with the same counters
  read_back :
      (m : Assoc ℤ) (text tool : String)
      → All (λ p. is_text p.0 ≡ true) m
      → json.marshal m ≡ some text
      → count_in json tool (some text) ≡ some (or_zero (lookup tool m))
  unfolding read_text
  read_back m text tool keys e =
      let (nonempty, (n, parses, same)) = laws.reads_back m text keys e in
      let reads : read_text json text ≡ some n = rw (nonempty, parses) refl in
      ap (counted tool) reads ∙ ap (λ o. some (or_zero o)) (same tool)

  -- Every key that is read from a file is valid.
  read_keys :
      (text : String) (m : Assoc ℤ) → read_text json text ≡ some m → All (λ p. is_text p.0 ≡ true) m
  unfolding read_text
  read_keys text m h = elim (Bool-cases (text == "")) [
    | inl e ↦ subst (All (λ p. is_text p.0 ≡ true)) (the_map [] m (rw e at h)) tt
    | inr e ↦ parsed_keys (json.unmarshal text) refl (rw e at h)
  ]
    where
      parsed_keys :
          (o : Option (Option (Assoc ℤ)))
          → json.unmarshal text ≡ o
          → counters_of json o ≡ some m
          → All (λ p. is_text p.0 ≡ true) m
      parsed_keys none q k = absurd (ground (arith, k))
      parsed_keys (some none) q k = subst (All (λ p. is_text p.0 ≡ true)) (the_map [] m k) tt
      parsed_keys (some (some n)) q k =
          subst (All (λ p. is_text p.0 ≡ true)) (the_map n m k) (laws.parsed_text text n q)

  -- What a successful Increment went through.
  increment_done :
      (o : Faults) (tool : String) (file : Option String) (c : ℤ)
      → (increment_open json o tool file).1 ≡ some c
      → (old : String) × (m : Assoc ℤ) × (file ≡ some old)
        × (read_text json old ≡ some m)
        × (c ≡ succ (or_zero (lookup tool m)))
        × ((write json o old (insert tool c m)).1 ≡ true)
        × ((increment_open json o tool file).0.file ≡ some (write json o old (insert tool c m)).0)
  increment_done o tool none c h = absurd (ground (arith, h))
  increment_done o tool (some old) c h = elim (Bool-cases o.lock_ok) [
    | inr e ↦ absurd (ground (arith, rw e at h))
    | inl e ↦ elim (Bool-cases o.read_ok) [
      | inr r ↦ absurd (ground (arith, rw (e, r) at h))
      | inl r ↦ elim (Option-cases (read_text json old)) [
        | inl n ↦ absurd (ground (arith, rw (e, r, n) at h))
        | inr (m, n) ↦
            let d = succ (or_zero (lookup tool m)) in
            elim (Bool-cases (write json o old (insert tool d m)).1) [
              | inr w ↦ absurd (ground (arith, rw (e, r, n, w) at h))
              | inl w ↦
                  let same : d ≡ c = ground (arith, rw (e, r, n, w) at h) in
                  (
                    old,
                    m,
                    refl,
                    n,
                    sym same,
                    rw (sym same) w,
                    rw (e, r, n) (ap (λ k. some (write json o old (insert tool k m)).0) same),
                  )
            ]
      ]
    ]
  ]

  -- A successful Increment for a tool whose name is valid UTF-8 returns the count in the file plus one,
  -- in 64 bits, and the file then has that count for the tool and for every other tool the count it had.
  pub increment_counts :
      (o : Faults) (tool other : String) (qc : QuotaCounter) (c : ℤ)
      → is_text tool ≡ true
      → (increment json o tool qc).1 ≡ some c
      → (old : ℤ) × (count_in json tool qc.file ≡ some old)
        × (c ≡ succ old)
        × (count_in json other (increment json o tool qc).0.file
            ≡ (if tool == other then some c else count_in json other qc.file))
  unfolding increment
  increment_counts o tool other qc c valid h =
      let (old, m, f, r, e, w, g) = increment_done o tool qc.file c h in
      let (text, t, q) = write_done o old (insert tool c m) w in
      let keys = All-insert (λ p. is_text p.0 ≡ true) tool c m valid (read_keys old m r) in
      let back = read_back (insert tool c m) text other keys t in
      let was = λ (t : String). ap (count_in json t) f ∙ ap (counted t) r in
      (
        or_zero (lookup tool m),
        was tool,
        e,
        ap (count_in json other) (g ∙ ap some q)
            ∙ back
            ∙ ap (λ o. some (or_zero o)) (lookup-insert tool other c m)
            ∙ pick c (lookup other m) (count_in json other qc.file) (tool == other) (was other),
      )

module _ (json : Json) where
  -- `Check` on a file that can be read lets a call pass exactly when its count is below the limit, and
  -- never for a limit that is not positive.
  check-count_in :
      (o : Faults) (tool : String) (limit : ℤ) (qc : QuotaCounter) (n : ℤ)
      → o.lock_ok ≡ true
      → o.read_ok ≡ true
      → count_in json tool qc.file ≡ some n
      → check json o tool limit qc
        ≡ (if is_positive limit then (ltz n limit, n) else (false, pos 0))
  unfolding check
  check-count_in o tool limit qc n l r h = elim (Option-cases qc.file) [
    | inl f ↦ absurd (ground (arith, rw f at h))
    | inr (text, f) ↦ elim (Option-cases (read_text json text)) [
      | inl e ↦ absurd (ground (arith, ap (counted tool) (sym e) ∙ rw f at h))
      | inr (m, e) ↦
          let read_count : some (or_zero (lookup tool m)) ≡ some n =
            ap (counted tool) (sym e) ∙ rw f at h in
          let same : or_zero (lookup tool m) ≡ n = ground (arith, read_count) in
          elim (Bool-cases (is_positive limit)) [
            | inl p ↦ rw (p, f, l, r, e, same) refl
            | inr p ↦ rw p refl
          ]
    ]
  ]
