-- ===== src/Audit/Chain.antt =====
-- internal/audit/audit.go: what `VerifyLog` accepts. `Chained` describes a chain of entries without
-- the verifier.
use open_pass.Base.{
  ℕ, suc, ◌+◌, String, false, ◌==◌, ◌≡◌, refl, ◌⊎◌, inl, inr, some, List, [], ◌∷◌, ◌++◌, eqb,
  length, Bool-cases, arith,
}
use open_pass.Base.Clock.{pos, negsuc}
use open_pass.Audit.{
  LogEntry, VerifyResult, Library, done, empty_result, count_tampered, chain_digest, verify_entry,
  verify_entries, scan_entries, verify_log, genuine,
}

module _ (lib : Library) (key : String) where
  open lib use {hex_encode, hex_decode}

  -- Every entry is signed, over the digest of the one before it.
  abbrev pub Chained : String → List LogEntry → Type 0
  Chained prev [] = Unit
  Chained prev (e ∷ rest) =
      ((e.hmac == "") ≡ false)
      × (hex_decode e.hmac ≡ some (chain_digest lib key prev e))
      × Chained (chain_digest lib key prev e) rest

  -- The digest of the last entry.
  abbrev pub chain_end : String → List LogEntry → String
  chain_end prev [] = prev
  chain_end prev (e ∷ rest) = chain_end (chain_digest lib key prev e) rest

  pub Chained-append :
      (prev : String) (es : List LogEntry) (e : LogEntry)
      → Chained prev es
      → (e.hmac == "") ≡ false
      → hex_decode e.hmac ≡ some (chain_digest lib key (chain_end prev es) e)
      → Chained prev (es ++ e ∷ [])
  Chained-append prev [] e c n d = (n, d, tt)
  Chained-append prev (x ∷ es) e (m, q, c) n d =
      (m, q, Chained-append (chain_digest lib key prev x) es e c n d)

  pub chain_end-append :
      (prev : String) (es : List LogEntry) (e : LogEntry)
      → chain_end prev (es ++ e ∷ []) ≡ chain_digest lib key (chain_end prev es) e
  chain_end-append prev [] e = refl
  chain_end-append prev (x ∷ es) e = chain_end-append (chain_digest lib key prev x) es e

  -- What one entry adds to the counts.
  abbrev Tally : VerifyResult → Type 0
  Tally r =
      (r.valid ≡ eqb r.tampered 0)
      × ((r.first_bad_idx ≡ negsuc 0) × (r.tampered ≡ 0)
          ⊎ ((i : ℕ) × (r.first_bad_idx ≡ pos i) × (eqb r.tampered 0 ≡ false)))

  abbrev tally : VerifyResult → ℕ
  tally r = r.verified + r.legacy + r.tampered

  tally-verify_entry :
      (i : ℕ) (e : LogEntry) (prev : String) (r : VerifyResult)
      → (tally (verify_entry lib key i e prev r).1 ≡ suc (tally r))
        × ((verify_entry lib key i e prev r).1.total ≡ r.total)
  unfolding verify_entry
  tally-verify_entry i e prev r = elim (Bool-cases (e.hmac == "")) [
    | inl n ↦ rw n (omega arith, refl)
    | inr n ↦ elim (Bool-cases (genuine lib key prev e)) [
      | inl g ↦ rw (n, g) (omega arith, refl)
      | inr g ↦ rw (n, g) (omega arith, refl)
    ]
  ]

  tally-verify_entries :
      (i : ℕ) (es : List LogEntry) (prev : String) (r : VerifyResult)
      → (tally (verify_entries lib key i es prev r).1 ≡ tally r + length es)
        × ((verify_entries lib key i es prev r).1.total ≡ r.total)
  unfolding verify_entries
  tally-verify_entries i [] prev r = (omega arith, refl)
  tally-verify_entries i (e ∷ es) prev r =
      let (a, b) = tally-verify_entry i e prev r in
      let next = verify_entry lib key i e prev r in
      let (c, d) = tally-verify_entries (suc i) es next.0 next.1 in
      (omega (arith, a, c), ground (arith, b, d))

  Tally-count_tampered : (i : ℕ) (r : VerifyResult) → Tally r → Tally (count_tampered i r)
  Tally-count_tampered i r (v, inl (f, z)) = (ground arith, inr (i, rw f refl, ground arith))
  Tally-count_tampered i r (v, inr (j, f, z)) = (ground arith, inr (j, rw f refl, ground arith))

  Tally-verify_entry :
      (i : ℕ) (e : LogEntry) (prev : String) (r : VerifyResult)
      → Tally r
      → Tally (verify_entry lib key i e prev r).1
  unfolding verify_entry
  Tally-verify_entry i e prev r t = elim (Bool-cases (e.hmac == "")) [
    | inl n ↦ rw n t
    | inr n ↦ elim (Bool-cases (genuine lib key prev e)) [
      | inl g ↦ rw (n, g) t
      | inr g ↦ rw (n, g) (Tally-count_tampered i r t)
    ]
  ]

  Tally-verify_entries :
      (i : ℕ) (es : List LogEntry) (prev : String) (r : VerifyResult)
      → Tally r
      → Tally (verify_entries lib key i es prev r).1
  unfolding verify_entries
  Tally-verify_entries i [] prev r t = t
  Tally-verify_entries i (e ∷ es) prev r t =
      Tally-verify_entries (suc i) es _ _ (Tally-verify_entry i e prev r t)

  pub verified_file :
      (file : String) (r : VerifyResult)
      → verify_log lib (some file) key ≡ done r
      → ((key == "") ≡ false)
        × (r
            ≡ (verify_entries lib key 0
                (scan_entries lib file)
                ""
                (empty_result (length (scan_entries lib file)))).1)
  unfolding verify_log
  verified_file file r h = elim (Bool-cases (key == "")) [
    | inl n ↦ absurd (ground (arith, h, n))
    | inr n ↦ (n, ground (arith, h, n))
  ]

  -- The counts of `VerifyLog` add up to the number of entries; the log is valid exactly when no
  -- entry is tampered with, and then, and only then, there is no first bad index.
  verify_log_counts :
      (file : String) (r : VerifyResult)
      → verify_log lib (some file) key ≡ done r
      → (r.total ≡ length (scan_entries lib file))
        × (r.verified + r.legacy + r.tampered ≡ r.total)
        × (r.valid ≡ eqb r.tampered 0)
        × ((r.first_bad_idx ≡ negsuc 0) × (r.tampered ≡ 0)
            ⊎ ((i : ℕ) × (r.first_bad_idx ≡ pos i) × (eqb r.tampered 0 ≡ false)))
  verify_log_counts file r h =
      let (n, e) = verified_file file r h in
      let es = scan_entries lib file in
      let (a, b) = tally-verify_entries 0 es "" (empty_result (length es)) in
      let (c, d) =
        Tally-verify_entries 0 es "" (empty_result (length es)) (refl, inl (refl, refl)) in
      rw e (b, omega (arith, a, b), c, d)
