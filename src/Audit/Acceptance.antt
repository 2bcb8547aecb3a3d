-- ===== src/Audit/Acceptance.antt =====
-- internal/audit/audit.go: the logs that `VerifyLog` accepts without a legacy entry are the chains.
use open_pass.Base.{
  ℕ, suc, ◌+◌, ◌≤◌, String, true, false, ◌==◌, ◌≡◌, refl, ap, inl, inr, ◌↔◌, ◌⊎◌, ◌∙◌, some, List,
  [], ◌∷◌, length, Bool-cases, Option-cases, arith,
}
use open_pass.Audit.{
  LogEntry, VerifyResult, Library, done, empty_result, count_legacy, count_verified, count_tampered,
  chain_digest, compute_hmac, verify_entry, verify_entries, scan_entries, verify_log, genuine,
}
use open_pass.Audit.Chain.{Chained, chain_end, verified_file}
use text.Mathlib.TextEquality.{eq_iff}
use text.Mathlib.TextPositions.{eq_refl}

-- encoding/hex: a decoded encoding is the text
abbrev pub HexLaw : Library → Type 0
HexLaw lib = (s : String) → lib.hex_decode (lib.hex_encode s) ≡ some s

module _ (lib : Library) (hex : HexLaw lib) (key : String) where
  open lib use {hex_encode, hex_decode}

  genuine_sound :
      (prev : String) (e : LogEntry)
      → genuine lib key prev e ≡ true
      → hex_decode e.hmac ≡ some (chain_digest lib key prev e)
  unfolding compute_hmac
  genuine_sound prev e h = elim (Option-cases (hex_decode e.hmac)) [
    | inl n ↦ absurd (ground (arith, h, n, hex (chain_digest lib key prev e)))
    | inr (d, n) ↦
        ground
          (arith, h, n, hex (chain_digest lib key prev e), eq_iff (chain_digest lib key prev e) d)
  ]

  genuine_complete :
      (prev : String) (e : LogEntry)
      → hex_decode e.hmac ≡ some (chain_digest lib key prev e)
      → genuine lib key prev e ≡ true
  unfolding compute_hmac
  genuine_complete prev e h =
      rw (h, hex (chain_digest lib key prev e)) (eq_refl (chain_digest lib key prev e))

  -- The three results of one round.
  verify_entry_cases :
      (i : ℕ) (e : LogEntry) (prev : String) (r : VerifyResult)
      → (verify_entry lib key i e prev r ≡ ("", count_legacy r))
        ⊎ (((e.hmac == "") ≡ false)
            × (hex_decode e.hmac ≡ some (chain_digest lib key prev e))
            × (verify_entry lib key i e prev r ≡ (chain_digest lib key prev e, count_verified r)))
        ⊎ (verify_entry lib key i e prev r ≡ (prev, count_tampered i r))
  unfolding verify_entry
  verify_entry_cases i e prev r = elim (Bool-cases (e.hmac == "")) [
    | inl n ↦ inl (rw n refl)
    | inr n ↦ elim (Bool-cases (genuine lib key prev e)) [
      | inl g ↦ let d = genuine_sound prev e g in inr (inl (n, d, rw (n, g, d) refl))
      | inr g ↦ inr (inr (rw (n, g) refl))
    ]
  ]

  verify_entry_genuine :
      (i : ℕ) (e : LogEntry) (prev : String) (r : VerifyResult)
      → (e.hmac == "") ≡ false
      → hex_decode e.hmac ≡ some (chain_digest lib key prev e)
      → verify_entry lib key i e prev r ≡ (chain_digest lib key prev e, count_verified r)
  unfolding verify_entry
  verify_entry_genuine i e prev r n d = rw (n, genuine_complete prev e d, d) refl

  -- A chain is verified entry by entry.
  pub verify_entries-Chained :
      (i : ℕ) (es : List LogEntry) (prev : String) (r : VerifyResult)
      → Chained lib key prev es
      → verify_entries lib key i es prev r
        ≡ (chain_end lib key prev es, record r { verified = r.verified + length es })
  unfolding verify_entries
  verify_entries-Chained i [] prev r c = ap (λ n. (prev, record r { verified = n })) (omega arith)
  verify_entries-Chained i (e ∷ es) prev r (n, d, c) =
      let next = verify_entry_genuine i e prev r n d in
      let rest =
        verify_entries-Chained (suc i) es (chain_digest lib key prev e) (count_verified r) c in
      rw next (
        rest ∙ ap (λ k. (chain_end lib key prev (e ∷ es), record r { verified = k })) (omega arith))

  pub Invalid-verify_entries :
      (i : ℕ) (es : List LogEntry) (prev : String) (r : VerifyResult)
      → r.valid ≡ false
      → (verify_entries lib key i es prev r).1.valid ≡ false
  unfolding verify_entries
  Invalid-verify_entries i [] prev r h = h
  Invalid-verify_entries i (e ∷ es) prev r h = elim (verify_entry_cases i e prev r) [
    | inl q ↦ rw (verify_entries, q) (Invalid-verify_entries (suc i) es _ _ h)
    | inr (inl (n, d, q)) ↦ rw (verify_entries, q) (Invalid-verify_entries (suc i) es _ _ h)
    | inr (inr q) ↦ rw (verify_entries, q) (Invalid-verify_entries (suc i) es _ _ refl)
  ]

  legacy-verify_entries :
      (i : ℕ) (es : List LogEntry) (prev : String) (r : VerifyResult)
      → r.legacy ≤ (verify_entries lib key i es prev r).1.legacy
  unfolding verify_entries
  legacy-verify_entries i [] prev r = omega arith
  legacy-verify_entries i (e ∷ es) prev r = elim (verify_entry_cases i e prev r) [
    | inl q ↦
        let h = legacy-verify_entries (suc i) es "" (count_legacy r) in
        rw (verify_entries, q) (omega (arith, h))
    | inr (inl (n, d, q)) ↦
        rw (verify_entries, q) (legacy-verify_entries (suc i) es _ (count_verified r))
    | inr (inr q) ↦ rw (verify_entries, q) (legacy-verify_entries (suc i) es _ (count_tampered i r))
  ]

  Chained-verify_entries :
      (i : ℕ) (es : List LogEntry) (prev : String) (r : VerifyResult)
      → (verify_entries lib key i es prev r).1.valid ≡ true
      → (verify_entries lib key i es prev r).1.legacy ≡ r.legacy
      → Chained lib key prev es
  unfolding verify_entries
  Chained-verify_entries i [] prev r v l = tt
  Chained-verify_entries i (e ∷ es) prev r v l = elim (verify_entry_cases i e prev r) [
    | inl q ↦
        let more = legacy-verify_entries (suc i) es "" (count_legacy r) in
        let same = rw (verify_entries, q) at l in absurd (omega (arith, more, same))
    | inr (inl (n, d, q)) ↦ (
      n,
      d,
      Chained-verify_entries (suc i) es _ (count_verified r) (rw (verify_entries, q) at v)
          (rw (verify_entries, q) at l),
    )
    | inr (inr q) ↦
        let bad = Invalid-verify_entries (suc i) es prev (count_tampered i r) refl in
        let good = rw (verify_entries, q) at v in absurd (ground (arith, bad, good))
  ]

  -- `VerifyLog` finds every entry verified exactly when the entries form a chain: each is signed by
  -- the key over its own content and the digest of the one before it.
  pub verify_log_iff :
      (file : String) (r : VerifyResult)
      → verify_log lib (some file) key ≡ done r
      → (r.valid ≡ true) × (r.legacy ≡ 0) ↔ Chained lib key "" (scan_entries lib file)
  verify_log_iff file r h =
      let (n, e) = verified_file lib key file r h in
      let es = scan_entries lib file in
      let start = empty_result (length es) in
      rw e (
        λ (v, l). Chained-verify_entries 0 es "" start v l,
        λ c. let q = verify_entries-Chained 0 es "" start c in rw q (refl, refl),
      )
