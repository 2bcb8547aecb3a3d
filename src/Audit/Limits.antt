-- ===== src/Audit/Limits.antt =====
-- internal/audit/audit.go: changes of a log that `VerifyLog` does not count as tampering.
use open_pass.Base.{
  Bool, ℕ, suc, ◌+◌, String, true, false, ◌==◌, ◌≡◌, refl, sym, ap, subst, ◌∙◌, inl, inr, some,
  List, [], ◌∷◌, ◌++◌, length, Bool-cases, arith, All,
}
use open_pass.Base.Text.Lines.{written}
use open_pass.Audit.{
  LogEntry, VerifyResult, Library, done, empty_result, verify_entry, verify_entries, scan_entries,
  verify_log, genuine, parse_lines, count_legacy, count_verified, count_tampered,
}
use open_pass.Audit.Chain.{verified_file}
use open_pass.Audit.Acceptance.{Invalid-verify_entries}
use open_pass.Audit.Writing.{
  Laws, NoNewline, Short, file_lines, scan_entries_written, parse_lines-append,
}

-- the result for n entries without a digest
abbrev pub all_legacy : ℕ → VerifyResult
all_legacy n = record (empty_result n) { legacy = n }

module _ (lib : Library) (key : String) where
  verify_entries_unsigned :
      (i : ℕ) (es : List LogEntry) (prev : String) (r : VerifyResult)
      → All (λ e. (e.hmac == "") ≡ true) es
      → (verify_entries lib key i es prev r).1 ≡ record r { legacy = r.legacy + length es }
  unfolding verify_entries verify_entry
  verify_entries_unsigned i [] prev r h = ap (λ n. record r { legacy = n }) (omega arith)
  verify_entries_unsigned i (e ∷ es) prev r (n, h) =
      rw (verify_entries, verify_entry, n)
        (verify_entries_unsigned (suc i) es "" (count_legacy r) h
          ∙ ap (λ k. record r { legacy = k }) (omega arith))

  -- A log whose entries have no digest is valid under every key, whatever the entries say: to
  -- remove the digests and change the entries is not found out as tampering.
  unsigned_is_valid :
      (file : String)
      → (key == "") ≡ false
      → All (λ e. (e.hmac == "") ≡ true) (scan_entries lib file)
      → verify_log lib (some file) key ≡ done (all_legacy (length (scan_entries lib file)))
  unfolding verify_log
  unsigned_is_valid file k h =
      let n = length (scan_entries lib file) in
      let z : 0 + n ≡ n = omega arith in
      let q = verify_entries_unsigned 0 (scan_entries lib file) "" (empty_result n) h in
      rw (k, q, z) refl

  verify_entries-append :
      (i : ℕ) (xs ys : List LogEntry) (prev : String) (r : VerifyResult)
      → verify_entries lib key i (xs ++ ys) prev r
        ≡ verify_entries lib key
            (i + length xs)
            ys
            (verify_entries lib key i xs prev r).0
            (verify_entries lib key i xs prev r).1
  unfolding verify_entries
  verify_entries-append i [] ys prev r = ap (λ n. verify_entries lib key n ys prev r) (omega arith)
  verify_entries-append i (x ∷ xs) ys prev r =
      verify_entries-append (suc i) xs ys _ _
      ∙ ap
          (λ n.
            verify_entries lib key n ys (verify_entries lib key i (x ∷ xs) prev r).0
              (verify_entries lib key i (x ∷ xs) prev r).1)
          (omega arith)

  valid_alike :
      (i : ℕ) (es : List LogEntry) (prev : String) (r q : VerifyResult)
      → r.valid ≡ q.valid
      → (verify_entries lib key i es prev r).1.valid ≡ (verify_entries lib key i es prev q).1.valid
  unfolding verify_entries verify_entry
  valid_alike i [] prev r q h = h
  valid_alike i (e ∷ es) prev r q h = elim (Bool-cases (e.hmac == "")) [
    | inl n ↦
        rw (verify_entries, verify_entry, n)
          (valid_alike (suc i) es _ (count_legacy r) (count_legacy q) h)
    | inr n ↦ elim (Bool-cases (genuine lib key prev e)) [
      | inl g ↦
          rw (verify_entries, verify_entry, n, g)
            (valid_alike (suc i) es _ (count_verified r) (count_verified q) h)
      | inr g ↦
          rw (verify_entries, verify_entry, n, g)
            (valid_alike (suc i) es _ (count_tampered i r) (count_tampered i q) refl)
    ]
  ]

module _ (lib : Library) (is_text : LogEntry → Bool) (laws : Laws lib is_text) (key : String) where
  valid_prefix :
      (xs ys : List LogEntry) (r q : VerifyResult)
      → (verify_entries lib key 0 (xs ++ ys) "" r).1.valid ≡ true
      → r.valid ≡ q.valid
      → (verify_entries lib key 0 xs "" q).1.valid ≡ true
  valid_prefix xs ys r q v s = elim (Bool-cases (verify_entries lib key 0 xs "" q).1.valid) [
    | inl e ↦ e
    | inr e ↦
        let first = verify_entries lib key 0 xs "" r in
        let bad =
          Invalid-verify_entries lib laws.hex key (0 + length xs) ys first.0 first.1
            (valid_alike lib key 0 xs "" r q s ∙ e) in
        absurd (ground (arith, bad, rw (verify_entries-append lib key 0 xs ys "" r) at v))
  ]

  -- Of a log that is found valid, any number of last lines may be cut off, and the rest is found
  -- valid too.
  truncated_is_valid :
      (kept cut : List String) (r q : VerifyResult)
      → All NoNewline kept
      → All NoNewline (kept ++ cut)
      → All Short (file_lines (written kept))
      → All Short (file_lines (written (kept ++ cut)))
      → verify_log lib (some (written (kept ++ cut))) key ≡ done r
      → verify_log lib (some (written kept)) key ≡ done q
      → r.valid ≡ true
      → q.valid ≡ true
  truncated_is_valid kept cut r q nk nc sk sc hr hq v =
      let (k, er) = verified_file lib key (written (kept ++ cut)) r hr in
      let (k, eq) = verified_file lib key (written kept) q hq in
      let all = scan_entries lib (written (kept ++ cut)) in
      let front = scan_entries lib (written kept) in
      let pk = scan_entries_written lib is_text laws kept nk sk in
      let pc =
        scan_entries_written lib is_text laws (kept ++ cut) nc sc
        ∙ parse_lines-append lib kept cut in
      let whole =
        subst (λ es. (verify_entries lib key 0 es "" (empty_result (length all))).1.valid ≡ true) pc
          (ap (λ z. z.valid) (sym er) ∙ v) in
      ap (λ z. z.valid) eq
      ∙ ap (λ es. (verify_entries lib key 0 es "" (empty_result (length front))).1.valid) pk
      ∙ valid_prefix (parse_lines lib kept) (parse_lines lib cut) (empty_result (length all))
          (empty_result (length front)) whole refl
