-- ===== src/Vault/Manifest/Laws.antt =====
-- When the check of a manifest finds nothing.
use open_pass.Base.{
  ℕ, String, Bool, true, ◌==◌, ◌≡◌, refl, sym, ◌∙◌, ◌↔◌, Option, none, some, [], ◌∷◌, All, arith,
  inl, inr, Bool-cases,
}
use open_pass.Base.Assoc.{Assoc, lookup}
use open_pass.Vault.Manifest.{
  ManifestEntry, Manifest, VerifyResult, EntryFile, readable, locked, holds, VaultFiles, Finding,
  intact, unreadable, is_missing, is_tampered, add_finding, check_file, entry_storage_path,
  is_entry_file, verify_entries, is_known, unknown_files, verify_manifest_integrity,
}

-- The check found nothing.
pub record IsClean (r : VerifyResult) : Type 0 where
  pub none_missing : r.missing ≡ []
  pub none_tampered : r.tampered ≡ []
  pub none_unknown : r.unknown ≡ []

abbrev pub Verdict : Option VerifyResult → Type 0
Verdict none = ⊥
Verdict (some r) = IsClean r

abbrev IsIntact : Finding → Type 0
IsIntact intact = Unit
IsIntact _ = ⊥

add_finding_clean :
    (f : Finding) (o : Option VerifyResult) → Verdict (add_finding f o) ↔ (IsIntact f × Verdict o)
add_finding_clean intact none = ((λ h. absurd h), (λ h. h.1))
add_finding_clean intact (some r) = (
  (λ h. (
    tt,
    record {
      none_missing = h.none_missing;
      none_tampered = h.none_tampered;
      none_unknown = h.none_unknown;
    },
  )),
  (λ h. record {
    none_missing = h.1.none_missing;
    none_tampered = h.1.none_tampered;
    none_unknown = h.1.none_unknown;
  }),
)
add_finding_clean unreadable o = ((λ h. absurd h), (λ h. absurd h.0))
add_finding_clean (is_missing path) none = ((λ h. absurd h), (λ h. absurd h.0))
add_finding_clean (is_missing path) (some r) =
    ((λ h. absurd (ground (arith, h.none_missing))), (λ h. absurd h.0))
add_finding_clean (is_tampered path) none = ((λ h. absurd h), (λ h. absurd h.0))
add_finding_clean (is_tampered path) (some r) =
    ((λ h. absurd (ground (arith, h.none_tampered))), (λ h. absurd h.0))

found_content : (a b : String) (s t : ℕ) → some (readable a s) ≡ some (readable b t) → a ≡ b
found_content a b s t h = cc

module _ (sha : String → String) (pseudonym : Option (String → String)) where
  -- The file of an entry is there, and has the entry's hash.
  abbrev pub Matches : Assoc EntryFile → String × ManifestEntry → Type 0
  Matches files (path, e) =
      (content : String) × (mtime : ℕ) × (lookup (entry_storage_path pseudonym path) files
        ≡ some (readable content mtime))
      × ((sha content == e.sha256) ≡ true)

  -- A file that a walk takes for one of an entry is the file of some entry.
  abbrev pub IsCovered : (String → Bool) → Assoc ManifestEntry → String × EntryFile → Type 0
  IsCovered walks entries (file, _) =
      is_entry_file walks file ≡ true → is_known sha pseudonym entries file ≡ true

  unknown_files-eq-nil :
      (walks : String → Bool) (entries : Assoc ManifestEntry) (files : Assoc EntryFile)
      → (unknown_files sha pseudonym walks entries files ≡ []) ↔ All (IsCovered walks entries) files
  unfolding unknown_files
  unknown_files-eq-nil walks entries [] = ((λ h. tt), (λ h. refl))
  unknown_files-eq-nil walks entries ((file, state) ∷ rest) =
      let (there, back) = unknown_files-eq-nil walks entries rest in
      elim (Bool-cases (is_entry_file walks file)) [
        | inr e ↦ rw e ((λ h. ((λ a. absurd (ground (arith, a))), there h)), (λ h. back h.1))
        | inl e ↦ elim (Bool-cases (is_known sha pseudonym entries file)) [
          | inl f ↦ rw (e, f) ((λ h. ((λ _. refl), there h)), (λ h. back h.1))
          | inr f ↦
              rw (e, f)
                ((λ h. absurd (ground (arith, h))), (λ h. absurd (ground (arith, h.0 refl))))
        ]
      ]

  check_file_clean :
      (files : Assoc EntryFile) (path : String) (e : ManifestEntry) (o : Option EntryFile)
      → lookup (entry_storage_path pseudonym path) files ≡ o
      → IsIntact (check_file sha path e o) ↔ Matches files (path, e)
  check_file_clean files path e none q = ((λ h. absurd h), (λ m. absurd (ground (arith, q, m.2))))
  check_file_clean files path e (some locked) q =
      ((λ h. absurd h), (λ m. absurd (ground (arith, q, m.2))))
  check_file_clean files path e (some (readable content mtime)) q =
      elim (Bool-cases (sha content == e.sha256)) [
        | inl same ↦ rw same ((λ h. (content, mtime, q, same)), (λ m. tt))
        | inr other ↦ rw other (
          (λ h. absurd h),
          (λ m.
              let same = found_content content m.0 mtime m.1 (sym q ∙ m.2) in
              absurd (ground (arith, other, rw (← same) at (m.3)))),
        )
      ]

  pub verify_entries-IsClean :
      (files : Assoc EntryFile) (entries : Assoc ManifestEntry) (r : VerifyResult)
      → Verdict (verify_entries sha pseudonym files entries r)
        ↔ (All (Matches files) entries × IsClean r)
  unfolding verify_entries
  verify_entries-IsClean files [] r = ((λ h. (tt, h)), (λ h. h.1))
  verify_entries-IsClean files ((path, e) ∷ rest) r =
      let (found, clean) =
        add_finding_clean (check_file sha path e (lookup (entry_storage_path pseudonym path) files))
          (verify_entries sha pseudonym files rest r) in
      let (there, back) = verify_entries-IsClean files rest r in
      let (sound, complete) =
        check_file_clean files path e (lookup (entry_storage_path pseudonym path) files) refl in
      (
        (λ h. let (i, v) = found h in let (all, c) = there v in ((sound i, all), c)),
        (λ h. clean (complete h.0.0, back (h.0.1, h.1))),
      )

  -- Where the manifest and the configuration can be loaded, the check of the integrity finds nothing
  -- exactly when each entry of the manifest has a file with its hash, and each file with the suffix of
  -- entries that the walk reaches is the file of some entry.
  pub verify_manifest_integrity_clean :
      (v : VaultFiles) (m : Manifest)
      → v.manifest ≡ holds m
      → v.config_ok ≡ true
      → Verdict (verify_manifest_integrity sha pseudonym v)
        ↔ (All (Matches v.files) m.entries × All (IsCovered v.walks m.entries) v.files)
  unfolding verify_manifest_integrity
  verify_manifest_integrity_clean v m is_held configured =
      let r : VerifyResult = record {
        missing = [];
        tampered = [];
        unknown = unknown_files sha pseudonym v.walks m.entries v.files;
        ok = 0;
      } in
      let (there, back) = verify_entries-IsClean v.files m.entries r in
      let (covers, none_left) = unknown_files-eq-nil v.walks m.entries v.files in
      rw (is_held, configured)
        (
          (λ h. let (all, c) = there h in (all, covers c.none_unknown)),
          (λ h. back (
            h.0,
            record { none_missing = refl; none_tampered = refl; none_unknown = none_left h.1 },
          )),
        )
