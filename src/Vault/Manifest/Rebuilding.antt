-- ===== src/Vault/Manifest/Rebuilding.antt =====
-- What the check of the integrity finds behind `RebuildManifest`.

use open_pass.Base.{
  ℕ, String, Bool, true, ◌==◌, ◌≡◌, refl, sym, ap, ◌∙◌, subst, none, some, [], ◌∷◌, any, All, arith,
  inl, inr, Bool-cases, eq_iff, eq_refl,
}
use open_pass.Base.Assoc.{Assoc, All-insert, lookup, insert, Distinct, lookup_of_Fresh, Fresh-eq}
use open_pass.Base.Text.{join, has_suffix, trim_suffix}
use open_pass.Vault.Manifest.{
  ManifestEntry, Manifest, EntryFile, readable, locked, VaultFiles, entry_storage_path,
  is_entry_file, is_known, verify_manifest_integrity, entry_of, add_file, rebuilt_entries,
  rebuild_manifest, write_manifest,
}
use open_pass.Vault.Manifest.Laws.{Matches, IsCovered, Verdict, verify_manifest_integrity_clean}

-- A text with a suffix is what it is trimmed to, with the suffix.
join-trim_suffix : (s e : String) → has_suffix s e ≡ true → join (trim_suffix s e) e ≡ s
unfolding has_suffix trim_suffix
join-trim_suffix String.[] e h = ground (arith, h, eq_iff e "")
join-trim_suffix (String.◌∷◌ c s) e h = elim (Bool-cases (String.◌∷◌ c s == e)) [
  | inl q ↦ rw q (sym (ground (arith, q, eq_iff (String.◌∷◌ c s) e)))
  | inr q ↦ rw q (ap (String.◌∷◌ c) (join-trim_suffix s e (rw q at h)))
]

any-insert_self {ℓ} :
    {V : Type ℓ} (p : String → Bool) (k : String) (v : V) (m : Assoc V)
    → p k ≡ true
    → any (λ x. p x.0) (insert k v m) ≡ true
unfolding insert
any-insert_self p k v [] h = rw h refl
any-insert_self p k v ((j, w) ∷ m) h = elim (Bool-cases (j == k)) [
  | inl e ↦ rw (e, h) refl
  | inr e ↦ rw e (ground (arith, any-insert_self p k v m h))
]

any-insert {ℓ} :
    {V : Type ℓ} (p : String → Bool) (k : String) (v : V) (m : Assoc V)
    → any (λ x. p x.0) m ≡ true
    → any (λ x. p x.0) (insert k v m) ≡ true
unfolding insert
any-insert p k v [] h = absurd (ground (arith, h))
any-insert p k v ((j, w) ∷ m) h = elim (Bool-cases (j == k)) [
  | inl e ↦ rw e (ground (arith, h, eq_iff j k))
  | inr e ↦ rw e (ground (arith, h, any-insert p k v m))
]

-- A map has what its list has, if it has each key once.
All-lookup {ℓ} :
    {V : Type ℓ} (all m : Assoc V)
    → Distinct m
    → ((k : String) (v : V) → lookup k m ≡ some v → lookup k all ≡ some v)
    → All (λ x. lookup x.0 all ≡ some x.1) m
unfolding lookup
All-lookup all [] d f = tt
All-lookup all ((j, w) ∷ m) (fresh, d) f = (
  f j w (rw (eq_refl j) refl),
  All-lookup all m d (λ k v e. f k v (elim (Bool-cases (j == k)) [
    | inl q ↦ absurd (ground (arith, e, lookup_of_Fresh k m (Fresh-eq j k m q fresh)))
    | inr q ↦ rw q e
  ])),
)

-- A file that a walk takes for one of an entry can be read.
abbrev pub IsReadable : (String → Bool) → String × EntryFile → Type 0
IsReadable walks (file, state) =
    is_entry_file walks file ≡ true
    → (content : String) × (mtime : ℕ) × (state ≡ readable content mtime)

-- The file is among the files, under its path.
abbrev IsAmong : Assoc EntryFile → String × EntryFile → Type 0
IsAmong files (file, state) = lookup file files ≡ some state

module _ (sha : String → String) where
  storage_of_trimmed :
      (file : String)
      → has_suffix file ".age" ≡ true
      → entry_storage_path none (trim_suffix file ".age") ≡ file
  unfolding entry_storage_path
  storage_of_trimmed file e = join-trim_suffix file ".age" e

  entry_file_suffix :
      (walks : String → Bool) (file : String)
      → is_entry_file walks file ≡ true
      → has_suffix file ".age" ≡ true
  entry_file_suffix walks file e = ground (arith, e)

  module _ (walks : String → Bool) (files : Assoc EntryFile) where
    add_file-Matches :
        (file : String) (state : EntryFile) (entries : Assoc ManifestEntry)
        → IsAmong files (file, state)
        → All (Matches sha none files) entries
        → All (Matches sha none files) (add_file sha walks file state entries)
    add_file-Matches file locked entries there h = h
    add_file-Matches file (readable content mtime) entries there h =
        elim (Bool-cases (is_entry_file walks file)) [
          | inr e ↦ rw e h
          | inl e ↦ rw e (
              All-insert (Matches sha none files) (trim_suffix file ".age")
                (entry_of sha content mtime) entries
                (
                  content,
                  mtime,
                  ap (λ (f : String). lookup f files)
                        (storage_of_trimmed file (entry_file_suffix walks file e))
                      ∙ there,
                  eq_refl (sha content),
                )
                h)
        ]

    rebuilt_entries-Matches :
        (fs : Assoc EntryFile) (entries : Assoc ManifestEntry)
        → All (IsAmong files) fs
        → All (Matches sha none files) entries
        → All (Matches sha none files) (rebuilt_entries sha walks fs entries)
    unfolding rebuilt_entries
    rebuilt_entries-Matches [] entries there h = h
    rebuilt_entries-Matches ((file, state) ∷ fs) entries (t, there) h =
        rebuilt_entries-Matches fs (add_file sha walks file state entries) there
          (add_file-Matches file state entries t h)

  module _ (walks : String → Bool) where
    add_file_keeps :
        (file : String) (state : EntryFile) (entries : Assoc ManifestEntry) (known : String)
        → is_known sha none entries known ≡ true
        → is_known sha none (add_file sha walks file state entries) known ≡ true
    add_file_keeps file locked entries known h = h
    add_file_keeps file (readable content mtime) entries known h =
        elim (Bool-cases (is_entry_file walks file)) [
          | inr e ↦ rw e h
          | inl e ↦ rw e (
              any-insert (λ k. entry_storage_path none k == known) (trim_suffix file ".age")
                (entry_of sha content mtime) entries h)
        ]

    rebuilt_entries_keeps :
        (fs : Assoc EntryFile) (entries : Assoc ManifestEntry) (known : String)
        → is_known sha none entries known ≡ true
        → is_known sha none (rebuilt_entries sha walks fs entries) known ≡ true
    unfolding rebuilt_entries
    rebuilt_entries_keeps [] entries known h = h
    rebuilt_entries_keeps ((file, state) ∷ fs) entries known h =
        rebuilt_entries_keeps fs (add_file sha walks file state entries) known
          (add_file_keeps file state entries known h)

    add_file_knows :
        (file content : String) (mtime : ℕ) (entries : Assoc ManifestEntry)
        → is_entry_file walks file ≡ true
        → is_known sha none (add_file sha walks file (readable content mtime) entries) file ≡ true
    add_file_knows file content mtime entries e = rw e (
        any-insert_self (λ k. entry_storage_path none k == file) (trim_suffix file ".age")
          (entry_of sha content mtime) entries
          (rw (storage_of_trimmed file (entry_file_suffix walks file e)) (eq_refl file)))

    rebuilt_entries_covers :
        (fs : Assoc EntryFile) (entries : Assoc ManifestEntry)
        → All (IsReadable walks) fs
        → All (IsCovered sha none walks (rebuilt_entries sha walks fs entries)) fs
    unfolding rebuilt_entries
    rebuilt_entries_covers [] entries h = tt
    rebuilt_entries_covers ((file, state) ∷ fs) entries (r, h) = (
      (λ e.
          let (content, mtime, q) = r e in
          rebuilt_entries_keeps fs (add_file sha walks file state entries) file (
            subst (λ st. is_known sha none (add_file sha walks file st entries) file ≡ true) (sym q)
              (add_file_knows file content mtime entries e))),
      rebuilt_entries_covers fs (add_file sha walks file state entries) h,
    )

  -- After `RebuildManifest` the check of the integrity finds nothing, where the configuration can be
  -- loaded, paths are not pseudonymized, and all files of entries that the walk reaches can be read.
  pub rebuild_manifest_clean :
      (now : ℕ) (v : VaultFiles)
      → Distinct v.files
      → All (IsReadable v.walks) v.files
      → v.config_ok ≡ true
      → Verdict (verify_manifest_integrity sha none (rebuild_manifest sha true now v).0)
  unfolding rebuild_manifest write_manifest
  rebuild_manifest_clean now v d h configured =
      let v' = (rebuild_manifest sha true now v).0 in
      let m : Manifest = record {
        version = 1;
        created = now;
        updated = now;
        entries = rebuilt_entries sha v.walks v.files [];
      } in
      (verify_manifest_integrity_clean sha none v' m refl configured).1 (
        rebuilt_entries-Matches v.walks v.files v.files []
            (All-lookup v.files v.files d (λ k w e. e)) tt,
        rebuilt_entries_covers v.walks v.files [] h,
      )
