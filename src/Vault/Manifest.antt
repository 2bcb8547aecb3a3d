-- ===== src/Vault/Manifest.antt =====
-- internal/vault/manifest.go: the manifest of the hashes of a vault's entry files. The files of the
-- directory "entries" go by their paths in it; SHA-256, HMAC, encryption and the disk are parameters
-- or outcomes. A manifest file is what `LoadManifest` makes of it.
pub mod Laws
pub mod Rebuilding
pub mod Examples
use Prim.Native.String
use open_pass.Base.{
  ℕ, suc, String, Bool, true, false, not, ◌==◌, Option, none, some, List, [], ◌∷◌, if◌then◌else◌,
  any, eqb, ◌&&◌,
}
use open_pass.Base.Assoc.{Assoc, lookup, insert, remove}
use open_pass.Base.Text.{join, has_suffix, trim_suffix, text_length}
use open_pass.Base.Text.Lines.{take_text}

pub record ManifestEntry : Type 0 where
  pub sha256 : String
  pub size : ℕ
  pub mtime : ℕ

pub record Manifest : Type 0 where
  pub version : ℕ
  pub created : ℕ
  pub updated : ℕ
  pub entries : Assoc ManifestEntry

-- `ManifestVerifyResult`
pub record VerifyResult : Type 0 where
  pub missing : List String
  pub tampered : List String
  pub unknown : List String
  pub ok : ℕ

-- a file of the directory "entries", which may not be readable
pub data EntryFile : Type 0 where
  readable : (content : String) (mtime : ℕ) → EntryFile
  locked : EntryFile

-- manifest.age: not there, not to be read or decrypted or parsed, or a manifest
pub data ManifestFile : Type 0 where
  no_file broken : ManifestFile
  holds : Manifest → ManifestFile

-- the vault on the disk: whether its configuration can be loaded, and which files a walk reaches; it
-- skips what it has no access to, without an error
pub record VaultFiles : Type 0 where
  pub manifest : ManifestFile
  pub files : Assoc EntryFile
  pub config_ok : Bool
  pub walks : String → Bool

-- whether a walk takes a file for one of an entry
abbrev pub is_entry_file : (String → Bool) → String → Bool
is_entry_file walks file = walks file && has_suffix file ".age"

abbrev empty_manifest : ℕ → Manifest
empty_manifest now = record { version = 1; created = now; updated = 0; entries = [] }

-- `writeManifest`, where `written` is whether it gets to the disk
unfoldable pub write_manifest :
    (written : Bool) (now : ℕ) → Manifest → VaultFiles → VaultFiles × Bool
write_manifest written now m v =
    let stored = record m { version = if eqb m.version 0 then 1 else m.version; updated = now } in
    if written then (record v { manifest = holds stored }, true) else (v, false)

-- the path of an entry's file; `pseudonym` is the hash of a path if paths are pseudonymized
unfoldable pub entry_storage_path : Option (String → String) → String → String
entry_storage_path none path = join path ".age"
entry_storage_path (some pseudonym) path =
    join (take_text 2 (pseudonym path)) (join "/" (join (pseudonym path) ".age"))

-- what is found of one entry of the manifest
pub data Finding : Type 0 where
  intact unreadable : Finding
  is_missing is_tampered : (path : String) → Finding

abbrev pub add_finding : Finding → Option VerifyResult → Option VerifyResult
add_finding unreadable r = none
add_finding _ none = none
add_finding intact (some r) = some (record r { ok = suc r.ok })
add_finding (is_missing path) (some r) = some (record r { missing = path ∷ r.missing })
add_finding (is_tampered path) (some r) = some (record r { tampered = path ∷ r.tampered })

module _ (sha : String → String) where
  abbrev pub entry_of : String → ℕ → ManifestEntry
  entry_of content mtime = record {
    sha256 = sha content;
    size = text_length content;
    mtime = mtime;
  }

  abbrev update_in :
      (written : Bool) (now : ℕ) (path ciphertext : String)
      → VaultFiles
      → Manifest
      → VaultFiles × Bool
  update_in written now path ciphertext v m =
      write_manifest written now
        (record m { entries = insert path (entry_of ciphertext now) m.entries }) v

  abbrev update_file :
      (written : Bool) (now : ℕ) (path ciphertext : String)
      → VaultFiles
      → ManifestFile
      → VaultFiles × Bool
  update_file written now path ciphertext v broken = (v, false)
  update_file written now path ciphertext v no_file =
      update_in written now path ciphertext v (empty_manifest now)
  update_file written now path ciphertext v (holds m) = update_in written now path ciphertext v m

  unfoldable pub update_manifest_entry :
      (written : Bool) (now : ℕ) (path ciphertext : String) → VaultFiles → VaultFiles × Bool
  update_manifest_entry written now path ciphertext v =
      update_file written now path ciphertext v v.manifest

  abbrev remove_in :
      (written : Bool) (now : ℕ) (path : String) → VaultFiles → ManifestFile → VaultFiles × Bool
  remove_in written now path v no_file = (v, true)
  remove_in written now path v broken = (v, false)
  remove_in written now path v (holds m) =
      write_manifest written now (record m { entries = remove path m.entries }) v

  unfoldable pub remove_manifest_entry :
      (written : Bool) (now : ℕ) (path : String) → VaultFiles → VaultFiles × Bool
  remove_manifest_entry written now path v = remove_in written now path v v.manifest

  -- one round of the loop over the entries
  abbrev pub check_file : String → ManifestEntry → Option EntryFile → Finding
  check_file path e none = is_missing path
  check_file path e (some locked) = unreadable
  check_file path e (some (readable content mtime)) =
      if sha content == e.sha256 then intact else is_tampered path

  module _ (pseudonym : Option (String → String)) where
    -- the loop over the entries, read from its end
    unfoldable pub verify_entries :
        Assoc EntryFile → Assoc ManifestEntry → VerifyResult → Option VerifyResult
    verify_entries files [] result = some result
    verify_entries files ((path, e) ∷ rest) result =
        add_finding (check_file path e (lookup (entry_storage_path pseudonym path) files))
          (verify_entries files rest result)

    -- whether a file is one that an entry of the manifest stands for
    abbrev pub is_known : Assoc ManifestEntry → String → Bool
    is_known entries file = any (λ p. entry_storage_path pseudonym p.0 == file) entries

    -- the walk over the files
    unfoldable pub unknown_files :
        (String → Bool) → Assoc ManifestEntry → Assoc EntryFile → List String
    unknown_files walks entries [] = []
    unknown_files walks entries ((file, _) ∷ rest) =
        if is_entry_file walks file
        then (if is_known entries file
            then unknown_files walks entries rest
            else file ∷ unknown_files walks entries rest)
        else unknown_files walks entries rest

    abbrev verify_in : VaultFiles → ManifestFile → Option VerifyResult
    verify_in v no_file = none
    verify_in v broken = none
    verify_in v (holds m) =
        let result = verify_entries v.files m.entries (record {
          missing = [];
          tampered = [];
          unknown = unknown_files v.walks m.entries v.files;
          ok = 0;
        }) in
        if v.config_ok then result else none

    unfoldable pub verify_manifest_integrity : VaultFiles → Option VerifyResult
    verify_manifest_integrity v = verify_in v v.manifest

  -- one file in the walk of `RebuildManifest`
  abbrev pub add_file :
      (String → Bool) → String → EntryFile → Assoc ManifestEntry → Assoc ManifestEntry
  add_file walks file locked entries = entries
  add_file walks file (readable content mtime) entries =
      if is_entry_file walks file
      then insert (trim_suffix file ".age") (entry_of content mtime) entries
      else entries

  unfoldable pub rebuilt_entries :
      (String → Bool) → Assoc EntryFile → Assoc ManifestEntry → Assoc ManifestEntry
  rebuilt_entries walks [] entries = entries
  rebuilt_entries walks ((file, state) ∷ rest) entries =
      rebuilt_entries walks rest (add_file walks file state entries)

  unfoldable pub rebuild_manifest : (written : Bool) (now : ℕ) → VaultFiles → VaultFiles × Bool
  rebuild_manifest written now v =
      write_manifest written now
        (record (empty_manifest now) { entries = rebuilt_entries v.walks v.files [] }) v
