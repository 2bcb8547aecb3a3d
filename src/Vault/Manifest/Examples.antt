-- ===== src/Vault/Manifest/Examples.antt =====
-- Runs of the manifest on a vault with one entry.

use open_pass.Base.{String, true, refl, ◌↔◌, none, [], ◌∷◌, All}
use open_pass.Base.Text.{join}
use open_pass.Vault.Manifest.{
  Manifest, readable, no_file, holds, VaultFiles, verify_manifest_integrity, rebuild_manifest,
}
use open_pass.Vault.Manifest.Laws.{Matches, IsCovered, Verdict, verify_manifest_integrity_clean}
use open_pass.Vault.Manifest.Rebuilding.{rebuild_manifest_clean}

abbrev digest : String → String
digest s = join "#" s

abbrev one_entry : VaultFiles
one_entry = record {
  manifest = no_file;
  files = ("mail.age", readable "abc" 1) ∷ [];
  config_ok = true;
  walks = λ file. true;
}

rebuild_manifest_clean_example :
    Verdict (verify_manifest_integrity digest none (rebuild_manifest digest true 5 one_entry).0)
rebuild_manifest_clean_example =
    rebuild_manifest_clean digest 5 one_entry (tt, tt) ((λ h. ("abc", 1, refl)), tt) refl

abbrev one_listed : Manifest
one_listed = record {
  version = 1;
  created = 1;
  updated = 1;
  entries = ("mail", record { sha256 = "#abc"; size = 3; mtime = 1 }) ∷ [];
}

abbrev listed : VaultFiles
listed = record one_entry { manifest = holds one_listed }

verify_manifest_integrity_clean_example : Verdict (verify_manifest_integrity digest none listed) ↔ (
    All (Matches digest none listed.files) one_listed.entries
    × All (IsCovered digest none listed.walks one_listed.entries) listed.files)
verify_manifest_integrity_clean_example =
    verify_manifest_integrity_clean digest none listed one_listed refl refl
