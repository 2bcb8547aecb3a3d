-- ===== src/Vault.antt =====
-- internal/vault/entry.go and internal/pathutil/pathutil.go: the paths of the entries of the vault
-- (Path), and the data and tags of an entry (Data).
pub mod Path
pub mod Data
pub mod Manifest
pub mod Search
pub mod Examples
