-- ===== src/Session/Types.antt =====
-- internal/session/session.go: what is stored of a session, and what the session cache is given.
use Prim.Native.String
use open_pass.Base.{ℕ, String, Bool, Option, if◌then◌else◌, eqb}
use open_pass.Base.Clock.{ℤ, sub_time, ltz}
use open_pass.Session.Actions.{M}

-- `storedSession`
pub record StoredSession : Type 0 where
  pub saved_at : ℕ
  pub last_access : ℕ
  pub passphrase : String
  pub encrypted_passphrase : String
  pub nonce : String
  pub ttl : ℤ

-- `storedIdentity`
pub record StoredIdentity : Type 0 where
  pub saved_at : ℕ
  pub last_access : ℕ
  pub encrypted_identity : String
  pub nonce : String
  pub ttl : ℤ

-- encoding/json on the two records, encoding/base64, and AES-GCM with a key and a nonce
pub record Codec : Type 0 where
  pub encode_session : StoredSession → Option String
  pub decode_session : String → Option StoredSession
  pub encode_identity : StoredIdentity → Option String
  pub decode_identity : String → Option StoredIdentity
  pub base64 : String → String
  pub unbase64 : String → Option String
  pub seal : (key nonce plain : String) → Option String
  pub unseal : (key nonce sealed : String) → Option String

-- `keyringSet`, `keyringGet` and `keyringDelete`; a set may need a random nonce, and a get the time
pub record Keyring (S : Type 0) : Type 0 where
  pub set : (nonce : Option String) (service account value : String) → M S (Unit {0})
  pub get : (now : ℕ) (service account : String) → M S String
  pub delete : (service account : String) → M S (Unit {0})

-- what crypto/rand gives in one operation; none where it fails
pub record Random : Type 0 where
  pub key : Option String
  pub nonce : Option String

abbrev pub service_name : String → String
service_name vault_dir = String.◌++◌ "openpass:" vault_dir

abbrev pub wrap_key_len : ℕ
wrap_key_len = 32

-- the time of the last use
abbrev pub last_activity : (saved_at last_access : ℕ) → ℕ
last_activity saved_at last_access = if eqb last_access 0 then saved_at else last_access

-- time.Since(lastActivity) > ttl
abbrev pub is_past : (now last : ℕ) → ℤ → Bool
is_past now last ttl = ltz ttl (sub_time now last)
