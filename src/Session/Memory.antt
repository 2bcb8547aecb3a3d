-- ===== src/Session/Memory.antt =====
-- internal/session/memory_keyring.go: a keyring in the memory of the process, by
-- `service|account`. It reads what it stores as a session, unless that is no JSON.
pub mod Identity
use Prim.Native.String
use open_pass.Base.{
  ℕ, String, Bool, true, false, not, ◌==◌, ◌&&◌, Option, none, some, [], if◌then◌else◌,
}
use open_pass.Base.Assoc.{Assoc, lookup, insert, remove}
use open_pass.Base.Clock.{is_positive}
use open_pass.Session.Actions.{M, ◌>>=◌, ◌>>◌, lift, return, fail}
use open_pass.Session.{
  StoredSession, Codec, Keyring, last_activity, is_past, of_length, encrypt_passphrase,
  decrypt_passphrase,
}

-- `memoryKeyring`; a nil map has no entries
pub record MemoryKeyring : Type 0 where
  pub store : Assoc String

unfoldable pub store_key : (service account : String) → String
store_key service account = String.◌++◌ service (String.◌++◌ "|" account)

abbrev put : String → String → M MemoryKeyring (Unit {0})
put key value m = (record m { store = insert key value m.store }, some tt)

-- delete(m.store, key), and the error "not found"
abbrev drop {ℓ} : {A : Type ℓ} → String → MemoryKeyring → MemoryKeyring × Option A
drop key m = (record m { store = remove key m.store }, none)

module _ (codec : Codec) where
  open codec use {encode_session, decode_session}

  abbrev key_of : Option String → Option String
  key_of none = none
  key_of (some text) = of_length codec (codec.unbase64 text)

  -- `encryptionKeyForStore`
  unfoldable pub encryption_key_for_store : String → M MemoryKeyring String
  encryption_key_for_store service m = (m, key_of (lookup (store_key service "wrap-key") m.store))

  abbrev without_plain : StoredSession → String × String → StoredSession
  without_plain sess (enc, nonce) = record sess {
    encrypted_passphrase = enc;
    nonce = nonce;
    passphrase = "";
  }

  -- the encryption of a passphrase that comes in plain
  abbrev sealed_session : Option String → String → StoredSession → M MemoryKeyring StoredSession
  sealed_session nonce service sess = if sess.passphrase == "" then return sess else (do
    key ← encryption_key_for_store service
    sealed ← lift (encrypt_passphrase codec nonce sess.passphrase key)
    return (without_plain sess sealed))

  abbrev set_decoded :
      Option String → String → String → String → Option StoredSession → M MemoryKeyring (Unit {0})
  set_decoded random service account value none =
      if account == "wrap-key" then put (store_key service account) value else fail
  set_decoded random service account value (some sess) = do
    sess' ← sealed_session random service sess
    payload ← lift (encode_session sess')
    put (store_key service account) payload

  -- `Set`
  unfoldable pub memory_set :
      (nonce : Option String) (service account value : String) → M MemoryKeyring (Unit {0})
  unfolding encryption_key_for_store
  memory_set nonce service account value =
      set_decoded nonce service account value (decode_session value)

  abbrev opens : StoredSession → Option String → Bool
  opens sess none = false
  opens sess (some key) = elim (decrypt_passphrase codec sess.encrypted_passphrase sess.nonce key) [
    | none ↦ false
    | some plain ↦ true
  ]

  -- whether the key of the store opens the passphrase of a session
  abbrev is_usable : String → StoredSession → MemoryKeyring → Bool
  is_usable service sess m =
      if not (sess.encrypted_passphrase == "") && not (sess.nonce == "")
      then opens sess (key_of (lookup (store_key service "wrap-key") m.store))
      else not (sess.passphrase == "")

  abbrev answer : String → Option String → MemoryKeyring → MemoryKeyring × Option String
  answer key none m = (m, none)
  answer key (some text) m = (record m { store = insert key text m.store }, some text)

  abbrev pub get_session : ℕ → String → String → StoredSession → M MemoryKeyring String
  get_session now service key sess m =
      if not (is_positive sess.ttl)
      then drop key m
      else if is_past now (last_activity sess.saved_at sess.last_access) sess.ttl
      then drop key m
      else if not (is_usable service sess m)
      then drop key m
      else answer key (encode_session (record sess { last_access = now })) m

  abbrev get_decoded : ℕ → String → String → String → Option StoredSession → M MemoryKeyring String
  get_decoded now service account payload none m =
      if account == "wrap-key" then (m, some payload) else drop (store_key service account) m
  get_decoded now service account payload (some sess) m =
      get_session now service (store_key service account) sess m

  abbrev get_found : ℕ → String → String → Option String → M MemoryKeyring String
  get_found now service account none m = (m, none)
  get_found now service account (some payload) m =
      get_decoded now service account payload (decode_session payload) m

  -- `Get`
  unfoldable pub memory_get : (now : ℕ) (service account : String) → M MemoryKeyring String
  memory_get now service account m =
      get_found now service account (lookup (store_key service account) m.store) m

  -- `Delete`
  unfoldable pub memory_delete : (service account : String) → M MemoryKeyring (Unit {0})
  memory_delete service account m =
      (record m { store = remove (store_key service account) m.store }, some tt)

  abbrev pub memory_keyring : Keyring MemoryKeyring
  memory_keyring = record { set = memory_set; get = memory_get; delete = memory_delete }
