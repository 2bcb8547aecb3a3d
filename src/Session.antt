-- ===== src/Session.antt =====
-- internal/session/session.go: the passphrase and the identity of a vault, cached encrypted in a
-- keyring with a time to live. The keyring, JSON, base64 and AES-GCM are parameters; the readings of
-- the clock in one operation are one instant. The zero time is 0. Metrics are left out.
pub mod Actions
pub mod Types
pub mod Interface
pub mod Laws
pub mod Loading
pub mod Ending
pub mod Sample
pub mod Examples
pub mod Memory
unfoldable pub use Types.*
use Prim.Native.String
use open_pass.Base.{
  ℕ, String, Bool, true, false, not, ◌==◌, ◌&&◌, Option, none, some, if◌then◌else◌, eqb,
}
use open_pass.Base.Clock.{ℤ, is_positive, sub_time, ltz}
use open_pass.Base.Text.{text_length}
use open_pass.Session.Actions.{M, ◌>>=◌, ◌>>◌, lift, return, fail, ignore, attempt}

module _ (codec : Codec) where
  open codec use {
    encode_session, decode_session, encode_identity, decode_identity, base64, unbase64, seal,
    unseal,
  }

  abbrev pub of_length : Option String → Option String
  of_length none = none
  of_length (some key) = if eqb (text_length key) wrap_key_len then some key else none

  -- the decoding of `loadWrapKey`
  unfoldable pub decode_wrap_key : String → Option String
  decode_wrap_key text = if text == "" then none else of_length (unbase64 text)

  abbrev with_nonce : String → Option String → Option (String × String)
  with_nonce nonce none = none
  with_nonce nonce (some sealed) = some (base64 sealed, base64 nonce)

  unfoldable pub encrypt_passphrase :
      (nonce : Option String) (plain key : String) → Option (String × String)
  encrypt_passphrase none plain key = none
  encrypt_passphrase (some nonce) plain key = with_nonce nonce (seal key nonce plain)

  abbrev pub open_with : String → Option String → Option String → Option String
  open_with key (some sealed) (some nonce) = unseal key nonce sealed
  open_with key _ _ = none

  unfoldable pub decrypt_passphrase : (enc nonce key : String) → Option String
  decrypt_passphrase enc nonce key = open_with key (unbase64 enc) (unbase64 nonce)

  module _ {S : Type 0} (k : Keyring S) (now : ℕ) (rand : Random) (vault_dir : String) where
    abbrev service : String
    service = service_name vault_dir

    unfoldable pub load_wrap_key : M S String
    load_wrap_key = do text ← k.get now service "wrap-key"; lift (decode_wrap_key text)

    unfoldable pub create_wrap_key : M S String
    create_wrap_key = do
      key ← lift rand.key
      k.set rand.nonce service "wrap-key" (base64 key)
      return key

    unfoldable pub get_or_create_wrap_key : M S String
    unfolding load_wrap_key create_wrap_key
    get_or_create_wrap_key = attempt load_wrap_key return create_wrap_key

    unfoldable pub delete_wrap_key : M S (Unit {0})
    delete_wrap_key = k.delete service "wrap-key"

    -- what `SavePassphrase` and `SaveIdentity` write
    abbrev pub session_of : ℤ → String × String → StoredSession
    session_of ttl (enc, nonce) = record {
      saved_at = now;
      last_access = now;
      passphrase = "";
      encrypted_passphrase = enc;
      nonce = nonce;
      ttl = ttl;
    }

    abbrev pub identity_of : ℤ → String × String → StoredIdentity
    identity_of ttl (enc, nonce) = record {
      saved_at = now;
      last_access = now;
      encrypted_identity = enc;
      nonce = nonce;
      ttl = ttl;
    }

    unfoldable pub store_passphrase : String → ℤ → (key : String) → M S (Unit {0})
    store_passphrase passphrase ttl key = do
      sealed ← lift (encrypt_passphrase rand.nonce passphrase key)
      payload ← lift (encode_session (session_of ttl sealed))
      k.set rand.nonce service "session" payload

    unfoldable pub save_passphrase : String → ℤ → M S (Unit {0})
    save_passphrase passphrase ttl = do
      key ← get_or_create_wrap_key
      store_passphrase passphrase ttl key

    unfoldable pub store_identity : String → ℤ → (key : String) → M S (Unit {0})
    store_identity identity ttl key = do
      sealed ← lift (encrypt_passphrase rand.nonce identity key)
      payload ← lift (encode_identity (identity_of ttl sealed))
      k.set rand.nonce service "identity" payload

    unfoldable pub save_identity : String → ℤ → M S (Unit {0})
    save_identity identity ttl = do key ← get_or_create_wrap_key; store_identity identity ttl key

    unfoldable pub clear_identity : M S (Unit {0})
    clear_identity = k.delete service "identity"

    unfoldable pub clear_session : M S (Unit {0})
    unfolding delete_wrap_key clear_identity
    clear_session = do k.delete service "session"; ignore delete_wrap_key; ignore clear_identity

    abbrev migrated : StoredSession → Option (String × String) → StoredSession
    migrated sess none = sess
    migrated sess (some (enc, nonce)) = record sess {
      encrypted_passphrase = enc;
      nonce = nonce;
      passphrase = "";
    }

    -- the passphrase of a session, and the session to store again
    unfoldable pub resolve_passphrase : StoredSession → M S (String × StoredSession)
    resolve_passphrase sess =
        if not (sess.encrypted_passphrase == "") && not (sess.nonce == "")
        then (do
          key ← load_wrap_key
          plain ← lift (decrypt_passphrase sess.encrypted_passphrase sess.nonce key)
          return (plain, sess))
        else if not (sess.passphrase == "")
        then (do
          key ← load_wrap_key
          return
              (sess.passphrase, migrated sess (encrypt_passphrase rand.nonce sess.passphrase key)))
        else fail

    -- the end of `LoadPassphrase`: the session is stored again with the time of this access
    unfoldable pub refresh_session : String × StoredSession → M S String
    refresh_session (plain, sess) =
        attempt load_wrap_key
          (λ key. do
            ignore (do
              payload ← lift (encode_session (record sess { last_access = now }))
              k.set rand.nonce service "session" payload)
            return plain)
          (do ignore (save_passphrase plain sess.ttl); return plain)

    unfoldable pub load_live : StoredSession → M S String
    load_live sess =
        if is_past now (last_activity sess.saved_at sess.last_access) sess.ttl
        then (do ignore clear_session; fail)
        else (do resolved ← resolve_passphrase sess; refresh_session resolved)

    abbrev pub load_raw : String → M S String
    load_raw raw = do
      sess ← lift (decode_session raw)
      if is_positive sess.ttl then load_live sess else fail

    unfoldable pub load_passphrase : M S String
    load_passphrase = do raw ← k.get now service "session"; load_raw raw

    unfoldable pub load_live_identity : StoredIdentity → M S String
    load_live_identity ident =
        if is_past now (last_activity ident.saved_at ident.last_access) ident.ttl
        then (do ignore clear_identity; fail)
        else (do
          key ← load_wrap_key
          plain ← lift (decrypt_passphrase ident.encrypted_identity ident.nonce key)
          ignore (do
            payload ← lift (encode_identity (record ident { last_access = now }))
            k.set rand.nonce service "identity" payload)
          return plain)

    abbrev pub load_raw_identity : String → M S String
    load_raw_identity raw = do
      ident ← lift (decode_identity raw)
      if is_positive ident.ttl then load_live_identity ident else fail

    unfoldable pub load_identity : M S String
    load_identity = do raw ← k.get now service "identity"; load_raw_identity raw

    abbrev pub session_past : Option StoredSession → Bool
    session_past none = true
    session_past (some sess) =
        if is_positive sess.ttl
        then is_past now (last_activity sess.saved_at sess.last_access) sess.ttl
        else true

    abbrev pub expired_text : S × Option String → S × Bool
    expired_text (s, none) = (s, true)
    expired_text (s, some raw) = (s, session_past (decode_session raw))

    unfoldable pub is_session_expired : S → S × Bool
    is_session_expired s = expired_text (k.get now service "session" s)
