-- ===== src/Session/Interface.antt =====
-- What the session cache relies on: of the libraries for JSON, base64 and AES-GCM, of the random
-- numbers, and of a keyring.
use open_pass.Base.{ℕ, String, false, ◌==◌, ◌≡◌, Option, none, some, if◌then◌else◌}
use open_pass.Base.Text.{text_length}
use open_pass.Session.{Codec, Keyring, Random, StoredSession, StoredIdentity, wrap_key_len}

pub record CodecLaws (c : Codec) : Type 0 where
  pub decode-encode_session :
      (x : StoredSession) (t : String) → c.encode_session x ≡ some t → c.decode_session t ≡ some x
  pub decode-encode_identity :
      (x : StoredIdentity) (t : String)
      → c.encode_identity x ≡ some t
      → c.decode_identity t ≡ some x
  pub unbase64-base64 : (s : String) → c.unbase64 (c.base64 s) ≡ some s
  pub base64_not_empty : (s : String) → (s == "") ≡ false → (c.base64 s == "") ≡ false
  pub unseal-seal :
      (key nonce plain sealed : String)
      → c.seal key nonce plain ≡ some sealed
      → c.unseal key nonce sealed ≡ some plain
  pub seal_not_empty :
      (key nonce plain sealed : String)
      → c.seal key nonce plain ≡ some sealed
      → (sealed == "") ≡ false

-- A random key has its length, and a nonce is not empty.
pub record RandomLaws (r : Random) : Type 0 where
  pub key_length : (key : String) → r.key ≡ some key → text_length key ≡ wrap_key_len
  pub key_not_empty : (key : String) → r.key ≡ some key → (key == "") ≡ false
  pub nonce_not_empty : (nonce : String) → r.nonce ≡ some nonce → (nonce == "") ≡ false

-- A keyring that keeps what it is given: a get changes nothing, a set or delete that succeeds
-- changes one account, and one that fails changes none.
pub record KeyringLaws {S : Type 0} (k : Keyring S) : Type 0 where
  pub view : S → (service account : String) → Option String
  pub get_lem :
      (now : ℕ) (service account : String) (s : S)
      → k.get now service account s ≡ (s, view s service account)
  pub view-set :
      (nonce : Option String) (service account value other : String) (s : S)
      → (k.set nonce service account value s).1 ≡ some tt
      → view (k.set nonce service account value s).0 service other
        ≡ (if account == other then some value else view s service other)
  pub set_failed :
      (nonce : Option String) (service account value : String) (s : S)
      → (k.set nonce service account value s).1 ≡ none
      → (k.set nonce service account value s).0 ≡ s
  pub view-delete :
      (service account other : String) (s : S)
      → (k.delete service account s).1 ≡ some tt
      → view (k.delete service account s).0 service other
        ≡ (if account == other then none else view s service other)
  pub delete_failed :
      (service account : String) (s : S)
      → (k.delete service account s).1 ≡ none
      → (k.delete service account s).0 ≡ s

-- Nothing fails: a session has an encoding, and a set succeeds.
pub record NoFaults {S : Type 0} (c : Codec) (k : Keyring S) : Type 0 where
  pub encodes : (x : StoredSession) → (t : String) × (c.encode_session x ≡ some t)
  pub sets :
      (nonce : Option String) (service account value : String) (s : S)
      → (k.set nonce service account value s).1 ≡ some tt
