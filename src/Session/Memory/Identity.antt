-- ===== src/Session/Memory/Identity.antt =====
-- What becomes of an identity in the keyring of the memory.

use open_pass.Base.{
  ℕ, String, ◌≡◌, refl, ◌∙◌, Option, none, some, arith, inl, inr, Bool-cases, Option-cases, eq_refl,
}
use open_pass.Base.Assoc.{lookup, lookup-insert}
use open_pass.Base.Clock.{ℤ, is_positive}
use open_pass.Session.Actions.{and_then-eq-some, fails_after}
use open_pass.Session.{
  StoredSession, StoredIdentity, Codec, Random, service_name, last_activity, is_past,
  encrypt_passphrase, identity_of, get_or_create_wrap_key, store_identity, save_identity,
  load_raw_identity, load_identity,
}
use open_pass.Session.Memory.{
  MemoryKeyring, store_key, get_session, memory_set, memory_get, memory_keyring,
}

-- encoding/json reads the text of an identity as a session: it skips the key "encrypted_identity", and
-- leaves the passphrases empty.
abbrev pub as_session : StoredIdentity → StoredSession
as_session i = record {
  saved_at = i.saved_at;
  last_access = i.last_access;
  passphrase = "";
  encrypted_passphrase = "";
  nonce = i.nonce;
  ttl = i.ttl;
}

pub record SharedFormat (c : Codec) : Type 0 where
  pub decode-encode_identity :
      (i : StoredIdentity) (t : String)
      → c.encode_identity i ≡ some t
      → c.decode_session t ≡ some (as_session i)
  pub decode-encode_session :
      (x : StoredSession) (t : String) → c.encode_session x ≡ some t → c.decode_session t ≡ some x

module _ (c : Codec) (format : SharedFormat c) (rand : Random) (vault_dir : String) where
  abbrev account_key : String
  account_key = store_key (service_name vault_dir) "identity"

  -- the memory has nothing, or a session without a passphrase, in the place of the identity
  abbrev HasNoSecret : MemoryKeyring → Type 0
  HasNoSecret m =
      (i : StoredIdentity) × (text : String) × (lookup account_key m.store ≡ some text)
      × (c.decode_session text ≡ some (as_session i))

  memory_set-HasNoSecret :
      (random : Option String) (i : StoredIdentity) (payload : String) (m : MemoryKeyring)
      → c.encode_identity i ≡ some payload
      → (memory_set c random (service_name vault_dir) "identity" payload m).1 ≡ some tt
      → HasNoSecret (memory_set c random (service_name vault_dir) "identity" payload m).0
  unfolding memory_set
  memory_set-HasNoSecret random i payload m e h =
      let d = format.decode-encode_identity i payload e in
      elim (Option-cases (c.encode_session (as_session i))) [
        | inl f ↦ absurd (ground (arith, rw (d, f) at h))
        | inr (text, f) ↦
            rw (d, f)
              (
                i,
                text,
                lookup-insert account_key account_key text m.store ∙ rw eq_refl refl,
                format.decode-encode_session (as_session i) text f,
              )
      ]

  no_secret_found :
      (now : ℕ) (key : String) (i : StoredIdentity) (m : MemoryKeyring)
      → (get_session c now (service_name vault_dir) key (as_session i) m).1 ≡ none
  no_secret_found now key i m = elim (Bool-cases (is_positive i.ttl)) [
    | inr short ↦ rw short refl
    | inl long ↦ elim (Bool-cases (is_past now (last_activity i.saved_at i.last_access) i.ttl)) [
      | inl old ↦ rw (long, old) refl
      | inr young ↦ rw (long, young) refl
    ]
  ]

  load_none :
      (now : ℕ) (m : MemoryKeyring)
      → HasNoSecret m
      → (load_identity c (memory_keyring c) now rand vault_dir m).1 ≡ none
  unfolding load_identity memory_get
  load_none now m (i, text, seen, decodes) =
      rw (seen, decodes)
        (fails_after (load_raw_identity c (memory_keyring c) now rand vault_dir)
          (get_session c now (service_name vault_dir) account_key (as_session i) m)
          (no_secret_found now account_key i m))

  store_identity-HasNoSecret :
      (saved : ℕ) (ttl : ℤ) (identity key : String) (m : MemoryKeyring)
      → (store_identity c (memory_keyring c) saved rand vault_dir identity ttl key m).1 ≡ some tt
      → HasNoSecret (store_identity c (memory_keyring c) saved rand vault_dir identity ttl key m).0
  unfolding store_identity
  store_identity-HasNoSecret saved ttl identity key m h =
      elim (Option-cases (encrypt_passphrase c rand.nonce identity key)) [
        | inl e ↦ absurd (ground (arith, rw e at h))
        | inr ((enc, out), e) ↦
            let i = identity_of c (memory_keyring c) saved rand vault_dir ttl (enc, out) in
            elim (Option-cases (c.encode_identity i)) [
              | inl f ↦ absurd (ground (arith, rw (e, f) at h))
              | inr (payload, f) ↦
                  rw (e, f) (memory_set-HasNoSecret rand.nonce i payload m f (rw (e, f) at h))
            ]
      ]

  -- An identity that was saved in the keyring of the memory is never loaded again, as the keyring
  -- keeps of it only what a session has.
  pub load_identity-save_identity :
      (saved now : ℕ) (ttl : ℤ) (identity : String) (m : MemoryKeyring)
      → (save_identity c (memory_keyring c) saved rand vault_dir identity ttl m).1 ≡ some tt
      → (load_identity c
          (memory_keyring c)
          now
          rand
          vault_dir
          (save_identity c (memory_keyring c) saved rand vault_dir identity ttl m).0).1
        ≡ none
  unfolding save_identity
  load_identity-save_identity saved now ttl identity m h =
      let created = get_or_create_wrap_key c (memory_keyring c) saved rand vault_dir m in
      let (key, found, end) =
        and_then-eq-some (store_identity c (memory_keyring c) saved rand vault_dir identity ttl)
          created h in
      rw end (
        load_none now
          (store_identity c (memory_keyring c) saved rand vault_dir identity ttl key created.0).0
          (store_identity-HasNoSecret saved ttl identity key created.0 (rw end at h)))
