-- ===== src/Session/Laws.antt =====
-- Saving, loading and clearing a passphrase through a keyring that keeps what it is given.

use open_pass.Base.{
  ℕ, ◌<◌, String, false, ◌==◌, ◌≡◌, refl, ap, ◌∙◌, Option, none, some, arith, inl, inr,
  Option-cases,
}
use open_pass.Base.Clock.{pos}
use open_pass.Session.Actions.{and_then-eq-some, return}
use open_pass.Session.Interface.{CodecLaws, RandomLaws, KeyringLaws}
use open_pass.Session.{
  StoredSession, Codec, Keyring, Random, service_name, last_activity, decode_wrap_key,
  encrypt_passphrase, decrypt_passphrase, load_wrap_key, create_wrap_key, get_or_create_wrap_key,
  session_of, store_passphrase, save_passphrase,
}

module _ (c : Codec) (laws : CodecLaws c) where
  -- What was encrypted with a key is decrypted with it, and neither text is empty.
  pub decrypt_passphrase-encrypt_passphrase :
      (nonce plain key enc out : String)
      → (nonce == "") ≡ false
      → encrypt_passphrase c (some nonce) plain key ≡ some (enc, out)
      → (decrypt_passphrase c enc out key ≡ some plain)
        × ((enc == "") ≡ false)
        × ((out == "") ≡ false)
  unfolding encrypt_passphrase decrypt_passphrase
  decrypt_passphrase-encrypt_passphrase nonce plain key enc out n h =
      elim (Option-cases (c.seal key nonce plain)) [
        | inl e ↦ absurd (ground (arith, rw e at h))
        | inr (sealed, e) ↦
            let k = rw e at h in
            let p : c.base64 sealed ≡ enc = ground (arith, k) in
            let q : c.base64 nonce ≡ out = ground (arith, k) in
            rw (← p, ← q, laws.unbase64-base64 sealed, laws.unbase64-base64 nonce)
              (
                laws.unseal-seal key nonce plain sealed e,
                laws.base64_not_empty sealed (laws.seal_not_empty key nonce plain sealed e),
                laws.base64_not_empty nonce n,
              )
      ]

encrypt_passphrase-nonce :
    (c : Codec) (nonce : Option String) (plain key : String) (p : String × String)
    → encrypt_passphrase c nonce plain key ≡ some p
    → (n : String) × (nonce ≡ some n)
unfolding encrypt_passphrase
encrypt_passphrase-nonce c none plain key p h = absurd (ground (arith, h))
encrypt_passphrase-nonce c (some n) plain key p h = (n, refl)

-- The keyring has the passphrase of a vault, last used at an instant.
pub record Cached {S : Type 0} (c : Codec) {k : Keyring S} (kept : KeyringLaws k)
    (vault_dir : String) (s : S) (plain : String) (ttl last : ℕ) : Type 0 where
  pub key_text : String
  pub key : String
  pub raw : String
  pub sess : StoredSession
  pub has_key : kept.view s (service_name vault_dir) "wrap-key" ≡ some key_text
  pub key_decodes : decode_wrap_key c key_text ≡ some key
  pub has_session : kept.view s (service_name vault_dir) "session" ≡ some raw
  pub session_decodes : c.decode_session raw ≡ some sess
  pub is_encrypted : (sess.encrypted_passphrase == "") ≡ false
  pub has_nonce : (sess.nonce == "") ≡ false
  pub decrypts : decrypt_passphrase c sess.encrypted_passphrase sess.nonce key ≡ some plain
  pub has_ttl : sess.ttl ≡ pos ttl
  pub lives : 0 < ttl
  pub used : last_activity sess.saved_at sess.last_access ≡ last

module _ {S : Type 0} (c : Codec) (laws : CodecLaws c) (k : Keyring S) (kept : KeyringLaws k)
    (rand : Random) (random : RandomLaws rand) (vault_dir : String) where
  abbrev service : String
  service = service_name vault_dir

  abbrev pub decoded_key : Option String → Option String
  decoded_key none = none
  decoded_key (some text) = decode_wrap_key c text

  pub load_wrap_key_lem :
      (now : ℕ) (s : S)
      → load_wrap_key c k now rand vault_dir s ≡ (s, decoded_key (kept.view s service "wrap-key"))
  unfolding load_wrap_key
  load_wrap_key_lem now s = elim (Option-cases (kept.view s service "wrap-key")) [
    | inl e ↦ rw (kept.get_lem now service "wrap-key" s, e) refl
    | inr (text, e) ↦ rw (kept.get_lem now service "wrap-key" s, e) refl
  ]

  decode_new_key :
      (key : String) → rand.key ≡ some key → decode_wrap_key c (c.base64 key) ≡ some key
  unfolding decode_wrap_key
  decode_new_key key h =
      let e = laws.base64_not_empty key (random.key_not_empty key h) in
      let l = random.key_length key h in rw (e, laws.unbase64-base64 key, l) refl

  -- A text in the keyring that stands for the key.
  abbrev HasKey : S → String → Type 0
  HasKey s key =
      (text : String) × (kept.view s service "wrap-key" ≡ some text)
      × (decode_wrap_key c text ≡ some key)

  decoded_key-HasKey :
      (s : S) (key : String)
      → decoded_key (kept.view s service "wrap-key") ≡ some key
      → HasKey s key
  decoded_key-HasKey s key h = elim (Option-cases (kept.view s service "wrap-key")) [
    | inl e ↦ absurd (ground (arith, rw e at h))
    | inr (text, e) ↦ (text, e, rw e at h)
  ]

  create_wrap_key_lem :
      (now : ℕ) (s : S) (key : String)
      → (create_wrap_key c k now rand vault_dir s).1 ≡ some key
      → HasKey (create_wrap_key c k now rand vault_dir s).0 key
  unfolding create_wrap_key
  create_wrap_key_lem now s key h = elim (Option-cases rand.key) [
    | inl e ↦ absurd (ground (arith, rw e at h))
    | inr (new, e) ↦
        let (u, stored, end) =
          and_then-eq-some (λ _. return new) (k.set rand.nonce service "wrap-key" (c.base64 new) s)
            (rw e at h) in
        let seen = kept.view-set rand.nonce service "wrap-key" (c.base64 new) "wrap-key" s stored in
        let same : new ≡ key = ground (arith, rw (e, end) at h) in
        rw (e, end) (c.base64 new, seen, decode_new_key new e ∙ ap some same)
  ]

  -- The key that is used to save is the one that a later load finds.
  get_or_create_wrap_key_lem :
      (now : ℕ) (s : S) (key : String)
      → (get_or_create_wrap_key c k now rand vault_dir s).1 ≡ some key
      → HasKey (get_or_create_wrap_key c k now rand vault_dir s).0 key
  unfolding get_or_create_wrap_key
  get_or_create_wrap_key_lem now s key h =
      let found = load_wrap_key_lem now s in
      elim (Option-cases (decoded_key (kept.view s service "wrap-key"))) [
        | inl e ↦ rw (found, e) (create_wrap_key_lem now s key (rw (found, e) at h))
        | inr (old, e) ↦
            let same : old ≡ key = ground (arith, rw (found, e) at h) in
            rw (found, e) (decoded_key-HasKey s key (e ∙ ap some same))
      ]

  -- The passphrase is stored encrypted with the key of the keyring.
  store_passphrase-Cached :
      (now ttl : ℕ) (plain key : String) (s : S)
      → HasKey s key
      → 0 < ttl
      → (store_passphrase c k now rand vault_dir plain (pos ttl) key s).1 ≡ some tt
      → Cached c kept vault_dir
          (store_passphrase c k now rand vault_dir plain (pos ttl) key s).0
          plain
          ttl
          now
  unfolding store_passphrase
  store_passphrase-Cached now ttl plain key s (text, seen, decodes) positive h =
      elim (Option-cases (encrypt_passphrase c rand.nonce plain key)) [
        | inl e ↦ absurd (ground (arith, rw e at h))
        | inr ((enc, out), e) ↦
            let sess = session_of c k now rand vault_dir (pos ttl) (enc, out) in
            elim (Option-cases (c.encode_session sess)) [
              | inl f ↦ absurd (ground (arith, rw (e, f) at h))
              | inr (payload, f) ↦
                  let stored = rw (e, f) at h in
                  let kept_text = kept.view-set rand.nonce service "session" payload in
                  let (nonce, r) = encrypt_passphrase-nonce c rand.nonce plain key (enc, out) e in
                  let (opens, enc_some, out_some) =
                    decrypt_passphrase-encrypt_passphrase c laws nonce plain key enc out
                      (random.nonce_not_empty nonce r) (rw r at e) in
                  rw (e, f)
                    (record {
                      key_text = text;
                      key = key;
                      raw = payload;
                      sess = sess;
                      has_key = kept_text "wrap-key" s stored ∙ seen;
                      key_decodes = decodes;
                      has_session = kept_text "session" s stored;
                      session_decodes = laws.decode-encode_session sess payload f;
                      is_encrypted = enc_some;
                      has_nonce = out_some;
                      decrypts = opens;
                      has_ttl = refl;
                      lives = positive;
                      used = ground arith;
                    })
            ]
      ]

  -- After a passphrase was saved, it is cached.
  pub save_passphrase-Cached :
      (now ttl : ℕ) (plain : String) (s : S)
      → 0 < ttl
      → (save_passphrase c k now rand vault_dir plain (pos ttl) s).1 ≡ some tt
      → Cached c kept vault_dir
          (save_passphrase c k now rand vault_dir plain (pos ttl) s).0
          plain
          ttl
          now
  unfolding save_passphrase
  save_passphrase-Cached now ttl plain s positive h =
      let (key, created, end) =
        and_then-eq-some (store_passphrase c k now rand vault_dir plain (pos ttl))
          (get_or_create_wrap_key c k now rand vault_dir s) h in
      let s' = (get_or_create_wrap_key c k now rand vault_dir s).0 in
      rw end (
        store_passphrase-Cached now ttl plain key s' (get_or_create_wrap_key_lem now s key created)
          positive (rw end at h))
