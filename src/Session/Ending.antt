-- ===== src/Session/Ending.antt =====
-- The end of a session: what has expired or was cleared is not loaded.

use open_pass.Base.{
  ℕ, String, true, not, ◌==◌, ◌&&◌, ◌≡◌, refl, ◌∙◌, Option, none, some, inl, inr, Bool-cases,
  Option-cases,
}
use open_pass.Base.Clock.{is_positive}
use open_pass.Session.Actions.{and_then, and_then-fail, fails_after, goes_on_after, ignore}
use open_pass.Session.Interface.{KeyringLaws}
use open_pass.Session.{
  StoredSession, Codec, Keyring, Random, service_name, last_activity, is_past, session_past,
  expired_text, load_wrap_key, load_passphrase, load_raw, load_live, resolve_passphrase,
  refresh_session, delete_wrap_key, clear_identity, clear_session, load_identity,
  is_session_expired,
}

module _ {S : Type 0} (c : Codec) (k : Keyring S) (now : ℕ) (rand : Random)
    (vault_dir : String) where
  abbrev service : String
  service = service_name vault_dir

  past_raw :
      (s : S) (raw : String)
      → session_past c k now rand vault_dir (c.decode_session raw) ≡ true
      → (load_raw c k now rand vault_dir raw s).1 ≡ none
  unfolding load_live
  past_raw s raw h = elim (Option-cases (c.decode_session raw)) [
    | inl e ↦ rw e refl
    | inr (sess, e) ↦ elim (Bool-cases (is_positive sess.ttl)) [
      | inr short ↦ rw (e, short) refl
      | inl long ↦ rw (e, long, rw (e, long) at h) refl
    ]
  ]

  past_text :
      (r : S × Option String)
      → (expired_text c k now rand vault_dir r).1 ≡ true
      → (and_then (load_raw c k now rand vault_dir) r).1 ≡ none
  past_text (s, none) h = refl
  past_text (s, some raw) h = past_raw s raw h

  -- A session that `IsSessionExpired` reports is not loaded, whatever the keyring.
  load_passphrase_expired :
      (s : S)
      → (is_session_expired c k now rand vault_dir s).1 ≡ true
      → (load_passphrase c k now rand vault_dir s).1 ≡ none
  unfolding is_session_expired load_passphrase
  load_passphrase_expired s h = past_text (k.get now service "session" s) h

-- A delete succeeds.
abbrev pub Deletes : {S : Type 0} → Keyring S → Type 0
Deletes k = (service account : String) (s : _) → (k.delete service account s).1 ≡ some tt

module _ {S : Type 0} (c : Codec) (k : Keyring S) (kept : KeyringLaws k) (rand : Random)
    (vault_dir : String) where
  abbrev vault : String
  vault = service_name vault_dir

  -- The keyring has nothing of the vault.
  pub record Gone (s : S) : Type 0 where
    pub no_session : kept.view s vault "session" ≡ none
    pub no_key : kept.view s vault "wrap-key" ≡ none
    pub no_identity : kept.view s vault "identity" ≡ none

  -- Clearing a session removes the passphrase, the key and the identity.
  clear_session-Gone :
      (now : ℕ) (s : S)
      → Deletes k
      → ((clear_session c k now rand vault_dir s).1 ≡ some tt)
        × Gone (clear_session c k now rand vault_dir s).0
  unfolding clear_session delete_wrap_key clear_identity
  clear_session-Gone now s ok =
      let s1 = (k.delete vault "session" s).0 in
      let s2 = (k.delete vault "wrap-key" s1).0 in
      let first = kept.view-delete vault "session" in
      let second = kept.view-delete vault "wrap-key" in
      let third = kept.view-delete vault "identity" in
      let ok1 = ok vault "session" s in
      let ok2 = ok vault "wrap-key" s1 in
      let ok3 = ok vault "identity" s2 in
      rw (goes_on_after _ (k.delete vault "session" s) tt ok1) (
        refl,
        record {
          no_session = third "session" s2 ok3 ∙ second "session" s1 ok2 ∙ first "session" s ok1;
          no_key = third "wrap-key" s2 ok3 ∙ second "wrap-key" s1 ok2;
          no_identity = third "identity" s2 ok3;
        },
      )

  -- Nothing is loaded where the keyring has nothing.
  Gone-load :
      (now : ℕ) (s : S)
      → Gone s
      → ((load_passphrase c k now rand vault_dir s).1 ≡ none)
        × ((load_identity c k now rand vault_dir s).1 ≡ none)
  unfolding load_passphrase load_identity
  Gone-load now s gone = (
    rw (kept.get_lem now vault "session" s, gone.no_session) refl,
    rw (kept.get_lem now vault "identity" s, gone.no_identity) refl,
  )

  -- After `ClearSession`, neither the passphrase nor the identity is loaded at any time, if the
  -- keyring deletes what it is told to.
  pub load-clear_session :
      (now later : ℕ) (s : S)
      → Deletes k
      → let s' = (clear_session c k now rand vault_dir s).0 in
        ((load_passphrase c k later rand vault_dir s').1 ≡ none)
        × ((load_identity c k later rand vault_dir s').1 ≡ none)
  load-clear_session now later s ok =
      Gone-load later (clear_session c k now rand vault_dir s).0 (clear_session-Gone now s ok).1

  no_key_found :
      (now : ℕ) (s : S)
      → kept.view s vault "wrap-key" ≡ none
      → load_wrap_key c k now rand vault_dir s ≡ (s, none)
  unfolding load_wrap_key
  no_key_found now s no_key = rw (kept.get_lem now vault "wrap-key" s, no_key) refl

  resolve_passphrase_without_key :
      (now : ℕ) (s : S) (sess : StoredSession)
      → kept.view s vault "wrap-key" ≡ none
      → (resolve_passphrase c k now rand vault_dir sess s).1 ≡ none
  unfolding resolve_passphrase
  resolve_passphrase_without_key now s sess no_key =
      elim (Bool-cases (not (sess.encrypted_passphrase == "") && not (sess.nonce == ""))) [
        | inl e ↦ rw (e, no_key_found now s no_key) refl
        | inr e ↦ elim (Bool-cases (not (sess.passphrase == ""))) [
          | inl plain ↦ rw (e, plain, no_key_found now s no_key) refl
          | inr empty ↦ rw (e, empty) refl
        ]
      ]

  load_live_without_key :
      (now : ℕ) (s : S) (sess : StoredSession)
      → kept.view s vault "wrap-key" ≡ none
      → (load_live c k now rand vault_dir sess s).1 ≡ none
  unfolding load_live
  load_live_without_key now s sess no_key =
      elim (Bool-cases (is_past now (last_activity sess.saved_at sess.last_access) sess.ttl)) [
        | inl e ↦ rw e (and_then-fail (ignore (clear_session c k now rand vault_dir) s))
        | inr e ↦ rw e (
            fails_after (λ resolved. refresh_session c k now rand vault_dir resolved)
              (resolve_passphrase c k now rand vault_dir sess s)
              (resolve_passphrase_without_key now s sess no_key))
      ]

  load_raw_without_key :
      (now : ℕ) (s : S) (raw : String)
      → kept.view s vault "wrap-key" ≡ none
      → (load_raw c k now rand vault_dir raw s).1 ≡ none
  load_raw_without_key now s raw no_key = elim (Option-cases (c.decode_session raw)) [
    | inl e ↦ rw e refl
    | inr (sess, e) ↦ elim (Bool-cases (is_positive sess.ttl)) [
      | inl long ↦ rw (e, long) (load_live_without_key now s sess no_key)
      | inr short ↦ rw (e, short) refl
    ]
  ]

  -- Without the key of the vault in the keyring no passphrase is loaded, also none that was stored in
  -- plain text.
  load_passphrase_without_key :
      (now : ℕ) (s : S)
      → kept.view s vault "wrap-key" ≡ none
      → (load_passphrase c k now rand vault_dir s).1 ≡ none
  unfolding load_passphrase
  load_passphrase_without_key now s no_key = elim (Option-cases (kept.view s vault "session")) [
    | inl e ↦ rw (kept.get_lem now vault "session" s, e) refl
    | inr (raw, e) ↦
        rw (kept.get_lem now vault "session" s, e) (load_raw_without_key now s raw no_key)
  ]
