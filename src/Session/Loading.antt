-- ===== src/Session/Loading.antt =====
-- Loading a passphrase: it is found for as long as it lives, each use prolongs that, and nothing is
-- found afterwards.

use open_pass.Base.{
  ℕ, ◌+◌, ◌≤◌, ◌<◌, String, true, false, ◌≡◌, refl, ap, ◌∙◌, Option, none, some, List, [], ◌∷◌, map,
  arith, inl, inr, Option-cases,
}
use open_pass.Base.Clock.{pos, is_positive}
use open_pass.Session.Interface.{CodecLaws, RandomLaws, KeyringLaws, NoFaults}
use open_pass.Session.{
  StoredSession, Codec, Keyring, Random, service_name, last_activity, is_past, load_wrap_key,
  save_passphrase, load_passphrase, load_live, resolve_passphrase, refresh_session,
}
use open_pass.Session.Laws.{Cached, load_wrap_key_lem, save_passphrase-Cached}

not_past : (now last ttl : ℕ) → now ≤ last + ttl → is_past now last (pos ttl) ≡ false
not_past now last ttl h = ground (arith, h)

module _ {S : Type 0} (c : Codec) (laws : CodecLaws c) (k : Keyring S) (kept : KeyringLaws k)
    (rand : Random) (random : RandomLaws rand) (vault_dir : String) where
  abbrev service : String
  service = service_name vault_dir

  found_key :
      {s : S} {plain : String} {ttl last : ℕ} (now : ℕ)
      (h : Cached c kept vault_dir s plain ttl last)
      → load_wrap_key c k now rand vault_dir s ≡ (s, some h.key)
  found_key {s} now h =
      load_wrap_key_lem c laws k kept rand random vault_dir now s
      ∙ rw (h.has_key, h.key_decodes) refl

  resolve_passphrase_lem :
      {s : S} {plain : String} {ttl last : ℕ} (now : ℕ)
      (h : Cached c kept vault_dir s plain ttl last)
      → resolve_passphrase c k now rand vault_dir h.sess s ≡ (s, some (plain, h.sess))
  unfolding resolve_passphrase
  resolve_passphrase_lem now h = rw (h.is_encrypted, h.has_nonce, found_key now h, h.decrypts) refl

  abbrev put_payload : Option String → S → S
  put_payload none s = s
  put_payload (some payload) s = (k.set rand.nonce service "session" payload s).0

  -- the state behind the storing of the session with the time of an access
  unfoldable stored_again : ℕ → StoredSession → S → S
  stored_again now sess s = put_payload (c.encode_session (record sess { last_access = now })) s

  refresh_session_lem :
      {s : S} {plain : String} {ttl last : ℕ} (now : ℕ)
      (h : Cached c kept vault_dir s plain ttl last)
      → refresh_session c k now rand vault_dir (plain, h.sess) s
        ≡ (stored_again now h.sess s, some plain)
  unfolding refresh_session stored_again
  refresh_session_lem now h =
      elim (Option-cases (c.encode_session (record h.sess { last_access = now }))) [
        | inl e ↦ rw (found_key now h, e) refl
        | inr (payload, e) ↦ rw (found_key now h, e) refl
      ]

  load_passphrase_lem :
      {s : S} {plain : String} {ttl last : ℕ} (now : ℕ)
      (h : Cached c kept vault_dir s plain ttl last)
      → now ≤ last + ttl
      → load_passphrase c k now rand vault_dir s ≡ (stored_again now h.sess s, some plain)
  unfolding load_passphrase load_live
  load_passphrase_lem {s} {plain} {ttl} {last} now h soon =
      let lives : is_positive (pos ttl) ≡ true = ground (arith, h.lives) in
      let positive = ap is_positive h.has_ttl ∙ lives in
      let fresh =
        ap (is_past now (last_activity h.sess.saved_at h.sess.last_access)) h.has_ttl
        ∙ ap (λ (t : ℕ). is_past now t (pos ttl)) h.used
        ∙ not_past now last ttl soon in
      rw
        (
          kept.get_lem now service "session" s,
          h.has_session,
          h.session_decodes,
          positive,
          fresh,
          resolve_passphrase_lem now h,
          refresh_session_lem now h,
        )
        refl

  -- A passphrase that was saved is loaded until its time to live has passed.
  pub load_passphrase-save_passphrase :
      (saved now ttl : ℕ) (plain : String) (s : S)
      → 0 < ttl
      → now ≤ saved + ttl
      → (save_passphrase c k saved rand vault_dir plain (pos ttl) s).1 ≡ some tt
      → (load_passphrase c k now rand vault_dir
          (save_passphrase c k saved rand vault_dir plain (pos ttl) s).0).1
        ≡ some plain
  load_passphrase-save_passphrase saved now ttl plain s positive soon h =
      ap (λ r. r.1)
        (load_passphrase_lem now
          (save_passphrase-Cached c laws k kept rand random vault_dir saved ttl plain s positive h)
          soon)

  -- With nothing that fails, a load leaves the passphrase cached, used at its time.
  stored_again-Cached :
      {s : S} {plain : String} {ttl last : ℕ} (now : ℕ) (faultless : NoFaults c k)
      → 0 < now
      → (h : Cached c kept vault_dir s plain ttl last)
      → Cached c kept vault_dir (stored_again now h.sess s) plain ttl now
  unfolding stored_again
  stored_again-Cached {s} now faultless later h =
      let sess = record h.sess { last_access = now } in
      let (payload, e) = faultless.encodes sess in
      let seen = λ (account : String).
        kept.view-set rand.nonce service "session" payload account s
          (faultless.sets rand.nonce service "session" payload s) in
      rw (e, stored_again)
        (record {
          key_text = h.key_text;
          key = h.key;
          raw = payload;
          sess = sess;
          has_key = seen "wrap-key" ∙ h.has_key;
          key_decodes = h.key_decodes;
          has_session = seen "session";
          session_decodes = laws.decode-encode_session sess payload e;
          is_encrypted = h.is_encrypted;
          has_nonce = h.has_nonce;
          decrypts = h.decrypts;
          has_ttl = h.has_ttl;
          lives = h.lives;
          used = ground (arith, later);
        })

  -- Each instant follows the one before it by the time to live at most.
  abbrev pub Frequent : (ttl last : ℕ) → List ℕ → Type 0
  Frequent ttl last [] = Unit
  Frequent ttl last (now ∷ later) = (0 < now) × (now ≤ last + ttl) × Frequent ttl now later

  -- the results of loads at some instants
  pub load_at : List ℕ → S → List (Option String)
  load_at [] s = []
  load_at (now ∷ later) s =
      let (s', found) = load_passphrase c k now rand vault_dir s in found ∷ load_at later s'

  load_at-Cached :
      (times : List ℕ) {s : S} {plain : String} {ttl last : ℕ} (faultless : NoFaults c k)
      → Cached c kept vault_dir s plain ttl last
      → Frequent ttl last times
      → load_at times s ≡ map (λ _. some plain) times
  unfolding load_at
  load_at-Cached [] faultless h often = refl
  load_at-Cached (now ∷ later) {plain = plain} faultless h (positive, soon, often) =
      rw (load_passphrase_lem now h soon) (
        ap (◌∷◌ (some plain))
          (load_at-Cached later faultless (stored_again-Cached now faultless positive h) often))

  -- A passphrase that is loaded again and again, each time within its time to live, is found each
  -- time, however long that goes on; if no storing of it fails.
  pub regular_use_lasts :
      (times : List ℕ) (saved ttl : ℕ) (plain : String) (s : S)
      → NoFaults c k
      → 0 < ttl
      → (save_passphrase c k saved rand vault_dir plain (pos ttl) s).1 ≡ some tt
      → Frequent ttl saved times
      → load_at times (save_passphrase c k saved rand vault_dir plain (pos ttl) s).0
        ≡ map (λ _. some plain) times
  regular_use_lasts times saved ttl plain s faultless positive h often =
      load_at-Cached times faultless
        (save_passphrase-Cached c laws k kept rand random vault_dir saved ttl plain s positive h)
        often
