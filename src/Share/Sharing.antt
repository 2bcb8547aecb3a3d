-- ===== src/Share/Sharing.antt =====
-- From a request over its approval to the access that it gives.
use open_pass.Base.{
  ℕ, String, ◌≡◌, ◌⊎◌, refl, ap, ◌∙◌, Bool, true, false, some, ◌==◌, eq_refl, if◌then◌else◌, arith,
  is_some,
}
use open_pass.Base.Assoc.{lookup, insert, lookup-insert, Any-of_lookup}
use open_pass.Base.Clock.{ℤ, is_positive, add_duration, passed}
use open_pass.GrantId
use open_pass.GrantId.{Primitives, is_hmac_format, verify_grant_id, generate_grant_id}
use open_pass.GrantId.Laws.{IsHex, verify-generate}
use open_pass.Share.{
  pending, status_eq, ShareGrant, ShareStore, Result, ok, err, write_failed, approve, save,
  approved_grant, grant_id_fields, check_access, CreateInput, create, new_grant, store_new, with_id,
  new_hmac_grant_id,
}
use open_pass.Share.Access.{Entitles, check_access_iff}
use open_pass.Share.Lifecycle.{run, updated, signing_key-run, approve_call, lookup-run, run_result}

-- A grant with an id that is not bound to the fields, or is the one for its fields.
abbrev pub IsAuthentic : Primitives → String → ShareGrant → Type 0
IsAuthentic lib key g =
    (is_hmac_format g.id ≡ false)
    ⊎ (verify_grant_id lib g.id (grant_id_fields g) key ≡ GrantId.Result.ok true)

updated_pending :
    (at : ℕ) (by : String) (g : ShareGrant)
    → g.status ≡ pending
    → updated (approve_call at by) g ≡ approved_grant at by g
updated_pending at by g p = rw (ap (λ s. status_eq s pending) p)

module _ (lib : Primitives) where
  -- Approving a pending grant gives its addressee access to its secret until the approval's deadline,
  -- also where the write of the file fails and `Approve` returns an error.
  approve_gives_access :
      (written : Bool) (at : ℕ) (clock : ShareGrant → ℕ) (id by : String) (s : ShareStore)
      (g : ShareGrant)
      → lookup id s.grants ≡ some g
      → g.status ≡ pending
      → IsAuthentic lib s.signing_key g
      → passed
          (clock (approved_grant at by g))
          (if is_positive g.ttl then some (add_duration at g.ttl) else g.expires_at)
        ≡ false
      → (is_some (check_access lib clock g.to_agent g.secret_path (approve written at id by s).0)
          ≡ true)
        × ((approve written at id by s).1 ≡ (if written then ok tt else err write_failed))
  unfolding run
  approve_gives_access written at clock id by s g stored p authentic in_time = (
    (check_access_iff lib clock g.to_agent g.secret_path after).1 (
        Any-of_lookup (λ h. Entitles lib (clock h) after.signing_key g.to_agent g.secret_path h) id
          (approved_grant at by g) after.grants now_stored entitled),
    run_result written id s (approve_call at by) ∙ rw (stored, p),
  )
    where
      after : ShareStore
      after = (approve written at id by s).0

      now_stored : lookup id after.grants ≡ some (approved_grant at by g)
      now_stored =
          lookup-run written id s (approve_call at by) id
          ∙ rw (eq_refl, stored) (rw (updated_pending at by g p))

      entitled :
          Entitles lib
            (clock (approved_grant at by g))
            after.signing_key
            g.to_agent
            g.secret_path
            (approved_grant at by g)
      entitled = record {
        addressee = refl;
        secret = refl;
        is_approved = refl;
        in_time = in_time;
        authentic = rw (signing_key-run written id (approve_call at by) s) authentic;
      }

module _ (lib : Primitives) where
  store_new-eq-ok :
      (written : Bool) (made : Result ShareGrant) (s s' : ShareStore) (g : ShareGrant)
      → store_new lib written made s ≡ (s', ok g)
      → (made ≡ ok g) × (s'.grants ≡ insert g.id g s.grants) × (s'.signing_key ≡ s.signing_key)
  unfolding save
  store_new-eq-ok written (err e) s s' g h = ground arith
  store_new-eq-ok true (ok k) s s' g h = ground arith
  store_new-eq-ok false (ok k) s s' g h = ground arith

  stored_value : (g k : ShareGrant) → ok g ≡ ok k → g ≡ k
  stored_value g k h = ground arith

  hmac_id-verifies :
      (hex : IsHex lib) (made : GrantId.Result String) (g k : ShareGrant) (key bytes : String)
      → generate_grant_id lib (some bytes) (grant_id_fields g) key ≡ made
      → with_id lib g made ≡ ok k
      → (verify_grant_id lib k.id (grant_id_fields k) key ≡ GrantId.Result.ok true)
        × (k.status ≡ g.status)
        × (k.to_agent ≡ g.to_agent)
        × (k.secret_path ≡ g.secret_path)
  hmac_id-verifies hex (GrantId.Result.err e) g k key bytes made h = ground arith
  hmac_id-verifies hex (GrantId.Result.ok id) g k key bytes made h = rw (← stored_value _ k h) (
    verify-generate lib hex (grant_id_fields g) key bytes id "" (eq_refl "") made,
    refl,
    refl,
    refl,
  )

  -- With a signing key, a successful `Create` stores a pending grant for the agent and the path asked
  -- for, under an id that passes the verification for the grant's own fields, where hex text decodes
  -- to what it encodes and has no colon.
  create_stores_authentic :
      (hex : IsHex lib) (i : CreateInput) (from to path field bytes : String) (ttl : ℤ)
      (s s' : ShareStore) (g : ShareGrant)
      → (s.signing_key == "") ≡ false
      → i.random ≡ some bytes
      → create lib i from to path field ttl s ≡ (s', ok g)
      → (lookup g.id s'.grants ≡ some g)
        × (verify_grant_id lib g.id (grant_id_fields g) s'.signing_key ≡ GrantId.Result.ok true)
        × (g.status ≡ pending)
        × (g.to_agent ≡ to)
        × (g.secret_path ≡ path)
  unfolding create
  create_stores_authentic hex i from to path field bytes ttl s s' g key r h =
      let (made, grants, kept) = store_new-eq-ok i.written _ s s' g h in
      let fresh = new_grant i from to path field ttl in
      let signed : new_hmac_grant_id lib (some bytes) fresh s.signing_key ≡ ok g =
        rw (← r) (rw key at made) in
      let (valid, status, addressee, secret) =
        hmac_id-verifies hex
          (generate_grant_id lib (some bytes) (grant_id_fields fresh) s.signing_key) fresh g
          s.signing_key bytes refl (unfold new_hmac_grant_id in signed) in
      (
        rw (grants, lookup-insert, eq_refl),
        rw kept valid,
        unfold new_grant in status,
        unfold new_grant in addressee,
        unfold new_grant in secret,
      )
