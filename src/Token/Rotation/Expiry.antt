-- ===== src/Token/Rotation/Expiry.antt =====
-- The deadlines of a pair that a rotation makes.
use open_pass.Base.{
  ℕ, ◌+◌, ◌-◌, ◌≤◌, String, ◌≡◌, refl, true, false, Option, none, some, List, ◌==◌, eq_refl, ltb,
  if◌then◌else◌, arith, sym, ◌∙◌, inl, inr, Bool-cases,
}
use open_pass.Base.Assoc.{insert, lookup-insert}
use open_pass.Base.Clock.{ℤ, passed, deadline}
use open_pass.Token.{ScopedToken, is_refresh_expired}
use open_pass.Token.Registry.{TokenRegistry, ok, store_and_save, get}
use open_pass.Token.Registry.Access.{get-eq-authenticated}
use open_pass.Token.Registry.Creation.{lookup-store_and_save, store_and_save_result}
use open_pass.Token.Rotation.{
  get_by_refresh_token_hash, PairInput, RotateInput, new_pair_token, create_pair_raw,
  create_with_refresh, rotate_via_refresh_token, remaining,
}
use open_pass.Token.Rotation.Refresh.{rotate_lem, consumed}

module _ (sha256_hex : String → String) where
  create_pair_raw-eq-ok :
      (a f : Option String) (i : PairInput) (label : String) (tools : Option (List String))
      (agent : String) (x y : ℤ) (r r' : TokenRegistry) (t : ScopedToken) (access refresh : String)
      → create_pair_raw sha256_hex a f i label tools agent x y r ≡ (r', ok (t, access, refresh))
      → (t ≡ new_pair_token sha256_hex i access refresh label tools agent x y)
        × (r' ≡ (store_and_save true t r).0)
  create_pair_raw-eq-ok none f i label tools agent x y r r' t access refresh h = ground arith
  create_pair_raw-eq-ok (some a) none i label tools agent x y r r' t access refresh h = ground arith
  create_pair_raw-eq-ok (some a) (some f) i label tools agent x y r r' t access refresh h =
      let k = new_pair_token sha256_hex i a f label tools agent x y in
      elim (Bool-cases i.written) [
        | inl w ↦ ground (arith, w, store_and_save_result i.written k r)
        | inr w ↦ ground (arith, w, store_and_save_result i.written k r)
      ]

  module _ (i : RotateInput) (raw hash : String) (old : ScopedToken) (r r' : TokenRegistry)
      (t : ScopedToken) (access refresh : String)
      (found : get_by_refresh_token_hash i.lookup_now (sha256_hex raw) r.entries ≡ some (hash, old))
      (rotated : rotate_via_refresh_token sha256_hex i raw r ≡ (r', ok (t, access, refresh))) where
    not_expired : is_refresh_expired i.test_now (some old) ≡ false
    unfolding rotate_via_refresh_token
    not_expired = elim (Bool-cases (is_refresh_expired i.test_now (some old))) [
      | inl e ↦ absurd (ground (arith, rotated, found, e))
      | inr e ↦ e
    ]

    abbrev registry_with_old_revoked : TokenRegistry
    registry_with_old_revoked = record r {
      entries = insert hash (consumed sha256_hex i old) r.entries;
    }

    rotated_parts :
        (t
          ≡ new_pair_token sha256_hex i.pair access refresh old.label
              (some old.allowed_tools)
              old.agent_name
              (remaining i.access_until_now old.expires_at)
              (remaining i.refresh_until_now old.refresh_expires_at))
        × (r' ≡ (store_and_save true t registry_with_old_revoked).0)
    unfolding create_with_refresh
    rotated_parts =
        create_pair_raw-eq-ok i.pair.raw_access i.pair.raw_refresh i.pair old.label
          (some old.allowed_tools) old.agent_name (remaining i.access_until_now old.expires_at)
          (remaining i.refresh_until_now old.refresh_expires_at) registry_with_old_revoked r' t
          access refresh (sym (rotate_lem sha256_hex i raw hash old r found not_expired) ∙ rotated)

    -- A successful rotation gives a token with the label, the tools and the agent of the old one,
    -- that `Get` accepts under the new access token's hash until the deadline for the time that was
    -- left, and refuses the old access token from then on, if the two access tokens differ in hash.
    get-rotate :
        (now used : ℕ)
        → (sha256_hex access == hash) ≡ false
        → ((get now used (sha256_hex access) r').1 ≡ (
            if passed now (deadline i.pair.access_now (remaining i.access_until_now old.expires_at))
            then none
            else some (record t { last_used_at = some used })))
          × ((get now used hash r').1 ≡ none)
          × (t.label ≡ old.label)
          × (t.allowed_tools ≡ old.allowed_tools)
          × (t.agent_name ≡ old.agent_name)
    unfolding new_pair_token
    get-rotate now used differ =
        let (et, er) = rotated_parts in
        rw (er, et)
          (
            rw (get-eq-authenticated, lookup-store_and_save, eq_refl) refl,
            rw (get-eq-authenticated, lookup-store_and_save, differ, lookup-insert, eq_refl) refl,
            refl,
            refl,
            refl,
          )

    -- The new access token is good for the time that the old one had left when it was read, from the
    -- instant at which the new one is made; if no time was left, it has no deadline at all.
    rotate_access_deadline :
        (deadline_at : ℕ)
        → old.expires_at ≡ some deadline_at
        → t.expires_at ≡ (
            if ltb i.access_until_now deadline_at
            then some (i.pair.access_now + (deadline_at - i.access_until_now))
            else none)
    unfolding new_pair_token
    rotate_access_deadline deadline_at e = rw (rotated_parts.0, e) (ground arith)

    -- If the old access token's deadline comes between the lookup and the reading of the time that
    -- is left, the rotation makes an access token that `Get` accepts at every later instant.
    pub rotate_loses_deadline :
        (deadline_at now used : ℕ)
        → old.expires_at ≡ some deadline_at
        → deadline_at ≤ i.access_until_now
        → (get now used (sha256_hex access) r').1 ≡ some (record t { last_used_at = some used })
    unfolding new_pair_token
    rotate_loses_deadline deadline_at now used e late =
        let (et, er) = rotated_parts in
        rw (er, et) (rw (get-eq-authenticated, lookup-store_and_save, eq_refl, e) (ground arith))
