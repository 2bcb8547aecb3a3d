-- ===== src/Share/Access.antt =====
-- When a stored grant lets an agent read a secret.
use open_pass.Base.{
  ℕ, ◌≤◌, String, ◌≡◌, ◌↔◌, ◌⊎◌, refl, Bool, true, false, not, some, [], ◌∷◌, eq_iff, arith, ap,
  sym, ◌∙◌, inl, inr, Bool-cases, Option-cases, Any, any, find, is_some, any_sound, any_complete,
  find-eq-some, is_some-find, Any-map,
}
use open_pass.Base.Assoc.{Assoc, retain}
use open_pass.Base.Clock.{passed}
use open_pass.GrantId
use open_pass.GrantId.{Primitives, is_hmac_format, verify_grant_id}
use open_pass.GrantId.Laws.{verify_grant_id_sound}
use open_pass.Share.{
  ShareStatus, approved, status_eq, ShareGrant, ShareStore, grant_id_fields, values,
  verify_grant_hmac, is_valid, grants_access, check_access, cleanup_expired, is_expired,
}

-- What a grant must be to let an agent read a secret at an instant.
pub record Entitles (lib : Primitives) (now : ℕ) (key to_agent path : String) (g : ShareGrant)
    : Type 0 where
  pub addressee : g.to_agent ≡ to_agent
  pub secret : g.secret_path ≡ path
  pub is_approved : g.status ≡ approved
  pub in_time : passed now g.expires_at ≡ false
  pub authentic :
      (is_hmac_format g.id ≡ false)
      ⊎ (verify_grant_id lib g.id (grant_id_fields g) key ≡ GrantId.Result.ok true)

status_eq_approved : (s : ShareStatus) → status_eq s approved ≡ true → s ≡ approved
status_eq_approved ShareStatus.approved h = refl
status_eq_approved _ h = cc

valid_ok :
    (lib : Primitives) (r : GrantId.Result Bool)
    → is_valid lib r ≡ true
    → r ≡ GrantId.Result.ok true
valid_ok lib (GrantId.Result.ok b) h = ap GrantId.Result.ok h
valid_ok lib (GrantId.Result.err e) h = absurd (ground arith)

module _ (lib : Primitives) where
  grants_access_sound :
      (now : ℕ) (key to_agent path : String) (g : ShareGrant)
      → grants_access lib now key to_agent path g ≡ true
      → Entitles lib now key to_agent path g
  unfolding grants_access
  grants_access_sound now key to_agent path g h = record {
    addressee = ground (arith, h, eq_iff g.to_agent to_agent);
    secret = ground (arith, h, eq_iff g.secret_path path);
    is_approved = status_eq_approved g.status (ground (arith, h));
    in_time = ground (arith, h);
    authentic = elim (Bool-cases (is_hmac_format g.id)) [
      | inl hm ↦ inr (unfold verify_grant_hmac in valid_ok lib _ (ground (arith, h, hm)))
      | inr legacy ↦ inl legacy
    ];
  }

  grants_access_complete :
      (now : ℕ) (key to_agent path : String) (g : ShareGrant)
      → Entitles lib now key to_agent path g
      → grants_access lib now key to_agent path g ≡ true
  unfolding grants_access
  grants_access_complete now key to_agent path g e =
      let addressee = (eq_iff g.to_agent to_agent).1 e.addressee in
      let secret = (eq_iff g.secret_path path).1 e.secret in
      let is_approved = ap (λ s. status_eq s approved) e.is_approved in
      elim e.authentic [
        | inl legacy ↦ rw (addressee, secret, is_approved, e.in_time, legacy)
        | inr valid ↦
            let key_set = (verify_grant_id_sound lib g.id key (grant_id_fields g) valid).0 in
            let signed : verify_grant_hmac lib g key ≡ true =
              unfold verify_grant_hmac in ap (is_valid lib) valid in
            elim (Bool-cases (is_hmac_format g.id)) [
              | inl hm ↦ rw (addressee, secret, is_approved, e.in_time, hm, key_set, signed)
              | inr legacy ↦ rw (addressee, secret, is_approved, e.in_time, legacy)
            ]
      ]

  Any-values :
      (p : ShareGrant → Bool) (m : Assoc ShareGrant) → any p (values m) ≡ any (λ e. p e.1) m
  unfolding values
  Any-values p [] = refl
  Any-values p ((id, g) ∷ m) = ground (arith, Any-values p m)

  -- `CheckAccess` finds a grant exactly when some stored grant entitles the agent to the secret, at the
  -- reading of the clock that is made for it: it is for that agent and path, approved, not expired, and
  -- has an id without a colon or one that passes the verification for its own fields.
  pub check_access_iff :
      (clock : ShareGrant → ℕ) (to_agent path : String) (s : ShareStore)
      → (is_some (check_access lib clock to_agent path s) ≡ true)
        ↔ Any (λ p. Entitles lib (clock p.1) s.signing_key to_agent path p.1) s.grants
  unfolding check_access
  check_access_iff clock to_agent path s =
      let test = λ (g : ShareGrant). grants_access lib (clock g) s.signing_key to_agent path g in
      let same = is_some-find test (values s.grants) ∙ Any-values test s.grants in
      (
        λ found.
            Any-map _ _ (λ p. grants_access_sound (clock p.1) s.signing_key to_agent path p.1)
              (any_sound _ s.grants (sym same ∙ found)),
        λ held.
            same
            ∙ any_complete _ (
                Any-map _ _
                  (λ p. grants_access_complete (clock p.1) s.signing_key to_agent path p.1) held),
      )

  -- A grant that `CheckAccess` returns entitles the agent to the secret.
  pub check_access_sound :
      (clock : ShareGrant → ℕ) (to_agent path : String) (s : ShareStore) (g : ShareGrant)
      → check_access lib clock to_agent path s ≡ some g
      → Entitles lib (clock g) s.signing_key to_agent path g
  unfolding check_access
  check_access_sound clock to_agent path s g found =
      let test = λ (g : ShareGrant). grants_access lib (clock g) s.signing_key to_agent path g in
      grants_access_sound (clock g) s.signing_key to_agent path g
        (find-eq-some test (values s.grants) g found).1

  expired_denied :
      (t now : ℕ) (key to_agent path : String) (g : ShareGrant)
      → t ≤ now
      → is_expired t (some g) ≡ true
      → grants_access lib now key to_agent path g ≡ false
  unfolding grants_access
  expired_denied t now key to_agent path g le e = elim (Option-cases g.expires_at) [
    | inl d ↦ absurd (ground (arith, e, d))
    | inr (d, q) ↦ ground (arith, e, q)
  ]

  -- one sweep before the search
  find-retain :
      (t : ℕ) (clock : ShareGrant → ℕ) (key to_agent path : String) (m : Assoc ShareGrant)
      → ((g : ShareGrant) → t ≤ clock g)
      → find
          (λ g. grants_access lib (clock g) key to_agent path g)
          (values (retain (λ g. not (is_expired t (some g))) m))
        ≡ find (λ g. grants_access lib (clock g) key to_agent path g) (values m)
  unfolding values retain
  find-retain t clock key to_agent path [] le = refl
  find-retain t clock key to_agent path ((id, g) ∷ m) le =
      elim (Bool-cases (is_expired t (some g))) [
        | inl e ↦ ground (
          arith,
          e,
          find-retain t clock key to_agent path m le,
          expired_denied t (clock g) key to_agent path g (le g) e,
        )
        | inr e ↦ ground (arith, e, find-retain t clock key to_agent path m le)
      ]

  -- Removing the grants that have expired changes no answer of `CheckAccess` whose readings of the
  -- clock are at the same or a later instant.
  check_access-cleanup_expired :
      (t : ℕ) (clock : ShareGrant → ℕ) (to_agent path : String) (s : ShareStore)
      → ((g : ShareGrant) → t ≤ clock g)
      → check_access lib clock to_agent path (cleanup_expired t s).0
        ≡ check_access lib clock to_agent path s
  unfolding check_access cleanup_expired
  check_access-cleanup_expired t clock to_agent path s le =
      find-retain t clock s.signing_key to_agent path s.grants le
