-- ===== src/Lease/Lifetime.antt =====
-- How long a lease lives: from its making until its expiry or its revocation, whichever is first.
use open_pass.Base.{
  ℕ, ◌≤◌, String, ◌≡◌, refl, ◌∙◌, ap, Bool, true, false, Option, none, some, ◌||◌, not, ltb, leb,
  if◌then◌else◌, arith, inl, inr, Bool-cases, Option-cases, eq_refl,
}
use open_pass.Base.Assoc.{Assoc, Distinct, passing, lookup, lookup-insert, lookup-retain}
use open_pass.Base.Clock.{ℤ, add_duration}
use open_pass.Lease.{
  Result, ok, error, GenerateRequest, Secret, Lease, Manager, create_lease, revoke_lease, is_alive,
  sweep, generate, revoke, renew, lookup_secret, new_lease, save_generated, lease_not_found,
  lease_not_renewable, with_revoked, alive_entry, renew_entry, found_secret,
}

module _ {D : Type 0} where
  abbrev ok_or : Secret D → Result (Secret D) → Secret D
  ok_or s (ok x) = x
  ok_or s (error e) = s

  lookup-create_lease :
      (now : ℕ) (s : Secret D) (leases : Assoc (Lease D))
      → lookup s.lease_id (create_lease now s leases) ≡ some (new_lease now s)
  unfolding create_lease
  lookup-create_lease now s leases =
      lookup-insert s.lease_id s.lease_id (new_lease now s) leases ∙ rw (eq_refl s.lease_id)

  is_alive-create_lease :
      (now : ℕ) (s : Secret D) (leases : Assoc (Lease D)) (t : ℕ)
      → is_alive t s.lease_id (create_lease now s leases)
        ≡ leb t (add_duration now s.lease_duration)
  unfolding is_alive create_lease
  is_alive-create_lease now s leases t =
      ap (alive_entry t) (lookup-create_lease now s leases) ∙ ground arith

  save_generated_lem :
      (now : ℕ) (engine_type : String) (m : Manager D) (r : Result (Secret D)) (s : Secret D)
      → (save_generated now engine_type m r).1 ≡ ok s
      → (save_generated now engine_type m r).0.leases ≡ create_lease now s m.leases
  save_generated_lem now engine_type m (error e) s h = absurd (ground arith)
  save_generated_lem now engine_type m (ok s') s h =
      ap (λ x. create_lease now x m.leases) (ap (ok_or s) h)

  generate_lem :
      (is_cancelled : Bool) (called now : ℕ) (engine_type : String) (req : GenerateRequest)
      (m : Manager D) (s : Secret D)
      → (generate is_cancelled called now engine_type req m).1 ≡ ok s
      → (generate is_cancelled called now engine_type req m).0.leases ≡ create_lease now s m.leases
  unfolding generate
  generate_lem true called now engine_type req m s h = absurd (ground arith)
  generate_lem false called now engine_type req m s h =
      elim (Option-cases (lookup engine_type m.registry)) [
        | inl e ↦ absurd (ground (arith, h, e))
        | inr (engine, e) ↦
            let answer = engine.generate called req in
            let k : (save_generated now engine_type m answer).1 ≡ ok s = ground (arith, h, e) in
            rw e (save_generated_lem now engine_type m answer s k)
      ]

  leases-renew_entry :
      (increment : ℤ) (m : Manager D) (o : Option (Lease D))
      → (renew_entry increment m o).0.leases ≡ m.leases
  leases-renew_entry increment m none = refl
  leases-renew_entry increment m (some l) = ground arith

  leases-renew :
      (id : String) (increment : ℤ) (m : Manager D) → (renew id increment m).0.leases ≡ m.leases
  unfolding renew
  leases-renew id increment m = leases-renew_entry increment m (lookup id m.leases)

  -- the result of `Renew` for a secret that is leased
  abbrev pub renewed : ℤ → Secret D → Result (Secret D)
  renewed increment s =
      if s.renewable
      then ok (record s { lease_duration = increment })
      else error lease_not_renewable

  renewed_lem :
      (increment : ℤ) (m : Manager D) (now : ℕ) (s : Secret D)
      → (renew_entry increment m (some (new_lease now s))).1 ≡ renewed increment s
  renewed_lem increment m now s = ground arith

  -- A secret that `Generate` returns is alive until its duration, counted from the making of the
  -- lease, is over, and no longer, also where it has been renewed since: `Renew` returns that secret
  -- with the increment for its duration, or an error where it is not renewable, and leaves the lease
  -- as it is.
  pub is_alive-renew-generate :
      (is_cancelled : Bool) (called now : ℕ) (engine_type : String) (req : GenerateRequest)
      (m : Manager D) (s : Secret D) (increment : ℤ) (t : ℕ)
      → (generate is_cancelled called now engine_type req m).1 ≡ ok s
      → (let m' = (generate is_cancelled called now engine_type req m).0 in
          ((renew s.lease_id increment m').1 ≡ renewed increment s)
          × (is_alive t s.lease_id (renew s.lease_id increment m').0.leases
              ≡ leb t (add_duration now s.lease_duration)))
  unfolding renew
  is_alive-renew-generate c called now engine_type req m s increment t h =
      let m' = (generate c called now engine_type req m).0 in
      let made = generate_lem c called now engine_type req m s h in
      let found = ap (lookup s.lease_id) made ∙ lookup-create_lease now s m.leases in
      (
        ap (λ o. (renew_entry increment m' o).1) found ∙ renewed_lem increment m' now s,
        ap (is_alive t s.lease_id) (leases-renew s.lease_id increment m' ∙ made)
            ∙ is_alive-create_lease now s m.leases t,
      )

  -- A successful revocation sets the flag of the lease.
  lookup-revoke :
      (called : ℕ) (id : String) (m : Manager D)
      → (revoke called id m).1 ≡ ok tt
      → (l : Lease D) × (lookup id (revoke called id m).0.leases ≡ some (with_revoked l))
  unfolding revoke revoke_lease
  lookup-revoke called id m h = elim (Option-cases (lookup id m.leases)) [
    | inl e ↦ absurd (ground (arith, h, e))
    | inr (l, e) ↦ elim (Option-cases (lookup l.secret.engine_type m.registry)) [
      | inl f ↦ absurd (ground (arith, h, e, f))
      | inr (engine, f) ↦ elim (Bool-cases (engine.revoke called id)) [
        | inl g ↦
            (l, rw (e, f, g, e) (lookup-insert id id (with_revoked l) m.leases ∙ rw (eq_refl id)))
        | inr g ↦ absurd (ground (arith, h, e, f, g))
      ]
    ]
  ]

  -- After `Revoke` has succeeded the lease is not alive at any time, and `Lookup` does not find it.
  revoke_ends :
      (called : ℕ) (id : String) (m : Manager D) (t : ℕ)
      → (revoke called id m).1 ≡ ok tt
      → (is_alive t id (revoke called id m).0.leases ≡ false)
        × (lookup_secret id (revoke called id m).0 ≡ error lease_not_found)
  unfolding is_alive lookup_secret
  revoke_ends called id m t h =
      let (l, e) = lookup-revoke called id m h in (ap (alive_entry t) e, ap found_secret e)

  swept :
      (now t : ℕ) (o : Option (Lease D))
      → now ≤ t
      → alive_entry t (passing (λ l. not (ltb l.expires_at now || l.revoked)) o) ≡ alive_entry t o
  swept now t none le = refl
  swept now t (some l) le = ground (arith, le)

  -- A sweep of the expired and revoked leases changes no answer of `IsAlive` at the same or a later
  -- instant.
  is_alive-sweep :
      (now t : ℕ) (id : String) (leases : Assoc (Lease D))
      → Distinct leases
      → now ≤ t
      → is_alive t id (sweep now leases) ≡ is_alive t id leases
  unfolding is_alive sweep
  is_alive-sweep now t id leases d le =
      ap (alive_entry t) (lookup-retain (λ l. not (ltb l.expires_at now || l.revoked)) id leases d)
      ∙ swept now t (lookup id leases) le
