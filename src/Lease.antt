-- ===== src/Lease.antt =====
-- internal/dynamicsecret: the leases (lease.go), the registry of engines (engine.go), and the
-- manager over both (manager.go). A secret's data is of any type `D`; an engine is a parameter, and
-- what it answers may depend on the instant of the call.
pub mod Lifetime
pub mod Examples
use open_pass.Base.{
  ℕ, String, Bool, true, false, Option, none, some, List, [], ◌∷◌, ◌&&◌, ◌||◌, not, ltb,
  if◌then◌else◌,
}
use open_pass.Base.Assoc.{Assoc, lookup, insert, retain}
use open_pass.Base.Clock.{ℤ, add_duration}

pub data LeaseError : Type 0 where
  lease_not_found lease_not_renewable engine_not_found cancelled engine_failed : LeaseError

pub data Result (A : Type 0) : Type 0 where
  ok : A → Result A
  error : LeaseError → Result A

pub record GenerateRequest : Type 0 where
  pub role : String
  pub ttl : ℤ
  pub permissions : String

module _ (D : Type 0) where
  pub record Secret : Type 0 where
    pub lease_id : String
    pub lease_duration : ℤ
    pub renewable : Bool
    pub data_map : D
    pub created_at : ℕ
    pub engine_type : String

  pub record Lease : Type 0 where
    pub id : String
    pub secret : Secret
    pub expires_at : ℕ
    pub revoked : Bool
    pub created_at : ℕ

  -- `SecretEngine`, of which the manager calls these; `revoke` answers whether it succeeded
  pub record SecretEngine : Type 0 where
    pub type_name : String
    pub generate : ℕ → GenerateRequest → Result Secret
    pub revoke : ℕ → String → Bool

  -- `LeaseManager`, and `Manager` with the registry of its engines
  pub record Manager : Type 0 where
    pub registry : Assoc SecretEngine
    pub leases : Assoc Lease

module _ {D : Type 0} where
  abbrev new_lease : ℕ → Secret D → Lease D
  new_lease now s = record {
    id = s.lease_id;
    secret = s;
    expires_at = add_duration now s.lease_duration;
    revoked = false;
    created_at = now;
  }

  -- `Create` of the lease manager
  pub create_lease : ℕ → Secret D → Assoc (Lease D) → Assoc (Lease D)
  create_lease now s leases = insert s.lease_id (new_lease now s) leases

  abbrev with_revoked : Lease D → Lease D
  with_revoked l = record l { revoked = true }

  abbrev revoke_found : String → Assoc (Lease D) → Option (Lease D) → Result (Assoc (Lease D))
  revoke_found id leases none = error lease_not_found
  revoke_found id leases (some l) = ok (insert id (with_revoked l) leases)

  -- `Revoke` of the lease manager
  pub revoke_lease : String → Assoc (Lease D) → Result (Assoc (Lease D))
  revoke_lease id leases = revoke_found id leases (lookup id leases)

  abbrev alive : ℕ → Lease D → Bool
  alive now l = not l.revoked && not (ltb l.expires_at now)

  abbrev alive_entry : ℕ → Option (Lease D) → Bool
  alive_entry now none = false
  alive_entry now (some l) = alive now l

  -- `IsAlive`
  pub is_alive : ℕ → String → Assoc (Lease D) → Bool
  is_alive now id leases = alive_entry now (lookup id leases)

  -- `ListActive`
  pub list_active : ℕ → Assoc (Lease D) → List (Lease D)
  list_active now [] = []
  list_active now ((_, l) ∷ leases) =
      if alive now l then l ∷ list_active now leases else list_active now leases

  -- one tick of the goroutine of `StartCleanup`
  pub sweep : ℕ → Assoc (Lease D) → Assoc (Lease D)
  sweep now leases = retain (λ l. not (ltb l.expires_at now || l.revoked)) leases

  pub register_engine : SecretEngine D → Manager D → Manager D
  register_engine engine m = record m { registry = insert engine.type_name engine m.registry }

  abbrev typed : String → Secret D → Secret D
  typed engine_type s = record s { engine_type = engine_type }

  abbrev save_generated : ℕ → String → Manager D → Result (Secret D) → Manager D × Result (Secret D)
  save_generated now engine_type m (error e) = (m, error e)
  save_generated now engine_type m (ok s) = (
    record m { leases = create_lease now (typed engine_type s) m.leases },
    ok (typed engine_type s),
  )

  abbrev generate_with :
      ℕ
      → ℕ
      → String
      → GenerateRequest
      → Manager D
      → Option (SecretEngine D)
      → Manager D × Result (Secret D)
  generate_with called now engine_type req m none = (m, error engine_not_found)
  generate_with called now engine_type req m (some engine) =
      save_generated now engine_type m (engine.generate called req)

  -- `Generate`; `called` and `now` are the instants of the engine's call and of the lease
  pub generate : Bool → ℕ → ℕ → String → GenerateRequest → Manager D → Manager D × Result (Secret D)
  generate is_cancelled called now engine_type req m =
      if is_cancelled
      then (m, error LeaseError.cancelled)
      else generate_with called now engine_type req m (lookup engine_type m.registry)

  abbrev revoked_in : Manager D → Result (Assoc (Lease D)) → Manager D × Result (Unit {0})
  revoked_in m (error e) = (m, error e)
  revoked_in m (ok leases) = (record m { leases = leases }, ok tt)

  abbrev revoke_with :
      ℕ → String → Manager D → Option (SecretEngine D) → Manager D × Result (Unit {0})
  revoke_with called id m none = (m, error engine_not_found)
  revoke_with called id m (some engine) =
      if engine.revoke called id
      then revoked_in m (revoke_lease id m.leases)
      else (m, error engine_failed)

  abbrev revoke_entry : ℕ → String → Manager D → Option (Lease D) → Manager D × Result (Unit {0})
  revoke_entry called id m none = (m, error lease_not_found)
  revoke_entry called id m (some l) =
      revoke_with called id m (lookup l.secret.engine_type m.registry)

  -- `Revoke` of the manager
  pub revoke : ℕ → String → Manager D → Manager D × Result (Unit {0})
  revoke called id m = revoke_entry called id m (lookup id m.leases)

  abbrev renew_entry : ℤ → Manager D → Option (Lease D) → Manager D × Result (Secret D)
  renew_entry increment m none = (m, error lease_not_found)
  renew_entry increment m (some l) =
      if l.secret.renewable
      then (m, ok (record l.secret { lease_duration = increment }))
      else (m, error lease_not_renewable)

  -- `Renew`; it writes nothing
  pub renew : String → ℤ → Manager D → Manager D × Result (Secret D)
  renew id increment m = renew_entry increment m (lookup id m.leases)

  abbrev found_secret : Option (Lease D) → Result (Secret D)
  found_secret none = error lease_not_found
  found_secret (some l) = if l.revoked then error lease_not_found else ok l.secret

  -- `Lookup`
  pub lookup_secret : String → Manager D → Result (Secret D)
  lookup_secret id m = found_secret (lookup id m.leases)
