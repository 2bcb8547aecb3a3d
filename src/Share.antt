-- ===== src/Share.antt =====
-- internal/mcp/sharing_types.go and internal/mcp/sharing_store.go: grants by which one agent shares
-- a secret with another, and their store. Each method takes the readings of the clock that it makes
-- (one for the locked loop of `CleanupExpired`) and the outcome of the atomic write of the store's file.
pub mod Types
pub mod Access
pub mod Lifecycle
pub mod Edges
pub mod Sharing
pub mod History
pub mod Files
pub mod Examples
unfoldable pub use Types.*
use open_pass.Base.{
  ℕ, String, Bool, true, false, not, Option, none, some, List, [], ◌∷◌, ◌&&◌, ◌||◌, ◌==◌, find,
  keep, length, ◌-◌, if◌then◌else◌,
}
use open_pass.Base.Assoc.{Assoc, lookup, insert, remove, retain}
use open_pass.Base.Clock.{ℤ, passed, deadline, is_positive, add_duration}
use open_pass.GrantId
use open_pass.GrantId.{
  GrantIdFields, Primitives, is_hmac_format, generate_grant_id, verify_grant_id,
  parse_nonce_from_id,
}

-- the loop of `Load`: a grant without an id is left out
pub load_grants : List ShareGrant → Assoc ShareGrant → Assoc ShareGrant
load_grants [] grants = grants
load_grants (g ∷ file) grants =
    load_grants file (if g.id == "" then grants else insert g.id g grants)

abbrev load_from : FileState → ShareStore → ShareStore × Result (Unit {0})
load_from missing s = (s, ok tt)
load_from unreadable s = (s, err read_failed)
load_from malformed s = (s, err parse_failed)
load_from (holds version file) s = (record s { grants = load_grants file [] }, ok tt)

pub load : ShareStore → ShareStore × Result (Unit {0})
unfolding load_grants
load s = load_from s.file s

-- the loop of `Save`
pub values : Assoc ShareGrant → List ShareGrant
values [] = []
values ((id, g) ∷ grants) = g ∷ values grants

pub save : Bool → ShareStore → ShareStore × Result (Unit {0})
unfolding values
save written s =
    if written
    then (record s { file = holds 1 (values s.grants) }, ok tt)
    else (s, err write_failed)

abbrev pub grant_id_fields : ShareGrant → GrantIdFields
grant_id_fields g = record {
  from_agent = g.from_agent;
  to_agent = g.to_agent;
  secret_path = g.secret_path;
  secret_field = g.secret_field;
  created_at = g.created_at;
  nonce = "";
}

-- What `Create` takes from its surroundings; `legacy_id` is what `randomGrantID` returns.
pub record CreateInput : Type 0 where
  pub now : ℕ
  pub random : Option String
  pub legacy_id : String
  pub written : Bool

pub new_grant : CreateInput → String → String → String → String → ℤ → ShareGrant
new_grant i from_agent to_agent secret_path secret_field ttl = record {
  id = "";
  from_agent = from_agent;
  to_agent = to_agent;
  secret_path = secret_path;
  secret_field = secret_field;
  nonce = "";
  status = pending;
  created_at = i.now;
  expires_at = deadline i.now ttl;
  approved_at = none;
  revoked_at = none;
  approved_by = "";
  ttl = ttl;
}

module _ (lib : Primitives) where
  abbrev nonce_or : String → GrantId.Result String → String
  nonce_or old (GrantId.Result.ok nonce) = nonce
  nonce_or old (GrantId.Result.err e) = old

  abbrev with_id : ShareGrant → GrantId.Result String → Result ShareGrant
  with_id g (GrantId.Result.err e) = err hmac_failed
  with_id g (GrantId.Result.ok id) =
      ok (record g { id = id; nonce = nonce_or g.nonce (parse_nonce_from_id id) })

  -- `newHMACGrantID`, with the assignments to the grant that it and its caller make
  pub new_hmac_grant_id : Option String → ShareGrant → String → Result ShareGrant
  new_hmac_grant_id random g key = with_id g (generate_grant_id lib random (grant_id_fields g) key)

  -- the grant is stored, saved, and taken out again if the save failed
  abbrev store_new : Bool → Result ShareGrant → ShareStore → ShareStore × Result ShareGrant
  store_new written (err e) s = (s, err e)
  store_new written (ok g) s =
      let (saved, result) = save written (record s { grants = insert g.id g s.grants }) in
      elim result [
        | ok _ ↦ (saved, ok g)
        | err e ↦ (record saved { grants = remove g.id saved.grants }, err e)
      ]

  pub create :
      CreateInput
      → String
      → String
      → String
      → String
      → ℤ
      → ShareStore
      → ShareStore × Result ShareGrant
  unfolding new_grant new_hmac_grant_id save
  create i from_agent to_agent secret_path secret_field ttl s =
      let g = new_grant i from_agent to_agent secret_path secret_field ttl in
      store_new i.written
        (if s.signing_key == ""
          then ok (record g { id = i.legacy_id })
          else new_hmac_grant_id i.random g s.signing_key)
        s

-- `Get`: a nil pointer is never stored
pub get : String → ShareStore → Option ShareGrant
get id s = lookup id s.grants

abbrev pub approved_grant : ℕ → String → ShareGrant → ShareGrant
approved_grant now by g = record g {
  status = approved;
  approved_at = some now;
  approved_by = by;
  expires_at = if is_positive g.ttl then some (add_duration now g.ttl) else g.expires_at;
}

abbrev approve_found :
    Bool → ℕ → String → String → Option ShareGrant → ShareStore → ShareStore × Result (Unit {0})
approve_found written now id by none s = (s, err not_found)
approve_found written now id by (some g) s =
    if status_eq g.status pending
    then save written (record s { grants = insert id (approved_grant now by g) s.grants })
    else (s, err not_pending)

pub approve : Bool → ℕ → String → String → ShareStore → ShareStore × Result (Unit {0})
unfolding save
approve written now id by s = approve_found written now id by (lookup id s.grants) s

abbrev revoke_found :
    Bool → ℕ → String → Option ShareGrant → ShareStore → ShareStore × Result (Unit {0})
revoke_found written now id none s = (s, err not_found)
revoke_found written now id (some g) s =
    if status_eq g.status revoked || status_eq g.status rejected
    then (s, err cannot_be_revoked)
    else save written (record s {
      grants = insert id (record g { status = revoked; revoked_at = some now }) s.grants;
    })

pub revoke : Bool → ℕ → String → ShareStore → ShareStore × Result (Unit {0})
unfolding save
revoke written now id s = revoke_found written now id (lookup id s.grants) s

abbrev reject_found :
    Bool → String → Option ShareGrant → ShareStore → ShareStore × Result (Unit {0})
reject_found written id none s = (s, err not_found)
reject_found written id (some g) s =
    if status_eq g.status pending
    then save written (record s { grants = insert id (record g { status = rejected }) s.grants })
    else (s, err not_pending)

pub reject : Bool → String → ShareStore → ShareStore × Result (Unit {0})
unfolding save
reject written id s = reject_found written id (lookup id s.grants) s

abbrev status_passes : Option ShareStatus → ShareStatus → Bool
status_passes none status = true
status_passes (some wanted) status = status_eq status wanted

-- The tests of the loop of `List`; an empty text and a nil status pass everything.
pub filter_passes : ShareFilter → ShareGrant → Bool
filter_passes f g =
    status_passes f.status g.status
    && ((f.from_agent == "" || g.from_agent == f.from_agent)
        && ((f.to_agent == "" || g.to_agent == f.to_agent)
            && (f.secret_path == "" || g.secret_path == f.secret_path)))

-- `List`, with the optional filter
pub list : Option ShareFilter → ShareStore → List ShareGrant
unfolding values filter_passes
list none s = values s.grants
list (some f) s = keep (filter_passes f) (values s.grants)

pub list_for_agent : String → ShareStore → List ShareGrant
unfolding values
list_for_agent agent s = keep (λ g. g.from_agent == agent || g.to_agent == agent) (values s.grants)

module _ (lib : Primitives) where
  abbrev is_valid : GrantId.Result Bool → Bool
  is_valid (GrantId.Result.ok valid) = valid
  is_valid (GrantId.Result.err e) = false

  pub verify_grant_hmac : ShareGrant → String → Bool
  verify_grant_hmac g key = is_valid (verify_grant_id lib g.id (grant_id_fields g) key)

  -- The tests of one round of the loop of `CheckAccess`.
  pub grants_access : ℕ → String → String → String → ShareGrant → Bool
  unfolding is_expired verify_grant_hmac
  grants_access now key to_agent path g =
      (g.to_agent == to_agent
        && (g.secret_path == path
            && (status_eq g.status approved && not (is_expired now (some g)))))
      && (if is_hmac_format g.id
          then (if key == "" then false else verify_grant_hmac g key)
          else true)

  -- `CheckAccess`; `clock` has the reading that is made for each grant
  pub check_access : (clock : ShareGrant → ℕ) → String → String → ShareStore → Option ShareGrant
  unfolding grants_access values
  check_access clock to_agent path s =
      find (λ g. grants_access (clock g) s.signing_key to_agent path g) (values s.grants)

-- `CleanupExpired`, with the number of grants that it removes
pub cleanup_expired : ℕ → ShareStore → ShareStore × ℕ
unfolding is_expired
cleanup_expired now s =
    let left = retain (λ g. not (is_expired now (some g))) s.grants in
    (record s { grants = left }, length s.grants - length left)
