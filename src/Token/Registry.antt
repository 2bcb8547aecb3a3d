-- ===== src/Token/Registry.antt =====
-- internal/mcp/token.go: the registry of tokens, its file, and the operations on it
pub mod Access
pub mod Revocation
pub mod Creation
pub mod Persistence
pub mod Examples
use mathlib.Core.List.{map}
use open_pass.Base.{
  ℕ, String, Bool, true, false, not, Option, none, some, List, [], ◌∷◌, ◌&&◌, ◌==◌, if◌then◌else◌,
  zero, suc,
}
use open_pass.Base.Assoc.{Assoc, lookup, insert, remove, retain}
use open_pass.Base.Clock.{ℤ, deadline}
use open_pass.Token.{
  ScopedToken, TokenRegistryEntry, is_expired, update_last_used, to_entry, entry_to_scoped_token,
  tools_or_empty,
}

-- `TokenRegistryFile`
pub record TokenRegistryFile : Type 0 where
  pub version : ℕ
  pub tokens : Assoc TokenRegistryEntry

-- What reading and decoding the registry's file gives.
pub data FileState : Type 0 where
  missing unreadable malformed : FileState
  holds : TokenRegistryFile → FileState

-- `TokenRegistry`, with the file at its path
pub record TokenRegistry : Type 0 where
  pub entries : Assoc ScopedToken
  pub file : FileState

pub data TokenError : Type 0 where
  read_failed parse_failed write_failed random_failed : TokenError
  invalid_refresh_token refresh_token_expired : TokenError

pub data Result {ℓ} (A : Type ℓ) : Type ℓ where
  ok : A → Result A
  err : TokenError → Result A

-- The loop of `Load`: an entry without a hash is left out.
unfoldable pub load_entries : Assoc TokenRegistryEntry → Assoc ScopedToken → Assoc ScopedToken
load_entries [] entries = entries
load_entries ((id, e) ∷ tokens) entries =
    let t = entry_to_scoped_token e in
    load_entries tokens (if t.hash == "" then entries else insert t.hash t entries)

-- the body of `Load` after the file was read
abbrev load_from : FileState → TokenRegistry → TokenRegistry × Result (Unit {0})
load_from missing r = (r, ok tt)
load_from unreadable r = (r, err read_failed)
load_from malformed r = (r, err parse_failed)
load_from (holds f) r = (record r { entries = load_entries f.tokens [] }, ok tt)

unfoldable pub load : TokenRegistry → TokenRegistry × Result (Unit {0})
load r = load_from r.file r

-- The loop of `Save`: the tokens by their ids.
pub save_entries : Assoc ScopedToken → Assoc TokenRegistryEntry → Assoc TokenRegistryEntry
save_entries [] tokens = tokens
save_entries ((hash, t) ∷ entries) tokens = save_entries entries (insert t.id (to_entry t) tokens)

unfoldable pub save : Bool → TokenRegistry → TokenRegistry × Result (Unit {0})
save written r =
    if written
    then (
      record r { file = holds (record { version = 2; tokens = save_entries r.entries [] }) },
      ok tt,
    )
    else (r, err write_failed)

-- the first characters of a text
abbrev pub first_chars : ℕ → String → String
first_chars zero s = ""
first_chars (suc n) String.[] = ""
first_chars (suc n) (String.◌∷◌ c s) = String.◌∷◌ c (first_chars n s)

-- The end of `Create` and of `CreateWithRefresh`: store, save, and take the token out again if
-- the save failed.
unfoldable pub store_and_save :
    Bool → ScopedToken → TokenRegistry → TokenRegistry × Result (Unit {0})
unfolding save
store_and_save written t r =
    let stored = record r { entries = insert t.hash t r.entries } in
    let (saved, result) = save written stored in
    elim result [
      | ok _ ↦ (saved, ok tt)
      | err e ↦ (record saved { entries = remove t.hash saved.entries }, err e)
    ]

-- What `Create` takes from its surroundings: the random text, or none if the source fails, the id
-- that it generates, the hash of the tool registry, two readings of the clock, and the outcome of
-- the write.
pub record CreateInput : Type 0 where
  pub raw : Option String
  pub id : String
  pub tool_registry_hash : String
  pub ttl_now : ℕ
  pub created_now : ℕ
  pub written : Bool

module _ (sha256_hex : String → String) where
  pub new_token : CreateInput → String → String → Option (List String) → String → ℤ → ScopedToken
  new_token i raw label tools agent ttl = record {
    id = i.id;
    label = label;
    hash = sha256_hex raw;
    prefix = first_chars 4 raw;
    allowed_tools = tools_or_empty tools;
    tool_registry_hash = i.tool_registry_hash;
    agent_name = agent;
    created_at = i.created_now;
    expires_at = deadline i.ttl_now ttl;
    last_used_at = none;
    revoked = false;
    revoked_at = none;
    refresh_token_hash = "";
    refresh_expires_at = none;
  }

  abbrev with_token :
      ScopedToken
      → String
      → TokenRegistry × Result (Unit {0})
      → TokenRegistry × Result (ScopedToken × String)
  with_token t raw (r, ok _) = (r, ok (t, raw))
  with_token t raw (r, err e) = (r, err e)

  abbrev create_raw :
      Option String
      → CreateInput
      → String
      → Option (List String)
      → String
      → ℤ
      → TokenRegistry
      → TokenRegistry × Result (ScopedToken × String)
  create_raw none i label tools agent ttl r = (r, err random_failed)
  create_raw (some raw) i label tools agent ttl r =
      let t = new_token i raw label tools agent ttl in
      with_token t raw (store_and_save i.written t r)

  pub create :
      CreateInput
      → String
      → Option (List String)
      → String
      → ℤ
      → TokenRegistry
      → TokenRegistry × Result (ScopedToken × String)
  unfolding new_token
  create i label tools agent ttl r = create_raw i.raw i label tools agent ttl r

-- the body of `Get` after the lookup; `now` is read by the expiry test and `used` by the update
abbrev get_found :
    ℕ → ℕ → String → Option ScopedToken → TokenRegistry → TokenRegistry × Option ScopedToken
get_found now used hash none r = (r, none)
get_found now used hash (some t) r =
    if t.revoked
    then (r, none)
    else if is_expired now (some t)
    then (record r { entries = remove hash r.entries }, none)
    else let t' = update_last_used used t in
      (record r { entries = insert hash t' r.entries }, some t')

unfoldable pub get : ℕ → ℕ → String → TokenRegistry → TokenRegistry × Option ScopedToken
unfolding is_expired update_last_used
get now used hash r = get_found now used hash (lookup hash r.entries) r

-- The loop of `Revoke`: the first token with the id that is not revoked yet.
pub revoke_in : ℕ → String → Assoc ScopedToken → Assoc ScopedToken × Bool
revoke_in now id [] = ([], false)
revoke_in now id ((hash, t) ∷ entries) =
    let (rest, found) = revoke_in now id entries in
    if (t.id == id) && not t.revoked
    then ((hash, record t { revoked = true; revoked_at = some now }) ∷ entries, true)
    else ((hash, t) ∷ rest, found)

pub revoke : ℕ → String → TokenRegistry → TokenRegistry × Bool
unfolding revoke_in
revoke now id r =
    let (entries, found) = revoke_in now id r.entries in (record r { entries = entries }, found)

-- the sweep of `cleanupOnce`, which is also the first loop of `List`
unfoldable pub cleanup_once : ℕ → TokenRegistry → TokenRegistry
unfolding is_expired
cleanup_once now r = record r { entries = retain (λ t. not (is_expired now (some t))) r.entries }

pub list : ℕ → TokenRegistry → TokenRegistry × List ScopedToken
unfolding cleanup_once
list now r = let swept = cleanup_once now r in (swept, map (λ p. p.1) swept.entries)
