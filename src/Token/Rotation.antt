-- ===== src/Token/Rotation.antt =====
-- internal/mcp/token.go: token pairs with a refresh token, and their rotation
pub mod Refresh
pub mod Expiry
pub mod History
pub mod Examples
use open_pass.Base.{
  ℕ, String, Bool, true, false, not, Option, none, some, List, [], ◌∷◌, ◌&&◌, ◌==◌, if◌then◌else◌,
}
use open_pass.Base.Assoc.{Assoc, insert}
use open_pass.Base.Clock.{ℤ, pos, deadline, sub_time, clamp_duration}
use open_pass.Token.{ScopedToken, is_expired, is_refresh_expired, tools_or_empty}
use open_pass.Token.Registry.{
  TokenRegistry, Result, ok, err, random_failed, invalid_refresh_token, refresh_token_expired,
  first_chars, store_and_save,
}

-- `getByRefreshTokenHash`, with the key of the token that it finds
pub get_by_refresh_token_hash : ℕ → String → Assoc ScopedToken → Option (String × ScopedToken)
get_by_refresh_token_hash now refresh [] = none
get_by_refresh_token_hash now refresh ((hash, t) ∷ entries) =
    if (t.refresh_token_hash == refresh) && (not t.revoked && not (is_expired now (some t)))
    then some (hash, t)
    else get_by_refresh_token_hash now refresh entries

-- What `CreateWithRefresh` takes from its surroundings.
pub record PairInput : Type 0 where
  pub raw_access : Option String
  pub raw_refresh : Option String
  pub id : String
  pub tool_registry_hash : String
  pub access_now : ℕ
  pub refresh_now : ℕ
  pub created_now : ℕ
  pub written : Bool

-- What `RotateViaRefreshToken` reads itself: the clock at the lookup, at the test of the refresh
-- token, at the revocation, and at each of the two calls of `time.Until`.
pub record RotateInput : Type 0 where
  pub lookup_now : ℕ
  pub test_now : ℕ
  pub revoked_now : ℕ
  pub access_until_now : ℕ
  pub refresh_until_now : ℕ
  pub pair : PairInput

-- `time.Until(*t)`, at least 0, or 0 if there is no deadline
abbrev pub remaining : ℕ → Option ℕ → ℤ
remaining now none = pos 0
remaining now (some t) = clamp_duration (sub_time t now)

abbrev pub Pair : Type 0
Pair = ScopedToken × String × String

abbrev with_pair : Pair → TokenRegistry × Result (Unit {0}) → TokenRegistry × Result Pair
with_pair p (r, ok _) = (r, ok p)
with_pair p (r, err e) = (r, err e)

module _ (sha256_hex : String → String) where
  pub new_pair_token :
      PairInput → String → String → String → Option (List String) → String → ℤ → ℤ → ScopedToken
  new_pair_token i access refresh label tools agent access_ttl refresh_ttl = record {
    id = i.id;
    label = label;
    hash = sha256_hex access;
    prefix = first_chars 4 access;
    allowed_tools = tools_or_empty tools;
    tool_registry_hash = i.tool_registry_hash;
    agent_name = agent;
    created_at = i.created_now;
    expires_at = deadline i.access_now access_ttl;
    last_used_at = none;
    revoked = false;
    revoked_at = none;
    refresh_token_hash = sha256_hex refresh;
    refresh_expires_at = deadline i.refresh_now refresh_ttl;
  }

  abbrev create_pair_raw :
      Option String
      → Option String
      → PairInput
      → String
      → Option (List String)
      → String
      → ℤ
      → ℤ
      → TokenRegistry
      → TokenRegistry × Result Pair
  create_pair_raw none refresh i label tools agent access_ttl refresh_ttl r = (r, err random_failed)
  create_pair_raw (some access) none i label tools agent access_ttl refresh_ttl r =
      (r, err random_failed)
  create_pair_raw (some access) (some refresh) i label tools agent access_ttl refresh_ttl r =
      let t = new_pair_token i access refresh label tools agent access_ttl refresh_ttl in
      with_pair (t, access, refresh) (store_and_save i.written t r)

  pub create_with_refresh :
      PairInput
      → String
      → Option (List String)
      → String
      → ℤ
      → ℤ
      → TokenRegistry
      → TokenRegistry × Result Pair
  unfolding new_pair_token
  create_with_refresh i label tools agent access_ttl refresh_ttl r =
      create_pair_raw i.raw_access i.raw_refresh i label tools agent access_ttl refresh_ttl r

  -- the old token, found under its key, is marked and the new pair made for the time that is left
  pub rotate_found :
      RotateInput → Option (String × ScopedToken) → TokenRegistry → TokenRegistry × Result Pair
  rotate_found i none r = (r, err invalid_refresh_token)
  rotate_found i (some (hash, old)) r =
      if is_refresh_expired i.test_now (some old)
      then (r, err refresh_token_expired)
      else create_with_refresh i.pair old.label (some old.allowed_tools) old.agent_name
          (remaining i.access_until_now old.expires_at)
          (remaining i.refresh_until_now old.refresh_expires_at)
          (record r {
            entries =
                insert hash (record old { revoked = true; revoked_at = some i.revoked_now })
                  r.entries;
          })

  pub rotate_via_refresh_token : RotateInput → String → TokenRegistry → TokenRegistry × Result Pair
  unfolding rotate_found is_refresh_expired
  rotate_via_refresh_token i raw r =
      rotate_found i (get_by_refresh_token_hash i.lookup_now (sha256_hex raw) r.entries) r
