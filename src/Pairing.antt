-- ===== src/Pairing.antt =====
-- internal/pairing/token.go: the store of one-time pairing tokens and its global cooldown. Instants
-- are numbers of nanoseconds, and the zero time is 0; each method's readings of the clock are
-- arguments, a separate one for each call of `time.Now`.
pub mod SingleUse
pub mod Cooldown
pub mod Examples
use open_pass.Base.{
  ℕ, ◌+◌, ◌*◌, ◌^◌, String, Bool, Option, none, some, List, [], ◌&&◌, not, ltb, leb, if◌then◌else◌,
}
use open_pass.Base.Assoc.{Assoc, lookup, insert, remove, retain}

-- `tokenEntry`
pub record TokenEntry : Type 0 where
  pub public_key : String
  pub expires_at : ℕ

pub record TokenStore : Type 0 where
  pub tokens : Assoc TokenEntry
  pub failed_count : ℕ
  pub cooldown_until : ℕ

-- `TokenTTL`, 5 minutes
abbrev pub token_ttl : ℕ
token_ttl = 300 * 10 ^ 9

-- `maxFailedAttempts`
abbrev pub max_failed_attempts : ℕ
max_failed_attempts = 5

-- `failedAttemptCooldown`, 30 seconds
abbrev pub failed_attempt_cooldown : ℕ
failed_attempt_cooldown = 30 * 10 ^ 9

abbrev pub new_token_store : TokenStore
new_token_store = record { tokens = []; failed_count = 0; cooldown_until = 0 }

pub store : ℕ → String → String → TokenStore → TokenStore
store now token public_key ts = record ts {
  tokens =
      insert token (record { public_key = public_key; expires_at = now + token_ttl }) ts.tokens;
}

-- The readings of one call of `Validate`, in the order of the code: for the two tests of the
-- cooldown, for the token's expiry, and for the start of a cooldown.
pub record Readings : Type 0 where
  pub block : ℕ
  pub reset : ℕ
  pub expiry : ℕ
  pub fail : ℕ

pub in_cooldown : Readings → TokenStore → Bool
in_cooldown at ts = leb max_failed_attempts ts.failed_count && ltb at.block ts.cooldown_until

-- the reset of the count once a cooldown has passed
pub reset_count : ℕ → TokenStore → TokenStore
reset_count now ts =
    if leb max_failed_attempts ts.failed_count && ltb ts.cooldown_until now
    then record ts { failed_count = 0 }
    else ts

-- one more failed attempt, which may start a cooldown
pub count_failure : Readings → TokenStore → TokenStore
count_failure at ts =
    let n = ts.failed_count + 1 in
    record ts {
      failed_count = n;
      cooldown_until =
          if leb max_failed_attempts n
          then at.fail + failed_attempt_cooldown
          else ts.cooldown_until;
    }

-- the store without the token
pub delete : String → TokenStore → TokenStore
delete token ts = record ts { tokens = remove token ts.tokens }

-- the part of `Validate` after the tests of the cooldown, by what the map holds
pub check_entry : Readings → String → TokenStore → Option TokenEntry → TokenStore × Option String
check_entry at token ts none = (count_failure at ts, none)
check_entry at token ts (some e) =
    if ltb e.expires_at at.expiry
    then (count_failure at (delete token ts), none)
    else (record (delete token ts) { failed_count = 0; cooldown_until = 0 }, some e.public_key)

-- `Validate`; "" and false are none
pub validate : Readings → String → TokenStore → TokenStore × Option String
validate at token ts =
    let ts' = reset_count at.reset ts in
    if in_cooldown at ts then (ts, none) else check_entry at token ts' (lookup token ts'.tokens)

pub cleanup_expired : ℕ → TokenStore → TokenStore
cleanup_expired now ts =
    reset_count now (record ts { tokens = retain (λ e. not (ltb e.expires_at now)) ts.tokens })
