-- ===== src/Share/Types.antt =====
-- internal/mcp/sharing_types.go, and the store of internal/mcp/sharing_store.go: grants, their statuses,
-- and the state of the store.
use open_pass.Base.{ℕ, String, ◌==◌, Bool, true, false, Option, none, some, List}
use open_pass.Base.Assoc.{Assoc}
use open_pass.Base.Clock.{ℤ, passed}

-- `ShareStatus`, which is a text: a file may also hold one that is none of the constants
pub data ShareStatus : Type 0 where
  pending approved revoked expired rejected : ShareStatus
  other : (text : String) → ShareStatus

abbrev pub status_eq : ShareStatus → ShareStatus → Bool
status_eq pending pending = true
status_eq approved approved = true
status_eq revoked revoked = true
status_eq expired expired = true
status_eq rejected rejected = true
status_eq (other a) (other b) = a == b
status_eq _ _ = false

pub record ShareGrant : Type 0 where
  pub id : String
  pub from_agent : String
  pub to_agent : String
  pub secret_path : String
  pub secret_field : String
  pub nonce : String
  pub status : ShareStatus
  pub created_at : ℕ
  pub expires_at : Option ℕ
  pub approved_at : Option ℕ
  pub revoked_at : Option ℕ
  pub approved_by : String
  pub ttl : ℤ

-- the method takes a pointer, and `none` is nil
unfoldable pub is_expired : ℕ → Option ShareGrant → Bool
is_expired now none = true
is_expired now (some g) = passed now g.expires_at

pub record ShareFilter : Type 0 where
  pub status : Option ShareStatus
  pub from_agent : String
  pub to_agent : String
  pub secret_path : String

-- What reading and decoding the store's file gives; `holds` has the grants of the file.
pub data FileState : Type 0 where
  missing unreadable malformed : FileState
  holds : (version : ℕ) → List ShareGrant → FileState

-- `ShareStore`, with the file at its path; an empty key is nil
pub record ShareStore : Type 0 where
  pub grants : Assoc ShareGrant
  pub signing_key : String
  pub file : FileState

pub data ShareError : Type 0 where
  read_failed parse_failed write_failed hmac_failed : ShareError
  not_found not_pending cannot_be_revoked : ShareError

pub data Result {ℓ} (A : Type ℓ) : Type ℓ where
  ok : A → Result A
  err : ShareError → Result A
