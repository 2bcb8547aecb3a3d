-- ===== src/Lib.antt =====
-- A model of the parts of OpenPass that decide who may use a secret, and that watch and record its use:
-- scoped tokens of the MCP server, share grants between agents, declarative policies, device pairing,
-- leases of dynamic secrets, the audit log, the detector of anomalies, quotas, the dotted paths of
-- the configuration, the paths, data and manifest of the vault, sessions, approvals, and the
-- versions of releases.
--
-- Parts and files:
--   * Token (internal/mcp/token.go): `ScopedToken` and its tests. Token.Registry is the registry with
--     `Load`, `Save`, `Create`, `Get`, `Revoke`, `List` and the sweep; Token.Rotation has the pairs
--     with a refresh token (`CreateWithRefresh`, `RotateViaRefreshToken`), and in History the steps
--     that any sequence of operations is made of.
--   * GrantId (internal/crypto/hmac.go): ids of grants that are bound to the fields of the grant.
--   * Share (internal/mcp/sharing_types.go, internal/mcp/sharing_store.go): the store of share grants,
--     which takes its ids from GrantId: Lifecycle and Edges have the statuses, Access the search of
--     `CheckAccess`, History the sequences of calls.
--   * Policy (internal/policy/types.go, engine.go and ratelimit.go): policies, TimeOfDay, Validation,
--     the token bucket with its daily count (RateLimit), the tests of paths, tags, variables and tools
--     (Matching), and the engine (Engine), which sorts the rules and evaluates them.
--   * Pairing (internal/pairing/token.go): one-time pairing tokens with a global cooldown.
--   * Lease (internal/dynamicsecret/lease.go, engine.go and manager.go): leases of generated secrets.
--   * Authorize (internal/mcp/server_authorize.go, and `BuildContext` of internal/policy/context.go):
--     whether a call may use a path, by the policy engine, the scope with its share grants, and the
--     modes of writing and approval, with the audit entries that it writes.
--   * Audit (internal/audit/audit.go): the entries of the audit log and `VerifyLog`; Audit.Logger has
--     the logger that appends to the chain of digests, and Audit.Tail the reading of the end of the
--     file, `lastNEntries` and `readLastHMAC`. Chain says what a chain is, Acceptance and Writing that
--     it is what is accepted and what is written, Limits what goes unnoticed; Sample has a concrete
--     encoding of entries.
--   * Anomaly (internal/anomaly/detector.go and rules.go): the detector with its window of calls
--     (Window) and its rules (Rules, Sweep), and the decimal texts of its alerts (Itoa).
--   * Vault (internal/vault/entry.go, internal/pathutil/pathutil.go): the paths that entries may have
--     (Path), and the merging of their data (Data).
--     Vault.Manifest (internal/vault/manifest.go) is the manifest of the hashes of the files, with its
--     check (Laws) and Rebuilding, and Vault.Search (internal/vault/search.go) the fields that a
--     search reports, with Redaction.
--   * Session (internal/session/session.go): the passphrase and the identity in a keyring. Interface
--     says what a keyring and the libraries are relied on for; Loading and Ending are the life of a
--     session. Session.Memory (internal/session/memory_keyring.go) is the keyring in memory, Sample a
--     concrete one with a format.
--   * Approval (internal/mcp/approval.go, internal/mcp/approval_helper.go, and the cache of
--     internal/mcp/server.go): `requireApproval` on the server of Authorize, with the request at the
--     terminal, the cache (Remembering), and the texts of the terminal (Terminal).
--   * Quotas (internal/quotas/counter.go): counters of calls in a file.
--   * ConfigTree (internal/config/dottedpath.go): `GetConfigValue`, `SetConfigValue` and
--     `ConfigTreeKeys` on a YAML tree (Laws, Keys).
--   * Totp (internal/crypto/totp.go): one-time codes by the clock, with the tests of their parameters
--     and secrets. A call takes the seconds and the nanoseconds of its reading of the clock.
--   * Update (internal/update/checker.go): the versions of releases, parsed, printed and compared.
--   * Base has what they share: tests on numbers and texts, Go's maps as association lists (Assoc),
--     instants and durations (Clock), decimal digits (Decimal), texts and their lines
--     (Text), ends of slices (Slices).
--
-- Conventions: an object behind a mutex is a record, and a method is a function from the record
-- to the record and its result. The calls on one object form a sequence; a method that releases
-- the lock between its parts (`Create`, the rotation of tokens, and `Approve`, `Revoke` and
-- `Reject` of a share grant, which save afterwards) is taken here as one step. Instants are
-- nanoseconds as natural numbers, and each reading of the clock is an argument of its own, so
-- that two readings in one method may differ; an operation of Session reads one instant. Go's int
-- is a natural number or an integer without a bound; the counts of failures stay far below 2 ^
-- 63, and those of Quotas wrap around. Random texts, the outcome of a write, and the libraries
-- for hashes, JSON, YAML, hex, paths, clock texts and float64 are arguments. A file is the text
-- of its bytes, one character for each. A map's order of iteration is the order of insertion.
--
-- Fuel: `matchPath` calls itself on the pattern under the home directory; `match_path` takes fuel
-- for it: the call on the expanded pattern is the only one where that pattern does not begin with
-- "~/". The loops that read the end of the log take the length of the file, as the piece that
-- they read at least doubles, and `itoa` has the 20 bytes of its buffer. Every other function
-- recurses on its list, text or tree.
--
-- Not modelled: goroutines, file watching and legacy token files around the registry, the engines
-- behind the leases, the rotation and retention of log files, the reading and writing of the
-- configuration file, and the rest of the program, which is transport, terminal, encryption by age,
-- and operating system calls.
pub mod Anomaly
pub mod Approval
pub mod Audit
pub mod Authorize
pub mod Base
pub mod ConfigTree
pub mod GrantId
pub mod Lease
pub mod Pairing
pub mod Policy
pub mod Quotas
pub mod Session
pub mod Share
pub mod Token
pub mod Totp
pub mod Update
pub mod Vault
