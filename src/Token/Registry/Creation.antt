-- ===== src/Token/Registry/Creation.antt =====
-- What `Create` stores, and what it leaves behind when it fails.
use open_pass.Base.{
  ℕ, String, ◌≡◌, refl, Bool, true, false, Option, none, some, List, ◌==◌, eq_iff, eq_refl,
  if◌then◌else◌, arith, inl, inr, Bool-cases,
}
use open_pass.Base.Assoc.{
  lookup, lookup-insert, lookup-remove, Distinct, Distinct-insert, Distinct-remove,
}
use open_pass.Base.Clock.{ℤ, passed, deadline}
use open_pass.Token.{ScopedToken, tools_or_empty}
use open_pass.Token.Registry.{
  TokenRegistry, TokenError, Result, ok, err, write_failed, CreateInput, new_token, create_raw,
  with_token, create, store_and_save, get,
}
use open_pass.Token.Registry.Access.{get-eq-authenticated}

-- The lookups after a token was stored and saved.
pub lookup-store_and_save :
    (written : Bool) (t : ScopedToken) (j : String) (r : TokenRegistry)
    → lookup j (store_and_save written t r).0.entries
      ≡ (if t.hash == j then (if written then some t else none) else lookup j r.entries)
unfolding store_and_save
lookup-store_and_save true t j r = rw lookup-insert
lookup-store_and_save false t j r = rw (lookup-remove, lookup-insert) (ground arith)

pub store_and_save_result :
    (written : Bool) (t : ScopedToken) (r : TokenRegistry)
    → (store_and_save written t r).1 ≡ (if written then ok tt else err write_failed)
unfolding store_and_save
store_and_save_result true t r = refl
store_and_save_result false t r = refl

pub file-store_and_save :
    (t : ScopedToken) (r : TokenRegistry) → (store_and_save false t r).0.file ≡ r.file
unfolding store_and_save
file-store_and_save t r = refl

pub Distinct-store_and_save :
    (written : Bool) (t : ScopedToken) (r : TokenRegistry)
    → Distinct r.entries
    → Distinct (store_and_save written t r).0.entries
unfolding store_and_save
Distinct-store_and_save true t r d = Distinct-insert t.hash t r.entries d
Distinct-store_and_save false t r d =
    Distinct-remove t.hash _ (Distinct-insert t.hash t r.entries d)

with_token_state :
    (sha256_hex : String → String) (t : ScopedToken) (raw : String)
    (p : TokenRegistry × Result (Unit {0}))
    → (with_token sha256_hex t raw p).0 ≡ p.0
with_token_state sha256_hex t raw (r, ok _) = refl
with_token_state sha256_hex t raw (r, err e) = refl

module _ (sha256_hex : String → String) where
  -- A raw token, if there is one, whose hash is not the given one.
  abbrev pub HashesAway : String → Option String → Type 0
  HashesAway h none = Unit
  HashesAway h (some raw) = (sha256_hex raw == h) ≡ false

  lookup-create_raw :
      (o : Option String) (h : String) (i : CreateInput) (label : String)
      (tools : Option (List String)) (agent : String) (ttl : ℤ) (r : TokenRegistry)
      → HashesAway h o
      → lookup h (create_raw sha256_hex o i label tools agent ttl r).0.entries ≡ lookup h r.entries
  unfolding new_token
  lookup-create_raw none h i label tools agent ttl r a = refl
  lookup-create_raw (some raw) h i label tools agent ttl r a =
      let t = new_token sha256_hex i raw label tools agent ttl in
      rw
        (with_token_state sha256_hex t raw (store_and_save i.written t r), lookup-store_and_save, a)

  pub lookup-create :
      (h : String) (i : CreateInput) (label : String) (tools : Option (List String))
      (agent : String) (ttl : ℤ) (r : TokenRegistry)
      → HashesAway h i.raw
      → lookup h (create sha256_hex i label tools agent ttl r).0.entries ≡ lookup h r.entries
  unfolding create
  lookup-create h i label tools agent ttl r a =
      lookup-create_raw i.raw h i label tools agent ttl r a

  Distinct-create_raw :
      (o : Option String) (i : CreateInput) (label : String) (tools : Option (List String))
      (agent : String) (ttl : ℤ) (r : TokenRegistry)
      → Distinct r.entries
      → Distinct (create_raw sha256_hex o i label tools agent ttl r).0.entries
  Distinct-create_raw none i label tools agent ttl r d = d
  Distinct-create_raw (some raw) i label tools agent ttl r d =
      let t = new_token sha256_hex i raw label tools agent ttl in
      rw (with_token_state sha256_hex t raw (store_and_save i.written t r))
        (Distinct-store_and_save i.written t r d)

  pub Distinct-create :
      (i : CreateInput) (label : String) (tools : Option (List String)) (agent : String) (ttl : ℤ)
      (r : TokenRegistry)
      → Distinct r.entries
      → Distinct (create sha256_hex i label tools agent ttl r).0.entries
  unfolding create
  Distinct-create i label tools agent ttl r d =
      Distinct-create_raw i.raw i label tools agent ttl r d

  -- What a successful call was, undone to its parts.
  create_raw-eq-ok :
      (o : Option String) (i : CreateInput) (label : String) (tools : Option (List String))
      (agent : String) (ttl : ℤ) (r r' : TokenRegistry) (t : ScopedToken) (raw : String)
      → create_raw sha256_hex o i label tools agent ttl r ≡ (r', ok (t, raw))
      → (t ≡ new_token sha256_hex i raw label tools agent ttl) × (r' ≡ (store_and_save true t r).0)
  create_raw-eq-ok none i label tools agent ttl r r' t raw h = ground arith
  create_raw-eq-ok (some s) i label tools agent ttl r r' t raw h = elim (Bool-cases i.written) [
    | inl w ↦ ground (
      arith,
      w,
      store_and_save_result i.written (new_token sha256_hex i s label tools agent ttl) r,
    )
    | inr w ↦ ground (
      arith,
      w,
      store_and_save_result i.written (new_token sha256_hex i s label tools agent ttl) r,
    )
  ]

  get-new_token :
      (i : CreateInput) (label : String) (tools : Option (List String)) (agent : String) (ttl : ℤ)
      (r : TokenRegistry) (raw : String) (now used : ℕ)
      → (get now used
          (sha256_hex raw)
          (store_and_save true (new_token sha256_hex i raw label tools agent ttl) r).0).1
        ≡ (if passed now (deadline i.ttl_now ttl)
            then none
            else some (record (new_token sha256_hex i raw label tools agent ttl) {
              last_used_at = some used;
            }))
  unfolding new_token
  get-new_token i label tools agent ttl r raw now used =
      rw (get-eq-authenticated, lookup-store_and_save, eq_refl)

  -- After a successful `Create`, `Get` of the hash of the raw token returns the token with the given
  -- tools and agent until its deadline has passed, and nothing after it; the deadline is set exactly
  -- when the time to live is positive.
  get-create :
      (i : CreateInput) (label : String) (tools : Option (List String)) (agent : String) (ttl : ℤ)
      (r r' : TokenRegistry) (t : ScopedToken) (raw : String) (now used : ℕ)
      → create sha256_hex i label tools agent ttl r ≡ (r', ok (t, raw))
      → ((get now used (sha256_hex raw) r').1 ≡ (
          if passed now (deadline i.ttl_now ttl)
          then none
          else some (record t { last_used_at = some used })))
        × (t.allowed_tools ≡ tools_or_empty tools)
        × (t.agent_name ≡ agent)
  unfolding create
  get-create i label tools agent ttl r r' t raw now used h =
      let (et, er) = create_raw-eq-ok i.raw i label tools agent ttl r r' t raw h in
      rw (er, et)
        (
          get-new_token i label tools agent ttl r raw now used,
          unfold new_token in refl,
          unfold new_token in refl,
        )

  create_raw-eq-err :
      (o : Option String) (i : CreateInput) (label : String) (tools : Option (List String))
      (agent : String) (ttl : ℤ) (r r' : TokenRegistry) (e : TokenError) (j : String)
      → ((raw : String) → o ≡ some raw → lookup (sha256_hex raw) r.entries ≡ none)
      → create_raw sha256_hex o i label tools agent ttl r ≡ (r', err e)
      → (lookup j r'.entries ≡ lookup j r.entries) × (r'.file ≡ r.file)
  unfolding new_token
  create_raw-eq-err none i label tools agent ttl r r' e j fresh h = (ground arith, ground arith)
  create_raw-eq-err (some s) i label tools agent ttl r r' e j fresh h =
      let t = new_token sha256_hex i s label tools agent ttl in
      elim (Bool-cases i.written) [
        | inl w ↦ ground (arith, w, store_and_save_result i.written t r)
        | inr w ↦ ground (
          arith,
          w,
          fresh s refl,
          eq_iff (sha256_hex s) j,
          store_and_save_result i.written t r,
          lookup-store_and_save i.written t j r,
          file-store_and_save t r,
        )
      ]

  -- A `Create` that fails leaves the file alone, and every lookup as it was, if no stored token has
  -- the new token's hash.
  create_failure :
      (i : CreateInput) (label : String) (tools : Option (List String)) (agent : String) (ttl : ℤ)
      (r r' : TokenRegistry) (e : TokenError) (j : String)
      → ((raw : String) → i.raw ≡ some raw → lookup (sha256_hex raw) r.entries ≡ none)
      → create sha256_hex i label tools agent ttl r ≡ (r', err e)
      → (lookup j r'.entries ≡ lookup j r.entries) × (r'.file ≡ r.file)
  unfolding create
  create_failure i label tools agent ttl r r' e j fresh h =
      create_raw-eq-err i.raw i label tools agent ttl r r' e j fresh h
