-- ===== src/Token/Rotation/History.antt =====
-- Sequences of operations on one registry in memory: a token that was refused for good stays so.
-- `Load` is among the steps for every file that does not hold the token as good: it reads what
-- another process may have written, or what the registry itself had saved before a revocation.
use open_pass.Base.{
  ℕ, String, ◌≡◌, refl, Bool, true, false, Option, none, some, List, [], ◌∷◌, ◌==◌, eq_iff, arith,
  inl, inr, Bool-cases,
}
use open_pass.Base.Assoc.{
  Assoc, lookup, insert, lookup-insert, Distinct, Distinct-insert, Distinct-retain,
}
use open_pass.Base.Clock.{ℤ}
use open_pass.Token.{ScopedToken, TokenRegistryEntry, entry_to_scoped_token, is_refresh_expired}
use open_pass.Token.Registry.{
  TokenRegistry, CreateInput, create, get, revoke, cleanup_once, save, store_and_save, load,
  load_entries, FileState, missing, unreadable, malformed, holds,
}
use open_pass.Token.Registry.Access.{
  is_refused, is_refused-get, is_refused-cleanup_once, get_of_is_refused, Distinct-get,
}
use open_pass.Token.Registry.Revocation.{is_refused-revoke, Distinct-revoke}
use open_pass.Token.Registry.Creation.{
  HashesAway, lookup-create, Distinct-create, lookup-store_and_save, Distinct-store_and_save,
}
use open_pass.Token.Rotation.{
  PairInput, RotateInput, new_pair_token, create_pair_raw, create_with_refresh,
  rotate_via_refresh_token, rotate_found,
}
use open_pass.Token.Rotation.Refresh.{with_pair_state, consumed}

module _ (sha256_hex : String → String) where
  -- One operation, where the tokens that it makes do not have the hash `h`, and a file that it loads has
  -- no token with it but a revoked one.
  pub data Step (h : String) (r : TokenRegistry) : TokenRegistry → Type 0 where
    created :
        (i : CreateInput) (label : String) (tools : Option (List String)) (agent : String) (ttl : ℤ)
        → HashesAway sha256_hex h i.raw
        → Step h r (create sha256_hex i label tools agent ttl r).0
    paired :
        (i : PairInput) (label : String) (tools : Option (List String)) (agent : String) (x y : ℤ)
        → HashesAway sha256_hex h i.raw_access
        → Step h r (create_with_refresh sha256_hex i label tools agent x y r).0
    rotated :
        (i : RotateInput) (raw : String)
        → HashesAway sha256_hex h i.pair.raw_access
        → Step h r (rotate_via_refresh_token sha256_hex i raw r).0
    got : (now used : ℕ) (j : String) → Step h r (get now used j r).0
    revoked : (now : ℕ) (id : String) → Step h r (revoke now id r).0
    swept : (now : ℕ) → Step h r (cleanup_once now r)
    written : (done : Bool) → Step h r (save done r).0
    loaded :
        (file : FileState)
        → is_refused (lookup h (load (record r { file = file })).0.entries) ≡ true
        → Step h r (load (record r { file = file })).0

  pub data Reach (h : String) (r : TokenRegistry) : TokenRegistry → Type 0 where
    start : Reach h r r
    next : {s t : TokenRegistry} → Reach h r s → Step h s t → Reach h r t

  lookup-create_pair_raw :
      (o f : Option String) (h : String) (i : PairInput) (label : String)
      (tools : Option (List String)) (agent : String) (x y : ℤ) (r : TokenRegistry)
      → HashesAway sha256_hex h o
      → lookup h (create_pair_raw sha256_hex o f i label tools agent x y r).0.entries
        ≡ lookup h r.entries
  unfolding new_pair_token
  lookup-create_pair_raw none f h i label tools agent x y r a = refl
  lookup-create_pair_raw (some raw) none h i label tools agent x y r a = refl
  lookup-create_pair_raw (some raw) (some f) h i label tools agent x y r a =
      let t = new_pair_token sha256_hex i raw f label tools agent x y in
      rw (with_pair_state (t, raw, f) (store_and_save i.written t r), lookup-store_and_save, a)

  Distinct-create_pair_raw :
      (o f : Option String) (i : PairInput) (label : String) (tools : Option (List String))
      (agent : String) (x y : ℤ) (r : TokenRegistry)
      → Distinct r.entries
      → Distinct (create_pair_raw sha256_hex o f i label tools agent x y r).0.entries
  Distinct-create_pair_raw none f i label tools agent x y r d = d
  Distinct-create_pair_raw (some raw) none i label tools agent x y r d = d
  Distinct-create_pair_raw (some raw) (some f) i label tools agent x y r d =
      let t = new_pair_token sha256_hex i raw f label tools agent x y in
      rw (with_pair_state (t, raw, f) (store_and_save i.written t r))
        (Distinct-store_and_save i.written t r d)

  load_entries-Distinct :
      (tokens : Assoc TokenRegistryEntry) (entries : Assoc ScopedToken)
      → Distinct entries
      → Distinct (load_entries tokens entries)
  unfolding load_entries
  load_entries-Distinct [] entries d = d
  load_entries-Distinct ((id, e) ∷ tokens) entries d =
      let t = entry_to_scoped_token e in
      elim (Bool-cases (t.hash == "")) [
        | inl q ↦ rw q (load_entries-Distinct tokens entries d)
        | inr q ↦ rw q (
            load_entries-Distinct tokens (insert t.hash t entries)
              (Distinct-insert t.hash t entries d))
      ]

  load-Distinct :
      (file : FileState) (r : TokenRegistry)
      → Distinct r.entries
      → Distinct (load (record r { file = file })).0.entries
  unfolding load
  load-Distinct missing r d = d
  load-Distinct unreadable r d = d
  load-Distinct malformed r d = d
  load-Distinct (holds f) r d = load_entries-Distinct f.tokens [] tt

  -- What a rotation keeps, if it keeps the entries or replaces one by a revoked token and goes on
  -- as a creation does.
  rotate_found_keeps :
      (P : TokenRegistry → Type 0) (i : RotateInput) (found : Option (String × ScopedToken))
      (r : TokenRegistry)
      → P r
      → ((hash : String) (old : ScopedToken) (x y : ℤ)
          → P
              (create_with_refresh sha256_hex i.pair old.label
                (some old.allowed_tools)
                old.agent_name
                x
                y
                (record r { entries = insert hash (consumed sha256_hex i old) r.entries })).0)
      → P (rotate_found sha256_hex i found r).0
  unfolding rotate_found
  rotate_found_keeps P i none r p made = p
  rotate_found_keeps P i (some (hash, old)) r p made =
      elim (Bool-cases (is_refresh_expired i.test_now (some old))) [
        | inl e ↦ rw e p
        | inr e ↦ rw e (made hash old _ _)
      ]

  -- Every operation keeps each hash at most once among the keys.
  pub Step-Distinct :
      {h : String} {r s : TokenRegistry} → Step h r s → Distinct r.entries → Distinct s.entries
  Step-Distinct {r} (created i label tools agent ttl a) d =
      Distinct-create sha256_hex i label tools agent ttl r d
  Step-Distinct {r} (paired i label tools agent x y a) d =
      unfold create_with_refresh in
      Distinct-create_pair_raw i.raw_access i.raw_refresh i label tools agent x y r d
  Step-Distinct {r} (rotated i raw a) d =
      unfold rotate_via_refresh_token in
      rotate_found_keeps (λ s. Distinct s.entries) i _ r d
        (λ hash old x y.
          unfold create_with_refresh in
          Distinct-create_pair_raw i.pair.raw_access i.pair.raw_refresh i.pair old.label
            (some old.allowed_tools) old.agent_name x y
            (record r { entries = insert hash (consumed sha256_hex i old) r.entries })
            (Distinct-insert hash (consumed sha256_hex i old) r.entries d))
  Step-Distinct {r} (got now used j) d = Distinct-get now used j r d
  Step-Distinct {r} (revoked now id) d = Distinct-revoke now id r d
  Step-Distinct {r} (swept now) d = unfold cleanup_once in Distinct-retain _ r.entries d
  Step-Distinct (written true) d = unfold save in d
  Step-Distinct (written false) d = unfold save in d
  Step-Distinct {r} (loaded file still) d = load-Distinct file r d

  Step-is_refused :
      {h : String} {r s : TokenRegistry}
      → Step h r s
      → Distinct r.entries
      → is_refused (lookup h r.entries) ≡ true
      → is_refused (lookup h s.entries) ≡ true
  Step-is_refused {h} {r} (created i label tools agent ttl a) d e =
      rw (lookup-create sha256_hex h i label tools agent ttl r a) e
  Step-is_refused {h} {r} (paired i label tools agent x y a) d e =
      unfold create_with_refresh in
      rw (lookup-create_pair_raw i.raw_access i.raw_refresh h i label tools agent x y r a) e
  Step-is_refused {h} {r} (rotated i raw a) d e =
      unfold rotate_via_refresh_token in
      rotate_found_keeps (λ s. is_refused (lookup h s.entries) ≡ true) i _ r e
        (λ hash old x y.
          unfold create_with_refresh in
          rw
            (
              lookup-create_pair_raw i.pair.raw_access i.pair.raw_refresh h i.pair old.label
                  (some old.allowed_tools) old.agent_name x y
                  (record r { entries = insert hash (consumed sha256_hex i old) r.entries }) a,
              lookup-insert hash h (consumed sha256_hex i old) r.entries,
            )
            (ground (arith, e, eq_iff hash h)))
  Step-is_refused {h} {r} (got now used j) d e = is_refused-get now used j h r e
  Step-is_refused {h} {r} (revoked now id) d e = is_refused-revoke now id h r e
  Step-is_refused {h} {r} (swept now) d e = is_refused-cleanup_once now h r d e
  Step-is_refused (written true) d e = unfold save in e
  Step-is_refused (written false) d e = unfold save in e
  Step-is_refused {h} {r} (loaded file still) d e = still

  Reach-keeps :
      {h : String} {r s : TokenRegistry}
      → Reach h r s
      → Distinct r.entries
      → is_refused (lookup h r.entries) ≡ true
      → Distinct s.entries × (is_refused (lookup h s.entries) ≡ true)
  Reach-keeps start d e = (d, e)
  Reach-keeps (next p st) d e =
      let (d', e') = Reach-keeps p d e in (Step-Distinct st d', Step-is_refused st d' e')

  -- From a registry in which a hash has no token or a revoked one, no sequence of operations on it
  -- makes `Get` accept that hash again, where no new token has the hash and no call of `Load` meets a
  -- file that has a token with it that is not revoked. (`Revoke` does not save, so the registry's own
  -- file is such a file until the next `Save`.)
  pub refused_for_good :
      (h : String) (r s : TokenRegistry) (now used : ℕ)
      → Reach h r s
      → Distinct r.entries
      → is_refused (lookup h r.entries) ≡ true
      → (get now used h s).1 ≡ none
  refused_for_good h r s now used p d e = get_of_is_refused now used h s (Reach-keeps p d e).1
