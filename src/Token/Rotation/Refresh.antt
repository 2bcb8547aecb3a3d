-- ===== src/Token/Rotation/Refresh.antt =====
-- What a rotation does to the old pair.
use open_pass.Base.{
  ℕ, String, ◌≡◌, ◌⊎◌, refl, Bool, true, false, not, Option, none, some, List, [], ◌∷◌, ◌&&◌, ◌==◌,
  eq_iff, arith, ap, inl, inr, Bool-cases, All,
}
use open_pass.Base.Assoc.{Assoc, lookup, insert, remove, Distinct, Fresh}
use open_pass.Base.Clock.{ℤ}
use open_pass.Token.{ScopedToken, is_expired, is_refresh_expired}
use open_pass.Token.Registry.{TokenRegistry, Result, ok, err, invalid_refresh_token, store_and_save}
use open_pass.Token.Rotation.{
  get_by_refresh_token_hash, PairInput, RotateInput, Pair, new_pair_token, create_pair_raw,
  create_with_refresh, with_pair, rotate_via_refresh_token, remaining,
}

-- Whether a token answers to a refresh hash at an instant.
abbrev pub answers : ℕ → String → ScopedToken → Bool
answers now refresh t =
    (t.refresh_token_hash == refresh) && (not t.revoked && not (is_expired now (some t)))

pub get_by_refresh_token_hash-eq-none :
    (now : ℕ) (refresh : String) (m : Assoc ScopedToken)
    → All (λ p. answers now refresh p.1 ≡ false) m
    → get_by_refresh_token_hash now refresh m ≡ none
unfolding get_by_refresh_token_hash
get_by_refresh_token_hash-eq-none now refresh [] h = refl
get_by_refresh_token_hash-eq-none now refresh ((k, t) ∷ m) (e, h) =
    rw e (get_by_refresh_token_hash-eq-none now refresh m h)

-- Only the token under one key has the refresh hash.
abbrev pub IsSoleHolder : String → String → Assoc ScopedToken → Type 0
IsSoleHolder refresh hash =
    All (λ p. ((p.1.refresh_token_hash == refresh) ≡ false) ⊎ ((p.0 == hash) ≡ true))

holder : {a b : Bool} → (a ≡ false) ⊎ (b ≡ true) → a ≡ true → b ≡ true
holder (inl e) h = absurd (ground (arith, e, h))
holder (inr e) h = e

module _ (now : ℕ) (refresh hash : String) where
  All-answers_of_Fresh :
      (k : String) (m : Assoc ScopedToken)
      → (k == hash) ≡ true
      → Fresh k m
      → IsSoleHolder refresh hash m
      → All (λ p. answers now refresh p.1 ≡ false) m
  All-answers_of_Fresh k [] e f s = tt
  All-answers_of_Fresh k ((j, t) ∷ m) e (f, fs) (s, ss) = (
    elim (Bool-cases (t.refresh_token_hash == refresh)) [
      | inl same ↦
          absurd (ground (arith, holder s same, f, eq_iff k hash, eq_iff j hash, eq_iff j k))
      | inr other ↦ rw other
    ],
    All-answers_of_Fresh k m e fs ss,
  )

  -- Once its one holder is revoked, no token answers to the refresh hash.
  All-answers-insert :
      (t : ScopedToken) (m : Assoc ScopedToken)
      → t.revoked ≡ true
      → Distinct m
      → IsSoleHolder refresh hash m
      → All (λ p. answers now refresh p.1 ≡ false) (insert hash t m)
  unfolding insert
  All-answers-insert t [] e d s = (ground (arith, e), tt)
  All-answers-insert t ((j, w) ∷ m) e (f, d) (s, ss) = elim (Bool-cases (j == hash)) [
    | inl same ↦ rw same (ground (arith, e), All-answers_of_Fresh j m same f ss)
    | inr other ↦ rw other (
      elim (Bool-cases (w.refresh_token_hash == refresh)) [
        | inl holds ↦ absurd (ground (arith, holder s holds, other))
        | inr lacks ↦ rw lacks
      ],
      All-answers-insert t m e d ss,
    )
  ]

  All-answers-insert_other :
      (k : String) (t : ScopedToken) (m : Assoc ScopedToken)
      → (t.refresh_token_hash == refresh) ≡ false
      → All (λ p. answers now refresh p.1 ≡ false) m
      → All (λ p. answers now refresh p.1 ≡ false) (insert k t m)
  unfolding insert
  All-answers-insert_other k t [] e a = (rw e, tt)
  All-answers-insert_other k t ((j, w) ∷ m) e (a, as') = elim (Bool-cases (j == k)) [
    | inl same ↦ rw same (rw e, as')
    | inr other ↦ rw other (a, All-answers-insert_other k t m e as')
  ]

  All-answers-remove :
      (k : String) (m : Assoc ScopedToken)
      → All (λ p. answers now refresh p.1 ≡ false) m
      → All (λ p. answers now refresh p.1 ≡ false) (remove k m)
  unfolding remove
  All-answers-remove k [] a = tt
  All-answers-remove k ((j, w) ∷ m) (a, as') = elim (Bool-cases (j == k)) [
    | inl same ↦ rw same (All-answers-remove k m as')
    | inr other ↦ rw other (a, All-answers-remove k m as')
  ]

  All-answers_expired :
      (t : ScopedToken) (m : Assoc ScopedToken)
      → lookup hash m ≡ some t
      → is_expired now (some t) ≡ true
      → Distinct m
      → IsSoleHolder refresh hash m
      → All (λ p. answers now refresh p.1 ≡ false) m
  unfolding lookup
  All-answers_expired t [] e gone d s = tt
  All-answers_expired t ((j, w) ∷ m) e gone (f, d) (s, ss) = elim (Bool-cases (j == hash)) [
    | inl same ↦ (ground (arith, same, e, gone), All-answers_of_Fresh j m same f ss)
    | inr other ↦ (
      elim (Bool-cases (w.refresh_token_hash == refresh)) [
        | inl holds ↦ absurd (ground (arith, holder s holds, other))
        | inr lacks ↦ rw lacks
      ],
      All-answers_expired t m (ground (arith, e, other)) gone d ss,
    )
  ]

  All-answers-store_and_save :
      (written : Bool) (t : ScopedToken) (r : TokenRegistry)
      → (t.refresh_token_hash == refresh) ≡ false
      → All (λ p. answers now refresh p.1 ≡ false) r.entries
      → All (λ p. answers now refresh p.1 ≡ false) (store_and_save written t r).0.entries
  unfolding store_and_save
  All-answers-store_and_save true t r e h = All-answers-insert_other t.hash t r.entries e h
  All-answers-store_and_save false t r e h =
      All-answers-remove t.hash _ (All-answers-insert_other t.hash t r.entries e h)

pub with_pair_state : (x : Pair) (p : TokenRegistry × Result (Unit {0})) → (with_pair x p).0 ≡ p.0
with_pair_state x (r, ok _) = refl
with_pair_state x (r, err e) = refl

module _ (sha256_hex : String → String) where
  module _ (now : ℕ) (refresh : String) where
    All-answers-create_pair :
        (a f : Option String) (i : PairInput) (label : String) (tools : Option (List String))
        (agent : String) (access_ttl refresh_ttl : ℤ) (r : TokenRegistry)
        → ((raw : String) → f ≡ some raw → (sha256_hex raw == refresh) ≡ false)
        → All (λ p. answers now refresh p.1 ≡ false) r.entries
        → All
            (λ p. answers now refresh p.1 ≡ false)
            (create_pair_raw sha256_hex a f i label tools agent access_ttl refresh_ttl r).0.entries
    All-answers-create_pair none f i label tools agent x y r new h = h
    All-answers-create_pair (some a) none i label tools agent x y r new h = h
    All-answers-create_pair (some a) (some f) i label tools agent x y r new h =
        let t = new_pair_token sha256_hex i a f label tools agent x y in
        rw (with_pair_state (t, a, f) (store_and_save i.written t r)) (
          All-answers-store_and_save now refresh "" i.written t r
            (unfold new_pair_token in new f refl) h)

  -- The token that a rotation revokes.
  abbrev pub consumed : RotateInput → ScopedToken → ScopedToken
  consumed i old = record old { revoked = true; revoked_at = some i.revoked_now }

  -- A rotation past its tests is a creation over the registry with the old token revoked.
  pub rotate_lem :
      (i : RotateInput) (raw hash : String) (old : ScopedToken) (r : TokenRegistry)
      → get_by_refresh_token_hash i.lookup_now (sha256_hex raw) r.entries ≡ some (hash, old)
      → is_refresh_expired i.test_now (some old) ≡ false
      → rotate_via_refresh_token sha256_hex i raw r
        ≡ create_with_refresh sha256_hex i.pair old.label
            (some old.allowed_tools)
            old.agent_name
            (remaining i.access_until_now old.expires_at)
            (remaining i.refresh_until_now old.refresh_expires_at)
            (record r { entries = insert hash (consumed i old) r.entries })
  unfolding rotate_via_refresh_token
  rotate_lem i raw hash old r found fresh = rw (found, fresh)

  rotate-invalid :
      (j : RotateInput) (raw : String) (r : TokenRegistry)
      → All (λ p. answers j.lookup_now (sha256_hex raw) p.1 ≡ false) r.entries
      → rotate_via_refresh_token sha256_hex j raw r ≡ (r, err invalid_refresh_token)
  unfolding rotate_via_refresh_token
  rotate-invalid j raw r h =
      rw (get_by_refresh_token_hash-eq-none j.lookup_now (sha256_hex raw) r.entries h)

  -- A refresh token serves once: after a rotation that got past the tests of the token, whether or
  -- not it then succeeded, a rotation with the same refresh token is refused, where one stored token
  -- alone has its hash and the new refresh token does not.
  pub rotate_single_use :
      (i j : RotateInput) (raw hash : String) (old : ScopedToken) (r : TokenRegistry)
      → get_by_refresh_token_hash i.lookup_now (sha256_hex raw) r.entries ≡ some (hash, old)
      → is_refresh_expired i.test_now (some old) ≡ false
      → Distinct r.entries
      → IsSoleHolder (sha256_hex raw) hash r.entries
      → ((f : String) → i.pair.raw_refresh ≡ some f → (sha256_hex f == sha256_hex raw) ≡ false)
      → (rotate_via_refresh_token sha256_hex j raw
          (rotate_via_refresh_token sha256_hex i raw r).0).1
        ≡ err invalid_refresh_token
  rotate_single_use i j raw hash old r found fresh d sole new =
      ap (λ p. p.1)
        (rotate-invalid j raw (rotate_via_refresh_token sha256_hex i raw r).0 (
          rw (rotate_lem i raw hash old r found fresh) (
            unfold create_with_refresh in
            All-answers-create_pair j.lookup_now (sha256_hex raw) i.pair.raw_access
              i.pair.raw_refresh i.pair old.label (some old.allowed_tools) old.agent_name
              (remaining i.access_until_now old.expires_at)
              (remaining i.refresh_until_now old.refresh_expires_at)
              (record r { entries = insert hash (consumed i old) r.entries }) new
              (All-answers-insert j.lookup_now (sha256_hex raw) hash (consumed i old) r.entries refl
                d sole))))

  -- While the access token that carries a refresh token has expired, a rotation with that refresh
  -- token is refused and changes nothing, however long the refresh token is still good for, where one
  -- stored token alone has its hash.
  rotate_after_access_expiry :
      (i : RotateInput) (raw hash : String) (old : ScopedToken) (r : TokenRegistry)
      → lookup hash r.entries ≡ some old
      → is_expired i.lookup_now (some old) ≡ true
      → Distinct r.entries
      → IsSoleHolder (sha256_hex raw) hash r.entries
      → rotate_via_refresh_token sha256_hex i raw r ≡ (r, err invalid_refresh_token)
  rotate_after_access_expiry i raw hash old r stored gone d sole =
      rotate-invalid i raw r
        (All-answers_expired i.lookup_now (sha256_hex raw) hash old r.entries stored gone d sole)
