-- ===== src/Share/History.antt =====
-- Sequences of calls on one store in memory: a grant that is revoked or rejected gives no access
-- again. `Load` is among the steps for every file that does not hold the grant as open: it reads what
-- another process may have written, or what the store itself had saved before a revocation.
use open_pass.Base.{
  ℕ, String, ◌≡◌, refl, Bool, true, false, Option, none, some, List, [], ◌∷◌, ◌||◌, ◌==◌, eq_iff,
  if◌then◌else◌, arith, inl, inr, Bool-cases, Option-cases, Any, find,
}
use mathlib.Core.Option
use open_pass.Base.Assoc.{
  Assoc, lookup, insert, lookup-insert, lookup-remove, lookup-retain, lookup_of_Fresh, Fresh,
  Fresh-eq, passing, Distinct, Distinct-insert, Distinct-remove, Distinct-retain,
}
use open_pass.Base.Clock.{ℤ}
use open_pass.GrantId.{Primitives}
use open_pass.Share.{
  ShareStatus, pending, approved, get, revoked, rejected, status_eq, ShareGrant, ShareStore, Result,
  ok, err, save, values, load, load_grants, FileState, missing, unreadable, malformed, holds,
  CreateInput, create, store_new, cleanup_expired, check_access, grants_access, approve, revoke,
  reject,
}
use open_pass.Share.Lifecycle.{
  save_parts, Call, approve_call, revoke_call, reject_call, run, updated, lookup-run,
}

-- No grant under an id, or one that is revoked or rejected.
abbrev pub is_closed : Option ShareGrant → Bool
is_closed none = true
is_closed (some g) = status_eq g.status revoked || status_eq g.status rejected

module _ (lib : Primitives) where
  -- One call, where a grant that it creates does not have the id, and a file that it loads has no grant
  -- under the id that is pending, approved or of another status.
  pub data Step (id : String) (s : ShareStore) : ShareStore → Type 0 where
    created :
        (i : CreateInput) (from to path field : String) (ttl : ℤ)
        → ((g : ShareGrant)
            → (create lib i from to path field ttl s).1 ≡ ok g
            → (g.id == id) ≡ false)
        → Step id s (create lib i from to path field ttl s).0
    called : (written : Bool) (j : String) (c : Call) → Step id s (run written j c s).0
    swept : (now : ℕ) → Step id s (cleanup_expired now s).0
    loaded :
        (file : FileState)
        → is_closed (lookup id (load (record s { file = file })).0.grants) ≡ true
        → Step id s (load (record s { file = file })).0

  pub data Reach (id : String) (s : ShareStore) : ShareStore → Type 0 where
    start : Reach id s s
    next : {t u : ShareStore} → Reach id s t → Step id t u → Reach id s u

updated_closed :
    (c : Call) (g : ShareGrant) (st : ShareStatus)
    → g.status ≡ st
    → is_closed (some g) ≡ true
    → is_closed (some (updated c g)) ≡ true
updated_closed (approve_call now by) g st e h = ground arith
updated_closed (revoke_call now) g st e h = ground arith
updated_closed reject_call g st e h = ground arith

approved_not_closed :
    (st : ShareStatus) {u : ShareStatus}
    → u ≡ st
    → status_eq st approved ≡ true
    → (status_eq st revoked || status_eq st rejected) ≡ true
    → ⊥
approved_not_closed approved e h k = cc
approved_not_closed _ e h k = cc

passing_closed :
    (p : ShareGrant → Bool) (o : Option ShareGrant)
    → is_closed o ≡ true
    → is_closed (passing p o) ≡ true
passing_closed p none h = refl
passing_closed p (some g) h = ground arith

-- What a call keeps, if it keeps the grants or replaces the one that it names.
run_keeps :
    (P : Assoc ShareGrant → Type 0) (written : Bool) (id : String) (c : Call) (s : ShareStore)
    → P s.grants
    → ((g : ShareGrant) → P (insert id g s.grants))
    → P (run written id c s).0.grants
unfolding run approve revoke reject
run_keeps P written id (approve_call now by) s p q = elim (Option-cases (lookup id s.grants)) [
  | inl e ↦ rw e p
  | inr (g, e) ↦ rw e (elim (Bool-cases (status_eq g.status pending)) [
    | inl st ↦ rw (st, (save_parts written _).0) (q _)
    | inr st ↦ rw st p
  ])
]
run_keeps P written id (revoke_call now) s p q = elim (Option-cases (lookup id s.grants)) [
  | inl e ↦ rw e p
  | inr (g, e) ↦
      rw e (elim (Bool-cases (status_eq g.status revoked || status_eq g.status rejected)) [
        | inl st ↦ rw st p
        | inr st ↦ rw (st, (save_parts written _).0) (q _)
      ])
]
run_keeps P written id reject_call s p q = elim (Option-cases (lookup id s.grants)) [
  | inl e ↦ rw e p
  | inr (g, e) ↦ rw e (elim (Bool-cases (status_eq g.status pending)) [
    | inl st ↦ rw (st, (save_parts written _).0) (q _)
    | inr st ↦ rw st p
  ])
]

load_grants-Distinct :
    (file : List ShareGrant) (grants : Assoc ShareGrant)
    → Distinct grants
    → Distinct (load_grants file grants)
unfolding load_grants
load_grants-Distinct [] grants d = d
load_grants-Distinct (g ∷ file) grants d = elim (Bool-cases (g.id == "")) [
  | inl e ↦ rw e (load_grants-Distinct file grants d)
  | inr e ↦
      rw e (load_grants-Distinct file (insert g.id g grants) (Distinct-insert g.id g grants d))
]

load-Distinct :
    (file : FileState) (s : ShareStore)
    → Distinct s.grants
    → Distinct (load (record s { file = file })).0.grants
unfolding load
load-Distinct missing s d = d
load-Distinct unreadable s d = d
load-Distinct malformed s d = d
load-Distinct (holds version file) s d = load_grants-Distinct file [] tt

mapped_closed :
    (c : Call) (o : Option ShareGrant)
    → is_closed o ≡ true
    → is_closed (Option.map (updated c) o) ≡ true
mapped_closed c none h = refl
mapped_closed c (some g) h = updated_closed c g g.status refl h

module _ (lib : Primitives) (id : String) where
  store_new_keeps :
      (written : Bool) (made : Result ShareGrant) (s : ShareStore)
      → ((g : ShareGrant) → (store_new lib written made s).1 ≡ ok g → (g.id == id) ≡ false)
      → Distinct s.grants
      → is_closed (lookup id s.grants) ≡ true
      → Distinct (store_new lib written made s).0.grants
        × (is_closed (lookup id (store_new lib written made s).0.grants) ≡ true)
  unfolding save
  store_new_keeps written (err e) s away d h = (d, h)
  store_new_keeps true (ok g) s away d h =
      (Distinct-insert g.id g s.grants d, rw (lookup-insert, away g refl) h)
  store_new_keeps false (ok g) s away d h = (
    Distinct-remove g.id _ (Distinct-insert g.id g s.grants d),
    rw (lookup-remove, lookup-insert) (ground (arith, h)),
  )

  Step-keeps :
      {s t : ShareStore}
      → Step lib id s t
      → Distinct s.grants
      → is_closed (lookup id s.grants) ≡ true
      → Distinct t.grants × (is_closed (lookup id t.grants) ≡ true)
  Step-keeps {s} (created i from to path field ttl away) d h =
      unfold create in store_new_keeps i.written _ s away d h
  Step-keeps {s} (called written j c) d h = (
    run_keeps Distinct written j c s d (λ g. Distinct-insert j g s.grants d),
    rw lookup-run (ground (arith, h, eq_iff j id, mapped_closed c (lookup j s.grants))),
  )
  Step-keeps {s} (swept now) d h =
      unfold cleanup_expired in
      (
        Distinct-retain _ s.grants d,
        rw (lookup-retain _ id s.grants d) (passing_closed _ (lookup id s.grants) h),
      )
  Step-keeps {s} (loaded file still) d h = (load-Distinct file s d, still)

  Reach-keeps :
      {s t : ShareStore}
      → Reach lib id s t
      → Distinct s.grants
      → is_closed (lookup id s.grants) ≡ true
      → Distinct t.grants × (is_closed (lookup id t.grants) ≡ true)
  Reach-keeps start d h = (d, h)
  Reach-keeps (next p st) d h = let (d', h') = Reach-keeps p d h in Step-keeps st d' h'

  -- What a search finds is stored under another key than a closed grant.
  not_closed :
      (now : ℕ) (key to_agent path k : String) (w : ShareGrant) (m : Assoc ShareGrant)
      → grants_access lib now key to_agent path w ≡ true
      → is_closed (if k == id then some w else lookup id m) ≡ true
      → (k == id) ≡ false
  unfolding grants_access
  not_closed now key to_agent path k w m found h = elim (Bool-cases (k == id)) [
    | inl same ↦
        absurd (approved_not_closed w.status refl (ground (arith, found)) (ground (arith, h, same)))
    | inr other ↦ other
  ]

  closed_after :
      (k : String) (w : ShareGrant) (m : Assoc ShareGrant)
      → Fresh k m
      → is_closed (if k == id then some w else lookup id m) ≡ true
      → is_closed (lookup id m) ≡ true
  closed_after k w m f h = elim (Bool-cases (k == id)) [
    | inl same ↦ rw (lookup_of_Fresh id m (Fresh-eq k id m same f))
    | inr other ↦ rw other at h
  ]

  find_elsewhere :
      (clock : ShareGrant → ℕ) (key to_agent path : String) (g : ShareGrant) (m : Assoc ShareGrant)
      → Distinct m
      → is_closed (lookup id m) ≡ true
      → find (λ w. grants_access lib (clock w) key to_agent path w) (values m) ≡ some g
      → Any (λ p. (p.1 ≡ g) × ((p.0 == id) ≡ false)) m
  unfolding values lookup
  find_elsewhere clock key to_agent path g [] d h e = absurd (ground (arith, e))
  find_elsewhere clock key to_agent path g ((k, w) ∷ m) (f, d) h e =
      elim (Bool-cases (grants_access lib (clock w) key to_agent path w)) [
        | inl yes_it ↦
            Any.here
              (ground (arith, e, yes_it), not_closed (clock w) key to_agent path k w m yes_it h)
        | inr not_it ↦ Any.there (
            find_elsewhere clock key to_agent path g m d (closed_after k w m f h)
              (ground (arith, e, not_it)))
      ]

  -- From a store in which an id has no grant or a revoked or rejected one, no sequence of calls makes
  -- that grant other than revoked, rejected or removed, where no new grant has the id and no call of
  -- `Load` meets a file that has the grant with another status. (A revocation whose saving failed
  -- leaves such a file, so a `Load` after it is not among the calls.)
  pub closed_for_good :
      (s t : ShareStore)
      → Reach lib id s t
      → Distinct s.grants
      → is_closed (lookup id s.grants) ≡ true
      → is_closed (get id t) ≡ true
  unfolding get
  closed_for_good s t p d h = (Reach-keeps p d h).1

  -- From a store in which an id has no grant or a revoked or rejected one, and after any sequence of
  -- calls in which no new grant has the id and no call of `Load` meets a file that has the grant with
  -- another status, a grant that `CheckAccess` returns is stored under another id.
  pub closed_gives_no_access :
      (s t : ShareStore) (clock : ShareGrant → ℕ) (to_agent path : String) (g : ShareGrant)
      → Reach lib id s t
      → Distinct s.grants
      → is_closed (lookup id s.grants) ≡ true
      → check_access lib clock to_agent path t ≡ some g
      → Any (λ p. (p.1 ≡ g) × ((p.0 == id) ≡ false)) t.grants
  unfolding check_access
  closed_gives_no_access s t clock to_agent path g p d h e =
      let (d', h') = Reach-keeps p d h in
      find_elsewhere clock t.signing_key to_agent path g t.grants d' h' e
