-- ===== src/Share/Lifecycle.antt =====
-- The states of a grant: pending, then approved or rejected, and revoked at the end.
use open_pass.Base.{
  ℕ, String, ◌≡◌, refl, Bool, true, false, Option, none, some, ◌||◌, ◌==◌, eq_iff, eq_refl,
  if◌then◌else◌, arith, ap, ◌∙◌, inl, inr, Bool-cases, Option-cases,
}
use mathlib.Core.Option
use open_pass.Base.Assoc.{lookup, insert, lookup-insert}
use open_pass.Share.{
  ShareStatus, pending, approved, revoked, rejected, status_eq, ShareGrant, ShareStore, Result, ok,
  err, write_failed, not_found, not_pending, cannot_be_revoked, approve, revoke, reject, save,
  approved_grant, approve_found, revoke_found, reject_found,
}

-- The calls that change the status of a grant.
pub data Call : Type 0 where
  approve_call : (now : ℕ) (by : String) → Call
  revoke_call : (now : ℕ) → Call
  reject_call : Call

unfoldable pub run : Bool → String → Call → ShareStore → ShareStore × Result (Unit {0})
run written id (approve_call now by) s = approve written now id by s
run written id (revoke_call now) s = revoke written now id s
run written id reject_call s = reject written id s

-- The status that a call leads to, and the error where the status forbids it.
abbrev pub after_call : Call → ShareStatus → Result ShareStatus
after_call (approve_call now by) pending = ok approved
after_call (approve_call now by) _ = err not_pending
after_call reject_call pending = ok rejected
after_call reject_call _ = err not_pending
after_call (revoke_call now) revoked = err cannot_be_revoked
after_call (revoke_call now) rejected = err cannot_be_revoked
after_call (revoke_call now) _ = ok revoked

abbrev pub status_of : Option ShareGrant → Option ShareStatus
status_of none = none
status_of (some g) = some g.status

abbrev pub expected : Bool → Call → Option ShareStatus → Option ShareStatus × Result (Unit {0})
expected written c none = (none, err not_found)
expected written c (some st) = elim (after_call c st) [
  | ok st' ↦ (some st', if written then ok tt else err write_failed)
  | err e ↦ (some st, err e)
]

pub save_parts :
    (written : Bool) (s : ShareStore)
    → ((save written s).0.grants ≡ s.grants)
      × ((save written s).1 ≡ (if written then ok tt else err write_failed))
unfolding save
save_parts true s = (refl, refl)
save_parts false s = (refl, refl)

-- what a lookup finds after a grant was replaced and the store saved
lookup-replace :
    (written : Bool) (id j : String) (g : ShareGrant) (s : ShareStore)
    → lookup j (save written (record s { grants = insert id g s.grants })).0.grants
      ≡ (if id == j then some g else lookup j s.grants)
lookup-replace written id j g s =
    ap (lookup j) (save_parts written (record s { grants = insert id g s.grants })).0
    ∙ lookup-insert id j g s.grants

-- What a call makes of the grant that it names.
abbrev pub updated : Call → ShareGrant → ShareGrant
updated (approve_call now by) g = if status_eq g.status pending then approved_grant now by g else g
updated (revoke_call now) g =
    if status_eq g.status revoked || status_eq g.status rejected
    then g
    else record g { status = revoked; revoked_at = some now }
updated reject_call g = if status_eq g.status pending then record g { status = rejected } else g

module _ (written : Bool) (id : String) (s : ShareStore) (g : ShareGrant) where
  approve_result :
      (now : ℕ) (by : String) (st : ShareStatus)
      → g.status ≡ st
      → (approve_found written now id by (some g) s).1
        ≡ (expected written (approve_call now by) (some st)).1
  unfolding save
  approve_result now by pending e = rw e (ground arith)
  approve_result now by _ e = rw e

  revoke_result :
      (now : ℕ) (st : ShareStatus)
      → g.status ≡ st
      → (revoke_found written now id (some g) s).1
        ≡ (expected written (revoke_call now) (some st)).1
  unfolding save
  revoke_result now revoked e = rw e
  revoke_result now rejected e = rw e
  revoke_result now _ e = rw e (ground arith)

  reject_result :
      (st : ShareStatus)
      → g.status ≡ st
      → (reject_found written id (some g) s).1 ≡ (expected written reject_call (some st)).1
  unfolding save
  reject_result pending e = rw e (ground arith)
  reject_result _ e = rw e

updated_status :
    (c : Call) (g : ShareGrant) (st : ShareStatus)
    → g.status ≡ st
    → some (updated c g).status ≡ (expected true c (some st)).0
updated_status (approve_call now by) g pending e = rw e
updated_status (approve_call now by) g _ e = rw e
updated_status (revoke_call now) g revoked e = rw e
updated_status (revoke_call now) g _ e = rw e
updated_status reject_call g pending e = rw e
updated_status reject_call g _ e = rw e

expected_status :
    (written : Bool) (c : Call) (o : Option ShareStatus)
    → (expected written c o).0 ≡ (expected true c o).0
expected_status written c none = refl
expected_status written c (some st) = ground arith

status_of-map :
    (c : Call) (o : Option ShareGrant)
    → status_of (Option.map (updated c) o) ≡ (expected true c (status_of o)).0
status_of-map c none = refl
status_of-map c (some g) = updated_status c g g.status refl

module _ (written : Bool) (id : String) (s : ShareStore) where
  pub lookup-run :
      (c : Call) (j : String)
      → lookup j (run written id c s).0.grants
        ≡ (if id == j then Option.map (updated c) (lookup id s.grants) else lookup j s.grants)
  unfolding run approve revoke reject
  lookup-run (approve_call now by) j = elim (Option-cases (lookup id s.grants)) [
    | inl e ↦ rw e (ground (arith, e, eq_iff id j))
    | inr (g, e) ↦ rw e (elim (Bool-cases (status_eq g.status pending)) [
      | inl q ↦ rw (q, lookup-replace) (ground (arith, q))
      | inr q ↦ rw q (ground (arith, q, e, eq_iff id j))
    ])
  ]
  lookup-run (revoke_call now) j = elim (Option-cases (lookup id s.grants)) [
    | inl e ↦ rw e (ground (arith, e, eq_iff id j))
    | inr (g, e) ↦
        rw e (elim (Bool-cases (status_eq g.status revoked || status_eq g.status rejected)) [
          | inl q ↦ rw q (ground (arith, q, e, eq_iff id j))
          | inr q ↦ rw (q, lookup-replace) (ground (arith, q))
        ])
  ]
  lookup-run reject_call j = elim (Option-cases (lookup id s.grants)) [
    | inl e ↦ rw e (ground (arith, e, eq_iff id j))
    | inr (g, e) ↦ rw e (elim (Bool-cases (status_eq g.status pending)) [
      | inl q ↦ rw (q, lookup-replace) (ground (arith, q))
      | inr q ↦ rw q (ground (arith, q, e, eq_iff id j))
    ])
  ]

  pub run_result :
      (c : Call) → (run written id c s).1 ≡ (expected written c (status_of (lookup id s.grants))).1
  unfolding run approve revoke reject
  run_result (approve_call now by) = elim (Option-cases (lookup id s.grants)) [
    | inl e ↦ rw e
    | inr (g, e) ↦ rw e (approve_result written id s g now by g.status refl)
  ]
  run_result (revoke_call now) = elim (Option-cases (lookup id s.grants)) [
    | inl e ↦ rw e
    | inr (g, e) ↦ rw e (revoke_result written id s g now g.status refl)
  ]
  run_result reject_call = elim (Option-cases (lookup id s.grants)) [
    | inl e ↦ rw e
    | inr (g, e) ↦ rw e (reject_result written id s g g.status refl)
  ]

  -- Each of `Approve`, `Revoke` and `Reject` leads the grant that it names to the status, and
  -- returns the error, that the table of the statuses has for it; a failed write shows in the result
  -- alone.
  pub run_status :
      (c : Call)
      → (status_of (lookup id (run written id c s).0.grants), (run written id c s).1)
        ≡ expected written c (status_of (lookup id s.grants))
  run_status c = λ i. (status_part i, run_result c i)
    where
      status_part :
          status_of (lookup id (run written id c s).0.grants)
          ≡ (expected written c (status_of (lookup id s.grants))).0
      status_part = rw (
        lookup-run c id,
        eq_refl,
        status_of-map,
        expected_status written c (status_of (lookup id s.grants)),
      )

-- A call of `Approve`, `Revoke` or `Reject` leaves every grant as it was that it does not name.
run_others :
    (written : Bool) (id j : String) (c : Call) (s : ShareStore)
    → (id == j) ≡ false
    → lookup j (run written id c s).0.grants ≡ lookup j s.grants
run_others written id j c s other =
    lookup-run written id s c j
    ∙ ap
        (λ (b : Bool). if b then Option.map (updated c) (lookup id s.grants) else lookup j s.grants)
        other

pub signing_key-run :
    (written : Bool) (id : String) (c : Call) (s : ShareStore)
    → (run written id c s).0.signing_key ≡ s.signing_key
unfolding run approve revoke reject save
signing_key-run written id (approve_call now by) s = ground arith
signing_key-run written id (revoke_call now) s = ground arith
signing_key-run written id reject_call s = ground arith
