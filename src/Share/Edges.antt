-- ===== src/Share/Edges.antt =====
-- The life of a grant: the edges between its states.
use open_pass.Base.{◌≡◌, ◌≢◌, subst}
use open_pass.Share.{ShareStatus, pending, approved, revoked, expired, rejected, other, ok}
use open_pass.Share.Lifecycle.{Call, approve_call, revoke_call, reject_call, after_call}

-- The edges of the life of a grant.
data Edge : ShareStatus → ShareStatus → Type 0 where
  approving : Edge pending approved
  rejecting : Edge pending rejected
  revoking : {s : ShareStatus} → s ≢ revoked → s ≢ rejected → Edge s revoked

ok_value : (a b : ShareStatus) → ok a ≡ ok b → a ≡ b
ok_value a b h = cc

-- Every change of status by a call is an edge of the life of a grant.
after_call-Edge : (c : Call) (st st' : ShareStatus) → after_call c st ≡ ok st' → Edge st st'
after_call-Edge (approve_call now by) pending st' h =
    subst (Edge pending) (ok_value approved st' h) approving
after_call-Edge reject_call pending st' h = subst (Edge pending) (ok_value rejected st' h) rejecting
after_call-Edge (revoke_call now) pending st' h =
    subst (Edge pending) (ok_value revoked st' h) (revoking (cc) (cc))
after_call-Edge (revoke_call now) approved st' h =
    subst (Edge approved) (ok_value revoked st' h) (revoking (cc) (cc))
after_call-Edge (revoke_call now) expired st' h =
    subst (Edge expired) (ok_value revoked st' h) (revoking (cc) (cc))
after_call-Edge (revoke_call now) (other text) st' h =
    subst (Edge (other text)) (ok_value revoked st' h) (revoking (cc) (cc))
after_call-Edge c st st' h = cc
