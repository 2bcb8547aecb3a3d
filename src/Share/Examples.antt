-- ===== src/Share/Examples.antt =====
-- Runs of the store of share grants on small inputs.
use open_pass.Base.{◌≡◌, ◌↔◌, refl, true, false, none, some, ◌==◌, [], ◌∷◌, Any, is_some}
use open_pass.Base.Assoc.{Assoc, lookup}
use open_pass.Base.Clock.{pos}
use open_pass.Base.Text.{contains_char}
use open_pass.GrantId.{is_hmac_format}
use open_pass.GrantId.Examples.{sample_lib, sample_id}
use open_pass.Share.{
  pending, approved, revoked, ShareGrant, missing, ShareStore, CreateInput, get, check_access,
  grants_access, values, is_expired, approve,
}
use open_pass.Share.Access.{Entitles, check_access_iff}
use open_pass.Share.Lifecycle.{approve_call, run, run_status, expected, status_of}
use open_pass.Share.History.{Step, Reach, is_closed, closed_for_good, closed_gives_no_access}

abbrev asked : ShareGrant
asked = record {
  id = sample_id;
  from_agent = "ci";
  to_agent = "bot";
  secret_path = "db/pass";
  secret_field = "";
  nonce = "xn";
  status = pending;
  created_at = 5;
  expires_at = none;
  approved_at = none;
  revoked_at = none;
  approved_by = "";
  ttl = pos 10;
}

abbrev given : ShareGrant
given = record asked { status = approved; expires_at = some 20 }

abbrev taken_back : ShareGrant
taken_back = record asked { id = "old"; status = revoked }

abbrev store_of : Assoc ShareGrant → ShareStore
store_of grants = record { grants = grants; signing_key = "k"; file = missing }

abbrev waiting : ShareStore
waiting = store_of (("old", taken_back) ∷ (sample_id, asked) ∷ [])

abbrev open_store : ShareStore
open_store = store_of (("old", taken_back) ∷ (sample_id, given) ∷ [])

check_access_iff_example :
    (is_some (check_access sample_lib (λ g. 20) "bot" "db/pass" open_store) ≡ true)
    ↔ Any (λ p. Entitles sample_lib 20 "k" "bot" "db/pass" p.1) open_store.grants
check_access_iff_example = check_access_iff sample_lib (λ g. 20) "bot" "db/pass" open_store

run_status_example :
    (
      status_of (lookup sample_id (run true sample_id (approve_call 8 "me") waiting).0.grants),
      (run true sample_id (approve_call 8 "me") waiting).1,
    )
    ≡ expected true (approve_call 8 "me") (some pending)
unfolding lookup
run_status_example = run_status true sample_id waiting (approve_call 8 "me")

abbrev approved_old : ShareStore
approved_old = (run true "old" (approve_call 8 "me") waiting).0

closed_for_good_example : is_closed (get "old" approved_old) ≡ true
unfolding lookup
closed_for_good_example =
    closed_for_good sample_lib "old" waiting approved_old
      (Reach.next Reach.start (Step.called true "old" (approve_call 8 "me"))) ((refl, tt), (tt, tt))
      refl

abbrev legacy : ShareGrant
legacy = record given { id = "new" }

abbrev with_legacy : ShareStore
with_legacy = store_of (("old", taken_back) ∷ ("new", legacy) ∷ [])

abbrev still_legacy : ShareStore
still_legacy = (run true "old" (approve_call 8 "me") with_legacy).0

finds_legacy : check_access sample_lib (λ g. 20) "bot" "db/pass" still_legacy ≡ some legacy
unfolding check_access grants_access values is_hmac_format is_expired run approve lookup
    contains_char
finds_legacy = refl

closed_gives_no_access_example :
    Any (λ p. (p.1 ≡ legacy) × ((p.0 == "old") ≡ false)) still_legacy.grants
unfolding lookup
closed_gives_no_access_example =
    closed_gives_no_access sample_lib "old" with_legacy still_legacy (λ g. 20) "bot" "db/pass"
      legacy (Reach.next Reach.start (Step.called true "old" (approve_call 8 "me")))
      ((refl, tt), (tt, tt)) refl finds_legacy

abbrev creation : CreateInput
creation = record { now = 5; random = some "n"; legacy_id = "unused"; written = true }

abbrev made : ShareGrant
made = record asked { expires_at = some 15 }
