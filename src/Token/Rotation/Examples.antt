-- ===== src/Token/Rotation/Examples.antt =====
-- Runs of the rotation of token pairs on small inputs; a text stands for its own hash.
use open_pass.Base.{
  ℕ, String, ◌≡◌, refl, subst, true, false, Option, none, some, [], ◌∷◌, ◌==◌, arith, inr,
}
use open_pass.Base.Assoc.{lookup, insert}
use open_pass.Token.{ScopedToken, is_expired, is_refresh_expired}
use open_pass.Token.Registry.{
  missing, TokenRegistry, err, invalid_refresh_token, save, store_and_save, get, cleanup_once,
}
use open_pass.Token.Rotation.{
  PairInput, RotateInput, get_by_refresh_token_hash, new_pair_token, create_with_refresh,
  rotate_found, rotate_via_refresh_token,
}
use open_pass.Token.Rotation.Refresh.{rotate_single_use}
use open_pass.Token.Rotation.Expiry.{rotate_loses_deadline}
use open_pass.Token.Rotation.History.{Step, Reach, refused_for_good}

abbrev old : ScopedToken
old = record {
  id = "id1";
  label = "ci";
  hash = "aaaa";
  prefix = "aaaa";
  allowed_tools = "list" ∷ [];
  tool_registry_hash = "h";
  agent_name = "bot";
  created_at = 1;
  expires_at = some 10;
  last_used_at = none;
  revoked = false;
  revoked_at = none;
  refresh_token_hash = "rrrr";
  refresh_expires_at = some 100;
}

abbrev registry : TokenRegistry
registry = record { entries = ("aaaa", old) ∷ []; file = missing }

abbrev pair : PairInput
pair = record {
  raw_access = some "bbbb";
  raw_refresh = some "ssss";
  id = "id2";
  tool_registry_hash = "h";
  access_now = 7;
  refresh_now = 7;
  created_now = 7;
  written = true;
}

-- A rotation at the given reading for the time that the access token has left.
abbrev rotation : ℕ → RotateInput
rotation until = record {
  lookup_now = 6;
  test_now = 6;
  revoked_now = 6;
  access_until_now = until;
  refresh_until_now = until;
  pair = pair;
}

abbrev renewed : Option ℕ → ℕ → ScopedToken
renewed expires_at refresh_until = record {
  id = "id2";
  label = "ci";
  hash = "bbbb";
  prefix = "bbbb";
  allowed_tools = "list" ∷ [];
  tool_registry_hash = "h";
  agent_name = "bot";
  created_at = 7;
  expires_at = expires_at;
  last_used_at = none;
  revoked = false;
  revoked_at = none;
  refresh_token_hash = "ssss";
  refresh_expires_at = some refresh_until;
}

abbrev rotated : ℕ → TokenRegistry
rotated until = (rotate_via_refresh_token (λ s. s) (rotation until) "rrrr" registry).0

abbrev text_or : Option String → String
text_or none = ""
text_or (some text) = text

rotate_single_use_example :
    (rotate_via_refresh_token
      (λ s. s)
      (rotation 6)
      "rrrr"
      (rotate_via_refresh_token (λ s. s) (rotation 6) "rrrr" registry).0).1
    ≡ err invalid_refresh_token
unfolding get_by_refresh_token_hash is_expired is_refresh_expired
rotate_single_use_example =
    rotate_single_use (λ s. s) (rotation 6) (rotation 6) "rrrr" "aaaa" old registry refl refl
      (tt, tt) (inr refl, tt) (λ f e. subst (λ o. (text_or o == "rrrr") ≡ false) e refl)

rotate_loses_deadline_example :
    (get 5000 5000 "bbbb" (rotated 10)).1
    ≡ some (record (renewed none 97) { last_used_at = some 5000 })
unfolding get_by_refresh_token_hash rotate_via_refresh_token rotate_found create_with_refresh
    new_pair_token store_and_save save insert is_expired is_refresh_expired
rotate_loses_deadline_example =
    rotate_loses_deadline (λ s. s) (rotation 10) "rrrr" "aaaa" old registry (rotated 10)
      (renewed none 97) "bbbb" "ssss" refl refl 10 5000 5000 refl (omega arith)

refused_for_good_example : (get 9 9 "gone" (cleanup_once 4 (rotated 6))).1 ≡ none
unfolding lookup
refused_for_good_example =
    refused_for_good (λ s. s) "gone" registry (cleanup_once 4 (rotated 6)) 9 9
      (Reach.next (Reach.next Reach.start (Step.rotated (rotation 6) "rrrr" refl)) (Step.swept 4))
      (tt, tt) refl
