-- ===== src/Authorize/Scope.antt =====
-- The writes an agent may do, and the paths in its scope: its own and the ones shared with it.
use open_pass.Base.{
  String, ◌≡◌, ◌⊎◌, refl, Bool, true, false, not, Option, none, some, ◌&&◌, any, arith, inl, inr,
  Bool-cases,
}
use open_pass.GrantId.{Primitives}
use open_pass.Share.{ShareGrant, ShareStore}
use open_pass.Share.Access.{Entitles, check_access_sound}
use open_pass.Authorize.{
  AgentProfile, Server, Surroundings, can_write, requires_approval, path_allows, check_share_access,
  check_scope, share_allows, found_share, access_of,
}

-- A write is for an agent that can write, and approved if the agent requires it.
abbrev pub MayWrite : AgentProfile → Bool → Bool → Type 0
MayWrite a write approved =
    (write ≡ false) ⊎ ((can_write a ≡ true) × ((requires_approval a ≡ false) ⊎ (approved ≡ true)))

-- A path of the agent covers the path, or a share grant entitles the agent to it.
abbrev pub InScope :
    Primitives
    → (String → String)
    → Surroundings
    → AgentProfile
    → String
    → Option ShareStore
    → Type 0
InScope lib native e a path shares =
    (any (path_allows native path) a.allowed_paths ≡ true)
    ⊎ ((store : ShareStore) × (shares ≡ some store)
        × ((g : ShareGrant) × Entitles lib (e.share_now g) store.signing_key a.name path g))

module _ (lib : Primitives) (native : String → String) (e : Surroundings) (a : AgentProfile)
    (path : String) where
  shared :
      (o : Option ShareGrant) (s : Server)
      → (share_allows lib native a path (found_share lib native e a path o s)).1 ≡ true
      → (g : ShareGrant) × (o ≡ some g)
  shared none s h = absurd (ground arith)
  shared (some g) s h = (g, refl)

  entitled :
      (shares : Option ShareStore) (g : ShareGrant)
      → access_of lib native e a path shares ≡ some g
      → (store : ShareStore) × (shares ≡ some store)
        × ((h : ShareGrant) × Entitles lib (e.share_now h) store.signing_key a.name path h)
  entitled none g h = absurd (ground arith)
  entitled (some store) g h =
      (store, refl, (g, check_access_sound lib e.share_now a.name path store g h))

  pub check_scope-InScope :
      (s : Server)
      → (check_scope lib native e a path s).1 ≡ true
      → InScope lib native e a path s.share_store
  unfolding check_scope check_share_access
  check_scope-InScope s h = elim (Bool-cases (any (path_allows native path) a.allowed_paths)) [
    | inl covered ↦ inl covered
    | inr other_path ↦
        let (g, found) =
          shared (access_of lib native e a path s.share_store) s (ground (arith, h, other_path)) in
        inr (entitled s.share_store g found)
  ]

pub may_write :
    (a : AgentProfile) {write approved : Bool}
    → ((write && not (can_write a)) ≡ false)
      × (((write && requires_approval a) && not approved) ≡ false)
    → MayWrite a write approved
may_write a {write} {approved} (h, k) = elim (Bool-cases write) [
  | inr reads ↦ inl reads
  | inl writes ↦ inr (
    ground (arith, h, writes),
    elim (Bool-cases approved) [
      | inl yes_it ↦ inr yes_it
      | inr not_it ↦ inl (ground (arith, k, writes, not_it))
    ],
  )
]
