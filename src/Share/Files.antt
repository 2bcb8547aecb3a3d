-- ===== src/Share/Files.antt =====
-- What a save of the store keeps and a load brings back.
use mathlib.Core.List.{append-nil, append_assoc}
use open_pass.Base.{
  String, ◌≡◌, refl, sym, true, false, List, [], ◌∷◌, ◌++◌, ◌==◌, eq_iff, arith, All,
}
use open_pass.Base.Assoc.{Assoc, insert, Distinct, Fresh, insert_of_Fresh, Fresh-append_one}
use open_pass.Share.{ShareGrant, ShareStore, ok, load_grants, load, values, save}

-- Each grant is stored under its own id, which is not empty.
abbrev pub KeyedById : Assoc ShareGrant → Type 0
KeyedById = All (λ p. (p.0 ≡ p.1.id) × ((p.1.id == "") ≡ false))

module _ (grants : Assoc ShareGrant) (id : String) (g : ShareGrant) where
  All-keys-append_one :
      (m : Assoc ShareGrant)
      → All (λ p. Fresh p.0 grants) m
      → Fresh id m
      → All (λ p. Fresh p.0 (grants ++ (id, g) ∷ [])) m
  All-keys-append_one [] f u = tt
  All-keys-append_one ((j, k) ∷ m) (f, fs) (u, us) = (
    Fresh-append_one j id g grants f (ground (arith, eq_iff j id, eq_iff id j)),
    All-keys-append_one m fs us,
  )

load_grants-cons :
    (id : String) (g : ShareGrant) (file : List ShareGrant) (grants : Assoc ShareGrant)
    → id ≡ g.id
    → (g.id == "") ≡ false
    → load_grants (g ∷ file) grants ≡ load_grants file (insert id g grants)
unfolding load_grants
load_grants-cons id g file grants same named = rw (named, same)

load_grants-values :
    (m grants : Assoc ShareGrant)
    → All (λ p. Fresh p.0 grants) m
    → KeyedById m
    → Distinct m
    → load_grants (values m) grants ≡ grants ++ m
unfolding values
load_grants-values [] grants f k d = unfold load_grants in sym (append-nil grants)
load_grants-values ((id, g) ∷ m) grants (f, fs) ((same, named), ks) (u, us) = rw (
  load_grants-cons id g (values m) grants same named,
  insert_of_Fresh id g grants f,
  load_grants-values m (grants ++ (id, g) ∷ []) (All-keys-append_one grants id g m fs u) ks us,
  append_assoc,
)

All-Fresh-nil : (m : Assoc ShareGrant) → All (λ p. Fresh {V = ShareGrant} p.0 []) m
All-Fresh-nil [] = tt
All-Fresh-nil (p ∷ m) = (tt, All-Fresh-nil m)

-- A load after a successful save brings back exactly the grants, where each is stored under its own
-- id, which is not empty, and no two have one id.
load-save_grants :
    (s : ShareStore)
    → KeyedById s.grants
    → Distinct s.grants
    → ((load (save true s).0).0.grants ≡ s.grants) × ((load (save true s).0).1 ≡ ok tt)
unfolding load save
load-save_grants s k d = (load_grants-values s.grants [] (All-Fresh-nil s.grants) k d, refl)
