-- ===== src/Token/Registry/Persistence.antt =====
-- What a save keeps and a load brings back.
use open_pass.Base.{String, ◌≡◌, refl, true, false, [], ◌∷◌, ◌++◌, sym, ◌==◌, eq_iff, arith, All}
use mathlib.Core.List.{append-nil, append_assoc}
use open_pass.Base.Assoc.{Assoc, insert, Distinct, Fresh, insert_of_Fresh, Fresh-append_one}
use open_pass.Token.{ScopedToken, TokenRegistryEntry, to_entry, entry_to_scoped_token}
use open_pass.Token.Registry.{TokenRegistry, ok, save, load, save_entries, load_entries}
use open_pass.Token.Registry.Revocation.{UniqueIds}

-- Each token is stored under its own hash, which is not empty.
abbrev pub KeyedByHash : Assoc ScopedToken → Type 0
KeyedByHash = All (λ p. (p.0 ≡ p.1.hash) × ((p.1.hash == "") ≡ false))

saved : Assoc ScopedToken → Assoc TokenRegistryEntry
saved [] = []
saved ((h, t) ∷ m) = (t.id, to_entry t) ∷ saved m

module _ (tokens : Assoc TokenRegistryEntry) (t : ScopedToken) where
  All-ids-append_one :
      (m : Assoc ScopedToken)
      → All (λ p. Fresh p.1.id tokens) m
      → All (λ p. (p.1.id == t.id) ≡ false) m
      → All (λ p. Fresh p.1.id (tokens ++ (t.id, to_entry t) ∷ [])) m
  All-ids-append_one [] f u = tt
  All-ids-append_one ((h, k) ∷ m) (f, fs) (u, us) = (
    Fresh-append_one k.id t.id (to_entry t) tokens f
        (ground (arith, eq_iff k.id t.id, eq_iff t.id k.id)),
    All-ids-append_one m fs us,
  )

save_entries-eq-append :
    (m : Assoc ScopedToken) (tokens : Assoc TokenRegistryEntry)
    → All (λ p. Fresh p.1.id tokens) m
    → UniqueIds m
    → save_entries m tokens ≡ tokens ++ saved m
unfolding save_entries saved
save_entries-eq-append [] tokens f u = sym (append-nil tokens)
save_entries-eq-append ((h, t) ∷ m) tokens (f, fs) (u, us) = rw (
  insert_of_Fresh t.id (to_entry t) tokens f,
  save_entries-eq-append m (tokens ++ (t.id, to_entry t) ∷ []) (All-ids-append_one tokens t m fs u)
      us,
  append_assoc,
)

module _ (entries : Assoc ScopedToken) (h : String) (t : ScopedToken) where
  All-keys-append_one :
      (m : Assoc ScopedToken)
      → All (λ p. Fresh p.0 entries) m
      → Fresh h m
      → All (λ p. Fresh p.0 (entries ++ (h, t) ∷ [])) m
  All-keys-append_one [] f u = tt
  All-keys-append_one ((j, k) ∷ m) (f, fs) (u, us) = (
    Fresh-append_one j h t entries f (ground (arith, eq_iff j h, eq_iff h j)),
    All-keys-append_one m fs us,
  )

load_entries-to_entry :
    (h : String) (t : ScopedToken) (tokens : Assoc TokenRegistryEntry) (entries : Assoc ScopedToken)
    → h ≡ t.hash
    → (t.hash == "") ≡ false
    → load_entries ((t.id, to_entry t) ∷ tokens) entries ≡ load_entries tokens (insert h t entries)
unfolding load_entries to_entry entry_to_scoped_token
load_entries-to_entry h t tokens entries same named = rw (named, same)

load_entries-saved :
    (m entries : Assoc ScopedToken)
    → All (λ p. Fresh p.0 entries) m
    → KeyedByHash m
    → Distinct m
    → load_entries (saved m) entries ≡ entries ++ m
unfolding saved
load_entries-saved [] entries f k d = unfold load_entries in sym (append-nil entries)
load_entries-saved ((h, t) ∷ m) entries (f, fs) ((same, named), ks) (u, us) = rw (
  load_entries-to_entry h t (saved m) entries same named,
  insert_of_Fresh h t entries f,
  load_entries-saved m (entries ++ (h, t) ∷ []) (All-keys-append_one entries h t m fs u) ks us,
  append_assoc,
)

All-Fresh-nil {ℓ} :
    (V : Type ℓ) (key : String × ScopedToken → String) (m : Assoc ScopedToken)
    → All (λ p. Fresh {V = V} (key p) []) m
All-Fresh-nil V key [] = tt
All-Fresh-nil V key (p ∷ m) = (tt, All-Fresh-nil V key m)

-- A load after a successful save brings back exactly the entries, where each token is stored under
-- its own hash, which is not empty, and where no two tokens have one hash or one id.
load-save :
    (r : TokenRegistry)
    → KeyedByHash r.entries
    → Distinct r.entries
    → UniqueIds r.entries
    → ((load (save true r).0).0.entries ≡ r.entries) × ((load (save true r).0).1 ≡ ok tt)
unfolding save load
load-save r k d u = (
  rw
      (save_entries-eq-append r.entries []
        (All-Fresh-nil TokenRegistryEntry (λ p. p.1.id) r.entries) u)
      (load_entries-saved r.entries [] (All-Fresh-nil ScopedToken (λ p. p.0) r.entries) k d),
  refl,
)
