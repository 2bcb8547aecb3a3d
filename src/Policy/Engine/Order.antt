-- ===== src/Policy/Engine/Order.antt =====
-- The sort of `NewEngine`: it only reorders the rules, and puts the higher priority first.
use mathlib.Core.List.{Permᴰ}
use mathlib.Core.List.Permᴰ
use open_pass.Base.{
  ℕ, zero, suc, ◌≡◌, refl, subst, true, false, List, [], ◌∷◌, length, arith, inl, inr, Bool-cases,
  All, Any,
}
use open_pass.Base.Clock.{ℤ, pos, negsuc, ltz}
use open_pass.Policy.{Policy}
use open_pass.Policy.Matching.{Paths}
use open_pass.Policy.Engine.{CompiledRule, compile_all, select, sort_rounds, new_engine}

-- What holds of all items, or of some item, survives a reordering.
module _ {ℓ κ} {A : Type ℓ} (P : A → Type κ) where
  pub All-perm : {xs ys : List A} → Permᴰ xs ys → All P xs → All P ys
  All-perm Permᴰ.nil h = h
  All-perm (Permᴰ.cons e p) (h, hs) = (subst P e h, All-perm p hs)
  All-perm (Permᴰ.swap e f) (h, (k, hs)) = (subst P f k, (subst P e h, hs))
  All-perm (Permᴰ.trans p q) h = All-perm q (All-perm p h)

  pub Any-perm : {xs ys : List A} → Permᴰ xs ys → Any P xs → Any P ys
  Any-perm Permᴰ.nil h = elim h [ ]
  Any-perm (Permᴰ.cons e p) (Any.here h) = Any.here (subst P e h)
  Any-perm (Permᴰ.cons e p) (Any.there h) = Any.there (Any-perm p h)
  Any-perm (Permᴰ.swap e f) (Any.here h) = Any.there (Any.here (subst P e h))
  Any-perm (Permᴰ.swap e f) (Any.there (Any.here h)) = Any.here (subst P f h)
  Any-perm (Permᴰ.swap e f) (Any.there (Any.there h)) = Any.there (Any.there h)
  Any-perm (Permᴰ.trans p q) h = Any-perm q (Any-perm p h)

pub All-map {ℓ κ ι} :
    {A : Type ℓ} (P : A → Type κ) (Q : A → Type ι) (xs : List A)
    → ((x : A) → P x → Q x)
    → All P xs
    → All Q xs
All-map P Q [] f h = tt
All-map P Q (x ∷ xs) f (h, hs) = (f x h, All-map P Q xs f hs)

-- The second rule's priority is at most the first one's.
abbrev pub AtMost : CompiledRule → CompiledRule → Type 0
AtMost c d = ltz c.rule.priority d.rule.priority ≡ false

-- Each rule's priority bounds those of the rules after it.
abbrev pub Descending : List CompiledRule → Type 0
Descending [] = Unit
Descending (c ∷ rules) = All (AtMost c) rules × Descending rules

ltz_asymm : (a b : ℤ) → ltz a b ≡ true → ltz b a ≡ false
ltz_asymm (pos a) (pos b) h = ground (arith, h)
ltz_asymm (pos a) (negsuc b) h = absurd (ground arith)
ltz_asymm (negsuc a) (pos b) h = refl
ltz_asymm (negsuc a) (negsuc b) h = ground (arith, h)

ltz_trans : (a b c : ℤ) → ltz a b ≡ false → ltz b c ≡ false → ltz a c ≡ false
ltz_trans (pos a) (pos b) (pos c) h k = ground (arith, h, k)
ltz_trans (pos a) (pos b) (negsuc c) h k = refl
ltz_trans (pos a) (negsuc b) (pos c) h k = absurd (ground arith)
ltz_trans (pos a) (negsuc b) (negsuc c) h k = refl
ltz_trans (negsuc a) (pos b) c h k = absurd (ground arith)
ltz_trans (negsuc a) (negsuc b) (pos c) h k = absurd (ground arith)
ltz_trans (negsuc a) (negsuc b) (negsuc c) h k = ground (arith, h, k)

AtMost-trans : (c d e : CompiledRule) → AtMost c d → AtMost d e → AtMost c e
AtMost-trans c d e = ltz_trans c.rule.priority d.rule.priority e.rule.priority

pub ltz_irrefl : (a : ℤ) → ltz a a ≡ false
ltz_irrefl (pos a) = ground arith
ltz_irrefl (negsuc a) = ground arith

select-perm :
    (x : CompiledRule) (xs : List CompiledRule)
    → (let (m, rest) = select x xs in Permᴰ (x ∷ xs) (m ∷ rest))
unfolding select
select-perm x [] = Permᴰ.refl (x ∷ [])
select-perm x (y ∷ ys) = elim (Bool-cases (ltz x.rule.priority y.rule.priority)) [
  | inl e ↦ rw e (Permᴰ.trans (Permᴰ.cons refl (select-perm y ys)) (Permᴰ.swap refl refl))
  | inr e ↦ rw e (
      Permᴰ.trans (Permᴰ.swap refl refl)
        (Permᴰ.trans (Permᴰ.cons refl (select-perm x ys)) (Permᴰ.swap refl refl)))
]

-- The chosen rule's priority bounds those of the one it started from and of all that are left.
select-bound :
    (x : CompiledRule) (xs : List CompiledRule)
    → (let (m, rest) = select x xs in AtMost m x × All (AtMost m) rest)
unfolding select
select-bound x [] = (ltz_irrefl x.rule.priority, tt)
select-bound x (y ∷ ys) = elim (Bool-cases (ltz x.rule.priority y.rule.priority)) [
  | inl e ↦
      let (h, hs) = select-bound y ys in
      let k = AtMost-trans (select y ys).0 y x h (ltz_asymm x.rule.priority y.rule.priority e) in
      rw e (k, (k, hs))
  | inr e ↦ let (h, hs) = select-bound x ys in rw e (h, (AtMost-trans (select x ys).0 x y h e, hs))
]

length-select : (x : CompiledRule) (xs : List CompiledRule) → length (select x xs).1 ≡ length xs
unfolding select
length-select x [] = refl
length-select x (y ∷ ys) = ground (arith, length-select x ys, length-select y ys)

sort_rounds-perm : (n : ℕ) (rules : List CompiledRule) → Permᴰ rules (sort_rounds n rules)
unfolding sort_rounds
sort_rounds-perm zero rules = Permᴰ.refl rules
sort_rounds-perm (suc n) [] = Permᴰ.nil
sort_rounds-perm (suc n) (x ∷ xs) =
    Permᴰ.trans (select-perm x xs) (Permᴰ.cons refl (sort_rounds-perm n (select x xs).1))

sort_rounds-Descending :
    (n : ℕ) (rules : List CompiledRule) → length rules ≡ n → Descending (sort_rounds n rules)
unfolding sort_rounds
sort_rounds-Descending zero [] h = tt
sort_rounds-Descending zero (x ∷ xs) h = absurd (ground arith)
sort_rounds-Descending (suc n) [] h = tt
sort_rounds-Descending (suc n) (x ∷ xs) h = (
  All-perm (AtMost (select x xs).0) (sort_rounds-perm n (select x xs).1) (select-bound x xs).1,
  sort_rounds-Descending n (select x xs).1 (omega (arith, length-select x xs, h)),
)

-- The engine holds the rules of all policies, each as often as the policies do, and no rule stands
-- before one of a higher priority.
pub new_engine_lem :
    (lib : Paths) (policies : List Policy)
    → Permᴰ (compile_all lib policies) (new_engine lib policies)
      × Descending (new_engine lib policies)
unfolding new_engine
new_engine_lem lib policies =
    let rules = compile_all lib policies in
    (sort_rounds-perm (length rules) rules, sort_rounds-Descending (length rules) rules refl)
