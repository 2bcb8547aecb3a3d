-- ===== src/Base/Tests.antt =====
-- Boolean tests, the conditional, and predicates on lists.
use Prim.Native.Nat.{ℕ, suc, compare, Ordering}
use mathlib.Core.Path.{◌≡◌, refl}
use mathlib.Core.Logic.{◌⊎◌, inl, inr}
use mathlib.Core.Bool.{Bool, true, false}
use mathlib.Core.Option.{Option, none, some}
use mathlib.Core.List.{List, [], ◌∷◌, ◌++◌}
use native.Mathlib.Omega.{arith}

abbrev pub ltb : ℕ → ℕ → Bool
ltb a b = elim (compare a b) [ Ordering.lt ↦ true | _ ↦ false ]

abbrev pub leb : ℕ → ℕ → Bool
leb a b = elim (compare a b) [ Ordering.gt ↦ false | _ ↦ true ]

abbrev pub eqb : ℕ → ℕ → Bool
eqb a b = elim (compare a b) [ Ordering.eq ↦ true | _ ↦ false ]

infix 1 if◌then◌else◌
abbrev pub if◌then◌else◌ {ℓ} : {A : Type ℓ} → Bool → A → A → A
if true then x else y = x
if false then x else y = y

-- To split on a computed value and keep the equation.
pub Bool-cases : (b : Bool) → (b ≡ true) ⊎ (b ≡ false)
Bool-cases true = inl refl
Bool-cases false = inr refl

pub Option-cases {ℓ} : {A : Type ℓ} (o : Option A) → (o ≡ none) ⊎ ((a : A) × (o ≡ some a))
Option-cases none = inl refl
Option-cases (some a) = inr (a, refl)

abbrev pub is_some {ℓ} : {A : Type ℓ} → Option A → Bool
is_some none = false
is_some (some a) = true

module _ {ℓ} {A : Type ℓ} where
  abbrev pub length : List A → ℕ
  length [] = 0
  length (x ∷ xs) = suc (length xs)

  -- Whether some item passes the test: a Go loop that returns true at the first hit.
  abbrev pub any : (A → Bool) → List A → Bool
  any p [] = false
  any p (x ∷ xs) = if p x then true else any p xs

  -- The first item that passes the test.
  abbrev pub find : (A → Bool) → List A → Option A
  find p [] = none
  find p (x ∷ xs) = if p x then some x else find p xs

  -- The items that pass the test, in order.
  abbrev pub keep : (A → Bool) → List A → List A
  keep p [] = []
  keep p (x ∷ xs) = if p x then x ∷ keep p xs else keep p xs

module _ {ℓ κ} {A : Type ℓ} (P : A → Type κ) where
  abbrev pub All : List A → Type κ
  All [] = Unit
  All (x ∷ xs) = P x × All xs

  -- Some item has the property, with its place.
  pub data Any : List A → Type (ℓ ⊔ κ) where
    here : {x : A} {xs : List A} → P x → Any (x ∷ xs)
    there : {x : A} {xs : List A} → Any xs → Any (x ∷ xs)

pub any_sound {ℓ} :
    {A : Type ℓ} (p : A → Bool) (xs : List A) → any p xs ≡ true → Any (λ x. p x ≡ true) xs
any_sound p [] h = absurd (ground arith)
any_sound p (x ∷ xs) h = elim (Bool-cases (p x)) [
  | inl e ↦ Any.here e
  | inr e ↦ Any.there (any_sound p xs (ground arith))
]

pub any_complete {ℓ} :
    {A : Type ℓ} (p : A → Bool) {xs : List A} → Any (λ x. p x ≡ true) xs → any p xs ≡ true
any_complete p (Any.here e) = rw e
any_complete p (Any.there h) = ground (arith, any_complete p h)

pub find-eq-some {ℓ} :
    {A : Type ℓ} (p : A → Bool) (xs : List A) (x : A)
    → find p xs ≡ some x
    → Any (λ y. y ≡ x) xs × (p x ≡ true)
find-eq-some p [] x h = absurd (ground arith)
find-eq-some p (y ∷ ys) x h = elim (Bool-cases (p y)) [
  | inl e ↦ (Any.here (ground (arith, h, e)), ground (arith, h, e))
  | inr e ↦ let (m, q) = find-eq-some p ys x (ground (arith, h, e)) in (Any.there m, q)
]

pub is_some-find {ℓ} : {A : Type ℓ} (p : A → Bool) (xs : List A) → is_some (find p xs) ≡ any p xs
is_some-find p [] = refl
is_some-find p (x ∷ xs) = ground (arith, is_some-find p xs)

pub Any-map {ℓ κ ι} :
    {A : Type ℓ} (P : A → Type κ) (Q : A → Type ι) {xs : List A}
    → ((x : A) → P x → Q x)
    → Any P xs
    → Any Q xs
Any-map P Q f (Any.here p) = Any.here (f _ p)
Any-map P Q f (Any.there h) = Any.there (Any-map P Q f h)

pub All-append {ℓ κ} :
    {A : Type ℓ} (P : A → Type κ) (xs ys : List A) → All P xs → All P ys → All P (xs ++ ys)
All-append P [] ys h k = k
All-append P (x ∷ xs) ys (p, h) k = (p, All-append P xs ys h k)

pub Any-append {ℓ κ} :
    {A : Type ℓ} (P : A → Type κ) (xs ys : List A) → Any P (xs ++ ys) → Any P xs ⊎ Any P ys
Any-append P [] ys h = inr h
Any-append P (x ∷ xs) ys (Any.here p) = inl (Any.here p)
Any-append P (x ∷ xs) ys (Any.there h) = elim (Any-append P xs ys h) [
  | inl a ↦ inl (Any.there a)
  | inr b ↦ inr b
]

pub Any-append_left {ℓ κ} :
    {A : Type ℓ} (P : A → Type κ) {xs : List A} (ys : List A) → Any P xs → Any P (xs ++ ys)
Any-append_left P ys (Any.here p) = Any.here p
Any-append_left P ys (Any.there h) = Any.there (Any-append_left P ys h)

pub Any-append_right {ℓ κ} :
    {A : Type ℓ} (P : A → Type κ) (xs : List A) {ys : List A} → Any P ys → Any P (xs ++ ys)
Any-append_right P [] h = h
Any-append_right P (x ∷ xs) h = Any.there (Any-append_right P xs h)
