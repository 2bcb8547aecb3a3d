-- ===== src/Session/Actions.antt =====
-- Actions on a state that may fail: the state that a failed action leaves is kept.
use open_pass.Base.{◌≡◌, refl, Option, none, some, arith}

abbrev pub M : Type 0 → Type 0 → Type 0
M S A = S → S × Option A

module _ {S : Type 0} where
  abbrev pub and_then : {A B : Type 0} → (A → M S B) → S × Option A → S × Option B
  and_then f (s, none) = (s, none)
  and_then f (s, some a) = f a s

  infixl 5 ◌>>=◌ ◌>>◌
  abbrev pub ◌>>=◌ : {A B : Type 0} → M S A → (A → M S B) → M S B
  ◌>>=◌ m f s = and_then f (m s)

  abbrev pub ◌>>◌ : {B : Type 0} → M S (Unit {0}) → M S B → M S B
  m >> k = m >>= λ _. k

  abbrev pub lift : {A : Type 0} → Option A → M S A
  lift o s = (s, o)

  abbrev pub return : {A : Type 0} → A → M S A
  return a s = (s, some a)

  abbrev pub fail : {A : Type 0} → M S A
  fail s = (s, none)

  -- an action whose failure the caller ignores: `_ = f()`
  abbrev pub ignore : {A : Type 0} → M S A → M S (Unit {0})
  ignore m s = ((m s).0, some tt)

  -- the two ways after an action
  abbrev pub choose : {A B : Type 0} → (A → M S B) → M S B → S × Option A → S × Option B
  choose f g (s, some a) = f a s
  choose f g (s, none) = g s

  abbrev pub attempt : {A B : Type 0} → M S A → (A → M S B) → M S B → M S B
  attempt m f g s = choose f g (m s)

-- Inversion of an action that succeeds.
pub and_then-eq-some :
    {S A B : Type 0} (f : A → M S B) (r : S × Option A) {b : B}
    → (and_then f r).1 ≡ some b
    → (a : A) × (r.1 ≡ some a) × (and_then f r ≡ f a r.0)
and_then-eq-some f (s, none) h = absurd (ground arith)
and_then-eq-some f (s, some a) h = (a, refl, refl)

pub and_then-fail : {S A B : Type 0} (r : S × Option A) → (and_then {B = B} (λ _. fail) r).1 ≡ none
and_then-fail (s, none) = refl
and_then-fail (s, some a) = refl

pub fails_after :
    {S A B : Type 0} (f : A → M S B) (r : S × Option A) → r.1 ≡ none → (and_then f r).1 ≡ none
fails_after f (s, none) h = refl
fails_after f (s, some a) h = absurd (ground (arith, h))

pub goes_on_after :
    {S A B : Type 0} (f : A → M S B) (r : S × Option A) (a : A)
    → r.1 ≡ some a
    → and_then f r ≡ f a r.0
goes_on_after f (s, none) a h = absurd (ground (arith, h))
goes_on_after f (s, some b) a h = let e : b ≡ a = ground (arith, h) in rw e refl
