-- ===== src/Base/Slices.antt =====
-- Ends of slices, and their laws.
use Prim.Native.Nat.{ℕ, zero, suc, ◌+◌, ◌-◌}
use mathlib.Core.Path.{◌≡◌, refl, sym, ap, ◌∙◌}
use mathlib.Core.Logic.{inl, inr}
use mathlib.Core.Bool.{true, false}
use mathlib.Core.List.{List, [], ◌∷◌, ◌++◌, append_assoc}
use native.Mathlib.Omega.{arith}
use native.Mathlib.Numerals.{unary_clauses}
use Prim.Native.Nat.{◌≤◌}
use open_pass.Base.Tests.{if◌then◌else◌, ltb, leb, length, Bool-cases}

-- xs[n:]
unfoldable pub drop {ℓ} : {A : Type ℓ} → ℕ → List A → List A
drop zero xs = xs
drop (suc n) [] = []
drop (suc n) (x ∷ xs) = drop n xs

-- `if len(entries) > n { entries = entries[len(entries)-n:] }`
abbrev pub last_n {ℓ} : {A : Type ℓ} → ℕ → List A → List A
last_n n xs = if ltb n (length xs) then drop (length xs - n) xs else xs

pub length-append {ℓ} : {A : Type ℓ} (xs ys : List A) → length (xs ++ ys) ≡ length xs + length ys
length-append [] ys = omega arith
length-append (x ∷ xs) ys = let e = length-append xs ys in omega (arith, e)

pub drop-append {ℓ} :
    {A : Type ℓ} (n : ℕ) (xs ys : List A) → drop (n + length xs) (xs ++ ys) ≡ drop n ys
unfolding drop
drop-append n [] ys = simp unary_clauses refl
drop-append n (x ∷ xs) ys = simp unary_clauses (drop-append n xs ys)

pub last_n-drop {ℓ} : {A : Type ℓ} (n : ℕ) (xs : List A) → last_n n xs ≡ drop (length xs - n) xs
unfolding drop
last_n-drop n xs = elim (Bool-cases (ltb n (length xs))) [
  | inl e ↦ rw e refl
  | inr e ↦ let z : length xs - n ≡ 0 = ground (arith, e) in rw (e, z) refl
]

pub last_n_nil {ℓ} : {A : Type ℓ} (n : ℕ) → last_n {A = A} n [] ≡ []
last_n_nil n = elim (Bool-cases (ltb n 0)) [
  | inl e ↦ absurd (ground (arith, e))
  | inr e ↦ rw e refl
]

-- The last items of a list are the last items of a long enough end of it.
pub last_n-append {ℓ} :
    {A : Type ℓ} (n : ℕ) (xs ys : List A)
    → leb n (length ys) ≡ true
    → last_n n (xs ++ ys) ≡ last_n n ys
last_n-append n xs ys h =
    let all = length-append xs ys in
    let long : n ≤ length ys = ground (arith, h) in
    last_n-drop n (xs ++ ys)
    ∙ ap (λ k. drop k (xs ++ ys)) (omega (arith, all, long))
    ∙ drop-append (length ys - n) xs ys
    ∙ sym (last_n-drop n ys)

drop_front {ℓ} :
    {A : Type ℓ} (j : ℕ) (xs : List A)
    → j ≤ length xs
    → (front : List A) × (xs ≡ front ++ drop j xs) × (length (drop j xs) + j ≡ length xs)
unfolding drop
drop_front zero xs h = ([], refl, omega arith)
drop_front (suc j) [] h = absurd (omega (arith, h))
drop_front (suc j) (x ∷ xs) h =
    let (front, p, q) = drop_front j xs (omega (arith, h)) in
    (x ∷ front, ap (λ z. x ∷ z) p, omega (arith, q))

-- To keep the last items on the way changes nothing at the end.
pub last_n-last_n {ℓ} :
    {A : Type ℓ} (n : ℕ) (xs ys : List A) → last_n n (last_n n xs ++ ys) ≡ last_n n (xs ++ ys)
last_n-last_n n xs ys = elim (Bool-cases (ltb n (length xs))) [
  | inl e ↦
      let kept = drop (length xs - n) xs in
      let less : n ≤ length xs = ground (arith, e) in
      let (front, p, q) = drop_front (length xs - n) xs (omega arith) in
      let all = length-append kept ys in
      let long : n ≤ length (kept ++ ys) = omega (arith, q, all, less) in
      rw e (
        sym (last_n-append n front (kept ++ ys) (ground (arith, long)))
        ∙ ap (last_n n) (sym (append_assoc front kept ys) ∙ ap (λ z. z ++ ys) (sym p)))
  | inr e ↦ rw e refl
]

pub length-last_n_le {ℓ} : {A : Type ℓ} (n : ℕ) (xs : List A) → length (last_n n xs) ≤ n
length-last_n_le n xs = elim (Bool-cases (ltb n (length xs))) [
  | inl e ↦
      let (front, p, q) = drop_front (length xs - n) xs (omega arith) in
      let less : n ≤ length xs = ground (arith, e) in rw e (omega (arith, q, less))
  | inr e ↦ rw e (ground (arith, e))
]

pub last_n_short {ℓ} : {A : Type ℓ} (n : ℕ) (xs : List A) → length xs ≤ n → last_n n xs ≡ xs
last_n_short n xs h = let small : ltb n (length xs) ≡ false = ground (arith, h) in rw small refl
