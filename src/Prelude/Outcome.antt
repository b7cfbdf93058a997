-- ===== src/Prelude/Outcome.antt =====
-- Python's exceptions as values: a call returns, or raises one of the module's errors.
use mathlib.Core.Path.{◌≡◌, refl}
use mathlib.Core.Logic.{◌⊎◌, inl, inr}
use mathlib.Core.Bool.{Bool, true, false}
use native.Mathlib.Omega.{arith}
use mathlib.Core.List.{List, [], ◌∷◌}

-- `err e` is a raise of `e`.
pub data Result {ℓ} (E A : Type ℓ) : Type ℓ where
  err : E → Result E A
  ok : A → Result E A

infixl 5 ◌>>=◌
infixl 5 ◌>>◌
-- the statements after one that may raise, with its value
abbrev pub ◌>>=◌ {ℓ} : {E A B : Type ℓ} → Result E A → (A → Result E B) → Result E B
err raised >>= later = err raised
ok value >>= later = later value

-- and without it
abbrev pub ◌>>◌ {ℓ} : {E A B : Type ℓ} → Result E A → Result E B → Result E B
first >> later = first >>= (λ value. later)

-- `if not test: raise error`
abbrev pub guard : {E : Type 0} → Bool → E → Result E (Unit {0})
guard false error = err error
guard true error = ok tt

-- A list comprehension whose element expression may raise.
abbrev pub map_result {ℓ} : {E A B : Type ℓ} → (A → Result E B) → List A → Result E (List B)
map_result f [] = ok []
map_result f (x ∷ xs) = do y ← f x; ys ← map_result f xs; ok (y ∷ ys)

-- To split on a computed call and keep the equation.
pub Result-cases {ℓ} :
    {E A : Type ℓ} (r : Result E A) → ((a : A) × (r ≡ ok a)) ⊎ ((e : E) × (r ≡ err e))
Result-cases (ok a) = inl (a, refl)
Result-cases (err e) = inr (e, refl)

-- a comprehension that returned
pub map_result-cons {ℓ} :
    {E A B : Type ℓ} (f : A → Result E B) (x : A) (xs : List A) {l : List B}
    → map_result f (x ∷ xs) ≡ ok l
    → (y : B) × (ys : List B) × (f x ≡ ok y) × (map_result f xs ≡ ok ys) × (l ≡ y ∷ ys)
map_result-cons f x xs h = elim (Result-cases (f x)) [
  | inr (e, k) ↦ ground arith
  | inl (y, k) ↦ elim (Result-cases (map_result f xs)) [
    | inr (e, m) ↦ ground arith
    | inl (ys, m) ↦ (y, ys, k, m, ground arith)
  ]
]
