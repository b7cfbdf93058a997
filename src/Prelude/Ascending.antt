-- ===== src/Prelude/Ascending.antt =====
-- Strictly rising numbers between two bounds, and what a part of them is.
use py_rl_trainer.Prelude.{ℕ, ◌≤◌, ◌<◌, List, [], ◌∷◌, ◌++◌, arith}

-- each above the one before it, the first above `low`, none above `high`
abbrev pub AscendsTo : ℕ → ℕ → List ℕ → Type 0
AscendsTo low high [] = low ≤ high
AscendsTo low high (x ∷ xs) = (low < x) × AscendsTo x high xs

pub AscendsTo-higher :
    (low high higher : ℕ) (xs : List ℕ)
    → high ≤ higher
    → AscendsTo low high xs
    → AscendsTo low higher xs
AscendsTo-higher low high higher [] le h = omega arith
AscendsTo-higher low high higher (x ∷ xs) le h = (h.0, AscendsTo-higher x high higher xs le h.1)

pub AscendsTo-lower :
    (lower low high : ℕ) (xs : List ℕ)
    → lower ≤ low
    → AscendsTo low high xs
    → AscendsTo lower high xs
AscendsTo-lower lower low high [] le h = omega arith
AscendsTo-lower lower low high (x ∷ xs) le h = (omega (arith, h.0), h.1)

pub AscendsTo-bounds : (low high : ℕ) (xs : List ℕ) → AscendsTo low high xs → low ≤ high
AscendsTo-bounds low high [] h = h
AscendsTo-bounds low high (x ∷ xs) h = omega (arith, h.0, AscendsTo-bounds x high xs h.1)

-- one more number at the end
pub AscendsTo-snoc :
    (low high x : ℕ) (xs : List ℕ)
    → AscendsTo low high xs
    → high < x
    → AscendsTo low x (xs ++ (x ∷ []))
AscendsTo-snoc low high x [] h lt = (omega arith, omega arith)
AscendsTo-snoc low high x (y ∷ xs) h lt = (h.0, AscendsTo-snoc y high x xs h.1 lt)

-- `Sub xs ys`: some of `ys`, in order
pub data Sub : List ℕ → List ℕ → Type 0 where
  done : Sub [] []
  keep : {xs ys : List ℕ} → (x : ℕ) → Sub xs ys → Sub (x ∷ xs) (x ∷ ys)
  skip : {xs ys : List ℕ} → (y : ℕ) → Sub xs ys → Sub xs (y ∷ ys)

pub Sub-refl : (xs : List ℕ) → Sub xs xs
Sub-refl [] = done
Sub-refl (x ∷ xs) = keep x (Sub-refl xs)

pub Sub-nil : (xs : List ℕ) → Sub [] xs
Sub-nil [] = done
Sub-nil (x ∷ xs) = skip x (Sub-nil xs)

pub Sub-trans : {xs ys zs : List ℕ} → Sub xs ys → Sub ys zs → Sub xs zs
Sub-trans h (skip z k) = skip z (Sub-trans h k)
Sub-trans h done = h
Sub-trans (keep x h) (keep _ k) = keep x (Sub-trans h k)
Sub-trans (skip y h) (keep _ k) = skip y (Sub-trans h k)

-- the numbers after a prefix
pub Sub-suffix : (xs ys : List ℕ) → Sub ys (xs ++ ys)
Sub-suffix [] ys = Sub-refl ys
Sub-suffix (x ∷ xs) ys = skip x (Sub-suffix xs ys)

pub Sub-append : {xs ys zs ws : List ℕ} → Sub xs ys → Sub zs ws → Sub (xs ++ zs) (ys ++ ws)
Sub-append done k = k
Sub-append (keep x h) k = keep x (Sub-append h k)
Sub-append (skip y h) k = skip y (Sub-append h k)

pub Sub-AscendsTo :
    {xs ys : List ℕ} (low high : ℕ) → Sub xs ys → AscendsTo low high ys → AscendsTo low high xs
Sub-AscendsTo low high done h = h
Sub-AscendsTo low high (keep x k) h = (h.0, Sub-AscendsTo x high k h.1)
Sub-AscendsTo {xs} low high (skip y k) h =
    AscendsTo-lower low y high xs (omega (arith, h.0)) (Sub-AscendsTo y high k h.1)
