-- ===== src/Distillation/Intervals.antt =====
-- Inclusive intervals of chunk sequence numbers: Python's `sorted` on pairs, and the walk that asks
-- each next interval to begin where the last one ended.
pub mod Sorting
pub mod Coverage
use py_rl_trainer.Prelude.{
  ℕ, ◌+◌, Bool, ◌&&◌, ◌||◌, Option, none, some, List, [], ◌∷◌, ltb, leb, ◌==◌, if◌then◌else◌,
}

abbrev pub Interval : Type 0
Interval = ℕ × ℕ

-- the order of pairs
unfoldable pub interval_leb : Interval → Interval → Bool
interval_leb a b = ltb a.0 b.0 || (a.0 == b.0 && leb a.1 b.1)

unfoldable pub insert : Interval → List Interval → List Interval
insert x [] = x ∷ []
insert x (y ∷ ys) = if interval_leb x y then x ∷ y ∷ ys else y ∷ insert x ys

unfoldable pub sorted : List Interval → List Interval
sorted [] = []
sorted (x ∷ xs) = insert x (sorted xs)

-- `for low, high in …: if low != covered + 1: raise; covered = high`; `none` is the raise
unfoldable pub cover : ℕ → List Interval → Option ℕ
cover covered [] = some covered
cover covered ((low, high) ∷ rest) =
    let after = cover high rest in if low == covered + 1 then after else none
