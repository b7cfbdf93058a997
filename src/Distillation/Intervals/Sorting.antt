-- ===== src/Distillation/Intervals/Sorting.antt =====
-- Sorting does not depend on the order of the input, and leaves what is in order alone.
use py_rl_trainer.Prelude.{◌≡◌, refl, ap, ◌∙◌, true, false, List, [], ◌∷◌, ◌++◌, arith}
use py_rl_trainer.Distillation.Intervals.{Interval, interval_leb, insert, sorted}

interval_leb_total : (x y : Interval) → interval_leb x y ≡ false → interval_leb y x ≡ true
unfolding interval_leb
interval_leb_total (a, b) (c, d) h = ground arith

interval_leb_antisym : (x y : Interval) → interval_leb x y ≡ true → interval_leb y x ≡ true → x ≡ y
unfolding interval_leb
interval_leb_antisym (a, b) (c, d) h k = ground arith

interval_leb_trans :
    (x y z : Interval) → interval_leb x y ≡ true → interval_leb y z ≡ true → interval_leb x z ≡ true
unfolding interval_leb
interval_leb_trans (a, b) (c, d) (e, f) h k = ground arith

-- two insertions commute
pub insert_comm :
    (x y : Interval) (l : List Interval) → insert x (insert y l) ≡ insert y (insert x l)
unfolding insert
insert_comm x y [] =
    ground (arith, interval_leb_total x y, interval_leb_total y x, interval_leb_antisym x y)
insert_comm x y (z ∷ l) = ground (
  arith,
  insert_comm x y l,
  interval_leb_total x y,
  interval_leb_total y x,
  interval_leb_antisym x y,
  interval_leb_trans x y z,
  interval_leb_trans y x z,
  interval_leb_trans z x y,
  interval_leb_total x z,
  interval_leb_total y z,
)

-- An element may be moved to the front before sorting.
pub sorted_middle :
    (xs ys : List Interval) (y : Interval) → sorted (xs ++ y ∷ ys) ≡ insert y (sorted (xs ++ ys))
unfolding sorted
sorted_middle [] ys y = refl
sorted_middle (x ∷ xs) ys y =
    ap (insert x) (sorted_middle xs ys y) ∙ insert_comm x y (sorted (xs ++ ys))
