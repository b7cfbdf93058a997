-- ===== src/Distillation/Intervals/Coverage.antt =====
-- A list of intervals that the walk accepts holds every number between its ends exactly once.
use py_rl_trainer.Prelude.{
  ℕ, ◌+◌, ◌≤◌, ◌<◌, ◌≡◌, refl, ◌&&◌, some, List, [], ◌∷◌, ◌++◌, arith, leb, if◌then◌else◌,
}
use py_rl_trainer.Distillation.Intervals.{Interval, insert, sorted, cover}

-- how many of the intervals hold `n`
abbrev pub times : ℕ → List Interval → ℕ
times n [] = 0
times n ((low, high) ∷ rest) = (if leb low n && leb n high then 1 else 0) + times n rest

-- no interval is empty
abbrev pub AllForward : List Interval → Type 0
AllForward [] = Unit
AllForward ((low, high) ∷ rest) = (low ≤ high) × AllForward rest

pub times-append : (n : ℕ) (xs ys : List Interval) → times n (xs ++ ys) ≡ times n xs + times n ys
times-append n [] ys = omega arith
times-append n (x ∷ xs) ys = omega (arith, times-append n xs ys)

times-insert : (n : ℕ) (x : Interval) (l : List Interval) → times n (insert x l) ≡ times n (x ∷ l)
unfolding insert
times-insert n x [] = refl
times-insert n x (y ∷ ys) = ground (arith, times-insert n x ys)

pub times-sorted : (n : ℕ) (l : List Interval) → times n (sorted l) ≡ times n l
unfolding sorted
times-sorted n [] = refl
times-sorted n (x ∷ xs) = omega (arith, times-insert n x (sorted xs), times-sorted n xs)

insert-AllForward :
    (x : Interval) (l : List Interval) → x.0 ≤ x.1 → AllForward l → AllForward (insert x l)
unfolding insert
insert-AllForward x [] le h = (le, tt)
insert-AllForward x (y ∷ ys) le h = ground (arith, insert-AllForward x ys le h.1)

pub sorted-AllForward : (l : List Interval) → AllForward l → AllForward (sorted l)
unfolding sorted
sorted-AllForward [] h = tt
sorted-AllForward (x ∷ xs) h = insert-AllForward x (sorted xs) h.0 (sorted-AllForward xs h.1)

pub cover-forward : (c e : ℕ) (l : List Interval) → AllForward l → cover c l ≡ some e → c ≤ e
unfolding cover
cover-forward c e [] f h = ground arith
cover-forward c e ((low, high) ∷ rest) f h = ground (arith, cover-forward high e rest f.1)

-- below the first interval there is nothing
cover-times_below :
    (n c e : ℕ) (l : List Interval) → AllForward l → cover c l ≡ some e → n ≤ c → times n l ≡ 0
unfolding cover
cover-times_below n c e [] f h le = refl
cover-times_below n c e ((low, high) ∷ rest) f h le =
    ground (arith, cover-times_below n high e rest f.1)

pub cover-times :
    (n c e : ℕ) (l : List Interval)
    → AllForward l
    → cover c l ≡ some e
    → c < n
    → n ≤ e
    → times n l ≡ 1
unfolding cover
cover-times n c e [] f h lo hi = ground arith
cover-times n c e ((low, high) ∷ rest) f h lo hi =
    ground (arith, cover-times n high e rest f.1, cover-times_below n high e rest f.1)
