-- ===== src/Wire/Float.antt =====
-- IEEE-754 binary64 values by their bit patterns: Python's `float` arithmetic, `float(int)` and
-- `math.isfinite` and `math.isclose`. A finite magnitude is a whole number of 2 ^ -1074.
use py_rl_trainer.Prelude.{
  ℕ, zero, suc, ◌+◌, ◌-◌, ◌*◌, ◌/◌, ◌%◌, ◌^◌, Bool, not, ◌&&◌, ◌||◌, Option, none, some, ltb, leb,
  ◌==◌, if◌then◌else◌,
}
use py_rl_trainer.Prelude.Int.{ℤ, pos, negsuc}

-- `math.isfinite(x)`
unfoldable pub is_finite : ℕ → Bool
is_finite x = not (x / 2 ^ 52 % 2048 == 2047)

-- the pattern without its sign
unfoldable pub magnitude : ℕ → ℕ
magnitude x = x % 2 ^ 63

unfoldable pub sign_bit : ℕ → Bool
sign_bit x = leb (2 ^ 63) x

unfoldable pub signed : Bool → ℕ → ℕ
signed negative m = if negative then 2 ^ 63 + m else m

-- `-x`
unfoldable pub float_neg : ℕ → ℕ
unfolding signed sign_bit magnitude
float_neg x = signed (not (sign_bit x)) (magnitude x)

-- `x == 0`: both zeros
unfoldable pub is_zero : ℕ → Bool
unfolding magnitude
is_zero x = magnitude x == 0

abbrev pub infinity : ℕ
infinity = 2047 * 2 ^ 52

abbrev pub nan : ℕ
nan = 2047 * 2 ^ 52 + 2 ^ 51

unfoldable pub is_nan : ℕ → Bool
unfolding magnitude
is_nan x = ltb infinity (magnitude x)

-- `x < 0`, of a number that is no NaN
unfoldable pub is_negative : ℕ → Bool
unfolding is_zero
is_negative x = leb (2 ^ 63) x && not (is_zero x)

-- the exponent of the leading bit of a number below 2 ^ (2 ^ steps); 13 steps serve a product
unfoldable pub log2_steps : ℕ → ℕ → ℕ
log2_steps zero n = 0
log2_steps (suc k) n =
    let big = leb (2 ^ 2 ^ k) n in
    let rest = log2_steps k (if big then n / 2 ^ 2 ^ k else n) in if big then 2 ^ k + rest else rest

-- the whole number of 2 ^ -1074 that a finite magnitude is
unfoldable pub units : ℕ → ℕ
units m = if m / 2 ^ 52 == 0 then m else (2 ^ 52 + m % 2 ^ 52) * 2 ^ (m / 2 ^ 52 - 1)

-- n / 2 ^ s, to the nearest, ties to even
unfoldable pub round_shift : ℕ → ℕ → ℕ
round_shift n zero = n
round_shift n (suc s) =
    let q = n / 2 ^ suc s in
    let rest = n % 2 ^ suc s in
    if ltb (2 ^ s) rest || (rest == 2 ^ s && q % 2 == 1) then q + 1 else q

-- the magnitude nearest to n * 2 ^ -(1074 + k)
unfoldable pub round_units : ℕ → ℕ → ℕ
unfolding log2_steps round_shift
round_units k n =
    let e = log2_steps 13 n in
    let s = if ltb (e - 52) k then k else e - 52 in
    let m = (s - k) * 2 ^ 52 + round_shift n s in if leb infinity m then infinity else m

-- The sum of two signed whole numbers of units; an exact zero is negative only of two negatives.
unfoldable pub add_units : Bool → Bool → ℕ → ℕ → ℕ
unfolding signed round_units
add_units p q a b =
    if (p && q) || (not p && not q)
    then signed p (round_units 0 (a + b))
    else if a == b
    then 0
    else if ltb b a
    then signed p (round_units 0 (a - b))
    else signed q (round_units 0 (b - a))

-- x + y of finite numbers
unfoldable pub add_finite : ℕ → ℕ → ℕ
unfolding add_units sign_bit magnitude units
add_finite x y = add_units (sign_bit x) (sign_bit y) (units (magnitude x)) (units (magnitude y))

-- `x + y`
unfoldable pub float_add : ℕ → ℕ → ℕ
unfolding is_nan is_finite sign_bit add_finite
float_add x y =
    if is_nan x || is_nan y
    then nan
    else if not (is_finite x) && not (is_finite y)
    then (if x == y then x else nan)
    else if not (is_finite x)
    then x
    else if not (is_finite y)
    then y
    else add_finite x y

-- `x - y`
unfoldable pub float_sub : ℕ → ℕ → ℕ
unfolding float_add float_neg
float_sub x y = float_add x (float_neg y)

-- `x * y`
unfoldable pub float_mul : ℕ → ℕ → ℕ
unfolding is_nan is_finite is_zero sign_bit signed magnitude units round_units
float_mul x y =
    let p = sign_bit x in
    let q = sign_bit y in
    let negative = (p && not q) || (not p && q) in
    if is_nan x || is_nan y
    then nan
    else if not (is_finite x) || not (is_finite y)
    then (if is_zero x || is_zero y then nan else signed negative infinity)
    else signed negative (round_units 1074 (units (magnitude x) * units (magnitude y)))

-- `float(n)`; `none` is `OverflowError`
unfoldable pub float_of_nat : ℕ → Option ℕ
unfolding round_units
float_of_nat n =
    if leb (2 ^ 1024) n
    then none
    else let m = round_units 0 (n * 2 ^ 1074) in if m == infinity then none else some m

unfoldable pub negated : Option ℕ → Option ℕ
unfolding float_neg
negated none = none
negated (some x) = some (float_neg x)

unfoldable pub float_of_int : ℤ → Option ℕ
unfolding float_of_nat negated
float_of_int (pos n) = float_of_nat n
float_of_int (negsuc n) = negated (float_of_nat (n + 1))

-- `x == y` of numbers that are no NaN
unfoldable pub float_eq : ℕ → ℕ → Bool
unfolding is_zero
float_eq x y = x == y || (is_zero x && is_zero y)

-- `math.isclose(x, y, rel_tol=rel, abs_tol=tol)` of finite x and y
unfoldable pub is_close : ℕ → ℕ → ℕ → ℕ → Bool
unfolding float_eq float_sub float_mul magnitude
is_close rel tol x y =
    let diff = magnitude (float_sub y x) in
    float_eq x y
    || leb diff (magnitude (float_mul rel y))
    || leb diff (magnitude (float_mul rel x))
    || leb diff tol

-- 1e-9
abbrev pub one_billionth : ℕ
one_billionth = 4472406533629990549

-- the pattern of the whole number `n`, below 2 ^ 53
unfoldable pub of_nat : ℕ → ℕ
unfolding log2_steps
of_nat n =
    let e = log2_steps 6 n in if n == 0 then 0 else (1023 + e) * 2 ^ 52 + (n - 2 ^ e) * 2 ^ (52 - e)
