-- ===== src/Wire/Tests.antt =====
-- Binary64 arithmetic on known values.
use py_rl_trainer.Prelude.{◌+◌, ◌^◌, ◌≡◌, refl, some, true}
use py_rl_trainer.Prelude.Int.{pos, negsuc}
use py_rl_trainer.Wire.Float

-- 0.1 + 0.2
sum_test : Float.float_add 4591870180066957722 4596373779694328218 ≡ 4599075939470750516
unfolding Float.float_add
sum_test = refl

-- 0.3 - 0.1
difference_test : Float.float_sub 4599075939470750515 4591870180066957722 ≡ 4596373779694328217
unfolding Float.float_sub
difference_test = refl

-- 0.1 * 0.2
product_test : Float.float_mul 4591870180066957722 4596373779694328218 ≡ 4581421828931458172
unfolding Float.float_mul
product_test = refl

-- 1e-300 * 1e-10 is subnormal
small_product_test : Float.float_mul 118622047889322841 4457293557087583675 ≡ 20240225330731
unfolding Float.float_mul
small_product_test = refl

-- float(2 ** 53 + 1) is rounded to even
whole_test : Float.float_of_int (pos (2 ^ 53 + 1)) ≡ some 4845873199050653696
unfolding Float.float_of_int
whole_test = refl

-- float(-3)
negative_test : Float.float_of_int (negsuc 2) ≡ some 13837309855095848960
unfolding Float.float_of_int
negative_test = refl

-- 0.1 + 0.2 and 0.3
close_test :
    Float.is_close Float.one_billionth Float.one_billionth 4599075939470750516 4599075939470750515
    ≡ true
unfolding Float.is_close
close_test = refl
