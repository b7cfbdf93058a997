-- ===== src/Reward/Components/Baseline.antt =====
-- A baseline pays nothing under any coefficients.
use native.Mathlib.Nat.{mul-zero}
use py_rl_trainer.Prelude.{
  ℕ, ◌*◌, ◌%◌, ◌^◌, ◌≡◌, refl, Bool, true, false, not, ◌&&◌, ◌||◌, some, arith, ok,
}
use py_rl_trainer.Prelude.Int.{ℤ, pos, negsuc}
use py_rl_trainer.Wire.Str.{text_eq, text_eq_sound}
use py_rl_trainer.Wire.Float.{
  is_finite, is_zero, is_nan, magnitude, sign_bit, signed, units, round_shift, round_units,
  log2_steps, add_units, add_finite, float_add, float_sub, float_mul, float_neg, float_of_int,
}
use py_rl_trainer.Reward.{Reward, Deltas}
use py_rl_trainer.Reward.Parse.{initial, terminal, all_zero, is_zero_ℤ}
use py_rl_trainer.Reward.Parse.Sound.{IsReward}
use py_rl_trainer.Reward.Components.{
  RewardCoefficients, Components, scaled, total, reward_components,
}

zero-finite :
    (x : ℕ)
    → is_zero x ≡ true
    → (is_finite x ≡ true) × (is_nan x ≡ false) × (units (magnitude x) ≡ 0)
unfolding is_zero is_finite is_nan magnitude units
zero-finite x h =
    let none_left : x % 2 ^ 63 ≡ 0 = ground arith in (ground arith, ground arith, rw none_left refl)

finite-not_nan : (x : ℕ) → is_finite x ≡ true → is_nan x ≡ false
unfolding is_finite is_nan magnitude
finite-not_nan x h = ground arith

round_units_zero : round_units 1074 0 ≡ 0
unfolding round_units log2_steps round_shift
round_units_zero = refl

signed_zero : (b : Bool) → is_zero (signed b 0) ≡ true
unfolding is_zero signed magnitude
signed_zero true = refl
signed_zero false = refl

pub mul_zero : (x y : ℕ) → is_finite x ≡ true → is_zero y ≡ true → is_zero (float_mul x y) ≡ true
unfolding float_mul
mul_zero x y h k =
    let (finite, number, none_left) = zero-finite y k in
    let empty : round_units 1074 (units (magnitude x) * units (magnitude y)) ≡ 0 =
      rw none_left (rw (mul-zero (units (magnitude x))) round_units_zero) in
    rw (finite-not_nan x h, number, h, finite, empty)
      (signed_zero ((sign_bit x && not (sign_bit y)) || (not (sign_bit x) && sign_bit y)))

neg_zero : (x : ℕ) → is_zero x ≡ true → is_zero (float_neg x) ≡ true
unfolding float_neg is_zero magnitude signed sign_bit
neg_zero x h = ground arith

add_units_zero : (p q : Bool) → is_zero (add_units p q 0 0) ≡ true
unfolding add_units signed round_units log2_steps round_shift is_zero magnitude
add_units_zero true true = refl
add_units_zero true false = refl
add_units_zero false true = refl
add_units_zero false false = refl

add_finite_zero :
    (x y : ℕ) → units (magnitude x) ≡ 0 → units (magnitude y) ≡ 0 → is_zero (add_finite x y) ≡ true
unfolding add_finite
add_finite_zero x y h k = rw (h, k) (add_units_zero (sign_bit x) (sign_bit y))

add_zero : (x y : ℕ) → is_zero x ≡ true → is_zero y ≡ true → is_zero (float_add x y) ≡ true
unfolding float_add
add_zero x y h k =
    let (finite_x, number_x, none_x) = zero-finite x h in
    let (finite_y, number_y, none_y) = zero-finite y k in
    rw (finite_x, number_x, finite_y, number_y) (add_finite_zero x y none_x none_y)

sub_zero : (x y : ℕ) → is_zero x ≡ true → is_zero y ≡ true → is_zero (float_sub x y) ≡ true
unfolding float_sub
sub_zero x y h k = add_zero x (float_neg y) h (neg_zero y k)

pub record AllFinite (c : RewardCoefficients) : Type 0 where
  pub survival : is_finite c.survival ≡ true
  pub food : is_finite c.food ≡ true
  pub growth : is_finite c.growth ≡ true
  pub points : is_finite c.points ≡ true
  pub kills : is_finite c.kills ≡ true

pub record IsUnpaid (p : Components) : Type 0 where
  pub survival : is_zero p.survival ≡ true
  pub food : is_zero p.food ≡ true
  pub growth : is_zero p.growth ≡ true
  pub points : is_zero p.points ≡ true
  pub kills : is_zero p.kills ≡ true
  pub death : is_zero p.death ≡ true

int_zero : float_of_int (pos 0) ≡ some 0
unfolding float_of_int
int_zero = refl

total_zero : (p : Components) → IsUnpaid p → is_finite (total p) ≡ true
unfolding total
total_zero p z =
    (zero-finite (total p) (
      add_zero _ p.death
        (add_zero _ p.kills
          (add_zero _ p.points
            (add_zero _ p.growth
              (add_zero _ p.food
                (add_zero 0 p.survival (unfold is_zero magnitude in refl) z.survival) z.food)
              z.growth)
            z.points)
          z.kills)
        z.death)).0

-- what `all_zero` says of the deltas that are weighted
record IsIdle (d : Deltas) : Type 0 where
  pub alive : is_zero d.alive_seconds_delta ≡ true
  pub food : is_zero d.food_value_delta ≡ true
  pub points : is_zero d.points_delta ≡ true
  pub survival : is_zero d.survival_points_delta ≡ true
  pub growth : d.retained_growth_delta ≡ pos 0
  pub kills : d.kills_delta ≡ 0

pub is_zero_ℤ_sound : (n : ℤ) → is_zero_ℤ n ≡ true → n ≡ pos 0
is_zero_ℤ_sound (pos n) h = ground arith
is_zero_ℤ_sound (negsuc n) h = cc

all_zero-IsIdle : (d : Deltas) → all_zero d ≡ true → IsIdle d
unfolding all_zero
all_zero-IsIdle d h = record {
  alive = ground arith;
  food = ground arith;
  points = ground arith;
  survival = ground arith;
  growth = is_zero_ℤ_sound d.retained_growth_delta (ground arith);
  kills = ground arith;
}

abbrev unpaid : Reward → RewardCoefficients → Components
unpaid r c = record {
  survival = float_mul c.survival r.deltas.alive_seconds_delta;
  food = float_mul c.food r.deltas.food_value_delta;
  growth = float_mul c.growth 0;
  points = float_mul c.points (float_sub r.deltas.points_delta r.deltas.survival_points_delta);
  kills = float_mul c.kills 0;
  death = 0;
}

unpaid-IsUnpaid :
    (r : Reward) (c : RewardCoefficients) → AllFinite c → IsIdle r.deltas → IsUnpaid (unpaid r c)
unpaid-IsUnpaid r c f i = record {
  survival = mul_zero c.survival r.deltas.alive_seconds_delta f.survival i.alive;
  food = mul_zero c.food r.deltas.food_value_delta f.food i.food;
  growth = mul_zero c.growth 0 f.growth (unfold is_zero magnitude in refl);
  points =
      mul_zero c.points (float_sub r.deltas.points_delta r.deltas.survival_points_delta) f.points
        (sub_zero r.deltas.points_delta r.deltas.survival_points_delta i.points i.survival);
  kills = mul_zero c.kills 0 f.kills (unfold is_zero magnitude in refl);
  death = unfold is_zero magnitude in refl;
}

-- The baseline of a life, as `parse_reward` admits it, is weighted without an error under any
-- finite coefficients, and each of its six components is zero.
pub baseline-IsUnpaid :
    (r : Reward) (c : RewardCoefficients)
    → IsReward r
    → text_eq r.transition_kind initial ≡ true
    → AllFinite c
    → (p : Components) × (reward_components r c ≡ ok p) × IsUnpaid p
unfolding reward_components scaled
baseline-IsUnpaid r c sound first finite =
    let idle = all_zero-IsIdle r.deltas (sound.baseline first) in
    let zero_parts = unpaid-IsUnpaid r c finite idle in
    let kind : r.transition_kind ≡ initial = text_eq_sound r.transition_kind initial first in
    let alive : text_eq r.transition_kind terminal ≡ false = rw kind (unfold text_eq in refl) in
    let summed = total_zero (unpaid r c) zero_parts in
    (
      unpaid r c,
      rw (idle.growth, idle.kills, int_zero, alive)
          (ground (
            arith,
            summed,
            zero-finite (unpaid r c).survival zero_parts.survival,
            zero-finite (unpaid r c).food zero_parts.food,
            zero-finite (unpaid r c).growth zero_parts.growth,
            zero-finite (unpaid r c).points zero_parts.points,
            zero-finite (unpaid r c).kills zero_parts.kills,
            zero-finite (unpaid r c).death zero_parts.death,
          )),
      zero_parts,
    )
