-- ===== src/Reward/Components.antt =====
-- `RewardCoefficients` and `reward_components`. The coefficients are floats, as they are annotated.
pub mod Baseline
use py_rl_trainer.Prelude.{
  ℕ, ◌*◌, Bool, true, false, not, ◌&&◌, ◌||◌, Option, none, some, ok, err, ◌>>=◌, ◌>>◌, guard,
  if◌then◌else◌,
}
use py_rl_trainer.Prelude.Int.{ℤ, pos, negsuc}
use py_rl_trainer.Wire.{Value, float}
use py_rl_trainer.Wire.Str.{text_eq}
use py_rl_trainer.Wire.Float.{is_finite, float_add, float_sub, float_mul, float_neg, float_of_int}
use py_rl_trainer.Reward.{Admitted, Reward, number, reward_contract_error, overflow_error}
use py_rl_trainer.Reward.Parse.{terminal}

pub record RewardCoefficients : Type 0 where
  pub survival : ℕ
  pub food : ℕ
  pub growth : ℕ
  pub points : ℕ
  pub kills : ℕ
  pub death_penalty : ℕ

-- `__post_init__`
unfoldable pub check_coefficients : RewardCoefficients → Admitted Unit
check_coefficients c = do
  number (float c.survival) false
  number (float c.food) false
  number (float c.growth) false
  number (float c.points) false
  number (float c.kills) false
  number (float c.death_penalty) false
  ok tt

pub record Components : Type 0 where
  pub survival : ℕ
  pub food : ℕ
  pub growth : ℕ
  pub points : ℕ
  pub kills : ℕ
  pub death : ℕ

-- `x * n` of a float and an int that `float` converts or refuses
unfoldable pub scaled : ℕ → Option ℕ → Admitted ℕ
scaled x none = err overflow_error
scaled x (some y) = ok (float_mul x y)

-- `sum(parts.values())`, from the left as Python 3.10 and 3.11 add (3.12 compensates the last bits)
unfoldable pub total : Components → ℕ
total p =
    float_add
      (float_add
        (float_add (float_add (float_add (float_add 0 p.survival) p.food) p.growth) p.points)
        p.kills)
      p.death

-- `reward_components(reward, coefficients)`
unfoldable pub reward_components : Reward → RewardCoefficients → Admitted Components
reward_components reward c = do
  growth ← scaled c.growth (float_of_int reward.deltas.retained_growth_delta)
  kills ← scaled c.kills (float_of_int (pos reward.deltas.kills_delta))
  let parts : Components = record {
    survival = float_mul c.survival reward.deltas.alive_seconds_delta;
    food = float_mul c.food reward.deltas.food_value_delta;
    growth = growth;
    points =
        float_mul c.points
          (float_sub reward.deltas.points_delta reward.deltas.survival_points_delta);
    kills = kills;
    death = if text_eq reward.transition_kind terminal then float_neg c.death_penalty else 0;
  }
  guard
      (is_finite parts.survival
        && is_finite parts.food
        && is_finite parts.growth
        && is_finite parts.points
        && is_finite parts.kills
        && is_finite parts.death
        && is_finite (total parts))
      reward_contract_error
  ok parts
