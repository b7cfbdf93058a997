-- ===== src/Evaluation.antt =====
-- pyrl_trainer/evaluation.py: `EvaluationEpisode`, the accounting of one frozen-policy episode over
-- accepted reward intervals.
pub mod Accounting
pub mod Episode
mod Tests
use py_rl_trainer.Prelude.{
  ℕ, ◌+◌, ◌-◌, Bool, true, false, not, ◌&&◌, ◌||◌, Option, none, some, ok, err, ◌>>=◌, ◌>>◌, guard,
  leb, if◌then◌else◌,
}
use py_rl_trainer.Prelude.Int.{ℤ, pos, negsuc, ◌+ℤ◌, ◌-ℤ◌}
use py_rl_trainer.Wire.Str.{Text}
use py_rl_trainer.Wire.Hex.{int_hex}
use py_rl_trainer.Wire.Float.{
  is_finite, is_negative, is_zero, magnitude, float_add, float_sub, float_of_int,
}
use py_rl_trainer.Reward.{Admitted, Deltas, Reward, reward_contract_error, overflow_error}
use py_rl_trainer.Reward.Components.{Components, total}
use py_rl_trainer.Reward.Control.{is_none}

pub record EvaluationEpisode : Type 0 where
  pub policy_version : ℤ
  pub policy_sha256 : Text
  pub seed : ℤ
  pub max_seconds : ℕ
  pub first : Option Reward
  pub last : Option Reward
  pub raw : Deltas
  pub components : Components
  pub finished : Bool

abbrev pub no_deltas : Deltas
no_deltas = record {
  elapsed_seconds = 0;
  alive_seconds_delta = 0;
  points_delta = 0;
  survival_points_delta = 0;
  food_points_delta = 0;
  kill_points_delta = 0;
  other_points_delta = 0;
  boost_points_spent_delta = 0;
  food_count_delta = 0;
  food_value_delta = 0;
  length_delta = pos 0;
  retained_growth_delta = pos 0;
  kills_delta = 0;
}

abbrev pub no_components : Components
no_components = record { survival = 0; food = 0; growth = 0; points = 0; kills = 0; death = 0 }

-- `EvaluationEpisode(policy_version, policy_sha256, seed, max_seconds)`
abbrev pub new_episode : ℤ → Text → ℤ → ℕ → EvaluationEpisode
new_episode policy_version policy_sha256 seed max_seconds = record {
  policy_version = policy_version;
  policy_sha256 = policy_sha256;
  seed = seed;
  max_seconds = max_seconds;
  first = none;
  last = none;
  raw = no_deltas;
  components = no_components;
  finished = false;
}

-- `{name: value + reward["deltas"][name] …}`: integers stay exact
unfoldable pub add_deltas : Deltas → Deltas → Deltas
add_deltas a b = record {
  elapsed_seconds = float_add a.elapsed_seconds b.elapsed_seconds;
  alive_seconds_delta = float_add a.alive_seconds_delta b.alive_seconds_delta;
  points_delta = float_add a.points_delta b.points_delta;
  survival_points_delta = float_add a.survival_points_delta b.survival_points_delta;
  food_points_delta = float_add a.food_points_delta b.food_points_delta;
  kill_points_delta = float_add a.kill_points_delta b.kill_points_delta;
  other_points_delta = float_add a.other_points_delta b.other_points_delta;
  boost_points_spent_delta = float_add a.boost_points_spent_delta b.boost_points_spent_delta;
  food_count_delta = a.food_count_delta + b.food_count_delta;
  food_value_delta = float_add a.food_value_delta b.food_value_delta;
  length_delta = a.length_delta +ℤ b.length_delta;
  retained_growth_delta = a.retained_growth_delta +ℤ b.retained_growth_delta;
  kills_delta = a.kills_delta + b.kills_delta;
}

unfoldable pub add_components : Components → Components → Components
add_components a b = record {
  survival = float_add a.survival b.survival;
  food = float_add a.food b.food;
  growth = float_add a.growth b.growth;
  points = float_add a.points b.points;
  kills = float_add a.kills b.kills;
  death = float_add a.death b.death;
}

-- `math.isfinite` of the floats
unfoldable pub finite_deltas : Deltas → Bool
finite_deltas d =
    is_finite d.elapsed_seconds
    && is_finite d.alive_seconds_delta
    && is_finite d.points_delta
    && is_finite d.survival_points_delta
    && is_finite d.food_points_delta
    && is_finite d.kill_points_delta
    && is_finite d.other_points_delta
    && is_finite d.boost_points_spent_delta
    && is_finite d.food_value_delta

-- `math.isfinite` of the ints raises `OverflowError` for one that is no float
unfoldable pub converts : Deltas → Bool
converts d =
    not (is_none (float_of_int (pos d.food_count_delta)))
    && not (is_none (float_of_int d.length_delta))
    && not (is_none (float_of_int d.retained_growth_delta))
    && not (is_none (float_of_int (pos d.kills_delta)))

unfoldable pub finite_components : Components → Bool
finite_components c =
    is_finite c.survival
    && is_finite c.food
    && is_finite c.growth
    && is_finite c.points
    && is_finite c.kills
    && is_finite c.death
    && is_finite (total c)

abbrev pub first_of : Option Reward → Reward → Reward
first_of none reward = reward
first_of (some first) reward = first

-- `receive` of an episode that is not finished and whose `first` is set
unfoldable pub account : EvaluationEpisode → Reward → Components → Admitted Unit × EvaluationEpisode
account episode reward components =
    let raw = add_deltas episode.raw reward.deltas in
    let parts = add_components episode.components components in
    if not (converts raw)
    then (err overflow_error, episode)
    else if not (finite_deltas raw && finite_components parts)
    then (err reward_contract_error, episode)
    else (ok tt, record episode { raw = raw; components = parts; last = some reward })

-- `receive(reward, components)`: its outcome, and the episode after it. A raise for an overflow has
-- set `first`, and nothing else.
unfoldable pub receive : EvaluationEpisode → Reward → Components → Admitted Unit × EvaluationEpisode
unfolding account
receive episode reward components =
    if episode.finished
    then (err reward_contract_error, episode)
    else account (record episode { first = some (first_of episode.first reward) }) reward components

-- `x <= y` of two numbers that are no NaN
unfoldable pub float_leb : ℕ → ℕ → Bool
float_leb x y =
    (is_zero x && is_zero y)
    || (if is_negative x
        then not (is_negative y) || leb (magnitude y) (magnitude x)
        else not (is_negative y) && leb (magnitude x) (magnitude y))

-- `limit_reached`
unfoldable pub limit_reached : EvaluationEpisode → Bool
unfolding float_leb
limit_reached episode = float_leb episode.max_seconds episode.raw.elapsed_seconds

-- The dictionary that `finish` returns: the entries that it computes, and the two rewards and the
-- episode that the others are copied from.
pub record EvaluationResult : Type 0 where
  pub initial : Reward
  pub cutoff : Reward
  pub lifetime_ticks : ℤ
  pub duration_overshoot_seconds : ℕ
  pub raw_deltas : Deltas
  pub reward_components : Components
  pub episode_return : ℕ
  pub transition_kind : Text
  pub reason : Text
  pub integrity : Bool

unfoldable pub overshoot : EvaluationEpisode → ℕ
unfolding float_leb
overshoot episode =
    let d = float_sub episode.raw.elapsed_seconds episode.max_seconds in
    if float_leb d 0 then 0 else d

abbrev pub result_of :
    EvaluationEpisode → Option Reward → Option Reward → Text → Text → Bool → Option EvaluationResult
result_of episode (some first) (some last) kind reason integrity = some (record {
  initial = first;
  cutoff = last;
  lifetime_ticks = pos (int_hex last.to_step) -ℤ pos (int_hex first.to_step);
  duration_overshoot_seconds = overshoot episode;
  raw_deltas = episode.raw;
  reward_components = episode.components;
  episode_return = total episode.components;
  transition_kind = kind;
  reason = reason;
  integrity = integrity;
})
result_of episode _ _ kind reason integrity = none

-- `finish(kind, reason, integrity=integrity)`: what it returns, and the episode after it
unfoldable pub finish :
    EvaluationEpisode → Text → Text → Bool → Option EvaluationResult × EvaluationEpisode
finish episode kind reason integrity = if episode.finished then (none, episode) else (
  result_of episode episode.first episode.last kind reason integrity,
  record episode { finished = true },
)
