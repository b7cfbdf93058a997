-- ===== src/Reward/Parse.antt =====
-- `require_reward_version`, `_validate_lifecycle` and `parse_reward`.
pub mod Chronicle
pub mod Sound
pub mod Errors
pub mod Interval
use py_rl_trainer.Prelude.{
  ℕ, ◌-◌, Bool, true, false, not, ◌&&◌, ◌||◌, Option, none, some, ok, err, ◌>>=◌, ◌>>◌, guard, ltb,
  leb, ◌==◌, length, if◌then◌else◌,
}
use py_rl_trainer.Prelude.Int.{ℤ, pos, negsuc}
use py_rl_trainer.Wire.{Value, str}
use py_rl_trainer.Wire.Str.{Text, codes, text_eq}
use py_rl_trainer.Wire.Hex.{int_hex}
use py_rl_trainer.Wire.Float.{is_finite, is_zero, float_add, float_sub, is_close, one_billionth}
use py_rl_trainer.Distillation.Client.Descriptor.{value_eq_nat}
use py_rl_trainer.Reward.{
  Admitted, Shaped, shape, identity, number, exact_integer, exact_count, optional, member,
  max_exact, RewardWire, Life, BodyState, Deltas, Reward, reward_contract_error,
}
use py_rl_trainer.Reward.Control.{RawControl, parse_control, is_none}

pub record RawState : Type 0 where
  pub starting_length : Value
  pub body_length : Value
  pub retained_growth : Value

pub record RawDeltas : Type 0 where
  pub elapsed_seconds : Value
  pub alive_seconds_delta : Value
  pub points_delta : Value
  pub survival_points_delta : Value
  pub food_points_delta : Value
  pub kill_points_delta : Value
  pub other_points_delta : Value
  pub boost_points_spent_delta : Value
  pub food_count_delta : Value
  pub food_value_delta : Value
  pub length_delta : Value
  pub retained_growth_delta : Value
  pub kills_delta : Value

pub record RawReward : Type 0 where
  pub reward_version : Value
  pub run_id : Value
  pub world_epoch : Value
  pub lease_id : Value
  pub physical_snake_id : Value
  pub snake_id : Value
  pub observation_sequence : Value
  pub previous_observation_sequence : Value
  pub from_step : Value
  pub to_step : Value
  pub transition_kind : Value
  pub reason : Value
  pub state : Shaped RawState
  pub deltas : Shaped RawDeltas
  pub control : Shaped RawControl

-- `require_reward_version(welcome)`, with `welcome.get("rewardVersion")`
unfoldable pub require_reward_version : RewardWire → Value → Admitted Unit
unfolding value_eq_nat
require_reward_version wire version = do
  guard (value_eq_nat wire.external_reward_version 1) reward_contract_error
  exact_count version 1 1
  ok tt

-- the bounded nonempty `runId`
unfoldable pub parse_run_id : Value → Admitted Text
parse_run_id (str s) = do
  guard (not (length s == 0) && leb (length s) 256) reward_contract_error
  ok s
parse_run_id _ = err reward_contract_error

abbrev pub initial : Text
initial = codes "initial"

abbrev pub live : Text
live = codes "live"

abbrev pub terminal : Text
terminal = codes "terminal"

abbrev pub truncated : Text
truncated = codes "truncated"

abbrev pub death : Text
death = codes "death"

abbrev pub is_text : Option Text → Text → Bool
is_text none t = false
is_text (some s) t = text_eq s t

abbrev pub precedes : Option Text → Text → Bool
precedes none sequence = true
precedes (some previous) sequence = ltb (int_hex previous) (int_hex sequence)

-- the tests of `_validate_lifecycle` on the parsed kind, reason and predecessor
unfoldable pub check_lifecycle :
    Text → Option Text → Option Text → Text → Text → Text → Admitted Unit
check_lifecycle kind reason predecessor sequence from to = do
  guard (precedes predecessor sequence) reward_contract_error
  guard
      (if text_eq kind initial
        then is_none predecessor && is_none reason && text_eq from to
        else not (is_none predecessor))
      reward_contract_error
  guard (not (text_eq kind initial || text_eq kind live) || is_none reason) reward_contract_error
  guard (not (text_eq kind terminal) || is_text reason death) reward_contract_error
  guard (not (text_eq kind truncated) || not (is_none reason || is_text reason death))
      reward_contract_error

unfoldable pub parse_state : Shaped RawState → Admitted BodyState
parse_state raw = do
  value ← shape raw
  starting_length ← exact_count value.starting_length 1 max_exact
  body_length ← exact_count value.body_length 1 max_exact
  retained_growth ← exact_count value.retained_growth 0 max_exact
  guard (retained_growth == body_length - starting_length) reward_contract_error
  ok (record {
    starting_length = starting_length;
    body_length = body_length;
    retained_growth = retained_growth;
  })

-- `_integer(value, name, -_MAX_EXACT, _MAX_EXACT)`
unfoldable pub signed_integer : Value → Admitted ℤ
signed_integer value = exact_integer value (negsuc (max_exact - 1)) (pos max_exact)

unfoldable pub parse_deltas : Shaped RawDeltas → Admitted Deltas
unfolding signed_integer
parse_deltas raw = do
  value ← shape raw
  elapsed_seconds ← number value.elapsed_seconds false
  alive_seconds_delta ← number value.alive_seconds_delta false
  points_delta ← number value.points_delta true
  survival_points_delta ← number value.survival_points_delta false
  food_points_delta ← number value.food_points_delta false
  kill_points_delta ← number value.kill_points_delta false
  other_points_delta ← number value.other_points_delta true
  boost_points_spent_delta ← number value.boost_points_spent_delta false
  food_count_delta ← exact_count value.food_count_delta 0 max_exact
  food_value_delta ← number value.food_value_delta false
  length_delta ← signed_integer value.length_delta
  retained_growth_delta ← signed_integer value.retained_growth_delta
  kills_delta ← exact_count value.kills_delta 0 max_exact
  ok (record {
    elapsed_seconds = elapsed_seconds;
    alive_seconds_delta = alive_seconds_delta;
    points_delta = points_delta;
    survival_points_delta = survival_points_delta;
    food_points_delta = food_points_delta;
    kill_points_delta = kill_points_delta;
    other_points_delta = other_points_delta;
    boost_points_spent_delta = boost_points_spent_delta;
    food_count_delta = food_count_delta;
    food_value_delta = food_value_delta;
    length_delta = length_delta;
    retained_growth_delta = retained_growth_delta;
    kills_delta = kills_delta;
  })

abbrev pub is_zero_ℤ : ℤ → Bool
is_zero_ℤ (pos n) = n == 0
is_zero_ℤ (negsuc n) = false

-- `all(value == 0 for value in deltas.values())`
unfoldable pub all_zero : Deltas → Bool
all_zero d =
    is_zero d.elapsed_seconds
    && is_zero d.alive_seconds_delta
    && is_zero d.points_delta
    && is_zero d.survival_points_delta
    && is_zero d.food_points_delta
    && is_zero d.kill_points_delta
    && is_zero d.other_points_delta
    && is_zero d.boost_points_spent_delta
    && d.food_count_delta == 0
    && is_zero d.food_value_delta
    && is_zero_ℤ d.length_delta
    && is_zero_ℤ d.retained_growth_delta
    && d.kills_delta == 0

-- `accounted`
unfoldable pub accounted : Deltas → ℕ
accounted d =
    float_sub
      (float_add
        (float_add (float_add d.survival_points_delta d.food_points_delta) d.kill_points_delta)
        d.other_points_delta)
      d.boost_points_spent_delta

unfoldable pub parse_life : RawReward → Admitted Life
parse_life value = do
  run_id ← parse_run_id value.run_id
  world_epoch ← identity value.world_epoch false
  lease_id ← identity value.lease_id false
  physical_snake_id ← identity value.physical_snake_id false
  snake_id ← exact_count value.snake_id 1 16777216
  ok (record {
    run_id = run_id;
    world_epoch = world_epoch;
    lease_id = lease_id;
    physical_snake_id = physical_snake_id;
    snake_id = snake_id;
  })

pub record Chronology : Type 0 where
  pub sequence : Text
  pub predecessor : Option Text
  pub from : Text
  pub to : Text
  pub kind : Text
  pub reason : Option Text

-- the sequence, the steps and the lifecycle
unfoldable pub parse_chronology : RewardWire → RawReward → Admitted Chronology
unfolding check_lifecycle
parse_chronology wire value = do
  sequence ← identity value.observation_sequence false
  from ← identity value.from_step true
  to ← identity value.to_step true
  guard (leb (int_hex from) (int_hex to)) reward_contract_error
  kind ← member wire.transition_kinds value.transition_kind
  reason ← optional value.reason (member wire.end_reasons value.reason)
  predecessor ←
      optional value.previous_observation_sequence
        (identity value.previous_observation_sequence false)
  check_lifecycle kind reason predecessor sequence from to
  ok (record {
    sequence = sequence;
    predecessor = predecessor;
    from = from;
    to = to;
    kind = kind;
    reason = reason;
  })

-- the point-accounting identity
unfoldable pub balances : Deltas → Bool
balances d =
    is_finite (accounted d) && is_close one_billionth one_billionth d.points_delta (accounted d)

-- `parse_reward(raw)`. Every refusal is one error, so the tests may stand in another order.
unfoldable pub parse_reward : RewardWire → Shaped RawReward → Admitted Reward
parse_reward wire raw = do
  value ← shape raw
  require_reward_version wire value.reward_version
  life ← parse_life value
  times ← parse_chronology wire value
  state ← parse_state value.state
  deltas ← parse_deltas value.deltas
  guard (not (text_eq times.kind initial) || all_zero deltas) reward_contract_error
  guard (balances deltas) reward_contract_error
  control ← parse_control wire value.control (int_hex times.to)
  ok (record {
    life = life;
    observation_sequence = times.sequence;
    previous_observation_sequence = times.predecessor;
    from_step = times.from;
    to_step = times.to;
    transition_kind = times.kind;
    reason = times.reason;
    state = state;
    deltas = deltas;
    control = control;
  })
