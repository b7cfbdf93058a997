-- ===== src/Reward/Stream.antt =====
-- `RewardStream`: admission of the intervals of one life, with the explicit ways out of a gap.
pub mod Admission
pub mod Conservation
pub mod Reach
pub mod Closing
use py_rl_trainer.Prelude.{
  ℕ, Bool, true, false, not, ◌&&◌, ◌||◌, Option, none, some, ok, ◌>>=◌, ◌>>◌, guard, ◌==◌,
}
use py_rl_trainer.Prelude.Int.{ℤ, ◌-ℤ◌, pos, negsuc}
use py_rl_trainer.Wire.Str.{Text, text_eq}
use py_rl_trainer.Reward.{
  Admitted, Shaped, RewardWire, Life, BodyState, ControlState, Reward, reward_discontinuity_error,
}
use py_rl_trainer.Reward.Control.{optional_eq, control_progress}
use py_rl_trainer.Reward.Parse.{RawReward, parse_reward, initial, live, terminal, truncated}

pub record RewardStream : Type 0 where
  pub life : Option Life
  pub sequence : Option Text
  pub step : Option Text
  pub closed : Bool
  pub state : Option BodyState
  pub control : Option ControlState

-- `RewardStream()`
abbrev pub new_stream : RewardStream
new_stream = record {
  life = none;
  sequence = none;
  step = none;
  closed = false;
  state = none;
  control = none;
}

-- `==` of two `_life` tuples
unfoldable pub life_eq : Life → Life → Bool
life_eq a b =
    text_eq a.run_id b.run_id
    && text_eq a.world_epoch b.world_epoch
    && text_eq a.lease_id b.lease_id
    && text_eq a.physical_snake_id b.physical_snake_id
    && a.snake_id == b.snake_id

-- `self._life == _life(reward)`
unfoldable pub same_life : Option Life → Life → Bool
unfolding life_eq
same_life none life = false
same_life (some a) life = life_eq a life

unfoldable pub int_eq : ℤ → ℤ → Bool
int_eq (pos a) (pos b) = a == b
int_eq (negsuc a) (negsuc b) = a == b
int_eq _ _ = false

unfoldable pub is_closing : Text → Bool
is_closing kind = text_eq kind terminal || text_eq kind truncated

-- `self._state["startingLength"] != reward["state"]["startingLength"]`, within one life
unfoldable pub check_start : Option BodyState → Bool → BodyState → Admitted Unit
check_start (some previous) true current =
    guard (previous.starting_length == current.starting_length) reward_discontinuity_error
check_start _ same current = ok tt

unfoldable pub check_progress : Option ControlState → Bool → ControlState → Admitted Unit
check_progress (some previous) true current = control_progress previous current
check_progress _ same current = ok tt

-- the assignments at the end of `_commit`
unfoldable pub committed : Reward → RewardStream
unfolding is_closing
committed reward = record {
  life = some reward.life;
  sequence = some reward.observation_sequence;
  step = some reward.to_step;
  closed = is_closing reward.transition_kind;
  state = some reward.state;
  control = some reward.control;
}

-- `_commit`: nothing is assigned before the last check
unfoldable pub commit : RewardStream → Reward → Admitted RewardStream
commit stream reward = do
  check_start stream.state (same_life stream.life reward.life) reward.state
  check_progress stream.control (same_life stream.life reward.life) reward.control
  ok (committed reward)

-- the identity, predecessor and interval of an accepted reward
unfoldable pub continues : RewardStream → Reward → Bool
continues stream reward = elim stream.life [
  | none ↦ text_eq reward.transition_kind initial
  | some life ↦
      life_eq life reward.life
      && not (text_eq reward.transition_kind initial)
      && optional_eq reward.previous_observation_sequence stream.sequence
      && optional_eq (some reward.from_step) stream.step
]

-- the boundary states and the length deltas
unfoldable pub conserves : Option BodyState → Reward → Bool
conserves none reward = true
conserves (some previous) reward =
    reward.state.starting_length == previous.starting_length
    && int_eq (pos reward.state.body_length -ℤ pos previous.body_length) reward.deltas.length_delta
    && int_eq (pos reward.state.retained_growth -ℤ pos previous.retained_growth)
        reward.deltas.retained_growth_delta

-- `accept` of a parsed reward: the reward that is paid, and the stream after it
unfoldable pub admit_reward : RewardStream → Reward → ℕ → Admitted (Reward × RewardStream)
admit_reward stream reward snake_id = do
  guard (reward.life.snake_id == snake_id) reward_discontinuity_error
  guard (not stream.closed) reward_discontinuity_error
  guard (continues stream reward) reward_discontinuity_error
  guard (conserves stream.state reward) reward_discontinuity_error
  after ← commit stream reward
  ok (reward, after)

-- `accept(raw, snake_id=snake_id)`
unfoldable pub accept :
    RewardWire → RewardStream → Shaped RawReward → ℕ → Admitted (Reward × RewardStream)
accept wire stream raw snake_id = do
  reward ← parse_reward wire raw
  admit_reward stream reward snake_id

-- `rebase(raw, snake_id=snake_id)`: no reward is paid
unfoldable pub rebase : RewardWire → RewardStream → Shaped RawReward → ℕ → Admitted RewardStream
rebase wire stream raw snake_id = do
  reward ← parse_reward wire raw
  guard
      (reward.life.snake_id == snake_id
        && (text_eq reward.transition_kind initial || text_eq reward.transition_kind live))
      reward_discontinuity_error
  commit stream reward

-- `self._life is None or _life(reward) == self._life`
abbrev pub is_known : Option Life → Life → Bool
is_known none life = true
is_known (some a) life = life_eq a life

-- `discard_closure(raw, snake_id=snake_id)`
unfoldable pub discard_closure :
    RewardWire → RewardStream → Shaped RawReward → ℕ → Admitted RewardStream
discard_closure wire stream raw snake_id = do
  reward ← parse_reward wire raw
  guard
      (not stream.closed
        && reward.life.snake_id == snake_id
        && is_closing reward.transition_kind
        && is_known stream.life reward.life)
      reward_discontinuity_error
  commit stream reward
