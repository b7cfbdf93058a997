-- ===== src/Training/Actor/Sensors.antt =====
-- Observations and the actions that answer them: `_handle_sensors`, `_observation_and_reward` and `_send_action`.
use py_rl_trainer.Prelude.{
  ℕ, ◌+◌, ◌-◌, ◌/◌, ◌%◌, ◌^◌, Bool, true, false, not, ◌&&◌, ◌||◌, Option, none, some, List, [], ◌∷◌,
  ◌++◌, Result, ok, err, leb, ◌==◌, length, if◌then◌else◌,
}
use py_rl_trainer.Prelude.Int.{pos}
use py_rl_trainer.Wire.{Value, int}
use py_rl_trainer.Wire.Str.{Text, text_eq}
use py_rl_trainer.Wire.Hex.{int_hex, hex16}
use py_rl_trainer.Reward.{Shaped, reward_contract_error, reward_discontinuity_error}
use py_rl_trainer.Reward.Parse.{RawReward, parse_reward, initial, live}
use py_rl_trainer.Evaluation.{no_components}
use py_rl_trainer.Distillation.Client.Descriptor.{value_eq_nat}
use py_rl_trainer.Training.{Observation, Transition}
use py_rl_trainer.Training.Exec.{pure, raise, lift, get, modify, update, ensure, ◌>>=◌, ◌>>◌, when}
use py_rl_trainer.Training.Actor.{
  ActorConfig, ActorClient, ActorError, reward_error, sensor_contract_error, runtime_error,
  disconnected, collection_open, training_collection_open,
}
use py_rl_trainer.Training.Actor.Credit.{is_some}
use py_rl_trainer.Training.Actor.Collection.{
  refresh_collection_epoch, submit_training_rollout, observe_collection_fence,
  record_collection_command,
}
use py_rl_trainer.Training.Actor.Rewards.{
  Act, admitted, accept_reward, account_reward, observe_command_metadata,
}
use py_rl_trainer.Training.Actor.Handlers.{Sample, World, check_evaluation_limit}

-- Sensors and lifecycle messages, by the fields that the handlers read. `sensors` is what
-- `np.asarray(…, dtype=np.float32)` makes of the field, none where it raises;
-- an array of another rank stands as one of another length.
pub record SensorMessage : Type 0 where
  pub snake_id : Value
  pub tick : Value
  pub sensors : Option Observation
  pub reward : Shaped RawReward

pub record TransitionMessage : Type 0 where
  pub has_sensors : Bool
  pub final_sensors : Option Observation
  pub reward : Shaped RawReward

-- `np.isfinite` of a float32 pattern
unfoldable pub all_finite32 : Observation → Bool
all_finite32 [] = true
all_finite32 (x ∷ obs) = not (x / 2 ^ 23 % 256 == 255) && all_finite32 obs

abbrev pub value_is : Value → Option ℕ → Bool
value_is value none = false
value_is value (some n) = value_eq_nat value n

-- a tick that is an int and no bool, and not negative
abbrev pub tick_of : Value → Option ℕ
tick_of (int (pos n)) = some n
tick_of value = none

abbrev pub present : {A : Type 0} → Option A → ActorError → Act A
present none e = raise e
present (some a) e = pure a

-- `obs.shape == (len(self.sensor_order),) and np.isfinite(obs).all()`
unfoldable pub fits : ActorClient → Observation → Bool
unfolding all_finite32
fits s obs = length obs == s.sensor_count && all_finite32 obs

abbrev pub first_tick : Option ℕ → ℕ → Option ℕ
first_tick none tick = some tick
first_tick (some old) tick = some old

-- `_observation_and_reward(msg)`. The admitted envelope is parsed once more by `accept`, from the
-- same fields.
unfoldable pub observation_and_reward : ActorConfig → World → SensorMessage → Act (Observation × ℕ)
observation_and_reward cfg world msg = do
  s ← get
  ensure (value_is msg.snake_id s.snake_id) (reward_error reward_discontinuity_error)
  obs ← present msg.sensors disconnected
  ensure (fits s obs) sensor_contract_error
  raw ← lift (admitted (parse_reward cfg.wire msg.reward))
  ensure (text_eq raw.transition_kind initial || text_eq raw.transition_kind live)
      (reward_error reward_contract_error)
  tick ← present (tick_of msg.tick) (reward_error reward_contract_error)
  ensure (int_hex raw.to_step == tick) (reward_error reward_contract_error)
  reward ← accept_reward cfg msg.reward
  observe_command_metadata cfg raw
  modify (observe_collection_fence cfg)
  account_reward cfg world.cutoff_value reward (some obs)
  modify (λ s. record s {
    last_sensor_tick = some tick;
    last_assign_tick = first_tick s.last_assign_tick tick;
  })
  pure (obs, tick)

-- `_should_send_action(tick)`: the stride is at least one
abbrev pub is_due : Option ℕ → ℕ → ℕ → Bool
is_due none stride tick = true
is_due (some last) stride tick = not (last == tick) && leb (last + stride) tick

abbrev pub max_unconfirmed_actions : ℕ
max_unconfirmed_actions = 256

abbrev pub without_oldest : List (Text × Transition) → List (Text × Transition)
without_oldest [] = []
without_oldest (oldest ∷ rest) = rest

unfoldable pub issued_sample : Observation → Sample → ℕ → ℕ → Text → Transition
issued_sample obs sample version tick identity = record {
  obs = obs;
  action_turn = sample.turn;
  turn_latent = sample.turn_latent;
  action_boost = sample.boost;
  logp = sample.logp;
  value = sample.value;
  reward = 0;
  done = 0;
  policy_version = version;
  reward_components = no_components;
  elapsed_seconds = 0;
  alive_seconds = 0;
  action_id = some identity;
  action_tick = some tick;
  bootstrap_override = none;
}

-- `issued[identity] = Transition(…)`, the oldest one deleted at the bound
unfoldable pub track_sample : Text → Transition → ActorClient → ActorClient
track_sample identity t s =
    let issued = s.issued_transitions in
    record s {
      issued_transitions =
          (if leb max_unconfirmed_actions (length issued) then without_oldest issued else issued)
          ++ ((identity, t) ∷ []);
    }

-- `_send_action(ws, tick, turn, boost)` up to the `await`: the identity is taken
unfoldable pub take_identity : ActorClient → Result ActorError ActorClient
take_identity s =
    if leb (2 ^ 64 - 1) s.action_id_counter
    then err (reward_error reward_contract_error)
    else ok (record s { action_id_counter = s.action_id_counter + 1 })

-- and from its return on
unfoldable pub sent_action : ℕ → ℕ × ℕ → ActorClient → ActorClient
sent_action tick (epoch, version) s = record s {
  collection_epoch = epoch;
  published_policy_version = version;
  commands =
      s.commands
      ++ (record { tick = tick; snake_id = s.snake_id; identity = hex16 s.action_id_counter } ∷ []);
  last_issued_action_id = s.action_id_counter;
  last_sent_tick = some tick;
}

-- the rest of `_handle_sensors`, from `_sample_action` on
unfoldable pub send_sample : ActorConfig → World → Observation → ℕ → Act (Unit {0})
send_sample cfg world obs tick = do
  before ← get
  ensure (not cfg.evaluation || is_some before.evaluation_episode) runtime_error
  update take_identity
  waiting ← get
  moment ← present (world.sent waiting) disconnected
  modify (sent_action tick moment)
  let identity = hex16 (before.action_id_counter + 1)
  when (collection_open cfg before) (
      modify (
        track_sample identity
          (issued_sample obs (world.act obs) before.published_policy_version tick identity)))
  modify (record_collection_command cfg identity)

-- `if self._training_collection_open() and len(self.rollout) >= self.cfg.horizon`
unfoldable pub submit_full : ActorConfig → World → ActorClient → Result ActorError ActorClient
submit_full cfg world s =
    if training_collection_open cfg s && leb cfg.horizon (length s.rollout)
    then submit_training_rollout cfg world.cutoff_value none false s
    else ok s

unfoldable pub observe_and_act : ActorConfig → World → SensorMessage → Act (Unit {0})
observe_and_act cfg world msg = do
  (obs, tick) ← observation_and_reward cfg world msg
  check_evaluation_limit cfg
  modify (λ s. record s { last_obs = some obs })
  update (submit_full cfg world)
  s ← get
  when (is_due s.last_sent_tick s.stride tick && not world.rate_limited)
      (send_sample cfg world obs tick)

-- `_handle_sensors(msg, ws)`
unfoldable pub handle_sensors : ActorConfig → World → SensorMessage → Act (Unit {0})
handle_sensors cfg world msg = do
  update (refresh_collection_epoch cfg)
  s ← get
  when (is_some s.snake_id) (observe_and_act cfg world msg)
