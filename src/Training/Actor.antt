-- ===== src/Training/Actor.antt =====
-- `ActorClient` of agent.py as `SynchronousActorClient` of sync_ppo.py extends it: its state.
pub mod Credit
pub mod Order
pub mod Collection
pub mod Rewards
pub mod Handlers
pub mod Sensors
pub mod Lifecycle
pub mod Core
pub mod Invariant
pub mod Runs
pub mod Sending
pub mod Once
pub mod Settled
mod Tests
use py_rl_trainer.Prelude.{
  ℕ, ◌+◌, Bool, true, false, not, ◌&&◌, Option, none, some, List, [], ◌∷◌, ◌==◌, if◌then◌else◌,
}
use py_rl_trainer.Prelude.Int.{ℤ}
use py_rl_trainer.Wire.Str.{Text}
use py_rl_trainer.Reward.{RewardError, RewardWire, Reward}
use py_rl_trainer.Reward.Components.{RewardCoefficients}
use py_rl_trainer.Reward.Stream.{RewardStream, new_stream}
use py_rl_trainer.Evaluation.{EvaluationEpisode, EvaluationResult}
use py_rl_trainer.Training.{Observation, Transition}
use py_rl_trainer.Training.Barrier.{Message}

-- What a method of the actor can raise. `disconnected` stands for the exceptions of the socket and
-- of conversions that `run` treats as a lost connection.
pub data ActorError : Type 0 where
  reward_error : RewardError → ActorError
  sensor_contract_error runtime_error evaluation_complete disconnected : ActorError

-- The calls of an actor on `shared_state`, by their arguments.
pub data Call : Type 0 where
  received_reward : Reward → Call
  command_counts : ℤ → ℤ → ℤ → Call
  command_delay : ℕ → Call
  fence_interval : ℕ → Call
  admitted_rollout : List Transition → Call
  ended_episode : ℕ → ℤ → Call
  evaluation_result : EvaluationResult → Call

-- An action message that was sent.
pub record IssuedCommand : Type 0 where
  pub tick : ℕ
  pub snake_id : Option ℕ
  pub identity : Text

-- `cfg`, the actor's number, and the literals of the wire
pub record ActorConfig : Type 0 where
  pub actor_id : ℕ
  pub evaluation : Bool
  pub horizon : ℕ
  pub evaluation_seed : ℕ
  pub evaluation_max_seconds : ℕ
  pub coefficients : RewardCoefficients
  pub wire : RewardWire

-- The end of a credited interval: its step and the observation there, `None` after a death.
abbrev pub Endpoint : Type 0
Endpoint = ℕ × Option Observation

-- The fields of the actor, less those that only its log lines read. `collection_epoch` and
-- `published_policy_version` are those of `shared_state`; `contributions` are what the actor has put
-- on the queue, `commands` what it has sent and `calls` its calls on `shared_state`, in order.
pub record ActorClient : Type 0 where
  pub snake_id : Option ℕ
  pub resume_token : Option Text
  pub stride : ℕ
  pub sensor_count : ℕ
  pub last_sent_tick : Option ℕ
  pub last_obs : Option Observation
  pub rollout : List Transition
  pub episodes : ℕ
  pub last_sensor_tick : Option ℕ
  pub last_assign_tick : Option ℕ
  pub pending_transition : Option Transition
  pub issued_transitions : List (Text × Transition)
  pub credit_end : Option Endpoint
  pub rollout_end : Option Endpoint
  pub episode_return : ℕ
  pub reward_stream : RewardStream
  pub reward_rebase : Bool
  pub reward_has_observation : Bool
  pub episode_closed : Bool
  pub episode_integrity : Bool
  pub discarded_reward_intervals : ℕ
  pub evaluation_episode : Option EvaluationEpisode
  pub action_id_counter : ℕ
  pub last_issued_action_id : ℕ
  pub last_reward_envelope : Option Reward
  pub submitted_collection_epoch : Option ℕ
  pub active_collection_epoch : ℕ
  pub fence_required : Bool
  pub fence_action_id : Option ℕ
  pub collection_epoch : ℕ
  pub published_policy_version : ℕ
  pub contributions : List Message
  pub commands : List IssuedCommand
  pub calls : List Call

-- `SynchronousActorClient(...)`, when the learner stands at an epoch and a policy version
unfoldable pub new_actor : ℕ → ℕ → ActorClient
new_actor epoch version = record {
  snake_id = none;
  resume_token = none;
  stride = 1;
  sensor_count = 0;
  last_sent_tick = none;
  last_obs = none;
  rollout = [];
  episodes = 0;
  last_sensor_tick = none;
  last_assign_tick = none;
  pending_transition = none;
  issued_transitions = [];
  credit_end = none;
  rollout_end = none;
  episode_return = 0;
  reward_stream = new_stream;
  reward_rebase = false;
  reward_has_observation = false;
  episode_closed = false;
  episode_integrity = true;
  discarded_reward_intervals = 0;
  evaluation_episode = none;
  action_id_counter = 0;
  last_issued_action_id = 0;
  last_reward_envelope = none;
  submitted_collection_epoch = none;
  active_collection_epoch = epoch;
  fence_required = false;
  fence_action_id = none;
  collection_epoch = epoch;
  published_policy_version = version;
  contributions = [];
  commands = [];
  calls = [];
}

-- `self._submitted_collection_epoch != current`
abbrev pub is_epoch : Option ℕ → ℕ → Bool
is_epoch none epoch = false
is_epoch (some submitted) epoch = submitted == epoch

-- `_collection_open`, and `_can_track_action`
unfoldable pub collection_open : ActorConfig → ActorClient → Bool
collection_open cfg s =
    not cfg.evaluation && not (is_epoch s.submitted_collection_epoch s.collection_epoch)

-- `_training_collection_open`
unfoldable pub training_collection_open : ActorConfig → ActorClient → Bool
unfolding collection_open
training_collection_open cfg s = collection_open cfg s && not s.fence_required

-- `_clear_unfinished_actions`
unfoldable pub clear_unfinished_actions : ActorClient → ActorClient
clear_unfinished_actions s = record s {
  pending_transition = none;
  credit_end = none;
  issued_transitions = [];
}

-- `self.rollout.clear()` with `self._rollout_end = None`
unfoldable pub clear_rollout : ActorClient → ActorClient
clear_rollout s = record s { rollout = []; rollout_end = none }

-- `_reset_per_snake_state`
unfoldable pub reset_per_snake_state : ActorClient → ActorClient
unfolding clear_rollout clear_unfinished_actions
reset_per_snake_state s =
    let cleared = clear_rollout (clear_unfinished_actions s) in
    record cleared {
      last_obs = none;
      last_sent_tick = none;
      episode_return = 0;
      reward_stream = new_stream;
      reward_rebase = false;
      reward_has_observation = false;
      episode_closed = false;
      episode_integrity = true;
      evaluation_episode = none;
      last_reward_envelope = none;
    }
