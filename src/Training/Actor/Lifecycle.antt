-- ===== src/Training/Actor/Lifecycle.antt =====
-- Closures, assignments and lost connections: `_handle_transition`, `_on_assign`,
-- `_handle_state_replaced` and the exceptions of `run`.
use py_rl_trainer.Prelude.{
  ℕ, suc, ◌+◌, ◌-◌, ◌%◌, ◌^◌, Bool, true, false, not, ◌&&◌, ◌||◌, Option, none, some, List, [], ◌∷◌,
  ◌++◌, Result, ok, err, ◌==◌, if◌then◌else◌,
}
use py_rl_trainer.Prelude.Int.{ℤ, pos}
use py_rl_trainer.Wire.{Value, null, bool, int, str}
use py_rl_trainer.Wire.Str.{Text, codes, text_eq}
use py_rl_trainer.Wire.Hex.{int_hex}
use py_rl_trainer.Reward.{
  Admitted, Shaped, Reward, reward_contract_error, reward_discontinuity_error,
}
use py_rl_trainer.Reward.Parse.{RawReward, parse_reward, terminal, truncated}
use py_rl_trainer.Reward.Stream.{RewardStream, discard_closure}
use py_rl_trainer.Evaluation.{new_episode}
use py_rl_trainer.Training.{Observation, Transition, one}
use py_rl_trainer.Training.Exec.{pure, raise, lift, get, modify, update, ensure, ◌>>=◌, ◌>>◌, when}
use py_rl_trainer.Training.Actor.{
  ActorConfig, ActorClient, ActorError, Endpoint, reward_error, sensor_contract_error,
  runtime_error, evaluation_complete, disconnected, ended_episode, clear_unfinished_actions,
  reset_per_snake_state,
}
use py_rl_trainer.Training.Actor.Credit.{finish_credited_action, is_some}
use py_rl_trainer.Training.Actor.Collection.{refresh_collection_epoch, observe_collection_fence}
use py_rl_trainer.Training.Actor.Rewards.{
  Act, admitted, accept_reward, account_reward, observe_command_metadata,
}
use py_rl_trainer.Training.Actor.Handlers.{
  World, finish_evaluation, truncate_disconnected_rollout, bootstrapped,
}
use py_rl_trainer.Training.Actor.Sensors.{TransitionMessage, fits, present}

-- the final observation of a truncated life
abbrev pub final_observation :
    ActorClient → Bool → TransitionMessage → Result ActorError (Option Observation)
final_observation s true msg =
    if msg.has_sensors then err (reward_error reward_contract_error) else ok none
final_observation s false msg = elim msg.final_sensors [
  | none ↦ err disconnected
  | some obs ↦ if fits s obs then ok (some obs) else err (reward_error reward_contract_error)
]

abbrev pub discarded : ActorClient → Admitted RewardStream → Result ActorError ActorClient
discarded s (err e) = err (reward_error e)
discarded s (ok stream) = ok (record s {
  reward_stream = stream;
  reward_rebase = false;
  discarded_reward_intervals = s.discarded_reward_intervals + 1;
})

abbrev pub discard_for :
    ActorConfig → Shaped RawReward → ActorClient → Option ℕ → Result ActorError ActorClient
discard_for cfg raw s none = err (reward_error reward_discontinuity_error)
discard_for cfg raw s (some snake_id) =
    discarded s (discard_closure cfg.wire s.reward_stream raw snake_id)

-- the closure of a life across a gap, for which nothing is paid
unfoldable pub discard_reward :
    ActorConfig → Shaped RawReward → ActorClient → Result ActorError ActorClient
discard_reward cfg raw s = discard_for cfg raw s s.snake_id

abbrev pub closing_reward : ActorConfig → Shaped RawReward → Bool → Act (Option Reward)
closing_reward cfg raw true = do update (discard_reward cfg raw); pure none
closing_reward cfg raw false = accept_reward cfg raw

abbrev pub done_last : ℕ → List Transition → List Transition
done_last value [] = []
done_last value (t ∷ []) = record t { done = value } ∷ []
done_last value (t ∷ (next ∷ rest)) = t ∷ done_last value (next ∷ rest)

-- a closure at the step at which the rollout ends
abbrev pub closed_at : Bool → ℕ → Option Observation → ActorClient → Option Endpoint → ActorClient
closed_at has_died step final s none = s
closed_at has_died step final s (some (end_, obs)) =
    if end_ == step
    then record s {
      rollout = done_last (if has_died then one else 0) s.rollout;
      rollout_end = some (step, final);
    }
    else s

unfoldable pub close_rollout : Bool → ℕ → Option Observation → ActorClient → ActorClient
close_rollout has_died step final s = closed_at has_died step final s s.rollout_end

-- `0 if self.last_assign_tick is None else max(0, self.last_sensor_tick - self.last_assign_tick)`
abbrev pub lifetime : Option ℕ → ℕ → ℤ
lifetime none last = pos 0
lifetime (some assigned) last = pos (last - assigned)

-- `_record_episode`
unfoldable pub record_episode : ActorConfig → ℤ → Text → Text → ActorClient → ActorClient
record_episode cfg ticks kind reason s =
    if cfg.evaluation
    then finish_evaluation cfg kind reason s.episode_integrity s
    else record s { calls = s.calls ++ (ended_episode s.episode_return ticks ∷ []) }

abbrev pub reason_of : Option Text → Text
reason_of none = []
reason_of (some reason) = reason

-- `_handle_transition(msg)`
unfoldable pub handle_transition : ActorConfig → World → TransitionMessage → Act (Unit {0})
handle_transition cfg world msg = do
  update (refresh_collection_epoch cfg)
  raw ← lift (admitted (parse_reward cfg.wire msg.reward))
  let has_died = text_eq raw.transition_kind terminal
  ensure (has_died || text_eq raw.transition_kind truncated) (reward_error reward_contract_error)
  s ← get
  final ← lift (final_observation s has_died msg)
  reward ← closing_reward cfg msg.reward s.reward_rebase
  observe_command_metadata cfg raw
  modify (observe_collection_fence cfg)
  account_reward cfg world.cutoff_value reward final
  let step = int_hex raw.to_step
  modify (λ s. record s { last_sensor_tick = some step })
  modify finish_credited_action
  modify (close_rollout has_died step final)
  modify clear_unfinished_actions
  update (bootstrapped cfg world.cutoff_value)
  modify (λ s. record s { episode_closed = true })
  modify (λ s.
      record_episode cfg (lifetime s.last_assign_tick step) raw.transition_kind
        (reason_of raw.reason) s)

-- An assignment, by its fields.
pub record Assignment : Type 0 where
  pub snake_id : Value
  pub resume_token : Value
  pub reclaimed : Bool
  pub replacement_reason : Value

-- `replacement_reason in (None, "generation")`
abbrev pub is_replacement : Value → Bool
is_replacement null = true
is_replacement (str text) = text_eq text (codes "generation")
is_replacement value = false

-- an int above 0; `True` is one
abbrev pub positive_int : Value → Option ℕ
positive_int (int (pos (suc n))) = some (suc n)
positive_int (bool true) = some 1
positive_int value = none

abbrev pub token_of : Value → Option Text
token_of (str (c ∷ text)) = some (c ∷ text)
token_of value = none

abbrev pub reclaim : ℕ → Text → ActorClient → Option ℕ → Result ActorError ActorClient
reclaim snake_id token s none = err runtime_error
reclaim snake_id token s (some previous) =
    if snake_id == previous
    then ok (record s {
      resume_token = some token;
      last_sent_tick = none;
      reward_rebase = true;
      episode_integrity = false;
    })
    else err runtime_error

-- `_start_evaluation_policy`
unfoldable pub start_evaluation_policy : ActorConfig → World → ActorClient → ActorClient
start_evaluation_policy cfg world s =
    if cfg.evaluation
    then record s {
      evaluation_episode = some (
          new_episode world.frozen.0 world.frozen.1
            (pos ((cfg.evaluation_seed + s.episodes) % 2 ^ 63)) cfg.evaluation_max_seconds);
    }
    else s

-- a new life
unfoldable pub begin_life : ActorConfig → World → ℕ → Text → Option ℕ → ActorClient → ActorClient
unfolding start_evaluation_policy
begin_life cfg world snake_id token now_tick s =
    let life =
      reset_per_snake_state (record s { snake_id = some snake_id; resume_token = some token }) in
    let started = start_evaluation_policy cfg world life in
    record started { episodes = started.episodes + 1; last_assign_tick = now_tick }

-- the old life had begun and was not closed
unfoldable pub is_unclosed : ActorClient → Bool
is_unclosed s = is_some s.snake_id && not s.episode_closed && s.reward_has_observation

-- `_on_assign(…)`
unfoldable pub on_assign : ActorConfig → World → Assignment → Act (Unit {0})
on_assign cfg world msg = do
  ensure (is_replacement msg.replacement_reason) (reward_error reward_contract_error)
  snake_id ← present (positive_int msg.snake_id) runtime_error
  token ← present (token_of msg.resume_token) runtime_error
  s ← get
  if msg.reclaimed then update (λ t. reclaim snake_id token t t.snake_id) else (do
    ensure (not (is_unclosed s && s.episode_integrity)) (reward_error reward_contract_error)
    when (is_unclosed s) (truncate_disconnected_rollout cfg world)
    modify (begin_life cfg world snake_id token s.last_sensor_tick))

abbrev pub forget_snake : ActorClient → ActorClient
forget_snake s = record s {
  snake_id = none;
  resume_token = none;
  last_sensor_tick = none;
  last_assign_tick = none;
}

-- `_handle_state_replaced`, once its fields are valid and up to the new welcome
unfoldable pub replace_state : ActorConfig → World → Act (Unit {0})
replace_state cfg world = do
  modify (finish_evaluation cfg (codes "incomplete") (codes "stateReplaced") false)
  truncate_disconnected_rollout cfg world
  modify (λ s. reset_per_snake_state (forget_snake s))

-- `_handshake` on a `reclaimResult` that is not reclaimed, up to the new join
unfoldable pub refuse_reclaim : ActorConfig → World → Act (Unit {0})
refuse_reclaim cfg world = do truncate_disconnected_rollout cfg world; modify forget_snake

-- `run` on an exception of the connection: a contract error ends the actor, a finished evaluation
-- begins anew, and any other truncates the rollout
unfoldable pub recover : ActorConfig → World → ActorError → Act (Unit {0})
recover cfg world evaluation_complete = modify (λ s. reset_per_snake_state (forget_snake s))
recover cfg world sensor_contract_error = raise sensor_contract_error
recover cfg world (reward_error e) = raise (reward_error e)
recover cfg world runtime_error = truncate_disconnected_rollout cfg world
recover cfg world disconnected = truncate_disconnected_rollout cfg world
