-- ===== src/Training/Actor/Rewards.antt =====
-- `_accept_reward`, `_account_reward` and the command metadata of agent.py.
use py_rl_trainer.Prelude.{
  ℕ, ◌+◌, ◌-◌, Bool, true, false, not, ◌&&◌, Option, none, some, List, [], ◌∷◌, ◌++◌, Result, ok,
  err, ltb, leb, if◌then◌else◌,
}
use py_rl_trainer.Prelude.Int.{sub_ℕ}
use py_rl_trainer.Wire.Str.{Text, text_leb}
use py_rl_trainer.Wire.Hex.{int_hex}
use py_rl_trainer.Wire.Float.{float_add, is_finite}
use py_rl_trainer.Reward.{
  Shaped, Admitted, Reward, ControlState, Command, AppliedCommand, reward_contract_error,
  reward_discontinuity_error,
}
use py_rl_trainer.Reward.Components.{Components, total, reward_components}
use py_rl_trainer.Reward.Control.{commands_eq}
use py_rl_trainer.Reward.Parse.{RawReward}
use py_rl_trainer.Reward.Stream.{RewardStream, accept, rebase}
use py_rl_trainer.Evaluation.{EvaluationEpisode, receive}
use py_rl_trainer.Training.{Observation}
use py_rl_trainer.Training.Exec.{Exec, pure, lift, get, modify, update, ensure, ◌>>=◌, ◌>>◌, when}
use py_rl_trainer.Training.Actor.{
  ActorConfig, ActorClient, ActorError, reward_error, received_reward, command_counts,
  command_delay,
}
use py_rl_trainer.Training.Actor.Credit.{select_credit, pay_pending, is_some}
use py_rl_trainer.Training.Actor.Collection.{count_fenced}

abbrev pub Act : Type 0 → Type 0
Act A = Exec ActorError ActorClient A

-- a call of the reward contract
abbrev pub admitted : {A : Type 0} → Admitted A → Result ActorError A
admitted (ok a) = ok a
admitted (err e) = err (reward_error e)

-- the reward that `accept` pays, with the stream after it in the actor
abbrev pub taken :
    ActorClient → Admitted (Reward × RewardStream) → Result ActorError (Option Reward) × ActorClient
taken s (err e) = (err (reward_error e), s)
taken s (ok (reward, stream)) =
    (ok (some reward), record s { reward_stream = stream; reward_has_observation = true })

-- nothing is paid across a gap
abbrev pub rebased :
    ActorClient → Admitted RewardStream → Result ActorError (Option Reward) × ActorClient
rebased s (err e) = (err (reward_error e), s)
rebased s (ok stream) = (
  ok none,
  record s {
    reward_stream = stream;
    reward_rebase = false;
    discarded_reward_intervals = s.discarded_reward_intervals + 1;
    reward_has_observation = true;
  },
)

abbrev pub accept_for :
    ActorConfig
    → Shaped RawReward
    → ActorClient
    → Option ℕ
    → Result ActorError (Option Reward) × ActorClient
accept_for cfg raw s none = (err (reward_error reward_contract_error), s)
accept_for cfg raw s (some snake_id) =
    if s.episode_closed
    then (err (reward_error reward_discontinuity_error), s)
    else if s.reward_rebase
    then rebased s (rebase cfg.wire s.reward_stream raw snake_id)
    else taken s (accept cfg.wire s.reward_stream raw snake_id)

-- `_accept_reward(raw)`
unfoldable pub accept_reward : ActorConfig → Shaped RawReward → Act (Option Reward)
accept_reward cfg raw s = accept_for cfg raw s s.snake_id

abbrev pub received :
    ActorClient
    → Reward
    → Components
    → Option EvaluationEpisode
    → Result ActorError (Unit {0}) × ActorClient
received s reward parts none = (ok tt, s)
received s reward parts (some episode) =
    let (outcome, after) = receive episode reward parts in
    (admitted outcome, record s { evaluation_episode = some after })

-- `self.evaluation_episode.receive(reward, components)`
unfoldable pub receive_evaluation : Reward → Components → Act (Unit {0})
receive_evaluation reward parts s = received s reward parts s.evaluation_episode

-- the reward of one interval added to the return of the episode, credited and counted
unfoldable pub account_interval :
    ActorConfig → (Observation → ℕ) → Reward → Option Observation → Act (Unit {0})
account_interval cfg cutoff_value reward observation = do
  modify (count_fenced cfg reward)
  parts ← lift (admitted (reward_components reward cfg.coefficients))
  before ← get
  ensure (is_finite (float_add before.episode_return (total parts)))
      (reward_error reward_contract_error)
  modify (select_credit cfg cutoff_value reward)
  update (pay_pending cfg reward observation parts (total parts))
  modify (λ s. record s { episode_return = float_add before.episode_return (total parts) })
  when cfg.evaluation (receive_evaluation reward parts)
  when (not cfg.evaluation)
      (modify (λ s. record s { calls = s.calls ++ (received_reward reward ∷ []) }))

-- `_account_reward(reward, observation)`
abbrev pub account_reward :
    ActorConfig → (Observation → ℕ) → Option Reward → Option Observation → Act (Unit {0})
account_reward cfg cutoff_value none observation = pure tt
account_reward cfg cutoff_value (some reward) observation =
    account_interval cfg cutoff_value reward observation

-- `None if previous is None else previous["acceptedCommand"]`, and the applied one
abbrev pub accepted_of : Option Reward → Option Command
accepted_of none = none
accepted_of (some reward) = reward.control.accepted_command

abbrev pub command_of : Option AppliedCommand → Option Command
command_of none = none
command_of (some applied) = some applied.command

abbrev pub applied_of : Option Reward → Option Command
applied_of none = none
applied_of (some reward) = command_of reward.control.applied_command

abbrev pub action_id_of : Option Command → Option Text
action_id_of none = none
action_id_of (some command) = command.client_action_id

-- `identity <= previous["clientActionId"]`
abbrev pub is_replayed : Text → Option Text → Bool
is_replayed identity none = false
is_replayed identity (some old) = text_leb identity old

abbrev pub echo : ActorClient → Option Text → Option Text → Result ActorError ActorClient
echo s none old = if is_some old then err (reward_error reward_contract_error) else ok s
echo s (some identity) old =
    if ltb 0 s.last_issued_action_id && ltb s.action_id_counter (int_hex identity)
    then err (reward_error reward_contract_error)
    else if is_replayed identity old
    then err (reward_error reward_contract_error)
    else ok (record s {
      action_id_counter =
          if ltb s.action_id_counter (int_hex identity)
          then int_hex identity
          else s.action_id_counter;
    })

-- `_validate_echoed_command(command, previous)`
unfoldable pub validate_echoed_command :
    Option Command → Option Command → ActorClient → Result ActorError ActorClient
validate_echoed_command none previous s = ok s
validate_echoed_command (some command) previous s =
    if commands_eq (some command) previous
    then ok s
    else echo s command.client_action_id (action_id_of previous)

-- a command that was accepted without the identity that this client gives to every command
abbrev pub is_untagged : ActorClient → Option Reward → Option Command → Bool
is_untagged s none accepted = false
is_untagged s (some previous) none = false
is_untagged s (some previous) (some accepted) =
    ltb 0 s.last_issued_action_id
    && not (commands_eq (some accepted) previous.control.accepted_command)
    && not (is_some accepted.client_action_id)

-- the delay of a first application, where it is not negative
abbrev pub delays : Option AppliedCommand → List ℕ
delays none = []
delays (some applied) =
    if is_some applied.command.client_action_id
      && leb (int_hex applied.command.client_tick) (int_hex applied.first_applied_step)
    then (int_hex applied.first_applied_step - int_hex applied.command.client_tick) ∷ []
    else []

abbrev pub with_delays : List ℕ → ActorClient → ActorClient
with_delays [] s = s
with_delays (delay ∷ rest) s = record s { calls = s.calls ++ (command_delay delay ∷ []) }

abbrev pub count_commands : ActorConfig → ControlState → Option Reward → ActorClient → ActorClient
count_commands cfg control none s = s
count_commands cfg control (some previous) s =
    let counted = record s {
      calls =
          s.calls
          ++ (command_counts (sub_ℕ control.accepted_count previous.control.accepted_count)
                (sub_ℕ control.applied_count previous.control.applied_count)
                (sub_ℕ control.superseded_count previous.control.superseded_count)
              ∷ []);
    } in
    if cfg.evaluation
    then s
    else if ltb previous.control.applied_count control.applied_count
    then with_delays (delays control.applied_command) counted
    else counted

-- `_observe_command_metadata(reward)`
unfoldable pub observe_command_metadata : ActorConfig → Reward → Act (Unit {0})
observe_command_metadata cfg reward = do
  before ← get
  let previous = before.last_reward_envelope
  ensure (not (is_untagged before previous reward.control.accepted_command))
      (reward_error reward_contract_error)
  update (validate_echoed_command reward.control.accepted_command (accepted_of previous))
  update (validate_echoed_command (command_of reward.control.applied_command) (applied_of previous))
  modify (count_commands cfg reward.control previous)
  modify (λ s. record s { last_reward_envelope = some reward })
