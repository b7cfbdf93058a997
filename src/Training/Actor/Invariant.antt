-- ===== src/Training/Actor/Invariant.antt =====
-- What every handler of the actor keeps, from what its single steps keep.
pub mod Handled
pub mod Lives
use py_rl_trainer.Prelude.{
  ℕ, ◌+◌, ◌≡◌, refl, ◌∙◌, Bool, true, false, Option, none, some, List, [], ◌∷◌, ◌++◌, Result, ok,
  err, not, ◌&&◌, ◌||◌, ◌==◌, leb, if◌then◌else◌, length, Bool-cases, inl, inr, arith,
}
use py_rl_trainer.Wire.Str.{Text}
use py_rl_trainer.Reward.{Shaped, Reward, Command}
use py_rl_trainer.Reward.Components.{Components}
use py_rl_trainer.Reward.Parse.{RawReward}
use py_rl_trainer.Training.{Observation}
use py_rl_trainer.Training.Exec.{
  Exec, pure, raise, lift, get, modify, update, ensure, ◌>>=◌, ◌>>◌, when,
}
use py_rl_trainer.Training.Exec.Keeps.{
  Keeps, Keeps-modify, Keeps-update, Keeps-bind, Keeps-if, Keeps-when, Keeps-pure, Keeps-raise,
  Keeps-lift, Keeps-get, Keeps-ensure,
}
use py_rl_trainer.Training.Actor.{
  ActorConfig, ActorClient, ActorError, reward_error, sensor_contract_error, runtime_error,
  evaluation_complete, disconnected, clear_unfinished_actions, clear_rollout,
  training_collection_open, reset_per_snake_state,
}
use py_rl_trainer.Training.Actor.Credit.{finish_credited_action, select_credit, pay_pending}
use py_rl_trainer.Training.Actor.Collection.{
  refresh_collection_epoch, submit_training_rollout, observe_collection_fence, count_fenced,
}
use py_rl_trainer.Training.Actor.Rewards.{
  Act, validate_echoed_command, observe_command_metadata, account_interval, account_reward,
  accept_reward, receive_evaluation, count_commands,
}
use py_rl_trainer.Training.Actor.Handlers.{
  World, finish_evaluation, check_evaluation_limit, truncate_disconnected_rollout, bootstrapped,
}
use py_rl_trainer.Training.Actor.Sensors.{
  SensorMessage, TransitionMessage, present, observation_and_reward, submit_full, send_sample,
  observe_and_act, handle_sensors,
}
use py_rl_trainer.Training.Actor.Lifecycle.{
  Assignment, close_rollout, closing_reward, discard_reward, handle_transition, record_episode,
  on_assign, begin_life, start_evaluation_policy, reclaim, replace_state, recover, forget_snake,
}
use py_rl_trainer.Training.Actor.Core.{
  core, count_fenced-core, count_commands-core, finish_evaluation-core, accept_reward-core,
  receive_evaluation-core, discard_reward-core, start_evaluation_policy-core, reclaim-core,
}

-- `Q` depends on the core fields only, and stays when samples are dropped.
pub record IsResting (Q : ActorClient → Type 0) : Type 0 where
  pub respects : (s t : ActorClient) → core t ≡ core s → Q s → Q t
  pub forgets : (s : ActorClient) → Q s → Q (clear_unfinished_actions s)
  pub clears : (s : ActorClient) → Q s → Q (clear_rollout s)

-- `Q` holds between messages and `P` from the refresh of the epoch on: `P` depends on the core
-- fields only, and the steps that change them keep it.
pub record IsInvariant (cfg : ActorConfig) (P Q : ActorClient → Type 0) : Type 0 where
  pub resting : IsResting Q
  pub weakens : (s : ActorClient) → P s → Q s
  pub refreshes : (s t : ActorClient) → Q s → refresh_collection_epoch cfg s ≡ ok t → P t
  pub respects : (s t : ActorClient) → core t ≡ core s → P s → P t
  pub finishes : (s : ActorClient) → P s → P (finish_credited_action s)
  pub forgets : (s : ActorClient) → P s → P (clear_unfinished_actions s)
  pub selects :
      (cutoff_value : Observation → ℕ) (reward : Reward) (s : ActorClient)
      → P s
      → P (select_credit cfg cutoff_value reward s)
  pub pays :
      (reward : Reward) (observation : Option Observation) (parts : Components) (total : ℕ)
      (s t : ActorClient)
      → P s
      → pay_pending cfg reward observation parts total s ≡ ok t
      → P t
  pub submits :
      (cutoff_value : Observation → ℕ) (bootstrap : Option ℕ) (allow_empty : Bool)
      (s t : ActorClient)
      → P s
      → submit_training_rollout cfg cutoff_value bootstrap allow_empty s ≡ ok t
      → P t
  pub observes : (s : ActorClient) → P s → P (observe_collection_fence cfg s)
  pub echoes :
      (command previous : Option Command) (s t : ActorClient)
      → P s
      → validate_echoed_command command previous s ≡ ok t
      → P t
  pub closes :
      (has_died : Bool) (step : ℕ) (final : Option Observation) (s : ActorClient)
      → P s
      → P (close_rollout has_died step final s)

module _ {cfg : ActorConfig} {P Q : ActorClient → Type 0} (inv : IsInvariant cfg P Q) where
  -- a step outside the core
  pub Keeps-core :
      (f : ActorClient → ActorClient)
      → ((s : ActorClient) → core (f s) ≡ core s)
      → Keeps P (modify {E = ActorError} f)
  Keeps-core f same = Keeps-modify f (λ s h. inv.respects s (f s) (same s) h)

  pub Keeps-core-update :
      (f : ActorClient → Result ActorError ActorClient)
      → ((s t : ActorClient) → f s ≡ ok t → core t ≡ core s)
      → Keeps P (update f)
  Keeps-core-update f same = Keeps-update f (λ s t h e. inv.respects s t (same s t e) h)

  pub Keeps-core_call :
      {A : Type 0} (m : Act A) → ((s : ActorClient) → core (m s).1 ≡ core s) → Keeps P m
  Keeps-core_call m same = record { at = λ s h. inv.respects s (m s).1 (same s) h }

  pub Keeps-present : {A : Type 0} (o : Option A) (e : ActorError) → Keeps P (present o e)
  Keeps-present none e = Keeps-raise e
  Keeps-present (some a) e = Keeps-pure a

  pub observe_command_metadata-Keeps :
      (reward : Reward) → Keeps P (observe_command_metadata cfg reward)
  unfolding observe_command_metadata
  observe_command_metadata-Keeps reward = Keeps-bind Keeps-get (λ before.
      Keeps-bind (Keeps-ensure _ _) (λ _. Keeps-bind (Keeps-update _ (inv.echoes _ _)) (λ _.
        Keeps-bind (Keeps-update _ (inv.echoes _ _)) (λ _.
          Keeps-bind
            (Keeps-core _ (count_commands-core cfg reward.control before.last_reward_envelope))
            (λ _. Keeps-core _ (λ s. refl))))))

  pub account_interval-Keeps :
      (cutoff_value : Observation → ℕ) (reward : Reward) (observation : Option Observation)
      → Keeps P (account_interval cfg cutoff_value reward observation)
  unfolding account_interval
  account_interval-Keeps cutoff_value reward observation =
      Keeps-bind (Keeps-core _ (count_fenced-core cfg reward)) (λ _.
        Keeps-bind (Keeps-lift _) (λ parts. Keeps-bind Keeps-get (λ before.
          Keeps-bind (Keeps-ensure _ _) (λ _.
            Keeps-bind (Keeps-modify _ (inv.selects cutoff_value reward)) (λ _.
              Keeps-bind (Keeps-update _ (inv.pays reward observation parts _)) (λ _.
                Keeps-bind (Keeps-core _ (λ s. refl)) (λ _.
                  Keeps-bind
                    (Keeps-when cfg.evaluation
                      (Keeps-core_call _ (receive_evaluation-core reward parts)))
                    (λ _. Keeps-when (not cfg.evaluation) (Keeps-core _ (λ s. refl))))))))))

  pub account_reward-Keeps :
      (cutoff_value : Observation → ℕ) (reward : Option Reward) (observation : Option Observation)
      → Keeps P (account_reward cfg cutoff_value reward observation)
  account_reward-Keeps cutoff_value none observation = Keeps-pure tt
  account_reward-Keeps cutoff_value (some reward) observation =
      account_interval-Keeps cutoff_value reward observation
