-- ===== src/Training/Actor/Invariant/Lives.antt =====
-- What closures, assignments and lost connections keep.
use py_rl_trainer.Prelude.{ℕ, ◌≡◌, refl, Bool, true, false, Option, none, some}
use py_rl_trainer.Prelude.Int.{ℤ}
use py_rl_trainer.Wire.Str.{Text}
use py_rl_trainer.Reward.{Shaped}
use py_rl_trainer.Reward.Parse.{RawReward}
use py_rl_trainer.Training.Exec.Keeps.{
  Keeps, Keeps-modify, Keeps-update, Keeps-bind, Keeps-if, Keeps-when, Keeps-pure, Keeps-raise,
  Keeps-lift, Keeps-get, Keeps-ensure, Leads-Keeps, Keeps-enter,
}
use py_rl_trainer.Training.Actor.{
  ActorConfig, ActorClient, ActorError, reward_error, sensor_contract_error, runtime_error,
  evaluation_complete, disconnected, clear_unfinished_actions, clear_rollout, reset_per_snake_state,
}
use py_rl_trainer.Training.Actor.Handlers.{World}
use py_rl_trainer.Training.Actor.Sensors.{TransitionMessage, present}
use py_rl_trainer.Training.Actor.Lifecycle.{
  Assignment, closing_reward, handle_transition, record_episode, on_assign, begin_life,
  start_evaluation_policy, replace_state, recover, refuse_reclaim, forget_snake,
}
use py_rl_trainer.Training.Actor.Core.{
  core, finish_evaluation-core, accept_reward-core, discard_reward-core,
  start_evaluation_policy-core, reclaim-core, either-core,
}
use py_rl_trainer.Training.Actor.Invariant.{
  IsInvariant, Keeps-core, Keeps-core-update, Keeps-core_call, observe_command_metadata-Keeps,
  account_reward-Keeps,
}
use py_rl_trainer.Training.Actor.Invariant.Handled.{
  truncate_disconnected_rollout-Keeps, bootstrapped-Keeps,
}

module _ {cfg : ActorConfig} {P Q : ActorClient → Type 0} (inv : IsInvariant cfg P Q) where
  reset_per_snake_state-keeps : (s : ActorClient) → Q s → Q (reset_per_snake_state s)
  unfolding reset_per_snake_state
  reset_per_snake_state-keeps s h =
      inv.resting.respects (clear_rollout (clear_unfinished_actions s)) _ refl
        (inv.resting.clears (clear_unfinished_actions s) (inv.resting.forgets s h))

  begin_life-keeps :
      (world : World) (id : ℕ) (token : Text) (now_tick : Option ℕ) (s : ActorClient)
      → Q s
      → Q (begin_life cfg world id token now_tick s)
  unfolding begin_life
  begin_life-keeps world id token now_tick s h =
      let named = record s { snake_id = some id; resume_token = some token } in
      let life = reset_per_snake_state named in
      let clean = reset_per_snake_state-keeps named (inv.resting.respects s named refl h) in
      let started = start_evaluation_policy cfg world life in
      inv.resting.respects started _ refl
        (inv.resting.respects life started (start_evaluation_policy-core cfg world life) clean)

  record_episode-core :
      (ticks : ℤ) (kind reason : Text) (s : ActorClient)
      → core (record_episode cfg ticks kind reason s) ≡ core s
  unfolding record_episode
  record_episode-core ticks kind reason s =
      either-core cfg.evaluation _ _ s
        (finish_evaluation-core cfg kind reason s.episode_integrity s) refl

  closing_reward-Keeps :
      (raw : Shaped RawReward) (gap : Bool) → Keeps P (closing_reward cfg raw gap)
  closing_reward-Keeps raw true =
      Keeps-bind (Keeps-core-update inv _ (discard_reward-core cfg raw)) (λ _. Keeps-pure none)
  closing_reward-Keeps raw false = Keeps-core_call inv _ (accept_reward-core cfg raw)

  pub handle_transition-Keeps :
      (world : World) (msg : TransitionMessage) → Keeps Q (handle_transition cfg world msg)
  unfolding handle_transition
  handle_transition-Keeps world msg = Keeps-enter _ inv.refreshes (
      Leads-Keeps inv.weakens (
        Keeps-bind (Keeps-lift _) (λ raw. Keeps-bind (Keeps-ensure _ _) (λ _.
          Keeps-bind Keeps-get (λ s. Keeps-bind (Keeps-lift _) (λ final.
            Keeps-bind (closing_reward-Keeps msg.reward s.reward_rebase) (λ reward.
              Keeps-bind (observe_command_metadata-Keeps inv raw) (λ _.
                Keeps-bind (Keeps-modify _ inv.observes) (λ _.
                  Keeps-bind (account_reward-Keeps inv world.cutoff_value reward final) (λ _.
                    Keeps-bind (Keeps-core inv _ (λ t. refl)) (λ _.
                      Keeps-bind (Keeps-modify _ inv.finishes) (λ _.
                        Keeps-bind (Keeps-modify _ (inv.closes _ _ final)) (λ _.
                          Keeps-bind (Keeps-modify _ inv.forgets) (λ _.
                            Keeps-bind (bootstrapped-Keeps inv world) (λ _.
                              Keeps-bind (Keeps-core inv _ (λ t. refl)) (λ _.
                                Keeps-core inv _ (λ t. record_episode-core _ _ _ t)))))))))))))))))

  Keeps-present_weak : {A : Type 0} (o : Option A) (e : ActorError) → Keeps Q (present o e)
  Keeps-present_weak none e = Keeps-raise e
  Keeps-present_weak (some a) e = Keeps-pure a

  pub on_assign-Keeps : (world : World) (msg : Assignment) → Keeps Q (on_assign cfg world msg)
  unfolding on_assign
  on_assign-Keeps world msg = Keeps-bind (Keeps-ensure _ _) (λ _.
      Keeps-bind (Keeps-present_weak _ _) (λ id. Keeps-bind (Keeps-present_weak _ _) (λ token.
        Keeps-bind Keeps-get (λ s.
          Keeps-if msg.reclaimed
            (Keeps-update _
              (λ t u h e. inv.resting.respects t u (reclaim-core id token t u t.snake_id e) h))
            (Keeps-bind (Keeps-ensure _ _) (λ _.
              Keeps-bind (Keeps-when _ (truncate_disconnected_rollout-Keeps inv world))
                (λ _. Keeps-modify _ (begin_life-keeps world id token s.last_sensor_tick))))))))

  forgotten : (s : ActorClient) → Q s → Q (reset_per_snake_state (forget_snake s))
  forgotten s h =
      reset_per_snake_state-keeps (forget_snake s) (inv.resting.respects s (forget_snake s) refl h)

  pub replace_state-Keeps : (world : World) → Keeps Q (replace_state cfg world)
  unfolding replace_state
  replace_state-Keeps world =
      Keeps-bind
        (Keeps-modify _
          (λ s h. inv.resting.respects s _ (finish_evaluation-core cfg _ _ false s) h))
        (λ _.
          Keeps-bind (truncate_disconnected_rollout-Keeps inv world)
            (λ _. Keeps-modify _ forgotten))

  pub refuse_reclaim-Keeps : (world : World) → Keeps Q (refuse_reclaim cfg world)
  unfolding refuse_reclaim
  refuse_reclaim-Keeps world =
      Keeps-bind (truncate_disconnected_rollout-Keeps inv world)
        (λ _. Keeps-modify _ (λ s h. inv.resting.respects s (forget_snake s) refl h))

  pub recover-Keeps : (world : World) (e : ActorError) → Keeps Q (recover cfg world e)
  unfolding recover
  recover-Keeps world evaluation_complete = Keeps-modify _ forgotten
  recover-Keeps world sensor_contract_error = Keeps-raise sensor_contract_error
  recover-Keeps world (reward_error e) = Keeps-raise (reward_error e)
  recover-Keeps world runtime_error = truncate_disconnected_rollout-Keeps inv world
  recover-Keeps world disconnected = truncate_disconnected_rollout-Keeps inv world
