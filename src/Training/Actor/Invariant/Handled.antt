-- ===== src/Training/Actor/Invariant/Handled.antt =====
-- What each message of the server keeps.
use py_rl_trainer.Prelude.{
  ℕ, ◌≡◌, refl, true, false, none, some, ok, ◌&&◌, leb, length, Bool-cases, inl, inr, arith,
}
use py_rl_trainer.Training.{Observation}
use py_rl_trainer.Training.Exec.{update}
use py_rl_trainer.Training.Exec.Keeps.{
  Keeps, Keeps-modify, Keeps-update, Keeps-bind, Keeps-when, Keeps-pure, Keeps-raise, Keeps-lift,
  Keeps-get, Keeps-ensure, Leads, Leads-Keeps, Leads-bind, Leads-when, Keeps-enter,
}
use py_rl_trainer.Training.Actor.{
  ActorConfig, ActorClient, evaluation_complete, training_collection_open,
}
use py_rl_trainer.Training.Actor.Handlers.{
  World, check_evaluation_limit, truncate_disconnected_rollout, bootstrapped,
}
use py_rl_trainer.Training.Actor.Sensors.{
  SensorMessage, observation_and_reward, submit_full, send_sample, observe_and_act, handle_sensors,
}
use py_rl_trainer.Training.Actor.Core.{finish_evaluation-core, accept_reward-core}
use py_rl_trainer.Training.Actor.Invariant.{
  IsInvariant, Keeps-core, Keeps-core_call, Keeps-present, observe_command_metadata-Keeps,
  account_reward-Keeps,
}

module _ {cfg : ActorConfig} {P Q : ActorClient → Type 0} (inv : IsInvariant cfg P Q)
    (world : World) where
  check_evaluation_limit-Keeps : Keeps P (check_evaluation_limit cfg)
  unfolding check_evaluation_limit
  check_evaluation_limit-Keeps = Keeps-bind Keeps-get (λ s. Keeps-bind (Keeps-ensure _ _) (λ _.
      Keeps-when _ (
        Keeps-bind (Keeps-core inv _ (finish_evaluation-core cfg _ _ true))
          (λ _. Keeps-bind (Keeps-core inv _ (λ t. refl)) (λ _. Keeps-raise evaluation_complete)))))

  pub bootstrapped-Keeps : Keeps P (update (bootstrapped cfg world.cutoff_value))
  bootstrapped-Keeps = Keeps-update _ (λ s t h e. inv.submits world.cutoff_value _ true s t h e)

  pub truncate_disconnected_rollout-Keeps : Keeps Q (truncate_disconnected_rollout cfg world)
  unfolding truncate_disconnected_rollout
  truncate_disconnected_rollout-Keeps = Keeps-enter _ inv.refreshes (
      Leads-Keeps inv.weakens (
        Keeps-bind (Keeps-core inv _ (finish_evaluation-core cfg _ _ false)) (λ _.
          Keeps-bind (Keeps-modify _ inv.finishes) (λ _.
            Keeps-bind (Keeps-modify _ inv.forgets)
              (λ _. Keeps-bind bootstrapped-Keeps (λ _. Keeps-core inv _ (λ s. refl)))))))

  observation_and_reward-Keeps :
      (msg : SensorMessage) → Keeps P (observation_and_reward cfg world msg)
  unfolding observation_and_reward
  observation_and_reward-Keeps msg = Keeps-bind Keeps-get (λ s. Keeps-bind (Keeps-ensure _ _) (λ _.
      Keeps-bind (Keeps-present inv _ _) (λ obs. Keeps-bind (Keeps-ensure _ _) (λ _.
        Keeps-bind (Keeps-lift _) (λ raw. Keeps-bind (Keeps-ensure _ _) (λ _.
          Keeps-bind (Keeps-present inv _ _) (λ tick. Keeps-bind (Keeps-ensure _ _) (λ _.
            Keeps-bind (Keeps-core_call inv _ (accept_reward-core cfg msg.reward)) (λ reward.
              Keeps-bind (observe_command_metadata-Keeps inv raw) (λ _.
                Keeps-bind (Keeps-modify _ inv.observes) (λ _.
                  Keeps-bind (account_reward-Keeps inv world.cutoff_value reward (some obs)) (λ _.
                    Keeps-bind (Keeps-core inv _ (λ t. refl))
                      (λ _. Keeps-pure (obs, tick))))))))))))))

  submits_full : (s t : ActorClient) → P s → submit_full cfg world s ≡ ok t → P t
  unfolding submit_full
  submits_full s t h e =
      elim (Bool-cases (training_collection_open cfg s && leb cfg.horizon (length s.rollout))) [
        | inl full ↦ inv.submits world.cutoff_value none false s t h (ground arith)
        | inr room ↦ let same : s ≡ t = ground arith in rw (← same) h
      ]

  submit_full-Keeps : Keeps P (update (submit_full cfg world))
  submit_full-Keeps = Keeps-update _ submits_full

  pub handle_sensors-Keeps :
      ((obs : Observation) (tick : ℕ) → Leads P Q (send_sample cfg world obs tick))
      → (msg : SensorMessage) → Keeps Q (handle_sensors cfg world msg)
  unfolding handle_sensors observe_and_act
  handle_sensors-Keeps sends msg = Keeps-enter _ inv.refreshes (
      Leads-bind inv.weakens Keeps-get (λ s. Leads-when inv.weakens _ (
        Leads-bind inv.weakens (observation_and_reward-Keeps msg) (λ (obs, tick).
          Leads-bind inv.weakens check_evaluation_limit-Keeps (λ _.
            Leads-bind inv.weakens (Keeps-core inv _ (λ t. refl)) (λ _.
              Leads-bind inv.weakens submit_full-Keeps (λ _.
                Leads-bind inv.weakens Keeps-get
                  (λ t. Leads-when inv.weakens _ (sends obs tick)))))))))
