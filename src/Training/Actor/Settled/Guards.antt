-- ===== src/Training/Actor/Settled/Guards.antt =====
-- The guards of a training actor never fire.
use py_rl_trainer.Prelude.{
  ℕ, ◌≡◌, refl, Bool, false, arith, Bool-cases, inl, inr, ok, not, ◌&&◌, Option,
}
use py_rl_trainer.Training.{Observation}
use py_rl_trainer.Training.Actor.{ActorConfig, ActorClient, collection_open, clear_rollout}
use py_rl_trainer.Training.Actor.Collection.{
  is_empty, refresh_collection_epoch, submit_training_rollout, submitted,
}
use py_rl_trainer.Training.Actor.Runs.{Runs}
use py_rl_trainer.Training.Actor.Settled.{IsSettled, IsRested, Barrier}
use py_rl_trainer.Training.Actor.Settled.Epochs.{refreshed, refresh_collection_epoch-IsSettled}
use py_rl_trainer.Training.Actor.Settled.Lives.{Runs-IsRested}

module _ {policy : ℕ → ℕ} (cfg : ActorConfig) (trains : cfg.evaluation ≡ false) where
  -- the guards of the two methods that can raise `RuntimeError`
  refreshes :
      (s : ActorClient)
      → IsRested cfg.actor_id policy s
      → (t : ActorClient) × (refresh_collection_epoch cfg s ≡ ok t)
  unfolding refresh_collection_epoch
  refreshes s h = elim h.stands [
    | inl at_epoch ↦ (s, ground (arith, at_epoch.same))
    | inr past ↦
        let (ended, pending, issued) = h.clean.idle past.submitted in
        (refreshed s, ground (arith, past.next))
  ]

  submits :
      (cutoff_value : Observation → ℕ) (bootstrap : Option ℕ) (allow_empty : Bool) (s : ActorClient)
      → IsSettled cfg.actor_id policy s
      → (t : ActorClient) × (submit_training_rollout cfg cutoff_value bootstrap allow_empty s
          ≡ ok t)
  unfolding submit_training_rollout
  submits cutoff_value bootstrap allow_empty s h = elim (Bool-cases (collection_open cfg s)) [
    | inr closed ↦ rw closed (clear_rollout s, refl)
    | inl open_now ↦ elim (Bool-cases (is_empty s.rollout && not allow_empty)) [
      | inl nothing ↦ rw (open_now, nothing) (s, refl)
      | inr something ↦ elim (Bool-cases (s.fence_required && not (is_empty s.rollout))) [
        | inl fenced ↦
            let (ended, pending) = h.clean.fenced (ground arith) in
            absurd (ground (arith, fenced, ended))
        | inr free ↦ rw (open_now, something, free) (submitted cfg cutoff_value bootstrap s, refl)
      ]
    ]
  ]

  -- In every run of a training actor, from an epoch and its policy on, in which the learner moves as
  -- the barrier lets it: the actor has at most one contribution for each epoch, in the order of the
  -- epochs, and every sample that it contributes, or holds for its epoch, was taken under the policy
  -- of that epoch. The refresh of the epoch that begins the next handler then returns, and from there
  -- a contribution does too: neither raises its `RuntimeError`.
  pub epochs_settle :
      {epoch : ℕ} {s : ActorClient}
      → Runs cfg (Barrier policy) epoch (policy epoch) s
      → IsRested cfg.actor_id policy s
        × ((t : ActorClient) × (refresh_collection_epoch cfg s ≡ ok t)
            × ((cutoff_value : Observation → ℕ) (bootstrap : Option ℕ) (allow_empty : Bool)
                → (u : ActorClient) × (submit_training_rollout cfg cutoff_value bootstrap
                      allow_empty t
                    ≡ ok u)))
  epochs_settle {s = s} run =
      let rested = Runs-IsRested cfg trains run in
      let (t, e) = refreshes s rested in
      let settled = refresh_collection_epoch-IsSettled cfg s t trains rested e in
      (
        rested,
        (
          t,
          e,
          λ cutoff_value bootstrap allow_empty.
              submits cutoff_value bootstrap allow_empty t settled,
        ),
      )
