-- ===== src/Training/Actor/Settled/Lives.antt =====
-- Runs of a training actor under the barrier.
use py_rl_trainer.Prelude.{
  ℕ, ltb, ◌≡◌, refl, false, none, some, arith, Bool-cases, inl, inr, ok, ◌&&◌, Option,
  if◌then◌else◌,
}
use mathlib.Core.Path.{subst}
use py_rl_trainer.Wire.Str.{Text}
use py_rl_trainer.Wire.Hex.{int_hex}
use py_rl_trainer.Reward.{Command}
use py_rl_trainer.Reward.Control.{commands_eq}
use py_rl_trainer.Training.Actor.{
  ActorConfig, ActorClient, clear_unfinished_actions, clear_rollout, new_actor,
}
use py_rl_trainer.Training.Actor.Rewards.{validate_echoed_command, echo, is_replayed, action_id_of}
use py_rl_trainer.Training.Actor.Invariant.{IsInvariant}
use py_rl_trainer.Training.Actor.Runs.{Runs, Runs-keep}
use py_rl_trainer.Training.Actor.Settled.{IsSettled, IsRested, Barrier}
use py_rl_trainer.Training.Actor.Settled.Steps.{
  same_collection, core-IsRested, core-IsSettled, clear_unfinished_actions-IsClean,
  clear_rollout-IsClean,
}
use py_rl_trainer.Training.Actor.Settled.Collecting.{select_credit-IsSettled, pay_pending-IsSettled}
use py_rl_trainer.Training.Actor.Settled.Contributions.{
  at_same_epoch, finish_credited_action-IsSettled, submit_training_rollout-IsSettled,
}
use py_rl_trainer.Training.Actor.Settled.Epochs.{
  refresh_collection_epoch-IsSettled, observe_collection_fence-IsSettled, close_rollout-IsSettled,
}
use py_rl_trainer.Training.Actor.Settled.Sends.{advanced-IsRested, send_sample-IsRested}

module _ {actor_id : ℕ} {policy : ℕ → ℕ} where
  weakens : (s : ActorClient) → IsSettled actor_id policy s → IsRested actor_id policy s
  weakens s h = record { clean = h.clean; stands = inl h.at_epoch }

  forgets :
      (s : ActorClient)
      → IsSettled actor_id policy s
      → IsSettled actor_id policy (clear_unfinished_actions s)
  unfolding clear_unfinished_actions
  forgets s h = record {
    clean = clear_unfinished_actions-IsClean s h.clean;
    at_epoch = at_same_epoch h.at_epoch refl refl refl refl;
  }

  forgets-IsRested :
      (s : ActorClient)
      → IsRested actor_id policy s
      → IsRested actor_id policy (clear_unfinished_actions s)
  unfolding clear_unfinished_actions
  forgets-IsRested s h = record {
    clean = clear_unfinished_actions-IsClean s h.clean;
    stands = elim h.stands [
      | inl at_epoch ↦ inl (at_same_epoch at_epoch refl refl refl refl)
      | inr past ↦
          inr (record { next = past.next; submitted = past.submitted; published = past.published })
    ];
  }

  clears-IsRested :
      (s : ActorClient) → IsRested actor_id policy s → IsRested actor_id policy (clear_rollout s)
  unfolding clear_rollout
  clears-IsRested s h = record {
    clean = clear_rollout-IsClean s h.clean;
    stands = elim h.stands [
      | inl at_epoch ↦ inl (at_same_epoch at_epoch refl refl refl refl)
      | inr past ↦
          inr (record { next = past.next; submitted = past.submitted; published = past.published })
    ];
  }

  echo-IsSettled :
      (s t : ActorClient) (identity old : Option Text)
      → IsSettled actor_id policy s
      → echo s identity old ≡ ok t
      → IsSettled actor_id policy t
  echo-IsSettled s t none old h e =
      let same : s ≡ t = ground arith in subst (λ u. IsSettled actor_id policy u) same h
  echo-IsSettled s t (some identity) old h e =
      elim (Bool-cases
        (ltb 0 s.last_issued_action_id && ltb s.action_id_counter (int_hex identity))) [
          | inl unknown ↦ ground arith
          | inr known ↦ elim (Bool-cases (is_replayed identity old)) [
            | inl replayed ↦ ground arith
            | inr fresh ↦
                let counter =
                  if ltb s.action_id_counter (int_hex identity)
                  then int_hex identity
                  else s.action_id_counter in
                let after : ActorClient = record s { action_id_counter = counter } in
                let same : after ≡ t = ground arith in
                subst (λ u. IsSettled actor_id policy u) same
                  (record {
                    clean =
                        same_collection h.clean refl refl refl h.clean.idle h.clean.fenced
                          h.clean.finished h.clean.pending h.clean.issued;
                    at_epoch = at_same_epoch h.at_epoch refl refl refl refl;
                  })
          ]
        ]

  validate_echoed_command-IsSettled :
      (command previous : Option Command) (s t : ActorClient)
      → IsSettled actor_id policy s
      → validate_echoed_command command previous s ≡ ok t
      → IsSettled actor_id policy t
  unfolding validate_echoed_command
  validate_echoed_command-IsSettled none previous s t h e =
      let same : s ≡ t = ground arith in subst (λ u. IsSettled actor_id policy u) same h
  validate_echoed_command-IsSettled (some command) previous s t h e =
      elim (Bool-cases (commands_eq (some command) previous)) [
        | inl old ↦
            let same : s ≡ t = ground arith in subst (λ u. IsSettled actor_id policy u) same h
        | inr fresh ↦
            echo-IsSettled s t command.client_action_id (action_id_of previous) h (ground arith)
      ]

module _ {policy : ℕ → ℕ} (cfg : ActorConfig) (trains : cfg.evaluation ≡ false) where
  IsSettled-IsInvariant :
      IsInvariant cfg (IsSettled cfg.actor_id policy) (IsRested cfg.actor_id policy)
  IsSettled-IsInvariant = record {
    resting = record {
      respects = core-IsRested;
      forgets = forgets-IsRested;
      clears = clears-IsRested;
    };
    weakens = weakens;
    refreshes = λ s t. refresh_collection_epoch-IsSettled cfg s t trains;
    respects = core-IsSettled;
    finishes = finish_credited_action-IsSettled cfg;
    forgets = forgets;
    selects = select_credit-IsSettled cfg;
    pays = pay_pending-IsSettled cfg;
    submits = submit_training_rollout-IsSettled cfg;
    observes = observe_collection_fence-IsSettled cfg;
    echoes = validate_echoed_command-IsSettled;
    closes = close_rollout-IsSettled cfg;
  }

  new_actor-IsRested : (epoch : ℕ) → IsRested cfg.actor_id policy (new_actor epoch (policy epoch))
  unfolding new_actor
  new_actor-IsRested epoch = record {
    clean = record {
      once = inl refl;
      idle = λ done. (refl, refl, refl);
      fenced = λ f. (refl, refl);
      finished = tt;
      pending = tt;
      issued = tt;
      rising = omega arith;
      sent = tt;
    };
    stands = inl (record { same = refl; published = λ w. refl });
  }

  pub Runs-IsRested :
      {epoch : ℕ} {s : ActorClient}
      → Runs cfg (Barrier policy) epoch (policy epoch) s
      → IsRested cfg.actor_id policy s
  Runs-IsRested {epoch} run =
      Runs-keep IsSettled-IsInvariant
        (λ world fair obs tick. record { at = send_sample-IsRested cfg world obs tick fair })
        (λ s e v allowed. advanced-IsRested s e v allowed) (new_actor-IsRested epoch) run
