-- ===== src/Training/Update/Published.antt =====
-- What the actors see after an update.
use py_rl_trainer.Prelude.{
  ℕ, zero, suc, ◌+◌, ◌≡◌, refl, inl, inr, Bool, true, false, List, [], ◌∷◌, arith, Option-cases,
  Bool-cases, length, ◌==◌, ltb, if◌then◌else◌,
}
use py_rl_trainer.Training.Update.{
  Policy, Optimizer, Schedule, Attempt, Updated, Metrics, metrics, try_minibatch, run_minibatches,
  run_epochs, fresh_attempt, attempt_of, minibatches, outcome_of, ppo_update_batch,
  sync_infer_from_train, published, ppo_update, at_least_one,
}

-- The published snapshot is of the trained weights.
abbrev pub IsPublished : {W : Type 0} → Policy W → Type 0
IsPublished p = (p.published_steps ≡ p.update_steps) × (p.published_weights ≡ p.weights)

module _ {W : Type 0} (torch : Optimizer W) (policy : Policy W) where
  -- an attempt on `policy`, at any point of the loops
  record Attempts (a : Attempt W) : Type 0 where
    counted : a.policy.update_steps ≡ policy.update_steps + a.optimizer_steps
    steps_kept : a.policy.published_steps ≡ policy.published_steps
    weights_kept : a.policy.published_weights ≡ policy.published_weights
    untouched : a.optimizer_steps ≡ 0 → a.policy ≡ policy

  -- the two ways out of a loop
  pick :
      (stopped raised : Bool) {a b : Attempt W}
      → Attempts a
      → Attempts b
      → Attempts (if stopped then a else if raised then a else b)
  pick true raised h k = h
  pick false true h k = h
  pick false false h k = k

  try_minibatch-Attempts :
      (a : Attempt W) (index : List ℕ) → Attempts a → Attempts (try_minibatch torch a index)
  unfolding try_minibatch
  try_minibatch-Attempts a index h = elim (Bool-cases (torch.should_step a.policy.weights index)) [
    | inr no_step ↦ rw no_step (record {
      counted = h.counted;
      steps_kept = h.steps_kept;
      weights_kept = h.weights_kept;
      untouched = h.untouched;
    })
    | inl yes_step ↦ elim (Option-cases (torch.learn a.policy.weights index)) [
      | inl e ↦
          rw (yes_step, e)
            (record {
              counted = h.counted;
              steps_kept = h.steps_kept;
              weights_kept = h.weights_kept;
              untouched = h.untouched;
            })
      | inr (w, e) ↦
          rw (yes_step, e)
            (record {
              counted = omega (arith, h.counted);
              steps_kept = h.steps_kept;
              weights_kept = h.weights_kept;
              untouched = λ z. absurd (omega arith);
            })
    ]
  ]

  run_minibatches-Attempts :
      (a : Attempt W) (rest : List (List ℕ)) → Attempts a → Attempts (run_minibatches torch a rest)
  unfolding run_minibatches
  run_minibatches-Attempts a [] h = h
  run_minibatches-Attempts a (index ∷ rest) h =
      let tried = try_minibatch-Attempts a index h in
      let later = run_minibatches-Attempts (try_minibatch torch a index) rest tried in
      pick (try_minibatch torch a index).stopped (try_minibatch torch a index).raised tried later

  run_epochs-Attempts :
      (left size : ℕ) (orders : List (List ℕ)) (a : Attempt W)
      → Attempts a
      → Attempts (run_epochs torch left size orders a)
  unfolding run_epochs
  run_epochs-Attempts zero size orders a h = h
  run_epochs-Attempts (suc left) size [] a h = h
  run_epochs-Attempts (suc left) size (order ∷ orders) a h =
      let after = run_minibatches torch a (minibatches (length order) size order) in
      let ran = run_minibatches-Attempts a (minibatches (length order) size order) h in
      pick after.stopped after.raised ran (run_epochs-Attempts left size orders after ran)

  attempt_of-Attempts :
      (schedule : Schedule) (orders : List (List ℕ))
      → Attempts (attempt_of torch schedule orders policy)
  unfolding attempt_of
  attempt_of-Attempts schedule orders =
      run_epochs-Attempts (at_least_one schedule.epochs) (at_least_one schedule.minibatch) orders
        (fresh_attempt torch policy)
        (record {
          counted = omega arith;
          steps_kept = refl;
          weights_kept = refl;
          untouched = λ _. refl;
        })

  -- what `ppo_update` leaves where it returns
  pub record IsUpdated (m : Metrics) (after : Policy W) : Type 0 where
    pub is_published : IsPublished after
    pub counted : after.update_steps ≡ policy.update_steps + m.optimizer_steps
    pub unchanged : m.optimizer_steps ≡ 0 → after ≡ policy
    pub refused : m.stale_batch ≡ true → m.optimizer_steps ≡ 0

  published-IsUpdated :
      (m : Metrics) (after : Policy W)
      → IsPublished policy
      → after.update_steps ≡ policy.update_steps + m.optimizer_steps
      → after.published_steps ≡ policy.published_steps
      → after.published_weights ≡ policy.published_weights
      → (m.optimizer_steps ≡ 0 → after ≡ policy)
      → (m.stale_batch ≡ true → m.optimizer_steps ≡ 0)
      → IsUpdated m (if ltb 0 m.optimizer_steps then sync_infer_from_train torch after else after)
  unfolding sync_infer_from_train
  published-IsUpdated m after p c s w u r = elim (Bool-cases (ltb 0 m.optimizer_steps)) [
    | inl yes_steps ↦ rw yes_steps (record {
      is_published = (refl, refl);
      counted = c;
      unchanged = λ z. absurd (ground arith);
      refused = r;
    })
    | inr no_steps ↦
        let z : m.optimizer_steps ≡ 0 = ground arith in
        rw (no_steps, u z)
          (record { is_published = p; counted = omega arith; unchanged = λ _. refl; refused = r })
  ]

  -- the equation of two outcomes that returned
  outcome :
      {m n : Metrics} {after other : Policy W}
      → ◌≡◌ {A = Updated × Policy W} (metrics m, after) (metrics n, other)
      → IsUpdated m after
      → IsUpdated n other
  outcome {m} {n} {after} {other} h k =
      let same : m ≡ n = ground arith in
      let left : after ≡ other = ground arith in rw (← same, ← left) k

  -- the outcome by the three tests of the code, in their order
  abbrev refusal : ℕ → Metrics
  refusal n = record {
    optimizer_steps = 0;
    samples = n;
    kl_early_stopped = false;
    stale_batch = true;
  }

  settled :
      (n : ℕ) (a : Attempt W) (is_empty is_stale has_raised : Bool) {m : Metrics} {after : Policy W}
      → IsPublished policy
      → Attempts a
      → published torch (outcome_of torch policy n a is_empty is_stale has_raised)
        ≡ (metrics m, after)
      → IsUpdated m after
  settled n a true is_stale has_raised p k h = ground arith
  settled n a false true has_raised p k h =
      outcome h
        (published-IsUpdated (refusal n) policy p (omega arith) refl refl (λ _. refl) (λ _. refl))
  settled n a false false true p k h = ground arith
  settled n a false false false p k h =
      outcome h (
        published-IsUpdated _ a.policy p k.counted k.steps_kept k.weights_kept k.untouched
          (λ e. cc))

  -- Let the published snapshot be of the trained weights. If an update returns, this is so again;
  -- the version of the policy has grown by the number of optimizer steps; with no step the policy is
  -- the one before, and a batch that is refused as stale makes no step.
  pub ppo_update-IsUpdated :
      (schedule : Schedule) (sample_count : ℕ) (orders : List (List ℕ)) {m : Metrics}
      {after : Policy W}
      → IsPublished policy
      → ppo_update torch schedule sample_count orders policy ≡ (metrics m, after)
      → IsUpdated m after
  unfolding ppo_update ppo_update_batch
  ppo_update-IsUpdated schedule sample_count orders p h =
      settled sample_count (attempt_of torch schedule orders policy) (sample_count == 0)
        (torch.is_stale policy.weights) (attempt_of torch schedule orders policy).raised p
        (attempt_of-Attempts schedule orders) h
