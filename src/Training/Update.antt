-- ===== src/Training/Update.antt =====
-- `_ppo_update_batch_sync` and `ppo_update_async` of learner.py: when PPO steps, stops and publishes.
-- The drift of a batch, the drift of a minibatch and the optimizer step are PyTorch's: parameters on
-- an abstract type of weights.
pub mod Published
pub mod Minibatches
use py_rl_trainer.Prelude.{
  ℕ, zero, suc, ◌+◌, Bool, true, false, Option, none, some, List, [], ◌∷◌, ◌==◌, ltb, length, take,
  drop, if◌then◌else◌,
}

-- `update_steps`, `train_model` and `_published_policy_snapshot`
pub record Policy (W : Type 0) : Type 0 where
  pub weights : W
  pub update_steps : ℕ
  pub published_steps : ℕ
  pub published_weights : W

pub record Optimizer (W : Type 0) : Type 0 where
  -- `initial["approx_kl"] > _TARGET_KL` of the whole batch
  pub is_stale : W → Bool
  -- `approx_kl <= _TARGET_KL` of a minibatch
  pub should_step : W → List ℕ → Bool
  -- backward, clipping, `optimizer.step()` and `constrain_turn_std`; `none` is a raise
  pub learn : W → List ℕ → Option W

pub record Schedule : Type 0 where
  pub epochs : ℕ
  pub minibatch : ℕ

-- what the loops leave: the policy, `optimizer_steps`, `weighted_samples` and `kl_early_stopped`
pub record Attempt (W : Type 0) : Type 0 where
  pub policy : Policy W
  pub optimizer_steps : ℕ
  pub weighted_samples : ℕ
  pub stopped : Bool
  pub raised : Bool

-- `max(1, n)`
abbrev pub at_least_one : ℕ → ℕ
at_least_one zero = 1
at_least_one (suc n) = suc n

-- `order[start:start + size]` for `start` in `range(0, sample_count, size)`; the length of `order`
-- is fuel enough, since each round takes at least one index
unfoldable pub minibatches : ℕ → ℕ → List ℕ → List (List ℕ)
minibatches zero size order = []
minibatches (suc fuel) size [] = []
minibatches (suc fuel) size (i ∷ order) =
    take size (i ∷ order) ∷ minibatches fuel size (drop size (i ∷ order))

pub record Metrics : Type 0 where
  pub optimizer_steps : ℕ
  pub samples : ℕ
  pub kl_early_stopped : Bool
  pub stale_batch : Bool

pub data Updated : Type 0 where
  value_error torch_error : Updated
  metrics : Metrics → Updated

module _ {W : Type 0} (torch : Optimizer W) where
  -- the assignments of `_ppo_minibatch_sync` where it steps
  abbrev pub stepped : Attempt W → List ℕ → Option W → Attempt W
  stepped a index none = record a { raised = true }
  stepped a index (some weights) = record a {
    policy = record a.policy { weights = weights; update_steps = a.policy.update_steps + 1 };
    optimizer_steps = a.optimizer_steps + 1;
    weighted_samples = a.weighted_samples + length index;
  }

  -- one minibatch
  unfoldable pub try_minibatch : Attempt W → List ℕ → Attempt W
  try_minibatch a index =
      if torch.should_step a.policy.weights index
      then stepped a index (torch.learn a.policy.weights index)
      else record a { weighted_samples = a.weighted_samples + length index; stopped = true }

  -- the inner loop, up to its `break`
  unfoldable pub run_minibatches : Attempt W → List (List ℕ) → Attempt W
  unfolding try_minibatch
  run_minibatches a [] = a
  run_minibatches a (index ∷ rest) =
      let after = try_minibatch a index in
      let later = run_minibatches after rest in
      if after.stopped then after else if after.raised then after else later

  -- the outer loop; `orders` are the permutations that `torch.randperm` draws
  unfoldable pub run_epochs : ℕ → ℕ → List (List ℕ) → Attempt W → Attempt W
  unfolding run_minibatches
  run_epochs zero size orders a = a
  run_epochs (suc left) size [] a = a
  run_epochs (suc left) size (order ∷ orders) a =
      let after = run_minibatches a (minibatches (length order) size order) in
      let later = run_epochs left size orders after in
      if after.stopped then after else if after.raised then after else later

  abbrev pub fresh_attempt : Policy W → Attempt W
  fresh_attempt policy = record {
    policy = policy;
    optimizer_steps = 0;
    weighted_samples = 0;
    stopped = false;
    raised = false;
  }

  unfoldable pub attempt_of : Schedule → List (List ℕ) → Policy W → Attempt W
  unfolding run_epochs
  attempt_of schedule orders policy =
      run_epochs (at_least_one schedule.epochs) (at_least_one schedule.minibatch) orders
        (fresh_attempt policy)

  -- `_ppo_update_batch_sync` by its tests: its outcome, and the policy after it
  abbrev pub outcome_of : Policy W → ℕ → Attempt W → Bool → Bool → Bool → Updated × Policy W
  outcome_of policy sample_count a true is_stale has_raised = (value_error, policy)
  outcome_of policy sample_count a false true has_raised = (
    metrics (record {
      optimizer_steps = 0;
      samples = sample_count;
      kl_early_stopped = false;
      stale_batch = true;
    }),
    policy,
  )
  outcome_of policy sample_count a false false true = (torch_error, a.policy)
  outcome_of policy sample_count a false false false = (
    metrics (record {
      optimizer_steps = a.optimizer_steps;
      samples = sample_count;
      kl_early_stopped = a.stopped;
      stale_batch = false;
    }),
    a.policy,
  )

  unfoldable pub ppo_update_batch : Schedule → ℕ → List (List ℕ) → Policy W → Updated × Policy W
  unfolding attempt_of
  ppo_update_batch schedule sample_count orders policy =
      let a = attempt_of schedule orders policy in
      outcome_of policy sample_count a (sample_count == 0) (torch.is_stale policy.weights) a.raised

  -- `sync_infer_from_train`
  unfoldable pub sync_infer_from_train : Policy W → Policy W
  sync_infer_from_train policy = record policy {
    published_steps = policy.update_steps;
    published_weights = policy.weights;
  }

  abbrev pub published : Updated × Policy W → Updated × Policy W
  published (metrics m, policy) =
      (metrics m, if ltb 0 m.optimizer_steps then sync_infer_from_train policy else policy)
  published (raised, policy) = (raised, policy)

  -- `ppo_update_async`
  unfoldable pub ppo_update : Schedule → ℕ → List (List ℕ) → Policy W → Updated × Policy W
  unfolding ppo_update_batch sync_infer_from_train
  ppo_update schedule sample_count orders policy =
      published (ppo_update_batch schedule sample_count orders policy)
