-- ===== src/Training/Tests.antt =====
-- The learner, the barrier and the rollouts on small inputs.
use py_rl_trainer.Prelude.{
  ℕ, zero, suc, ◌+◌, ltb, ◌<◌, ◌≡◌, refl, Bool, true, false, ◌||◌, none, some, List, [], ◌∷◌, ◌++◌,
  arith, length,
}
use py_rl_trainer.Prelude.Dict.{find, insert, set_default, remove, keys}
use py_rl_trainer.Prelude.Dict.Distinct.{has}
use py_rl_trainer.Wire.Float.{float_add, float_sub, float_mul}
use py_rl_trainer.Evaluation.{no_components}
use py_rl_trainer.Training.{Transition, one}
use py_rl_trainer.Training.Advantage.{gae, gae_loop, returns_of, estimate, value_after}
use py_rl_trainer.Training.Advantage.Cut.{gae-cut}
use py_rl_trainer.Training.Segments.{split_from, split_rollout_by_policy_version}
use py_rl_trainer.Training.Segments.Cover.{
  joined, AreSegments, split_rollout_by_policy_version-AreSegments,
}
use py_rl_trainer.Training.Update.{
  Policy, Optimizer, Schedule, metrics, minibatches, try_minibatch, run_minibatches, run_epochs,
  attempt_of, ppo_update_batch, sync_infer_from_train, ppo_update,
}
use py_rl_trainer.Training.Update.Published.{IsUpdated, ppo_update-IsUpdated}
use py_rl_trainer.Training.Update.Minibatches.{flatten, AllSized, minibatches_cover}
use py_rl_trainer.Training.Batches.{
  Learner, new_learner, is_obsolete, admit_segment, admit_segments, newest_ready, obsolete_steps,
  without_obsolete, train, train_ready, receive_rollout,
}
use py_rl_trainer.Training.Batches.Accounted.{IsAccounted}
use py_rl_trainer.Training.Batches.Rounds.{new_learner-IsAccounted, receive_rollout-IsAccounted}
use py_rl_trainer.Training.Barrier.{
  Message, Collector, new_collector, Bounds, waiting, pass_barrier, collect, collect_all,
  is_coherent, first_version, all_contribute_version, all_of_version,
}
use py_rl_trainer.Training.Barrier.Rounds.{AreRounds}
use py_rl_trainer.Training.Barrier.Complete.{
  Collects, started, received, AllComplete, Collects-AllComplete,
}
use py_rl_trainer.Training.Barrier.Opening.{arrived, IsOver, arrives, AllTimely, barrier_opens}

-- a transition that was paid 1.0 under a version
abbrev paid : ℕ → Transition
paid version = record {
  obs = [];
  action_turn = 0;
  turn_latent = 0;
  action_boost = 0;
  logp = 0;
  value = one;
  reward = one;
  done = 0;
  policy_version = version;
  reward_components = no_components;
  elapsed_seconds = 0;
  alive_seconds = 0;
  action_id = none;
  action_tick = none;
  bootstrap_override = none;
}

-- the same before a gap
abbrev gap : Transition
gap = record (paid 0) { bootstrap_override = some one }

-- with gamma and lambda 1.0, and exact storing
abbrev exact : ℕ → ℕ
exact x = x

two_paid :
    gae exact one one (paid 0 ∷ paid 0 ∷ []) 0 ≡ (one ∷ 0 ∷ [], 0x4000000000000000 ∷ one ∷ [])
unfolding gae gae_loop returns_of estimate value_after float_add float_sub float_mul
two_paid = refl

gae-cut_example :
    let whole = gae exact one one (gap ∷ paid 0 ∷ []) 0 in
    let front = gae exact one one (gap ∷ []) 0 in
    let back = gae exact one one (paid 0 ∷ []) 0 in
    (whole.0 ≡ front.0 ++ back.0) × (whole.1 ≡ front.1 ++ back.1)
gae-cut_example = gae-cut exact one one [] gap (paid 0 ∷ []) 0 0 refl

-- two transitions of version 3 and one of version 4
abbrev mixed : List Transition
mixed = paid 3 ∷ paid 3 ∷ paid 4 ∷ []

mixed_split :
    split_rollout_by_policy_version mixed 5
    ≡ record { version = 3; rollout = paid 3 ∷ paid 3 ∷ []; bootstrap = one }
      ∷ record { version = 4; rollout = paid 4 ∷ []; bootstrap = 5 }
      ∷ []
unfolding split_rollout_by_policy_version split_from
mixed_split = refl

split_rollout_by_policy_version-AreSegments_example :
    let segments = split_rollout_by_policy_version mixed 5 in
    (joined segments ≡ mixed) × AreSegments segments 5
split_rollout_by_policy_version-AreSegments_example =
    split_rollout_by_policy_version-AreSegments mixed 5

-- five indices by two
abbrev order : List ℕ
order = 4 ∷ 0 ∷ 3 ∷ 1 ∷ 2 ∷ []

order-minibatches : minibatches 5 2 order ≡ (4 ∷ 0 ∷ []) ∷ (3 ∷ 1 ∷ []) ∷ (2 ∷ []) ∷ []
unfolding minibatches
order-minibatches = refl

minibatches_cover_example :
    (flatten (minibatches 5 2 order) ≡ order) × AllSized 2 (minibatches 5 2 order)
minibatches_cover_example = minibatches_cover 2 5 order (omega arith) (omega arith)

-- weights that are counted up by each step; no batch is stale, and the third weights drift
abbrev counting : Optimizer ℕ
counting = record {
  is_stale = λ w. false;
  should_step = λ w index. ltb w 2;
  learn = λ w index. some (w + 1);
}

abbrev fresh_policy : Policy ℕ
fresh_policy = record { weights = 0; update_steps = 7; published_steps = 7; published_weights = 0 }

abbrev by_two : Schedule
by_two = record { epochs = 4; minibatch = 2 }

abbrev two_steps : Policy ℕ
two_steps = record { weights = 2; update_steps = 9; published_steps = 9; published_weights = 2 }

-- the third minibatch of the first epoch stops the update
early_stop : ppo_update counting by_two 5 (order ∷ order ∷ []) fresh_policy ≡ (
  metrics
      (record { optimizer_steps = 2; samples = 5; kl_early_stopped = true; stale_batch = false }),
  two_steps,
)
unfolding ppo_update ppo_update_batch attempt_of run_epochs run_minibatches try_minibatch
    minibatches sync_infer_from_train
early_stop = refl

ppo_update-IsUpdated_example :
    IsUpdated counting fresh_policy
      (record { optimizer_steps = 2; samples = 5; kl_early_stopped = true; stale_batch = false })
      two_steps
ppo_update-IsUpdated_example =
    ppo_update-IsUpdated counting fresh_policy by_two 5 (order ∷ order ∷ []) (refl, refl) early_stop

-- batches of two: version 3 fills one, version 4 waits
abbrev one_batch : Learner
one_batch = receive_rollout 2 new_learner mixed 5 false

one_batch_total :
    (one_batch.total_steps ≡ 3)
    × (length one_batch.batches ≡ 1)
    × (keys one_batch.pending_by_version ≡ 4 ∷ [])
unfolding receive_rollout split_rollout_by_policy_version split_from admit_segments admit_segment
    is_obsolete find insert newest_ready train_ready train remove obsolete_steps without_obsolete
one_batch_total = (refl, refl, refl)

receive_rollout-IsAccounted_example :
    IsAccounted one_batch × (one_batch.total_steps ≡ 0 + length mixed)
receive_rollout-IsAccounted_example =
    receive_rollout-IsAccounted 2 new_learner mixed 5 false new_learner-IsAccounted

-- two actors, each with a transition of version 3
abbrev two_actors : Bounds
two_actors = record { actors = 2; decision_budget = none }

abbrev from_actor : ℕ → Message
from_actor a = record { actor_id = a; epoch = 0; rollout = paid 3 ∷ []; bootstrap = 0 }

abbrev half : Collector
half = collect two_actors new_collector (from_actor 1) false

abbrev whole : Collector
whole = collect two_actors half (from_actor 0) false

half-Collects : Collects two_actors half
half-Collects = received started (from_actor 1) false refl (omega arith, omega arith)

half_waits : (half.status ≡ waiting) × (half.collection_epoch ≡ 0) × (arrived half ≡ 1 ∷ [])
unfolding collect pass_barrier find insert set_default remove is_coherent first_version
    all_contribute_version all_of_version
half_waits = (refl, refl, refl)

whole_passes : (whole.collection_epoch ≡ 1) × (length whole.rounds ≡ 1)
unfolding collect pass_barrier find insert set_default remove is_coherent first_version
    all_contribute_version all_of_version
whole_passes = (refl, refl)

whole-Collects : Collects two_actors whole
unfolding collect pass_barrier find insert set_default remove is_coherent first_version
    all_contribute_version all_of_version
whole-Collects = received half-Collects (from_actor 0) false refl (omega arith, omega arith)

Collects-AllComplete_example :
    AreRounds 2 (length whole.rounds) whole.rounds × AllComplete 2 whole.rounds
Collects-AllComplete_example = Collects-AllComplete whole-Collects

-- actor 0 twice, after actor 1
abbrev late : List (Message × Bool)
late = (from_actor 1, false) ∷ (from_actor 0, false) ∷ (from_actor 0, false) ∷ []

both_arrive :
    (a : ℕ) → a < 2 → (has a (arrived half) || arrives a half.collection_epoch late) ≡ true
unfolding collect pass_barrier find insert set_default remove is_coherent first_version
    all_contribute_version all_of_version
both_arrive zero lt = refl
both_arrive (suc zero) lt = refl
both_arrive (suc (suc a)) lt = absurd (omega arith)

late-AllTimely : AllTimely 2 half.collection_epoch late
unfolding collect pass_barrier find insert set_default remove is_coherent first_version
    all_contribute_version all_of_version
late-AllTimely =
    (omega arith, omega arith, (omega arith, omega arith, (omega arith, omega arith, tt)))

barrier_opens_example : IsOver half.collection_epoch (collect_all two_actors half late)
barrier_opens_example = barrier_opens late half-Collects (omega arith) late-AllTimely both_arrive
