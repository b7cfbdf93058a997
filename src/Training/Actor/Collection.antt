-- ===== src/Training/Actor/Collection.antt =====
-- The collection epoch of an actor: `_refresh_collection_epoch`, `_submit_training_rollout` and the
-- control fence of sync_ppo.py.
use py_rl_trainer.Prelude.{
  ℕ, Bool, true, false, not, ◌&&◌, ◌||◌, Option, none, some, List, [], ◌∷◌, ◌++◌, Result, ok, err,
  leb, ◌==◌, if◌then◌else◌,
}
use py_rl_trainer.Wire.Str.{Text, text_eq}
use py_rl_trainer.Wire.Hex.{int_hex}
use py_rl_trainer.Reward.{Reward, AppliedCommand}
use py_rl_trainer.Reward.Parse.{initial}
use py_rl_trainer.Training.{Observation}
use py_rl_trainer.Training.Barrier.{Message}
use py_rl_trainer.Training.Actor.{
  ActorConfig, ActorClient, ActorError, runtime_error, fence_interval, admitted_rollout,
  collection_open, clear_rollout, clear_unfinished_actions,
}
use py_rl_trainer.Training.Actor.Credit.{finish_credited_action, rollout_bootstrap, is_some}

abbrev pub is_empty : {A : Type 0} → List A → Bool
is_empty [] = true
is_empty (x ∷ xs) = false

-- `_refresh_collection_epoch`
unfoldable pub refresh_collection_epoch : ActorConfig → ActorClient → Result ActorError ActorClient
refresh_collection_epoch cfg s =
    if cfg.evaluation
    then ok s
    else if s.collection_epoch == s.active_collection_epoch
    then ok s
    else if not (is_empty s.rollout)
        || is_some s.pending_transition
        || not (is_empty s.issued_transitions)
    then err runtime_error
    else ok (record s {
      active_collection_epoch = s.collection_epoch;
      submitted_collection_epoch = none;
      fence_required = true;
      fence_action_id = none;
    })

-- the contribution: put on the queue, counted, and then every unfinished sample is dropped
unfoldable pub contributed : ActorConfig → ℕ → ActorClient → ActorClient
unfolding clear_rollout clear_unfinished_actions
contributed cfg bootstrap s =
    let message : Message = record {
      actor_id = cfg.actor_id;
      epoch = s.collection_epoch;
      rollout = s.rollout;
      bootstrap = bootstrap;
    } in
    let cleared = clear_unfinished_actions (clear_rollout s) in
    record cleared {
      contributions = s.contributions ++ (message ∷ []);
      calls = s.calls ++ (admitted_rollout s.rollout ∷ []);
      submitted_collection_epoch = some s.collection_epoch;
    }

-- where `bootstrap` is none, the last decision is finished first, and its end is the cutoff
abbrev pub submitted : ActorConfig → (Observation → ℕ) → Option ℕ → ActorClient → ActorClient
submitted cfg cutoff_value (some bootstrap) s = contributed cfg bootstrap s
submitted cfg cutoff_value none s =
    let finished = finish_credited_action s in
    contributed cfg (rollout_bootstrap cutoff_value finished) finished

-- `_submit_training_rollout(bootstrap, allow_empty=allow_empty)`
unfoldable pub submit_training_rollout :
    ActorConfig → (Observation → ℕ) → Option ℕ → Bool → ActorClient → Result ActorError ActorClient
submit_training_rollout cfg cutoff_value bootstrap allow_empty s =
    if not (collection_open cfg s)
    then ok (clear_rollout s)
    else if is_empty s.rollout && not allow_empty
    then ok s
    else if s.fence_required && not (is_empty s.rollout)
    then err runtime_error
    else ok (submitted cfg cutoff_value bootstrap s)

-- `identity is not None and fence is not None and int(identity, 16) >= fence`
abbrev pub passes : Option Text → Option ℕ → Bool
passes (some identity) (some fence) = leb fence (int_hex identity)
passes identity fence = false

abbrev pub applied_id : Option AppliedCommand → Option Text
applied_id none = none
applied_id (some applied) = applied.command.client_action_id

abbrev pub fence_after : ActorConfig → ActorClient → Option Reward → Bool
fence_after cfg s none = s.fence_required
fence_after cfg s (some reward) =
    s.fence_required
    && (not (collection_open cfg s)
        || not (passes (applied_id reward.control.applied_command) s.fence_action_id))

-- `_observe_collection_fence`
unfoldable pub observe_collection_fence : ActorConfig → ActorClient → ActorClient
unfolding collection_open
observe_collection_fence cfg s = record s {
  fence_required = fence_after cfg s s.last_reward_envelope;
}

-- `_record_collection_command(identity)`
unfoldable pub record_collection_command : ActorConfig → Text → ActorClient → ActorClient
unfolding collection_open
record_collection_command cfg identity s =
    if s.fence_required
      && collection_open cfg s
      && not (is_some s.fence_action_id)
      && s.active_collection_epoch == s.collection_epoch
    then record s { fence_action_id = some (int_hex identity) }
    else s

-- the call of `record_epoch_fence_interval` in `_account_reward`
unfoldable pub count_fenced : ActorConfig → Reward → ActorClient → ActorClient
unfolding collection_open
count_fenced cfg reward s =
    if not (text_eq reward.transition_kind initial) && s.fence_required && collection_open cfg s
    then record s { calls = s.calls ++ (fence_interval reward.deltas.elapsed_seconds ∷ []) }
    else s
