-- ===== src/Training/Actor/Tests.antt =====
-- A life of an actor with one decision: it is applied in the next step and then contributed.
use py_rl_trainer.Prelude.{
  ℕ, Bool, Option, inl, ok, arith, ◌+◌, List, none, sym, ◌≡◌, refl, false, some, [], ◌∷◌,
}
use py_rl_trainer.Wire.{null, int, str}
use py_rl_trainer.Prelude.Int.{pos, ◌-ℤ◌}
use py_rl_trainer.Wire.Str.{text_ltb, codes, text_eq}
use py_rl_trainer.Reward.{
  shaped, shape, exact_count, identity, member, optional, number, exact_integer,
}
use py_rl_trainer.Reward.Control.{
  RawCommand, RawControl, parse_control, parse_selection, parse_accepted, parse_applied,
  check_counts, parse_command, control_progress,
}
use py_rl_trainer.Reward.Parse.{
  RawReward, parse_reward, require_reward_version, parse_life, parse_run_id, parse_chronology,
  parse_state, parse_deltas, all_zero, balances, accounted,
}
use py_rl_trainer.Reward.Tests.{wire, count, baseline}
use py_rl_trainer.Training.Actor.{
  ActorConfig, ActorClient, disconnected, new_actor, reset_per_snake_state,
}
use py_rl_trainer.Training.Actor.Handlers.{
  World, finish_evaluation, check_evaluation_limit, truncate_disconnected_rollout,
}
use py_rl_trainer.Training.Actor.Sensors.{
  SensorMessage, handle_sensors, fits, observation_and_reward, issued_sample, track_sample,
  take_identity, sent_action, send_sample, submit_full, observe_and_act,
}
use py_rl_trainer.Training.Actor.Lifecycle.{Assignment, on_assign, recover, begin_life, is_unclosed}
use py_rl_trainer.Training.Actor.Runs.{Runs, created, assigned, sensed, recovered, IsFair}
use py_rl_trainer.Training.Actor.Order.{IsOrdered, all_numbers}
use py_rl_trainer.Training.Actor.Settled.{Barrier, IsRested}
use py_rl_trainer.Training.Actor.Settled.Guards.{epochs_settle}
use py_rl_trainer.Training.Actor.Collection.{
  refresh_collection_epoch, submit_training_rollout, contributed, observe_collection_fence,
  record_collection_command, count_fenced,
}
use py_rl_trainer.Training.{Observation}
use py_rl_trainer.Training.Barrier.{Message, Bounds, new_collector, collect, waiting}
use py_rl_trainer.Training.Coherence.{IsContributed, started, received, Trains-waits}
use py_rl_trainer.Evaluation.{no_components, add_components}
use mathlib.Core.Path.{subst}
use mathlib.Core.List.{Memᴰ}
use py_rl_trainer.Training.Actor.Once.{Runs-IsOrdered}
use py_rl_trainer.Training.Exec.{◌>>=◌}
use py_rl_trainer.Training.Actor.Credit.{
  rollout_bootstrap, rollout_bootstrap, select_credit, pay_pending,
}
use py_rl_trainer.Training.Actor.Rewards.{
  accept_reward, account_interval, validate_echoed_command, observe_command_metadata,
}
use py_rl_trainer.Wire.Hex.{matches_hex, int_hex, hex16}
use py_rl_trainer.Wire.Float.{is_close, is_negative}
use py_rl_trainer.Reward.Stream.{
  accept, admit_reward, continues, conserves, commit, check_start, check_progress, committed,
  same_life, int_eq,
}
use py_rl_trainer.Reward.Components.{scaled, total, reward_components}

abbrev trainer : ActorConfig
trainer = record {
  actor_id = 0;
  evaluation = false;
  horizon = 8;
  evaluation_seed = 41;
  evaluation_max_seconds = 4636737291354636288;
  coefficients = record {
    survival = 0;
    food = 0;
    growth = 0;
    points = 0;
    kills = 0;
    death_penalty = 0;
  };
  wire = wire;
}

-- the learner publishes version 5 + epoch for each epoch
abbrev versions : ℕ → ℕ
versions epoch = 5 + epoch

-- the learner stays where it is while an action is sent
abbrev world : World
world = record {
  cutoff_value = λ obs. 9;
  act = λ obs. record { turn = 0; boost = 0; logp = 0; value = 0; turn_latent = 0 };
  rate_limited = false;
  sent = λ s. some (s.collection_epoch, s.published_policy_version);
  frozen = (pos 0, []);
}

world-IsFair : IsFair (Barrier versions) world
world-IsFair s epoch version e = inl (ground arith, ground arith)

abbrev assignment : Assignment
assignment = record {
  snake_id = int (pos 7);
  resume_token = str (codes "t");
  reclaimed = false;
  replacement_reason = null;
}

abbrev tagged : RawCommand
tagged = record {
  sequence = str (codes "0000000000000001");
  client_action_id = str (codes "0000000000000001");
  client_tick = str (codes "0000000000000000");
  accepted_at_step = str (codes "0000000000000000");
}

abbrev held_control : RawControl
held_control = record {
  source = str (codes "held");
  selected_at_step = str (codes "0000000000000000");
  accepted_count = count 1;
  applied_count = count 1;
  superseded_count = count 0;
  accepted_command = some (shaped tagged);
  applied_command = some (
      shaped
        (record { command = shaped tagged; first_applied_step = str (codes "0000000000000000") }));
}

-- one step under the first action
abbrev step : RawReward
step = record baseline {
  observation_sequence = str (codes "0000000000000002");
  previous_observation_sequence = str (codes "0000000000000001");
  to_step = str (codes "0000000000000001");
  transition_kind = str (codes "live");
  control = shaped held_control;
}

abbrev sees : ℕ → RawReward → SensorMessage
sees tick reward = record {
  snake_id = int (pos 7);
  tick = int (pos tick);
  sensors = some [];
  reward = shaped reward;
}

abbrev joined : ActorClient
joined = (on_assign trainer world assignment (new_actor 0 5)).1

abbrev acting : ActorClient
acting = (handle_sensors trainer world (sees 0 baseline) joined).1

abbrev stepping : ActorClient
stepping = (handle_sensors trainer world (sees 1 step) acting).1

abbrev cut : ActorClient
cut = (recover trainer world disconnected stepping).1

cut-Runs : Runs trainer (Barrier versions) 0 5 cut
cut-Runs =
    recovered
      (sensed (sensed (assigned created world assignment) world world-IsFair (sees 0 baseline))
        world world-IsFair (sees 1 step))
      world disconnected

Runs-IsOrdered_example : IsOrdered cut
Runs-IsOrdered_example = Runs-IsOrdered cut-Runs

-- the first decision, with the value of its end
abbrev own : Message
own = record {
  actor_id = 0;
  epoch = 0;
  rollout =
      record {
        obs = [];
        action_turn = 0;
        turn_latent = 0;
        action_boost = 0;
        logp = 0;
        value = 0;
        reward = 0;
        done = 0;
        policy_version = 5;
        reward_components = no_components;
        elapsed_seconds = 0;
        alive_seconds = 0;
        action_id = some (codes "0000000000000001");
        action_tick = some 0;
        bootstrap_override = none;
      }
      ∷ [];
  bootstrap = 9;
}

-- it is contributed once, and the second decision is dropped with the connection
cut_contributes :
    (cut.contributions ≡ own ∷ []) × (all_numbers cut ≡ 1 ∷ []) × (cut.action_id_counter ≡ 2)
unfolding rollout_bootstrap scaled total text_ltb ◌>>=◌ new_actor reset_per_snake_state
    select_credit pay_pending refresh_collection_epoch contributed submit_training_rollout
    observe_collection_fence record_collection_command count_fenced accept_reward account_interval
    validate_echoed_command observe_command_metadata finish_evaluation check_evaluation_limit
    truncate_disconnected_rollout fits observation_and_reward issued_sample track_sample
    take_identity sent_action send_sample submit_full observe_and_act handle_sensors begin_life
    is_unclosed on_assign recover add_components parse_reward shape require_reward_version
    exact_count parse_life parse_run_id identity matches_hex int_hex parse_chronology member text_eq
    optional parse_state parse_deltas number exact_integer all_zero balances accounted is_close
    parse_control parse_selection parse_accepted parse_applied check_counts is_negative
    parse_command accept admit_reward continues conserves commit check_start check_progress
    committed same_life int_eq ◌-ℤ◌ control_progress hex16 reward_components
cut_contributes = (refl, refl, refl)

epochs_settle_example :
    IsRested 0 versions cut
    × ((t : ActorClient) × (refresh_collection_epoch trainer cut ≡ ok t)
        × ((cutoff_value : Observation → ℕ) (bootstrap : Option ℕ) (allow_empty : Bool)
            → (u : ActorClient) × (submit_training_rollout trainer cutoff_value bootstrap
                  allow_empty t
                ≡ ok u)))
epochs_settle_example = epochs_settle {policy = versions} trainer refl cut-Runs

abbrev one_actor : Bounds
one_actor = record { actors = 1; decision_budget = none }

own-IsContributed : IsContributed versions own
own-IsContributed = record {
  cfg = trainer;
  trains = refl;
  begun = 0;
  actor = cut;
  run = cut-Runs;
  sent = subst (λ (l : List Message). Memᴰ own l) (sym cut_contributes.0) (Memᴰ.head refl);
}

Trains-waits_example : (collect one_actor new_collector own false).status ≡ waiting
Trains-waits_example = Trains-waits versions refl (received started own own-IsContributed false)
