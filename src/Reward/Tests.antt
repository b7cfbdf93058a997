-- ===== src/Reward/Tests.antt =====
-- A life of two intervals: a baseline, and one with food and an applied command.
pub mod Runs
use py_rl_trainer.Prelude.{[], ℕ, true, false, none, some, ◌∷◌}
use py_rl_trainer.Prelude.Int.{pos}
use py_rl_trainer.Wire.{Value, null, int, str}
use py_rl_trainer.Wire.Str.{codes}
use py_rl_trainer.Reward.{shaped, RewardWire, Command, ControlState, Deltas, Life, Reward}
use py_rl_trainer.Reward.Control.{RawCommand, RawControl}
use py_rl_trainer.Reward.Parse.{RawDeltas, RawReward}
use py_rl_trainer.Reward.Stream.{RewardStream}

abbrev pub wire : RewardWire
wire = record {
  transition_kinds = codes "initial" ∷ codes "live" ∷ codes "terminal" ∷ codes "truncated" ∷ [];
  end_reasons = codes "death" ∷ codes "manualGeneration" ∷ [];
  control_sources = codes "client" ∷ codes "held" ∷ [];
  external_reward_version = int (pos 1);
}

abbrev pub count : ℕ → Value
count n = int (pos n)

abbrev pub zero_deltas : RawDeltas
zero_deltas = record {
  elapsed_seconds = count 0;
  alive_seconds_delta = count 0;
  points_delta = count 0;
  survival_points_delta = count 0;
  food_points_delta = count 0;
  kill_points_delta = count 0;
  other_points_delta = count 0;
  boost_points_spent_delta = count 0;
  food_count_delta = count 0;
  food_value_delta = count 0;
  length_delta = count 0;
  retained_growth_delta = count 0;
  kills_delta = count 0;
}

abbrev pub no_control : RawControl
no_control = record {
  source = null;
  selected_at_step = null;
  accepted_count = count 0;
  applied_count = count 0;
  superseded_count = count 0;
  accepted_command = none;
  applied_command = none;
}

abbrev pub raw_command : RawCommand
raw_command = record {
  sequence = str (codes "0000000000000001");
  client_action_id = null;
  client_tick = str (codes "0000000000000000");
  accepted_at_step = str (codes "0000000000000000");
}

abbrev pub one_applied : RawControl
one_applied = record {
  source = str (codes "client");
  selected_at_step = str (codes "0000000000000000");
  accepted_count = count 1;
  applied_count = count 1;
  superseded_count = count 0;
  accepted_command = some (shaped raw_command);
  applied_command = some (
      shaped (record {
        command = shaped raw_command;
        first_applied_step = str (codes "0000000000000000");
      }));
}

abbrev pub baseline : RawReward
baseline = record {
  reward_version = count 1;
  run_id = str (codes "run");
  world_epoch = str (codes "0000000000000001");
  lease_id = str (codes "0000000000000002");
  physical_snake_id = str (codes "0000000000000003");
  snake_id = count 7;
  observation_sequence = str (codes "0000000000000001");
  previous_observation_sequence = null;
  from_step = str (codes "0000000000000000");
  to_step = str (codes "0000000000000000");
  transition_kind = str (codes "initial");
  reason = null;
  state =
      shaped
        (record { starting_length = count 12; body_length = count 12; retained_growth = count 0 });
  deltas = shaped zero_deltas;
  control = shaped no_control;
}

-- it dies after a meal
abbrev pub meal : RawReward
meal = record baseline {
  observation_sequence = str (codes "0000000000000002");
  previous_observation_sequence = str (codes "0000000000000001");
  to_step = str (codes "0000000000000001");
  transition_kind = str (codes "terminal");
  reason = str (codes "death");
  state =
      shaped
        (record { starting_length = count 12; body_length = count 13; retained_growth = count 1 });
  deltas = shaped (record zero_deltas {
    food_count_delta = count 1;
    length_delta = count 1;
    retained_growth_delta = count 1;
  });
  control = shaped one_applied;
}

abbrev pub life : Life
life = record {
  run_id = codes "run";
  world_epoch = codes "0000000000000001";
  lease_id = codes "0000000000000002";
  physical_snake_id = codes "0000000000000003";
  snake_id = 7;
}

abbrev pub idle : Deltas
idle = record {
  elapsed_seconds = 0;
  alive_seconds_delta = 0;
  points_delta = 0;
  survival_points_delta = 0;
  food_points_delta = 0;
  kill_points_delta = 0;
  other_points_delta = 0;
  boost_points_spent_delta = 0;
  food_count_delta = 0;
  food_value_delta = 0;
  length_delta = pos 0;
  retained_growth_delta = pos 0;
  kills_delta = 0;
}

abbrev pub unused : ControlState
unused = record {
  source = none;
  selected_at_step = none;
  accepted_count = 0;
  applied_count = 0;
  superseded_count = 0;
  accepted_command = none;
  applied_command = none;
}

abbrev pub command : Command
command = record {
  sequence = codes "0000000000000001";
  client_action_id = none;
  client_tick = codes "0000000000000000";
  accepted_at_step = codes "0000000000000000";
}

abbrev pub first_reward : Reward
first_reward = record {
  life = life;
  observation_sequence = codes "0000000000000001";
  previous_observation_sequence = none;
  from_step = codes "0000000000000000";
  to_step = codes "0000000000000000";
  transition_kind = codes "initial";
  reason = none;
  state = record { starting_length = 12; body_length = 12; retained_growth = 0 };
  deltas = idle;
  control = unused;
}

abbrev pub meal_reward : Reward
meal_reward = record {
  life = life;
  observation_sequence = codes "0000000000000002";
  previous_observation_sequence = some (codes "0000000000000001");
  from_step = codes "0000000000000000";
  to_step = codes "0000000000000001";
  transition_kind = codes "terminal";
  reason = some (codes "death");
  state = record { starting_length = 12; body_length = 13; retained_growth = 1 };
  deltas = record idle {
    food_count_delta = 1;
    length_delta = pos 1;
    retained_growth_delta = pos 1;
  };
  control = record {
    source = some (codes "client");
    selected_at_step = some (codes "0000000000000000");
    accepted_count = 1;
    applied_count = 1;
    superseded_count = 0;
    accepted_command = some command;
    applied_command =
        some (record { command = command; first_applied_step = codes "0000000000000000" });
  };
}

abbrev pub started : RewardStream
started = record {
  life = some life;
  sequence = some (codes "0000000000000001");
  step = some (codes "0000000000000000");
  closed = false;
  state = some first_reward.state;
  control = some unused;
}

abbrev pub ended : RewardStream
ended = record {
  life = some life;
  sequence = some (codes "0000000000000002");
  step = some (codes "0000000000000001");
  closed = true;
  state = some meal_reward.state;
  control = some meal_reward.control;
}
