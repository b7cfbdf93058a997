-- ===== src/Reward/Tests/Runs.antt =====
-- The two intervals, accepted one after the other.
use py_rl_trainer.Prelude.{[], inl, ◌+◌, ◌≤◌, ◌≡◌, refl, ◌⊎◌, true, false, some, ◌∷◌, ok, err}
use py_rl_trainer.Prelude.Int.{◌-ℤ◌}
use py_rl_trainer.Wire.Str.{Text, codes, text_eq}
use py_rl_trainer.Wire.Hex.{matches_hex, all_hex, is_hex_digit, int_hex, int_hex_from, digit_value}
use py_rl_trainer.Wire.Float.{
  is_finite, is_zero, is_negative, float_of_int, float_add, float_sub, is_close,
}
use py_rl_trainer.Distillation.Client.Descriptor.{value_eq_nat}
use py_rl_trainer.Reward.{
  shaped, shape, identity, number, converted, sign_and_size, exact_integer, exact_count, leb_ℤ,
  optional, found, member, equals, BodyState, Reward, reward_contract_error,
  reward_discontinuity_error,
}
use py_rl_trainer.Reward.Control.{
  parse_command, parse_selection, optional_eq, command_eq, parse_accepted, parse_applied,
  check_applied, latest_not_applied, is_held, check_counts, parse_control, check_counter,
  check_advance, control_progress, keeps_selection, check_application, commands_eq, applied_eq,
}
use py_rl_trainer.Reward.Control.Monotone.{IsProgress}
use py_rl_trainer.Reward.Parse.{
  require_reward_version, parse_run_id, initial, check_lifecycle, parse_state, signed_integer,
  parse_deltas, all_zero, accounted, parse_life, parse_chronology, balances, parse_reward,
}
use py_rl_trainer.Reward.Parse.Sound.{IsReward, parse_reward-IsReward}
use py_rl_trainer.Reward.Parse.Interval.{IsInterval, parse_reward-IsInterval}
use py_rl_trainer.Reward.Stream.{
  new_stream, life_eq, same_life, int_eq, is_closing, check_start, check_progress, committed,
  commit, continues, conserves, admit_reward, accept,
}
use py_rl_trainer.Reward.Stream.Admission.{IsNext, accept_advances, accept_once}
use py_rl_trainer.Reward.Stream.Conservation.{
  Accepts, done, next, IsChange, IsAt, AllOf, accepts_conserve, accepts_advance,
}
use py_rl_trainer.Reward.Stream.Reach.{Reach, created, accepted, accept_raises, accept_progresses}
use py_rl_trainer.Reward.Stream.Closing.{IsRefused, paid, closing_refuses}
use py_rl_trainer.Reward.Components.{RewardCoefficients, Components, reward_components}
use py_rl_trainer.Reward.Components.Baseline.{AllFinite, IsUnpaid, baseline-IsUnpaid}
use py_rl_trainer.Reward.Tests.{
  wire, baseline, meal, first_reward, meal_reward, started, ended, life, unused,
}

baseline_parsed : parse_reward wire (shaped baseline) ≡ ok first_reward
unfolding parse_reward shape require_reward_version value_eq_nat exact_count parse_life parse_run_id
    identity matches_hex all_hex is_hex_digit int_hex int_hex_from digit_value parse_chronology
    member equals text_eq optional found check_lifecycle parse_state parse_deltas number converted
    sign_and_size float_of_int exact_integer leb_ℤ signed_integer all_zero balances accounted
    is_finite is_zero float_add float_sub is_close parse_control parse_selection parse_accepted
    parse_applied check_counts check_applied latest_not_applied is_held is_negative
baseline_parsed = refl

meal_parsed : parse_reward wire (shaped meal) ≡ ok meal_reward
unfolding parse_reward shape require_reward_version value_eq_nat exact_count parse_life parse_run_id
    identity matches_hex all_hex is_hex_digit int_hex int_hex_from digit_value parse_chronology
    member equals text_eq optional found check_lifecycle parse_state parse_deltas number converted
    sign_and_size float_of_int exact_integer leb_ℤ signed_integer all_zero balances accounted
    is_finite is_zero float_add float_sub is_close parse_control parse_selection parse_accepted
    parse_applied parse_command command_eq optional_eq check_counts check_applied latest_not_applied
    is_held is_negative
meal_parsed = refl

pub first_accepted : accept wire new_stream (shaped baseline) 7 ≡ ok (first_reward, started)
unfolding accept admit_reward continues conserves commit check_start check_progress committed
    is_closing same_life text_eq
first_accepted = rw baseline_parsed refl

pub second_accepted : accept wire started (shaped meal) 7 ≡ ok (meal_reward, ended)
unfolding accept admit_reward continues conserves commit check_start check_progress committed
    is_closing same_life life_eq text_eq optional_eq int_eq ◌-ℤ◌ control_progress check_counter
    check_advance commands_eq applied_eq keeps_selection check_application
second_accepted = rw meal_parsed refl

both_accepted : Accepts wire 7 started (meal_reward ∷ []) ended
both_accepted = next (shaped meal) second_accepted done

started-Reach : Reach wire started
started-Reach = accepted created (shaped baseline) 7 first_accepted

first_reward-IsReward : IsReward first_reward
first_reward-IsReward = parse_reward-IsReward wire (shaped baseline) baseline_parsed

parse_reward-IsInterval_example : IsInterval meal_reward
parse_reward-IsInterval_example = parse_reward-IsInterval wire (shaped meal) meal_parsed

accept_advances_example :
    (meal_reward.life ≡ life)
    × (text_eq meal_reward.transition_kind initial ≡ false)
    × IsNext (codes "0000000000000001") (codes "0000000000000000") meal_reward
accept_advances_example =
    accept_advances wire started (shaped meal) 7 life (codes "0000000000000001")
      (codes "0000000000000000") second_accepted refl refl refl

refused_again : accept wire ended (shaped meal) 7 ≡ err reward_discontinuity_error
unfolding accept admit_reward
refused_again = rw meal_parsed refl

accept_once_example : accept wire ended (shaped meal) 7 ≡ err reward_discontinuity_error
accept_once_example = accept_once wire started (shaped meal) 7 second_accepted

accepts_conserve_example :
    (to : BodyState) × (ended.state ≡ some to) × IsChange first_reward.state to (meal_reward ∷ [])
accepts_conserve_example = accepts_conserve first_reward.state both_accepted refl

accepts_advance_example :
    (last end : Text) × IsAt ended life last end
    × AllOf life (meal_reward ∷ [])
    × (int_hex (codes "0000000000000001") + 1 ≤ int_hex last)
    × (int_hex (codes "0000000000000000") ≤ int_hex end)
accepts_advance_example =
    accepts_advance life (codes "0000000000000001") (codes "0000000000000000") both_accepted
      (record { life = refl; numbered = refl; at = refl })

accept_raises_example :
    ((parse_reward wire (shaped meal) ≡ err reward_contract_error)
      × (reward_discontinuity_error ≡ reward_contract_error))
    ⊎ ((r : Reward) × (parse_reward wire (shaped meal) ≡ ok r)
        × (reward_discontinuity_error ≡ reward_discontinuity_error))
accept_raises_example = accept_raises wire ended (shaped meal) 7 refused_again

closing_refuses_example : IsRefused wire ended (shaped baseline) 9
closing_refuses_example =
    closing_refuses (shaped baseline) 9
      (paid started meal_reward (shaped meal) 7 second_accepted (inl refl))

accept_progresses_example : IsProgress unused meal_reward.control
accept_progresses_example =
    accept_progresses unused meal_reward (shaped meal) 7 started-Reach refl second_accepted

abbrev ones : RewardCoefficients
ones = record {
  survival = 4607182418800017408;
  food = 4607182418800017408;
  growth = 4607182418800017408;
  points = 4607182418800017408;
  kills = 4607182418800017408;
  death_penalty = 4607182418800017408;
}

ones-AllFinite : AllFinite ones
unfolding is_finite
ones-AllFinite = record { survival = refl; food = refl; growth = refl; points = refl; kills = refl }

first_kind : text_eq first_reward.transition_kind initial ≡ true
unfolding text_eq
first_kind = refl

baseline-IsUnpaid_example :
    (p : Components) × (reward_components first_reward ones ≡ ok p) × IsUnpaid p
baseline-IsUnpaid_example =
    baseline-IsUnpaid first_reward ones first_reward-IsReward first_kind ones-AllFinite
