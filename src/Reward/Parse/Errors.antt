-- ===== src/Reward/Parse/Errors.antt =====
-- `parse_reward` raises `RewardContractError` and nothing else.
use py_rl_trainer.Prelude.{◌≡◌, err, Option}
use py_rl_trainer.Wire.{Value, null, bool, int, float, str, other}
use py_rl_trainer.Wire.Str.{Text}
use py_rl_trainer.Reward.{Shaped, RewardWire, RewardError, reward_contract_error}
use py_rl_trainer.Reward.Errors.{OnlyContract, raises, raised, raising, scalars}
use py_rl_trainer.Reward.Control.Errors.{control-OnlyContract}
use py_rl_trainer.Reward.Parse.{
  RawReward, RawState, RawDeltas, parse_run_id, parse_life, parse_chronology, parse_state,
  parse_deltas, signed_integer, check_lifecycle, require_reward_version, parse_reward,
}

run_id-OnlyContract : (v : Value) → OnlyContract (parse_run_id v)
unfolding parse_run_id
run_id-OnlyContract (str s) = search raising
run_id-OnlyContract null = raises
run_id-OnlyContract (bool b) = raises
run_id-OnlyContract (int n) = raises
run_id-OnlyContract (float x) = raises
run_id-OnlyContract other = raises

parse_life-OnlyContract : (raw : RawReward) → OnlyContract (parse_life raw)
unfolding parse_life
parse_life-OnlyContract raw = search (scalars, run_id-OnlyContract) depth 40

lifecycle-OnlyContract :
    (kind : Text) (reason predecessor : Option Text) (sequence from to : Text)
    → OnlyContract (check_lifecycle kind reason predecessor sequence from to)
unfolding check_lifecycle
lifecycle-OnlyContract kind reason predecessor sequence from to = search raising depth 40

chronology-OnlyContract :
    (wire : RewardWire) (raw : RawReward) → OnlyContract (parse_chronology wire raw)
unfolding parse_chronology
chronology-OnlyContract wire raw = search (scalars, lifecycle-OnlyContract) depth 40

state-OnlyContract : (raw : Shaped RawState) → OnlyContract (parse_state raw)
unfolding parse_state
state-OnlyContract raw = search scalars depth 40

deltas-OnlyContract : (raw : Shaped RawDeltas) → OnlyContract (parse_deltas raw)
unfolding parse_deltas signed_integer
deltas-OnlyContract raw = search scalars depth 60

version-OnlyContract :
    (wire : RewardWire) (v : Value) → OnlyContract (require_reward_version wire v)
unfolding require_reward_version
version-OnlyContract wire v = search scalars depth 40

parse_reward-OnlyContract :
    (wire : RewardWire) (raw : Shaped RawReward) → OnlyContract (parse_reward wire raw)
unfolding parse_reward
parse_reward-OnlyContract wire raw =
    search
      (
        scalars, version-OnlyContract, parse_life-OnlyContract, chronology-OnlyContract,
        state-OnlyContract, deltas-OnlyContract, control-OnlyContract,
      )
      depth 60

-- A raw envelope that `parse_reward` refuses is refused with `RewardContractError`, never with
-- `RewardDiscontinuityError` or an error of Python.
pub parse_reward_raises :
    (wire : RewardWire) (raw : Shaped RawReward) {x : RewardError}
    → parse_reward wire raw ≡ err x
    → x ≡ reward_contract_error
parse_reward_raises wire raw h = raised (parse_reward-OnlyContract wire raw) h
