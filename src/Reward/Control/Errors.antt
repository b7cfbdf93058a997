-- ===== src/Reward/Control/Errors.antt =====
-- `_control` raises `RewardContractError` and nothing else.
use py_rl_trainer.Prelude.{ℕ, Option, none, some}
use py_rl_trainer.Wire.Str.{Text}
use py_rl_trainer.Reward.{Shaped, RewardWire, Command, AppliedCommand, ControlState}
use py_rl_trainer.Reward.Errors.{OnlyContract, returns, raises, raising, scalars}
use py_rl_trainer.Reward.Control.{
  RawCommand, RawApplied, RawControl, parse_command, parse_selection, parse_accepted, parse_applied,
  check_applied, check_counts, parse_control,
}

command-OnlyContract :
    (raw : Shaped RawCommand) (cutoff : ℕ) → OnlyContract (parse_command raw cutoff)
unfolding parse_command
command-OnlyContract raw cutoff = search scalars depth 40

selection-OnlyContract :
    (wire : RewardWire) (raw : RawControl) (cutoff : ℕ)
    → OnlyContract (parse_selection wire raw cutoff)
unfolding parse_selection
selection-OnlyContract wire raw cutoff = search scalars depth 40

accepted-OnlyContract :
    (raw : Option (Shaped RawCommand)) (cutoff : ℕ) → OnlyContract (parse_accepted raw cutoff)
unfolding parse_accepted
accepted-OnlyContract none cutoff = returns none
accepted-OnlyContract (some raw) cutoff = search (scalars, command-OnlyContract) depth 20

applied-OnlyContract :
    (raw : Option (Shaped RawApplied)) (selected : Option Text) (cutoff : ℕ)
    → OnlyContract (parse_applied raw selected cutoff)
unfolding parse_applied
applied-OnlyContract none selected cutoff = returns none
applied-OnlyContract (some raw) selected cutoff = search (scalars, command-OnlyContract) depth 30

check_applied-OnlyContract :
    (accepted : Option Command) (applied : Option AppliedCommand)
    → OnlyContract (check_applied accepted applied)
unfolding check_applied
check_applied-OnlyContract none none = returns tt
check_applied-OnlyContract (some accepted) none = returns tt
check_applied-OnlyContract none (some applied) = raises
check_applied-OnlyContract (some accepted) (some applied) = search raising depth 20

counts-OnlyContract : (c : ControlState) → OnlyContract (check_counts c)
unfolding check_counts
counts-OnlyContract c = search (raising, check_applied-OnlyContract) depth 20

pub control-OnlyContract :
    (wire : RewardWire) (raw : Shaped RawControl) (cutoff : ℕ)
    → OnlyContract (parse_control wire raw cutoff)
unfolding parse_control
control-OnlyContract wire raw cutoff =
    search
      (
        scalars, selection-OnlyContract, accepted-OnlyContract, applied-OnlyContract,
        counts-OnlyContract,
      )
      depth 60
