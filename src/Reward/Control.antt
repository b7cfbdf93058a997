-- ===== src/Reward/Control.antt =====
-- `_command`, `_validate_control_selection`, `_control` and `_control_progress`.
pub mod Checked
pub mod Progress
pub mod Monotone
pub mod Errors
pub mod Evidence
use py_rl_trainer.Prelude.{
  ℕ, ◌+◌, Bool, true, false, not, ◌&&◌, ◌||◌, Option, none, some, ok, err, ◌>>=◌, ◌>>◌, guard, ltb,
  leb, ◌==◌, if◌then◌else◌,
}
use py_rl_trainer.Wire.{Value}
use py_rl_trainer.Wire.Str.{Text, codes, text_eq, text_leb}
use py_rl_trainer.Wire.Hex.{int_hex}
use py_rl_trainer.Reward.{
  Admitted, Shaped, shape, identity, exact_count, optional, member, max_exact, RewardWire, Command,
  AppliedCommand, ControlState, reward_contract_error, reward_discontinuity_error, type_error,
}

pub record RawCommand : Type 0 where
  pub sequence : Value
  pub client_action_id : Value
  pub client_tick : Value
  pub accepted_at_step : Value

pub record RawApplied : Type 0 where
  pub command : Shaped RawCommand
  pub first_applied_step : Value

pub record RawControl : Type 0 where
  pub source : Value
  pub selected_at_step : Value
  pub accepted_count : Value
  pub applied_count : Value
  pub superseded_count : Value
  pub accepted_command : Option (Shaped RawCommand)
  pub applied_command : Option (Shaped RawApplied)

-- `_command(raw, cutoff)`
unfoldable pub parse_command : Shaped RawCommand → ℕ → Admitted Command
parse_command raw cutoff = do
  value ← shape raw
  sequence ← identity value.sequence false
  client_action_id ← optional value.client_action_id (identity value.client_action_id false)
  client_tick ← identity value.client_tick true
  accepted_at_step ← identity value.accepted_at_step true
  guard (leb (int_hex accepted_at_step) cutoff) reward_contract_error
  ok (record {
    sequence = sequence;
    client_action_id = client_action_id;
    client_tick = client_tick;
    accepted_at_step = accepted_at_step;
  })

abbrev pub is_none : {A : Type 0} → Option A → Bool
is_none none = true
is_none (some a) = false

-- `a == b` of two tests
abbrev pub agree : Bool → Bool → Bool
agree true b = b
agree false b = not b

-- the selection has completed physics: `int(selected, 16) < cutoff`
abbrev pub is_below : Option Text → ℕ → Bool
is_below none cutoff = true
is_below (some step) cutoff = ltb (int_hex step) cutoff

-- `_validate_control_selection`, with the source and the step that it has checked
unfoldable pub parse_selection : RewardWire → RawControl → ℕ → Admitted (Option Text × Option Text)
parse_selection wire raw cutoff = do
  source ← optional raw.source (member wire.control_sources raw.source)
  selected ← optional raw.selected_at_step (identity raw.selected_at_step true)
  guard (agree (is_none source) (is_none selected)) reward_contract_error
  guard (is_below selected cutoff) reward_contract_error
  ok (source, selected)

unfoldable pub optional_eq : Option Text → Option Text → Bool
optional_eq none none = true
optional_eq (some a) (some b) = text_eq a b
optional_eq _ _ = false

-- `==` of two command dictionaries
unfoldable pub command_eq : Command → Command → Bool
unfolding optional_eq
command_eq a b =
    text_eq a.sequence b.sequence
    && optional_eq a.client_action_id b.client_action_id
    && text_eq a.client_tick b.client_tick
    && text_eq a.accepted_at_step b.accepted_at_step

unfoldable pub parse_accepted : Option (Shaped RawCommand) → ℕ → Admitted (Option Command)
parse_accepted none cutoff = ok none
parse_accepted (some raw) cutoff = do command ← parse_command raw cutoff; ok (some command)

-- `selected is not None and first <= int(selected, 16)`
abbrev pub reaches : Option Text → ℕ → Bool
reaches none first = false
reaches (some selected) first = leb first (int_hex selected)

unfoldable pub parse_applied :
    Option (Shaped RawApplied) → Option Text → ℕ → Admitted (Option AppliedCommand)
parse_applied none selected cutoff = ok none
parse_applied (some raw) selected cutoff = do
  applied ← shape raw
  command ← parse_command applied.command cutoff
  first ← identity applied.first_applied_step true
  guard (reaches selected (int_hex first) && leb (int_hex command.accepted_at_step) (int_hex first))
      reward_contract_error
  ok (some (record { command = command; first_applied_step = first }))

-- the checks of an applied command against the latest accepted one
unfoldable pub check_applied : Option Command → Option AppliedCommand → Admitted Unit
check_applied accepted none = ok tt
check_applied none (some applied) = err reward_contract_error
check_applied (some accepted) (some applied) = do
  guard (leb (int_hex applied.command.sequence) (int_hex accepted.sequence)) reward_contract_error
  guard
      (not (text_eq applied.command.sequence accepted.sequence)
        || command_eq applied.command accepted)
      reward_contract_error

-- `latest_not_applied`
unfoldable pub latest_not_applied : Option Command → Option AppliedCommand → Bool
latest_not_applied none applied = false
latest_not_applied (some accepted) none = true
latest_not_applied (some accepted) (some applied) =
    not (text_eq applied.command.sequence accepted.sequence)

-- `source == "held"`
unfoldable pub is_held : Option Text → Bool
is_held none = false
is_held (some source) = text_eq source (codes "held")

-- The tests on the three counts. `pending` may be negative in Python, so sums are compared here.
unfoldable pub check_counts : ControlState → Admitted Unit
unfolding check_applied latest_not_applied is_held
check_counts c = do
  guard
      (agree (is_none c.accepted_command) (c.accepted_count == 0)
        && agree (is_none c.applied_command) (c.applied_count == 0)
        && not (is_held c.source && is_none c.applied_command))
      reward_contract_error
  check_applied c.accepted_command c.applied_command
  let latest = latest_not_applied c.accepted_command c.applied_command
  let settled = c.applied_count + c.superseded_count
  guard
      (leb settled c.accepted_count
        && leb c.accepted_count (settled + (if latest then 1 else 0))
        && not (latest && c.accepted_count == settled && c.superseded_count == 0))
      reward_contract_error

-- `_control(raw, cutoff)`
unfoldable pub parse_control : RewardWire → Shaped RawControl → ℕ → Admitted ControlState
parse_control wire raw cutoff = do
  value ← shape raw
  selection ← parse_selection wire value cutoff
  accepted_count ← exact_count value.accepted_count 0 max_exact
  applied_count ← exact_count value.applied_count 0 max_exact
  superseded_count ← exact_count value.superseded_count 0 max_exact
  accepted ← parse_accepted value.accepted_command cutoff
  applied ← parse_applied value.applied_command selection.1 cutoff
  let control : ControlState = record {
    source = selection.0;
    selected_at_step = selection.1;
    accepted_count = accepted_count;
    applied_count = applied_count;
    superseded_count = superseded_count;
    accepted_command = accepted;
    applied_command = applied;
  }
  check_counts control
  ok control

unfoldable pub commands_eq : Option Command → Option Command → Bool
unfolding command_eq
commands_eq none none = true
commands_eq (some a) (some b) = command_eq a b
commands_eq _ _ = false

unfoldable pub applied_eq : Option AppliedCommand → Option AppliedCommand → Bool
unfolding command_eq
applied_eq none none = true
applied_eq (some a) (some b) =
    command_eq a.command b.command && text_eq a.first_applied_step b.first_applied_step
applied_eq _ _ = false

abbrev pub sequence_of : Option Command → Option Text
sequence_of none = none
sequence_of (some c) = some c.sequence

abbrev pub applied_sequence : Option AppliedCommand → Option Text
applied_sequence none = none
applied_sequence (some a) = some a.command.sequence

-- `if old is not None: … if new["sequence"] <= old["sequence"]: raise`; a subscript of `None` is
-- Python's TypeError
unfoldable pub check_advance : Option Text → Option Text → Admitted Unit
check_advance none new = ok tt
check_advance (some old) none = err type_error
check_advance (some old) (some new) = guard (not (text_leb new old)) reward_discontinuity_error

-- One round of the loop over counters and markers: `same` is `new == old`, the texts are the
-- sequences of the two commands.
unfoldable pub check_counter : ℕ → ℕ → Bool → Option Text → Option Text → Admitted Unit
unfolding check_advance
check_counter previous current same old new =
    if ltb current previous
    then err reward_discontinuity_error
    else if current == previous
    then guard same reward_discontinuity_error
    else check_advance old new

-- `old is not None and (new is None or int(new, 16) < int(old, 16))`, refuted
unfoldable pub keeps_selection : Option Text → Option Text → Bool
keeps_selection none new = true
keeps_selection (some old) none = false
keeps_selection (some old) (some new) = leb (int_hex old) (int_hex new)

-- the last test: a new application lies after the previous selection
unfoldable pub check_application : Bool → Option Text → Option AppliedCommand → Admitted Unit
check_application false old applied = ok tt
check_application true none applied = ok tt
check_application true (some old) none = err type_error
check_application true (some old) (some applied) =
    guard (not (text_leb applied.first_applied_step old)) reward_discontinuity_error

-- `_control_progress(previous, current)`
unfoldable pub control_progress : ControlState → ControlState → Admitted Unit
unfolding commands_eq applied_eq check_counter keeps_selection optional_eq check_application
control_progress previous current = do
  check_counter previous.accepted_count current.accepted_count
      (commands_eq current.accepted_command previous.accepted_command)
      (sequence_of previous.accepted_command) (sequence_of current.accepted_command)
  check_counter previous.applied_count current.applied_count
      (applied_eq current.applied_command previous.applied_command)
      (applied_sequence previous.applied_command) (applied_sequence current.applied_command)
  guard (leb previous.superseded_count current.superseded_count) reward_discontinuity_error
  guard (keeps_selection previous.selected_at_step current.selected_at_step)
      reward_discontinuity_error
  guard
      (not (optional_eq current.selected_at_step previous.selected_at_step)
        || optional_eq current.source previous.source)
      reward_discontinuity_error
  check_application (ltb previous.applied_count current.applied_count) previous.selected_at_step
      current.applied_command
