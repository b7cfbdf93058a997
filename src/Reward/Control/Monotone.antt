-- ===== src/Reward/Control/Monotone.antt =====
-- Between two admitted control states of one life the counters, the command sequences and the
-- selection only go forward.
use py_rl_trainer.Prelude.{
  ℕ, ◌≤◌, ◌<◌, ◌≡◌, inl, inr, Bool, true, Option, none, some, arith, ok, Result-cases,
}
use py_rl_trainer.Wire.Str.{Text}
use py_rl_trainer.Wire.Hex.{int_hex}
use py_rl_trainer.Wire.Hex.Order.{hex_above}
use py_rl_trainer.Reward.{Command, AppliedCommand, ControlState}
use py_rl_trainer.Reward.Control.{
  check_counter, check_advance, control_progress, commands_eq, applied_eq, sequence_of,
  applied_sequence, keeps_selection,
}
use py_rl_trainer.Reward.Control.Checked.{IsControl, AllReceived, AllApplied, AllHex}

-- a later command has a larger sequence number
abbrev pub IsLater : Option Text → Option Text → Type 0
IsLater none new = Unit
IsLater (some old) none = ⊥
IsLater (some old) (some new) = int_hex old < int_hex new

check_advance-IsLater :
    (old new : Option Text)
    → AllHex old
    → AllHex new
    → check_advance old new ≡ ok tt
    → IsLater old new
unfolding check_advance
check_advance-IsLater none new h k passed = tt
check_advance-IsLater (some old) none h k passed = ground arith
check_advance-IsLater (some old) (some new) h k passed = hex_above 16 old new h k (ground arith)

check_counter-IsLater :
    (previous current : ℕ) (same : Bool) (old new : Option Text)
    → AllHex old
    → AllHex new
    → check_counter previous current same old new ≡ ok tt
    → (previous ≤ current) × (previous < current → IsLater old new)
unfolding check_counter
check_counter-IsLater previous current same old new h k passed =
    (ground arith, λ more. check_advance-IsLater old new h k (ground arith))

AllReceived-AllHex :
    (cutoff : ℕ) (c : Option Command) → AllReceived cutoff c → AllHex (sequence_of c)
AllReceived-AllHex cutoff none h = tt
AllReceived-AllHex cutoff (some c) h = h.sequence_hex

AllApplied-AllHex :
    (cutoff : ℕ) (selected : Option Text) (a : Option AppliedCommand)
    → AllApplied cutoff selected a
    → AllHex (applied_sequence a)
AllApplied-AllHex cutoff selected none h = tt
AllApplied-AllHex cutoff selected (some a) h = h.0.sequence_hex

pub record IsProgress (previous current : ControlState) : Type 0 where
  pub accepted : previous.accepted_count ≤ current.accepted_count
  pub applied : previous.applied_count ≤ current.applied_count
  pub superseded : previous.superseded_count ≤ current.superseded_count
  pub accepted_later :
      previous.accepted_count < current.accepted_count
      → IsLater (sequence_of previous.accepted_command) (sequence_of current.accepted_command)
  pub applied_later :
      previous.applied_count < current.applied_count
      → IsLater
          (applied_sequence previous.applied_command)
          (applied_sequence current.applied_command)
  pub selection : keeps_selection previous.selected_at_step current.selected_at_step ≡ true

pub control_progress-IsProgress :
    (early late : ℕ) (previous current : ControlState)
    → IsControl early previous
    → IsControl late current
    → control_progress previous current ≡ ok tt
    → IsProgress previous current
unfolding control_progress
control_progress-IsProgress early late previous current p c h =
    elim (Result-cases (
      check_counter previous.accepted_count current.accepted_count
        (commands_eq current.accepted_command previous.accepted_command)
        (sequence_of previous.accepted_command) (sequence_of current.accepted_command))) [
          | inr (x, e) ↦ ground arith
          | inl (u, accepted) ↦
              elim (Result-cases (
                check_counter previous.applied_count current.applied_count
                  (applied_eq current.applied_command previous.applied_command)
                  (applied_sequence previous.applied_command)
                  (applied_sequence current.applied_command))) [
                    | inr (x, e) ↦ ground arith
                    | inl (w, applied) ↦
                        let received =
                          check_counter-IsLater previous.accepted_count current.accepted_count
                            (commands_eq current.accepted_command previous.accepted_command)
                            (sequence_of previous.accepted_command)
                            (sequence_of current.accepted_command)
                            (AllReceived-AllHex early previous.accepted_command p.received)
                            (AllReceived-AllHex late current.accepted_command c.received)
                            accepted in
                        let performed =
                          check_counter-IsLater previous.applied_count current.applied_count
                            (applied_eq current.applied_command previous.applied_command)
                            (applied_sequence previous.applied_command)
                            (applied_sequence current.applied_command)
                            (AllApplied-AllHex early previous.selected_at_step
                              previous.applied_command p.performed)
                            (AllApplied-AllHex late current.selected_at_step current.applied_command
                              c.performed)
                            applied in
                        record {
                          accepted = received.0;
                          applied = performed.0;
                          superseded = ground arith;
                          accepted_later = received.1;
                          applied_later = performed.1;
                          selection = ground arith;
                        }
                  ]
        ]
