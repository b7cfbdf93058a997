-- ===== src/Reward/Control/Progress.antt =====
-- What `_control_progress` asks of the next control evidence, and that it never subscripts `None`.
use py_rl_trainer.Prelude.{
  ℕ, ◌≡◌, refl, inl, inr, Bool, true, false, not, Option, none, some, arith, ok, ltb, ◌==◌,
  Bool-cases,
}
use py_rl_trainer.Wire.Str.{Text, text_leb}
use py_rl_trainer.Reward.{
  Admitted, Command, AppliedCommand, ControlState, reward_discontinuity_error,
}
use py_rl_trainer.Reward.Errors.{Only, returns, raises, guard-Only, raising}
use py_rl_trainer.Reward.Control.{
  check_counts, check_counter, check_advance, check_application, control_progress, sequence_of,
  applied_sequence, is_none, agree,
}
use py_rl_trainer.Reward.Control.Checked.{applied_present, accepted_present}

abbrev OnlyDiscontinuity : Admitted Unit → Type 0
OnlyDiscontinuity m = Only reward_discontinuity_error m

advance-OnlyDiscontinuity :
    (old new : Option Text) → is_none new ≡ false → OnlyDiscontinuity (check_advance old new)
unfolding check_advance
advance-OnlyDiscontinuity none new h = returns tt
advance-OnlyDiscontinuity (some old) none h = cc
advance-OnlyDiscontinuity (some old) (some new) h = guard-Only (not (text_leb new old))

counter-OnlyDiscontinuity :
    (previous current : ℕ) (same : Bool) (old new : Option Text)
    → agree (is_none new) (current == 0) ≡ true
    → OnlyDiscontinuity (check_counter previous current same old new)
unfolding check_counter
counter-OnlyDiscontinuity previous current same old new counted =
    elim (Bool-cases (ltb current previous)) [
      | inl less ↦ rw less raises
      | inr least ↦ elim (Bool-cases (current == previous)) [
        | inl equal ↦ rw (least, equal) (guard-Only same)
        | inr more ↦ rw (least, more) (advance-OnlyDiscontinuity old new (ground arith))
      ]
    ]

application-OnlyDiscontinuity :
    (more : Bool) (old : Option Text) (applied : Option AppliedCommand)
    → (more ≡ true → is_none applied ≡ false)
    → OnlyDiscontinuity (check_application more old applied)
unfolding check_application
application-OnlyDiscontinuity false old applied h = returns tt
application-OnlyDiscontinuity true none applied h = returns tt
application-OnlyDiscontinuity true (some old) none h = cc (h refl)
application-OnlyDiscontinuity true (some old) (some applied) h =
    guard-Only (not (text_leb applied.first_applied_step old))

sequence_of-agree :
    (n : ℕ) (c : Option Command)
    → agree (is_none c) (n == 0) ≡ true
    → agree (is_none (sequence_of c)) (n == 0) ≡ true
sequence_of-agree n none h = h
sequence_of-agree n (some c) h = h

applied_sequence-agree :
    (n : ℕ) (c : Option AppliedCommand)
    → agree (is_none c) (n == 0) ≡ true
    → agree (is_none (applied_sequence c)) (n == 0) ≡ true
applied_sequence-agree n none h = h
applied_sequence-agree n (some c) h = h

-- `_control_progress` raises `RewardDiscontinuityError` and nothing else, where `_control` has
-- admitted the current evidence: the commands that it subscripts are there.
pub control_progress-Only :
    (previous current : ControlState)
    → check_counts current ≡ ok tt
    → Only reward_discontinuity_error (control_progress previous current)
unfolding control_progress
control_progress-Only previous current counted =
    let accepted = accepted_present current counted in
    let applied = applied_present current counted in
    let received = sequence_of-agree current.accepted_count current.accepted_command accepted in
    let performed = applied_sequence-agree current.applied_count current.applied_command applied in
    let present : ltb previous.applied_count current.applied_count ≡ true
        → is_none current.applied_command ≡ false =
      λ more. ground arith in
    search (raising, counter-OnlyDiscontinuity, application-OnlyDiscontinuity) depth 30
