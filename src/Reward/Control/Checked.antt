-- ===== src/Reward/Control/Checked.antt =====
-- What `_control` has established of the control evidence that it returns.
use py_rl_trainer.Prelude.{
  ℕ, ◌+◌, ◌≤◌, ◌≡◌, inl, inr, Bool, true, false, Option, none, some, arith, ok, ◌==◌, Result-cases,
}
use py_rl_trainer.Wire.{Value}
use py_rl_trainer.Wire.Str.{Text}
use py_rl_trainer.Wire.Hex.{int_hex, matches_hex}
use py_rl_trainer.Reward.{
  Shaped, shape, identity, exact_count, optional, optional-eq-ok, member, max_exact, RewardWire,
  Command, AppliedCommand, ControlState,
}
use py_rl_trainer.Reward.Control.{
  RawCommand, RawApplied, RawControl, parse_command, parse_selection, parse_accepted, parse_applied,
  check_applied, check_counts, parse_control, is_none, is_below, reaches, agree,
}

pub identity-matches_hex :
    (v : Value) (zero_allowed : Bool) {t : Text}
    → identity v zero_allowed ≡ ok t
    → matches_hex 16 t ≡ true
unfolding identity
identity-matches_hex v zero_allowed h = ground arith

abbrev pub AllHex : Option Text → Type 0
AllHex none = Unit
AllHex (some t) = matches_hex 16 t ≡ true

pub optional-AllHex :
    (v : Value) (zero_allowed : Bool) {t : Option Text}
    → optional v (identity v zero_allowed) ≡ ok t
    → AllHex t
optional-AllHex v zero_allowed h = elim (optional-eq-ok v (identity v zero_allowed) h) [
  | inl absent ↦ rw absent tt
  | inr (a, checked, present) ↦ rw present (identity-matches_hex v zero_allowed checked)
]

-- a command that was received by the cutoff
pub record IsReceived (cutoff : ℕ) (c : Command) : Type 0 where
  pub sequence_hex : matches_hex 16 c.sequence ≡ true
  pub in_time : int_hex c.accepted_at_step ≤ cutoff

parse_command-IsReceived :
    (raw : Shaped RawCommand) (cutoff : ℕ) {c : Command}
    → parse_command raw cutoff ≡ ok c
    → IsReceived cutoff c
unfolding parse_command
parse_command-IsReceived raw cutoff {c} h = elim (Result-cases (shape raw)) [
  | inr (x, e) ↦ ground arith
  | inl (value, e) ↦ elim (Result-cases (identity value.sequence false)) [
    | inr (x, k) ↦ ground arith
    | inl (sequence, read) ↦
        let hex = identity-matches_hex value.sequence false read in
        elim (Result-cases
          (optional value.client_action_id (identity value.client_action_id false))) [
            | inr (x, k) ↦ ground arith
            | inl (action, k) ↦ elim (Result-cases (identity value.client_tick true)) [
              | inr (x, l) ↦ ground arith
              | inl (tick, l) ↦ elim (Result-cases (identity value.accepted_at_step true)) [
                | inr (x, m) ↦ ground arith
                | inl (at, m) ↦
                    let same : c.sequence ≡ sequence = ground arith in
                    record { sequence_hex = rw same hex; in_time = ground arith }
              ]
            ]
          ]
  ]
]

abbrev pub AllReceived : ℕ → Option Command → Type 0
AllReceived cutoff none = Unit
AllReceived cutoff (some c) = IsReceived cutoff c

parse_accepted-AllReceived :
    (raw : Option (Shaped RawCommand)) (cutoff : ℕ) {c : Option Command}
    → parse_accepted raw cutoff ≡ ok c
    → AllReceived cutoff c
unfolding parse_accepted
parse_accepted-AllReceived none cutoff {c} h = let absent : c ≡ none = ground arith in rw absent tt
parse_accepted-AllReceived (some raw) cutoff {c} h =
    elim (Result-cases (parse_command raw cutoff)) [
      | inr (x, e) ↦ ground arith
      | inl (command, e) ↦
          let present : c ≡ some command = ground arith in
          rw present (parse_command-IsReceived raw cutoff e)
    ]

-- the command was received before it was applied, and applied by the selection
abbrev pub AllApplied : ℕ → Option Text → Option AppliedCommand → Type 0
AllApplied cutoff selected none = Unit
AllApplied cutoff selected (some a) =
    IsReceived cutoff a.command
    × (matches_hex 16 a.first_applied_step ≡ true)
    × (int_hex a.command.accepted_at_step ≤ int_hex a.first_applied_step)
    × (reaches selected (int_hex a.first_applied_step) ≡ true)

parse_applied-AllApplied :
    (raw : Option (Shaped RawApplied)) (selected : Option Text) (cutoff : ℕ)
    {c : Option AppliedCommand}
    → parse_applied raw selected cutoff ≡ ok c
    → AllApplied cutoff selected c
unfolding parse_applied
parse_applied-AllApplied none selected cutoff {c} h =
    let absent : c ≡ none = ground arith in rw absent tt
parse_applied-AllApplied (some raw) selected cutoff {c} h = elim (Result-cases (shape raw)) [
  | inr (x, e) ↦ ground arith
  | inl (applied, e) ↦ elim (Result-cases (parse_command applied.command cutoff)) [
    | inr (x, k) ↦ ground arith
    | inl (command, read) ↦ elim (Result-cases (identity applied.first_applied_step true)) [
      | inr (x, k) ↦ ground arith
      | inl (first, k) ↦
          let present : c ≡ some (record { command = command; first_applied_step = first }) =
            ground arith in
          rw present (
            parse_command-IsReceived applied.command cutoff read,
            identity-matches_hex applied.first_applied_step true k,
            ground arith,
            ground arith,
          )
    ]
  ]
]

pub record IsControl (cutoff : ℕ) (c : ControlState) : Type 0 where
  pub counts : check_counts c ≡ ok tt
  pub selected_hex : AllHex c.selected_at_step
  pub below : is_below c.selected_at_step cutoff ≡ true
  pub received : AllReceived cutoff c.accepted_command
  pub performed : AllApplied cutoff c.selected_at_step c.applied_command

parse_selection-below :
    (wire : RewardWire) (raw : RawControl) (cutoff : ℕ) {s : Option Text × Option Text}
    → parse_selection wire raw cutoff ≡ ok s
    → AllHex (s.1) × (is_below (s.1) cutoff ≡ true)
unfolding parse_selection
parse_selection-below wire raw cutoff {s} h =
    elim (Result-cases (optional raw.source (member wire.control_sources raw.source))) [
      | inr (x, e) ↦ ground arith
      | inl (source, e) ↦
          elim (Result-cases (optional raw.selected_at_step (identity raw.selected_at_step true))) [
            | inr (x, k) ↦ ground arith
            | inl (selected, k) ↦
                let same : s.1 ≡ selected = ground arith in
                rw same (optional-AllHex raw.selected_at_step true k, ground arith)
          ]
    ]

pub parse_control-IsControl :
    (wire : RewardWire) (raw : Shaped RawControl) (cutoff : ℕ) {c : ControlState}
    → parse_control wire raw cutoff ≡ ok c
    → IsControl cutoff c
unfolding parse_control
parse_control-IsControl wire raw cutoff {c} h = elim (Result-cases (shape raw)) [
  | inr (x, e) ↦ ground arith
  | inl (v, e) ↦ elim (Result-cases (parse_selection wire v cutoff)) [
    | inr (x, k) ↦ ground arith
    | inl (s, selection) ↦ elim (Result-cases (exact_count v.accepted_count 0 max_exact)) [
      | inr (x, k) ↦ ground arith
      | inl (n, k) ↦ elim (Result-cases (exact_count v.applied_count 0 max_exact)) [
        | inr (x, l) ↦ ground arith
        | inl (p, l) ↦ elim (Result-cases (exact_count v.superseded_count 0 max_exact)) [
          | inr (x, m) ↦ ground arith
          | inl (q, m) ↦ elim (Result-cases (parse_accepted v.accepted_command cutoff)) [
            | inr (x, r) ↦ ground arith
            | inl (accepted, read) ↦
                elim (Result-cases (parse_applied v.applied_command s.1 cutoff)) [
                  | inr (x, r) ↦ ground arith
                  | inl (applied, done) ↦
                      let control : ControlState = record {
                        source = s.0;
                        selected_at_step = s.1;
                        accepted_count = n;
                        applied_count = p;
                        superseded_count = q;
                        accepted_command = accepted;
                        applied_command = applied;
                      } in
                      elim (Result-cases (check_counts control)) [
                        | inr (x, r) ↦ ground arith
                        | inl (u, passed) ↦
                            let made : c ≡ control = ground arith in
                            let where_to = parse_selection-below wire v cutoff selection in
                            rw made (record {
                              counts = passed;
                              selected_hex = where_to.0;
                              below = where_to.1;
                              received = parse_accepted-AllReceived v.accepted_command cutoff read;
                              performed =
                                  parse_applied-AllApplied v.applied_command s.1 cutoff done;
                            })
                      ]
                ]
          ]
        ]
      ]
    ]
  ]
]

-- Every accepted command has been applied or superseded, but for the latest one at most.
pub counts_conserve :
    (c : ControlState)
    → check_counts c ≡ ok tt
    → (c.applied_count + c.superseded_count ≤ c.accepted_count)
      × (c.accepted_count ≤ c.applied_count + c.superseded_count + 1)
unfolding check_counts
counts_conserve c h = elim (Result-cases (check_applied c.accepted_command c.applied_command)) [
  | inr (x, e) ↦ ground arith
  | inl (u, e) ↦ ground arith
]

pub applied_present :
    (c : ControlState)
    → check_counts c ≡ ok tt
    → agree (is_none c.applied_command) (c.applied_count == 0) ≡ true
unfolding check_counts
applied_present c h = ground arith

pub accepted_present :
    (c : ControlState)
    → check_counts c ≡ ok tt
    → agree (is_none c.accepted_command) (c.accepted_count == 0) ≡ true
unfolding check_counts
accepted_present c h = ground arith
