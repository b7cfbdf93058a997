-- ===== src/Reward/Control/Evidence.antt =====
-- The control evidence that `_control` returns, by how far the latest command has come.
use py_rl_trainer.Prelude.{
  ap, Option-cases, ℕ, ◌+◌, ◌≤◌, ◌<◌, ◌≡◌, refl, inl, inr, ◌⊎◌, true, false, Option, none, some,
  arith, ok, Bool-cases,
}
use py_rl_trainer.Wire.Str.{Text, codes, text_eq, text_eq_sound, text_eq_refl}
use py_rl_trainer.Wire.Hex.{int_hex}
use py_rl_trainer.Reward.{Command, AppliedCommand, ControlState}
use py_rl_trainer.Reward.Control.{
  check_applied, check_counts, latest_not_applied, is_held, is_below, command_eq, optional_eq,
}
use py_rl_trainer.Reward.Control.Checked.{IsControl, AllReceived, AllApplied}

-- an applied command: accepted, then applied, then still in force at a completed selection
pub record IsApplied (cutoff : ℕ) (c : ControlState) (b : AppliedCommand) : Type 0 where
  pub selected : Text
  pub chosen : c.selected_at_step ≡ some selected
  pub received : int_hex b.command.accepted_at_step ≤ int_hex b.first_applied_step
  pub in_force : int_hex b.first_applied_step ≤ int_hex selected
  pub completed : int_hex selected < cutoff

-- What the evidence of an interval up to `cutoff` can be: no command at all, a first command that
-- waits, the latest command applied, or an earlier one applied. At most the latest command waits;
-- the others were applied or superseded.
pub data IsEvidence (cutoff : ℕ) (c : ControlState) : Type 0 where
  silent :
      c.accepted_command ≡ none
      → c.applied_command ≡ none
      → c.accepted_count ≡ 0
      → c.applied_count ≡ 0
      → c.superseded_count ≡ 0
      → ¬ (c.source ≡ some (codes "held"))
      → IsEvidence cutoff c
  waiting :
      (a : Command)
      → c.accepted_command ≡ some a
      → c.applied_command ≡ none
      → int_hex a.accepted_at_step ≤ cutoff
      → c.applied_count ≡ 0
      → (c.accepted_count ≡ c.superseded_count + 1)
        ⊎ ((c.accepted_count ≡ c.superseded_count) × (0 < c.superseded_count))
      → ¬ (c.source ≡ some (codes "held"))
      → IsEvidence cutoff c
  current :
      (a : Command) (b : AppliedCommand)
      → c.accepted_command ≡ some a
      → c.applied_command ≡ some b
      → b.command ≡ a
      → IsApplied cutoff c b
      → 0 < c.applied_count
      → c.accepted_count ≡ c.applied_count + c.superseded_count
      → IsEvidence cutoff c
  overtaken :
      (a : Command) (b : AppliedCommand)
      → c.accepted_command ≡ some a
      → c.applied_command ≡ some b
      → int_hex b.command.sequence ≤ int_hex a.sequence
      → ¬ (b.command.sequence ≡ a.sequence)
      → int_hex a.accepted_at_step ≤ cutoff
      → IsApplied cutoff c b
      → 0 < c.applied_count
      → (c.accepted_count ≡ c.applied_count + c.superseded_count + 1)
        ⊎ ((c.accepted_count ≡ c.applied_count + c.superseded_count) × (0 < c.superseded_count))
      → IsEvidence cutoff c

pub optional_eq_sound : (a b : Option Text) → optional_eq a b ≡ true → a ≡ b
unfolding optional_eq
optional_eq_sound none none h = refl
optional_eq_sound none (some b) h = cc
optional_eq_sound (some a) none h = cc
optional_eq_sound (some a) (some b) h = ap some (text_eq_sound a b h)

pub differs : (a b : Text) → text_eq a b ≡ false → ¬ (a ≡ b)
differs a b h same = let equal : text_eq a b ≡ true = rw same (text_eq_refl b) in ground arith

command_eq_sound : (a b : Command) → command_eq a b ≡ true → a ≡ b
unfolding command_eq
command_eq_sound a b h = ground (
  arith,
  text_eq_sound a.sequence b.sequence,
  optional_eq_sound a.client_action_id b.client_action_id,
  text_eq_sound a.client_tick b.client_tick,
  text_eq_sound a.accepted_at_step b.accepted_at_step,
)

not_held : (source : Option Text) → is_held source ≡ false → ¬ (source ≡ some (codes "held"))
unfolding is_held text_eq
not_held source h same = let held : is_held source ≡ true = rw same refl in ground arith

performed-IsApplied :
    (cutoff : ℕ) (c : ControlState) (b : AppliedCommand) (selected : Option Text)
    → c.selected_at_step ≡ selected
    → AllApplied cutoff selected (some b)
    → is_below selected cutoff ≡ true
    → IsApplied cutoff c b
performed-IsApplied cutoff c b none h (received, hex, accepted, in_force) below = cc in_force
performed-IsApplied cutoff c b (some selected) h (received, hex, accepted, in_force) below =
    record {
      selected = selected;
      chosen = h;
      received = accepted;
      in_force = ground arith;
      completed = ground arith;
    }

applied_command-IsApplied :
    (cutoff : ℕ) (c : ControlState) (b : AppliedCommand)
    → IsControl cutoff c
    → c.applied_command ≡ some b
    → IsApplied cutoff c b
applied_command-IsApplied cutoff c b s h =
    performed-IsApplied cutoff c b c.selected_at_step refl (rw h at s.performed) s.below

accepted-in_time :
    (cutoff : ℕ) (c : ControlState) (a : Command)
    → IsControl cutoff c
    → c.accepted_command ≡ some a
    → int_hex a.accepted_at_step ≤ cutoff
accepted-in_time cutoff c a s h =
    let received : AllReceived cutoff (some a) = rw h at s.received in received.in_time

counts_unapplied :
    (c : ControlState)
    → check_counts c ≡ ok tt
    → c.applied_command ≡ none
    → (is_held c.source ≡ false) × (c.applied_count ≡ 0)
unfolding check_counts
counts_unapplied c h absent = (ground (arith, h, absent), ground (arith, h, absent))

silent_counts :
    (c : ControlState)
    → check_counts c ≡ ok tt
    → c.accepted_command ≡ none
    → (c.accepted_count ≡ 0) × (c.superseded_count ≡ 0) × (c.applied_command ≡ none)
unfolding check_counts check_applied
silent_counts c h absent = elim (Option-cases c.applied_command) [
  | inl n ↦ (ground (arith, h, absent), ground (arith, h, absent), n)
  | inr (b, s) ↦ ground (arith, h, absent, s)
]

waiting_counts :
    (c : ControlState) (a : Command)
    → check_counts c ≡ ok tt
    → c.accepted_command ≡ some a
    → c.applied_command ≡ none
    → (c.accepted_count ≡ c.superseded_count + 1)
      ⊎ ((c.accepted_count ≡ c.superseded_count) × (0 < c.superseded_count))
unfolding check_counts check_applied latest_not_applied
waiting_counts c a h some_a none_b = ground (arith, h, some_a, none_b)

-- the latest command is the applied one, or an earlier one is
abbrev IsActing : ControlState → Command → AppliedCommand → Type 0
IsActing c a b =
    (0 < c.applied_count)
    × (((b.command ≡ a) × (c.accepted_count ≡ c.applied_count + c.superseded_count))
        ⊎ ((¬ (b.command.sequence ≡ a.sequence))
            × (int_hex b.command.sequence ≤ int_hex a.sequence)
            × ((c.accepted_count ≡ c.applied_count + c.superseded_count + 1)
                ⊎ ((c.accepted_count ≡ c.applied_count + c.superseded_count)
                    × (0 < c.superseded_count)))))

applied_counts :
    (c : ControlState) (a : Command) (b : AppliedCommand)
    → check_counts c ≡ ok tt
    → c.accepted_command ≡ some a
    → c.applied_command ≡ some b
    → IsActing c a b
unfolding check_counts check_applied latest_not_applied
applied_counts c a b h some_a some_b = elim (Bool-cases (text_eq b.command.sequence a.sequence)) [
  | inl same ↦ (
    ground (arith, h, some_a, some_b),
    inl (
      ground (arith, h, some_a, some_b, command_eq_sound b.command a),
      ground (arith, h, some_a, some_b),
    ),
  )
  | inr other ↦ (
    ground (arith, h, some_a, some_b),
    inr (
      (differs b.command.sequence a.sequence other),
      ground (arith, h, some_a, some_b),
      ground (arith, h, some_a, some_b),
    ),
  )
]

-- The control evidence of an admitted interval is of one of the four kinds.
pub IsControl-IsEvidence :
    (cutoff : ℕ) (c : ControlState) → IsControl cutoff c → IsEvidence cutoff c
IsControl-IsEvidence cutoff c s = elim (Option-cases c.accepted_command) [
  | inl none_a ↦
      let (accepted, superseded, none_b) = silent_counts c s.counts none_a in
      let (unheld, applied) = counts_unapplied c s.counts none_b in
      silent none_a none_b accepted applied superseded (not_held c.source unheld)
  | inr (a, some_a) ↦
      let in_time = accepted-in_time cutoff c a s some_a in
      elim (Option-cases c.applied_command) [
        | inl none_b ↦
            let (unheld, applied) = counts_unapplied c s.counts none_b in
            waiting a some_a none_b in_time applied (waiting_counts c a s.counts some_a none_b)
              (not_held c.source unheld)
        | inr (b, some_b) ↦
            let performed = applied_command-IsApplied cutoff c b s some_b in
            let (counted, acting) = applied_counts c a b s.counts some_a some_b in
            elim acting [
              | inl (same, whole) ↦ current a b some_a some_b same performed counted whole
              | inr (other, earlier, whole) ↦
                  overtaken a b some_a some_b earlier other in_time performed counted whole
            ]
      ]
]
