-- ===== src/Reward/Parse/Sound.antt =====
-- What `parse_reward` has established of the envelope that it returns.
use py_rl_trainer.Prelude.{
  ◌-◌, ◌≡◌, refl, ap, inl, inr, true, false, Option, none, some, arith, ok, Result-cases,
}
use py_rl_trainer.Wire.Str.{Text, text_eq, text_eq_sound}
use py_rl_trainer.Wire.Hex.{int_hex}
use py_rl_trainer.Reward.{Shaped, shape, RewardWire, BodyState, Reward}
use py_rl_trainer.Reward.Control.{parse_control, is_none}
use py_rl_trainer.Reward.Control.Checked.{IsControl, parse_control-IsControl}
use py_rl_trainer.Reward.Parse.{
  RawReward, RawState, Chronology, parse_life, parse_chronology, parse_state, parse_deltas,
  parse_reward, require_reward_version, all_zero, balances, check_lifecycle, initial, live,
  terminal, truncated, death, precedes, is_text,
}
use py_rl_trainer.Reward.Parse.Chronicle.{IsChronicle, parse_chronology-IsChronicle}

abbrev pub chronology_of : Reward → Chronology
chronology_of r = record {
  sequence = r.observation_sequence;
  predecessor = r.previous_observation_sequence;
  from = r.from_step;
  to = r.to_step;
  kind = r.transition_kind;
  reason = r.reason;
}

pub record IsReward (r : Reward) : Type 0 where
  pub chronicle : IsChronicle (chronology_of r)
  pub retained : r.state.retained_growth ≡ r.state.body_length - r.state.starting_length
  pub baseline : text_eq r.transition_kind initial ≡ true → all_zero r.deltas ≡ true
  pub balanced : balances r.deltas ≡ true
  pub controlled : IsControl (int_hex r.to_step) r.control

parse_state-retained :
    (raw : Shaped RawState) {s : BodyState}
    → parse_state raw ≡ ok s
    → s.retained_growth ≡ s.body_length - s.starting_length
unfolding parse_state
parse_state-retained raw h = elim (Result-cases (shape raw)) [
  | inr (x, e) ↦ ground arith
  | inl (value, e) ↦ ground arith
]

-- The checks of `parse_reward` hold of what it returns.
pub parse_reward-IsReward :
    (wire : RewardWire) (raw : Shaped RawReward) {r : Reward}
    → parse_reward wire raw ≡ ok r
    → IsReward r
unfolding parse_reward
parse_reward-IsReward wire raw {r} h = elim (Result-cases (shape raw)) [
  | inr (x, e) ↦ ground arith
  | inl (v, e) ↦ elim (Result-cases (require_reward_version wire v.reward_version)) [
    | inr (x, k) ↦ ground arith
    | inl (u, k) ↦ elim (Result-cases (parse_life v)) [
      | inr (x, l) ↦ ground arith
      | inl (life, l) ↦ elim (Result-cases (parse_chronology wire v)) [
        | inr (x, m) ↦ ground arith
        | inl (times, timed) ↦ elim (Result-cases (parse_state v.state)) [
          | inr (x, m) ↦ ground arith
          | inl (state, grown) ↦ elim (Result-cases (parse_deltas v.deltas)) [
            | inr (x, m) ↦ ground arith
            | inl (deltas, m) ↦
                elim (Result-cases (parse_control wire v.control (int_hex times.to))) [
                  | inr (x, n) ↦ ground arith
                  | inl (control, acted) ↦
                      let made : r ≡ record {
                        life = life;
                        observation_sequence = times.sequence;
                        previous_observation_sequence = times.predecessor;
                        from_step = times.from;
                        to_step = times.to;
                        transition_kind = times.kind;
                        reason = times.reason;
                        state = state;
                        deltas = deltas;
                        control = control;
                      } =
                        ground arith in
                      rw made (record {
                        chronicle = parse_chronology-IsChronicle wire v timed;
                        retained = parse_state-retained v.state grown;
                        baseline = λ first. ground arith;
                        balanced = ground arith;
                        controlled =
                            parse_control-IsControl wire v.control (int_hex times.to) acted;
                      })
                ]
          ]
        ]
      ]
    ]
  ]
]

is_text_sound : (reason : Option Text) (t : Text) → is_text reason t ≡ true → reason ≡ some t
is_text_sound none t h = cc
is_text_sound (some s) t h = ap some (text_eq_sound s t h)

is_none_sound : {A : Type 0} (a : Option A) → is_none a ≡ true → a ≡ none
is_none_sound none h = refl
is_none_sound (some a) h = cc

-- The lifecycle of an admitted interval, kind by kind.
pub check_lifecycle-closing :
    (kind : Text) (reason predecessor : Option Text) (sequence from to : Text)
    → check_lifecycle kind reason predecessor sequence from to ≡ ok tt
    → (precedes predecessor sequence ≡ true)
      × (text_eq kind initial ≡ true → (predecessor ≡ none) × (reason ≡ none) × (from ≡ to))
      × (text_eq kind live ≡ true → reason ≡ none)
      × (text_eq kind terminal ≡ true → reason ≡ some death)
      × (text_eq kind truncated ≡ true → (is_none reason ≡ false) × (is_text reason death ≡ false))
unfolding check_lifecycle
check_lifecycle-closing kind reason predecessor sequence from to h = (
  ground arith,
  λ first. (
    ground (arith, is_none_sound predecessor),
    ground (arith, is_none_sound reason),
    ground (arith, text_eq_sound from to),
  ),
  λ going. ground (arith, is_none_sound reason),
  λ dead. ground (arith, is_text_sound reason death),
  λ cut. (ground arith, ground arith),
)
