-- ===== src/Reward/Parse/Chronicle.antt =====
-- What `parse_reward` has established of the sequence numbers, the steps and the lifecycle.
use py_rl_trainer.Prelude.{◌≤◌, ◌≡◌, inl, inr, true, false, arith, ok, Result-cases}
use py_rl_trainer.Wire.Hex.{int_hex, matches_hex}
use py_rl_trainer.Reward.{identity, optional, member, RewardWire}
use py_rl_trainer.Reward.Control.Checked.{identity-matches_hex, AllHex, optional-AllHex}
use py_rl_trainer.Reward.Parse.{RawReward, Chronology, parse_chronology, check_lifecycle}

pub record IsChronicle (c : Chronology) : Type 0 where
  pub sequence_hex : matches_hex 16 c.sequence ≡ true
  pub from_hex : matches_hex 16 c.from ≡ true
  pub to_hex : matches_hex 16 c.to ≡ true
  pub predecessor_hex : AllHex c.predecessor
  pub forward : int_hex c.from ≤ int_hex c.to
  pub lifecycle : check_lifecycle c.kind c.reason c.predecessor c.sequence c.from c.to ≡ ok tt

pub parse_chronology-IsChronicle :
    (wire : RewardWire) (raw : RawReward) {c : Chronology}
    → parse_chronology wire raw ≡ ok c
    → IsChronicle c
unfolding parse_chronology
parse_chronology-IsChronicle wire raw {c} h =
    elim (Result-cases (identity raw.observation_sequence false)) [
      | inr (x, e) ↦ ground arith
      | inl (sequence, read_sequence) ↦ elim (Result-cases (identity raw.from_step true)) [
        | inr (x, e) ↦ ground arith
        | inl (from, read_from) ↦ elim (Result-cases (identity raw.to_step true)) [
          | inr (x, e) ↦ ground arith
          | inl (to, read_to) ↦
              elim (Result-cases (member wire.transition_kinds raw.transition_kind)) [
                | inr (x, e) ↦ ground arith
                | inl (kind, read_kind) ↦
                    elim (Result-cases (optional raw.reason (member wire.end_reasons raw.reason))) [
                      | inr (x, e) ↦ ground arith
                      | inl (reason, read_reason) ↦
                          elim (Result-cases (
                            optional raw.previous_observation_sequence
                              (identity raw.previous_observation_sequence false))) [
                                | inr (x, e) ↦ ground arith
                                | inl (predecessor, read_predecessor) ↦
                                    elim (Result-cases
                                      (check_lifecycle kind reason predecessor sequence from to)) [
                                        | inr (x, e) ↦ ground arith
                                        | inl (u, passed) ↦
                                            let made : c ≡ record {
                                              sequence = sequence;
                                              predecessor = predecessor;
                                              from = from;
                                              to = to;
                                              kind = kind;
                                              reason = reason;
                                            } =
                                              ground arith in
                                            rw made (record {
                                              sequence_hex =
                                                  identity-matches_hex raw.observation_sequence
                                                    false read_sequence;
                                              from_hex =
                                                  identity-matches_hex raw.from_step true read_from;
                                              to_hex =
                                                  identity-matches_hex raw.to_step true read_to;
                                              predecessor_hex =
                                                  optional-AllHex raw.previous_observation_sequence
                                                    false read_predecessor;
                                              forward = ground arith;
                                              lifecycle = passed;
                                            })
                                      ]
                              ]
                    ]
              ]
        ]
      ]
    ]
