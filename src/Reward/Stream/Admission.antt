-- ===== src/Reward/Stream/Admission.antt =====
-- What `accept` has checked when it returns, and that it never pays for an interval twice.
use py_rl_trainer.Prelude.{
  ℕ, ◌≤◌, ◌<◌, ◌≡◌, refl, sym, ◌∙◌, inl, inr, true, false, not, ◌&&◌, Option, none, some, arith, ok,
  err, Result-cases, Bool-cases,
}
use py_rl_trainer.Wire.Str.{Text, text_eq, text_eq_sound, text_eq_refl}
use py_rl_trainer.Wire.Hex.{int_hex}
use py_rl_trainer.Reward.{Shaped, RewardWire, Life, Reward, reward_discontinuity_error}
use py_rl_trainer.Reward.Control.{optional_eq}
use py_rl_trainer.Reward.Control.Evidence.{optional_eq_sound}
use py_rl_trainer.Reward.Parse.{RawReward, parse_reward, precedes, initial}
use py_rl_trainer.Reward.Parse.Sound.{IsReward, parse_reward-IsReward, check_lifecycle-closing}
use py_rl_trainer.Reward.Stream.{
  RewardStream, life_eq, same_life, check_start, check_progress, committed, commit, continues,
  conserves, admit_reward, accept,
}

pub life_eq_refl : (a : Life) → life_eq a a ≡ true
unfolding life_eq
life_eq_refl a = ground (
  arith,
  text_eq_refl a.run_id,
  text_eq_refl a.world_epoch,
  text_eq_refl a.lease_id,
  text_eq_refl a.physical_snake_id,
)

pub life_eq_sound : (a b : Life) → life_eq a b ≡ true → a ≡ b
unfolding life_eq
life_eq_sound a b h = ground (
  arith,
  text_eq_sound a.run_id b.run_id,
  text_eq_sound a.world_epoch b.world_epoch,
  text_eq_sound a.lease_id b.lease_id,
  text_eq_sound a.physical_snake_id b.physical_snake_id,
)

pub record IsCommitted (s : RewardStream) (r : Reward) (e : RewardStream) : Type 0 where
  pub started : check_start s.state (same_life s.life r.life) r.state ≡ ok tt
  pub progressed : check_progress s.control (same_life s.life r.life) r.control ≡ ok tt
  pub after : e ≡ committed r

pub commit-IsCommitted :
    (s : RewardStream) (r : Reward) {e : RewardStream} → commit s r ≡ ok e → IsCommitted s r e
unfolding commit
commit-IsCommitted s r h =
    elim (Result-cases (check_start s.state (same_life s.life r.life) r.state)) [
      | inr (x, k) ↦ ground arith
      | inl (u, k) ↦
          elim (Result-cases (check_progress s.control (same_life s.life r.life) r.control)) [
            | inr (x, l) ↦ ground arith
            | inl (w, l) ↦ record { started = k; progressed = l; after = ground arith }
          ]
    ]

pub record IsAccepted (s : RewardStream) (r : Reward) (id : ℕ) (e : RewardStream) : Type 0 where
  pub assigned : r.life.snake_id ≡ id
  pub opened : s.closed ≡ false
  pub continued : continues s r ≡ true
  pub conserved : conserves s.state r ≡ true
  pub settled : IsCommitted s r e
  pub sound : IsReward r

pub accept-IsAccepted :
    (wire : RewardWire) (s : RewardStream) (raw : Shaped RawReward) (id : ℕ) {r : Reward}
    {e : RewardStream}
    → accept wire s raw id ≡ ok (r, e)
    → (parse_reward wire raw ≡ ok r) × IsAccepted s r id e
unfolding accept admit_reward
accept-IsAccepted wire s raw id {r} {e} h = elim (Result-cases (parse_reward wire raw)) [
  | inr (x, k) ↦ ground arith
  | inl (reward, parsed) ↦ elim (Result-cases (commit s reward)) [
    | inr (x, l) ↦ ground arith
    | inl (after, done) ↦
        let same : reward ≡ r = ground arith in
        let at_end : after ≡ e = ground arith in
        (
          rw (← same) parsed,
          rw (← same) (record {
            assigned = ground arith;
            opened = ground arith;
            continued = ground arith;
            conserved = ground arith;
            settled = rw at_end at (commit-IsCommitted s reward done);
            sound = parse_reward-IsReward wire raw parsed;
          }),
        )
  ]
]

-- the interval that follows `sequence` and `step`
pub record IsNext (sequence step : Text) (r : Reward) : Type 0 where
  pub attached : r.from_step ≡ step
  pub after : int_hex sequence < int_hex r.observation_sequence
  pub forward : int_hex step ≤ int_hex r.to_step

precedes-some :
    (p : Option Text) (a sequence : Text)
    → precedes p sequence ≡ true
    → p ≡ some a
    → int_hex a < int_hex sequence
precedes-some none a sequence h k = cc
precedes-some (some b) a sequence h k =
    let same : b ≡ a = ground arith in rw (← same) (ground arith)

pub IsReward-precedes :
    (r : Reward)
    → IsReward r
    → precedes r.previous_observation_sequence r.observation_sequence ≡ true
IsReward-precedes r s =
    (check_lifecycle-closing r.transition_kind r.reason r.previous_observation_sequence
      r.observation_sequence r.from_step r.to_step s.chronicle.lifecycle).0

pub continues-linked :
    (s : RewardStream) (r : Reward) (l : Life)
    → s.life ≡ some l
    → continues s r ≡ true
    → (life_eq l r.life ≡ true)
      × (text_eq r.transition_kind initial ≡ false)
      × (r.previous_observation_sequence ≡ s.sequence)
      × (some r.from_step ≡ s.step)
unfolding continues
continues-linked s r l held h =
    let linked : (life_eq l r.life
          && not (text_eq r.transition_kind initial)
          && optional_eq r.previous_observation_sequence s.sequence
          && optional_eq (some r.from_step) s.step)
        ≡ true =
      rw held at h in
    (
      ground arith,
      ground arith,
      optional_eq_sound r.previous_observation_sequence s.sequence (ground arith),
      optional_eq_sound (some r.from_step) s.step (ground arith),
    )

-- In a stream that has a life, an accepted reward is of that life, no baseline, begins at the step
-- where the last interval ended, and has a later sequence.
pub accept_advances :
    (wire : RewardWire) (s : RewardStream) (raw : Shaped RawReward) (id : ℕ) (l : Life)
    (sequence step : Text) {r : Reward} {e : RewardStream}
    → accept wire s raw id ≡ ok (r, e)
    → s.life ≡ some l
    → s.sequence ≡ some sequence
    → s.step ≡ some step
    → (r.life ≡ l) × (text_eq r.transition_kind initial ≡ false) × IsNext sequence step r
accept_advances wire s raw id l sequence step {r} h held numbered at =
    let (parsed, a) = accept-IsAccepted wire s raw id h in
    let (same, later, follows, begins) = continues-linked s r l held a.continued in
    let joined : r.from_step ≡ step = ground (arith, begins, at) in
    (
      sym (life_eq_sound l r.life same),
      later,
      record {
        attached = joined;
        after =
            precedes-some r.previous_observation_sequence sequence r.observation_sequence
              (IsReward-precedes r a.sound) (follows ∙ numbered);
        forward = rw (← joined) a.sound.chronicle.forward;
      },
    )

continues_never : (r : Reward) → IsReward r → continues (committed r) r ≡ false
continues_never r sound = elim (Bool-cases (continues (committed r) r)) [
  | inr other ↦ other
  | inl again ↦
      let linked = continues-linked (committed r) r r.life (unfold committed in refl) again in
      let follows : r.previous_observation_sequence ≡ some r.observation_sequence =
        linked.2 ∙ (unfold committed in refl) in
      let before =
        precedes-some r.previous_observation_sequence r.observation_sequence r.observation_sequence
          (IsReward-precedes r sound) follows in
      absurd (omega (arith, before))
]

-- An interval that has been accepted is refused when it comes again, whether or not it closed the
-- life: its reward is paid once.
pub accept_once :
    (wire : RewardWire) (s : RewardStream) (raw : Shaped RawReward) (id : ℕ) {r : Reward}
    {e : RewardStream}
    → accept wire s raw id ≡ ok (r, e)
    → accept wire e raw id ≡ err reward_discontinuity_error
accept_once wire s raw id {r} {e} h =
    let (parsed, a) = accept-IsAccepted wire s raw id h in
    let refused : continues e r ≡ false = rw a.settled.after (continues_never r a.sound) in
    unfold accept admit_reward in ground (arith, parsed, refused)
