-- ===== src/Reward/Stream/Reach.antt =====
-- The streams that a client can hold: what they know, and what they can raise.
use py_rl_trainer.Prelude.{
  ℕ, ◌≡◌, refl, ◌∙◌, ap, ◌⊎◌, inl, inr, Bool, true, false, Option, none, some, arith, ok, err, ◌==◌,
  Result-cases,
}
use py_rl_trainer.Reward.{
  Shaped, RewardWire, BodyState, ControlState, Reward, RewardError, reward_contract_error,
  reward_discontinuity_error,
}
use py_rl_trainer.Reward.Errors.{Only, returns, bind, guard-Only, raising, raised}
use py_rl_trainer.Reward.Control.{control_progress}
use py_rl_trainer.Reward.Control.Progress.{control_progress-Only}
use py_rl_trainer.Reward.Control.Monotone.{IsProgress, control_progress-IsProgress}
use py_rl_trainer.Wire.Hex.{int_hex}
use py_rl_trainer.Reward.Parse.{RawReward, parse_reward}
use py_rl_trainer.Reward.Parse.Sound.{IsReward, parse_reward-IsReward}
use py_rl_trainer.Reward.Parse.Errors.{parse_reward_raises}
use py_rl_trainer.Reward.Stream.{
  RewardStream, new_stream, same_life, check_start, check_progress, committed, commit, admit_reward,
  accept, rebase, discard_closure,
}
use py_rl_trainer.Reward.Stream.Admission.{commit-IsCommitted, accept-IsAccepted, continues-linked}

-- every call that changes a stream
pub data Reach (wire : RewardWire) : RewardStream → Type 0 where
  created : Reach wire new_stream
  accepted :
      {s e : RewardStream} {r : Reward}
      → Reach wire s
      → (raw : Shaped RawReward) (id : ℕ) → accept wire s raw id ≡ ok (r, e)
      → Reach wire e
  rebased :
      {s e : RewardStream}
      → Reach wire s
      → (raw : Shaped RawReward) (id : ℕ) → rebase wire s raw id ≡ ok e
      → Reach wire e
  discarded :
      {s e : RewardStream}
      → Reach wire s
      → (raw : Shaped RawReward) (id : ℕ) → discard_closure wire s raw id ≡ ok e
      → Reach wire e

-- the stream is new, or it is what one sound reward leaves
data IsKept : RewardStream → Type 0 where
  fresh : IsKept new_stream
  after : (r : Reward) → IsReward r → IsKept (committed r)

rebase-after :
    (wire : RewardWire) (s : RewardStream) (raw : Shaped RawReward) (id : ℕ) {e : RewardStream}
    → rebase wire s raw id ≡ ok e
    → (r : Reward) × IsReward r × (e ≡ committed r)
unfolding rebase
rebase-after wire s raw id {e} h = elim (Result-cases (parse_reward wire raw)) [
  | inr (x, k) ↦ ground arith
  | inl (r, parsed) ↦ (
    r,
    parse_reward-IsReward wire raw parsed,
    (commit-IsCommitted s r {e = e} (ground arith)).after,
  )
]

discard_closure-after :
    (wire : RewardWire) (s : RewardStream) (raw : Shaped RawReward) (id : ℕ) {e : RewardStream}
    → discard_closure wire s raw id ≡ ok e
    → (r : Reward) × IsReward r × (e ≡ committed r)
unfolding discard_closure
discard_closure-after wire s raw id {e} h = elim (Result-cases (parse_reward wire raw)) [
  | inr (x, k) ↦ ground arith
  | inl (r, parsed) ↦ (
    r,
    parse_reward-IsReward wire raw parsed,
    (commit-IsCommitted s r {e = e} (ground arith)).after,
  )
]

Reach-IsKept : {wire : RewardWire} {s : RewardStream} → Reach wire s → IsKept s
Reach-IsKept created = fresh
Reach-IsKept {wire} (accepted {s = s} {r = r} reach raw id h) =
    let (parsed, a) = accept-IsAccepted wire s raw id h in rw a.settled.after (after r a.sound)
Reach-IsKept {wire} (rebased {s = s} reach raw id h) =
    let (r, sound, same) = rebase-after wire s raw id h in rw same (after r sound)
Reach-IsKept {wire} (discarded {s = s} reach raw id h) =
    let (r, sound, same) = discard_closure-after wire s raw id h in rw same (after r sound)

start-Only :
    (old : Option BodyState) (same : Bool) (new : BodyState)
    → Only reward_discontinuity_error (check_start old same new)
unfolding check_start
start-Only none true new = returns tt
start-Only none false new = returns tt
start-Only (some old) true new = guard-Only (old.starting_length == new.starting_length)
start-Only (some old) false new = returns tt

progress-Only :
    (old : Option ControlState) (same : Bool) (r : Reward)
    → IsReward r
    → Only reward_discontinuity_error (check_progress old same r.control)
unfolding check_progress
progress-Only none true r s = returns tt
progress-Only none false r s = returns tt
progress-Only (some old) true r s = control_progress-Only old r.control s.controlled.counts
progress-Only (some old) false r s = returns tt

commit-Only :
    (s : RewardStream) (r : Reward) → IsReward r → Only reward_discontinuity_error (commit s r)
unfolding commit
commit-Only s r sound = bind (start-Only s.state (same_life s.life r.life) r.state) (λ u.
    bind (progress-Only s.control (same_life s.life r.life) r sound) (λ w. returns (committed r)))

admit_reward-Only :
    (s : RewardStream) (r : Reward) (id : ℕ)
    → IsReward r
    → Only reward_discontinuity_error (admit_reward s r id)
unfolding admit_reward
admit_reward-Only s r id sound = search (raising, commit-Only) depth 20

-- `accept` on any stream and any envelope returns, or raises one of the two errors of the module:
-- `RewardContractError` exactly when `parse_reward` refuses the envelope, and otherwise
-- `RewardDiscontinuityError`.
pub accept_raises :
    (wire : RewardWire) (s : RewardStream) (raw : Shaped RawReward) (id : ℕ) {x : RewardError}
    → accept wire s raw id ≡ err x
    → ((parse_reward wire raw ≡ err reward_contract_error) × (x ≡ reward_contract_error))
      ⊎ ((r : Reward) × (parse_reward wire raw ≡ ok r) × (x ≡ reward_discontinuity_error))
unfolding accept
accept_raises wire s raw id h = elim (Result-cases (parse_reward wire raw)) [
  | inr (y, k) ↦
      let contract = parse_reward_raises wire raw k in
      inl (k ∙ ap err contract, ground (arith, contract))
  | inl (r, parsed) ↦ inr (
    r,
    parsed,
    raised (admit_reward-Only s r id (parse_reward-IsReward wire raw parsed)) (ground arith),
  )
]

committed-IsProgress :
    (wire : RewardWire) (before r : Reward) (raw : Shaped RawReward) (id : ℕ) {e : RewardStream}
    → IsReward before
    → accept wire (committed before) raw id ≡ ok (r, e)
    → IsProgress before.control r.control
committed-IsProgress wire before r raw id sound h =
    let (parsed, a) = accept-IsAccepted wire (committed before) raw id h in
    let linked =
      continues-linked (committed before) r before.life (unfold committed in refl) a.continued in
    let checked : check_progress (some before.control) (same_life (some before.life) r.life)
          r.control
        ≡ ok tt =
      unfold committed in a.settled.progressed in
    let own : same_life (some before.life) r.life ≡ true = unfold same_life in linked.0 in
    let passed : control_progress before.control r.control ≡ ok tt =
      unfold check_progress in rw own at checked in
    control_progress-IsProgress (int_hex before.to_step) (int_hex r.to_step) before.control
      r.control sound.controlled a.sound.controlled passed

kept-IsProgress :
    (wire : RewardWire) (s : RewardStream) (c : ControlState) (r : Reward) (raw : Shaped RawReward)
    (id : ℕ) {e : RewardStream}
    → IsKept s
    → s.control ≡ some c
    → accept wire s raw id ≡ ok (r, e)
    → IsProgress c r.control
kept-IsProgress wire s c r raw id fresh held h = cc held
kept-IsProgress wire s c r raw id (after before sound) held h =
    let same : before.control ≡ c = unfold committed in ground (arith, held) in
    rw (← same) (committed-IsProgress wire before r raw id sound h)

-- A reward that a reachable stream accepts after another one carries accepted, applied and
-- superseded counts that are not smaller than the ones before; where the accepted or the applied
-- count grew, the command behind it has a larger sequence number; and the physical selection does
-- not go back.
pub accept_progresses :
    {wire : RewardWire} {s e : RewardStream} (c : ControlState) (r : Reward)
    (raw : Shaped RawReward) (id : ℕ)
    → Reach wire s
    → s.control ≡ some c
    → accept wire s raw id ≡ ok (r, e)
    → IsProgress c r.control
accept_progresses {wire} {s} c r raw id reach held h =
    kept-IsProgress wire s c r raw id (Reach-IsKept reach) held h
