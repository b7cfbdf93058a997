-- ===== src/Reward/Stream/Closing.antt =====
-- Streams that have taken a closure: they refuse until `rebase`.
use py_rl_trainer.Prelude.{
  ap, ◌∙◌, ℕ, ◌≡◌, refl, ◌⊎◌, inl, inr, true, arith, ok, err, ◌==◌, Result-cases, Bool-cases,
}
use py_rl_trainer.Wire.Str.{Text, text_eq}
use py_rl_trainer.Reward.{
  Shaped, RewardWire, Reward, RewardError, reward_contract_error, reward_discontinuity_error,
}
use py_rl_trainer.Reward.Parse.{RawReward, parse_reward, terminal, truncated}
use py_rl_trainer.Reward.Parse.Errors.{parse_reward_raises}
use py_rl_trainer.Reward.Stream.{
  RewardStream, is_closing, committed, admit_reward, accept, discard_closure,
}
use py_rl_trainer.Reward.Stream.Admission.{commit-IsCommitted, accept-IsAccepted}

discard_closure-closing :
    (wire : RewardWire) (s : RewardStream) (raw : Shaped RawReward) (id : ℕ) {e : RewardStream}
    → discard_closure wire s raw id ≡ ok e
    → (r : Reward) × (is_closing r.transition_kind ≡ true) × (e ≡ committed r)
unfolding discard_closure
discard_closure-closing wire s raw id {e} h = elim (Result-cases (parse_reward wire raw)) [
  | inr (x, k) ↦ ground arith
  | inl (r, parsed) ↦ (r, ground arith, (commit-IsCommitted s r {e = e} (ground arith)).after)
]

-- both calls raise: the error of the parse, or that of a discontinuity
pub record IsRefused (wire : RewardWire) (s : RewardStream) (raw : Shaped RawReward) (id : ℕ)
    : Type 0 where
  pub error : RewardError
  pub accepting : accept wire s raw id ≡ err error
  pub discarding : discard_closure wire s raw id ≡ err error
  pub cause :
      ((parse_reward wire raw ≡ err reward_contract_error) × (error ≡ reward_contract_error))
      ⊎ ((r : Reward) × (parse_reward wire raw ≡ ok r) × (error ≡ reward_discontinuity_error))

closed_refuses :
    (wire : RewardWire) (s : RewardStream) (raw : Shaped RawReward) (id : ℕ)
    → s.closed ≡ true
    → IsRefused wire s raw id
unfolding accept admit_reward discard_closure
closed_refuses wire s raw id shut = elim (Result-cases (parse_reward wire raw)) [
  | inr (x, k) ↦
      let contract = parse_reward_raises wire raw k in
      record {
        error = x;
        accepting = ground arith;
        discarding = ground arith;
        cause = inl (k ∙ ap err contract, contract);
      }
  | inl (r, parsed) ↦ elim (Bool-cases (r.life.snake_id == id)) [
    | inl own ↦ record {
      error = reward_discontinuity_error;
      accepting = ground arith;
      discarding = ground arith;
      cause = inr (r, parsed, refl);
    }
    | inr other ↦ record {
      error = reward_discontinuity_error;
      accepting = ground arith;
      discarding = ground arith;
      cause = inr (r, parsed, refl);
    }
  ]
]

-- a closure that the stream has taken, paid by `accept` or dropped by `discard_closure`
pub data Closes (wire : RewardWire) : RewardStream → Type 0 where
  paid :
      {e : RewardStream} (s : RewardStream) (r : Reward) (raw : Shaped RawReward) (id : ℕ)
      → accept wire s raw id ≡ ok (r, e)
      → (r.transition_kind ≡ terminal) ⊎ (r.transition_kind ≡ truncated)
      → Closes wire e
  dropped :
      {e : RewardStream} (s : RewardStream) (raw : Shaped RawReward) (id : ℕ)
      → discard_closure wire s raw id ≡ ok e
      → Closes wire e

ending-is_closing : (kind : Text) → (kind ≡ terminal) ⊎ (kind ≡ truncated) → is_closing kind ≡ true
unfolding is_closing text_eq
ending-is_closing kind (inl ends) = rw ends refl
ending-is_closing kind (inr cut) = rw cut refl

Closes-closed : {wire : RewardWire} {e : RewardStream} → Closes wire e → e.closed ≡ true
unfolding committed
Closes-closed {wire} (paid s r raw id h ends) =
    let (parsed, a) = accept-IsAccepted wire s raw id h in
    rw a.settled.after (ending-is_closing r.transition_kind ends)
Closes-closed {wire} (dropped s raw id h) =
    let (r, closing, same) = discard_closure-closing wire s raw id h in rw same closing

-- Once a stream has taken a closure, that is, has accepted a terminal or a truncated reward or has
-- discarded a closure, `accept` and `discard_closure` raise on it, whatever the envelope and the
-- snake: `RewardContractError` where `parse_reward` refuses the envelope, and
-- `RewardDiscontinuityError` otherwise.
pub closing_refuses :
    {wire : RewardWire} {e : RewardStream} (raw : Shaped RawReward) (id : ℕ)
    → Closes wire e
    → IsRefused wire e raw id
closing_refuses {wire} {e} raw id closed = closed_refuses wire e raw id (Closes-closed closed)
