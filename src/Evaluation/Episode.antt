-- ===== src/Evaluation/Episode.antt =====
-- An episode of one life, from its baseline to the last interval that its stream accepted.
use py_rl_trainer.Prelude.{
  ℕ, ◌≤◌, ◌≡◌, refl, sym, ap, ◌∙◌, none, some, List, ◌∷◌, arith, err, Bool, true, Bool-cases, inl,
  inr,
}
use py_rl_trainer.Prelude.Int.{ℤ, pos, ◌+ℤ◌, ◌-ℤ◌, int_laws}
use py_rl_trainer.Wire.Str.{Text}
use py_rl_trainer.Wire.Hex.{int_hex}
use py_rl_trainer.Reward.{reward_contract_error, RewardWire, Reward}
use py_rl_trainer.Reward.Stream.{RewardStream, new_stream, committed}
use py_rl_trainer.Reward.Stream.Conservation.{
  Accepts, next, total_length, total_growth, accepts_conserve, accepts_advance, committed-IsAt,
}
use py_rl_trainer.Evaluation.{EvaluationEpisode, new_episode, receive, finish}
use py_rl_trainer.Reward.Components.{Components}
use py_rl_trainer.Evaluation.Accounting.{
  Received, more, last_reward, receive-eq-ok, Received-IsTotal, Received-first, Received-last,
  accepts-last, baseline_length,
}

drop_zero : (a b t : ℤ) → a ≡ pos 0 +ℤ (b +ℤ t) → b ≡ pos 0 → a ≡ t
drop_zero a b t h k = let idle : a ≡ pos 0 +ℤ (pos 0 +ℤ t) = rw k at h in idle ∙ omega int_laws

committed-state : (r : Reward) → (committed r).state ≡ some r.state
unfolding committed
committed-state r = refl

committed-step : (r : Reward) → (committed r).step ≡ some r.to_step
unfolding committed
committed-step r = refl

-- what an episode reports of the body and of time
pub record IsReported (ep : EvaluationEpisode) (first last : Reward) : Type 0 where
  pub initial : ep.first ≡ some first
  pub cutoff : ep.last ≡ some last
  pub body : pos last.state.body_length -ℤ pos first.state.body_length ≡ ep.raw.length_delta
  pub growth :
      pos last.state.retained_growth -ℤ pos first.state.retained_growth
      ≡ ep.raw.retained_growth_delta
  pub forward : int_hex first.to_step ≤ int_hex last.to_step

-- Let a new stream accept a life's rewards and a new episode receive them without an error, with
-- any components. Then the episode reports the first and the last of them, its summed length and
-- retained-growth deltas are the change of the body between the two, and the last ends no earlier
-- than the first.
pub episode-IsReported :
    {wire : RewardWire} {id : ℕ} {e : RewardStream} {ep : EvaluationEpisode} (version : ℤ)
    (sha256 : Text) (seed : ℤ) (max_seconds : ℕ) (r : Reward) (rs : List Reward)
    → Accepts wire id new_stream (r ∷ rs) e
    → Received (new_episode version sha256 seed max_seconds) (r ∷ rs) ep
    → IsReported ep r (last_reward r rs)
episode-IsReported {wire} {id} {e} {ep} version sha256 seed max_seconds r rs
      (next {m = m} raw h later) (more {mid = mid} c taken rest) =
    let fresh = new_episode version sha256 seed max_seconds in
    let (body_idle, growth_idle, at) = baseline_length wire new_stream raw id r refl h in
    let ended = accepts-last r later at in
    let (to, to_state, change) =
      accepts_conserve r.state later (ap (λ s. s.state) at ∙ committed-state r) in
    let (last, end, there, own, grown, forward) =
      accepts_advance r.life r.observation_sequence r.to_step later
        (rw at (committed-IsAt r r.life refl)) in
    let totals = Received-IsTotal (more c taken rest) in
    let (taken_raw, taken_first, taken_last) = receive-eq-ok fresh r c taken in
    let cut = last_reward r rs in
    let same_state : some cut.state ≡ some to =
      sym (ap (λ s. s.state) ended ∙ committed-state cut) ∙ to_state in
    let same_step : some cut.to_step ≡ some end =
      sym (ap (λ s. s.step) ended ∙ committed-step cut) ∙ there.at in
    let final : cut.state ≡ to = ground (arith, same_state) in
    let step : cut.to_step ≡ end = ground (arith, same_step) in
    record {
      initial = Received-first r rest taken_first;
      cutoff = Received-last r rest taken_last;
      body = rw final (
          change.body
          ∙ sym (
              drop_zero ep.raw.length_delta r.deltas.length_delta (total_length rs) totals.body
                body_idle));
      growth = rw final (
          change.growth
          ∙ sym (
              drop_zero ep.raw.retained_growth_delta r.deltas.retained_growth_delta
                (total_growth rs) totals.growth growth_idle));
      forward = rw step forward;
    }

finish-closed :
    (ep : EvaluationEpisode) (kind reason : Text) (integrity : Bool)
    → (finish ep kind reason integrity).1.finished ≡ true
unfolding finish
finish-closed ep kind reason integrity = elim (Bool-cases ep.finished) [
  | inl over ↦ rw over refl
  | inr going ↦ rw going refl
]

-- An episode ends once: after `finish`, whatever it returned, another `finish` returns `None`,
-- every `receive` raises RewardContractError, and neither changes the episode.
pub finish_once :
    (ep : EvaluationEpisode) (kind reason : Text) (integrity : Bool) (kind' reason' : Text)
    (integrity' : Bool) (r : Reward) (c : Components)
    → let after = (finish ep kind reason integrity).1 in
      (finish after kind' reason' integrity' ≡ (none, after))
      × (receive after r c ≡ (err reward_contract_error, after))
finish_once ep kind reason integrity kind' reason' integrity' r c =
    let after = (finish ep kind reason integrity).1 in
    let closed = finish-closed ep kind reason integrity in
    (unfold finish in rw closed refl, unfold receive in rw closed refl)
