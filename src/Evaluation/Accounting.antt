-- ===== src/Evaluation/Accounting.antt =====
-- The raw totals of an episode that receives what its stream accepts are the change of the body.
use py_rl_trainer.Prelude.{ℕ, ◌≡◌, ap, ◌∙◌, true, some, List, [], ◌∷◌, arith, ok}
use py_rl_trainer.Prelude.Int.{ℤ, pos, ◌+ℤ◌, int_laws}
use py_rl_trainer.Wire.Str.{text_eq}
use py_rl_trainer.Reward.{Shaped, RewardWire, Reward}
use py_rl_trainer.Reward.Parse.{RawReward, initial, all_zero}
use py_rl_trainer.Reward.Stream.{RewardStream, new_stream, committed, continues, accept}
use py_rl_trainer.Reward.Stream.Admission.{accept-IsAccepted}
use py_rl_trainer.Reward.Stream.Conservation.{Accepts, done, next, total_length, total_growth}
use py_rl_trainer.Reward.Components.{Components}
use py_rl_trainer.Reward.Components.Baseline.{is_zero_ℤ_sound}
use py_rl_trainer.Evaluation.{EvaluationEpisode, add_deltas, account, receive, first_of}

-- the episode has received these rewards, each with some components
pub data Received : EvaluationEpisode → List Reward → EvaluationEpisode → Type 0 where
  start : {ep : EvaluationEpisode} → Received ep [] ep
  more :
      {ep mid end : EvaluationEpisode} {r : Reward} {rs : List Reward} (c : Components)
      → receive ep r c ≡ (ok tt, mid)
      → Received mid rs end
      → Received ep (r ∷ rs) end

abbrev pub last_reward : Reward → List Reward → Reward
last_reward r [] = r
last_reward r (later ∷ rest) = last_reward later rest

pub receive-eq-ok :
    (ep : EvaluationEpisode) (r : Reward) (c : Components) {after : EvaluationEpisode}
    → receive ep r c ≡ (ok tt, after)
    → (after.raw ≡ add_deltas ep.raw r.deltas)
      × (after.first ≡ some (first_of ep.first r))
      × (after.last ≡ some r)
unfolding receive account
receive-eq-ok ep r c h = (ground arith, ground arith, ground arith)

add_int : (a b c : ℤ) → a +ℤ b +ℤ c ≡ a +ℤ (b +ℤ c)
add_int a b c = omega int_laws

-- what the totals of the integers come to
pub record IsTotal (ep end : EvaluationEpisode) (rs : List Reward) : Type 0 where
  pub body : end.raw.length_delta ≡ ep.raw.length_delta +ℤ total_length rs
  pub growth : end.raw.retained_growth_delta ≡ ep.raw.retained_growth_delta +ℤ total_growth rs

add_nothing : (a : ℤ) → a ≡ a +ℤ pos 0
add_nothing a = omega int_laws

added-length :
    (ep mid : EvaluationEpisode) (r : Reward)
    → mid.raw ≡ add_deltas ep.raw r.deltas
    → mid.raw.length_delta ≡ ep.raw.length_delta +ℤ r.deltas.length_delta
unfolding add_deltas
added-length ep mid r h = ap (λ d. d.length_delta) h

added-growth :
    (ep mid : EvaluationEpisode) (r : Reward)
    → mid.raw ≡ add_deltas ep.raw r.deltas
    → mid.raw.retained_growth_delta ≡ ep.raw.retained_growth_delta +ℤ r.deltas.retained_growth_delta
unfolding add_deltas
added-growth ep mid r h = ap (λ d. d.retained_growth_delta) h

pub Received-IsTotal :
    {ep end : EvaluationEpisode} {rs : List Reward} → Received ep rs end → IsTotal ep end rs
Received-IsTotal {ep} start = record {
  body = add_nothing ep.raw.length_delta;
  growth = add_nothing ep.raw.retained_growth_delta;
}
Received-IsTotal {ep} {end} (more {mid = mid} {r = r} {rs = rs} c h later) =
    let (raw, first, last) = receive-eq-ok ep r c h in
    let rest = Received-IsTotal later in
    let body_step : mid.raw.length_delta ≡ ep.raw.length_delta +ℤ r.deltas.length_delta =
      added-length ep mid r raw in
    let growth_step : mid.raw.retained_growth_delta
        ≡ ep.raw.retained_growth_delta +ℤ r.deltas.retained_growth_delta =
      added-growth ep mid r raw in
    record {
      body =
          rest.body
          ∙ ap (λ n. n +ℤ total_length rs) body_step
          ∙ add_int ep.raw.length_delta r.deltas.length_delta (total_length rs);
      growth =
          rest.growth
          ∙ ap (λ n. n +ℤ total_growth rs) growth_step
          ∙ add_int ep.raw.retained_growth_delta r.deltas.retained_growth_delta (total_growth rs);
    }

pub Received-first :
    {ep end : EvaluationEpisode} {rs : List Reward} (r : Reward)
    → Received ep rs end
    → ep.first ≡ some r
    → end.first ≡ some r
Received-first r start h = h
Received-first {ep} r (more {r = own} c h later) held =
    let (raw, first, last) = receive-eq-ok ep own c h in
    Received-first r later (first ∙ ap some (ap (λ f. first_of f own) held))

pub Received-last :
    {ep end : EvaluationEpisode} {rs : List Reward} (r : Reward)
    → Received ep rs end
    → ep.last ≡ some r
    → end.last ≡ some (last_reward r rs)
Received-last r start h = h
Received-last {ep} r (more {r = own} c h later) held =
    Received-last own later (receive-eq-ok ep own c h).2

pub accepts-last :
    {wire : RewardWire} {id : ℕ} {s e : RewardStream} {rs : List Reward} (r : Reward)
    → Accepts wire id s rs e
    → s ≡ committed r
    → e ≡ committed (last_reward r rs)
accepts-last r done h = h
accepts-last {wire} {id} {s} r (next {r = own} raw h later) held =
    accepts-last own later (accept-IsAccepted wire s raw id h).1.settled.after

-- the first reward that a new stream accepts has moved nothing
pub baseline_length :
    (wire : RewardWire) (s : RewardStream) (raw : Shaped RawReward) (id : ℕ) (r : Reward)
    {e : RewardStream}
    → s ≡ new_stream
    → accept wire s raw id ≡ ok (r, e)
    → (r.deltas.length_delta ≡ pos 0) × (r.deltas.retained_growth_delta ≡ pos 0) × (e ≡ committed r)
unfolding continues all_zero
baseline_length wire s raw id r fresh h =
    let a = (accept-IsAccepted wire s raw id h).1 in
    let first : text_eq r.transition_kind initial ≡ true = rw fresh at a.continued in
    let idle = a.sound.baseline first in
    (
      is_zero_ℤ_sound r.deltas.length_delta (ground arith),
      is_zero_ℤ_sound r.deltas.retained_growth_delta (ground arith),
      a.settled.after,
    )
