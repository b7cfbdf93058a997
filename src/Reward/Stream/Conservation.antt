-- ===== src/Reward/Stream/Conservation.antt =====
-- Runs of accepted intervals: the length deltas that a learner adds up are the change of the body.
use py_rl_trainer.Prelude.{
  ℕ, ◌+◌, ◌≤◌, ◌≡◌, refl, ap, ◌∙◌, true, some, List, [], ◌∷◌, arith, ok, length,
}
use py_rl_trainer.Prelude.Int.{ℤ, pos, negsuc, ◌-ℤ◌, ◌+ℤ◌, int_laws}
use py_rl_trainer.Wire.Str.{Text}
use py_rl_trainer.Wire.Hex.{int_hex}
use py_rl_trainer.Reward.{Shaped, RewardWire, Life, BodyState, Reward}
use py_rl_trainer.Reward.Parse.{RawReward}
use py_rl_trainer.Reward.Stream.{RewardStream, int_eq, conserves, committed, accept}
use py_rl_trainer.Reward.Stream.Admission.{accept-IsAccepted, accept_advances}

-- the stream after it has accepted these rewards, one after the other
pub data Accepts (wire : RewardWire) (id : ℕ)
    : RewardStream → List Reward → RewardStream → Type 0 where
  done : {s : RewardStream} → Accepts wire id s [] s
  next :
      {s m e : RewardStream} {r : Reward} {rs : List Reward} (raw : Shaped RawReward)
      → accept wire s raw id ≡ ok (r, m)
      → Accepts wire id m rs e
      → Accepts wire id s (r ∷ rs) e

abbrev pub total_length : List Reward → ℤ
total_length [] = pos 0
total_length (r ∷ rs) = r.deltas.length_delta +ℤ total_length rs

abbrev pub total_growth : List Reward → ℤ
total_growth [] = pos 0
total_growth (r ∷ rs) = r.deltas.retained_growth_delta +ℤ total_growth rs

int_eq_sound : (a b : ℤ) → int_eq a b ≡ true → a ≡ b
unfolding int_eq
int_eq_sound (pos a) (pos b) h = ground arith
int_eq_sound (negsuc a) (negsuc b) h = ground arith
int_eq_sound (pos a) (negsuc b) h = cc
int_eq_sound (negsuc a) (pos b) h = cc

pub record IsChange (from to : BodyState) (rs : List Reward) : Type 0 where
  pub start : to.starting_length ≡ from.starting_length
  pub body : pos to.body_length -ℤ pos from.body_length ≡ total_length rs
  pub growth : pos to.retained_growth -ℤ pos from.retained_growth ≡ total_growth rs

conserves-step :
    (from : BodyState) (r : Reward)
    → conserves (some from) r ≡ true
    → (r.state.starting_length ≡ from.starting_length)
      × (pos r.state.body_length -ℤ pos from.body_length ≡ r.deltas.length_delta)
      × (pos r.state.retained_growth -ℤ pos from.retained_growth ≡ r.deltas.retained_growth_delta)
unfolding conserves
conserves-step from r h = (
  ground arith,
  int_eq_sound (pos r.state.body_length -ℤ pos from.body_length) r.deltas.length_delta
      (ground arith),
  int_eq_sound (pos r.state.retained_growth -ℤ pos from.retained_growth)
      r.deltas.retained_growth_delta (ground arith),
)

difference_self : (a : ℤ) → a -ℤ a ≡ pos 0
difference_self a = omega int_laws

difference_join : (a b c d t : ℤ) → b -ℤ a ≡ d → c -ℤ b ≡ t → c -ℤ a ≡ d +ℤ t
difference_join a b c d t h k = rw (← h, ← k) (omega int_laws)

-- Along any run of accepted rewards from a boundary state: the starting length stays, the length
-- deltas add up to the change of the body length, and the retained-growth deltas to the change of
-- the retained growth.
pub accepts_conserve :
    {wire : RewardWire} {id : ℕ} {s e : RewardStream} {rs : List Reward} (from : BodyState)
    → Accepts wire id s rs e
    → s.state ≡ some from
    → (to : BodyState) × (e.state ≡ some to) × IsChange from to rs
accepts_conserve from done at = (
  from,
  at,
  record {
    start = refl;
    body = difference_self (pos from.body_length);
    growth = difference_self (pos from.retained_growth);
  },
)
accepts_conserve {wire} {id} {s} from (next {m = m} {r = r} {rs = rs} raw h more) at =
    let (parsed, a) = accept-IsAccepted wire s raw id h in
    let step = conserves-step from r (rw at at a.conserved) in
    let (to, at_end, change) =
      accepts_conserve r.state more (rw a.settled.after (unfold committed in refl)) in
    (
      to,
      at_end,
      record {
        start = change.start ∙ step.0;
        body =
            difference_join (pos from.body_length) (pos r.state.body_length) (pos to.body_length)
              r.deltas.length_delta (total_length rs) step.1 change.body;
        growth =
            difference_join (pos from.retained_growth) (pos r.state.retained_growth)
              (pos to.retained_growth) r.deltas.retained_growth_delta (total_growth rs) step.2
              change.growth;
      },
    )

-- the whole record of one life: where its stream stands
pub record IsAt (s : RewardStream) (l : Life) (sequence step : Text) : Type 0 where
  pub life : s.life ≡ some l
  pub numbered : s.sequence ≡ some sequence
  pub at : s.step ≡ some step

pub committed-IsAt :
    (r : Reward) (l : Life) → r.life ≡ l → IsAt (committed r) l r.observation_sequence r.to_step
unfolding committed
committed-IsAt r l same = record { life = ap some same; numbered = refl; at = refl }

abbrev pub AllOf : Life → List Reward → Type 0
AllOf l [] = Unit
AllOf l (r ∷ rs) = (r.life ≡ l) × AllOf l rs

-- Along any run of accepted rewards of a life: each is of that life, and the sequence number grows
-- by at least one for each, while the step does not go back.
pub accepts_advance :
    {wire : RewardWire} {id : ℕ} {s e : RewardStream} {rs : List Reward} (l : Life)
    (sequence step : Text)
    → Accepts wire id s rs e
    → IsAt s l sequence step
    → (last end : Text) × IsAt e l last end
      × AllOf l rs
      × (int_hex sequence + length rs ≤ int_hex last)
      × (int_hex step ≤ int_hex end)
accepts_advance l sequence step done at = (sequence, step, at, tt, omega arith, omega arith)
accepts_advance {wire} {id} {s} l sequence step (next {m = m} {r = r} {rs = rs} raw h more) at =
    let (parsed, a) = accept-IsAccepted wire s raw id h in
    let (same, later, link) =
      accept_advances wire s raw id l sequence step h at.life at.numbered at.at in
    let here : IsAt m l r.observation_sequence r.to_step =
      rw a.settled.after (committed-IsAt r l same) in
    let (last, end, there, own, grown, forward) =
      accepts_advance l r.observation_sequence r.to_step more here in
    (
      last,
      end,
      there,
      (same, own),
      omega (arith, link.after, grown),
      omega (arith, link.forward, forward),
    )
