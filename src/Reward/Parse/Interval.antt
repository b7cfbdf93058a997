-- ===== src/Reward/Parse/Interval.antt =====
-- The envelopes that `parse_reward` returns, read as intervals of a life.
use py_rl_trainer.Prelude.{
  ℕ, ◌-◌, ◌≤◌, ◌<◌, ◌≡◌, refl, ap, inl, inr, true, false, Option, none, some, arith, ok, Bool-cases,
}
use py_rl_trainer.Prelude.Int.{ℤ, pos, negsuc}
use py_rl_trainer.Wire.Str.{Text, codes, text_eq, text_eq_sound}
use py_rl_trainer.Wire.Hex.{int_hex}
use py_rl_trainer.Wire.Float.{is_finite, is_zero, float_add, float_sub, is_close, one_billionth}
use py_rl_trainer.Reward.{Shaped, RewardWire, Deltas, Reward}
use py_rl_trainer.Reward.Control.{is_none}
use py_rl_trainer.Reward.Control.Evidence.{differs, IsEvidence, IsControl-IsEvidence}
use py_rl_trainer.Reward.Parse.{
  RawReward, parse_reward, all_zero, balances, accounted, precedes, is_zero_ℤ, is_text,
  check_lifecycle, initial, live, terminal, truncated, death,
}
use py_rl_trainer.Reward.Parse.Sound.{parse_reward-IsReward, check_lifecycle-closing, IsReward}

-- the sum by which the points of an interval are accounted for
abbrev pub point_sum : Deltas → ℕ
point_sum d =
    float_sub
      (float_add
        (float_add (float_add d.survival_points_delta d.food_points_delta) d.kill_points_delta)
        d.other_points_delta)
      d.boost_points_spent_delta

-- nothing has changed between the boundaries
pub record IsIdle (d : Deltas) : Type 0 where
  pub elapsed : is_zero d.elapsed_seconds ≡ true
  pub alive : is_zero d.alive_seconds_delta ≡ true
  pub points : is_zero d.points_delta ≡ true
  pub survival : is_zero d.survival_points_delta ≡ true
  pub food_points : is_zero d.food_points_delta ≡ true
  pub kill_points : is_zero d.kill_points_delta ≡ true
  pub other : is_zero d.other_points_delta ≡ true
  pub boost : is_zero d.boost_points_spent_delta ≡ true
  pub food : d.food_count_delta ≡ 0
  pub food_value : is_zero d.food_value_delta ≡ true
  pub grown : d.length_delta ≡ pos 0
  pub retained : d.retained_growth_delta ≡ pos 0
  pub kills : d.kills_delta ≡ 0

is_zero_ℤ_sound : (n : ℤ) → is_zero_ℤ n ≡ true → n ≡ pos 0
is_zero_ℤ_sound (pos n) h = ap pos (ground arith)
is_zero_ℤ_sound (negsuc n) h = cc h

-- the interval goes on from an earlier one
abbrev pub IsLater : Reward → Type 0
IsLater r =
    (before : Text) × (r.previous_observation_sequence ≡ some before)
    × (int_hex before < int_hex r.observation_sequence)

-- the kinds of an interval, with what belongs to each
pub data IsKind (r : Reward) : Type 0 where
  first :
      r.transition_kind ≡ codes "initial"
      → r.previous_observation_sequence ≡ none
      → r.reason ≡ none
      → r.from_step ≡ r.to_step
      → IsIdle r.deltas
      → IsKind r
  going : r.transition_kind ≡ codes "live" → IsLater r → r.reason ≡ none → IsKind r
  dead :
      r.transition_kind ≡ codes "terminal" → IsLater r → r.reason ≡ some (codes "death") → IsKind r
  cut :
      r.transition_kind ≡ codes "truncated"
      → IsLater r
      → (cause : Text) → r.reason ≡ some cause
      → ¬ (cause ≡ codes "death")
      → IsKind r
  unnamed :
      ¬ (r.transition_kind ≡ codes "initial")
      → ¬ (r.transition_kind ≡ codes "live")
      → ¬ (r.transition_kind ≡ codes "terminal")
      → ¬ (r.transition_kind ≡ codes "truncated")
      → IsLater r
      → IsKind r

all_zero-IsIdle : (d : Deltas) → all_zero d ≡ true → IsIdle d
unfolding all_zero
all_zero-IsIdle d h = record {
  elapsed = ground arith;
  alive = ground arith;
  points = ground arith;
  survival = ground arith;
  food_points = ground arith;
  kill_points = ground arith;
  other = ground arith;
  boost = ground arith;
  food = ground arith;
  food_value = ground arith;
  grown = is_zero_ℤ_sound d.length_delta (ground arith);
  retained = is_zero_ℤ_sound d.retained_growth_delta (ground arith);
  kills = ground arith;
}

later :
    (previous : Option Text) (sequence : Text)
    → precedes previous sequence ≡ true
    → is_none previous ≡ false
    → (before : Text) × (previous ≡ some before) × (int_hex before < int_hex sequence)
later none sequence h present = cc present
later (some before) sequence h present = (before, refl, ground arith)

check_lifecycle-linked :
    (kind : Text) (reason predecessor : Option Text) (sequence from to : Text)
    → check_lifecycle kind reason predecessor sequence from to ≡ ok tt
    → text_eq kind initial ≡ false
    → is_none predecessor ≡ false
unfolding check_lifecycle
check_lifecycle-linked kind reason predecessor sequence from to h other = ground arith

caused :
    (reason : Option Text)
    → is_none reason ≡ false
    → is_text reason death ≡ false
    → (cause : Text) × (reason ≡ some cause) × ¬ (cause ≡ codes "death")
caused none h other = cc h
caused (some cause) h other = (cause, refl, λ same. differs cause death other same)

IsReward-IsKind : (r : Reward) → IsReward r → IsKind r
IsReward-IsKind r s =
    let kind = r.transition_kind in
    let (ordered, baseline, alive, ended, stopped) =
      check_lifecycle-closing kind r.reason r.previous_observation_sequence r.observation_sequence
        r.from_step r.to_step s.chronicle.lifecycle in
    elim (Bool-cases (text_eq kind initial)) [
      | inl h ↦
          let (alone, unexplained, still) = baseline h in
          first (text_eq_sound kind initial h) alone unexplained still
            (all_zero-IsIdle r.deltas (s.baseline h))
      | inr h ↦
          let linked : IsLater r =
            later r.previous_observation_sequence r.observation_sequence ordered (
              check_lifecycle-linked kind r.reason r.previous_observation_sequence
                r.observation_sequence r.from_step r.to_step s.chronicle.lifecycle h) in
          elim (Bool-cases (text_eq kind live)) [
            | inl k ↦ going (text_eq_sound kind live k) linked (alive k)
            | inr k ↦ elim (Bool-cases (text_eq kind terminal)) [
              | inl l ↦ dead (text_eq_sound kind terminal l) linked (ended l)
              | inr l ↦ elim (Bool-cases (text_eq kind truncated)) [
                | inl m ↦
                    let (some_reason, not_death) = stopped m in
                    let (cause, explained, other) = caused r.reason some_reason not_death in
                    cut (text_eq_sound kind truncated m) linked cause explained other
                | inr m ↦
                    unnamed (differs kind initial h) (differs kind live k) (differs kind terminal l)
                      (differs kind truncated m) linked
              ]
            ]
          ]
    ]

-- an admitted interval of a life
pub record IsInterval (r : Reward) : Type 0 where
  pub forward : int_hex r.from_step ≤ int_hex r.to_step
  pub kind : IsKind r
  pub grown : r.state.retained_growth ≡ r.state.body_length - r.state.starting_length
  pub finite : is_finite (point_sum r.deltas) ≡ true
  pub accounted :
      is_close one_billionth one_billionth r.deltas.points_delta (point_sum r.deltas) ≡ true
  pub acted : IsEvidence (int_hex r.to_step) r.control

balances-accounted :
    (d : Deltas)
    → balances d ≡ true
    → (is_finite (point_sum d) ≡ true)
      × (is_close one_billionth one_billionth d.points_delta (point_sum d) ≡ true)
unfolding balances accounted
balances-accounted d h = (ground arith, ground arith)

-- Whatever `parse_reward` returns is a forward interval of one kind: an initial one has no
-- predecessor, no reason, one step and no change; every other has a predecessor of a smaller
-- sequence number, and a live one no reason, a terminal one `death`, and a truncated one a reason
-- that is not `death`. The retained growth is the body length over the starting length, stopped at
-- 0. The points are, to a billionth, the finite sum of survival, food, kills and other, less boost.
-- The control evidence has no command, a first command that waits, the latest command applied, or
-- an earlier one applied, each with the counts, the order of the steps and the source that belong to it.
pub parse_reward-IsInterval :
    (wire : RewardWire) (raw : Shaped RawReward) {r : Reward}
    → parse_reward wire raw ≡ ok r
    → IsInterval r
parse_reward-IsInterval wire raw {r} h =
    let s = parse_reward-IsReward wire raw h in
    let (finite, close) = balances-accounted r.deltas s.balanced in
    record {
      forward = s.chronicle.forward;
      kind = IsReward-IsKind r s;
      grown = s.retained;
      finite = finite;
      accounted = close;
      acted = IsControl-IsEvidence (int_hex r.to_step) r.control s.controlled;
    }
