-- ===== src/Training/Actor/Order/Steps.antt =====
-- Crediting, contributing and tracking keep the order of the samples.
use py_rl_trainer.Prelude.{
  ℕ, ◌≡◌, refl, Bool, Option, none, some, [], ◌∷◌, ◌++◌, arith, Bool-cases, inl, inr, ok, not, ◌&&◌,
}
use py_rl_trainer.Prelude.Ascending.{Sub-refl, Sub-nil, Sub-append}
use mathlib.Core.List.{append-nil}
use py_rl_trainer.Wire.Str.{Text}
use py_rl_trainer.Wire.Hex.{int_hex}
use py_rl_trainer.Reward.{Reward}
use py_rl_trainer.Reward.Components.{Components}
use py_rl_trainer.Training.{Observation, Transition}
use py_rl_trainer.Training.Barrier.{Message}
use py_rl_trainer.Training.Actor.{ActorConfig, ActorClient, clear_rollout, collection_open}
use py_rl_trainer.Training.Actor.Credit.{
  finish_credited_action, take_proven, select_pending, applied_tick, all_finite, select_credit,
  is_crediting, add_credit, pay_pending, credited, is_superseded, proven_action, is_some,
}
use py_rl_trainer.Training.Actor.Collection.{
  contributed, submitted, submit_training_rollout, is_empty,
}
use py_rl_trainer.Training.Actor.Order.{
  numbers, sent_numbers, unfinished, IsOrdered, IsOrdered-Sub, finish_credited_action-IsOrdered,
  clear_rollout-IsOrdered, sent_numbers-append,
}
use py_rl_trainer.Training.Actor.Order.Selection.{take_if_none-IsOrdered}

take_proven-IsOrdered :
    (cutoff_value : Observation → ℕ) (start : ℕ) (proven : Option Text) (s : ActorClient)
    → IsOrdered s
    → IsOrdered (take_proven cutoff_value start proven s)
take_proven-IsOrdered cutoff_value start none s h = h
take_proven-IsOrdered cutoff_value start (some id) s h =
    take_if_none-IsOrdered cutoff_value start id s s.pending_transition refl h

pub select_credit-IsOrdered :
    (cfg : ActorConfig) (cutoff_value : Observation → ℕ) (reward : Reward) (s : ActorClient)
    → IsOrdered s
    → IsOrdered (select_credit cfg cutoff_value reward s)
unfolding select_credit select_pending
select_credit-IsOrdered cfg cutoff_value reward s h =
    let proven = proven_action reward in
    let start = int_hex reward.from_step in
    let ended = finish_credited_action-IsOrdered s h in
    elim (Bool-cases (is_crediting cfg reward s)) [
      | inr closed ↦ rw closed h
      | inl counts ↦ elim (Bool-cases (is_superseded s.pending_transition proven)) [
        | inl over ↦ rw (counts, over) (take_proven-IsOrdered cutoff_value start proven _ ended)
        | inr same ↦ rw (counts, same) (take_proven-IsOrdered cutoff_value start proven s h)
      ]
    ]

add_credit-IsOrdered :
    (reward : Reward) (observation : Option Observation) (parts : Components) (total : ℕ)
    (s : ActorClient) (pending : Option Transition) {t : ActorClient}
    → s.pending_transition ≡ pending
    → IsOrdered s
    → add_credit reward observation parts total s pending ≡ ok t
    → IsOrdered t
unfolding credited
add_credit-IsOrdered reward observation parts total s none {t} p h e =
    let same : s ≡ t = ground arith in rw (← same) h
add_credit-IsOrdered reward observation parts total s (some q) {t} p h e =
    elim (Bool-cases (applied_tick reward.control.applied_command q.action_tick)) [
      | inr apart ↦ ground arith
      | inl same_tick ↦ elim (Bool-cases (all_finite (credited reward parts total q))) [
        | inr overflow ↦ ground arith
        | inl finite ↦
            let after : ActorClient = record s {
              pending_transition = some (credited reward parts total q);
              credit_end = some (int_hex reward.to_step, observation);
            } in
            let same : after ≡ t = ground arith in
            rw (← same) (IsOrdered-Sub h (rw p (Sub-refl _)) (omega arith) h.keyed)
      ]
    ]

pub pay_pending-IsOrdered :
    (cfg : ActorConfig) (reward : Reward) (observation : Option Observation) (parts : Components)
    (total : ℕ) (s t : ActorClient)
    → IsOrdered s
    → pay_pending cfg reward observation parts total s ≡ ok t
    → IsOrdered t
unfolding pay_pending
pay_pending-IsOrdered cfg reward observation parts total s t h e =
    elim (Bool-cases (is_crediting cfg reward s && is_some (proven_action reward))) [
      | inl pays ↦
          add_credit-IsOrdered reward observation parts total s s.pending_transition refl h
            (ground arith)
      | inr not_paid ↦ let same : s ≡ t = ground arith in rw (← same) h
    ]

contributed-IsOrdered :
    (cfg : ActorConfig) (bootstrap : ℕ) (s : ActorClient)
    → IsOrdered s
    → IsOrdered (contributed cfg bootstrap s)
unfolding contributed
contributed-IsOrdered cfg bootstrap s h =
    let message : Message = record {
      actor_id = cfg.actor_id;
      epoch = s.collection_epoch;
      rollout = s.rollout;
      bootstrap = bootstrap;
    } in
    let sent = sent_numbers s.contributions in
    let ended = numbers s.rollout in
    let moved = sent_numbers-append s.contributions (message ∷ []) in
    IsOrdered-Sub h
      (rw (moved, append-nil (sent ++ (ended ++ [])))
        (Sub-append (Sub-refl sent) (Sub-append (Sub-refl ended) (Sub-nil (unfinished s)))))
      (omega arith) tt

submitted-IsOrdered :
    (cfg : ActorConfig) (cutoff_value : Observation → ℕ) (bootstrap : Option ℕ) (s : ActorClient)
    → IsOrdered s
    → IsOrdered (submitted cfg cutoff_value bootstrap s)
submitted-IsOrdered cfg cutoff_value (some bootstrap) s h = contributed-IsOrdered cfg bootstrap s h
submitted-IsOrdered cfg cutoff_value none s h =
    contributed-IsOrdered cfg _ (finish_credited_action s) (finish_credited_action-IsOrdered s h)

pub submit_training_rollout-IsOrdered :
    (cfg : ActorConfig) (cutoff_value : Observation → ℕ) (bootstrap : Option ℕ) (allow_empty : Bool)
    (s t : ActorClient)
    → IsOrdered s
    → submit_training_rollout cfg cutoff_value bootstrap allow_empty s ≡ ok t
    → IsOrdered t
unfolding submit_training_rollout
submit_training_rollout-IsOrdered cfg cutoff_value bootstrap allow_empty s t h e =
    elim (Bool-cases (collection_open cfg s)) [
      | inr closed ↦
          let same : clear_rollout s ≡ t = ground arith in rw (← same) (clear_rollout-IsOrdered s h)
      | inl opened ↦ elim (Bool-cases (is_empty s.rollout && not allow_empty)) [
        | inl nothing ↦ let same : s ≡ t = ground arith in rw (← same) h
        | inr something ↦ elim (Bool-cases (s.fence_required && not (is_empty s.rollout))) [
          | inl fenced ↦ ground arith
          | inr free ↦
              let same : submitted cfg cutoff_value bootstrap s ≡ t = ground arith in
              rw (← same) (submitted-IsOrdered cfg cutoff_value bootstrap s h)
        ]
      ]
    ]
