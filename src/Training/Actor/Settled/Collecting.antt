-- ===== src/Training/Actor/Settled/Collecting.antt =====
-- Credit enters an open collection: `_credit_action` keeps what holds of its samples.
use py_rl_trainer.Prelude.{
  ℕ, ◌≡◌, refl, sym, ap, ◌∙◌, Bool, true, false, Option, none, some, List, arith, Bool-cases, inl,
  inr, ok, ◌&&◌, if◌then◌else◌,
}
use mathlib.Core.Path.{subst}
use py_rl_trainer.Wire.Str.{Text}
use py_rl_trainer.Reward.{Reward}
use py_rl_trainer.Reward.Components.{Components}
use py_rl_trainer.Training.{Observation, Transition}
use py_rl_trainer.Training.Segments.Cover.{AllVersion, AllVersion-snoc}
use py_rl_trainer.Training.Actor.{
  ActorConfig, ActorClient, Endpoint, collection_open, training_collection_open,
}
use py_rl_trainer.Training.Actor.Credit.{
  finished, finish_credited_action, endpoint_value, proven_action, drop_before, is_apart,
  with_pending, take_if_none, take_proven, select_pending, is_crediting, select_credit, credited,
  add_credit, pay_pending, is_some, applied_tick, all_finite,
}
use py_rl_trainer.Training.Actor.Settled.Steps.{same_collection}
use py_rl_trainer.Wire.Hex.{int_hex}
use py_rl_trainer.Training.Actor.Settled.{PendingVersion, IssuedVersion, IsSettled}
use py_rl_trainer.Training.Actor.Settled.Samples.{
  drop_before-IssuedVersion, pop_issued-IssuedVersion, override_last-AllVersion, either-AllVersion,
}

-- an open collection without a fence, in which samples come and go
record IsCollecting (actor_id : ℕ) (policy : ℕ → ℕ) (s : ActorClient) : Type 0 where
  settled : IsSettled actor_id policy s
  unsubmitted : s.submitted_collection_epoch ≡ none
  unfenced : s.fence_required ≡ false

module _ {actor_id : ℕ} {policy : ℕ → ℕ} where
  same_samples :
      {s t : ActorClient}
      → IsCollecting actor_id policy s
      → t.contributions ≡ s.contributions
      → t.submitted_collection_epoch ≡ s.submitted_collection_epoch
      → t.active_collection_epoch ≡ s.active_collection_epoch
      → t.fence_required ≡ s.fence_required
      → t.collection_epoch ≡ s.collection_epoch
      → t.published_policy_version ≡ s.published_policy_version
      → AllVersion (policy s.active_collection_epoch) t.rollout
      → PendingVersion (policy s.active_collection_epoch) t.pending_transition
      → IssuedVersion (policy s.active_collection_epoch) t.issued_transitions
      → IsCollecting actor_id policy t
  same_samples {s} {t} h sent submitted active fence current published ended pending issued =
      record {
        settled = record {
          clean =
              same_collection h.settled.clean sent submitted active
                (λ done. absurd (ground (arith, done, h.unsubmitted)))
                (λ f. absurd (ground (arith, f, fence, h.unfenced))) ended pending issued;
          at_epoch = record {
            same = current ∙ h.settled.at_epoch.same ∙ sym active;
            published = λ w.
                published
                ∙ h.settled.at_epoch.published (sym submitted ∙ w)
                ∙ ap policy (sym active);
          };
        };
        unsubmitted = submitted ∙ h.unsubmitted;
        unfenced = fence ∙ h.unfenced;
      }

  finished-IsCollecting :
      (s : ActorClient) (pending : Option Transition) (end_ : Option Endpoint)
      → s.pending_transition ≡ pending
      → IsCollecting actor_id policy s
      → IsCollecting actor_id policy (finished s pending end_)
  finished-IsCollecting s none end_ e h = h
  finished-IsCollecting s (some t) none e h = h
  finished-IsCollecting s (some t) (some end_) e h =
      let clean = h.settled.clean in
      let own : PendingVersion (policy s.active_collection_epoch) (some t) =
        subst (λ x. PendingVersion (policy s.active_collection_epoch) x) e clean.pending in
      same_samples h refl refl refl refl refl refl
        (AllVersion-snoc (policy s.active_collection_epoch) s.rollout t clean.finished own) tt
        clean.issued

  with_pending-IsCollecting :
      (cutoff_value : Observation → ℕ) (start : ℕ) (s : ActorClient) (value : Option Transition)
      (left : List (Text × Transition))
      → IsCollecting actor_id policy s
      → PendingVersion (policy s.active_collection_epoch) value
      → IssuedVersion (policy s.active_collection_epoch) left
      → IsCollecting actor_id policy (with_pending cutoff_value start s value left)
  with_pending-IsCollecting cutoff_value start s none left h pending issued =
      same_samples h refl refl refl refl refl refl h.settled.clean.finished tt issued
  with_pending-IsCollecting cutoff_value start s (some t) left h pending issued =
      let ended = h.settled.clean.finished in
      let version = policy s.active_collection_epoch in
      same_samples h refl refl refl refl refl refl
        (either-AllVersion version (is_apart s.rollout_end t start) _ s.rollout
          (override_last-AllVersion version (endpoint_value cutoff_value s.rollout_end) s.rollout
            ended)
          ended)
        pending issued

  take_if_none-IsCollecting :
      (cutoff_value : Observation → ℕ) (start : ℕ) (id : Text) (s : ActorClient)
      (pending : Option Transition)
      → IsCollecting actor_id policy s
      → IsCollecting actor_id policy (take_if_none cutoff_value start id s pending)
  take_if_none-IsCollecting cutoff_value start id s (some t) h = h
  take_if_none-IsCollecting cutoff_value start id s none h =
      let version = policy s.active_collection_epoch in
      let (value, left) =
        pop_issued-IssuedVersion version id (drop_before id s.issued_transitions)
          (drop_before-IssuedVersion version id s.issued_transitions h.settled.clean.issued) in
      with_pending-IsCollecting cutoff_value start s _ _ h value left

  take_proven-IsCollecting :
      (cutoff_value : Observation → ℕ) (start : ℕ) (proven : Option Text) (s : ActorClient)
      → IsCollecting actor_id policy s
      → IsCollecting actor_id policy (take_proven cutoff_value start proven s)
  take_proven-IsCollecting cutoff_value start none s h = h
  take_proven-IsCollecting cutoff_value start (some id) s h =
      take_if_none-IsCollecting cutoff_value start id s s.pending_transition h

  superseded-IsCollecting :
      (b : Bool) (s : ActorClient)
      → IsCollecting actor_id policy s
      → IsCollecting actor_id policy (if b then finish_credited_action s else s)
  unfolding finish_credited_action
  superseded-IsCollecting true s h =
      finished-IsCollecting s s.pending_transition s.credit_end refl h
  superseded-IsCollecting false s h = h

  -- what the guard of `_credit_action` says of a settled actor
  crediting :
      (cfg : ActorConfig) (reward : Reward) (s : ActorClient)
      → is_crediting cfg reward s ≡ true
      → IsSettled actor_id policy s
      → IsCollecting actor_id policy s
  unfolding is_crediting training_collection_open collection_open
  crediting cfg reward s e h = record {
    settled = h;
    unsubmitted = elim h.clean.once [
      | inl opened ↦ opened
      | inr done ↦ absurd (ground (arith, e, done, h.at_epoch.same))
    ];
    unfenced = ground arith;
  }

  pub select_credit-IsSettled :
      (cfg : ActorConfig) (cutoff_value : Observation → ℕ) (reward : Reward) (s : ActorClient)
      → IsSettled actor_id policy s
      → IsSettled actor_id policy (select_credit cfg cutoff_value reward s)
  unfolding select_credit select_pending
  select_credit-IsSettled cfg cutoff_value reward s h =
      elim (Bool-cases (is_crediting cfg reward s)) [
        | inr closed ↦ rw closed h
        | inl opened ↦
            rw opened
              (take_proven-IsCollecting cutoff_value _ (proven_action reward) _
                (superseded-IsCollecting _ s (crediting cfg reward s opened h))).settled
      ]

  add_credit-IsCollecting :
      (reward : Reward) (observation : Option Observation) (parts : Components) (total : ℕ)
      (s t : ActorClient) (pending : Option Transition)
      → s.pending_transition ≡ pending
      → IsCollecting actor_id policy s
      → add_credit reward observation parts total s pending ≡ ok t
      → IsCollecting actor_id policy t
  unfolding credited
  add_credit-IsCollecting reward observation parts total s t none own h e =
      let same : s ≡ t = ground arith in subst (λ u. IsCollecting actor_id policy u) same h
  add_credit-IsCollecting reward observation parts total s t (some p) own h e =
      elim (Bool-cases (applied_tick reward.control.applied_command p.action_tick)) [
        | inr apart ↦ ground arith
        | inl same_tick ↦ elim (Bool-cases (all_finite (credited reward parts total p))) [
          | inr overflow ↦ ground arith
          | inl finite ↦
              let after : ActorClient = record s {
                pending_transition = some (credited reward parts total p);
                credit_end = some (int_hex reward.to_step, observation);
              } in
              let same : after ≡ t = ground arith in
              let clean = h.settled.clean in
              let version = policy s.active_collection_epoch in
              subst (λ u. IsCollecting actor_id policy u) same
                (same_samples h refl refl refl refl refl refl clean.finished
                  (subst (λ x. PendingVersion version x) own clean.pending) clean.issued)
        ]
      ]

  pub pay_pending-IsSettled :
      (cfg : ActorConfig) (reward : Reward) (observation : Option Observation) (parts : Components)
      (total : ℕ) (s t : ActorClient)
      → IsSettled actor_id policy s
      → pay_pending cfg reward observation parts total s ≡ ok t
      → IsSettled actor_id policy t
  unfolding pay_pending
  pay_pending-IsSettled cfg reward observation parts total s t h e =
      elim (Bool-cases (is_crediting cfg reward s && is_some (proven_action reward))) [
        | inl pays ↦
            (add_credit-IsCollecting reward observation parts total s t s.pending_transition refl
              (crediting cfg reward s (ground arith) h) (ground arith)).settled
        | inr idle ↦
            let same : s ≡ t = ground arith in subst (λ u. IsSettled actor_id policy u) same h
      ]
