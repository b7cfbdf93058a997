-- ===== src/Training/Actor/Settled/Steps.antt =====
-- The single steps of the actor keep what holds of its samples.
use py_rl_trainer.Prelude.{
  ℕ, suc, ◌≡◌, refl, sym, ap, ◌∙◌, true, Option, none, some, [], arith, inl, inr,
}
use mathlib.Core.Path.{subst}
use py_rl_trainer.Training.{Transition}
use py_rl_trainer.Training.Segments.Cover.{AllVersion, AllVersion-snoc}
use py_rl_trainer.Training.Actor.{ActorClient, Endpoint, clear_rollout, clear_unfinished_actions}
use py_rl_trainer.Training.Actor.Credit.{finished, finish_credited_action}
use py_rl_trainer.Training.Actor.Core.{core}
use py_rl_trainer.Training.Actor.Settled.{
  IsIdle, PendingVersion, IssuedVersion, IsClean, IsAtEpoch, IsPast, IsSettled, IsRested,
}

module _ {policy : ℕ → ℕ} where
  pub core-IsAtEpoch :
      (s t : ActorClient) → core t ≡ core s → IsAtEpoch policy s → IsAtEpoch policy t
  core-IsAtEpoch s t e h =
      let submitted = ap (λ c. c.5) e in
      let active = ap (λ c. c.6) e in
      record {
        same = ap (λ c. c.9) e ∙ h.same ∙ sym active;
        published =
            λ w. ap (λ c. c.10) e ∙ h.published (sym submitted ∙ w) ∙ ap policy (sym active);
      }

  core-IsPast : (s t : ActorClient) → core t ≡ core s → IsPast policy s → IsPast policy t
  core-IsPast s t e h =
      let active = ap (λ c. c.6) e in
      let current = ap (λ c. c.9) e in
      record {
        next = current ∙ h.next ∙ ap (λ n. suc n) (sym active);
        submitted = ap (λ c. c.5) e ∙ h.submitted ∙ ap (λ n. some n) (sym active);
        published = ap (λ c. c.10) e ∙ h.published ∙ ap policy (sym current);
      }

module _ {actor_id : ℕ} {policy : ℕ → ℕ} where
  -- the same collection, with other samples of the same versions
  pub same_collection :
      {s t : ActorClient}
      → IsClean actor_id policy s
      → t.contributions ≡ s.contributions
      → t.submitted_collection_epoch ≡ s.submitted_collection_epoch
      → t.active_collection_epoch ≡ s.active_collection_epoch
      → (s.submitted_collection_epoch ≡ some s.active_collection_epoch → IsIdle t)
      → (t.fence_required ≡ true → (t.rollout ≡ []) × (t.pending_transition ≡ none))
      → AllVersion (policy s.active_collection_epoch) t.rollout
      → PendingVersion (policy s.active_collection_epoch) t.pending_transition
      → IssuedVersion (policy s.active_collection_epoch) t.issued_transitions
      → IsClean actor_id policy t
  same_collection {s} {t} h sent submitted active idle fenced ended pending issued = record {
    once = rw (submitted, active) h.once;
    idle = rw (submitted, active) idle;
    fenced = fenced;
    finished = rw active ended;
    pending = rw active pending;
    issued = rw active issued;
    rising = rw (sent, submitted, active) h.rising;
    sent = rw sent h.sent;
  }

  pub core-IsClean :
      (s t : ActorClient) → core t ≡ core s → IsClean actor_id policy s → IsClean actor_id policy t
  core-IsClean s t e h =
      let ended = ap (λ c. c.1) e in
      let pending = ap (λ c. c.2) e in
      let issued = ap (λ c. c.3) e in
      same_collection h (ap (λ c. c.0) e) (ap (λ c. c.5) e) (ap (λ c. c.6) e)
        (λ done. rw (ended, pending, issued) (h.idle done))
        (λ f. rw (ended, pending) (h.fenced (sym (ap (λ c. c.7) e) ∙ f))) (rw ended h.finished)
        (rw pending h.pending) (rw issued h.issued)

  pub core-IsRested :
      (s t : ActorClient)
      → core t ≡ core s
      → IsRested actor_id policy s
      → IsRested actor_id policy t
  core-IsRested s t e h = record {
    clean = core-IsClean s t e h.clean;
    stands = elim h.stands [
      | inl at_epoch ↦ inl (core-IsAtEpoch s t e at_epoch)
      | inr past ↦ inr (core-IsPast s t e past)
    ];
  }

  pub core-IsSettled :
      (s t : ActorClient)
      → core t ≡ core s
      → IsSettled actor_id policy s
      → IsSettled actor_id policy t
  core-IsSettled s t e h = record {
    clean = core-IsClean s t e h.clean;
    at_epoch = core-IsAtEpoch s t e h.at_epoch;
  }

  pub clear_unfinished_actions-IsClean :
      (s : ActorClient)
      → IsClean actor_id policy s
      → IsClean actor_id policy (clear_unfinished_actions s)
  unfolding clear_unfinished_actions
  clear_unfinished_actions-IsClean s h =
      same_collection h refl refl refl (λ done. ((h.idle done).0, refl, refl))
        (λ f. ((h.fenced f).0, refl)) h.finished tt tt

  pub clear_rollout-IsClean :
      (s : ActorClient) → IsClean actor_id policy s → IsClean actor_id policy (clear_rollout s)
  unfolding clear_rollout
  clear_rollout-IsClean s h =
      same_collection h refl refl refl (λ done. (refl, (h.idle done).1, (h.idle done).2))
        (λ f. (refl, (h.fenced f).1)) tt h.pending h.issued

  finished-IsClean :
      (s : ActorClient) (pending : Option Transition) (end_ : Option Endpoint)
      → s.pending_transition ≡ pending
      → IsClean actor_id policy s
      → IsClean actor_id policy (finished s pending end_)
  finished-IsClean s none end_ e h = h
  finished-IsClean s (some t) none e h = h
  finished-IsClean s (some t) (some end_) e h =
      let own : PendingVersion (policy s.active_collection_epoch) (some t) =
        subst (λ x. PendingVersion (policy s.active_collection_epoch) x) e h.pending in
      same_collection h refl refl refl (λ done. absurd (ground (arith, e, (h.idle done).1)))
        (λ f. absurd (ground (arith, e, (h.fenced f).1)))
        (AllVersion-snoc (policy s.active_collection_epoch) s.rollout t h.finished own) tt h.issued

  pub finish_credited_action-IsClean :
      (s : ActorClient)
      → IsClean actor_id policy s
      → IsClean actor_id policy (finish_credited_action s)
  unfolding finish_credited_action
  finish_credited_action-IsClean s h = finished-IsClean s s.pending_transition s.credit_end refl h
