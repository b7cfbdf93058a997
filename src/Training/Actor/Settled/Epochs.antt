-- ===== src/Training/Actor/Settled/Epochs.antt =====
-- The refresh of the epoch, the fence and the closure keep what holds of the samples.
use py_rl_trainer.Prelude.{
  ℕ, ◌≡◌, refl, sym, Bool, true, false, Option, none, some, List, [], ◌∷◌, arith, Bool-cases, inl,
  inr, ok, ◌==◌, if◌then◌else◌,
}
use mathlib.Core.Path.{subst}
use py_rl_trainer.Prelude.Ascending.{AscendsTo}
use py_rl_trainer.Reward.{Reward}
use py_rl_trainer.Training.{Observation, Transition, one}
use py_rl_trainer.Training.Segments.Cover.{AllVersion}
use py_rl_trainer.Training.Actor.{ActorConfig, ActorClient, Endpoint}
use py_rl_trainer.Training.Actor.Collection.{
  refresh_collection_epoch, observe_collection_fence, fence_after,
}
use py_rl_trainer.Training.Actor.Lifecycle.{close_rollout, closed_at, done_last}
use py_rl_trainer.Training.Actor.Settled.{
  PendingVersion, IssuedVersion, epochs, sent_below, IsClean, IsPast, IsSettled, IsRested,
}
use py_rl_trainer.Training.Actor.Settled.Steps.{same_collection}
use py_rl_trainer.Training.Actor.Settled.Contributions.{at_same_epoch}

done_last-AllVersion :
    (version value : ℕ) (ts : List Transition)
    → AllVersion version ts
    → AllVersion version (done_last value ts)
done_last-AllVersion version value [] h = tt
done_last-AllVersion version value (t ∷ []) h = h
done_last-AllVersion version value (t ∷ (u ∷ rest)) h =
    (h.0, done_last-AllVersion version value (u ∷ rest) h.1)

done_last-empty : (value : ℕ) (ts : List Transition) → ts ≡ [] → done_last value ts ≡ []
done_last-empty value [] e = refl
done_last-empty value (t ∷ ts) e = ground arith

-- the actor follows the learner, which has passed on only after the actor's contribution
abbrev pub refreshed : ActorClient → ActorClient
refreshed s = record s {
  active_collection_epoch = s.collection_epoch;
  submitted_collection_epoch = none;
  fence_required = true;
  fence_action_id = none;
}

fence_after-fenced :
    (cfg : ActorConfig) (s : ActorClient) (reward : Option Reward)
    → fence_after cfg s reward ≡ true
    → s.fence_required ≡ true
fence_after-fenced cfg s none e = e
fence_after-fenced cfg s (some reward) e = ground arith

module _ {policy : ℕ → ℕ} (cfg : ActorConfig) where
  refreshed-IsSettled :
      (s : ActorClient)
      → IsClean cfg.actor_id policy s
      → IsPast policy s
      → IsSettled cfg.actor_id policy (refreshed s)
  refreshed-IsSettled s h past =
      let (ended, pending, issued) = h.idle past.submitted in
      record {
        clean = record {
          once = inl refl;
          idle = λ done. ground arith;
          fenced = λ f. (ended, pending);
          finished = subst (λ x. AllVersion (policy s.collection_epoch) x) (sym ended) tt;
          pending = subst (λ x. PendingVersion (policy s.collection_epoch) x) (sym pending) tt;
          issued = subst (λ x. IssuedVersion (policy s.collection_epoch) x) (sym issued) tt;
          rising =
              subst (λ n. AscendsTo 0 n (epochs s.contributions)) (sym past.next)
                (subst
                  (λ x.
                    AscendsTo 0 (sent_below x s.active_collection_epoch) (epochs s.contributions))
                  past.submitted h.rising);
          sent = h.sent;
        };
        at_epoch = record { same = refl; published = λ w. past.published };
      }

  -- from an epoch that has ended to the one at which the learner stands
  pub refresh_collection_epoch-IsSettled :
      (s t : ActorClient)
      → cfg.evaluation ≡ false
      → IsRested cfg.actor_id policy s
      → refresh_collection_epoch cfg s ≡ ok t
      → IsSettled cfg.actor_id policy t
  unfolding refresh_collection_epoch
  refresh_collection_epoch-IsSettled s t trains h e = elim h.stands [
    | inl at_epoch ↦
        let same : s ≡ t = ground (arith, at_epoch.same) in
        subst (λ u. IsSettled cfg.actor_id policy u) same
          (record { clean = h.clean; at_epoch = at_epoch })
    | inr past ↦
        let (ended, pending, issued) = h.clean.idle past.submitted in
        let same : refreshed s ≡ t = ground (arith, past.next) in
        subst (λ u. IsSettled cfg.actor_id policy u) same (refreshed-IsSettled s h.clean past)
  ]

  pub observe_collection_fence-IsSettled :
      (s : ActorClient)
      → IsSettled cfg.actor_id policy s
      → IsSettled cfg.actor_id policy (observe_collection_fence cfg s)
  unfolding observe_collection_fence
  observe_collection_fence-IsSettled s h = record {
    clean =
        same_collection h.clean refl refl refl h.clean.idle
          (λ f. h.clean.fenced (fence_after-fenced cfg s s.last_reward_envelope f)) h.clean.finished
          h.clean.pending h.clean.issued;
    at_epoch = at_same_epoch h.at_epoch refl refl refl refl;
  }

  closed_at-IsSettled :
      (has_died : Bool) (step : ℕ) (final : Option Observation) (s : ActorClient)
      (end_ : Option Endpoint)
      → IsSettled cfg.actor_id policy s
      → IsSettled cfg.actor_id policy (closed_at has_died step final s end_)
  closed_at-IsSettled has_died step final s none h = h
  closed_at-IsSettled has_died step final s (some (e, obs)) h = elim (Bool-cases (e == step)) [
    | inr apart ↦ rw apart h
    | inl here ↦
        let value = if has_died then one else 0 in
        let empty = done_last-empty value s.rollout in
        rw here (record {
          clean =
              same_collection h.clean refl refl refl
                (λ done.
                  (empty (h.clean.idle done).0, (h.clean.idle done).1, (h.clean.idle done).2))
                (λ f. (empty (h.clean.fenced f).0, (h.clean.fenced f).1))
                (done_last-AllVersion (policy s.active_collection_epoch) value s.rollout
                  h.clean.finished)
                h.clean.pending h.clean.issued;
          at_epoch = at_same_epoch h.at_epoch refl refl refl refl;
        })
  ]

  pub close_rollout-IsSettled :
      (has_died : Bool) (step : ℕ) (final : Option Observation) (s : ActorClient)
      → IsSettled cfg.actor_id policy s
      → IsSettled cfg.actor_id policy (close_rollout has_died step final s)
  unfolding close_rollout
  close_rollout-IsSettled has_died step final s h =
      closed_at-IsSettled has_died step final s s.rollout_end h
