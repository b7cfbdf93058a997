-- ===== src/Training/Actor/Settled/Contributions.antt =====
-- A contribution keeps what holds of the samples, and there is one for the epoch from then on.
use py_rl_trainer.Prelude.{
  ℕ, suc, ◌≡◌, refl, sym, ap, ◌∙◌, Bool, true, Option, none, some, List, [], ◌∷◌, ◌++◌, arith,
  Bool-cases, inl, inr, ok, not, ◌&&◌,
}
use mathlib.Core.Path.{subst}
use py_rl_trainer.Prelude.Ascending.{AscendsTo, AscendsTo-snoc}
use py_rl_trainer.Training.{Observation, Transition}
use py_rl_trainer.Training.Barrier.{Message}
use py_rl_trainer.Training.Segments.Cover.{AllVersion}
use py_rl_trainer.Training.Actor.{
  ActorConfig, ActorClient, Endpoint, collection_open, clear_rollout, clear_unfinished_actions,
}
use py_rl_trainer.Training.Actor.Credit.{finished, finish_credited_action}
use py_rl_trainer.Training.Actor.Collection.{
  is_empty, contributed, submitted, submit_training_rollout,
}
use py_rl_trainer.Training.Actor.Settled.{epochs, AllSent, sent_below, IsAtEpoch, IsSettled}
use py_rl_trainer.Training.Actor.Settled.Steps.{
  clear_rollout-IsClean, finish_credited_action-IsClean,
}

epochs-append : (xs ys : List Message) → epochs (xs ++ ys) ≡ epochs xs ++ epochs ys
epochs-append [] ys = refl
epochs-append (m ∷ xs) ys = ap (λ l. suc m.epoch ∷ l) (epochs-append xs ys)

AllSent-snoc :
    (actor_id : ℕ) (policy : ℕ → ℕ) (ms : List Message) (m : Message)
    → AllSent actor_id policy ms
    → m.actor_id ≡ actor_id
    → AllVersion (policy m.epoch) m.rollout
    → AllSent actor_id policy (ms ++ (m ∷ []))
AllSent-snoc actor_id policy [] m h own same = (own, same, tt)
AllSent-snoc actor_id policy (x ∷ ms) m h own same =
    (h.0, h.1, AllSent-snoc actor_id policy ms m h.2 own same)

-- the collection is open: there is no contribution to the epoch yet
pub opened :
    {actor_id : ℕ} {policy : ℕ → ℕ} (cfg : ActorConfig) (s : ActorClient)
    → IsSettled actor_id policy s
    → collection_open cfg s ≡ true
    → s.submitted_collection_epoch ≡ none
unfolding collection_open
opened cfg s h e = elim h.clean.once [
  | inl unsubmitted ↦ unsubmitted
  | inr done ↦ absurd (ground (arith, e, done, h.at_epoch.same))
]

finished-stands :
    (s : ActorClient) (pending : Option Transition) (end_ : Option Endpoint)
    → let t = finished s pending end_ in
      (t.submitted_collection_epoch ≡ s.submitted_collection_epoch)
      × (t.active_collection_epoch ≡ s.active_collection_epoch)
      × (t.collection_epoch ≡ s.collection_epoch)
      × (t.published_policy_version ≡ s.published_policy_version)
finished-stands s none end_ = (refl, refl, refl, refl)
finished-stands s (some t) none = (refl, refl, refl, refl)
finished-stands s (some t) (some end_) = (refl, refl, refl, refl)

-- the same place in the collection
pub at_same_epoch :
    {policy : ℕ → ℕ} {s t : ActorClient}
    → IsAtEpoch policy s
    → t.submitted_collection_epoch ≡ s.submitted_collection_epoch
    → t.active_collection_epoch ≡ s.active_collection_epoch
    → t.collection_epoch ≡ s.collection_epoch
    → t.published_policy_version ≡ s.published_policy_version
    → IsAtEpoch policy t
at_same_epoch {policy} h submitted active current published = record {
  same = current ∙ h.same ∙ sym active;
  published = λ w. published ∙ h.published (sym submitted ∙ w) ∙ ap policy (sym active);
}

module _ {policy : ℕ → ℕ} (cfg : ActorConfig) where
  contributed-IsSettled :
      (bootstrap : ℕ) (s : ActorClient)
      → IsSettled cfg.actor_id policy s
      → s.submitted_collection_epoch ≡ none
      → IsSettled cfg.actor_id policy (contributed cfg bootstrap s)
  unfolding contributed clear_rollout clear_unfinished_actions
  contributed-IsSettled bootstrap s h unsubmitted =
      let same = h.at_epoch.same in
      let message : Message = record {
        actor_id = cfg.actor_id;
        epoch = s.collection_epoch;
        rollout = s.rollout;
        bootstrap = bootstrap;
      } in
      let below =
        subst (λ x. AscendsTo 0 (sent_below x s.active_collection_epoch) (epochs s.contributions))
          unsubmitted h.clean.rising in
      record {
        clean = record {
          once = inr (ap (λ n. some n) same);
          idle = λ done. (refl, refl, refl);
          fenced = λ f. (refl, refl);
          finished = tt;
          pending = tt;
          issued = tt;
          rising =
              rw (epochs-append s.contributions (message ∷ []), same)
                (AscendsTo-snoc 0 s.active_collection_epoch (suc s.active_collection_epoch)
                  (epochs s.contributions) below (omega arith));
          sent =
              AllSent-snoc cfg.actor_id policy s.contributions message h.clean.sent refl
                (rw same h.clean.finished);
        };
        at_epoch = record { same = same; published = λ w. ground arith };
      }

  pub finish_credited_action-IsSettled :
      (s : ActorClient)
      → IsSettled cfg.actor_id policy s
      → IsSettled cfg.actor_id policy (finish_credited_action s)
  finish_credited_action-IsSettled s h =
      let (submitted, active, current, published) =
        finished-stands s s.pending_transition s.credit_end in
      record {
        clean = finish_credited_action-IsClean s h.clean;
        at_epoch =
            unfold finish_credited_action in
            at_same_epoch h.at_epoch submitted active current published;
      }

  submitted-IsSettled :
      (cutoff_value : Observation → ℕ) (bootstrap : Option ℕ) (s : ActorClient)
      → IsSettled cfg.actor_id policy s
      → s.submitted_collection_epoch ≡ none
      → IsSettled cfg.actor_id policy (submitted cfg cutoff_value bootstrap s)
  submitted-IsSettled cutoff_value (some bootstrap) s h unsubmitted =
      contributed-IsSettled bootstrap s h unsubmitted
  submitted-IsSettled cutoff_value none s h unsubmitted =
      let stands = finished-stands s s.pending_transition s.credit_end in
      contributed-IsSettled _ (finish_credited_action s) (finish_credited_action-IsSettled s h)
        (unfold finish_credited_action in (stands.0 ∙ unsubmitted))

  pub submit_training_rollout-IsSettled :
      (cutoff_value : Observation → ℕ) (bootstrap : Option ℕ) (allow_empty : Bool)
      (s t : ActorClient)
      → IsSettled cfg.actor_id policy s
      → submit_training_rollout cfg cutoff_value bootstrap allow_empty s ≡ ok t
      → IsSettled cfg.actor_id policy t
  unfolding submit_training_rollout clear_rollout
  submit_training_rollout-IsSettled cutoff_value bootstrap allow_empty s t h e =
      elim (Bool-cases (collection_open cfg s)) [
        | inr closed ↦
            let same : clear_rollout s ≡ t = ground arith in
            subst (λ u. IsSettled cfg.actor_id policy u) same
              (record {
                clean = clear_rollout-IsClean s h.clean;
                at_epoch = at_same_epoch h.at_epoch refl refl refl refl;
              })
        | inl open_now ↦ elim (Bool-cases (is_empty s.rollout && not allow_empty)) [
          | inl nothing ↦
              let same : s ≡ t = ground arith in subst (λ u. IsSettled cfg.actor_id policy u) same h
          | inr something ↦ elim (Bool-cases (s.fence_required && not (is_empty s.rollout))) [
            | inl fenced ↦ ground arith
            | inr free ↦
                let same : submitted cfg cutoff_value bootstrap s ≡ t = ground arith in
                subst (λ u. IsSettled cfg.actor_id policy u) same
                  (submitted-IsSettled cutoff_value bootstrap s h (opened cfg s h open_now))
          ]
        ]
      ]
