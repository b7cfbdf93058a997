-- ===== src/Training/Actor/Settled.antt =====
-- One contribution for each collection epoch, sampled under the policy of that epoch: what an actor
-- holds between the messages and while it handles one.
pub mod Steps
pub mod Samples
pub mod Collecting
pub mod Contributions
pub mod Epochs
pub mod Sends
pub mod Lives
pub mod Guards
use py_rl_trainer.Prelude.{
  ℕ, zero, suc, ◌+◌, ◌≤◌, ◌<◌, ◌≡◌, ◌≢◌, refl, sym, ap, ◌∙◌, ◌⊎◌, Bool, true, false, Option, none,
  some, List, [], ◌∷◌, ◌++◌, arith, Bool-cases, Option-cases, inl, inr, ok, err, not, ◌&&◌, ◌||◌,
  ◌==◌, if◌then◌else◌, leb, length,
}
use py_rl_trainer.Prelude.Ascending.{AscendsTo, AscendsTo-snoc, AscendsTo-higher}
use py_rl_trainer.Wire.Str.{Text}
use py_rl_trainer.Training.{Observation, Transition}
use py_rl_trainer.Training.Segments.Cover.{AllVersion}
use py_rl_trainer.Training.Barrier.{Message}
use py_rl_trainer.Training.Actor.{ActorConfig, ActorClient, ActorError}
use py_rl_trainer.Training.Actor.Core.{core}
use py_rl_trainer.Training.Actor.Runs.{Learners}

-- nothing is held that could be contributed
abbrev pub IsIdle : ActorClient → Type 0
IsIdle s = (s.rollout ≡ []) × (s.pending_transition ≡ none) × (s.issued_transitions ≡ [])

abbrev pub PendingVersion : ℕ → Option Transition → Type 0
PendingVersion version none = Unit
PendingVersion version (some t) = t.policy_version ≡ version

abbrev pub IssuedVersion : ℕ → List (Text × Transition) → Type 0
IssuedVersion version [] = Unit
IssuedVersion version ((key, t) ∷ rest) = (t.policy_version ≡ version) × IssuedVersion version rest

-- the epochs of the contributions, each one more
abbrev pub epochs : List Message → List ℕ
epochs [] = []
epochs (m ∷ rest) = suc m.epoch ∷ epochs rest

-- the contributions are the actor's, of transitions sampled under the policy of their epoch
abbrev pub AllSent : ℕ → (ℕ → ℕ) → List Message → Type 0
AllSent actor_id policy [] = Unit
AllSent actor_id policy (m ∷ rest) =
    (m.actor_id ≡ actor_id) × AllVersion (policy m.epoch) m.rollout × AllSent actor_id policy rest

-- the epochs that have their contribution
abbrev pub sent_below : Option ℕ → ℕ → ℕ
sent_below none active = active
sent_below (some submitted) active = suc active

-- `policy` gives the version that is published for each epoch. What holds of the samples, wherever
-- the learner stands.
pub record IsClean (actor_id : ℕ) (policy : ℕ → ℕ) (s : ActorClient) : Type 0 where
  pub once :
      (s.submitted_collection_epoch ≡ none)
      ⊎ (s.submitted_collection_epoch ≡ some s.active_collection_epoch)
  pub idle : s.submitted_collection_epoch ≡ some s.active_collection_epoch → IsIdle s
  pub fenced : s.fence_required ≡ true → (s.rollout ≡ []) × (s.pending_transition ≡ none)
  pub finished : AllVersion (policy s.active_collection_epoch) s.rollout
  pub pending : PendingVersion (policy s.active_collection_epoch) s.pending_transition
  pub issued : IssuedVersion (policy s.active_collection_epoch) s.issued_transitions
  pub rising :
      AscendsTo 0
        (sent_below s.submitted_collection_epoch s.active_collection_epoch)
        (epochs s.contributions)
  pub sent : AllSent actor_id policy s.contributions

-- the learner stands at the actor's epoch, with its policy until the actor has contributed
pub record IsAtEpoch (policy : ℕ → ℕ) (s : ActorClient) : Type 0 where
  pub same : s.collection_epoch ≡ s.active_collection_epoch
  pub published :
      s.submitted_collection_epoch ≡ none
      → s.published_policy_version ≡ policy s.active_collection_epoch

-- or it has passed to the next one, once the actor has contributed
pub record IsPast (policy : ℕ → ℕ) (s : ActorClient) : Type 0 where
  pub next : s.collection_epoch ≡ suc s.active_collection_epoch
  pub submitted : s.submitted_collection_epoch ≡ some s.active_collection_epoch
  pub published : s.published_policy_version ≡ policy s.collection_epoch

pub record IsSettled (actor_id : ℕ) (policy : ℕ → ℕ) (s : ActorClient) : Type 0 where
  pub clean : IsClean actor_id policy s
  pub at_epoch : IsAtEpoch policy s

pub record IsRested (actor_id : ℕ) (policy : ℕ → ℕ) (s : ActorClient) : Type 0 where
  pub clean : IsClean actor_id policy s
  pub stands : IsAtEpoch policy s ⊎ IsPast policy s

-- The moves of the learner that the barrier allows: it passes to the next epoch, with that epoch's
-- policy, only once it has the actor's contribution to the current one; it publishes an update
-- before that only once it has this contribution.
abbrev pub Barrier : (ℕ → ℕ) → Learners
Barrier policy s epoch version =
    ((epoch ≡ s.collection_epoch) × (version ≡ s.published_policy_version))
    ⊎ ((epoch ≡ s.collection_epoch) × (s.submitted_collection_epoch ≡ some s.collection_epoch))
    ⊎ ((s.submitted_collection_epoch ≡ some s.collection_epoch)
        × (epoch ≡ suc s.collection_epoch)
        × (version ≡ policy epoch))
