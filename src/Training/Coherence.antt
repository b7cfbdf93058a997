-- ===== src/Training/Coherence.antt =====
-- The actors and the barrier together: what the actors contribute is of one policy for each epoch.
use py_rl_trainer.Prelude.{
  ℕ, ◌≡◌, refl, sym, Bool, false, none, List, [], ◌∷◌, arith, Bool-cases, inl, inr, ltb, length,
}
use mathlib.Core.Path.{subst}
use mathlib.Core.List.{Memᴰ}
use py_rl_trainer.Prelude.Dict.{find, insert, set_default}
use py_rl_trainer.Training.Segments.Cover.{AllVersion}
use py_rl_trainer.Training.Barrier.{
  Contribution, Message, waiting, Collector, new_collector, Bounds, contributions_of, pass_barrier,
  collect,
}
use py_rl_trainer.Training.Barrier.Versions.{
  AllOf, AllPending, AllOf-is_coherent, insert-AllOf, set_default-AllOf, find-AllOf,
  insert-AllPending, remove-AllPending,
}
use py_rl_trainer.Training.Actor.{ActorConfig, ActorClient}
use py_rl_trainer.Training.Actor.Runs.{Runs}
use py_rl_trainer.Training.Actor.Settled.{Barrier, AllSent}
use py_rl_trainer.Training.Actor.Settled.Lives.{Runs-IsRested}

-- one of the contributions of a training actor, in a run under the barrier
pub record IsContributed (policy : ℕ → ℕ) (m : Message) : Type 0 where
  pub cfg : ActorConfig
  pub trains : cfg.evaluation ≡ false
  pub begun : ℕ
  pub actor : ActorClient
  pub run : Runs cfg (Barrier policy) begun (policy begun) actor
  pub sent : Memᴰ m actor.contributions

-- the loop of the learner, on such contributions in any order and number
pub data Trains (policy : ℕ → ℕ) (bounds : Bounds) : Collector → Type 0 where
  started : Trains policy bounds new_collector
  received :
      {c : Collector}
      → Trains policy bounds c
      → (m : Message) → IsContributed policy m
      → (stale : Bool) → Trains policy bounds (collect bounds c m stale)

AllSent-AllVersion :
    (actor_id : ℕ) (policy : ℕ → ℕ) {m : Message} (sent : List Message)
    → AllSent actor_id policy sent
    → Memᴰ m sent
    → AllVersion (policy m.epoch) m.rollout
AllSent-AllVersion actor_id policy [] h d = elim d [ ]
AllSent-AllVersion actor_id policy (x ∷ sent) h (Memᴰ.head e) =
    subst (λ (y : Message). AllVersion (policy y.epoch) y.rollout) (sym e) h.1
AllSent-AllVersion actor_id policy (x ∷ sent) h (Memᴰ.tail d) =
    AllSent-AllVersion actor_id policy sent h.2 d

IsContributed-AllVersion :
    {policy : ℕ → ℕ} {m : Message} → IsContributed policy m → AllVersion (policy m.epoch) m.rollout
IsContributed-AllVersion {policy} h =
    AllSent-AllVersion h.cfg.actor_id policy h.actor.contributions
      (Runs-IsRested h.cfg h.trains h.run).clean.sent h.sent

module _ (policy : ℕ → ℕ) where
  -- the loop waits, and every contribution to an epoch is of its policy
  record IsWaiting (c : Collector) : Type 0 where
    waits : c.status ≡ waiting
    pending : AllPending policy c.pending

  pass_barrier-IsWaiting :
      (bounds : Bounds) (stale : Bool) (c : Collector) (d : List (ℕ × Contribution))
      → bounds.decision_budget ≡ none
      → IsWaiting c
      → AllOf (policy c.collection_epoch) d
      → IsWaiting (pass_barrier bounds stale c d)
  unfolding pass_barrier
  pass_barrier-IsWaiting bounds stale c d unbounded h k =
      let coherent = AllOf-is_coherent (policy c.collection_epoch) d k in
      rw (coherent, unbounded)
        (record {
          waits = h.waits;
          pending = remove-AllPending policy c.collection_epoch c.pending h.pending;
        })

  collect-IsWaiting :
      (bounds : Bounds) (stale : Bool) (c : Collector) (m : Message)
      → bounds.decision_budget ≡ none
      → IsWaiting c
      → AllVersion (policy m.epoch) m.rollout
      → IsWaiting (collect bounds c m stale)
  unfolding collect
  collect-IsWaiting bounds stale c m unbounded h own =
      let known = contributions_of (find m.epoch c.pending) in
      let contribution : Contribution = (m.rollout, m.bootstrap) in
      let before = find-AllOf policy m.epoch c.pending h.pending in
      let later = insert-AllOf (policy m.epoch) m.actor_id contribution known own before in
      let now = set_default-AllOf (policy m.epoch) m.actor_id contribution known own before in
      let contributions = set_default m.actor_id contribution known in
      let gathered : IsWaiting (record c { pending = insert m.epoch contributions c.pending }) =
        record {
          waits = h.waits;
          pending = insert-AllPending policy m.epoch contributions c.pending now h.pending;
        } in
      elim (Bool-cases (ltb m.epoch c.collection_epoch)) [
        | inl past ↦ rw past h
        | inr not_past ↦ elim (Bool-cases (ltb c.collection_epoch m.epoch)) [
          | inl ahead ↦
              rw (not_past, ahead)
                (record {
                  waits = h.waits;
                  pending =
                      insert-AllPending policy m.epoch (insert m.actor_id contribution known)
                        c.pending later h.pending;
                })
          | inr current ↦ elim (Bool-cases (ltb (length contributions) bounds.actors)) [
            | inl some_missing ↦ rw (not_past, current, some_missing) gathered
            | inr complete ↦
                let same : m.epoch ≡ c.collection_epoch = ground arith in
                rw (not_past, current, complete)
                  (pass_barrier-IsWaiting bounds stale _ contributions unbounded gathered
                    (subst (λ n. AllOf (policy n) contributions) same now))
          ]
        ]
      ]

  Trains-IsWaiting :
      {bounds : Bounds} {c : Collector}
      → bounds.decision_budget ≡ none
      → Trains policy bounds c
      → IsWaiting c
  Trains-IsWaiting unbounded started = record { waits = refl; pending = tt }
  Trains-IsWaiting {bounds} unbounded (received {c = c} before m from stale) =
      collect-IsWaiting bounds stale c m unbounded (Trains-IsWaiting unbounded before)
        (IsContributed-AllVersion from)

  -- Without a decision budget, the loop of the learner never ends on contributions of training actors
  -- in runs under the barrier, in whatever order and number they come and whatever each update
  -- answers: it never finds two policy versions in one epoch.
  pub Trains-waits :
      {bounds : Bounds} {c : Collector}
      → bounds.decision_budget ≡ none
      → Trains policy bounds c
      → c.status ≡ waiting
  Trains-waits unbounded run = (Trains-IsWaiting unbounded run).waits
