-- ===== src/Training/Barrier/Rounds.antt =====
-- Every passed barrier has one contribution of each actor, and the epochs follow one another.
use py_rl_trainer.Prelude.{
  ℕ, suc, ◌+◌, ◌≤◌, ◌<◌, ◌≡◌, refl, inl, inr, Bool, true, false, ◌&&◌, List, [], ◌∷◌, arith, length,
  ◌==◌, ltb, if◌then◌else◌, Bool-cases, ltb→lt,
}
use py_rl_trainer.Prelude.Dict.{find, insert, remove, set_default, keys}
use py_rl_trainer.Prelude.Dict.Distinct.{
  Distinct, AllBelow, set_default-Distinct, set_default-AllBelow, length-set_default,
}
use py_rl_trainer.Training.Barrier.{
  Contribution, Message, Round, Collector, Bounds, contributions_of, steps_in, is_coherent, reached,
  is_bounded, pass_barrier, collect, is_waiting,
}

-- distinct actors below the number of actors
abbrev pub IsPartial : ℕ → List (ℕ × Contribution) → Type 0
IsPartial actors d = Distinct (keys d) × AllBelow actors (keys d)

-- the passed barriers, the last one first, are those of the epochs below `n`
abbrev pub AreRounds : ℕ → ℕ → List Round → Type 0
AreRounds actors n [] = n ≡ 0
AreRounds actors n (r ∷ rest) =
    (n ≡ suc r.epoch)
    × IsPartial actors r.contributions
    × (length r.contributions ≡ actors)
    × (is_coherent r.contributions ≡ true)
    × AreRounds actors r.epoch rest

-- the contributions of the current epoch, fewer than there are actors, and no others
abbrev pub IsOpen : ℕ → ℕ → List (ℕ × List (ℕ × Contribution)) → Type 0
IsOpen actors epoch [] = Unit
IsOpen actors epoch ((e, d) ∷ []) = (e ≡ epoch) × IsPartial actors d × (length d < actors)
IsOpen actors epoch ((e, d) ∷ (other ∷ rest)) = ⊥

-- the transitions of the passed barriers, and how many of them made an update
abbrev pub steps_of : List Round → ℕ
steps_of [] = 0
steps_of (r ∷ rest) = steps_in r.contributions + steps_of rest

abbrev pub updates_of : List Round → ℕ
updates_of [] = 0
updates_of (r ∷ rest) = (if ltb 0 (steps_in r.contributions) then 1 else 0) + updates_of rest

pub record IsGathering (actors : ℕ) (c : Collector) : Type 0 where
  pub run : AreRounds actors (length c.rounds) c.rounds
  pub current : is_waiting c.status ≡ true → c.collection_epoch ≡ length c.rounds
  pub collecting : is_waiting c.status ≡ true → IsOpen actors c.collection_epoch c.pending
  pub counted : is_waiting c.status ≡ true → c.total_steps ≡ steps_of c.rounds
  pub updated : is_waiting c.status ≡ true → c.update_rounds ≡ updates_of c.rounds

-- what an actor can put on the queue: it reads the epoch of the learner
abbrev pub IsTimely : ℕ → Collector → Message → Type 0
IsTimely actors c m = (m.actor_id < actors) × (m.epoch ≤ c.collection_epoch)

-- the loop has ended
over :
    {actors : ℕ} (c : Collector)
    → AreRounds actors (length c.rounds) c.rounds
    → is_waiting c.status ≡ false
    → IsGathering actors c
over c run ended = record {
  run = run;
  current = λ w. cc;
  collecting = λ w. cc;
  counted = λ w. cc;
  updated = λ w. cc;
}

-- the barrier with the contributions of all actors
pass_barrier-IsGathering :
    (bounds : Bounds) (stale : Bool) (c : Collector) (d : List (ℕ × Contribution))
    → AreRounds bounds.actors (length c.rounds) c.rounds
    → c.collection_epoch ≡ length c.rounds
    → c.total_steps ≡ steps_of c.rounds
    → c.update_rounds ≡ updates_of c.rounds
    → remove c.collection_epoch c.pending ≡ []
    → IsPartial bounds.actors d
    → length d ≡ bounds.actors
    → IsGathering bounds.actors (pass_barrier bounds stale c d)
unfolding pass_barrier
pass_barrier-IsGathering bounds stale c d run now total updates gone p full =
    elim (Bool-cases (is_coherent d)) [
      | inr mixed ↦ rw mixed (over _ run refl)
      | inl coherent ↦
          let run_on : AreRounds bounds.actors (suc (length c.rounds))
              (record { epoch = c.collection_epoch; contributions = d } ∷ c.rounds) =
            (omega arith, p, full, coherent, rw now run) in
          elim (Bool-cases (is_bounded bounds.decision_budget && ltb 0 (steps_in d) && stale)) [
            | inl late ↦ rw (coherent, late) (over _ run_on refl)
            | inr timely ↦
                elim (Bool-cases (reached bounds.decision_budget (c.total_steps + steps_in d))) [
                  | inl done ↦ rw (coherent, timely, done) (over _ run_on refl)
                  | inr more ↦
                      rw (coherent, timely, more, gone)
                        (record {
                          run = run_on;
                          current = λ w. omega arith;
                          collecting = λ w. tt;
                          counted = λ w. omega arith;
                          updated = λ w. ground arith;
                        })
                ]
          ]
    ]

-- the contributions that the loop finds for the current epoch, and what it leaves in `pending`
pub record IsKnown (actors epoch : ℕ) (pending : List (ℕ × List (ℕ × Contribution))) : Type 0 where
  pub partial : IsPartial actors (contributions_of (find epoch pending))
  pub few : length (contributions_of (find epoch pending)) < actors
  pub single : (d : List (ℕ × Contribution)) → insert epoch d pending ≡ (epoch, d) ∷ []

pub IsOpen-IsKnown :
    (actors epoch : ℕ) (pending : List (ℕ × List (ℕ × Contribution)))
    → 0 < actors
    → IsOpen actors epoch pending
    → IsKnown actors epoch pending
unfolding find insert
IsOpen-IsKnown actors epoch [] some_actor h = record {
  partial = (tt, tt);
  few = some_actor;
  single = λ d. refl;
}
IsOpen-IsKnown actors epoch ((e, d) ∷ []) some_actor h =
    let same : (e == epoch) ≡ true = ground (arith, h.0) in
    record { partial = rw same h.1; few = rw same h.2; single = λ n. rw (same, h.0) refl }
IsOpen-IsKnown actors epoch ((e, d) ∷ (other ∷ rest)) some_actor h = absurd h

remove_only : (epoch : ℕ) (d : List (ℕ × Contribution)) → remove epoch ((epoch, d) ∷ []) ≡ []
unfolding remove
remove_only epoch d = ground arith

not_ltb : (a b : ℕ) → ltb a b ≡ false → b ≤ a
not_ltb a b h = ground arith

-- Let the loop wait, and let a message come from one of the actors and for an epoch that has begun.
-- After it, again: the barriers that were passed are those of the epochs below the current one, each
-- once, in order; each had exactly one contribution of every actor, all of one policy version; the
-- current epoch has contributions of distinct actors, fewer than there are, and nothing else waits;
-- the steps and updates that were counted are those of the passed barriers.
pub collect-IsGathering :
    (bounds : Bounds) (c : Collector) (m : Message) (stale : Bool)
    → IsGathering bounds.actors c
    → is_waiting c.status ≡ true
    → IsTimely bounds.actors c m
    → IsGathering bounds.actors (collect bounds c m stale)
unfolding collect
collect-IsGathering bounds c m stale g w timely =
    elim (Bool-cases (ltb m.epoch c.collection_epoch)) [
      | inl old ↦ rw old g
      | inr fresh ↦
          let e : m.epoch ≡ c.collection_epoch = ground arith in
          let not_ahead : ltb c.collection_epoch m.epoch ≡ false = ground arith in
          let known =
            IsOpen-IsKnown bounds.actors c.collection_epoch c.pending (omega arith)
              (g.collecting w) in
          let before = contributions_of (find c.collection_epoch c.pending) in
          let contribution : Contribution = (m.rollout, m.bootstrap) in
          let d = set_default m.actor_id contribution before in
          let grows = length-set_default m.actor_id contribution before in
          let partial : IsPartial bounds.actors d = (
            set_default-Distinct m.actor_id contribution before known.partial.0,
            set_default-AllBelow m.actor_id contribution bounds.actors before timely.0
                known.partial.1,
          ) in
          elim (Bool-cases (ltb (length d) bounds.actors)) [
            | inl few ↦
                rw (fresh, not_ahead, e, few, known.single d)
                  (record {
                    run = g.run;
                    current = g.current;
                    collecting = λ _. (refl, partial, ltb→lt (length d) bounds.actors few);
                    counted = g.counted;
                    updated = g.updated;
                  })
            | inr full ↦
                let lengths : length d ≡ bounds.actors =
                  omega (arith, grows, known.few, not_ltb (length d) bounds.actors full) in
                rw (fresh, not_ahead, e, full, known.single d)
                  (pass_barrier-IsGathering bounds stale
                    (record c { pending = (c.collection_epoch, d) ∷ [] }) d g.run (g.current w)
                    (g.counted w) (g.updated w) (remove_only c.collection_epoch d) partial lengths)
          ]
    ]
