-- ===== src/Training/Barrier/Complete.antt =====
-- Every barrier that was passed has a contribution of each actor.
use py_rl_trainer.Prelude.{ℕ, ◌<◌, ◌≡◌, refl, Bool, true, List, [], ◌∷◌, arith, length}
use py_rl_trainer.Prelude.Dict.{keys}
use py_rl_trainer.Prelude.Dict.Distinct.{has, full_has, length-keys}
use py_rl_trainer.Training.Barrier.{
  Message, Round, Collector, new_collector, Bounds, collect, is_waiting,
}
use py_rl_trainer.Training.Barrier.Rounds.{IsGathering, IsTimely, collect-IsGathering, AreRounds}

-- every state that timely messages lead to while the loop runs
pub data Collects (bounds : Bounds) : Collector → Type 0 where
  started : Collects bounds new_collector
  received :
      {c : Collector}
      → Collects bounds c
      → (m : Message) (stale : Bool) → is_waiting c.status ≡ true
      → IsTimely bounds.actors c m
      → Collects bounds (collect bounds c m stale)

new_collector-IsGathering : (actors : ℕ) → IsGathering actors new_collector
new_collector-IsGathering actors = record {
  run = refl;
  current = λ w. refl;
  collecting = λ w. tt;
  counted = λ w. refl;
  updated = λ w. refl;
}

pub Collects-IsGathering :
    {bounds : Bounds} {c : Collector} → Collects bounds c → IsGathering bounds.actors c
Collects-IsGathering {bounds} started = new_collector-IsGathering bounds.actors
Collects-IsGathering {bounds} (received {c = c} before m stale w timely) =
    collect-IsGathering bounds c m stale (Collects-IsGathering before) w timely

-- every actor has a contribution in every round
abbrev pub AllComplete : ℕ → List Round → Type 0
AllComplete actors [] = Unit
AllComplete actors (r ∷ rest) =
    ((a : ℕ) → a < actors → has a (keys r.contributions) ≡ true) × AllComplete actors rest

AreRounds-AllComplete :
    (actors n : ℕ) (rounds : List Round) → AreRounds actors n rounds → AllComplete actors rounds
AreRounds-AllComplete actors n [] h = tt
AreRounds-AllComplete actors n (r ∷ rest) h = (
  full_has actors (keys r.contributions) h.1.0 h.1.1
      (omega (arith, length-keys r.contributions, h.2)),
  AreRounds-AllComplete actors r.epoch rest h.4,
)

-- In every run of the loop on messages of its actors for epochs that have begun: the barriers that
-- were passed are those of the epochs from 0 on, each once, in order, and in each every actor has
-- exactly one contribution, all of one policy version.
pub Collects-AllComplete :
    {bounds : Bounds} {c : Collector}
    → Collects bounds c
    → AreRounds bounds.actors (length c.rounds) c.rounds × AllComplete bounds.actors c.rounds
Collects-AllComplete {bounds} {c} run =
    let rounds = (Collects-IsGathering run).run in
    (rounds, AreRounds-AllComplete bounds.actors (length c.rounds) c.rounds rounds)
