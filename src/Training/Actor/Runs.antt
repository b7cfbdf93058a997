-- ===== src/Training/Actor/Runs.antt =====
-- The lives of an actor: every state that messages, lost connections and the learner lead to.
use py_rl_trainer.Prelude.{ℕ, ◌≡◌, refl, some}
use py_rl_trainer.Training.Exec.Keeps.{Leads}
use py_rl_trainer.Training.{Observation}
use py_rl_trainer.Training.Actor.{ActorConfig, ActorClient, ActorError, new_actor}
use py_rl_trainer.Training.Actor.Handlers.{World}
use py_rl_trainer.Training.Actor.Sensors.{
  SensorMessage, TransitionMessage, handle_sensors, send_sample,
}
use py_rl_trainer.Training.Actor.Lifecycle.{
  Assignment, handle_transition, on_assign, replace_state, recover, refuse_reclaim,
}
use py_rl_trainer.Training.Actor.Invariant.{IsInvariant}
use py_rl_trainer.Training.Actor.Invariant.Handled.{handle_sensors-Keeps}
use py_rl_trainer.Training.Actor.Invariant.Lives.{
  handle_transition-Keeps, on_assign-Keeps, replace_state-Keeps, recover-Keeps,
  refuse_reclaim-Keeps,
}

-- What the learner may make of its epoch and policy version, given the state of the actor.
abbrev pub Learners : Type 1
Learners = ActorClient → ℕ → ℕ → Type 0

-- the learner's moves while an action is sent are among these
abbrev pub IsFair : Learners → World → Type 0
IsFair env world =
    (s : ActorClient) (epoch version : ℕ)
    → world.sent s ≡ some (epoch, version)
    → env s epoch version

-- the learner moves on
unfoldable pub advanced : ℕ → ℕ → ActorClient → ActorClient
advanced epoch version s = record s { collection_epoch = epoch; published_policy_version = version }

-- a new welcome
unfoldable pub welcomed : ℕ → ℕ → ActorClient → ActorClient
welcomed stride sensor_count s = record s { stride = stride; sensor_count = sensor_count }

-- Each handler may return or raise; the state after it counts in both cases.
pub data Runs (cfg : ActorConfig) (env : Learners) (epoch version : ℕ) : ActorClient → Type 0 where
  created : Runs cfg env epoch version (new_actor epoch version)
  learned :
      {s : ActorClient}
      → Runs cfg env epoch version s
      → (e v : ℕ) → env s e v
      → Runs cfg env epoch version (advanced e v s)
  greeted :
      {s : ActorClient}
      → Runs cfg env epoch version s
      → (stride sensor_count : ℕ) → Runs cfg env epoch version (welcomed stride sensor_count s)
  sensed :
      {s : ActorClient}
      → Runs cfg env epoch version s
      → (world : World) → IsFair env world
      → (msg : SensorMessage) → Runs cfg env epoch version (handle_sensors cfg world msg s).1
  closed :
      {s : ActorClient}
      → Runs cfg env epoch version s
      → (world : World) (msg : TransitionMessage)
      → Runs cfg env epoch version (handle_transition cfg world msg s).1
  assigned :
      {s : ActorClient}
      → Runs cfg env epoch version s
      → (world : World) (msg : Assignment)
      → Runs cfg env epoch version (on_assign cfg world msg s).1
  replaced :
      {s : ActorClient}
      → Runs cfg env epoch version s
      → (world : World) → Runs cfg env epoch version (replace_state cfg world s).1
  refused :
      {s : ActorClient}
      → Runs cfg env epoch version s
      → (world : World) → Runs cfg env epoch version (refuse_reclaim cfg world s).1
  recovered :
      {s : ActorClient}
      → Runs cfg env epoch version s
      → (world : World) (e : ActorError) → Runs cfg env epoch version (recover cfg world e s).1

module _ {cfg : ActorConfig} {env : Learners} {epoch version : ℕ} {P Q : ActorClient → Type 0} where
  -- an invariant of the steps holds along every run
  pub Runs-keep :
      IsInvariant cfg P Q
      → ((world : World)
          → IsFair env world
          → (obs : Observation) (tick : ℕ) → Leads P Q (send_sample cfg world obs tick))
      → ((s : ActorClient) (e v : ℕ) → env s e v → Q s → Q (advanced e v s))
      → Q (new_actor epoch version)
      → {s : ActorClient} → Runs cfg env epoch version s
      → Q s
  unfolding welcomed
  Runs-keep inv sends moves begins created = begins
  Runs-keep inv sends moves begins (learned {s = s} run e v allowed) =
      moves s e v allowed (Runs-keep inv sends moves begins run)
  Runs-keep inv sends moves begins (greeted {s = s} run stride sensor_count) =
      inv.resting.respects s _ refl (Runs-keep inv sends moves begins run)
  Runs-keep inv sends moves begins (sensed {s = s} run world fair msg) =
      (handle_sensors-Keeps inv world (sends world fair) msg).at s
        (Runs-keep inv sends moves begins run)
  Runs-keep inv sends moves begins (closed {s = s} run world msg) =
      (handle_transition-Keeps inv world msg).at s (Runs-keep inv sends moves begins run)
  Runs-keep inv sends moves begins (assigned {s = s} run world msg) =
      (on_assign-Keeps inv world msg).at s (Runs-keep inv sends moves begins run)
  Runs-keep inv sends moves begins (replaced {s = s} run world) =
      (replace_state-Keeps inv world).at s (Runs-keep inv sends moves begins run)
  Runs-keep inv sends moves begins (refused {s = s} run world) =
      (refuse_reclaim-Keeps inv world).at s (Runs-keep inv sends moves begins run)
  Runs-keep inv sends moves begins (recovered {s = s} run world e) =
      (recover-Keeps inv world e).at s (Runs-keep inv sends moves begins run)
