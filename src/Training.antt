-- ===== src/Training.antt =====
-- pyrl_trainer/agent.py, learner.py and sync_ppo.py: the rollouts of the actors, the barrier that
-- collects them and the PPO update. What PyTorch computes is a parameter.
pub mod Advantage
pub mod Segments
pub mod Update
pub mod Batches
pub mod Barrier
pub mod Exec
pub mod Actor
pub mod Coherence
mod Tests
use py_rl_trainer.Prelude.{ℕ, Option, none, List}
use py_rl_trainer.Wire.Str.{Text}
use py_rl_trainer.Reward.Components.{Components}

-- A sensor vector, by its float32 patterns.
abbrev pub Observation : Type 0
Observation = List ℕ

-- `Transition`. Python's floats are binary64 patterns; `{}` under `reward_components`, which is only
-- read with a default of 0.0, is the record of zeros.
pub record Transition : Type 0 where
  pub obs : Observation
  pub action_turn : ℕ
  pub turn_latent : ℕ
  pub action_boost : ℕ
  pub logp : ℕ
  pub value : ℕ
  pub reward : ℕ
  pub done : ℕ
  pub policy_version : ℕ
  pub reward_components : Components
  pub elapsed_seconds : ℕ
  pub alive_seconds : ℕ
  pub action_id : Option Text
  pub action_tick : Option ℕ
  pub bootstrap_override : Option ℕ

-- 1.0
abbrev pub one : ℕ
one = 0x3ff0000000000000
