-- ===== src/Training/Actor/Handlers.antt =====
-- What stands outside the actor, the end of an evaluation episode, and the rollout that a lost
-- connection cuts: `_finish_evaluation`, `_check_evaluation_limit`, `_truncate_disconnected_rollout`.
use py_rl_trainer.Prelude.{
  ℕ, Bool, true, false, not, ◌&&◌, ◌||◌, Option, none, some, [], ◌∷◌, ◌++◌, Result, if◌then◌else◌,
}
use py_rl_trainer.Prelude.Int.{ℤ}
use py_rl_trainer.Wire.Str.{Text, codes}
use py_rl_trainer.Reward.Parse.{truncated}
use py_rl_trainer.Evaluation.{EvaluationEpisode, EvaluationResult, finish, limit_reached}
use py_rl_trainer.Training.{Observation}
use py_rl_trainer.Training.Exec.{raise, get, modify, update, ensure, ◌>>=◌, ◌>>◌, when}
use py_rl_trainer.Training.Actor.{
  ActorConfig, ActorClient, ActorError, evaluation_complete, evaluation_result,
  clear_unfinished_actions,
}
use py_rl_trainer.Training.Actor.Credit.{finish_credited_action, rollout_bootstrap}
use py_rl_trainer.Training.Actor.Collection.{refresh_collection_epoch, submit_training_rollout}
use py_rl_trainer.Training.Actor.Rewards.{Act}

-- What `SharedState.act` samples.
pub record Sample : Type 0 where
  pub turn : ℕ
  pub boost : ℕ
  pub logp : ℕ
  pub value : ℕ
  pub turn_latent : ℕ

-- What stands outside the actor while it handles one message: the networks, the clock, and the
-- socket. `sent` is the learner's epoch and policy version when `ws.send` returns, or none where it
-- raises: what the learner does meanwhile can depend on what the actor has contributed. `frozen`
-- are the version and the hash of the policy that an evaluation would begin with.
pub record World : Type 0 where
  pub cutoff_value : Observation → ℕ
  pub act : Observation → Sample
  pub rate_limited : Bool
  pub sent : ActorClient → Option (ℕ × ℕ)
  pub frozen : ℤ × Text

abbrev pub recorded : ActorClient → Option EvaluationResult × EvaluationEpisode → ActorClient
recorded s (none, episode) = record s { evaluation_episode = some episode }
recorded s (some result, episode) = record s {
  evaluation_episode = some episode;
  calls = s.calls ++ (evaluation_result result ∷ []);
}

abbrev pub finish_episode :
    Text → Text → Bool → ActorClient → Option EvaluationEpisode → ActorClient
finish_episode kind reason integrity s none = s
finish_episode kind reason integrity s (some episode) =
    recorded s (finish episode kind reason integrity)

-- `_finish_evaluation(kind, reason, integrity=integrity)`
unfoldable pub finish_evaluation : ActorConfig → Text → Text → Bool → ActorClient → ActorClient
finish_evaluation cfg kind reason integrity s =
    if cfg.evaluation then finish_episode kind reason integrity s s.evaluation_episode else s

abbrev pub at_limit : Option EvaluationEpisode → Bool
at_limit none = false
at_limit (some episode) = limit_reached episode

-- `_check_evaluation_limit`
unfoldable pub check_evaluation_limit : ActorConfig → Act (Unit {0})
check_evaluation_limit cfg = do
  s ← get
  ensure (not cfg.evaluation || s.episode_integrity) evaluation_complete
  when (cfg.evaluation && at_limit s.evaluation_episode) (do
    modify (finish_evaluation cfg truncated (codes "evaluationTimeLimit") true)
    modify (λ s. record s { episode_closed = true })
    raise evaluation_complete)

abbrev pub bootstrapped :
    ActorConfig → (Observation → ℕ) → ActorClient → Result ActorError ActorClient
bootstrapped cfg cutoff_value s =
    submit_training_rollout cfg cutoff_value (some (rollout_bootstrap cutoff_value s)) true s

-- `_truncate_disconnected_rollout`
unfoldable pub truncate_disconnected_rollout : ActorConfig → World → Act (Unit {0})
truncate_disconnected_rollout cfg world = do
  update (refresh_collection_epoch cfg)
  modify (finish_evaluation cfg (codes "incomplete") (codes "transportGap") false)
  modify finish_credited_action
  modify clear_unfinished_actions
  update (bootstrapped cfg world.cutoff_value)
  modify (λ s. record s {
    last_obs = none;
    last_sent_tick = none;
    reward_rebase = true;
    episode_integrity = false;
  })
