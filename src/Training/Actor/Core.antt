-- ===== src/Training/Actor/Core.antt =====
-- The fields that say which samples an actor holds and where it stands in the collection, and the
-- steps that leave all of them alone.
use py_rl_trainer.Prelude.{
  ℕ, ◌≡◌, refl, Bool, true, false, Option, none, some, List, [], ◌∷◌, arith, Bool-cases, inl, inr,
  Result, ok, err, if◌then◌else◌, ltb,
}
use py_rl_trainer.Wire.Str.{Text}
use py_rl_trainer.Reward.{Admitted, Shaped, Reward, ControlState}
use py_rl_trainer.Reward.Components.{Components}
use py_rl_trainer.Reward.Parse.{RawReward}
use py_rl_trainer.Reward.Stream.{RewardStream, accept, rebase, discard_closure}
use py_rl_trainer.Evaluation.{EvaluationEpisode, EvaluationResult, finish}
use py_rl_trainer.Training.{Transition}
use py_rl_trainer.Training.Barrier.{Message}
use py_rl_trainer.Training.Actor.{ActorConfig, ActorClient, ActorError}
use py_rl_trainer.Training.Actor.Collection.{count_fenced}
use py_rl_trainer.Training.Actor.Rewards.{
  count_commands, with_delays, delays, accept_reward, accept_for, rebased, taken,
  receive_evaluation, received,
}
use py_rl_trainer.Training.Actor.Handlers.{World, finish_evaluation, finish_episode, recorded}
use py_rl_trainer.Training.Actor.Lifecycle.{
  discard_reward, discard_for, discarded, start_evaluation_policy, reclaim,
}

abbrev pub Core : Type 0
Core =
    List Message
    × List Transition
    × Option Transition
    × List (Text × Transition)
    × ℕ
    × Option ℕ
    × ℕ
    × Bool
    × Option ℕ
    × ℕ
    × ℕ

abbrev pub core : ActorClient → Core
core s = (
  s.contributions, s.rollout, s.pending_transition, s.issued_transitions, s.action_id_counter,
  s.submitted_collection_epoch, s.active_collection_epoch, s.fence_required, s.fence_action_id,
  s.collection_epoch, s.published_policy_version,
)

pub either-core :
    (b : Bool) (s t u : ActorClient)
    → core s ≡ core u
    → core t ≡ core u
    → core (if b then s else t) ≡ core u
either-core true s t u h k = h
either-core false s t u h k = k

outcome-core :
    {A : Type 0} (b : Bool) (x y : Result ActorError A × ActorClient) (u : ActorClient)
    → core x.1 ≡ core u
    → core y.1 ≡ core u
    → core (if b then x else y).1 ≡ core u
outcome-core true x y u h k = h
outcome-core false x y u h k = k

pub count_fenced-core :
    (cfg : ActorConfig) (reward : Reward) (s : ActorClient)
    → core (count_fenced cfg reward s) ≡ core s
unfolding count_fenced
count_fenced-core cfg reward s = ground arith

with_delays-core : (ds : List ℕ) (s : ActorClient) → core (with_delays ds s) ≡ core s
with_delays-core [] s = refl
with_delays-core (d ∷ ds) s = refl

pub count_commands-core :
    (cfg : ActorConfig) (control : ControlState) (previous : Option Reward) (s : ActorClient)
    → core (count_commands cfg control previous s) ≡ core s
count_commands-core cfg control none s = refl
count_commands-core cfg control (some previous) s = elim (Bool-cases cfg.evaluation) [
  | inl evaluates ↦ rw evaluates refl
  | inr trains ↦ elim (Bool-cases (ltb previous.control.applied_count control.applied_count)) [
    | inl more ↦ rw (trains, more) (with_delays-core (delays control.applied_command) _)
    | inr same ↦ rw (trains, same) refl
  ]
]

recorded-core :
    (s : ActorClient) (r : Option EvaluationResult × EvaluationEpisode)
    → core (recorded s r) ≡ core s
recorded-core s (none, episode) = refl
recorded-core s (some result, episode) = refl

finish_episode-core :
    (kind reason : Text) (integrity : Bool) (s : ActorClient) (e : Option EvaluationEpisode)
    → core (finish_episode kind reason integrity s e) ≡ core s
finish_episode-core kind reason integrity s none = refl
finish_episode-core kind reason integrity s (some episode) =
    recorded-core s (finish episode kind reason integrity)

pub finish_evaluation-core :
    (cfg : ActorConfig) (kind reason : Text) (integrity : Bool) (s : ActorClient)
    → core (finish_evaluation cfg kind reason integrity s) ≡ core s
unfolding finish_evaluation
finish_evaluation-core cfg kind reason integrity s =
    either-core cfg.evaluation _ s s
      (finish_episode-core kind reason integrity s s.evaluation_episode) refl

taken-core : (s : ActorClient) (m : Admitted (Reward × RewardStream)) → core (taken s m).1 ≡ core s
taken-core s (err e) = refl
taken-core s (ok (reward, stream)) = refl

rebased-core : (s : ActorClient) (m : Admitted RewardStream) → core (rebased s m).1 ≡ core s
rebased-core s (err e) = refl
rebased-core s (ok stream) = refl

accept_for-core :
    (cfg : ActorConfig) (raw : Shaped RawReward) (s : ActorClient) (id : Option ℕ)
    → core (accept_for cfg raw s id).1 ≡ core s
accept_for-core cfg raw s none = refl
accept_for-core cfg raw s (some id) = outcome-core s.episode_closed _ _ s refl (
    outcome-core s.reward_rebase _ _ s (rebased-core s (rebase cfg.wire s.reward_stream raw id))
      (taken-core s (accept cfg.wire s.reward_stream raw id)))

pub accept_reward-core :
    (cfg : ActorConfig) (raw : Shaped RawReward) (s : ActorClient)
    → core (accept_reward cfg raw s).1 ≡ core s
unfolding accept_reward
accept_reward-core cfg raw s = accept_for-core cfg raw s s.snake_id

received-core :
    (s : ActorClient) (reward : Reward) (parts : Components) (e : Option EvaluationEpisode)
    → core (received s reward parts e).1 ≡ core s
received-core s reward parts none = refl
received-core s reward parts (some episode) = refl

pub receive_evaluation-core :
    (reward : Reward) (parts : Components) (s : ActorClient)
    → core (receive_evaluation reward parts s).1 ≡ core s
unfolding receive_evaluation
receive_evaluation-core reward parts s = received-core s reward parts s.evaluation_episode

discarded-core :
    (s t : ActorClient) (m : Admitted RewardStream) → discarded s m ≡ ok t → core t ≡ core s
discarded-core s t (err e) h = ground arith
discarded-core s t (ok stream) h = ground arith

discard_for-core :
    (cfg : ActorConfig) (raw : Shaped RawReward) (s t : ActorClient) (id : Option ℕ)
    → discard_for cfg raw s id ≡ ok t
    → core t ≡ core s
discard_for-core cfg raw s t none h = ground arith
discard_for-core cfg raw s t (some id) h =
    discarded-core s t (discard_closure cfg.wire s.reward_stream raw id) h

pub discard_reward-core :
    (cfg : ActorConfig) (raw : Shaped RawReward) (s t : ActorClient)
    → discard_reward cfg raw s ≡ ok t
    → core t ≡ core s
unfolding discard_reward
discard_reward-core cfg raw s t h = discard_for-core cfg raw s t s.snake_id h

pub start_evaluation_policy-core :
    (cfg : ActorConfig) (world : World) (s : ActorClient)
    → core (start_evaluation_policy cfg world s) ≡ core s
unfolding start_evaluation_policy
start_evaluation_policy-core cfg world s = ground arith

pub reclaim-core :
    (id : ℕ) (token : Text) (s t : ActorClient) (previous : Option ℕ)
    → reclaim id token s previous ≡ ok t
    → core t ≡ core s
reclaim-core id token s t none h = ground arith
reclaim-core id token s t (some previous) h = ground arith
