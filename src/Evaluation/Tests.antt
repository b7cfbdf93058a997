-- ===== src/Evaluation/Tests.antt =====
-- An episode of the two intervals of Reward/Tests.
use py_rl_trainer.Prelude.{◌≡◌, refl, true, none, some, [], ◌∷◌, ok, err}
use py_rl_trainer.Prelude.Int.{pos, ◌+ℤ◌}
use py_rl_trainer.Wire.Str.{codes}
use py_rl_trainer.Wire.Float.{is_finite, float_add, float_of_int}
use py_rl_trainer.Reward.{reward_contract_error}
use py_rl_trainer.Reward.Stream.{new_stream}
use py_rl_trainer.Reward.Stream.Conservation.{Accepts, done, next}
use py_rl_trainer.Reward.Components.{total}
use py_rl_trainer.Reward.Tests.{wire, baseline, meal, first_reward, meal_reward, ended}
use py_rl_trainer.Reward.Tests.Runs.{first_accepted, second_accepted}
use py_rl_trainer.Reward.{shaped}
use py_rl_trainer.Evaluation.{
  EvaluationEpisode, new_episode, no_components, add_deltas, add_components, converts,
  finite_deltas, finite_components, account, receive, finish,
}
use py_rl_trainer.Evaluation.Accounting.{Received, start, more}
use py_rl_trainer.Evaluation.Episode.{IsReported, episode-IsReported, finish_once}

abbrev fresh : EvaluationEpisode
fresh = new_episode (pos 1) (codes "00") (pos 41) 4636737291354636288

abbrev one_in : EvaluationEpisode
one_in = record fresh { first = some first_reward; last = some first_reward }

abbrev two_in : EvaluationEpisode
two_in = record one_in { raw = meal_reward.deltas; last = some meal_reward }

first_received : receive fresh first_reward no_components ≡ (ok tt, one_in)
unfolding receive account add_deltas add_components converts finite_deltas finite_components
    is_finite float_add float_of_int total ◌+ℤ◌
first_received = refl

second_received : receive one_in meal_reward no_components ≡ (ok tt, two_in)
unfolding receive account add_deltas add_components converts finite_deltas finite_components
    is_finite float_add float_of_int total ◌+ℤ◌
second_received = refl

both-Received : Received fresh (first_reward ∷ meal_reward ∷ []) two_in
both-Received = more no_components first_received (more no_components second_received start)

both_accepted : Accepts wire 7 new_stream (first_reward ∷ meal_reward ∷ []) ended
both_accepted = next (shaped baseline) first_accepted (next (shaped meal) second_accepted done)

episode-IsReported_example : IsReported two_in first_reward meal_reward
episode-IsReported_example =
    episode-IsReported (pos 1) (codes "00") (pos 41) 4636737291354636288 first_reward
      (meal_reward ∷ []) both_accepted both-Received

finish_once_example :
    let after = (finish two_in (codes "terminal") (codes "death") true).1 in
    (finish after (codes "truncated") (codes "limit") true ≡ (none, after))
    × (receive after first_reward no_components ≡ (err reward_contract_error, after))
finish_once_example =
    finish_once two_in (codes "terminal") (codes "death") true (codes "truncated") (codes "limit")
      true first_reward no_components
