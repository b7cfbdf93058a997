-- ===== src/Training/Actor/Once.antt =====
-- No sample is contributed twice.
use py_rl_trainer.Prelude.{ℕ, refl, arith}
use py_rl_trainer.Training.Actor.{ActorConfig, ActorClient, new_actor}
use py_rl_trainer.Training.Actor.Collection.{observe_collection_fence}
use py_rl_trainer.Training.Actor.Lifecycle.{close_rollout}
use py_rl_trainer.Training.Actor.Invariant.{IsInvariant}
use py_rl_trainer.Training.Actor.Runs.{Learners, advanced, Runs, Runs-keep}
use py_rl_trainer.Training.Actor.Order.{
  IsOrdered, finish_credited_action-IsOrdered, clear_rollout-IsOrdered,
  clear_unfinished_actions-IsOrdered,
}
use py_rl_trainer.Training.Actor.Order.Steps.{
  select_credit-IsOrdered, pay_pending-IsOrdered, submit_training_rollout-IsOrdered,
}
use py_rl_trainer.Training.Actor.Order.Sent.{
  same-IsOrdered, core-IsOrdered, refresh_collection_epoch-IsOrdered,
  validate_echoed_command-IsOrdered, closed_at-IsOrdered, send_sample-IsOrdered,
}

IsOrdered-IsInvariant : (cfg : ActorConfig) → IsInvariant cfg IsOrdered IsOrdered
unfolding observe_collection_fence close_rollout
IsOrdered-IsInvariant cfg = record {
  resting = record {
    respects = core-IsOrdered;
    forgets = clear_unfinished_actions-IsOrdered;
    clears = clear_rollout-IsOrdered;
  };
  weakens = λ s h. h;
  respects = core-IsOrdered;
  refreshes = refresh_collection_epoch-IsOrdered cfg;
  finishes = finish_credited_action-IsOrdered;
  forgets = clear_unfinished_actions-IsOrdered;
  selects = select_credit-IsOrdered cfg;
  pays = pay_pending-IsOrdered cfg;
  submits = submit_training_rollout-IsOrdered cfg;
  observes = λ s h. same-IsOrdered h refl refl refl refl (omega arith);
  echoes = validate_echoed_command-IsOrdered;
  closes = λ has_died step final s. closed_at-IsOrdered has_died step final s s.rollout_end;
}

new_actor-IsOrdered : (epoch version : ℕ) → IsOrdered (new_actor epoch version)
unfolding new_actor
new_actor-IsOrdered epoch version = record { ascending = omega arith; keyed = tt }

-- In every run of an actor, whatever the server, the network and the learner do, the samples that it
-- has contributed, those of its rollout, the pending one and those that wait for a receipt have in
-- this order strictly rising action identities, none above the last identity that was used. So no
-- sample is contributed twice, and none that was contributed is credited again.
pub Runs-IsOrdered :
    {cfg : ActorConfig} {env : Learners} {epoch version : ℕ} {s : ActorClient}
    → Runs cfg env epoch version s
    → IsOrdered s
unfolding advanced
Runs-IsOrdered {cfg} {epoch = epoch} {version = version} run =
    Runs-keep (IsOrdered-IsInvariant cfg)
      (λ world fair obs tick. record { at = send_sample-IsOrdered cfg world obs tick })
      (λ s e v allowed h. same-IsOrdered h refl refl refl refl (omega arith))
      (new_actor-IsOrdered epoch version) run
