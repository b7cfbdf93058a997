-- ===== src/Training/Barrier.antt =====
-- `synchronous_learner_loop` of sync_ppo.py: one contribution of every actor for each update.
pub mod Rounds
pub mod Complete
pub mod Opening
pub mod Versions
use py_rl_trainer.Prelude.{
  ℕ, ◌+◌, Bool, true, false, not, ◌&&◌, Option, none, some, List, [], ◌∷◌, ltb, leb, ◌==◌, length,
  if◌then◌else◌,
}
use py_rl_trainer.Prelude.Dict.{find, set_default, insert, remove}
use py_rl_trainer.Wire.Float.{float_add}
use py_rl_trainer.Training.{Transition}

-- `(list(rollout), float(bootstrap))`
abbrev pub Contribution : Type 0
Contribution = List Transition × ℕ

-- What an actor puts on the queue: `(actor_id, epoch, rollout, bootstrap)`.
pub record Message : Type 0 where
  pub actor_id : ℕ
  pub epoch : ℕ
  pub rollout : List Transition
  pub bootstrap : ℕ

-- One passed barrier: the contributions by actor, of one collection epoch.
pub record Round : Type 0 where
  pub epoch : ℕ
  pub contributions : List (ℕ × Contribution)

pub data Status : Type 0 where
  waiting : Status
  -- `return`, with the decision budget reached
  finished : Status
  -- `RuntimeError`: mixed policy versions, or a stale batch of a bounded run
  raised : Status

-- The locals of the loop and `shared_state.collection_epoch`. `rounds` are the barriers passed, the
-- last one first; of them those with a transition go to `ppo_update_async`.
pub record Collector : Type 0 where
  pub collection_epoch : ℕ
  pub pending : List (ℕ × List (ℕ × Contribution))
  pub update_rounds : ℕ
  pub total_steps : ℕ
  pub rounds : List Round
  pub status : Status

abbrev pub new_collector : Collector
new_collector = record {
  collection_epoch = 0;
  pending = [];
  update_rounds = 0;
  total_steps = 0;
  rounds = [];
  status = waiting;
}

-- `cfg.actors` and `decision_budget`
pub record Bounds : Type 0 where
  pub actors : ℕ
  pub decision_budget : Option ℕ

abbrev pub contributions_of : Option (List (ℕ × Contribution)) → List (ℕ × Contribution)
contributions_of none = []
contributions_of (some contributions) = contributions

-- `sum(len(item[0]) for item in contributions.values())`
abbrev pub steps_in : List (ℕ × Contribution) → ℕ
steps_in [] = 0
steps_in ((actor_id, (rollout, bootstrap)) ∷ rest) = length rollout + steps_in rest

-- `_coherent_policy_version`: every transition has the version of the first
unfoldable pub all_of_version : ℕ → List Transition → Bool
all_of_version version [] = true
all_of_version version (t ∷ rest) = t.policy_version == version && all_of_version version rest

unfoldable pub first_version : List (ℕ × Contribution) → Option ℕ
first_version [] = none
first_version ((actor_id, ([], bootstrap)) ∷ rest) = first_version rest
first_version ((actor_id, (t ∷ rollout, bootstrap)) ∷ rest) = some t.policy_version

unfoldable pub all_contribute_version : ℕ → List (ℕ × Contribution) → Bool
unfolding all_of_version
all_contribute_version version [] = true
all_contribute_version version ((actor_id, (rollout, bootstrap)) ∷ rest) =
    all_of_version version rollout && all_contribute_version version rest

abbrev pub agrees : Option ℕ → List (ℕ × Contribution) → Bool
agrees none contributions = true
agrees (some version) contributions = all_contribute_version version contributions

-- it returns, and does not raise
unfoldable pub is_coherent : List (ℕ × Contribution) → Bool
unfolding first_version all_contribute_version
is_coherent contributions = agrees (first_version contributions) contributions

-- `decision_budget is not None`, and whether `total_steps` has reached it
abbrev pub reached : Option ℕ → ℕ → Bool
reached none total_steps = false
reached (some budget) total_steps = leb budget total_steps

abbrev pub is_bounded : Option ℕ → Bool
is_bounded none = false
is_bounded (some budget) = true

-- from `contributions = pending.pop(current_epoch)` on; `stale` is the answer of the update, which
-- is made where a rollout is not empty
unfoldable pub pass_barrier : Bounds → Bool → Collector → List (ℕ × Contribution) → Collector
unfolding remove is_coherent
pass_barrier bounds stale c contributions =
    let left = remove c.collection_epoch c.pending in
    let total = c.total_steps + steps_in contributions in
    let updates = ltb 0 (steps_in contributions) in
    let popped = record c { pending = left; total_steps = total } in
    let round : Round = record { epoch = c.collection_epoch; contributions = contributions } in
    let updated = record popped {
      update_rounds = if updates then c.update_rounds + 1 else c.update_rounds;
      rounds = round ∷ c.rounds;
    } in
    if not (is_coherent contributions)
    then record popped { status = raised }
    else if is_bounded bounds.decision_budget && updates && stale
    then record updated { status = raised }
    else if reached bounds.decision_budget total
    then record updated { status = finished }
    else record updated { collection_epoch = c.collection_epoch + 1 }

-- One round of the loop: a message that `experience_q.get()` returns.
unfoldable pub collect : Bounds → Collector → Message → Bool → Collector
collect bounds c message stale =
    let known = contributions_of (find message.epoch c.pending) in
    let contribution : Contribution = (message.rollout, message.bootstrap) in
    let contributions = set_default message.actor_id contribution known in
    let gathered = record c { pending = insert message.epoch contributions c.pending } in
    if ltb message.epoch c.collection_epoch
    then c
    else if ltb c.collection_epoch message.epoch
    then record c {
      pending = insert message.epoch (insert message.actor_id contribution known) c.pending;
    }
    else if ltb (length contributions) bounds.actors
    then gathered
    else pass_barrier bounds stale gathered contributions

-- the loop runs while it neither returns nor raises
abbrev pub is_waiting : Status → Bool
is_waiting waiting = true
is_waiting finished = false
is_waiting raised = false

unfoldable pub collect_all : Bounds → Collector → List (Message × Bool) → Collector
unfolding collect
collect_all bounds c [] = c
collect_all bounds c ((message, stale) ∷ rest) =
    collect_all bounds (if is_waiting c.status then collect bounds c message stale else c) rest
