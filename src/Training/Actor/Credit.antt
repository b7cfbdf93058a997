-- ===== src/Training/Actor/Credit.antt =====
-- `_credit_action` and `_finish_credited_action` of agent.py: which policy sample an interval pays.
use py_rl_trainer.Prelude.{
  ℕ, ◌+◌, Bool, true, false, not, ◌&&◌, ◌||◌, Option, none, some, List, [], ◌∷◌, ◌++◌, Result, ok,
  ◌>>◌, guard, ◌==◌, if◌then◌else◌,
}
use py_rl_trainer.Wire.Str.{Text, codes, text_eq, text_ltb}
use py_rl_trainer.Wire.Hex.{int_hex}
use py_rl_trainer.Wire.Float.{float_add, is_finite}
use py_rl_trainer.Reward.{Reward, AppliedCommand, reward_contract_error}
use py_rl_trainer.Reward.Components.{Components}
use py_rl_trainer.Reward.Control.{optional_eq}
use py_rl_trainer.Reward.Parse.{is_text, initial, terminal}
use py_rl_trainer.Evaluation.{add_components}
use py_rl_trainer.Training.{Observation, Transition, one}
use py_rl_trainer.Training.Actor.{
  ActorConfig, ActorClient, ActorError, Endpoint, reward_error, training_collection_open,
}

-- `_finish_credited_action`
abbrev pub finished : ActorClient → Option Transition → Option Endpoint → ActorClient
finished s (some pending) (some end_) = record s {
  rollout = s.rollout ++ (pending ∷ []);
  rollout_end = some end_;
  pending_transition = none;
  credit_end = none;
}
finished s pending end_ = s

unfoldable pub finish_credited_action : ActorClient → ActorClient
finish_credited_action s = finished s s.pending_transition s.credit_end

-- `_rollout_bootstrap`, where `cutoff_value` is the value head of the inference model
abbrev pub endpoint_value : (Observation → ℕ) → Option Endpoint → ℕ
endpoint_value cutoff_value none = 0
endpoint_value cutoff_value (some (step, none)) = 0
endpoint_value cutoff_value (some (step, some obs)) = cutoff_value obs

unfoldable pub rollout_bootstrap : (Observation → ℕ) → ActorClient → ℕ
rollout_bootstrap cutoff_value s = endpoint_value cutoff_value s.rollout_end

-- `int(control["selectedAtStep"], 16) == start`; an admitted control with a source has a step
abbrev pub is_step : Option Text → ℕ → Bool
is_step none step = false
is_step (some text) step = int_hex text == step

abbrev pub held_id : Bool → Option AppliedCommand → Option Text
held_id false applied = none
held_id true none = none
held_id true (some applied) = applied.command.client_action_id

-- `action_id` where `proven` holds
unfoldable pub proven_action : Reward → Option Text
proven_action reward =
    held_id
      (is_text reward.control.source (codes "held")
        && int_hex reward.to_step == int_hex reward.from_step + 1
        && is_step reward.control.selected_at_step (int_hex reward.from_step))
      reward.control.applied_command

-- `pending is not None and (not proven or pending.action_id != action_id)`
abbrev pub is_superseded : Option Transition → Option Text → Bool
is_superseded none proven = false
is_superseded (some pending) none = true
is_superseded (some pending) (some id) = not (optional_eq pending.action_id (some id))

-- the `while` over the issued samples: those before `action_id` are deleted, oldest first
unfoldable pub drop_before : Text → List (Text × Transition) → List (Text × Transition)
drop_before id [] = []
drop_before id ((key, t) ∷ rest) =
    let later = drop_before id rest in if text_ltb key id then later else (key, t) ∷ rest

-- `issued.pop(action_id, None)`: the value, and what stays
unfoldable pub pop_issued :
    Text → List (Text × Transition) → Option Transition × List (Text × Transition)
pop_issued id [] = (none, [])
pop_issued id ((key, t) ∷ rest) =
    let (value, later) = pop_issued id rest in
    if text_eq key id then (some t, rest) else (value, (key, t) ∷ later)

-- `rollout[-1].bootstrap_override = value`
unfoldable pub override_last : ℕ → List Transition → List Transition
override_last value [] = []
override_last value (t ∷ []) = record t { bootstrap_override = some value } ∷ []
override_last value (t ∷ (next ∷ rest)) = t ∷ override_last value (next ∷ rest)

abbrev pub is_tick : Option ℕ → ℕ → Bool
is_tick none tick = false
is_tick (some own) tick = own == tick

-- `self._rollout_end is not None and (self._rollout_end[0] != start or action_tick != start)`
abbrev pub is_apart : Option Endpoint → Transition → ℕ → Bool
is_apart none pending start = false
is_apart (some (step, obs)) pending start =
    not (step == start) || not (is_tick pending.action_tick start)

-- the new pending sample, and the cut of the trace before it
abbrev pub with_pending :
    (Observation → ℕ) → ℕ → ActorClient → Option Transition → List (Text × Transition) → ActorClient
with_pending cutoff_value start s none left = record s {
  issued_transitions = left;
  pending_transition = none;
}
with_pending cutoff_value start s (some pending) left = record s {
  issued_transitions = left;
  pending_transition = some pending;
  rollout =
      if is_apart s.rollout_end pending start
      then override_last (endpoint_value cutoff_value s.rollout_end) s.rollout
      else s.rollout;
}

abbrev pub take_if_none :
    (Observation → ℕ) → ℕ → Text → ActorClient → Option Transition → ActorClient
take_if_none cutoff_value start id s (some pending) = s
take_if_none cutoff_value start id s none =
    let (value, left) = pop_issued id (drop_before id s.issued_transitions) in
    with_pending cutoff_value start s value left

abbrev pub take_proven : (Observation → ℕ) → ℕ → Option Text → ActorClient → ActorClient
take_proven cutoff_value start none s = s
take_proven cutoff_value start (some id) s =
    take_if_none cutoff_value start id s s.pending_transition

-- `_credit_action` up to the sample that the interval belongs to
unfoldable pub select_pending : (Observation → ℕ) → Reward → ActorClient → ActorClient
unfolding finish_credited_action proven_action drop_before pop_issued override_last
select_pending cutoff_value reward s =
    let proven = proven_action reward in
    take_proven cutoff_value (int_hex reward.from_step) proven
      (if is_superseded s.pending_transition proven then finish_credited_action s else s)

-- `not (not self._training_collection_open() or reward["transitionKind"] == "initial")`
unfoldable pub is_crediting : ActorConfig → Reward → ActorClient → Bool
unfolding training_collection_open
is_crediting cfg reward s =
    training_collection_open cfg s && not (text_eq reward.transition_kind initial)

unfoldable pub select_credit : ActorConfig → (Observation → ℕ) → Reward → ActorClient → ActorClient
unfolding is_crediting select_pending
select_credit cfg cutoff_value reward s =
    if is_crediting cfg reward s then select_pending cutoff_value reward s else s

-- the pending sample with the interval added
unfoldable pub credited : Reward → Components → ℕ → Transition → Transition
credited reward parts total pending = record pending {
  reward = float_add pending.reward total;
  reward_components = add_components pending.reward_components parts;
  elapsed_seconds = float_add pending.elapsed_seconds reward.deltas.elapsed_seconds;
  alive_seconds = float_add pending.alive_seconds reward.deltas.alive_seconds_delta;
  done = if text_eq reward.transition_kind terminal then one else 0;
}

unfoldable pub all_finite : Transition → Bool
all_finite t =
    is_finite t.reward_components.survival
    && is_finite t.reward_components.food
    && is_finite t.reward_components.growth
    && is_finite t.reward_components.points
    && is_finite t.reward_components.kills
    && is_finite t.reward_components.death
    && is_finite t.reward
    && is_finite t.elapsed_seconds
    && is_finite t.alive_seconds

-- `int(applied["command"]["clientTick"], 16) != pending.action_tick`
abbrev pub applied_tick : Option AppliedCommand → Option ℕ → Bool
applied_tick none own = false
applied_tick (some applied) own = is_tick own (int_hex applied.command.client_tick)

abbrev pub add_credit :
    Reward
    → Option Observation
    → Components
    → ℕ
    → ActorClient
    → Option Transition
    → Result ActorError ActorClient
add_credit reward observation parts total s none = ok s
add_credit reward observation parts total s (some pending) = do
  guard (applied_tick reward.control.applied_command pending.action_tick)
      (reward_error reward_contract_error)
  guard (all_finite (credited reward parts total pending)) (reward_error reward_contract_error)
  ok (record s {
    pending_transition = some (credited reward parts total pending);
    credit_end = some (int_hex reward.to_step, observation);
  })

abbrev pub is_some : {A : Type 0} → Option A → Bool
is_some none = false
is_some (some a) = true

-- the rest of `_credit_action`
unfoldable pub pay_pending :
    ActorConfig
    → Reward
    → Option Observation
    → Components
    → ℕ
    → ActorClient
    → Result ActorError ActorClient
unfolding is_crediting proven_action credited all_finite
pay_pending cfg reward observation parts total s =
    if is_crediting cfg reward s && is_some (proven_action reward)
    then add_credit reward observation parts total s s.pending_transition
    else ok s
