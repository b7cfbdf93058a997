-- ===== src/Training/Batches.antt =====
-- `learner_loop` of learner.py: rollout segments wait by policy version until a version fills a batch.
pub mod Accounted
pub mod Rounds
use py_rl_trainer.Prelude.{
  ℕ, ◌+◌, ◌≤◌, Bool, true, false, Option, none, some, List, [], ◌∷◌, ◌++◌, ltb, leb, length,
  if◌then◌else◌,
}
use py_rl_trainer.Prelude.Int.{ℤ, pos, negsuc, sub_ℕ, ltb_ℤ}
use py_rl_trainer.Prelude.Dict.{find, insert, remove}
use py_rl_trainer.Training.{Transition}
use py_rl_trainer.Training.Segments.{Segment, split_rollout_by_policy_version}

-- `(segment, segment_bootstrap)`
abbrev pub Item : Type 0
Item = List Transition × ℕ

-- A batch that was handed to `ppo_update_async`, with the answer of `stale_batch`.
pub record Batch : Type 0 where
  pub version : ℕ
  pub items : List Item
  pub is_stale : Bool

-- The locals of the loop; `batches` are the calls of `ppo_update_async`, the last one first, and
-- `dropped_stale_steps` counts without the reset of a log line.
pub record Learner : Type 0 where
  pub pending_by_version : List (ℕ × List Item)
  pub stale_before_or_equal : ℤ
  pub total_steps : ℕ
  pub dropped_stale_steps : ℕ
  pub batches : List Batch

abbrev pub new_learner : Learner
new_learner = record {
  pending_by_version = [];
  stale_before_or_equal = negsuc 0;
  total_steps = 0;
  dropped_stale_steps = 0;
  batches = [];
}

-- `sum(len(segment) for segment, _boot in items)`
abbrev pub steps_of : List Item → ℕ
steps_of [] = 0
steps_of ((segment, bootstrap) ∷ items) = length segment + steps_of items

-- `version <= stale_before_or_equal`
unfoldable pub is_obsolete : ℤ → ℕ → Bool
is_obsolete (pos mark) version = leb version mark
is_obsolete (negsuc n) version = false

abbrev pub items_of : Option (List Item) → List Item
items_of none = []
items_of (some items) = items

-- the body of the `for` over the segments of a rollout
unfoldable pub admit_segment : Learner → Segment → Learner
unfolding is_obsolete find insert
admit_segment l s =
    if is_obsolete l.stale_before_or_equal s.version
    then record l {
      total_steps = l.total_steps + length s.rollout;
      dropped_stale_steps = l.dropped_stale_steps + length s.rollout;
    }
    else record l {
      total_steps = l.total_steps + length s.rollout;
      pending_by_version =
          insert s.version
            (items_of (find s.version l.pending_by_version) ++ ((s.rollout, s.bootstrap) ∷ []))
            l.pending_by_version;
    }

unfoldable pub admit_segments : Learner → List Segment → Learner
unfolding admit_segment
admit_segments l [] = l
admit_segments l (s ∷ rest) = admit_segments (admit_segment l s) rest

-- `max(ready_versions)`, of the versions whose segments fill a batch
abbrev pub larger : ℕ → Option ℕ → Option ℕ
larger version none = some version
larger version (some other) = some (if ltb version other then other else version)

unfoldable pub newest_ready : ℕ → List (ℕ × List Item) → Option ℕ
newest_ready batch_size [] = none
newest_ready batch_size ((version, items) ∷ rest) =
    let later = newest_ready batch_size rest in
    if leb batch_size (steps_of items) then larger version later else later

-- the versions that are deleted once the mark has moved: what they held, and what stays
unfoldable pub obsolete_steps : ℤ → List (ℕ × List Item) → ℕ
unfolding is_obsolete
obsolete_steps mark [] = 0
obsolete_steps mark ((version, items) ∷ rest) =
    (if is_obsolete mark version then steps_of items else 0) + obsolete_steps mark rest

unfoldable pub without_obsolete : ℤ → List (ℕ × List Item) → List (ℕ × List Item)
unfolding is_obsolete
without_obsolete mark [] = []
without_obsolete mark ((version, items) ∷ rest) =
    let later = without_obsolete mark rest in
    if is_obsolete mark version then later else (version, items) ∷ later

-- `max` of the mark and another
abbrev pub raise_mark : ℤ → ℤ → ℤ
raise_mark mark other = if ltb_ℤ mark other then other else mark

-- the update of `rollout_version`, whose `samples` are the transitions of the batch
unfoldable pub train : Learner → ℕ → Bool → Learner
unfolding find remove obsolete_steps without_obsolete
train l version stale =
    let items = items_of (find version l.pending_by_version) in
    let left = remove version l.pending_by_version in
    let mark =
      raise_mark l.stale_before_or_equal (if stale then pos version else sub_ℕ version 1) in
    record {
      pending_by_version = without_obsolete mark left;
      stale_before_or_equal = mark;
      total_steps = l.total_steps;
      dropped_stale_steps =
          l.dropped_stale_steps + (if stale then steps_of items else 0) + obsolete_steps mark left;
      batches = record { version = version; items = items; is_stale = stale } ∷ l.batches;
    }

unfoldable pub train_ready : Learner → Option ℕ → Bool → Learner
unfolding train
train_ready l none stale = l
train_ready l (some version) stale = train l version stale

-- One round of the loop, for a rollout with its bootstrap value. An empty rollout has no segments
-- and changes nothing, as the `continue` of the source; `stale` is the answer of an update, should
-- one be made.
unfoldable pub receive_rollout : ℕ → Learner → List Transition → ℕ → Bool → Learner
unfolding admit_segments newest_ready train_ready split_rollout_by_policy_version
receive_rollout batch_size l [] bootstrap stale = l
receive_rollout batch_size l (t ∷ rollout) bootstrap stale =
    let admitted = admit_segments l (split_rollout_by_policy_version (t ∷ rollout) bootstrap) in
    train_ready admitted (newest_ready batch_size admitted.pending_by_version) stale
