-- ===== src/Training/Segments.antt =====
-- `split_rollout_by_policy_version` of learner.py.
pub mod Cover
use py_rl_trainer.Prelude.{ℕ, List, [], ◌∷◌, ◌++◌, ◌==◌, if◌then◌else◌}
use py_rl_trainer.Training.{Transition}

pub record Segment : Type 0 where
  pub version : ℕ
  pub rollout : List Transition
  pub bootstrap : ℕ

-- the loop over `index`, with `rollout[start:index]` as its second argument
unfoldable pub split_from : ℕ → List Transition → List Transition → ℕ → List Segment
split_from version segment [] bootstrap =
    record { version = version; rollout = segment; bootstrap = bootstrap } ∷ []
split_from version segment (t ∷ rest) bootstrap =
    let same = split_from version (segment ++ (t ∷ [])) rest bootstrap in
    let changed =
      record { version = version; rollout = segment; bootstrap = t.value }
      ∷ split_from t.policy_version (t ∷ []) rest bootstrap in
    if t.policy_version == version then same else changed

unfoldable pub split_rollout_by_policy_version : List Transition → ℕ → List Segment
unfolding split_from
split_rollout_by_policy_version [] bootstrap = []
split_rollout_by_policy_version (t ∷ rest) bootstrap =
    split_from t.policy_version (t ∷ []) rest bootstrap
