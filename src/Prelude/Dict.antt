-- ===== src/Prelude/Dict.antt =====
-- Python's dictionaries with whole numbers as keys: association lists in the order of insertion.
pub mod Distinct
use py_rl_trainer.Prelude.{
  ℕ, suc, ◌+◌, ◌≤◌, ◌<◌, ◌≡◌, ◌≢◌, refl, ◌⊎◌, inl, inr, Bool, true, false, Option, none, some, List,
  [], ◌∷◌, ◌++◌, arith, length, ◌==◌, if◌then◌else◌,
}

module _ {ℓ} {V : Type ℓ} where
  -- `d.get(k)`
  unfoldable pub find : ℕ → List (ℕ × V) → Option V
  find k [] = none
  find k ((j, v) ∷ d) = if j == k then some v else find k d

  -- `d[k] = v`
  unfoldable pub insert : ℕ → V → List (ℕ × V) → List (ℕ × V)
  insert k v [] = (k, v) ∷ []
  insert k v ((j, w) ∷ d) =
      let later = insert k v d in if j == k then (j, v) ∷ d else (j, w) ∷ later

  -- `d.setdefault(k, v)`, for what it leaves in `d`
  unfoldable pub set_default : ℕ → V → List (ℕ × V) → List (ℕ × V)
  set_default k v [] = (k, v) ∷ []
  set_default k v ((j, w) ∷ d) =
      let later = set_default k v d in if j == k then (j, w) ∷ d else (j, w) ∷ later

  -- `d.pop(k)`, for what it leaves in `d`
  unfoldable pub remove : ℕ → List (ℕ × V) → List (ℕ × V)
  remove k [] = []
  remove k ((j, w) ∷ d) = let later = remove k d in if j == k then d else (j, w) ∷ later

  abbrev pub keys : List (ℕ × V) → List ℕ
  keys [] = []
  keys ((k, v) ∷ d) = k ∷ keys d
