-- ===== src/Training/Update/Minibatches.antt =====
-- The minibatches of one epoch.
use py_rl_trainer.Prelude.{
  ℕ, zero, suc, ◌≤◌, ◌<◌, ◌≡◌, refl, ap, ◌∙◌, List, [], ◌∷◌, ◌++◌, arith, length, take, drop,
  take-append-drop, length-take, length-drop,
}
use py_rl_trainer.Training.Update.{minibatches}

abbrev pub flatten : List (List ℕ) → List ℕ
flatten [] = []
flatten (xs ∷ rest) = xs ++ flatten rest

abbrev pub AllSized : ℕ → List (List ℕ) → Type 0
AllSized size [] = Unit
AllSized size (xs ∷ rest) = (0 < length xs) × (length xs ≤ size) × AllSized size rest

-- With a size of at least one and the length of the order as fuel, as `_ppo_update_batch_sync` calls
-- it, the minibatches hold every index of the order once, in order, and each has between one and
-- `size` of them.
pub minibatches_cover :
    (size fuel : ℕ) (order : List ℕ)
    → 1 ≤ size
    → length order ≤ fuel
    → (flatten (minibatches fuel size order) ≡ order) × AllSized size (minibatches fuel size order)
unfolding minibatches
minibatches_cover size zero [] pos enough = (refl, tt)
minibatches_cover size zero (i ∷ order) pos enough = absurd (omega arith)
minibatches_cover size (suc fuel) [] pos enough = (refl, tt)
minibatches_cover size (suc fuel) (i ∷ order) pos enough =
    let left = length-drop size (i ∷ order) in
    let taken = length-take size (i ∷ order) in
    let (covers, sized) =
      minibatches_cover size fuel (drop size (i ∷ order)) pos (omega (arith, left)) in
    (
      ap (λ l. take size (i ∷ order) ++ l) covers ∙ take-append-drop size (i ∷ order),
      (omega (arith, taken), omega (arith, taken), sized),
    )
