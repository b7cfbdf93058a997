-- ===== src/Training/Advantage/Cut.antt =====
-- A value override is a cut: nothing behind it reaches the estimates before it.
use py_rl_trainer.Prelude.{ℕ, ◌≡◌, refl, sym, some, List, [], ◌∷◌, ◌++◌}
use mathlib.Core.List.{append_assoc}
use py_rl_trainer.Training.{Transition}
use py_rl_trainer.Training.Advantage.{gae_loop, returns_of, gae, value_after}

module _ (to_float32 : ℕ → ℕ) (gamma lam : ℕ) where
  value_after-append :
      (xs : List Transition) (t : Transition) (ys : List Transition) (b c : ℕ)
      → value_after (xs ++ (t ∷ ys)) b ≡ value_after (xs ++ (t ∷ [])) c
  unfolding value_after
  value_after-append [] t ys b c = refl
  value_after-append (x ∷ xs) t ys b c = refl

  gae_loop-cut :
      (xs : List Transition) (t : Transition) (ys : List Transition) (b c : ℕ) {override : ℕ}
      → t.bootstrap_override ≡ some override
      → (let whole = gae_loop to_float32 gamma lam (xs ++ (t ∷ ys)) b in
          let front = gae_loop to_float32 gamma lam (xs ++ (t ∷ [])) c in
          (whole.0 ≡ front.0) × (whole.1 ≡ front.1 ++ (gae_loop to_float32 gamma lam ys b).1))
  unfolding gae_loop
  gae_loop-cut [] t ys b c h = rw h (refl, refl)
  gae_loop-cut (x ∷ xs) t ys b c h =
      let (same, parts) = gae_loop-cut xs t ys b c h in
      rw (same, parts, value_after-append xs t ys b c) (refl, refl)

  returns_of-append :
      (xs ys : List Transition) (b : ℕ) (adv : List ℕ)
      → returns_of to_float32 gamma lam (xs ++ ys) ((gae_loop to_float32 gamma lam xs b).1 ++ adv)
        ≡ returns_of to_float32 gamma lam xs (gae_loop to_float32 gamma lam xs b).1
          ++ returns_of to_float32 gamma lam ys adv
  unfolding returns_of gae_loop
  returns_of-append [] ys b adv = refl
  returns_of-append (x ∷ xs) ys b adv = rw (returns_of-append xs ys b adv)

  -- When a transition of a rollout has a value override, the advantages and the returns of the
  -- rollout are those of its part up to this transition, under any bootstrap value, followed by
  -- those of the rest as a rollout of its own.
  pub gae-cut :
      (xs : List Transition) (t : Transition) (ys : List Transition) (b c : ℕ) {override : ℕ}
      → t.bootstrap_override ≡ some override
      → (let whole = gae to_float32 gamma lam (xs ++ (t ∷ ys)) b in
          let front = gae to_float32 gamma lam (xs ++ (t ∷ [])) c in
          let back = gae to_float32 gamma lam ys b in
          (whole.0 ≡ front.0 ++ back.0) × (whole.1 ≡ front.1 ++ back.1))
  unfolding gae
  gae-cut xs t ys b c h =
      let parts = (gae_loop-cut xs t ys b c h).1 in
      let regrouped : xs ++ (t ∷ ys) ≡ (xs ++ (t ∷ [])) ++ ys = sym (append_assoc xs (t ∷ []) ys) in
      let later = (gae_loop to_float32 gamma lam ys b).1 in
      (parts, rw (parts, regrouped) (returns_of-append (xs ++ (t ∷ [])) ys c later))
