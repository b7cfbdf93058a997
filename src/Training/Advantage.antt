-- ===== src/Training/Advantage.antt =====
-- `gae` of learner.py: advantages and returns of one rollout.
pub mod Cut
use py_rl_trainer.Prelude.{ℕ, Option, none, some, List, [], ◌∷◌}
use py_rl_trainer.Wire.Float.{float_add, float_sub, float_mul}
use py_rl_trainer.Training.{Transition, one}

-- `last_value if t == t_len - 1 else rollout[t + 1].value`
unfoldable pub value_after : List Transition → ℕ → ℕ
value_after [] bootstrap = bootstrap
value_after (t ∷ rest) bootstrap = t.value

-- what `bootstrap_override` puts in the place of `next_value` and of `last_gae`
abbrev pub overridden : Option ℕ → ℕ → ℕ
overridden none value = value
overridden (some override) value = override

abbrev pub restarted : Option ℕ → ℕ → ℕ
restarted none last_gae = last_gae
restarted (some override) last_gae = 0

-- Storing into an array of `np.float32` rounds; numpy's rounding is a parameter.
module _ (to_float32 : ℕ → ℕ) (gamma lam : ℕ) where
  -- `delta + gamma * lam * (1.0 - done) * last_gae`
  unfoldable pub estimate : Transition → ℕ → ℕ → ℕ
  estimate t next_value last_gae =
      let alive = float_sub one t.done in
      let delta =
        float_sub (float_add t.reward (float_mul (float_mul gamma alive) next_value)) t.value in
      float_add delta (float_mul (float_mul (float_mul gamma lam) alive) last_gae)

  -- the loop, from the last transition on: `last_gae` and `adv` from this transition on
  unfoldable pub gae_loop : List Transition → ℕ → ℕ × List ℕ
  unfolding value_after estimate
  gae_loop [] bootstrap = (0, [])
  gae_loop (t ∷ rest) bootstrap =
      let (last_gae, adv) = gae_loop rest bootstrap in
      let next_value = overridden t.bootstrap_override (value_after rest bootstrap) in
      let current = estimate t next_value (restarted t.bootstrap_override last_gae) in
      (current, to_float32 current ∷ adv)

  -- `adv + np.asarray(values, dtype=np.float32)`; the sum of two float32 is rounded once
  unfoldable pub returns_of : List Transition → List ℕ → List ℕ
  returns_of (t ∷ rest) (a ∷ adv) =
      to_float32 (float_add a (to_float32 t.value)) ∷ returns_of rest adv
  returns_of _ _ = []

  unfoldable pub gae : List Transition → ℕ → List ℕ × List ℕ
  unfolding gae_loop returns_of
  gae rollout bootstrap = let adv = (gae_loop rollout bootstrap).1 in (adv, returns_of rollout adv)
