-- ===== src/Training/Actor/Settled/Samples.antt =====
-- Samples of one policy version, as credit moves them.
use py_rl_trainer.Prelude.{ℕ, Bool, true, false, List, [], ◌∷◌, Bool-cases, inl, inr, if◌then◌else◌}
use py_rl_trainer.Wire.Str.{Text, text_eq, text_ltb}
use py_rl_trainer.Training.{Transition}
use py_rl_trainer.Training.Segments.Cover.{AllVersion}
use py_rl_trainer.Training.Actor.Credit.{drop_before, pop_issued, override_last}
use py_rl_trainer.Training.Actor.Settled.{PendingVersion, IssuedVersion}

pub drop_before-IssuedVersion :
    (version : ℕ) (id : Text) (issued : List (Text × Transition))
    → IssuedVersion version issued
    → IssuedVersion version (drop_before id issued)
unfolding drop_before
drop_before-IssuedVersion version id [] h = tt
drop_before-IssuedVersion version id ((key, t) ∷ rest) h = elim (Bool-cases (text_ltb key id)) [
  | inl before ↦ rw before (drop_before-IssuedVersion version id rest h.1)
  | inr after ↦ rw after h
]

pub pop_issued-IssuedVersion :
    (version : ℕ) (id : Text) (issued : List (Text × Transition))
    → IssuedVersion version issued
    → PendingVersion version (pop_issued id issued).0
      × IssuedVersion version (pop_issued id issued).1
unfolding pop_issued
pop_issued-IssuedVersion version id [] h = (tt, tt)
pop_issued-IssuedVersion version id ((key, t) ∷ rest) h = elim (Bool-cases (text_eq key id)) [
  | inl here ↦ rw here (h.0, h.1)
  | inr later ↦
      let (value, left) = pop_issued-IssuedVersion version id rest h.1 in
      rw later (value, (h.0, left))
]

pub override_last-AllVersion :
    (version value : ℕ) (ts : List Transition)
    → AllVersion version ts
    → AllVersion version (override_last value ts)
unfolding override_last
override_last-AllVersion version value [] h = tt
override_last-AllVersion version value (t ∷ []) h = h
override_last-AllVersion version value (t ∷ (u ∷ rest)) h =
    (h.0, override_last-AllVersion version value (u ∷ rest) h.1)

pub either-AllVersion :
    (version : ℕ) (b : Bool) (xs ys : List Transition)
    → AllVersion version xs
    → AllVersion version ys
    → AllVersion version (if b then xs else ys)
either-AllVersion version true xs ys h k = h
either-AllVersion version false xs ys h k = k
