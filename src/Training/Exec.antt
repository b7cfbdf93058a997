-- ===== src/Training/Exec.antt =====
-- Methods that change an object and may raise: what was assigned before a raise stays assigned.
pub mod Keeps
use py_rl_trainer.Prelude.{Bool, true, false, Result, ok, err, if◌then◌else◌}

abbrev pub Exec : Type 0 → Type 0 → Type 0 → Type 0
Exec E S A = S → Result E A × S

module _ {E S : Type 0} where
  unfoldable pub pure : {A : Type 0} → A → Exec E S A
  pure a s = (ok a, s)

  unfoldable pub raise : {A : Type 0} → E → Exec E S A
  raise e s = (err e, s)

  -- a call that does not touch the object
  unfoldable pub lift : {A : Type 0} → Result E A → Exec E S A
  lift r s = (r, s)

  unfoldable pub get : Exec E S S
  get s = (ok s, s)

  unfoldable pub modify : (S → S) → Exec E S (Unit {0})
  modify f s = (ok tt, f s)

  -- a step that assigns its results together, or raises before it assigns
  abbrev updated : Result E S → S → Result E (Unit {0}) × S
  updated (ok after) s = (ok tt, after)
  updated (err e) s = (err e, s)

  unfoldable pub update : (S → Result E S) → Exec E S (Unit {0})
  update f s = updated (f s) s

  -- `if not test: raise e`
  unfoldable pub ensure : Bool → E → Exec E S (Unit {0})
  ensure true e s = (ok tt, s)
  ensure false e s = (err e, s)

  abbrev proceed : {A B : Type 0} → Result E A → (A → Exec E S B) → Exec E S B
  proceed (ok a) f s = f a s
  proceed (err e) f s = (err e, s)

  infixl 5 ◌>>=◌ ◌>>◌
  unfoldable pub ◌>>=◌ : {A B : Type 0} → Exec E S A → (A → Exec E S B) → Exec E S B
  unfolding pure raise lift get modify update ensure
  ◌>>=◌ m f s = let (r, after) = m s in proceed r f after

  abbrev pub ◌>>◌ : {A B : Type 0} → Exec E S A → Exec E S B → Exec E S B
  m >> n = m >>= λ _. n

  -- `if test: m`
  abbrev pub when : Bool → Exec E S (Unit {0}) → Exec E S (Unit {0})
  when true m = m
  when false m = pure tt
