-- ===== src/Training/Barrier/Versions.antt =====
-- Contributions of one policy version, and those of each epoch under its policy.
use py_rl_trainer.Prelude.{
  ℕ, ◌≡◌, refl, sym, true, some, List, [], ◌∷◌, arith, Bool-cases, Option-cases, inl, inr, ◌==◌,
}
use mathlib.Core.Path.{subst}
use py_rl_trainer.Prelude.Dict.{find, insert, set_default, remove}
use py_rl_trainer.Training.{Transition}
use py_rl_trainer.Training.Segments.Cover.{AllVersion}
use py_rl_trainer.Training.Barrier.{
  Contribution, contributions_of, all_of_version, first_version, all_contribute_version,
  is_coherent,
}

-- contributions of one version, and those of each epoch of its policy
abbrev pub AllOf : ℕ → List (ℕ × Contribution) → Type 0
AllOf version [] = Unit
AllOf version ((a, (rollout, bootstrap)) ∷ d) = AllVersion version rollout × AllOf version d

abbrev pub AllPending : (ℕ → ℕ) → List (ℕ × List (ℕ × Contribution)) → Type 0
AllPending policy [] = Unit
AllPending policy ((e, d) ∷ p) = AllOf (policy e) d × AllPending policy p

AllVersion-all_of_version :
    (version : ℕ) (ts : List Transition) → AllVersion version ts → all_of_version version ts ≡ true
unfolding all_of_version
AllVersion-all_of_version version [] h = refl
AllVersion-all_of_version version (t ∷ ts) h =
    ground (arith, h.0, AllVersion-all_of_version version ts h.1)

AllOf-all_contribute_version :
    (version : ℕ) (d : List (ℕ × Contribution))
    → AllOf version d
    → all_contribute_version version d ≡ true
unfolding all_contribute_version
AllOf-all_contribute_version version [] h = refl
AllOf-all_contribute_version version ((a, (rollout, bootstrap)) ∷ d) h = ground (
  arith,
  AllVersion-all_of_version version rollout h.0,
  AllOf-all_contribute_version version d h.1,
)

AllOf-first_version :
    (version : ℕ) (d : List (ℕ × Contribution)) {other : ℕ}
    → AllOf version d
    → first_version d ≡ some other
    → other ≡ version
unfolding first_version
AllOf-first_version version [] h e = ground arith
AllOf-first_version version ((a, ([], bootstrap)) ∷ d) h e = AllOf-first_version version d h.1 e
AllOf-first_version version ((a, (t ∷ ts, bootstrap)) ∷ d) h e = ground (arith, h.0.0, e)

pub AllOf-is_coherent :
    (version : ℕ) (d : List (ℕ × Contribution)) → AllOf version d → is_coherent d ≡ true
unfolding is_coherent
AllOf-is_coherent version d h = elim (Option-cases (first_version d)) [
  | inl empty ↦ rw empty refl
  | inr (other, e) ↦
      rw (e, AllOf-first_version version d h e) (AllOf-all_contribute_version version d h)
]

pub insert-AllOf :
    (version a : ℕ) (c : Contribution) (d : List (ℕ × Contribution))
    → AllVersion version c.0
    → AllOf version d
    → AllOf version (insert a c d)
unfolding insert
insert-AllOf version a c [] h k = (h, tt)
insert-AllOf version a c ((b, x) ∷ d) h k = elim (Bool-cases (b == a)) [
  | inl same ↦ rw same (h, k.1)
  | inr other ↦ rw other (k.0, insert-AllOf version a c d h k.1)
]

pub set_default-AllOf :
    (version a : ℕ) (c : Contribution) (d : List (ℕ × Contribution))
    → AllVersion version c.0
    → AllOf version d
    → AllOf version (set_default a c d)
unfolding set_default
set_default-AllOf version a c [] h k = (h, tt)
set_default-AllOf version a c ((b, x) ∷ d) h k = elim (Bool-cases (b == a)) [
  | inl same ↦ rw same k
  | inr other ↦ rw other (k.0, set_default-AllOf version a c d h k.1)
]

module _ (policy : ℕ → ℕ) where
  pub find-AllOf :
      (e : ℕ) (p : List (ℕ × List (ℕ × Contribution)))
      → AllPending policy p
      → AllOf (policy e) (contributions_of (find e p))
  unfolding find
  find-AllOf e [] h = tt
  find-AllOf e ((k, d) ∷ p) h = elim (Bool-cases (k == e)) [
    | inl same ↦ let own : k ≡ e = ground arith in rw same (subst (λ n. AllOf (policy n) d) own h.0)
    | inr other ↦ rw other (find-AllOf e p h.1)
  ]

  pub insert-AllPending :
      (e : ℕ) (d : List (ℕ × Contribution)) (p : List (ℕ × List (ℕ × Contribution)))
      → AllOf (policy e) d
      → AllPending policy p
      → AllPending policy (insert e d p)
  unfolding insert
  insert-AllPending e d [] h k = (h, tt)
  insert-AllPending e d ((j, x) ∷ p) h k = elim (Bool-cases (j == e)) [
    | inl same ↦
        let own : j ≡ e = ground arith in rw same (subst (λ n. AllOf (policy n) d) (sym own) h, k.1)
    | inr other ↦ rw other (k.0, insert-AllPending e d p h k.1)
  ]

  pub remove-AllPending :
      (e : ℕ) (p : List (ℕ × List (ℕ × Contribution)))
      → AllPending policy p
      → AllPending policy (remove e p)
  unfolding remove
  remove-AllPending e [] h = tt
  remove-AllPending e ((j, x) ∷ p) h = elim (Bool-cases (j == e)) [
    | inl same ↦ rw same h.1
    | inr other ↦ rw other (h.0, remove-AllPending e p h.1)
  ]
