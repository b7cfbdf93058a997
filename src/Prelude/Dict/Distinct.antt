-- ===== src/Prelude/Dict/Distinct.antt =====
-- Distinct keys below a bound: how many there can be, and what a dictionary does to them.
use py_rl_trainer.Prelude.{
  ℕ, zero, suc, ◌≤◌, ◌<◌, ◌≡◌, refl, inl, inr, Bool, true, false, ◌||◌, List, [], ◌∷◌, ap, ◌∙◌,
  arith, length, ◌==◌, if◌then◌else◌, Bool-cases, ==_iff,
}
use py_rl_trainer.Prelude.Dict.{set_default, keys}

-- `k in d`, of the keys
abbrev pub has : ℕ → List ℕ → Bool
has a [] = false
has a (x ∷ xs) = x == a || has a xs

abbrev pub Distinct : List ℕ → Type 0
Distinct [] = Unit
Distinct (x ∷ xs) = (has x xs ≡ false) × Distinct xs

abbrev pub AllBelow : ℕ → List ℕ → Type 0
AllBelow n [] = Unit
AllBelow n (x ∷ xs) = (x < n) × AllBelow n xs

without : ℕ → List ℕ → List ℕ
without k [] = []
without k (x ∷ xs) = let later = without k xs in if x == k then xs else x ∷ later

length-without : (k : ℕ) (xs : List ℕ) → length xs ≤ suc (length (without k xs))
unfolding without
length-without k [] = omega arith
length-without k (x ∷ xs) = ground (arith, length-without k xs)

has-without : (a k : ℕ) (xs : List ℕ) → has a xs ≡ false → has a (without k xs) ≡ false
unfolding without
has-without a k [] h = refl
has-without a k (x ∷ xs) h = ground (arith, has-without a k xs)

Distinct-without : (k : ℕ) (xs : List ℕ) → Distinct xs → Distinct (without k xs)
unfolding without
Distinct-without k [] h = h
Distinct-without k (x ∷ xs) h = elim (Bool-cases (x == k)) [
  | inl same ↦ rw same h.1
  | inr other ↦ rw other (has-without x k xs h.0, Distinct-without k xs h.1)
]

AllBelow-absent : (k : ℕ) (xs : List ℕ) → AllBelow (suc k) xs → has k xs ≡ false → AllBelow k xs
AllBelow-absent k [] h a = tt
AllBelow-absent k (x ∷ xs) h a = (ground (arith, h.0), AllBelow-absent k xs h.1 (ground arith))

AllBelow-without :
    (k : ℕ) (xs : List ℕ) → Distinct xs → AllBelow (suc k) xs → AllBelow k (without k xs)
unfolding without
AllBelow-without k [] d h = tt
AllBelow-without k (x ∷ xs) d h = elim (Bool-cases (x == k)) [
  | inl same ↦
      let e : x ≡ k = (==_iff x k).0 same in
      let absent : has k xs ≡ false = rw (← e) d.0 in rw same (AllBelow-absent k xs h.1 absent)
  | inr other ↦ rw other (ground arith, AllBelow-without k xs d.1 h.1)
]

-- the pigeonhole principle
pub Distinct-below : (n : ℕ) (xs : List ℕ) → Distinct xs → AllBelow n xs → length xs ≤ n
Distinct-below zero [] d h = omega arith
Distinct-below zero (x ∷ xs) d h = absurd (omega arith)
Distinct-below (suc n) xs d h = omega (
  arith,
  length-without n xs,
  Distinct-below n (without n xs) (Distinct-without n xs d) (AllBelow-without n xs d h),
)

-- as many distinct keys as there can be are all of them
pub full_has :
    (n : ℕ) (xs : List ℕ)
    → Distinct xs
    → AllBelow n xs
    → n ≤ length xs
    → (a : ℕ) → a < n
    → has a xs ≡ true
full_has n xs d h full a lt = elim (Bool-cases (has a xs)) [
  | inl present ↦ present
  | inr absent ↦ absurd (omega (arith, Distinct-below n (a ∷ xs) (absent, d) (lt, h)))
]

has-without_other : (a k : ℕ) (xs : List ℕ) → has a xs ≡ true → a < k → has a (without k xs) ≡ true
unfolding without
has-without_other a k [] h lt = cc
has-without_other a k (x ∷ xs) h lt = ground (arith, has-without_other a k xs)

length-without_present :
    (k : ℕ) (xs : List ℕ) → has k xs ≡ true → length xs ≡ suc (length (without k xs))
unfolding without
length-without_present k [] h = cc
length-without_present k (x ∷ xs) h = ground (arith, length-without_present k xs)

-- a list that has every number below `n` is as long
pub length-ge-has : (n : ℕ) (xs : List ℕ) → ((a : ℕ) → a < n → has a xs ≡ true) → n ≤ length xs
length-ge-has zero xs h = omega arith
length-ge-has (suc n) xs h = omega (
  arith,
  length-without_present n xs (h n (omega arith)),
  length-ge-has n (without n xs) (λ a lt. has-without_other a n xs (h a (omega arith)) lt),
)

module _ {ℓ} {V : Type ℓ} (k : ℕ) (v : V) where
  pub has-set_default_other :
      (d : List (ℕ × V)) (a : ℕ) → has a (keys (set_default k v d)) ≡ (k == a || has a (keys d))
  unfolding set_default
  has-set_default_other [] a = ground arith
  has-set_default_other ((j, w) ∷ d) a = ground (arith, has-set_default_other d a)

  pub set_default-Distinct :
      (d : List (ℕ × V)) → Distinct (keys d) → Distinct (keys (set_default k v d))
  unfolding set_default
  set_default-Distinct [] h = (refl, tt)
  set_default-Distinct ((j, w) ∷ d) h = elim (Bool-cases (j == k)) [
    | inl same ↦ rw same h
    | inr other ↦
        let apart : (k == j || has j (keys d)) ≡ false = ground (arith, h.0) in
        rw other (has-set_default_other d j ∙ apart, set_default-Distinct d h.1)
  ]

  pub set_default-AllBelow :
      (n : ℕ) (d : List (ℕ × V))
      → k < n
      → AllBelow n (keys d)
      → AllBelow n (keys (set_default k v d))
  unfolding set_default
  set_default-AllBelow n [] lt h = (lt, tt)
  set_default-AllBelow n ((j, w) ∷ d) lt h = elim (Bool-cases (j == k)) [
    | inl same ↦ rw same h
    | inr other ↦ rw other (h.0, set_default-AllBelow n d lt h.1)
  ]

  pub length-set_default :
      (d : List (ℕ × V))
      → (length d ≤ length (set_default k v d)) × (length (set_default k v d) ≤ suc (length d))
  unfolding set_default
  length-set_default [] = omega arith
  length-set_default ((j, w) ∷ d) = ground (arith, length-set_default d)

pub length-keys {ℓ} : {V : Type ℓ} (d : List (ℕ × V)) → length (keys d) ≡ length d
length-keys [] = refl
length-keys ((k, v) ∷ d) = ap suc (length-keys d)
