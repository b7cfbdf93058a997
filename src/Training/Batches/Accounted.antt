-- ===== src/Training/Batches/Accounted.antt =====
-- Where the transitions of the asynchronous learner go.
use py_rl_trainer.Prelude.{
  ℕ, ◌+◌, ◌≤◌, ◌<◌, ◌≡◌, refl, inl, inr, false, List, [], ◌∷◌, ◌++◌, arith, length, ◌==◌,
  if◌then◌else◌, Bool-cases,
}
use py_rl_trainer.Prelude.Int.{ℤ}
use py_rl_trainer.Prelude.Dict.{find, insert, remove}
use py_rl_trainer.Training.Segments.Cover.{AllVersion}
use py_rl_trainer.Training.Batches.{
  Item, Batch, Learner, steps_of, is_obsolete, items_of, obsolete_steps, without_obsolete,
}

-- the transitions that wait
abbrev pub held : List (ℕ × List Item) → ℕ
held [] = 0
held ((version, items) ∷ d) = steps_of items + held d

-- the transitions that an update took
abbrev pub learned : List Batch → ℕ
learned [] = 0
learned (b ∷ rest) = (if b.is_stale then 0 else steps_of b.items) + learned rest

abbrev pub AllItems : ℕ → List Item → Type 0
AllItems version [] = Unit
AllItems version ((segment, bootstrap) ∷ items) =
    AllVersion version segment × AllItems version items

-- the segments under a version are of that version
abbrev pub AllCoherent : List (ℕ × List Item) → Type 0
AllCoherent [] = Unit
AllCoherent ((version, items) ∷ d) = AllItems version items × AllCoherent d

abbrev pub AllFresh : ℤ → List (ℕ × List Item) → Type 0
AllFresh mark [] = Unit
AllFresh mark ((version, items) ∷ d) = (is_obsolete mark version ≡ false) × AllFresh mark d

-- the mark has passed every version before that of the last batch, and that one too if it was stale
abbrev pub Passed : ℤ → List Batch → Type 0
Passed mark [] = Unit
Passed mark (b ∷ rest) =
    (v : ℕ) → is_obsolete mark v ≡ false → if b.is_stale then b.version < v else b.version ≤ v

-- a batch after those before it
abbrev pub Ordered : Batch → List Batch → Type 0
Ordered b [] = Unit
Ordered b (c ∷ rest) = if c.is_stale then c.version < b.version else c.version ≤ b.version

-- batches, the last one first: one version each, and never an older one or a refused one again
abbrev pub AreBatches : List Batch → Type 0
AreBatches [] = Unit
AreBatches (b ∷ rest) = AllItems b.version b.items × Ordered b rest × AreBatches rest

pub record IsAccounted (l : Learner) : Type 0 where
  pub conserved :
      l.total_steps ≡ l.dropped_stale_steps + held l.pending_by_version + learned l.batches
  pub coherent : AllCoherent l.pending_by_version
  pub fresh : AllFresh l.stale_before_or_equal l.pending_by_version
  pub passed : Passed l.stale_before_or_equal l.batches
  pub ordered : AreBatches l.batches

steps_of-append : (xs ys : List Item) → steps_of (xs ++ ys) ≡ steps_of xs + steps_of ys
steps_of-append [] ys = omega arith
steps_of-append ((s, b) ∷ xs) ys = omega (arith, steps_of-append xs ys)

pub AllItems-append :
    (v : ℕ) (xs ys : List Item) → AllItems v xs → AllItems v ys → AllItems v (xs ++ ys)
AllItems-append v [] ys h k = k
AllItems-append v ((s, b) ∷ xs) ys h k = (h.0, AllItems-append v xs ys h.1 k)

module _ (v : ℕ) where
  -- one more segment under its version
  pub held-insert :
      (d : List (ℕ × List Item)) (x : Item)
      → held (insert v (items_of (find v d) ++ (x ∷ [])) d) ≡ held d + length x.0
  unfolding insert find
  held-insert [] x = omega arith
  held-insert ((j, items) ∷ d) x = ground (arith, held-insert d x, steps_of-append items (x ∷ []))

  pub AllCoherent-insert :
      (d : List (ℕ × List Item)) (items : List Item)
      → AllCoherent d
      → AllItems v items
      → AllCoherent (insert v items d)
  unfolding insert
  AllCoherent-insert [] items h k = (k, tt)
  AllCoherent-insert ((j, old) ∷ d) items h k = elim (Bool-cases (j == v)) [
    | inl same ↦ let e : j ≡ v = ground arith in rw (same, e) (k, h.1)
    | inr other ↦ rw other (h.0, AllCoherent-insert d items h.1 k)
  ]

  pub AllFresh-insert :
      (mark : ℤ) (d : List (ℕ × List Item)) (items : List Item)
      → AllFresh mark d
      → is_obsolete mark v ≡ false
      → AllFresh mark (insert v items d)
  unfolding insert
  AllFresh-insert mark [] items h k = (k, tt)
  AllFresh-insert mark ((j, old) ∷ d) items h k = elim (Bool-cases (j == v)) [
    | inl same ↦ rw same h
    | inr other ↦ rw other (h.0, AllFresh-insert mark d items h.1 k)
  ]

  pub find-AllItems : (d : List (ℕ × List Item)) → AllCoherent d → AllItems v (items_of (find v d))
  unfolding find
  find-AllItems [] h = tt
  find-AllItems ((j, old) ∷ d) h = elim (Bool-cases (j == v)) [
    | inl same ↦ let e : v ≡ j = ground arith in rw (same, e) h.0
    | inr other ↦ rw other (find-AllItems d h.1)
  ]

  pub held-remove :
      (d : List (ℕ × List Item)) → held d ≡ steps_of (items_of (find v d)) + held (remove v d)
  unfolding find remove
  held-remove [] = refl
  held-remove ((j, old) ∷ d) = ground (arith, held-remove d)

  pub AllCoherent-remove : (d : List (ℕ × List Item)) → AllCoherent d → AllCoherent (remove v d)
  unfolding remove
  AllCoherent-remove [] h = h
  AllCoherent-remove ((j, old) ∷ d) h = elim (Bool-cases (j == v)) [
    | inl same ↦ rw same h.1
    | inr other ↦ rw other (h.0, AllCoherent-remove d h.1)
  ]

module _ (mark : ℤ) where
  pub held-without :
      (d : List (ℕ × List Item)) → held d ≡ obsolete_steps mark d + held (without_obsolete mark d)
  unfolding obsolete_steps without_obsolete
  held-without [] = refl
  held-without ((j, old) ∷ d) = elim (Bool-cases (is_obsolete mark j)) [
    | inl gone ↦ rw gone (omega (arith, held-without d))
    | inr kept ↦ rw kept (omega (arith, held-without d))
  ]

  pub without_obsolete-kept :
      (d : List (ℕ × List Item))
      → AllCoherent d
      → AllCoherent (without_obsolete mark d) × AllFresh mark (without_obsolete mark d)
  unfolding without_obsolete
  without_obsolete-kept [] h = (tt, tt)
  without_obsolete-kept ((j, old) ∷ d) h =
      let (coherent, fresh) = without_obsolete-kept d h.1 in
      elim (Bool-cases (is_obsolete mark j)) [
        | inl gone ↦ rw gone (coherent, fresh)
        | inr kept ↦ rw kept ((h.0, coherent), (kept, fresh))
      ]
