-- ===== src/Distillation/Handover/Tiling.antt =====
-- The client's gaps and its chunks tile the numbers between the cursors.
use py_rl_trainer.Prelude.{
  ℕ, ◌+◌, ◌-◌, ◌≤◌, ◌<◌, ◌≡◌, refl, ap, ◌∙◌, Bool, true, false, some, List, [], ◌∷◌, ◌++◌, arith,
  ltb, if◌then◌else◌, Bool-cases, inl, inr,
}
use py_rl_trainer.Distillation.Transport.{TeacherChunk}
use py_rl_trainer.Distillation.Intervals.{Interval, interval_leb, insert, sorted, cover}
use py_rl_trainer.Distillation.Intervals.Sorting.{sorted_middle}
use py_rl_trainer.Distillation.Client.{TeacherDescriptor, gaps_between, last_sequence}
use py_rl_trainer.Distillation.Replay.{chunk_intervals}

-- descriptors in order, from above `previous` to at most `resolved`
abbrev pub Rises : ℕ → ℕ → List TeacherDescriptor → Type 0
Rises previous resolved [] = Unit
Rises previous resolved (d ∷ rest) =
    (previous < d.sequence) × (d.sequence ≤ resolved) × Rises d.sequence resolved rest

-- each chunk carries its descriptor's number
abbrev pub Numbered : List TeacherChunk → List TeacherDescriptor → Type 0
Numbered [] [] = Unit
Numbered (c ∷ cs) (d ∷ ds) = (c.sequence ≡ d.sequence) × Numbered cs ds
Numbered _ _ = ⊥

-- gaps and chunks in the order of the numbers, then `tail`
abbrev pub tile : ℕ → List TeacherDescriptor → List Interval → List Interval
tile cursor [] tail = tail
tile cursor (d ∷ rest) tail =
    if ltb (cursor + 1) d.sequence
    then (cursor + 1, d.sequence - 1) ∷ (d.sequence, d.sequence) ∷ tile d.sequence rest tail
    else (d.sequence, d.sequence) ∷ tile d.sequence rest tail

abbrev Above : ℕ → List Interval → Type 0
Above k [] = Unit
Above k ((low, high) ∷ rest) = k < low

insert-front : (x : Interval) (l : List Interval) → Above x.0 l → insert x l ≡ x ∷ l
unfolding insert interval_leb
insert-front x [] h = refl
insert-front x (y ∷ ys) h = ground arith

insert-past : (x y : Interval) (l : List Interval) → y.0 < x.0 → insert x (y ∷ l) ≡ y ∷ insert x l
unfolding insert interval_leb
insert-past x y l h = ground arith

sorted_cons : (x : Interval) (l : List Interval) → sorted (x ∷ l) ≡ insert x (sorted l)
unfolding sorted
sorted_cons x l = refl

tail-Above :
    (k : ℕ) (tail : List Interval) (cursor : ℕ) → k ≤ cursor → Above cursor tail → Above k tail
tail-Above k [] cursor le h = tt
tail-Above k (x ∷ rest) cursor le h = omega arith

tile-Above :
    (cursor resolved : ℕ) (ds : List TeacherDescriptor) (tail : List Interval)
    → Rises cursor resolved ds
    → Above (last_sequence cursor ds) tail
    → Above cursor (tile cursor ds tail)
unfolding last_sequence
tile-Above cursor resolved [] tail h a = a
tile-Above cursor resolved (d ∷ rest) tail h a = ground arith

sorted_tiles :
    (cursor resolved : ℕ) (cs : List TeacherChunk) (ds : List TeacherDescriptor)
    (tail : List Interval)
    → Rises cursor resolved ds
    → Numbered cs ds
    → Above (last_sequence cursor ds) tail
    → sorted tail ≡ tail
    → sorted (chunk_intervals cs ++ (gaps_between cursor ds ++ tail)) ≡ tile cursor ds tail
unfolding chunk_intervals gaps_between last_sequence
sorted_tiles cursor resolved [] [] tail h n a s = s
sorted_tiles cursor resolved [] (d ∷ ds) tail h n a s = absurd n
sorted_tiles cursor resolved (c ∷ cs) [] tail h n a s = absurd n
sorted_tiles cursor resolved (c ∷ cs) (d ∷ ds) tail h n a s =
    let later = chunk_intervals cs in
    let more = gaps_between d.sequence ds ++ tail in
    let rest = tile d.sequence ds tail in
    let ih : sorted (later ++ more) ≡ rest =
      sorted_tiles d.sequence resolved cs ds tail h.2 n.1 a s in
    let above : Above d.sequence rest = tile-Above d.sequence resolved ds tail h.2 a in
    let own : Interval = (d.sequence, d.sequence) in
    let gap : Interval = (cursor + 1, d.sequence - 1) in
    elim (Bool-cases (ltb (cursor + 1) d.sequence)) [
      | inl jump ↦
          let gap_leads : insert gap rest ≡ gap ∷ rest =
            insert-front gap rest (tail-Above (cursor + 1) rest d.sequence (ground arith) above) in
          rw (jump, n.0)
            (sorted_cons own (later ++ gap ∷ more)
              ∙ ap (insert own) (sorted_middle later more gap ∙ ap (insert gap) ih ∙ gap_leads)
              ∙ insert-past own gap rest (ground arith)
              ∙ ap (λ l. gap ∷ l) (insert-front own rest above))
      | inr next ↦
          rw (next, n.0)
            (sorted_cons own (later ++ more) ∙ ap (insert own) ih ∙ insert-front own rest above)
    ]

cover-tile :
    (cursor resolved : ℕ) (ds : List TeacherDescriptor) (tail : List Interval)
    → Rises cursor resolved ds
    → cover cursor (tile cursor ds tail) ≡ cover (last_sequence cursor ds) tail
unfolding cover last_sequence
cover-tile cursor resolved [] tail h = refl
cover-tile cursor resolved (d ∷ rest) tail h =
    ground (arith, cover-tile d.sequence resolved rest tail h.2)

abbrev pub tail_gap : Bool → ℕ → ℕ → List Interval
tail_gap tail last resolved = if tail then (last + 1, resolved) ∷ [] else []

-- The client's gaps, with the settled tail or without, and its chunks cover the way from its
-- cursor to the next one.
pub proposal_covers :
    (cursor resolved : ℕ) (cs : List TeacherChunk) (ds : List TeacherDescriptor) (tail : Bool)
    → Rises cursor resolved ds
    → Numbered cs ds
    → let last = last_sequence cursor ds in
      cover cursor
        (sorted (chunk_intervals cs ++ (gaps_between cursor ds ++ tail_gap tail last resolved)))
      ≡ some (if tail then resolved else last)
proposal_covers cursor resolved cs ds true h n =
    let last = last_sequence cursor ds in
    rw
      (sorted_tiles cursor resolved cs ds ((last + 1, resolved) ∷ []) h n (omega arith)
        (unfold sorted insert in refl))
      (rw (cover-tile cursor resolved ds ((last + 1, resolved) ∷ []) h)
        (unfold cover in ground arith))
proposal_covers cursor resolved cs ds false h n =
    rw (sorted_tiles cursor resolved cs ds [] h n tt (unfold sorted in refl))
      (rw (cover-tile cursor resolved ds [] h) (unfold cover in refl))
