-- ===== src/Distillation/Transport/Rows/Stream.antt =====
-- What the row loop has established of the rows that it returns.
use py_rl_trainer.Prelude.{
  ℕ, ◌+◌, ◌≤◌, ◌<◌, ◌≡◌, refl, inl, inr, true, false, List, [], ◌∷◌, Option, none, some, arith, ok,
  length, Result-cases,
}
use py_rl_trainer.Distillation.Transport.{Row}
use py_rl_trainer.Distillation.Transport.Rows.{
  Sample, Previous, decode_row, decode_rows, decode_samples, check_boundary, last_step,
  last_ordinal, is_dead, starts_life, follows_row,
}

-- each row goes on where the one before it stopped, which was alive
abbrev pub Runs : Row → List Row → Type 0
Runs row [] = Unit
Runs row (later ∷ rest) =
    (row.step < later.step)
    × (later.ordinal ≡ row.ordinal + 1)
    × (is_dead row.flags ≡ false)
    × (starts_life later.flags ≡ false)
    × Runs later rest

decode_row-eq-ok :
    (previous : Option Previous) (sample : Sample) {row : Row}
    → decode_row previous sample ≡ ok row
    → (follows_row previous sample ≡ true)
      × (0 < sample.step)
      × (0 < sample.ordinal)
      × (row.step ≡ sample.step)
      × (row.ordinal ≡ sample.ordinal)
      × (row.flags ≡ sample.flag)
unfolding decode_row
decode_row-eq-ok previous sample h =
    (ground arith, ground arith, ground arith, ground arith, ground arith, ground arith)

decode_rows-Runs :
    (row : Row) (previous : Previous) (samples : List Sample) {rows : List Row}
    → previous.step ≡ row.step
    → previous.ordinal ≡ row.ordinal
    → previous.dead ≡ is_dead row.flags
    → decode_rows (some previous) samples ≡ ok rows
    → Runs row rows × (length rows ≡ length samples)
unfolding decode_rows follows_row
decode_rows-Runs row previous [] {rows} at numbered alive h =
    let empty : rows ≡ [] = ground arith in rw empty (tt, refl)
decode_rows-Runs row previous (sample ∷ rest) {rows} at numbered alive h =
    let now : Previous = record {
      step = sample.step;
      ordinal = sample.ordinal;
      dead = is_dead sample.flag;
    } in
    elim (Result-cases (decode_row (some previous) sample)) [
      | inr (x, e) ↦ ground arith
      | inl (own, e) ↦ elim (Result-cases (decode_rows (some now) rest)) [
        | inr (x, k) ↦ ground arith
        | inl (later, k) ↦
            let (follows, low, positive, step, ordinal, flags) =
              decode_row-eq-ok (some previous) sample e in
            let tail =
              decode_rows-Runs own now rest (rw step refl) (rw ordinal refl) (rw flags refl) k in
            let made : rows ≡ own ∷ later = ground arith in
            rw made (
              (
                ground (arith, follows, step, at),
                ground (arith, follows, ordinal, numbered),
                ground (arith, follows, alive),
                rw flags (ground (arith, follows)),
                tail.0,
              ),
              omega (arith, tail.1),
            )
      ]
    ]

-- the ordinals count the rows, and the steps rise at least as fast
Runs-count :
    (row : Row) (later : List Row)
    → Runs row later
    → (last_ordinal row later ≡ row.ordinal + length later)
      × (row.step + length later ≤ last_step row later)
unfolding last_step last_ordinal
Runs-count row [] h = (omega arith, omega arith)
Runs-count row (next ∷ rest) h = omega (arith, Runs-count next rest h.4)

-- The rows of a chunk that `decode` accepts are as many as its samples. Each later row has the next
-- ordinal and a later step, follows a row that was alive and starts no life, and the whole chunk
-- meets the chronology that `TeacherDescriptor.from_object` asks of its descriptor: as many ordinals
-- as rows, at least as many steps, and at most 60 steps from the first row to the last.
pub decode_samples-Runs :
    (start : ℕ) (sample : Sample) (rest : List Sample) {first : Row} {later : List Row}
    → decode_samples start sample rest ≡ ok (first, later)
    → Runs first later
      × (length later ≡ length rest)
      × (last_ordinal first later + 1 ≡ first.ordinal + (length later + 1))
      × (first.step + (length later + 1) ≤ last_step first later + 1)
      × (last_step first later ≤ first.step + 60)
unfolding decode_samples check_boundary
decode_samples-Runs start sample rest {first} {later} h =
    let now : Previous = record {
      step = sample.step;
      ordinal = sample.ordinal;
      dead = is_dead sample.flag;
    } in
    elim (Result-cases (decode_row none sample)) [
      | inr (x, e) ↦ ground arith
      | inl (own, e) ↦ elim (Result-cases (decode_rows (some now) rest)) [
        | inr (x, k) ↦ ground arith
        | inl (rows, k) ↦
            let (follows, low, positive, step, ordinal, flags) = decode_row-eq-ok none sample e in
            let tail =
              decode_rows-Runs own now rest (rw step refl) (rw ordinal refl) (rw flags refl) k in
            let same : own ≡ first = ground arith in
            let rows_same : rows ≡ later = ground arith in
            let runs : Runs first later = rw (← same, ← rows_same) tail.0 in
            let count = Runs-count first later runs in
            (
              runs,
              rw (← rows_same) tail.1,
              omega (arith, count.0),
              omega (arith, count.1),
              ground arith,
            )
      ]
    ]
