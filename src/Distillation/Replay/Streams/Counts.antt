-- ===== src/Distillation/Replay/Streams/Counts.antt =====
-- The raw counts of a replay against its samples, by the binary weights of their labels.
use native.Mathlib.Nat.{div-add-mod', div-eq_of_lt-le, mod-lt, add-mul}
use py_rl_trainer.Prelude.{
  [], ℕ, ◌+◌, ◌*◌, ◌/◌, ◌%◌, ◌^◌, ◌<◌, ◌≡◌, refl, sym, ap, ◌∙◌, Bool, true, false, List, ◌∷◌, ◌++◌,
  arith, ◌==◌, length, Bool-cases, inl, inr,
}
use py_rl_trainer.Distillation.Transport.{TeacherChunk, Row}
use py_rl_trainer.Distillation.Replay.{TeacherReplay}
use py_rl_trainer.Distillation.Replay.Streams.{
  has_bit, count_rows, count_chunks, RawCounts, raw_counts, stratum, flag,
}

-- In binary, `n` has the digit one at the weight `w`: what stands above it, and what below.
abbrev pub HasWeight : ℕ → ℕ → Type 0
HasWeight w n = (above below : ℕ) × (n ≡ (2 * above + 1) * w + below) × (below < w)

-- how many rows are of the kind `P`
pub data Counts (P : Row → Type 0) : List Row → ℕ → Type 0 where
  none_left : Counts P [] 0
  hit :
      {rows : List Row} {n : ℕ}
      → (row : Row) → P row
      → Counts P rows n
      → Counts P (row ∷ rows) (1 + n)
  miss :
      {rows : List Row} {n : ℕ}
      → (row : Row) → (P row → ⊥)
      → Counts P rows n
      → Counts P (row ∷ rows) n

-- the retained samples, in order
abbrev pub rows_of : List TeacherChunk → List Row
rows_of [] = []
rows_of (chunk ∷ rest) = (chunk.first_row ∷ chunk.later_rows) ++ rows_of rest

digit-HasWeight : (w n : ℕ) → 0 < w → n / w % 2 ≡ 1 → HasWeight w n
digit-HasWeight w n positive h =
    let odd : n / w ≡ 2 * (n / w / 2) + 1 = omega arith in
    (n / w / 2, n % w, sym (div-add-mod' n w) ∙ ap (λ k. k * w + n % w) odd, mod-lt n positive)

HasWeight-digit : (w n : ℕ) → HasWeight w n → n / w % 2 ≡ 1
HasWeight-digit w n (above, below, made, small) =
    let k = 2 * above + 1 in
    let over : (k + 1) * w ≡ k * w + 1 * w = add-mul k 1 w in
    let whole : n / w ≡ k =
      div-eq_of_lt-le w (ground (arith, made)) (rw over (ground (arith, made, small))) in
    let odd : k % 2 ≡ 1 = omega arith in ap (λ q. q % 2) whole ∙ odd

Counts-eq :
    {P : Row → Type 0} {rows : List Row} {m n : ℕ} → m ≡ n → Counts P rows m → Counts P rows n
Counts-eq same counted = rw (← same) counted

-- what a test decides of every row
record Decides (P : Row → Type 0) (test : Row → Bool) : Type 0 where
  yes : (row : Row) → test row ≡ true → P row
  no : (row : Row) → test row ≡ false → ¬ P row

count_rows-Counts :
    {P : Row → Type 0} (test : Row → Bool)
    → Decides P test
    → (rows : List Row) → Counts P rows (count_rows test rows)
unfolding count_rows
count_rows-Counts test d [] = none_left
count_rows-Counts test d (row ∷ rest) = elim (Bool-cases (test row)) [
  | inl passed ↦ rw passed (hit row (d.yes row passed) (count_rows-Counts test d rest))
  | inr failed ↦
      rw failed
        (Counts-eq (omega arith) (miss row (d.no row failed) (count_rows-Counts test d rest)))
]

Counts-append :
    {P : Row → Type 0} {front back : List Row} {m n : ℕ}
    → Counts P front m
    → Counts P back n
    → Counts P (front ++ back) (m + n)
Counts-append none_left b = Counts-eq (omega arith) b
Counts-append (hit row h a) b = Counts-eq (omega arith) (hit row h (Counts-append a b))
Counts-append (miss row h a) b = miss row h (Counts-append a b)

count_chunks-Counts :
    {P : Row → Type 0} (test : Row → Bool)
    → Decides P test
    → (chunks : List TeacherChunk) → Counts P (rows_of chunks) (count_chunks test chunks)
unfolding count_chunks
count_chunks-Counts test d [] = none_left
count_chunks-Counts test d (chunk ∷ rest) =
    Counts-append (count_rows-Counts test d (chunk.first_row ∷ chunk.later_rows))
      (count_chunks-Counts test d rest)

-- the test of a digit, in a field of the rows
bit-Decides :
    (field : Row → ℕ) (index : ℕ)
    → 0 < 2 ^ index
    → Decides (λ row. HasWeight (2 ^ index) (field row)) (λ row. has_bit index (field row))
unfolding has_bit
bit-Decides field index positive = record {
  yes = λ row h. digit-HasWeight (2 ^ index) (field row) positive (ground arith);
  no = λ row h w. let digit = HasWeight-digit (2 ^ index) (field row) w in ground arith;
}

-- how many of the rows have each label: in its own field, at its own weight
pub record AreCounts (rows : List Row) (counts : RawCounts) : Type 0 where
  pub samples : counts.samples ≡ length rows
  pub cruising : Counts (λ row. row.strata ≡ 0) rows counts.cruising
  pub hazard : Counts (λ row. HasWeight 1 row.strata) rows counts.hazard
  pub pursuit_escape : Counts (λ row. HasWeight 2 row.strata) rows counts.pursuit_escape
  pub boost : Counts (λ row. HasWeight 4 row.strata) rows counts.boost
  pub transition : Counts (λ row. HasWeight 8 row.strata) rows counts.transition
  pub saturation : Counts (λ row. HasWeight 16 row.strata) rows counts.saturation
  pub respawn : Counts (λ row. HasWeight 32 row.strata) rows counts.respawn
  pub boost_request : Counts (λ row. HasWeight 1 row.flags) rows counts.boost_request
  pub realized_boost : Counts (λ row. HasWeight 2 row.flags) rows counts.realized_boost
  pub post_step_death : Counts (λ row. HasWeight 4 row.flags) rows counts.post_step_death

Counts-length : {rows : List Row} {n : ℕ} → Counts (λ row. Unit) rows n → n ≡ length rows
Counts-length none_left = refl
Counts-length (hit row h rest) = ground (arith, Counts-length rest)
Counts-length (miss row h rest) = absurd (h tt)

-- `raw_counts` of any replay counts exactly the retained rows of each kind: every row as a sample,
-- a row without strata as cruising, and a row for a stratum or a flag exactly where its strata or
-- its flags have, in binary, the digit of the label's weight: 1, 2, 4, 8, 16 and 32 for hazard,
-- pursuit escape, boost, transition, saturation and respawn, and 1, 2 and 4 for boost request,
-- realized boost and death after the step.
pub raw_counts-AreCounts : (r : TeacherReplay) → AreCounts (rows_of r.chunks) (raw_counts r)
unfolding raw_counts
raw_counts-AreCounts r =
    let strata : (index : ℕ)
        → 0 < 2 ^ index
        → Counts (λ row. HasWeight (2 ^ index) row.strata) (rows_of r.chunks)
            (count_chunks (stratum index) r.chunks) =
      λ index positive.
        count_chunks-Counts (stratum index) (bit-Decides (λ row. row.strata) index positive)
          r.chunks in
    let flags : (index : ℕ)
        → 0 < 2 ^ index
        → Counts (λ row. HasWeight (2 ^ index) row.flags) (rows_of r.chunks)
            (count_chunks (flag index) r.chunks) =
      λ index positive.
        count_chunks-Counts (flag index) (bit-Decides (λ row. row.flags) index positive) r.chunks in
    record {
      samples = Counts-length (
          count_chunks-Counts (λ row. true) (record { yes = λ row h. tt; no = λ row h. cc h })
            r.chunks);
      cruising =
          count_chunks-Counts (λ row. row.strata == 0)
            (record { yes = λ row h. ground arith; no = λ row h e. ground arith }) r.chunks;
      hazard = strata 0 (omega arith);
      pursuit_escape = strata 1 (omega arith);
      boost = strata 2 (omega arith);
      transition = strata 3 (omega arith);
      saturation = strata 4 (omega arith);
      respawn = strata 5 (omega arith);
      boost_request = flags 0 (omega arith);
      realized_boost = flags 1 (omega arith);
      post_step_death = flags 2 (omega arith);
    }
