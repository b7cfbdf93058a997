-- ===== src/Distillation/Transport/Rows.antt =====
-- The row loop of `TeacherChunk.decode` in pyrl_trainer/distillation_transport.py, on the samples
-- that `struct` and numpy read from the chunk's bytes, and the test after it.
pub mod Stream
mod Tests
use py_rl_trainer.Prelude.{
  ℕ, ◌+◌, ◌-◌, ◌/◌, ◌%◌, ◌^◌, Bool, true, false, not, ◌&&◌, ◌||◌, List, [], ◌∷◌, Option, none, some,
  ok, err, ◌>>=◌, ◌>>◌, guard, ltb, leb, ◌==◌, length, if◌then◌else◌,
}
use py_rl_trainer.Distillation.Transport.{
  Checked, Row, sample_metadata, teacher_action, stream_chronology, observation, physical_boundary,
}

-- One `SAMPLE` record and the Float32 observations after it, by their bit patterns.
pub record Sample : Type 0 where
  pub step : ℕ
  pub ordinal : ℕ
  pub action : ℕ
  pub flag : ℕ
  pub policy : ℕ
  pub stage : ℕ
  pub stratum : ℕ
  pub observations : List ℕ

-- a finite Float32 of magnitude at most 1
unfoldable pub is_normalized : ℕ → Bool
is_normalized x = not (x / 2 ^ 23 % 256 == 255) && leb (x % 2 ^ 31) 1065353216

unfoldable pub all_normalized : List ℕ → Bool
unfolding is_normalized
all_normalized [] = true
all_normalized (x ∷ xs) = is_normalized x && all_normalized xs

-- `flag & 4`
unfoldable pub is_dead : ℕ → Bool
is_dead flag = flag / 4 % 2 == 1

-- `flag & 8`
unfoldable pub starts_life : ℕ → Bool
starts_life flag = flag / 8 % 2 == 1

-- `previous_step`, `previous_ordinal` and `previous_dead`
pub record Previous : Type 0 where
  pub step : ℕ
  pub ordinal : ℕ
  pub dead : Bool

-- `not (index and (…))`
unfoldable pub follows_row : Option Previous → Sample → Bool
follows_row none sample = true
follows_row (some previous) sample =
    ltb previous.step sample.step
    && sample.ordinal == previous.ordinal + 1
    && not previous.dead
    && not (starts_life sample.flag)

-- one round of the loop
unfoldable pub decode_row : Option Previous → Sample → Checked Row
unfolding all_normalized
decode_row previous sample = do
  guard
      (not (sample.step == 0)
        && not (sample.ordinal == 0)
        && ltb sample.flag 16
        && leb sample.policy 3
        && leb sample.stage 2
        && ltb sample.stratum 64)
      sample_metadata
  guard (is_normalized sample.action) teacher_action
  guard (follows_row previous sample) stream_chronology
  guard (all_normalized sample.observations) observation
  ok (record {
    step = sample.step;
    ordinal = sample.ordinal;
    flags = sample.flag;
    strata = sample.stratum;
  })

unfoldable pub decode_rows : Option Previous → List Sample → Checked (List Row)
decode_rows previous [] = ok []
decode_rows previous (sample ∷ rest) = do
  row ← decode_row previous sample
  let now : Previous = record {
    step = sample.step;
    ordinal = sample.ordinal;
    dead = is_dead sample.flag;
  }
  rows ← decode_rows (some now) rest
  ok (row ∷ rows)

-- the step of the last row
unfoldable pub last_step : Row → List Row → ℕ
last_step row [] = row.step
last_step row (later ∷ rest) = last_step later rest

unfoldable pub last_ordinal : Row → List Row → ℕ
last_ordinal row [] = row.ordinal
last_ordinal row (later ∷ rest) = last_ordinal later rest

-- the test after the loop: `start` is the index of the start reason
unfoldable pub check_boundary : ℕ → Row → List Row → Checked Unit
unfolding starts_life last_step
check_boundary start first later =
    guard
      (leb (last_step first later) (first.step + 60)
        && not (start == 1 && not (starts_life first.flags))
        && not (start == 2 && starts_life first.flags))
      physical_boundary

-- the loop and the test; the header has shown that there is a row
unfoldable pub decode_samples : ℕ → Sample → List Sample → Checked (Row × List Row)
unfolding check_boundary
decode_samples start sample rest = do
  first ← decode_row none sample
  let now : Previous = record {
    step = sample.step;
    ordinal = sample.ordinal;
    dead = is_dead sample.flag;
  }
  later ← decode_rows (some now) rest
  check_boundary start first later
  ok (first, later)
