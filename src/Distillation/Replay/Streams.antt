-- ===== src/Distillation/Replay/Streams.antt =====
-- The recurrent streams of the retained chunks in pyrl_trainer/distillation_replay.py:
-- `stream_partition`, `event_weights`, `_boundary`, `segments` and `raw_counts`.
pub mod Positions
pub mod Counts
mod Tests
pub mod Selection
use py_rl_trainer.Prelude.{
  ℕ, zero, suc, ◌+◌, ◌-◌, ◌*◌, ◌/◌, ◌%◌, ◌^◌, Bool, true, false, not, ◌&&◌, ◌||◌, Option, none,
  some, List, [], ◌∷◌, ◌++◌, ok, err, ◌>>=◌, ◌>>◌, map, ltb, leb, ◌==◌, length, take, if◌then◌else◌,
}
use py_rl_trainer.Prelude.Int.{pos}
use py_rl_trainer.Wire.{int}
use py_rl_trainer.Wire.Str.{Text, codes, text_eq}
use py_rl_trainer.Distillation.Transport.{
  Checked, integer, TeacherChunk, Row, DatasetManifest, row_count, attribute_error,
}
use py_rl_trainer.Distillation.Hashing.{Sha256, Bytes}
use py_rl_trainer.Distillation.Client.{last_row}
use py_rl_trainer.Distillation.Replay.{TeacherReplay}

-- `SequenceBoundary` of sequence_distillation.py, by the members that the replay uses
pub data SequenceBoundary : Type 0 where
  capture_start generation life gap continue : SequenceBoundary

pub data Partition : Type 0 where
  training validation : Partition

-- `n` as `size` bytes, the least first: `struct.pack` with `<`
unfoldable pub little_endian : ℕ → ℕ → Bytes
little_endian zero n = []
little_endian (suc size) n = n % 256 ∷ little_endian size (n / 256)

-- `int.from_bytes(data, "little")`
unfoldable pub from_little : Bytes → ℕ
from_little [] = 0
from_little (b ∷ bs) = b + 256 * from_little bs

-- `PARTITION_DOMAIN`
abbrev pub partition_domain : Bytes
partition_domain = codes "slither.distillation-partition.v1" ++ 0 ∷ []

-- `stream_partition(run_seed, baseline_slot, generation)`
unfoldable pub stream_partition : Sha256 → ℕ → ℕ → ℕ → Checked Partition
unfolding integer little_endian from_little
stream_partition sha run_seed baseline_slot epoch = do
  integer (int (pos run_seed)) 0 (2 ^ 32 - 1)
  integer (int (pos baseline_slot)) 0 119
  integer (int (pos epoch)) 1 (2 ^ 64 - 1)
  let packed = little_endian 4 run_seed ++ (little_endian 4 baseline_slot ++ little_endian 8 epoch)
  let head = take 8 (sha.digest (partition_domain ++ packed))
  ok (if from_little head % 5 == 0 then validation else training)

-- `event_weights(chunk)`: the Float32 weights, which are whole
unfoldable pub event_weights : TeacherChunk → List ℕ
event_weights chunk =
    map (λ row. if row.strata == 0 then 1 else 4) (chunk.first_row ∷ chunk.later_rows)

pub record ReplaySegment : Type 0 where
  pub chunk : TeacherChunk
  pub boundary : SequenceBoundary
  pub partition : Partition

-- the chunk does not join the end of the previous one of its slot
unfoldable pub is_broken : TeacherChunk → TeacherChunk → Bool
is_broken previous chunk =
    let final = last_row previous.first_row previous.later_rows in
    not (previous.generation == chunk.generation)
    || not (chunk.first_row.ordinal == final.ordinal + 1)
    || leb chunk.first_row.step final.step

-- `_boundary`, after the recorded resets, for a slot with a previous chunk
unfoldable pub joined : TeacherChunk → TeacherChunk → SequenceBoundary
unfolding is_broken
joined previous chunk =
    if is_broken previous chunk
    then gap
    else if text_eq chunk.start_reason (codes "physicalLifeStart")
    then (if not (previous.physical_snake_id == chunk.physical_snake_id)
          && text_eq previous.end_reason (codes "lifeEnded")
        then life
        else gap)
    else if chunk.physical_snake_id == previous.physical_snake_id
        && (text_eq previous.end_reason (codes "maximumSamples")
            || text_eq previous.end_reason (codes "simulatedSecond"))
    then continue
    else gap

abbrev after_gap : Option TeacherChunk → TeacherChunk → SequenceBoundary
after_gap none chunk = gap
after_gap (some previous) chunk =
    if text_eq chunk.start_reason (codes "gap") then gap else joined previous chunk

-- `_boundary(previous, chunk)`
unfoldable pub boundary_of : Option TeacherChunk → TeacherChunk → SequenceBoundary
unfolding joined
boundary_of previous chunk =
    if text_eq chunk.start_reason (codes "captureStart")
    then capture_start
    else if text_eq chunk.start_reason (codes "generationStart")
    then generation
    else after_gap previous chunk

-- the dictionary `previous`, the newest entry first
abbrev pub Latest : Type 0
Latest = List (ℕ × TeacherChunk)

-- `previous.get(slot)`
unfoldable pub get : ℕ → Latest → Option TeacherChunk
get slot [] = none
get slot ((key, chunk) ∷ rest) =
    let later = get slot rest in if key == slot then some chunk else later

-- `partition is None or selected == partition`
unfoldable pub is_selected : Option Partition → Partition → Bool
is_selected none selected = true
is_selected (some training) training = true
is_selected (some validation) validation = true
is_selected (some wanted) selected = false

-- the loop of `segments`
unfoldable pub segments_from :
    Sha256 → ℕ → Option Partition → Latest → List TeacherChunk → Checked (List ReplaySegment)
segments_from sha run_seed wanted previous [] = ok []
segments_from sha run_seed wanted previous (chunk ∷ rest) = do
  selected ← stream_partition sha run_seed chunk.baseline_slot chunk.generation
  let boundary = boundary_of (get chunk.baseline_slot previous) chunk
  later ← segments_from sha run_seed wanted ((chunk.baseline_slot, chunk) ∷ previous) rest
  let own : ReplaySegment = record { chunk = chunk; boundary = boundary; partition = selected }
  ok (if is_selected wanted selected then own ∷ later else later)

-- `list(replay.segments(partition))`, for one of the two partitions or none. Without a manifest
-- the loop's first subscript fails, if there is a chunk.
unfoldable pub segments : Sha256 → TeacherReplay → Option Partition → Checked (List ReplaySegment)
segments sha replay wanted = elim replay.manifest [
  | some manifest ↦ segments_from sha manifest.run_seed wanted [] replay.chunks
  | none ↦ elim replay.chunks [ [] ↦ ok [] | chunk ∷ rest ↦ err attribute_error ]
]

-- `value & (1 << index) != 0`
unfoldable pub has_bit : ℕ → ℕ → Bool
has_bit index value = value / 2 ^ index % 2 == 1

-- `np.count_nonzero` of a test on the rows
unfoldable pub count_rows : (Row → Bool) → List Row → ℕ
count_rows test [] = 0
count_rows test (row ∷ rest) = (if test row then 1 else 0) + count_rows test rest

unfoldable pub count_chunks : (Row → Bool) → List TeacherChunk → ℕ
unfolding count_rows
count_chunks test [] = 0
count_chunks test (chunk ∷ rest) =
    count_rows test (chunk.first_row ∷ chunk.later_rows) + count_chunks test rest

pub record RawCounts : Type 0 where
  pub hazard : ℕ
  pub pursuit_escape : ℕ
  pub boost : ℕ
  pub transition : ℕ
  pub saturation : ℕ
  pub respawn : ℕ
  pub samples : ℕ
  pub cruising : ℕ
  pub boost_request : ℕ
  pub realized_boost : ℕ
  pub post_step_death : ℕ

abbrev pub stratum : ℕ → Row → Bool
stratum index row = has_bit index row.strata

abbrev pub flag : ℕ → Row → Bool
flag index row = has_bit index row.flags

-- `raw_counts()`, key by key
unfoldable pub raw_counts : TeacherReplay → RawCounts
raw_counts replay = record {
  hazard = count_chunks (stratum 0) replay.chunks;
  pursuit_escape = count_chunks (stratum 1) replay.chunks;
  boost = count_chunks (stratum 2) replay.chunks;
  transition = count_chunks (stratum 3) replay.chunks;
  saturation = count_chunks (stratum 4) replay.chunks;
  respawn = count_chunks (stratum 5) replay.chunks;
  samples = count_chunks (λ row. true) replay.chunks;
  cruising = count_chunks (λ row. row.strata == 0) replay.chunks;
  boost_request = count_chunks (flag 0) replay.chunks;
  realized_boost = count_chunks (flag 1) replay.chunks;
  post_step_death = count_chunks (flag 2) replay.chunks;
}
