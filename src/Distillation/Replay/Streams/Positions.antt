-- ===== src/Distillation/Replay/Streams/Positions.antt =====
-- Where a segment's boundary comes from: the last chunk of its slot before it.
use py_rl_trainer.Prelude.{
  ℕ, suc, ◌+◌, ◌<◌, ◌≡◌, refl, sym, ap, ◌∙◌, inl, inr, Option, none, some, List, [], ◌∷◌, ◌++◌,
  arith, ok, ◌==◌, length, Result-cases, if◌then◌else◌,
}
use py_rl_trainer.Distillation.Transport.{TeacherChunk, DatasetManifest}
use py_rl_trainer.Distillation.Hashing.{Sha256}
use py_rl_trainer.Distillation.Client.{last_row}
use py_rl_trainer.Distillation.Replay.{TeacherReplay}
use py_rl_trainer.Distillation.Replay.Streams.{
  continue, Partition, ReplaySegment, is_broken, joined, boundary_of, Latest, get, is_selected,
  segments_from, segments, stream_partition,
}

-- the last of these chunks in this slot
abbrev pub last_of : ℕ → List TeacherChunk → Option TeacherChunk → Option TeacherChunk
last_of slot [] earlier = earlier
last_of slot (chunk ∷ rest) earlier =
    last_of slot rest (if chunk.baseline_slot == slot then some chunk else earlier)

-- the segment of one chunk among the segments of all
pub record IsAt (before : List TeacherChunk) (chunk : TeacherChunk) (previous : Option TeacherChunk)
    (all : List ReplaySegment) : Type 0 where
  pub front : List ReplaySegment
  pub own : ReplaySegment
  pub back : List ReplaySegment
  pub split : all ≡ front ++ own ∷ back
  pub place : length front ≡ length before
  pub same : own.chunk ≡ chunk
  pub boundary : own.boundary ≡ boundary_of previous chunk

get-push :
    (slot : ℕ) (chunk : TeacherChunk) (previous : Latest)
    → get slot ((chunk.baseline_slot, chunk) ∷ previous)
      ≡ (if chunk.baseline_slot == slot then some chunk else get slot previous)
unfolding get
get-push slot chunk previous = refl

-- one round of the loop, when nothing is filtered out
segments_step :
    (sha : Sha256) (seed : ℕ) (previous : Latest) (chunk : TeacherChunk) (rest : List TeacherChunk)
    {all : List ReplaySegment}
    → segments_from sha seed none previous (chunk ∷ rest) ≡ ok all
    → (selected : Partition) × (later : List ReplaySegment) × (segments_from sha seed none
          ((chunk.baseline_slot, chunk) ∷ previous)
          rest
        ≡ ok later)
      × (all
          ≡ record {
            chunk = chunk;
            boundary = boundary_of (get chunk.baseline_slot previous) chunk;
            partition = selected;
          }
            ∷ later)
unfolding segments_from is_selected
segments_step sha seed previous chunk rest h =
    elim (Result-cases (stream_partition sha seed chunk.baseline_slot chunk.generation)) [
      | inr (x, e) ↦ ground arith
      | inl (selected, e) ↦
          elim (Result-cases
            (segments_from sha seed none ((chunk.baseline_slot, chunk) ∷ previous) rest)) [
              | inr (x, k) ↦ ground arith
              | inl (later, k) ↦ (selected, later, k, ground arith)
            ]
    ]

segments_from-IsAt :
    (sha : Sha256) (seed : ℕ) (previous : Latest) (before : List TeacherChunk)
    (chunk : TeacherChunk) (after : List TeacherChunk) {all : List ReplaySegment}
    → segments_from sha seed none previous (before ++ chunk ∷ after) ≡ ok all
    → IsAt before chunk (last_of chunk.baseline_slot before (get chunk.baseline_slot previous)) all
segments_from-IsAt sha seed previous [] chunk after h =
    let (selected, later, k, split) = segments_step sha seed previous chunk after h in
    record {
      front = [];
      own = record {
        chunk = chunk;
        boundary = boundary_of (get chunk.baseline_slot previous) chunk;
        partition = selected;
      };
      back = later;
      split = split;
      place = refl;
      same = refl;
      boundary = refl;
    }
segments_from-IsAt sha seed previous (first ∷ before) chunk after h =
    let (selected, later, k, split) =
      segments_step sha seed previous first (before ++ chunk ∷ after) h in
    let rest =
      segments_from-IsAt sha seed ((first.baseline_slot, first) ∷ previous) before chunk after k in
    let head : ReplaySegment = record {
      chunk = first;
      boundary = boundary_of (get first.baseline_slot previous) first;
      partition = selected;
    } in
    record {
      front = head ∷ rest.front;
      own = rest.own;
      back = rest.back;
      split = split ∙ ap (λ l. head ∷ l) rest.split;
      place = ap suc rest.place;
      same = rest.same;
      boundary =
          rest.boundary
          ∙ ap (λ e. boundary_of (last_of chunk.baseline_slot before e) chunk)
              (get-push chunk.baseline_slot first previous);
    }

-- the chunk goes on where the earlier one stopped
pub record IsContinuation (earlier chunk : TeacherChunk) : Type 0 where
  pub slot : earlier.generation ≡ chunk.generation
  pub snake : earlier.physical_snake_id ≡ chunk.physical_snake_id
  pub ordinal :
      chunk.first_row.ordinal ≡ (last_row earlier.first_row earlier.later_rows).ordinal + 1
  pub step : (last_row earlier.first_row earlier.later_rows).step < chunk.first_row.step

boundary_of-continue :
    (previous : Option TeacherChunk) (chunk : TeacherChunk)
    → boundary_of previous chunk ≡ continue
    → (earlier : TeacherChunk) × (previous ≡ some earlier) × IsContinuation earlier chunk
unfolding boundary_of joined is_broken
boundary_of-continue none chunk h = ground arith
boundary_of-continue (some earlier) chunk h = (
  earlier,
  refl,
  record { slot = ground arith; snake = ground arith; ordinal = ground arith; step = ground arith },
)

-- Take the segments of a whole replay. Each retained chunk has its segment at its place, and where
-- that segment says to continue, the last chunk of the same slot before it is retained, is of the
-- same generation and physical snake, and its last row is followed at once by the chunk's first:
-- the next ordinal and a later step.
pub segments_continue :
    (sha : Sha256) (r : TeacherReplay) (m : DatasetManifest) (before : List TeacherChunk)
    (chunk : TeacherChunk) (after : List TeacherChunk) {all : List ReplaySegment}
    → segments sha r none ≡ ok all
    → r.manifest ≡ some m
    → r.chunks ≡ before ++ chunk ∷ after
    → (front : List ReplaySegment) × (own : ReplaySegment) × (back : List ReplaySegment) × (all
        ≡ front ++ own ∷ back)
      × (length front ≡ length before)
      × (own.chunk ≡ chunk)
      × (own.boundary ≡ continue
          → (earlier : TeacherChunk) × (last_of chunk.baseline_slot before none ≡ some earlier)
            × IsContinuation earlier chunk)
unfolding segments get
segments_continue sha r m before chunk after {all} h held parts =
    let run : segments_from sha m.run_seed none [] (before ++ chunk ∷ after) ≡ ok all =
      rw (held, parts) at h in
    let at = segments_from-IsAt sha m.run_seed [] before chunk after run in
    (
      at.front,
      at.own,
      at.back,
      at.split,
      at.place,
      at.same,
      λ goes_on.
          boundary_of-continue (last_of chunk.baseline_slot before none) chunk
            (sym at.boundary ∙ goes_on),
    )
