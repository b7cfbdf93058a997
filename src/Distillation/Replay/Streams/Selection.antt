-- ===== src/Distillation/Replay/Streams/Selection.antt =====
-- `segments` for one partition: a filter of the segments of the whole replay, whose boundaries are
-- those of the whole replay.
use py_rl_trainer.Prelude.{
  ℕ, ◌≡◌, refl, inl, inr, Option, none, some, List, [], ◌∷◌, arith, ok, Result-cases, if◌then◌else◌,
}
use py_rl_trainer.Distillation.Transport.{TeacherChunk, DatasetManifest}
use py_rl_trainer.Distillation.Hashing.{Sha256}
use py_rl_trainer.Distillation.Replay.{TeacherReplay}
use py_rl_trainer.Distillation.Replay.Streams.{
  Partition, ReplaySegment, boundary_of, Latest, get, is_selected, segments_from, segments,
  stream_partition,
}

abbrev pub select : Option Partition → List ReplaySegment → List ReplaySegment
select wanted [] = []
select wanted (segment ∷ rest) =
    if is_selected wanted segment.partition
    then segment ∷ select wanted rest
    else select wanted rest

segments_from-select :
    (sha : Sha256) (seed : ℕ) (wanted : Option Partition) (previous : Latest)
    (chunks : List TeacherChunk) {all : List ReplaySegment}
    → segments_from sha seed none previous chunks ≡ ok all
    → segments_from sha seed wanted previous chunks ≡ ok (select wanted all)
unfolding segments_from
segments_from-select sha seed wanted previous [] {all} h =
    let empty : all ≡ [] = ground arith in rw empty refl
segments_from-select sha seed wanted previous (chunk ∷ rest) {all} h =
    elim (Result-cases (stream_partition sha seed chunk.baseline_slot chunk.generation)) [
      | inr (x, e) ↦ ground arith
      | inl (selected, e) ↦
          elim (Result-cases
            (segments_from sha seed none ((chunk.baseline_slot, chunk) ∷ previous) rest)) [
              | inr (x, k) ↦ ground arith
              | inl (later, k) ↦
                  let filtered =
                    segments_from-select sha seed wanted ((chunk.baseline_slot, chunk) ∷ previous)
                      rest k in
                  let split : all
                      ≡ record {
                        chunk = chunk;
                        boundary = boundary_of (get chunk.baseline_slot previous) chunk;
                        partition = selected;
                      }
                        ∷ later =
                    unfold is_selected in ground arith in
                  rw split (ground (arith, e, filtered))
            ]
    ]

-- The segments of one partition are those segments of the whole replay, in their order and with
-- their boundaries, whose stream falls into the partition.
pub segments-select :
    (sha : Sha256) (r : TeacherReplay) (m : DatasetManifest) (wanted : Option Partition)
    {all : List ReplaySegment}
    → r.manifest ≡ some m
    → segments sha r none ≡ ok all
    → segments sha r wanted ≡ ok (select wanted all)
unfolding segments
segments-select sha r m wanted held h =
    rw held (segments_from-select sha m.run_seed wanted [] r.chunks (rw held at h))
