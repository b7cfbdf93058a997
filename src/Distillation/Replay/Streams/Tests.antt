-- ===== src/Distillation/Replay/Streams/Tests.antt =====
-- Two chunks of one life, the second going on where the first was sealed.
use py_rl_trainer.Prelude.{[], ◌≡◌, refl, none, some, List, ◌∷◌, ◌++◌, ok, length}
use py_rl_trainer.Wire.Str.{codes, text_eq}
use py_rl_trainer.Distillation.Transport.{TeacherChunk, integer}
use py_rl_trainer.Distillation.Client.{last_row}
use py_rl_trainer.Distillation.Replay.{TeacherReplay}
use py_rl_trainer.Distillation.Replay.Streams.{
  count_chunks, count_rows, has_bit, capture_start, continue, training, validation, ReplaySegment,
  raw_counts, segments, segments_from, stream_partition, boundary_of, joined, is_broken, get,
  is_selected, little_endian, from_little,
}
use py_rl_trainer.Distillation.Replay.Streams.Positions.{last_of, IsContinuation, segments_continue}
use py_rl_trainer.Distillation.Replay.Streams.Selection.{select, segments-select}
use py_rl_trainer.Distillation.Replay.Streams.Counts.{AreCounts, rows_of, raw_counts-AreCounts}
use py_rl_trainer.Distillation.Tests.{sha, chunk_of, manifest, full_replay}

abbrev sealed_chunk : TeacherChunk
sealed_chunk = record (chunk_of 1) {
  start_reason = codes "captureStart";
  end_reason = codes "maximumSamples";
}

abbrev next_chunk : TeacherChunk
next_chunk = record (chunk_of 2) {
  start_reason = codes "continuation";
  first_row = record { step = 6; ordinal = 2; flags = 1; strata = 4 };
}

abbrev two_chunks : TeacherReplay
two_chunks = record full_replay { chunks = sealed_chunk ∷ next_chunk ∷ [] }

abbrev both : List ReplaySegment
both =
    record { chunk = sealed_chunk; boundary = capture_start; partition = validation }
    ∷ record { chunk = next_chunk; boundary = continue; partition = validation }
    ∷ []

segments_test : segments sha two_chunks none ≡ ok both
unfolding segments segments_from stream_partition boundary_of joined is_broken get is_selected
    little_endian from_little text_eq last_row integer
segments_test = refl

segments_continue_example :
    (front : List ReplaySegment) × (own : ReplaySegment) × (back : List ReplaySegment) × (both
      ≡ front ++ own ∷ back)
    × (length front ≡ 1)
    × (own.chunk ≡ next_chunk)
    × (own.boundary ≡ continue
        → (earlier : TeacherChunk) × (last_of 0 (sealed_chunk ∷ []) none ≡ some earlier)
          × IsContinuation earlier next_chunk)
segments_continue_example =
    segments_continue sha two_chunks manifest (sealed_chunk ∷ []) next_chunk [] segments_test refl
      refl

segments-select_example : segments sha two_chunks (some training) ≡ ok (select (some training) both)
segments-select_example = segments-select sha two_chunks manifest (some training) refl segments_test

raw_counts-AreCounts_example : AreCounts (rows_of two_chunks.chunks) (raw_counts two_chunks)
raw_counts-AreCounts_example = raw_counts-AreCounts two_chunks

raw_counts_test :
    let counts = raw_counts two_chunks in (counts.boost ≡ 1) × (counts.boost_request ≡ 1)
unfolding raw_counts count_chunks count_rows has_bit
raw_counts_test = (refl, refl)
