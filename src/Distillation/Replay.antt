-- ===== src/Distillation/Replay.antt =====
-- pyrl_trainer/distillation_replay.py, `TeacherReplay`: the bounded FIFO buffer of whole chunks and
-- its admission of a fetched proposal.
pub mod Eviction
pub mod Validation
pub mod Planning
pub mod Order
pub mod Retry
pub mod Dispositions
pub mod Reach
pub mod Snapshot
pub mod Streams
pub mod Admission
pub mod Taken
use py_rl_trainer.Prelude.{
  ℕ, ◌+◌, ◌-◌, ◌*◌, Bool, true, false, ◌&&◌, ◌||◌, Option, none, some, List, [], ◌∷◌, ◌++◌, ok, err,
  ◌>>=◌, ◌>>◌, guard, ltb, leb, ◌==◌, length, if◌then◌else◌,
}
use py_rl_trainer.Prelude.Int.{pos}
use py_rl_trainer.Wire.{Value, int}
use py_rl_trainer.Wire.Str.{Text, text_eq}
use py_rl_trainer.Distillation.Transport.{
  Checked, integer, DatasetManifest, TeacherChunk, contract_eq, compatible, byte_cost, row_count,
  foreign_dataset, watermark_regression, unsettled, object_limit, chunk_order, oversized,
  disposition_gap, unsettled_tail, stale_cursor,
}
use py_rl_trainer.Distillation.Hashing.{Sha256, hexdigest}
use py_rl_trainer.Distillation.Intervals.{Interval, sorted, cover}
use py_rl_trainer.Distillation.Client.{DistillationFetch}

abbrev pub replay_metadata_bytes : ℕ
replay_metadata_bytes = 4096

abbrev pub replay_fixed_bytes : ℕ
replay_fixed_bytes = 256 * 1024

abbrev pub min_replay_bytes : ℕ
min_replay_bytes = 2 * 1024 * 1024

abbrev pub max_replay_bytes : ℕ
max_replay_bytes = 2048 * 1024 * 1024

-- the retry identity `(start, next, ((sequence, digest), …), gaps)`
pub record Proposal : Type 0 where
  pub start : ℕ
  pub end : ℕ
  pub identities : List (ℕ × Text)
  pub gaps : List Interval

unfoldable pub identities_eq : List (ℕ × Text) → List (ℕ × Text) → Bool
identities_eq [] [] = true
identities_eq ((s, d) ∷ xs) ((t, e) ∷ ys) = s == t && text_eq d e && identities_eq xs ys
identities_eq _ _ = false

unfoldable pub intervals_eq : List Interval → List Interval → Bool
intervals_eq [] [] = true
intervals_eq ((a, b) ∷ xs) ((c, d) ∷ ys) = a == c && b == d && intervals_eq xs ys
intervals_eq _ _ = false

-- `identity == self._last_proposal`
unfoldable pub is_retry : Proposal → Option Proposal → Bool
unfolding identities_eq intervals_eq
is_retry p none = false
is_retry p (some q) =
    p.start == q.start
    && p.end == q.end
    && identities_eq p.identities q.identities
    && intervals_eq p.gaps q.gaps

pub record TeacherReplay : Type 0 where
  pub max_bytes : ℕ
  pub max_chunks : ℕ
  pub manifest : Option DatasetManifest
  pub cursor : ℕ
  pub owned_bytes : ℕ
  pub evicted_chunks : ℕ
  pub evicted_samples : ℕ
  pub chunks : List TeacherChunk
  pub last_proposal : Option Proposal

-- `TeacherReplay(max_bytes=…, max_chunks=…)`
unfoldable pub new_replay : Value → Value → Checked TeacherReplay
unfolding integer
new_replay max_bytes max_chunks = do
  bytes ← integer max_bytes min_replay_bytes max_replay_bytes
  objects ← integer max_chunks 1 65536
  ok (record {
    max_bytes = bytes;
    max_chunks = objects;
    manifest = none;
    cursor = 0;
    owned_bytes = replay_fixed_bytes;
    evicted_chunks = 0;
    evicted_samples = 0;
    chunks = [];
    last_proposal = none;
  })

-- `TeacherReplay._cost`
unfoldable pub cost : TeacherChunk → ℕ
cost chunk = byte_cost chunk + replay_metadata_bytes

-- the checks of a new manifest against the one that the replay holds
unfoldable pub check_manifest : Option DatasetManifest → DatasetManifest → Checked Unit
check_manifest none next = ok tt
check_manifest (some old) next = do
  guard (compatible old next) foreign_dataset
  guard
      (leb old.production_watermark next.production_watermark
        && leb old.resolved_through next.resolved_through
        && leb old.storage_watermark next.storage_watermark)
      watermark_regression

-- the loop over `fetched.chunks`: `previous` is the sequence before
unfoldable pub check_chunks :
    Sha256 → DatasetManifest → ℕ → ℕ → ℕ → List TeacherChunk → Checked (List (ℕ × Text))
check_chunks sha manifest room next previous [] = ok []
check_chunks sha manifest room next previous (chunk ∷ rest) = do
  guard
      (contract_eq chunk.contract manifest.contract
        && ltb previous chunk.sequence
        && leb chunk.sequence next)
      chunk_order
  guard (leb (cost chunk) room) oversized
  identities ← check_chunks sha manifest room next chunk.sequence rest
  ok ((chunk.sequence, hexdigest sha chunk.raw_bytes) ∷ identities)

-- the loop over `fetched.gaps`
unfoldable pub check_gaps : ℕ → ℕ → List Interval → Checked Unit
check_gaps start next [] = ok tt
check_gaps start next ((low, high) ∷ rest) = do
  integer (int (pos low)) (start + 1) next
  integer (int (pos high)) low next
  check_gaps start next rest

unfoldable pub chunk_intervals : List TeacherChunk → List Interval
chunk_intervals [] = []
chunk_intervals (chunk ∷ rest) = (chunk.sequence, chunk.sequence) ∷ chunk_intervals rest

-- every number in `(start, next]` is disposed of once: by a chunk, or in a gap
unfoldable pub check_cover : Option ℕ → ℕ → Checked Unit
check_cover none next = err disposition_gap
check_cover (some covered) next = guard (covered == next) unsettled_tail

-- The checks of `admit` before the retry test; their result is the proposal's identity.
unfoldable pub stage : Sha256 → TeacherReplay → DistillationFetch → Checked Proposal
stage sha replay fetched = do
  check_manifest replay.manifest fetched.manifest
  guard
      (leb fetched.start_cursor fetched.next_cursor
        && leb fetched.next_cursor fetched.manifest.resolved_through)
      unsettled
  guard (leb (length fetched.chunks) 256 && leb (length fetched.gaps) 257) object_limit
  identities ←
      check_chunks sha fetched.manifest (replay.max_bytes - replay_fixed_bytes) fetched.next_cursor
        fetched.start_cursor fetched.chunks
  check_gaps fetched.start_cursor fetched.next_cursor fetched.gaps
  check_cover (cover fetched.start_cursor (sorted (chunk_intervals fetched.chunks ++ fetched.gaps)))
      fetched.next_cursor
  ok (record {
    start = fetched.start_cursor;
    end = fetched.next_cursor;
    identities = identities;
    gaps = fetched.gaps;
  })

-- the locals of the eviction loop
pub record Plan : Type 0 where
  pub planned : List TeacherChunk
  pub owned : ℕ
  pub dropped : ℕ
  pub dropped_samples : ℕ

-- `while planned and (owned + cost > max_bytes or len(planned) >= max_chunks)`. `owned` counts the
-- cost of every planned chunk, so the subtraction does not stop at 0.
unfoldable pub evict : ℕ → ℕ → ℕ → List TeacherChunk → ℕ → ℕ → ℕ → Plan
evict max_bytes max_chunks incoming [] owned dropped samples = record {
  planned = [];
  owned = owned;
  dropped = dropped;
  dropped_samples = samples;
}
evict max_bytes max_chunks incoming (old ∷ rest) owned dropped samples =
    let after =
      evict max_bytes max_chunks incoming rest (owned - cost old) (dropped + 1)
        (samples + row_count old) in
    if ltb max_bytes (owned + incoming) || leb max_chunks (length (old ∷ rest))
    then after
    else record {
      planned = old ∷ rest;
      owned = owned;
      dropped = dropped;
      dropped_samples = samples;
    }

-- one round of the loop over the incoming chunks
unfoldable pub plan_chunk : ℕ → ℕ → Plan → TeacherChunk → Plan
plan_chunk max_bytes max_chunks plan chunk =
    let room =
      evict max_bytes max_chunks (cost chunk) plan.planned plan.owned plan.dropped
        plan.dropped_samples in
    record room { planned = room.planned ++ chunk ∷ []; owned = room.owned + cost chunk }

unfoldable pub plan_chunks : ℕ → ℕ → Plan → List TeacherChunk → Plan
plan_chunks max_bytes max_chunks plan [] = plan
plan_chunks max_bytes max_chunks plan (chunk ∷ rest) =
    plan_chunks max_bytes max_chunks (plan_chunk max_bytes max_chunks plan chunk) rest

abbrev pub first_plan : TeacherReplay → Plan
first_plan replay = record {
  planned = replay.chunks;
  owned = replay.owned_bytes;
  dropped = 0;
  dropped_samples = 0;
}

-- the assignments at the end of `admit`
unfoldable pub settle : TeacherReplay → DistillationFetch → Proposal → TeacherReplay
settle replay fetched identity =
    let plan = plan_chunks replay.max_bytes replay.max_chunks (first_plan replay) fetched.chunks in
    record replay {
      chunks = plan.planned;
      owned_bytes = plan.owned;
      evicted_chunks = replay.evicted_chunks + plan.dropped;
      evicted_samples = replay.evicted_samples + plan.dropped_samples;
      cursor = fetched.next_cursor;
      manifest = some fetched.manifest;
      last_proposal = some identity;
    }

-- `TeacherReplay.admit`: whether the proposal was new, and the replay after it. A raise leaves the
-- replay as it was, for nothing is assigned before the last check.
unfoldable pub admit : Sha256 → TeacherReplay → DistillationFetch → Checked (Bool × TeacherReplay)
admit sha replay fetched = do
  identity ← stage sha replay fetched
  if is_retry identity replay.last_proposal
      then ok (false, record replay { manifest = some fetched.manifest })
      else (guard (fetched.start_cursor == replay.cursor) stale_cursor
          >> ok (true, settle replay fetched identity))
