-- ===== src/Distillation/Replay/Snapshot.antt =====
-- `TeacherReplay.checkpoint_fields` and `restore_snapshot` of pyrl_trainer/distillation_replay.py.
-- The JSON object is given by its fields, since `exact_keys` asks for exactly these, and a retry's
-- list of pairs by its pairs; what stands under a key is any value.
pub mod RoundTrip
pub mod Restore
use py_rl_trainer.Prelude.{
  ℕ, ◌+◌, Bool, true, false, ◌&&◌, Option, none, some, List, [], ◌∷◌, ◌++◌, ok, err, ◌>>=◌, ◌>>◌,
  guard, map, ltb, leb, ◌==◌, length, if◌then◌else◌,
}
use py_rl_trainer.Prelude.Int.{pos}
use py_rl_trainer.Wire.{Value, int, str}
use py_rl_trainer.Wire.Str.{Text}
use py_rl_trainer.Wire.Hex.{hex16}
use py_rl_trainer.Distillation.Transport.{
  Checked, integer, hex_identity, hex_number, DatasetManifest, TeacherChunk, contract_eq,
  snapshot_cursor, snapshot_order, snapshot_bytes, retry_cursor, retry_objects,
  retry_identity_order, retry_gap_extent, retry_coverage, retry_tail,
}
use py_rl_trainer.Distillation.Intervals.{Interval, sorted}
use py_rl_trainer.Distillation.Replay.{
  Proposal, TeacherReplay, new_replay, replay_fixed_bytes, cost,
}

pub record LastFields : Type 0 where
  pub start : Value
  pub end : Value
  pub chunks : List (Value × Value)
  pub gaps : List (Value × Value)

pub record SnapshotFields : Type 0 where
  pub schema_version : Value
  pub max_bytes : Value
  pub max_chunks : Value
  pub cursor : Value
  pub evicted_chunks : Value
  pub evicted_samples : Value
  pub last_proposal : Option LastFields

-- `f"{n:016x}"` in a JSON object
abbrev pub word : ℕ → Value
word n = str (hex16 n)

abbrev pub identity_fields : ℕ × Text → Value × Value
identity_fields (sequence, digest) = (word sequence, str digest)

abbrev pub gap_fields : Interval → Value × Value
gap_fields (low, high) = (word low, word high)

unfoldable pub last_fields : Option Proposal → Option LastFields
last_fields none = none
last_fields (some p) = some (record {
  start = word p.start;
  end = word p.end;
  chunks = map identity_fields p.identities;
  gaps = map gap_fields p.gaps;
})

unfoldable pub checkpoint_fields : TeacherReplay → SnapshotFields
unfolding last_fields
checkpoint_fields r = record {
  schema_version = int (pos 1);
  max_bytes = int (pos r.max_bytes);
  max_chunks = int (pos r.max_chunks);
  cursor = word r.cursor;
  evicted_chunks = word r.evicted_chunks;
  evicted_samples = word r.evicted_samples;
  last_proposal = last_fields r.last_proposal;
}

-- the loop over the retained chunks; the result is the bytes that they own
unfoldable pub check_retained : DatasetManifest → ℕ → ℕ → ℕ → ℕ → List TeacherChunk → Checked ℕ
check_retained manifest max_bytes cursor owned previous [] = ok owned
check_retained manifest max_bytes cursor owned previous (chunk ∷ rest) = do
  guard
      (contract_eq chunk.contract manifest.contract
        && ltb previous chunk.sequence
        && leb chunk.sequence cursor)
      snapshot_order
  guard (leb (owned + cost chunk) max_bytes) snapshot_bytes
  check_retained manifest max_bytes cursor (owned + cost chunk) chunk.sequence rest

-- `if identities and sequence <= identities[-1][0]`
unfoldable pub follows : Option ℕ → ℕ → Bool
follows none sequence = true
follows (some last) sequence = ltb last sequence

unfoldable pub parse_identities : Option ℕ → List (Value × Value) → Checked (List (ℕ × Text))
parse_identities last [] = ok []
parse_identities last ((first, second) ∷ rest) = do
  sequence ← hex_number first 16 true
  digest ← hex_identity second 64 false
  guard (follows last sequence) retry_identity_order
  identities ← parse_identities (some sequence) rest
  ok ((sequence, digest) ∷ identities)

unfoldable pub parse_gaps : List (Value × Value) → Checked (List Interval)
parse_gaps [] = ok []
parse_gaps ((first, second) ∷ rest) = do
  low ← hex_number first 16 true
  high ← hex_number second 16 true
  guard (leb low high) retry_gap_extent
  gaps ← parse_gaps rest
  ok ((low, high) ∷ gaps)

unfoldable pub identity_intervals : List (ℕ × Text) → List Interval
identity_intervals [] = []
identity_intervals ((sequence, digest) ∷ rest) = (sequence, sequence) ∷ identity_intervals rest

-- `if low != covered + 1 or high > end: raise`
unfoldable pub cover_within : ℕ → ℕ → List Interval → Option ℕ
cover_within end covered [] = some covered
cover_within end covered ((low, high) ∷ rest) =
    let after = cover_within end high rest in
    if low == covered + 1 && leb high end then after else none

unfoldable pub check_retry_cover : Option ℕ → ℕ → Checked Unit
check_retry_cover none end = err retry_coverage
check_retry_cover (some covered) end = guard (covered == end) retry_tail

unfoldable pub parse_last : ℕ → Option LastFields → Checked (Option Proposal)
parse_last cursor none = ok none
parse_last cursor (some last) = do
  start ← hex_number last.start 16 false
  end ← hex_number last.end 16 false
  guard (leb start end && end == cursor) retry_cursor
  guard (leb (length last.chunks) 256 && leb (length last.gaps) 257) retry_objects
  identities ← parse_identities none last.chunks
  gaps ← parse_gaps last.gaps
  check_retry_cover (cover_within end start (sorted (identity_intervals identities ++ gaps))) end
  ok (some (record { start = start; end = end; identities = identities; gaps = gaps }))

-- `TeacherReplay.restore_snapshot(manifest, chunks, fields)`
unfoldable pub restore_snapshot :
    DatasetManifest → List TeacherChunk → SnapshotFields → Checked TeacherReplay
restore_snapshot manifest chunks fields = do
  integer fields.schema_version 1 1
  result ← new_replay fields.max_bytes fields.max_chunks
  cursor ← hex_number fields.cursor 16 false
  guard (leb cursor manifest.resolved_through && leb (length chunks) result.max_chunks)
      snapshot_cursor
  owned ← check_retained manifest result.max_bytes cursor replay_fixed_bytes 0 chunks
  parsed ← parse_last cursor fields.last_proposal
  evicted_chunks ← hex_number fields.evicted_chunks 16 false
  evicted_samples ← hex_number fields.evicted_samples 16 false
  ok (record result {
    manifest = some manifest;
    cursor = cursor;
    owned_bytes = owned;
    evicted_chunks = evicted_chunks;
    evicted_samples = evicted_samples;
    chunks = chunks;
    last_proposal = parsed;
  })
