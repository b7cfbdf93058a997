-- ===== src/Distillation/Tests.antt =====
-- One teacher, one dataset and two chunks, carried from the server's answer into a replay and
-- through a snapshot.
use py_rl_trainer.Prelude.{
  ℕ, ◌+◌, ◌≤◌, ◌≡◌, refl, true, false, none, some, [], ◌∷◌, ok, arith, drop, ltb,
}
use py_rl_trainer.Prelude.Int.{pos}
use py_rl_trainer.Wire.{int}
use py_rl_trainer.Wire.Str.{Text, codes, text_eq, text_ltb}
use py_rl_trainer.Wire.Hex.{
  matches_hex, hex16, int_hex, all_hex, is_hex_digit, hex_pad, hex_digit, hex_min,
}
use py_rl_trainer.Wire.Hex.Laws.{hex16_roundtrip}
use py_rl_trainer.Wire.Hex.Order.{hex_order}
use py_rl_trainer.Distillation.Transport.{
  TeacherContract, TeacherChunk, DatasetManifest, integer, contract_eq, compatible, byte_cost,
}
use py_rl_trainer.Distillation.Hashing.{Bytes, AllBytes, Sha256, hexdigest, hex_bytes}
use py_rl_trainer.Distillation.Intervals.{interval_leb, insert, sorted, cover}
use py_rl_trainer.Distillation.Intervals.Coverage.{times}
use py_rl_trainer.Distillation.Client.{DistillationFetch}
use py_rl_trainer.Distillation.Replay.{
  TeacherReplay, new_replay, chunk_intervals, admit, stage, check_manifest, check_chunks,
  check_gaps, check_cover, cost, is_retry, settle, evict, identities_eq, intervals_eq, plan_chunk,
  plan_chunks,
}
use py_rl_trainer.Distillation.Replay.Eviction.{total_samples}
use py_rl_trainer.Distillation.Replay.Admission.{IsSound, admit-IsSound, admit_fifo}
use py_rl_trainer.Distillation.Replay.Dispositions.{admit_disposes}
use py_rl_trainer.Distillation.Replay.Retry.{admit_retry}
use py_rl_trainer.Distillation.Replay.Reach.{Reach, created, admitted, Reach-IsSound}
use py_rl_trainer.Distillation.Replay.Snapshot.{checkpoint_fields, restore_snapshot}
use py_rl_trainer.Distillation.Replay.Snapshot.Restore.{snapshot_roundtrip}

abbrev pub zero_digest : Bytes
zero_digest =
    0 ∷ 0 ∷ 0 ∷ 0 ∷ 0 ∷ 0 ∷ 0 ∷ 0 ∷ 0 ∷ 0 ∷ 0 ∷ 0 ∷ 0 ∷ 0 ∷ 0 ∷ 0 ∷ 0 ∷ 0 ∷ 0 ∷ 0 ∷ 0 ∷ 0 ∷ 0 ∷ 0
    ∷ 0 ∷ 0 ∷ 0 ∷ 0 ∷ 0 ∷ 0 ∷ 0 ∷ 0 ∷ []

pub zero_digest-AllBytes : AllBytes zero_digest
zero_digest-AllBytes = ground arith

-- a digest of the right shape
abbrev pub sha : Sha256
sha = record {
  digest = λ data_bytes. zero_digest;
  digest_length = λ data_bytes. refl;
  digest_bytes = λ data_bytes. zero_digest-AllBytes;
}

abbrev pub digest_text : Text
digest_text = codes "0000000000000000000000000000000000000000000000000000000000000000"

abbrev pub contract : TeacherContract
contract = record {
  capture_epoch = codes "000000000000000a";
  run_id = codes "run";
  config_sha256 = digest_text;
  sensor_sha256 = digest_text;
  teacher_sha256 = digest_text;
  teacher_revision = 1;
  teacher_mode = 0;
  control_interval_seconds = 0;
  input_size = 2;
}

abbrev pub chunk_of : ℕ → TeacherChunk
chunk_of n = record {
  contract = contract;
  sequence = n;
  generation = 1;
  baseline_slot = 0;
  physical_snake_id = 7;
  start_reason = codes "spawn";
  end_reason = codes "full";
  first_row = record { step = 5; ordinal = 1; flags = 8; strata = 0 };
  later_rows = [];
  raw_bytes = 1 ∷ 2 ∷ [];
}

abbrev pub manifest : DatasetManifest
manifest = record {
  contract = contract;
  run_seed = 3;
  sensor_json = codes "{}";
  production_watermark = 4;
  storage_watermark = 4;
  retention_floor = 1;
  resolved_through = 4;
  retained_bytes = 4;
  retained_chunks = 2;
}

abbrev pub empty_replay : TeacherReplay
empty_replay = record {
  max_bytes = 2097152;
  max_chunks = 1;
  manifest = none;
  cursor = 0;
  owned_bytes = 262144;
  evicted_chunks = 0;
  evicted_samples = 0;
  chunks = [];
  last_proposal = none;
}

-- objects 1 and 3, between settled gaps
abbrev pub proposal : DistillationFetch
proposal = record {
  manifest = manifest;
  start_cursor = 0;
  next_cursor = 4;
  chunks = chunk_of 1 ∷ chunk_of 3 ∷ [];
  gaps = (2, 2) ∷ (4, 4) ∷ [];
}

-- One chunk fits the ceiling of objects, so the first was evicted.
abbrev pub full_replay : TeacherReplay
full_replay = record {
  max_bytes = 2097152;
  max_chunks = 1;
  manifest = some manifest;
  cursor = 4;
  owned_bytes = 266275;
  evicted_chunks = 1;
  evicted_samples = 1;
  chunks = chunk_of 3 ∷ [];
  last_proposal = some (record {
    start = 0;
    end = 4;
    identities = (1, digest_text) ∷ (3, digest_text) ∷ [];
    gaps = (2, 2) ∷ (4, 4) ∷ [];
  });
}

pub new_replay_test : new_replay (int (pos 2097152)) (int (pos 1)) ≡ ok empty_replay
unfolding new_replay
new_replay_test = refl

admit_test : admit sha empty_replay proposal ≡ ok (true, full_replay)
unfolding admit stage check_manifest check_chunks contract_eq text_eq cost byte_cost check_gaps
    integer check_cover cover sorted chunk_intervals insert interval_leb is_retry settle hex_bytes
    hexdigest evict identities_eq intervals_eq plan_chunk plan_chunks compatible hex_pad hex_digit
    hex_min
admit_test = refl

empty_replay-Reach : Reach sha empty_replay
empty_replay-Reach = created (int (pos 2097152)) (int (pos 1)) new_replay_test

full_replay-Reach : Reach sha full_replay
full_replay-Reach = admitted empty_replay-Reach proposal admit_test

pub empty_replay-IsSound : IsSound empty_replay
empty_replay-IsSound = Reach-IsSound empty_replay-Reach

admit-IsSound_example : IsSound full_replay
admit-IsSound_example = admit-IsSound sha empty_replay proposal empty_replay-IsSound admit_test

admit_fifo_example :
    (full_replay.cursor ≡ 4)
    × (0 ≤ 1)
    × (full_replay.chunks ≡ drop 1 (chunk_of 1 ∷ chunk_of 3 ∷ []))
    × (1 + total_samples full_replay.chunks ≡ 0 + total_samples [] + total_samples proposal.chunks)
admit_fifo_example = admit_fifo sha empty_replay proposal empty_replay-IsSound admit_test refl

admit_disposes_example : times 2 (chunk_intervals proposal.chunks) + times 2 proposal.gaps ≡ 1
admit_disposes_example =
    admit_disposes sha empty_replay proposal empty_replay-IsSound admit_test 2 (omega arith)
      (omega arith)

admit_retry_example : admit sha full_replay proposal ≡ ok (false, full_replay)
admit_retry_example = admit_retry sha empty_replay proposal admit_test

Reach-IsSound_example : IsSound full_replay
Reach-IsSound_example = Reach-IsSound full_replay-Reach

snapshot_roundtrip_example :
    restore_snapshot manifest full_replay.chunks (checkpoint_fields full_replay) ≡ ok full_replay
snapshot_roundtrip_example =
    snapshot_roundtrip full_replay manifest full_replay-Reach refl (omega arith) (omega arith)
      (omega arith)

first_matches : matches_hex 4 (codes "09af") ≡ true
unfolding matches_hex all_hex is_hex_digit
first_matches = refl

second_matches : matches_hex 4 (codes "0a00") ≡ true
unfolding matches_hex all_hex is_hex_digit
second_matches = refl

hex16_roundtrip_example : (matches_hex 16 (hex16 48879) ≡ true) × (int_hex (hex16 48879) ≡ 48879)
hex16_roundtrip_example = hex16_roundtrip 48879 (omega arith)

hex_order_example :
    text_ltb (codes "09af") (codes "0a00") ≡ ltb (int_hex (codes "09af")) (int_hex (codes "0a00"))
hex_order_example = hex_order 4 (codes "09af") (codes "0a00") first_matches second_matches
