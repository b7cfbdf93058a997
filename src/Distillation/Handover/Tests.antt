-- ===== src/Distillation/Handover/Tests.antt =====
-- A page of two objects, fetched by a new client and handed to a new replay.
use py_rl_trainer.Prelude.{[], ◌≡◌, refl, Bool, false, none, some, List, ◌∷◌, ok, arith}
use py_rl_trainer.Prelude.Int.{pos}
use py_rl_trainer.Wire.{Value, int, str}
use py_rl_trainer.Wire.Str.{codes, text_eq}
use py_rl_trainer.Wire.Hex.{
  matches_hex, int_hex, int_hex_from, digit_value, all_hex, is_hex_digit, hex_pad, hex_digit,
  hex_min,
}
use py_rl_trainer.Distillation.Transport.{
  contract_eq, byte_cost, integer, hex_identity, hex_number, text_of,
}
use py_rl_trainer.Distillation.Hashing.{hexdigest, hex_bytes}
use py_rl_trainer.Distillation.Client.{
  DistillationClient, accept_manifest, check_storage, check_progress, check_restored, check_order,
  check_descriptor, last_row, descriptor_eq, descriptors_eq, admit_descriptors, download,
  gaps_between, last_sequence, count_eligible,
}
use py_rl_trainer.Distillation.Client.Descriptor.{
  WireLimits, DescriptorFields, value_eq_text, value_eq_nat, is_among, descriptor_from_object,
}
use py_rl_trainer.Distillation.Client.Fetch.{
  propose_page, Answers, has_tail, propose, read_descriptors, transfer, fetch,
}
use py_rl_trainer.Distillation.Replay.{TeacherReplay, admit, cost}
use py_rl_trainer.Distillation.Handover.Admitted.{fetch_admitted}
use py_rl_trainer.Distillation.Replay.Taken.{IsTaken}
use py_rl_trainer.Distillation.Tests.{
  sha, contract, chunk_of, manifest, digest_text, empty_replay, proposal, empty_replay-IsSound,
}

abbrev pub limits : WireLimits
limits = record {
  start_reasons = codes "spawn" ∷ [];
  end_reasons = codes "full" ∷ [];
  max_chunk_bytes = 1048576;
}

abbrev pub descriptor_of : Value → DescriptorFields
descriptor_of sequence = record {
  capture_epoch = str contract.capture_epoch;
  config_sha256 = str contract.config_sha256;
  sensor_sha256 = str contract.sensor_sha256;
  teacher_sha256 = str contract.teacher_sha256;
  input_size = int (pos 2);
  sequence = sequence;
  generation = str (codes "0000000000000001");
  baseline_slot = int (pos 0);
  physical_snake_id = str (codes "0000000000000007");
  first_sample = str (codes "0000000000000001");
  last_sample = str (codes "0000000000000001");
  first_step = str (codes "0000000000000005");
  last_step = str (codes "0000000000000005");
  count = int (pos 1);
  start_reason = str (codes "spawn");
  end_reason = str (codes "full");
  byte_count = int (pos 2);
  sha256 = str digest_text;
}

abbrev pub objects : List DescriptorFields
objects =
    descriptor_of (str (codes "0000000000000001"))
    ∷ descriptor_of (str (codes "0000000000000003"))
    ∷ []

abbrev pub answers : Answers
answers = record {
  dataset = manifest;
  page_chunks = objects;
  next_cursor = str (codes "0000000000000003");
  has_more = false;
  lease_chunks = objects;
  decoded = λ d. ok (chunk_of d.sequence);
}

abbrev pub client : DistillationClient
client = record {
  capture_epoch = contract.capture_epoch;
  page_size = 64;
  owned_bytes = 65536;
  cursor = 0;
  manifest = none;
  producer_storage = none;
  restore_identity = none;
}

pub fetch_test :
    fetch sha limits client answers ≡ (ok proposal, record client { manifest = some manifest })
unfolding fetch propose_page accept_manifest check_storage check_progress check_restored
    read_descriptors descriptor_from_object value_eq_text value_eq_nat is_among integer hex_identity
    hex_number text_of check_order admit_descriptors transfer download check_descriptor last_row
    descriptor_eq descriptors_eq contract_eq byte_cost text_eq propose has_tail gaps_between
    last_sequence count_eligible hexdigest hex_bytes hex_pad hex_digit hex_min matches_hex int_hex
    int_hex_from digit_value all_hex is_hex_digit
fetch_test = refl

fetch_admitted_example :
    (fresh : Bool) × (r' : TeacherReplay) × (admit sha empty_replay proposal ≡ ok (fresh, r'))
    × IsTaken empty_replay proposal fresh r'
unfolding cost byte_cost
fetch_admitted_example =
    fetch_admitted sha limits client answers empty_replay proposal fetch_test empty_replay-IsSound
      refl tt (omega arith) (omega arith, (omega arith, tt))
