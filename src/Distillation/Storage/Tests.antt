-- ===== src/Distillation/Storage/Tests.antt =====
-- A small policy.
use py_rl_trainer.Prelude.{◌≡◌, refl, ok}
use py_rl_trainer.Prelude.Int.{pos}
use py_rl_trainer.Wire.{int, str}
use py_rl_trainer.Wire.Str.{codes, text_eq}
use py_rl_trainer.Wire.Hex.{matches_hex, all_hex, is_hex_digit, int_hex, int_hex_from, digit_value}
use py_rl_trainer.Distillation.Transport.{integer, hex_number, hex_identity}
use py_rl_trainer.Distillation.Client.Descriptor.{value_eq_text}
use py_rl_trainer.Distillation.Storage.{
  ProducerStoragePolicy, PolicyFields, bounded_word, policy_from_object, policy_to_object,
}
use py_rl_trainer.Distillation.Storage.RoundTrip.{IsPolicy, storage_roundtrip}

abbrev fields : PolicyFields
fields = record {
  schema_version = int (pos 1);
  scope = str (codes "producer-global");
  max_bytes = str (codes "0000000000100000");
  max_chunks = int (pos 1024);
  max_datasets = int (pos 4);
  max_leases = int (pos 8);
  max_pinned_chunks = int (pos 64);
  max_pinned_bytes = str (codes "0000000000080000");
  max_lease_ms = int (pos 60000);
  disk_reserve_bytes = str (codes "0000000040000000");
}

abbrev policy : ProducerStoragePolicy
policy = record {
  max_bytes = 1048576;
  max_chunks = 1024;
  max_datasets = 4;
  max_leases = 8;
  max_pinned_chunks = 64;
  max_pinned_bytes = 524288;
  max_lease_ms = 60000;
  disk_reserve_bytes = 1073741824;
}

fields_test : policy_from_object fields ≡ ok policy
unfolding policy_from_object bounded_word integer hex_number hex_identity value_eq_text text_eq
    matches_hex all_hex is_hex_digit int_hex int_hex_from digit_value
fields_test = refl

storage_roundtrip_example :
    IsPolicy policy × (policy_from_object (policy_to_object policy) ≡ ok policy)
storage_roundtrip_example = storage_roundtrip fields fields_test
