-- ===== src/Distillation/Storage.antt =====
-- pyrl_trainer/distillation_storage.py: `ProducerStoragePolicy`, read and written.
pub mod RoundTrip
mod Tests
use py_rl_trainer.Prelude.{ℕ, ◌-◌, ◌*◌, ◌^◌, true, ok, ◌>>=◌, ◌>>◌, guard}
use py_rl_trainer.Prelude.Int.{pos}
use py_rl_trainer.Wire.{Value, int, str}
use py_rl_trainer.Wire.Str.{codes}
use py_rl_trainer.Wire.Hex.{hex16}
use py_rl_trainer.Distillation.Transport.{Checked, integer, hex_number, storage_scope}
use py_rl_trainer.Distillation.Client.Descriptor.{value_eq_text}

pub record ProducerStoragePolicy : Type 0 where
  pub max_bytes : ℕ
  pub max_chunks : ℕ
  pub max_datasets : ℕ
  pub max_leases : ℕ
  pub max_pinned_chunks : ℕ
  pub max_pinned_bytes : ℕ
  pub max_lease_ms : ℕ
  pub disk_reserve_bytes : ℕ

-- the JSON object, by its keys
pub record PolicyFields : Type 0 where
  pub schema_version : Value
  pub scope : Value
  pub max_bytes : Value
  pub max_chunks : Value
  pub max_datasets : Value
  pub max_leases : Value
  pub max_pinned_chunks : Value
  pub max_pinned_bytes : Value
  pub max_lease_ms : Value
  pub disk_reserve_bytes : Value

-- `MAX_PRODUCER_STORAGE_BYTES`
abbrev pub max_producer_storage_bytes : ℕ
max_producer_storage_bytes = 64 * 1024 ^ 3

-- the local `word(name, low, high)`
unfoldable pub bounded_word : Value → ℕ → ℕ → Checked ℕ
bounded_word value low high = do n ← hex_number value 16 true; integer (int (pos n)) low high

-- `ProducerStoragePolicy.from_object(value)`
unfoldable pub policy_from_object : PolicyFields → Checked ProducerStoragePolicy
policy_from_object value = do
  integer value.schema_version 1 1
  guard (value_eq_text value.scope (codes "producer-global")) storage_scope
  max_bytes ← bounded_word value.max_bytes 1 max_producer_storage_bytes
  max_chunks ← integer value.max_chunks 1 65536
  max_datasets ← integer value.max_datasets 1 256
  max_leases ← integer value.max_leases 1 64
  max_pinned_chunks ← integer value.max_pinned_chunks 1 1024
  max_pinned_bytes ← bounded_word value.max_pinned_bytes 1 (512 * 1024 ^ 2)
  max_lease_ms ← integer value.max_lease_ms 1 300000
  disk_reserve_bytes ← bounded_word value.disk_reserve_bytes (1024 ^ 3) (2 ^ 53 - 1)
  ok (record {
    max_bytes = max_bytes;
    max_chunks = max_chunks;
    max_datasets = max_datasets;
    max_leases = max_leases;
    max_pinned_chunks = max_pinned_chunks;
    max_pinned_bytes = max_pinned_bytes;
    max_lease_ms = max_lease_ms;
    disk_reserve_bytes = disk_reserve_bytes;
  })

-- `to_object()`
unfoldable pub policy_to_object : ProducerStoragePolicy → PolicyFields
policy_to_object p = record {
  schema_version = int (pos 1);
  scope = str (codes "producer-global");
  max_bytes = str (hex16 p.max_bytes);
  max_chunks = int (pos p.max_chunks);
  max_datasets = int (pos p.max_datasets);
  max_leases = int (pos p.max_leases);
  max_pinned_chunks = int (pos p.max_pinned_chunks);
  max_pinned_bytes = str (hex16 p.max_pinned_bytes);
  max_lease_ms = int (pos p.max_lease_ms);
  disk_reserve_bytes = str (hex16 p.disk_reserve_bytes);
}
