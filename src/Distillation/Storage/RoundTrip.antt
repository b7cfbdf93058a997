-- ===== src/Distillation/Storage/RoundTrip.antt =====
-- A policy that was read is written and read back as it was.
use py_rl_trainer.Prelude.{ℕ, ◌-◌, ◌*◌, ◌^◌, ◌≤◌, ◌<◌, ◌≡◌, inl, inr, true, arith, ok, Result-cases}
use py_rl_trainer.Prelude.Int.{pos}
use py_rl_trainer.Wire.{Value, int, str}
use py_rl_trainer.Wire.Str.{codes, text_eq_refl}
use py_rl_trainer.Wire.Hex.{hex16}
use py_rl_trainer.Distillation.Transport.{integer, hex_number}
use py_rl_trainer.Distillation.Transport.Bounds.{integer_bounds}
use py_rl_trainer.Distillation.Client.Descriptor.{value_eq_text}
use py_rl_trainer.Distillation.Replay.Snapshot.RoundTrip.{hex_number-word}
use py_rl_trainer.Distillation.Replay.Snapshot.Restore.{integer-int}
use py_rl_trainer.Distillation.Storage.{
  ProducerStoragePolicy, PolicyFields, max_producer_storage_bytes, bounded_word, policy_from_object,
  policy_to_object,
}

pub record IsPolicy (p : ProducerStoragePolicy) : Type 0 where
  pub max_bytes : (1 ≤ p.max_bytes) × (p.max_bytes ≤ max_producer_storage_bytes)
  pub max_chunks : (1 ≤ p.max_chunks) × (p.max_chunks ≤ 65536)
  pub max_datasets : (1 ≤ p.max_datasets) × (p.max_datasets ≤ 256)
  pub max_leases : (1 ≤ p.max_leases) × (p.max_leases ≤ 64)
  pub max_pinned_chunks : (1 ≤ p.max_pinned_chunks) × (p.max_pinned_chunks ≤ 1024)
  pub max_pinned_bytes : (1 ≤ p.max_pinned_bytes) × (p.max_pinned_bytes ≤ 512 * 1024 ^ 2)
  pub max_lease_ms : (1 ≤ p.max_lease_ms) × (p.max_lease_ms ≤ 300000)
  pub disk_reserve_bytes : (1024 ^ 3 ≤ p.disk_reserve_bytes) × (p.disk_reserve_bytes ≤ 2 ^ 53 - 1)

bounded_word-bounds :
    (v : Value) (low high : ℕ) {n : ℕ} → bounded_word v low high ≡ ok n → (low ≤ n) × (n ≤ high)
unfolding bounded_word
bounded_word-bounds v low high h = elim (Result-cases (hex_number v 16 true)) [
  | inr (x, e) ↦ ground arith
  | inl (n, e) ↦ integer_bounds (int (pos n)) low high (ground arith)
]

bounded_word-hex16 :
    (n low high : ℕ)
    → 0 < low
    → low ≤ n
    → n ≤ high
    → high < 2 ^ 64
    → bounded_word (str (hex16 n)) low high ≡ ok n
unfolding bounded_word
bounded_word-hex16 n low high positive l h top =
    ground
      (arith, hex_number-word n true (omega arith) (inr (omega arith)), integer-int n low high l h)

policy_from_object-IsPolicy :
    (v : PolicyFields) {p : ProducerStoragePolicy} → policy_from_object v ≡ ok p → IsPolicy p
unfolding policy_from_object
policy_from_object-IsPolicy v {p} h = elim (Result-cases (integer v.schema_version 1 1)) [
  | inr (x, e) ↦ ground arith
  | inl (one, e) ↦ elim (Result-cases (bounded_word v.max_bytes 1 max_producer_storage_bytes)) [
    | inr (x, e1) ↦ ground arith
    | inl (bytes, e1) ↦ elim (Result-cases (integer v.max_chunks 1 65536)) [
      | inr (x, e2) ↦ ground arith
      | inl (chunks, e2) ↦ elim (Result-cases (integer v.max_datasets 1 256)) [
        | inr (x, e3) ↦ ground arith
        | inl (datasets, e3) ↦ elim (Result-cases (integer v.max_leases 1 64)) [
          | inr (x, e4) ↦ ground arith
          | inl (leases, e4) ↦ elim (Result-cases (integer v.max_pinned_chunks 1 1024)) [
            | inr (x, e5) ↦ ground arith
            | inl (pinned, e5) ↦
                elim (Result-cases (bounded_word v.max_pinned_bytes 1 (512 * 1024 ^ 2))) [
                  | inr (x, e6) ↦ ground arith
                  | inl (pinned_bytes, e6) ↦ elim (Result-cases (integer v.max_lease_ms 1 300000)) [
                    | inr (x, e7) ↦ ground arith
                    | inl (ms, e7) ↦
                        elim (Result-cases
                          (bounded_word v.disk_reserve_bytes (1024 ^ 3) (2 ^ 53 - 1))) [
                            | inr (x, e8) ↦ ground arith
                            | inl (reserve, e8) ↦
                                let made : p ≡ record {
                                  max_bytes = bytes;
                                  max_chunks = chunks;
                                  max_datasets = datasets;
                                  max_leases = leases;
                                  max_pinned_chunks = pinned;
                                  max_pinned_bytes = pinned_bytes;
                                  max_lease_ms = ms;
                                  disk_reserve_bytes = reserve;
                                } =
                                  ground arith in
                                rw made (record {
                                  max_bytes =
                                      bounded_word-bounds v.max_bytes 1 max_producer_storage_bytes
                                        e1;
                                  max_chunks = integer_bounds v.max_chunks 1 65536 e2;
                                  max_datasets = integer_bounds v.max_datasets 1 256 e3;
                                  max_leases = integer_bounds v.max_leases 1 64 e4;
                                  max_pinned_chunks = integer_bounds v.max_pinned_chunks 1 1024 e5;
                                  max_pinned_bytes =
                                      bounded_word-bounds v.max_pinned_bytes 1 (512 * 1024 ^ 2) e6;
                                  max_lease_ms = integer_bounds v.max_lease_ms 1 300000 e7;
                                  disk_reserve_bytes =
                                      bounded_word-bounds v.disk_reserve_bytes (1024 ^ 3)
                                        (2 ^ 53 - 1) e8;
                                })
                          ]
                  ]
                ]
          ]
        ]
      ]
    ]
  ]
]

policy_to_object-from :
    (p : ProducerStoragePolicy) → IsPolicy p → policy_from_object (policy_to_object p) ≡ ok p
unfolding policy_from_object policy_to_object value_eq_text
policy_to_object-from p s = ground (
  arith,
  text_eq_refl (codes "producer-global"),
  integer-int 1 1 1 (omega arith) (omega arith),
  bounded_word-hex16 p.max_bytes 1 max_producer_storage_bytes (omega arith) s.max_bytes.0
      s.max_bytes.1 (omega arith),
  integer-int p.max_chunks 1 65536 s.max_chunks.0 s.max_chunks.1,
  integer-int p.max_datasets 1 256 s.max_datasets.0 s.max_datasets.1,
  integer-int p.max_leases 1 64 s.max_leases.0 s.max_leases.1,
  integer-int p.max_pinned_chunks 1 1024 s.max_pinned_chunks.0 s.max_pinned_chunks.1,
  bounded_word-hex16 p.max_pinned_bytes 1 (512 * 1024 ^ 2) (omega arith) s.max_pinned_bytes.0
      s.max_pinned_bytes.1 (omega arith),
  integer-int p.max_lease_ms 1 300000 s.max_lease_ms.0 s.max_lease_ms.1,
  bounded_word-hex16 p.disk_reserve_bytes (1024 ^ 3) (2 ^ 53 - 1) (omega arith)
      s.disk_reserve_bytes.0 s.disk_reserve_bytes.1 (omega arith),
)

-- Whatever object `from_object` admits as a policy, every ceiling is in its range, and writing the
-- policy by `to_object` and reading it again gives the policy.
pub storage_roundtrip :
    (v : PolicyFields) {p : ProducerStoragePolicy}
    → policy_from_object v ≡ ok p
    → IsPolicy p × (policy_from_object (policy_to_object p) ≡ ok p)
storage_roundtrip v {p} h =
    let sound = policy_from_object-IsPolicy v h in (sound, policy_to_object-from p sound)
