-- ===== src/Distillation/Client.antt =====
-- pyrl_trainer/distillation_client.py: `DistillationClient`'s bounded proposal and local cursor.
-- What the server answers is an argument: the page with its descriptors already admitted, the
-- leased descriptors, and for each descriptor the chunk that its bytes decode to.
pub mod Descriptor
pub mod Fetch
use py_rl_trainer.Prelude.{
  ℕ, ◌+◌, ◌-◌, ◌*◌, Bool, true, false, not, ◌&&◌, ◌||◌, Option, none, some, List, [], ◌∷◌, ◌++◌,
  map, ok, err, ◌>>=◌, ◌>>◌, guard, ltb, leb, ◌==◌, length, if◌then◌else◌,
}
use py_rl_trainer.Wire.{Value}
use py_rl_trainer.Wire.Str.{Text, text_eq}
use py_rl_trainer.Distillation.Transport.{
  Checked, hex_number, Row, TeacherChunk, TeacherContract, DatasetManifest, contract_eq, compatible,
  byte_cost, row_count, foreign_dataset, watermark_regression, descriptor_order, pagination,
  page_bounds, foreign_proposal, stale_proposal, dataset_epoch, storage_inventory,
  checkpoint_identity, lease_mismatch, descriptor_mismatch, transfer_bytes,
}
use py_rl_trainer.Distillation.Hashing.{Sha256, hexdigest}
use py_rl_trainer.Distillation.Intervals.{Interval}

-- `DistillationFetch`
pub record DistillationFetch : Type 0 where
  pub manifest : DatasetManifest
  pub start_cursor : ℕ
  pub next_cursor : ℕ
  pub chunks : List TeacherChunk
  pub gaps : List Interval

-- `TeacherDescriptor` of distillation_transport.py
pub record TeacherDescriptor : Type 0 where
  pub contract : TeacherContract
  pub sequence : ℕ
  pub generation : ℕ
  pub baseline_slot : ℕ
  pub physical_snake_id : ℕ
  pub first_sample : ℕ
  pub last_sample : ℕ
  pub first_step : ℕ
  pub last_step : ℕ
  pub count : ℕ
  pub start_reason : Text
  pub end_reason : Text
  pub byte_count : ℕ
  pub sha256 : Text

-- the dataclass's `==`
unfoldable pub descriptor_eq : TeacherDescriptor → TeacherDescriptor → Bool
descriptor_eq a b =
    contract_eq a.contract b.contract
    && a.sequence == b.sequence
    && a.generation == b.generation
    && a.baseline_slot == b.baseline_slot
    && a.physical_snake_id == b.physical_snake_id
    && a.first_sample == b.first_sample
    && a.last_sample == b.last_sample
    && a.first_step == b.first_step
    && a.last_step == b.last_step
    && a.count == b.count
    && text_eq a.start_reason b.start_reason
    && text_eq a.end_reason b.end_reason
    && a.byte_count == b.byte_count
    && text_eq a.sha256 b.sha256

unfoldable pub descriptors_eq : List TeacherDescriptor → List TeacherDescriptor → Bool
unfolding descriptor_eq
descriptors_eq [] [] = true
descriptors_eq (a ∷ as') (b ∷ bs) = descriptor_eq a b && descriptors_eq as' bs
descriptors_eq _ _ = false

-- `array[-1]`
unfoldable pub last_row : Row → List Row → Row
last_row row [] = row
last_row row (next ∷ rest) = last_row next rest

-- The end of `TeacherChunk.decode`: the decoded chunk against its descriptor.
unfoldable pub check_descriptor : Sha256 → TeacherChunk → TeacherDescriptor → Checked Unit
check_descriptor sha chunk d =
    let final = last_row chunk.first_row chunk.later_rows in
    guard
      (contract_eq d.contract chunk.contract
        && chunk.sequence == d.sequence
        && chunk.generation == d.generation
        && chunk.baseline_slot == d.baseline_slot
        && chunk.physical_snake_id == d.physical_snake_id
        && chunk.first_row.ordinal == d.first_sample
        && final.ordinal == d.last_sample
        && chunk.first_row.step == d.first_step
        && final.step == d.last_step
        && row_count chunk == d.count
        && text_eq chunk.start_reason d.start_reason
        && text_eq chunk.end_reason d.end_reason
        && length chunk.raw_bytes == d.byte_count
        && text_eq (hexdigest sha chunk.raw_bytes) d.sha256)
      descriptor_mismatch

-- `ProducerStoragePolicy`, by the two ceilings that the client reads
pub record StorageCeiling : Type 0 where
  pub max_bytes : ℕ
  pub max_chunks : ℕ

-- `(contract, runSeed, sensorContractJson)` of a restored checkpoint
pub record RestoreIdentity : Type 0 where
  pub contract : TeacherContract
  pub run_seed : ℕ
  pub sensor_json : Text

pub record DistillationClient : Type 0 where
  pub capture_epoch : Text
  pub page_size : ℕ
  pub owned_bytes : ℕ
  pub cursor : ℕ
  pub manifest : Option DatasetManifest
  pub producer_storage : Option StorageCeiling
  pub restore_identity : Option RestoreIdentity

unfoldable pub check_storage : Option StorageCeiling → DatasetManifest → Checked Unit
check_storage none manifest = ok tt
check_storage (some policy) manifest =
    guard
      (leb manifest.retained_bytes policy.max_bytes
        && leb manifest.retained_chunks policy.max_chunks)
      storage_inventory

unfoldable pub check_progress : Option DatasetManifest → DatasetManifest → Checked Unit
check_progress none next = ok tt
check_progress (some old) next = do
  guard (compatible old next) foreign_dataset
  guard
      (leb old.production_watermark next.production_watermark
        && leb old.resolved_through next.resolved_through
        && leb old.storage_watermark next.storage_watermark)
      watermark_regression

unfoldable pub check_restored : Option RestoreIdentity → DatasetManifest → Checked Unit
check_restored none manifest = ok tt
check_restored (some identity) manifest =
    guard
      (contract_eq identity.contract manifest.contract
        && identity.run_seed == manifest.run_seed
        && text_eq identity.sensor_json manifest.sensor_json)
      checkpoint_identity

-- `_accept_manifest`, after `DatasetManifest.from_object`
unfoldable pub accept_manifest : DistillationClient → DatasetManifest → Checked DistillationClient
accept_manifest client manifest = do
  check_storage client.producer_storage manifest
  guard
      (text_eq manifest.contract.capture_epoch client.capture_epoch
        && leb client.cursor manifest.production_watermark)
      dataset_epoch
  check_progress client.manifest manifest
  check_restored client.restore_identity manifest
  ok (record client { manifest = some manifest; restore_identity = none })

-- the order loop of `fetch`; the result is the last sequence
unfoldable pub check_order : ℕ → ℕ → List TeacherDescriptor → Checked ℕ
check_order production previous [] = ok previous
check_order production previous (d ∷ rest) = do
  guard (ltb previous d.sequence && leb d.sequence production) descriptor_order
  check_order production d.sequence rest

-- the admission loop: it stops at the first object that is unsettled or over the byte budget
unfoldable pub admit_descriptors : ℕ → ℕ → ℕ → List TeacherDescriptor → List TeacherDescriptor
admit_descriptors resolved budget cost [] = []
admit_descriptors resolved budget cost (d ∷ rest) =
    let next_cost = cost + 2 * d.byte_count + 4096 in
    let later = admit_descriptors resolved budget next_cost rest in
    if ltb resolved d.sequence || ltb budget next_cost then [] else d ∷ later

-- the downloads; each answer is a chunk or the error of its HTTP check or its parsing, and each chunk
-- is checked against its descriptor and the budget of decoded bytes
unfoldable pub download :
    Sha256
    → (TeacherDescriptor → Checked TeacherChunk)
    → ℕ
    → ℕ
    → List TeacherDescriptor
    → Checked (List TeacherChunk)
download sha decoded budget owned [] = ok []
download sha decoded budget owned (d ∷ rest) = do
  chunk ← decoded d
  check_descriptor sha chunk d
  guard (leb (owned + byte_cost chunk) budget) transfer_bytes
  chunks ← download sha decoded budget (owned + byte_cost chunk) rest
  ok (chunk ∷ chunks)

-- `next_cursor, gaps` after the admitted objects
unfoldable pub gaps_between : ℕ → List TeacherDescriptor → List Interval
gaps_between cursor [] = []
gaps_between cursor (d ∷ rest) =
    let later = gaps_between d.sequence rest in
    if ltb (cursor + 1) d.sequence then (cursor + 1, d.sequence - 1) ∷ later else later

unfoldable pub last_sequence : ℕ → List TeacherDescriptor → ℕ
last_sequence cursor [] = cursor
last_sequence cursor (d ∷ rest) = last_sequence d.sequence rest

-- `sum(item.sequence <= manifest.resolved_through for item in descriptors)`
unfoldable pub count_eligible : ℕ → List TeacherDescriptor → ℕ
count_eligible resolved [] = 0
count_eligible resolved (d ∷ rest) =
    (if leb d.sequence resolved then 1 else 0) + count_eligible resolved rest
