-- ===== src/Distillation/Transport.antt =====
-- pyrl_trainer/distillation_transport.py: bounded integers, hexadecimal identities and the
-- immutable records that the client and the replay exchange.
pub mod Bounds
pub mod Rows
use py_rl_trainer.Prelude.{
  ℕ, ◌+◌, ◌*◌, Bool, ◌&&◌, List, Result, ok, err, ◌>>=◌, ◌>>◌, guard, leb, ◌==◌, length,
  if◌then◌else◌,
}
use py_rl_trainer.Prelude.Int.{pos}
use py_rl_trainer.Wire.{Value, int, str}
use py_rl_trainer.Wire.Str.{Text, text_eq}
use py_rl_trainer.Wire.Hex.{matches_hex, int_hex}

-- `DistillationContractError`, by the message that it carries, and Python's own AttributeError.
pub data ContractError : Type 0 where
  invalid_integer invalid_hex zero_identity : ContractError
  foreign_dataset watermark_regression unsettled object_limit chunk_order oversized : ContractError
  gap_interval disposition_gap unsettled_tail stale_cursor : ContractError
  snapshot_cursor snapshot_order snapshot_bytes : ContractError
  retry_cursor retry_objects retry_identity_order retry_gap_extent : ContractError
  retry_coverage retry_tail : ContractError
  descriptor_order pagination page_bounds foreign_proposal stale_proposal : ContractError
  dataset_epoch storage_inventory checkpoint_identity : ContractError
  lease_mismatch descriptor_mismatch transfer_bytes : ContractError
  contract_mismatch chronology boundary_reasons source_mismatch : ContractError
  attribute_error storage_scope : ContractError
  sample_metadata teacher_action stream_chronology observation physical_boundary : ContractError

abbrev pub Checked : Type 0 → Type 0
Checked = Result ContractError

-- `integer(value, low, high)`: a bool is refused though it is an `int` of Python.
unfoldable pub integer : Value → ℕ → ℕ → Checked ℕ
integer (int (pos n)) low high = if leb low n && leb n high then ok n else err invalid_integer
integer _ low high = err invalid_integer

-- `hex_identity(value, width, nonzero)`
unfoldable pub hex_identity : Value → ℕ → Bool → Checked Text
hex_identity (str s) width nonzero = do
  guard (matches_hex width s) invalid_hex
  if nonzero && int_hex s == 0 then err zero_identity else ok s
hex_identity _ width nonzero = err invalid_hex

-- `int(hex_identity(value, width, nonzero), 16)`
unfoldable pub hex_number : Value → ℕ → Bool → Checked ℕ
unfolding hex_identity
hex_number value width nonzero = do s ← hex_identity value width nonzero; ok (int_hex s)

-- a value that a membership test has shown to be a text
unfoldable pub text_of : Value → Checked Text
text_of (str s) = ok s
text_of _ = err boundary_reasons

-- `TeacherContract`. The cadence is a binary64 by its pattern: between 0.008 and 0.06 two equal
-- floats have one pattern.
pub record TeacherContract : Type 0 where
  pub capture_epoch : Text
  pub run_id : Text
  pub config_sha256 : Text
  pub sensor_sha256 : Text
  pub teacher_sha256 : Text
  pub teacher_revision : ℕ
  pub teacher_mode : ℕ
  pub control_interval_seconds : ℕ
  pub input_size : ℕ

-- the dataclass's `==`
unfoldable pub contract_eq : TeacherContract → TeacherContract → Bool
contract_eq a b =
    text_eq a.capture_epoch b.capture_epoch
    && text_eq a.run_id b.run_id
    && text_eq a.config_sha256 b.config_sha256
    && text_eq a.sensor_sha256 b.sensor_sha256
    && text_eq a.teacher_sha256 b.teacher_sha256
    && a.teacher_revision == b.teacher_revision
    && a.teacher_mode == b.teacher_mode
    && a.control_interval_seconds == b.control_interval_seconds
    && a.input_size == b.input_size

-- One decoded row of `TeacherChunk`'s parallel arrays. The observations, the applied turn, the
-- strategy and the life stage are not read by the replay: `width` counts the observations.
pub record Row : Type 0 where
  pub step : ℕ
  pub ordinal : ℕ
  pub flags : ℕ
  pub strata : ℕ

-- `TeacherChunk`: its rows are the first and the later ones, since the decoder admits no empty
-- chunk.
pub record TeacherChunk : Type 0 where
  pub contract : TeacherContract
  pub sequence : ℕ
  pub generation : ℕ
  pub baseline_slot : ℕ
  pub physical_snake_id : ℕ
  pub start_reason : Text
  pub end_reason : Text
  pub first_row : Row
  pub later_rows : List Row
  pub raw_bytes : List ℕ

abbrev pub row_count : TeacherChunk → ℕ
row_count chunk = length chunk.later_rows + 1

-- `TeacherChunk.byte_cost`: the raw bytes, and the eight arrays: two of uint64, the Float32
-- observations and turn, three of uint8 and one of uint16.
unfoldable pub byte_cost : TeacherChunk → ℕ
byte_cost chunk =
    length chunk.raw_bytes
    + row_count chunk * (8 + 8 + chunk.contract.input_size * 4 + 4 + 1 + 1 + 1 + 2)

-- `DatasetManifest`; of the raw object that it keeps, the two retention counters that the client
-- reads.
pub record DatasetManifest : Type 0 where
  pub contract : TeacherContract
  pub run_seed : ℕ
  pub sensor_json : Text
  pub production_watermark : ℕ
  pub storage_watermark : ℕ
  pub retention_floor : ℕ
  pub resolved_through : ℕ
  pub retained_bytes : ℕ
  pub retained_chunks : ℕ

-- `DatasetManifest.compatible`
unfoldable pub compatible : DatasetManifest → DatasetManifest → Bool
unfolding contract_eq
compatible a b =
    contract_eq a.contract b.contract
    && a.run_seed == b.run_seed
    && text_eq a.sensor_json b.sensor_json
