-- ===== src/Distillation/Client/Descriptor.antt =====
-- `TeacherDescriptor.from_object` of pyrl_trainer/distillation_transport.py.
use py_rl_trainer.Prelude.{
  ℕ, ◌+◌, Bool, true, false, ◌&&◌, ◌||◌, List, [], ◌∷◌, ok, ◌>>=◌, ◌>>◌, guard, leb, ◌==◌,
  if◌then◌else◌,
}
use py_rl_trainer.Prelude.Int.{pos}
use py_rl_trainer.Wire.{Value, bool, int, float, str}
use py_rl_trainer.Wire.Str.{Text, text_eq}
use py_rl_trainer.Wire.Float.{of_nat, is_zero}
use py_rl_trainer.Distillation.Transport.{
  Checked, integer, hex_identity, hex_number, text_of, TeacherContract, contract_mismatch,
  chronology, boundary_reasons,
}
use py_rl_trainer.Distillation.Client.{TeacherDescriptor}

-- The constants of slither_contracts that bound a descriptor.
pub record WireLimits : Type 0 where
  pub start_reasons : List Text
  pub end_reasons : List Text
  pub max_chunk_bytes : ℕ

-- `raw[key]` for each key of a chunk descriptor
pub record DescriptorFields : Type 0 where
  pub capture_epoch : Value
  pub config_sha256 : Value
  pub sensor_sha256 : Value
  pub teacher_sha256 : Value
  pub input_size : Value
  pub sequence : Value
  pub generation : Value
  pub baseline_slot : Value
  pub physical_snake_id : Value
  pub first_sample : Value
  pub last_sample : Value
  pub first_step : Value
  pub last_step : Value
  pub count : Value
  pub start_reason : Value
  pub end_reason : Value
  pub byte_count : Value
  pub sha256 : Value

-- `value == text`
unfoldable pub value_eq_text : Value → Text → Bool
value_eq_text (str s) t = text_eq s t
value_eq_text _ t = false

-- `value == n`: Python compares a bool and a float with an int by value.
unfoldable pub value_eq_nat : Value → ℕ → Bool
unfolding of_nat is_zero
value_eq_nat (int (pos k)) n = k == n
value_eq_nat (bool b) n = (if b then 1 else 0) == n
value_eq_nat (float x) n = if n == 0 then is_zero x else x == of_nat n
value_eq_nat _ n = false

-- `value in reasons`
unfoldable pub is_among : Value → List Text → Bool
is_among value [] = false
is_among value (reason ∷ rest) = value_eq_text value reason || is_among value rest

unfoldable pub descriptor_from_object :
    WireLimits → DescriptorFields → TeacherContract → Checked TeacherDescriptor
descriptor_from_object limits raw contract = do
  guard
      (value_eq_text raw.capture_epoch contract.capture_epoch
        && value_eq_text raw.config_sha256 contract.config_sha256
        && value_eq_text raw.sensor_sha256 contract.sensor_sha256
        && value_eq_text raw.teacher_sha256 contract.teacher_sha256
        && value_eq_nat raw.input_size contract.input_size)
      contract_mismatch
  count ← integer raw.count 1 256
  first ← hex_number raw.first_sample 16 true
  last ← hex_number raw.last_sample 16 true
  start ← hex_number raw.first_step 16 true
  end ← hex_number raw.last_step 16 true
  guard (last + 1 == first + count && leb (start + count) (end + 1) && leb end (start + 60))
      chronology
  guard
      (is_among raw.start_reason limits.start_reasons && is_among raw.end_reason limits.end_reasons)
      boundary_reasons
  sequence ← hex_number raw.sequence 16 true
  generation ← hex_number raw.generation 16 true
  slot ← integer raw.baseline_slot 0 119
  physical ← hex_number raw.physical_snake_id 16 true
  start_reason ← text_of raw.start_reason
  end_reason ← text_of raw.end_reason
  byte_count ← integer raw.byte_count 1 limits.max_chunk_bytes
  sha256 ← hex_identity raw.sha256 64 false
  ok (record {
    contract = contract;
    sequence = sequence;
    generation = generation;
    baseline_slot = slot;
    physical_snake_id = physical;
    first_sample = first;
    last_sample = last;
    first_step = start;
    last_step = end;
    count = count;
    start_reason = start_reason;
    end_reason = end_reason;
    byte_count = byte_count;
    sha256 = sha256;
  })
