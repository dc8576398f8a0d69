-- ===== src/Measure.antt =====
-- host/lib/runner_proto.py, the RUN_COMPLETE record of measure-v2: its PMU block, its CRC and the
-- parser. A word is a number below 2 ^ 32; a failed check is the `ProtocolError` of its message.
pub mod Encoding
pub mod Parse
pub mod Pmu
use mps4_prototyping_board.Prelude.{
  ℕ, ◌+◌, ◌-◌, ◌*◌, ◌/◌, ◌%◌, ◌^◌, bit_and, bit_or, List, [], ◌∷◌, ◌++◌, map, Bool, true, false,
  not, Option, none, some, length, take, drop, get_or, ltb, ◌==◌, if◌then◌else◌, Result, ok, err,
  ◌>>=◌, ◌>>◌, refuse_if,
}
use mps4_prototyping_board.Bytes.{Bytes, words, crc32}
use mps4_prototyping_board.Proto.{max_payload}

abbrev pub rme_magic : ℕ
rme_magic = 0x524D_4531

abbrev pub rme_abi_version : ℕ
rme_abi_version = 1

abbrev pub rme_header_words : ℕ
rme_header_words = 8

abbrev pub rme_known_fields : ℕ
rme_known_fields = 47

abbrev pub rme_min_words : ℕ
rme_min_words = rme_header_words + rme_known_fields

abbrev pub rme_max_words : ℕ
rme_max_words = max_payload / 4

abbrev pub rme_pmu_fields : ℕ
rme_pmu_fields = 55

abbrev pub rme_pmu_total_words : ℕ
rme_pmu_total_words = rme_header_words + rme_known_fields + rme_pmu_fields

abbrev pub npu_pmu_cycle_width_bits : ℕ
npu_pmu_cycle_width_bits = 48

-- The eight event slots of the ABI, `range(NPU_PMU_ABI_EVENT_SLOTS)`.
abbrev pub abi_event_slots : ℕ
abi_event_slots = 8

abbrev pub slots : List ℕ
slots = 0 ∷ 1 ∷ 2 ∷ 3 ∷ 4 ∷ 5 ∷ 6 ∷ 7 ∷ []

-- `run_completed | run_rc_ok | output_changed | coarse_window`
abbrev pub run_valid_required_mask : ℕ
run_valid_required_mask = bit_or (bit_or 0x01 0x02) (bit_or 0x04 0x08)

pub data MeasureError : Type 0 where
  short_pmu_block length_mismatch short_header short_payload : MeasureError
  bad_magic bad_version bad_header_words below_minimum over_cap declared_mismatch : MeasureError
  crc_mismatch : MeasureError

-- The dictionary that `decode_pmu_block` returns, by its keys.
pub record PmuBlock : Type 0 where
  pub record_schema_version : ℕ
  pub instrumentation_mode_requested : ℕ
  pub instrumentation_mode_applied : ℕ
  pub event_set_id : ℕ
  pub configuration_sequence : ℕ
  pub npu_pmu_present : ℕ
  pub pmu_probe_performed : ℕ
  pub hw_event_counter_count : ℕ
  pub expected_hw_event_counter_count : ℕ
  pub abi_event_slot_count : ℕ
  pub effective_event_slot_count : ℕ
  pub requested_event_count : ℕ
  pub applied_event_count : ℕ
  pub event_valid_mask : ℕ
  pub event_overflow_mask : ℕ
  pub npu_pmu_window_cycles_lo : ℕ
  pub npu_pmu_window_cycles_hi : ℕ
  pub npu_pmu_cycle_valid : ℕ
  pub npu_pmu_cycle_overflow : ℕ
  pub npu_pmu_cycle_read_retry_count : ℕ
  pub pmu_sample_valid : ℕ
  pub completion_wait_mode : ℕ
  pub t_pmu_enable : ℕ
  pub t_inference_call_enter : ℕ
  pub t_inference_call_return : ℕ
  pub t_pmu_disable : ℕ
  pub t_pmu_programming : ℕ
  pub cpu_call_window_cycles : ℕ
  pub cpu_return_to_pmu_disable_cycles : ℕ
  pub t_result_processing : ℕ
  pub pmu_mmio_read_count_total : ℕ
  pub pmu_mmio_write_count_total : ℕ
  pub pmu_mmio_read_count_delta : ℕ
  pub pmu_mmio_write_count_delta : ℕ
  pub pmcr_at_disable : ℕ
  pub cycle_counter_armed : ℕ
  pub cycle_global_enable_verified : ℕ
  pub cycle_read_stable : ℕ
  pub cycle_progress_observed : ℕ
  pub event_codes : List (Option ℕ)
  pub event_values : List (Option ℕ)
  pub event_overflow : List (Option Bool)
  pub npu_pmu_window_cycles_raw : ℕ
  pub npu_pmu_window_cycles : Option ℕ

-- `(mask >> n) & 1`
abbrev pub bit : ℕ → ℕ → Bool
bit mask n = mask / 2 ^ n % 2 == 1

-- `[xs[n] if (mask >> n) & 1 else None for n in range(8)]`
unfoldable pub judged : ℕ → List ℕ → List (Option ℕ)
judged mask xs = map (λ n. if bit mask n then some (get_or xs n 0) else none) slots

-- `[bool((ovf >> n) & 1) if (mask >> n) & 1 else None for n in range(8)]`
unfoldable pub overflows : ℕ → ℕ → List (Option Bool)
overflows mask ovf = map (λ n. if bit mask n then some (bit ovf n) else none) slots

-- `lo | ((hi & 0xFFFF) << 32)`, cut to the counter's 48 bits.
unfoldable pub window_cycles : ℕ → ℕ → ℕ
window_cycles lo hi = bit_or lo (bit_and hi 0xFFFF * 2 ^ 32) % 2 ^ npu_pmu_cycle_width_bits

-- `decode_pmu_block` on a block that is long enough.
unfoldable pub pmu_fields : List ℕ → PmuBlock
unfolding judged overflows
pmu_fields words =
    let at = λ (i : ℕ). get_or words i 0 in
    let mask = at 13 in
    let raw = window_cycles (at 31) (at 32) in
    record {
      record_schema_version = at 0;
      instrumentation_mode_requested = at 1;
      instrumentation_mode_applied = at 2;
      event_set_id = at 3;
      configuration_sequence = at 4;
      npu_pmu_present = at 5;
      pmu_probe_performed = at 6;
      hw_event_counter_count = at 7;
      expected_hw_event_counter_count = at 8;
      abi_event_slot_count = at 9;
      effective_event_slot_count = at 10;
      requested_event_count = at 11;
      applied_event_count = at 12;
      event_valid_mask = at 13;
      event_overflow_mask = at 14;
      npu_pmu_window_cycles_lo = at 31;
      npu_pmu_window_cycles_hi = at 32;
      npu_pmu_cycle_valid = at 33;
      npu_pmu_cycle_overflow = at 34;
      npu_pmu_cycle_read_retry_count = at 35;
      pmu_sample_valid = at 36;
      completion_wait_mode = at 37;
      t_pmu_enable = at 38;
      t_inference_call_enter = at 39;
      t_inference_call_return = at 40;
      t_pmu_disable = at 41;
      t_pmu_programming = at 42;
      cpu_call_window_cycles = at 43;
      cpu_return_to_pmu_disable_cycles = at 44;
      t_result_processing = at 45;
      pmu_mmio_read_count_total = at 46;
      pmu_mmio_write_count_total = at 47;
      pmu_mmio_read_count_delta = at 48;
      pmu_mmio_write_count_delta = at 49;
      pmcr_at_disable = at 50;
      cycle_counter_armed = at 51;
      cycle_global_enable_verified = at 52;
      cycle_read_stable = at 53;
      cycle_progress_observed = at 54;
      event_codes = judged mask (take abi_event_slots (drop 15 words));
      event_values = judged mask (take abi_event_slots (drop 23 words));
      event_overflow = overflows mask (at 14);
      npu_pmu_window_cycles_raw = raw;
      npu_pmu_window_cycles = if at 33 == 0 then none else some raw;
    }

unfoldable pub decode_pmu_block : List ℕ → Result MeasureError PmuBlock
decode_pmu_block words =
    if ltb (length words) rme_pmu_fields then err short_pmu_block else ok (pmu_fields words)

-- The CRC covers word 4 to the last word but word 7, which holds it: `payload[16:28]` and
-- `payload[32:total_bytes]`.
unfoldable pub covered : Bytes → ℕ → Bytes
covered payload total_bytes = take 12 (drop 16 payload) ++ take (total_bytes - 32) (drop 32 payload)

unfoldable pub measurement_payload_crc : Bytes → ℕ → Result MeasureError ℕ
measurement_payload_crc payload total_words = do
  let total_bytes = total_words * 4
  refuse_if (not (length payload == total_bytes)) length_mismatch
  refuse_if (ltb total_bytes (rme_header_words * 4)) short_header
  ok (crc32 (covered payload total_bytes))

pub record Measurement : Type 0 where
  pub run_sequence : ℕ
  pub valid_flags : ℕ
  pub run_rc : ℕ
  pub fields : List ℕ
  pub trailing_words : ℕ
  pub pmu : Option PmuBlock
  pub trailing : List ℕ

-- `Measurement.required_flags_ok`
unfoldable pub required_flags_ok : Measurement → Bool
required_flags_ok m = bit_and m.valid_flags run_valid_required_mask == run_valid_required_mask

-- The PMU block is decoded where the record is long enough to hold one, and is absent otherwise.
unfoldable pub pmu_of : ℕ → List ℕ → Result MeasureError (Option PmuBlock)
pmu_of total_words block =
    if ltb total_words rme_pmu_total_words
    then ok none
    else (decode_pmu_block block >>= λ p. ok (some p))

-- `parse_measurement_payload`
unfoldable pub parse_measurement_payload : Bytes → Result MeasureError Measurement
parse_measurement_payload payload = do
  refuse_if (ltb (length payload) (rme_header_words * 4)) short_payload
  let header = λ (i : ℕ). get_or (words payload) i 0
  let total_words = header 2
  refuse_if (not (header 0 == rme_magic)) bad_magic
  refuse_if (not (header 1 == rme_abi_version)) bad_version
  refuse_if (not (header 3 == rme_header_words)) bad_header_words
  refuse_if (ltb total_words rme_min_words) below_minimum
  refuse_if (ltb rme_max_words total_words) over_cap
  refuse_if (not (total_words * 4 == length payload)) declared_mismatch
  crc ← measurement_payload_crc payload total_words
  refuse_if (not (crc == header 7)) crc_mismatch
  let body = take (total_words - rme_header_words) (words (drop (rme_header_words * 4) payload))
  pmu ← pmu_of total_words (drop rme_known_fields body)
  ok (record {
    run_sequence = header 4;
    valid_flags = header 5;
    run_rc = header 6;
    fields = take rme_known_fields body;
    trailing_words = length body - rme_known_fields;
    pmu = pmu;
    trailing = drop (rme_known_fields + rme_pmu_fields) body;
  })
