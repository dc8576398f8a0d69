-- ===== src/Campaign.antt =====
-- host/board/run_pmu_events.py: the sweep of one boot over the link, from the first PING to the rows. The
-- files, the raw records, the names of the events and the provenance of a row are left out; `load_end_timeout` is an
-- argument. The link speaks measure-v2, so that `run` is `run_measured`.
pub mod Loop
pub mod Refusals
pub mod Rows
pub mod Coverage
pub mod Exit
pub mod Summary
use mps4_prototyping_board.Prelude.{
  ℕ, zero, suc, ◌+◌, ◌-◌, ◌^◌, List, [], ◌∷◌, ◌++◌, Bool, true, false, not, ◌&&◌, ◌||◌, Option,
  none, some, length, take, drop, get_elem?, ◌==◌, if◌then◌else◌, Result, ok, err, or_raise,
  refuse_if, ◌>>=◌, ◌>>◌,
}
use mps4_prototyping_board.Bytes.{Bytes, crc32}
use mps4_prototyping_board.Measure.{Measurement, PmuBlock, required_flags_ok}
use mps4_prototyping_board.Link.{
  Link, LinkError, timed_out, unexpected_response, measurement, run_sequence, nack, struct_error,
  index_error, needs_run_sequence, too_many_codes, out_of_fuel, M, run_measured,
}
use mps4_prototyping_board.Link.Commands.{
  Counters, ping, load_model_begin, load_model_chunk, load_model_end, load_input, reset_runner,
  set_instrumentation_mode,
}
use mps4_prototyping_board.Events.{
  Mode, Run, Term, codes_echo, run_validity, instrumentation_events,
}

-- The rules of a refusal, and an error that nothing catches.
pub data Stop : Type 0 where
  rule_ping rule_capability rule_mode_nack rule_run_transport rule_record_schema rule_codes_echo :
      Stop
  uncaught : LinkError → Stop

-- A row of runs.csv.
pub record SweepRow : Type 0 where
  pub set_id : ℕ
  pub rep : ℕ
  pub slot : ℕ
  pub ev_type : ℕ
  pub event_value : Option ℕ
  pub event_overflow : Option Bool
  pub window_cycles : Option ℕ
  pub run_valid : Bool

-- What a sweep is asked to do.
pub record Sweep : Type 0 where
  pub blob : Bytes
  pub cms_len : ℕ
  pub validity : Mode
  pub keep_model : Bool
  pub repeats : ℕ
  pub end_timeout : ℕ

-- `m.trailing[i]`, or None.
abbrev pub trailing_at : Measurement → ℕ → Option ℕ
trailing_at m i = get_elem? m.trailing i

-- The dictionary `r` of a run.
unfoldable pub run_of : Sweep → ℕ → Measurement → PmuBlock → Run
run_of s rc m p = record {
  run_rc = rc;
  required_flags_ok = required_flags_ok m;
  pmu = p;
  seam_fired = trailing_at m 0;
  valid_flags = m.valid_flags;
  vendor_rc = trailing_at m 1;
  seam_npu_status = trailing_at m 2;
  seam_npu_qread = trailing_at m 3;
  cms_len = s.cms_len;
}

-- `"codes_echo" in failed`
unfoldable pub failed_echo : List Term → Bool
failed_echo [] = false
failed_echo (codes_echo ∷ failed) = true
failed_echo (term ∷ failed) = failed_echo failed

-- `m.pmu["event_values"][slot] if ok else None`
abbrev pub value_at : PmuBlock → Bool → ℕ → Result Stop (Option ℕ)
value_at p true slot = or_raise (uncaught index_error) (get_elem? p.event_values slot)
value_at p false slot = ok none

abbrev pub row_of : ℕ → ℕ → PmuBlock → Bool → ℕ → ℕ → Option ℕ → Option Bool → SweepRow
row_of set_id rep p valid slot ev value overflow = record {
  set_id = set_id;
  rep = rep;
  slot = slot;
  ev_type = ev;
  event_value = value;
  event_overflow = overflow;
  window_cycles = p.npu_pmu_window_cycles;
  run_valid = valid;
}

-- The rows of a run, one for each code; an index past the record's slots is an IndexError.
unfoldable pub rows_of : ℕ → ℕ → PmuBlock → Bool → ℕ → List ℕ → Result Stop (List SweepRow)
rows_of set_id rep p valid slot [] = ok []
rows_of set_id rep p valid slot (ev ∷ codes) = do
  value ← value_at p valid slot
  overflow ← or_raise (uncaught index_error) (get_elem? p.event_overflow slot)
  rest ← rows_of set_id rep p valid (suc slot) codes
  ok (row_of set_id rep p valid slot ev value overflow ∷ rest)

-- The refusal of a full mask with other codes, and else the rows.
unfoldable pub judge_valid :
    ℕ → ℕ → List ℕ → PmuBlock → Option (Bool × List Term) → Result Stop (List SweepRow)
unfolding failed_echo rows_of
judge_valid set_id rep codes p none = err (uncaught index_error)
judge_valid set_id rep codes p (some (valid, failed)) =
    refuse_if (failed_echo failed && (not valid && p.event_valid_mask == 2 ^ length codes - 1))
      rule_codes_echo
    >> rows_of set_id rep p valid 0 codes

-- What is made of the record of a run.
unfoldable pub judge_record :
    Sweep → ℕ → ℕ → List ℕ → ℕ → Option Measurement → Result Stop (List SweepRow)
unfolding run_of judge_valid
judge_record s set_id rep codes rc none = err rule_record_schema
judge_record s set_id rep codes rc (some m) = do
  p ← or_raise rule_record_schema m.pmu
  refuse_if (not (p.record_schema_version == 1)) rule_record_schema
  judge_valid set_id rep codes p (run_validity (run_of s rc m p) codes s.validity)
