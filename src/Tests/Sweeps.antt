-- ===== src/Tests/Sweeps.antt =====
-- Runs of the sweep's rules: the sets of ten events, the validity of a run, and the verdicts.
use mps4_prototyping_board.Prelude.{
  false, map, err, ◌⊎◌, ℕ, ◌≡◌, ◌≢◌, ◌↔◌, refl, List, [], ◌∷◌, true, Option, none, some, ok, All,
  has, sorted,
}
use mps4_prototyping_board.Measure.{Measurement, pmu_fields, required_flags_ok, window_cycles}
use mps4_prototyping_board.Proto.{measure_v2}
use mps4_prototyping_board.Campaign.{Sweep, SweepRow, run_of, rule_capability, judge_record}
use mps4_prototyping_board.Campaign.Loop.{Camp, sweep}
use mps4_prototyping_board.Campaign.Rows.{NoValue, judge_record-rows}
use mps4_prototyping_board.Campaign.Refusals.{sweep-ne-capability}
use mps4_prototyping_board.Events.{nat_equality, wanted, event_sets, Run, exact, run_validity}
use mps4_prototyping_board.Events.Verdicts.{verdict, inconsistent, Row}
use mps4_prototyping_board.Events.Chunks.{Covers, event_sets-Covers}
use mps4_prototyping_board.Events.Validity.{IsCounted, IsDone, run_validity_iff}

abbrev known : List ℕ
known = 17 ∷ 32 ∷ 35 ∷ 48 ∷ 51 ∷ 52 ∷ 55 ∷ 64 ∷ 80 ∷ 81 ∷ 130 ∷ []

abbrev asked : List ℕ
asked = 81 ∷ 17 ∷ 35 ∷ 32 ∷ 48 ∷ 51 ∷ 52 ∷ 17 ∷ 55 ∷ 64 ∷ 80 ∷ []

abbrev two_sets : List (ℕ × List ℕ)
two_sets = (1, 17 ∷ 32 ∷ 35 ∷ 48 ∷ 51 ∷ 52 ∷ 55 ∷ 64 ∷ []) ∷ (2, 80 ∷ 81 ∷ []) ∷ []

event_sets_run : event_sets known (some asked) ≡ ok two_sets
unfolding event_sets sorted has
event_sets_run = refl

event_sets-Covers_example : Covers known (wanted known (some asked)) two_sets
event_sets-Covers_example = event_sets-Covers known (some asked) two_sets event_sets_run

-- A record with slots 0 and 1 valid: the codes 17 and 35 counted.
abbrev counted_words : List ℕ
counted_words =
    1 ∷ 2 ∷ 2 ∷ 1 ∷ 0 ∷ 1 ∷ 1 ∷ 8 ∷ 8 ∷ 8 ∷ 8 ∷ 2 ∷ 2 ∷ 3 ∷ 0 ∷ 17 ∷ 35 ∷ 0 ∷ 0 ∷ 0 ∷ 0 ∷ 0 ∷ 0
    ∷ 100 ∷ 90 ∷ 0 ∷ 0 ∷ 0 ∷ 0 ∷ 0 ∷ 0 ∷ 100 ∷ 0 ∷ 1 ∷ 0 ∷ 0 ∷ 0 ∷ 0 ∷ 0 ∷ 0 ∷ 0 ∷ 0 ∷ 0 ∷ 0 ∷ 0 ∷ 0
    ∷ 0 ∷ 0 ∷ 0 ∷ 0 ∷ 0 ∷ 1 ∷ 1 ∷ 1 ∷ 1 ∷ []

abbrev good_run : Run
good_run = record {
  run_rc = 0;
  required_flags_ok = true;
  pmu = pmu_fields counted_words;
  seam_fired = some 1;
  valid_flags = 15;
  vendor_rc = some 0;
  seam_npu_status = some 32;
  seam_npu_qread = some 64;
  cms_len = 64;
}

run_validity_run : run_validity good_run (17 ∷ 35 ∷ []) exact ≡ some (true, [])
unfolding run_validity pmu_fields
run_validity_run = refl

run_validity_iff_example :
    (run_validity good_run (17 ∷ 35 ∷ []) exact ≡ some (true, []))
    ↔ (IsCounted good_run (17 ∷ 35 ∷ []) × IsDone good_run exact)
run_validity_iff_example = run_validity_iff good_run (17 ∷ 35 ∷ []) exact

abbrev three_values : List (Option ℕ)
three_values = some 5 ∷ none ∷ some 0 ∷ some 7 ∷ []

verdict_run : verdict 3 three_values ≡ inconsistent
unfolding verdict
verdict_run = refl

abbrev some_rows : List Row
some_rows =
    record { ev_type = 17; event_value = some 995; window_cycles = some 1000 }
    ∷ record { ev_type = 35; event_value = some 900; window_cycles = some 1000 }
    ∷ []

abbrev counted : Measurement
counted = record {
  run_sequence = 1;
  valid_flags = 15;
  run_rc = 0;
  fields = [];
  trailing_words = 59;
  pmu = some (pmu_fields counted_words);
  trailing = 1 ∷ 0 ∷ 32 ∷ 64 ∷ [];
}

abbrev boot : Sweep
boot = record {
  blob = [];
  cms_len = 64;
  validity = exact;
  keep_model = true;
  repeats = 3;
  end_timeout = 5000;
}

abbrev boot_row : ℕ → ℕ → ℕ → SweepRow
boot_row slot ev value = record {
  set_id = 1;
  rep = 1;
  slot = slot;
  ev_type = ev;
  event_value = some value;
  event_overflow = some false;
  window_cycles = some 100;
  run_valid = true;
}

judge_record_run :
    judge_record boot 1 1 (17 ∷ 35 ∷ []) 0 (some counted)
    ≡ ok (boot_row 0 17 100 ∷ boot_row 1 35 90 ∷ [])
unfolding judge_record run_validity pmu_fields required_flags_ok window_cycles
judge_record_run = refl

judge_record-rows_example :
    (map (λ r. r.ev_type) (boot_row 0 17 100 ∷ boot_row 1 35 90 ∷ []) ≡ 17 ∷ 35 ∷ [])
    × ((IsCounted (run_of boot 0 counted (pmu_fields counted_words)) (17 ∷ 35 ∷ [])
          × IsDone (run_of boot 0 counted (pmu_fields counted_words)) exact)
        ⊎ All NoValue (boot_row 0 17 100 ∷ boot_row 1 35 90 ∷ []))
judge_record-rows_example =
    judge_record-rows boot 1 1 (17 ∷ 35 ∷ []) 0 counted (pmu_fields counted_words)
      (boot_row 0 17 100 ∷ boot_row 1 35 90 ∷ []) refl judge_record_run

-- A port where nothing arrives.
abbrev silent : Camp
silent = record {
  link = record {
    protocol = measure_v2;
    late_frames = 0;
    last_measurement = none;
    receiver = record { buf = []; text_log = []; resyncs = 0 };
    seq = 0;
    sent = [];
    clock = 0 ∷ 6000 ∷ [];
    chunks = [];
  };
  rows = [];
}

sweep-ne-capability_example : (sweep boot two_sets silent).0 ≢ err rule_capability
sweep-ne-capability_example = sweep-ne-capability boot two_sets silent
