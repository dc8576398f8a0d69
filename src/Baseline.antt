-- ===== src/Baseline.antt =====
-- host/lib/results.py, `run_checks` of host/analysis/baseline_gate.py and `stage1_checks` of
-- host/analysis/stage1.py: the runs of a campaign and the checks of one. The cells of runs.csv are given
-- decoded: a number that may be empty is an option.
pub mod Boot
pub mod Boots
pub mod Reps
pub mod Outcomes
pub mod Checks
pub mod Passes
pub mod Rows
pub mod Overall
use mps4_prototyping_board.Prelude.{
  ℕ, zero, suc, ◌+◌, ◌-◌, ◌*◌, ◌/◌, ◌%◌, List, [], ◌∷◌, ◌++◌, map, Bool, true, false, not, ◌&&◌,
  ◌||◌, Option, none, some, ltb, leb, ◌==◌, if◌then◌else◌, length, get_or, Result, ok, err, ◌>>=◌,
  Name, codes, same_name, sorted,
}
use mps4_prototyping_board.Bytes.{starts_with}
use mps4_prototyping_board.Events.{is, all_of}
use mps4_prototyping_board.Events.Verdicts.{within_percent, distance}
use mps4_prototyping_board.Pmwl.Knobs.{KnobError, Wanted, knobs, get_key}

-- One row of runs.csv.
pub record CsvRow : Type 0 where
  pub rep : ℕ
  pub run_valid : Bool
  pub window_cycles : Option ℕ
  pub run_rc : Option ℕ
  pub vendor_rc : Option ℕ
  pub ofm_mismatch : Option ℕ
  pub event_overflow : Bool
  pub ev_type : ℕ
  pub event_value : Option ℕ

-- A dictionary of `load_runs`; the events are by their number, of which `event_name` is a name.
pub record RunRow : Type 0 where
  pub rep : ℕ
  pub valid : Bool
  pub overflow : Bool
  pub window_cycles : Option ℕ
  pub run_rc : Option ℕ
  pub vendor_rc : Option ℕ
  pub ofm_mismatch : Option ℕ
  pub events : List (ℕ × Option ℕ)

-- `run.get(name)`: an absent event and one without a value are both None.
unfoldable pub event : ℕ → List (ℕ × Option ℕ) → Option ℕ
event ev [] = none
event ev ((k, v) ∷ rows) = let rest = event ev rows in if k == ev then v else rest

-- The run that `setdefault` makes of the first row of a repeat.
unfoldable pub fresh_run : CsvRow → RunRow
fresh_run r = record {
  rep = r.rep;
  valid = r.run_valid;
  overflow = false;
  window_cycles = r.window_cycles;
  run_rc = r.run_rc;
  vendor_rc = r.vendor_rc;
  ofm_mismatch = r.ofm_mismatch;
  events = [];
}

-- What each row adds to the run of its repeat; the last value of an event stands first.
unfoldable pub add_row : CsvRow → RunRow → RunRow
add_row r run = record {
  rep = run.rep;
  valid = run.valid;
  overflow = run.overflow || r.event_overflow;
  window_cycles = run.window_cycles;
  run_rc = run.run_rc;
  vendor_rc = run.vendor_rc;
  ofm_mismatch = run.ofm_mismatch;
  events = (r.ev_type, r.event_value) ∷ run.events;
}

-- One step of the loop over the rows.
unfoldable pub take_row : CsvRow → List RunRow → List RunRow
unfolding fresh_run add_row
take_row r [] = add_row r (fresh_run r) ∷ []
take_row r (run ∷ runs) =
    let rest = take_row r runs in if run.rep == r.rep then add_row r run ∷ runs else run ∷ rest

unfoldable pub take_rows : List RunRow → List CsvRow → List RunRow
unfolding take_row
take_rows runs [] = runs
take_rows runs (r ∷ rows) = take_rows (take_row r runs) rows

-- `load_runs`
unfoldable pub load_runs : List CsvRow → List RunRow
unfolding take_rows
load_runs rows = sorted (λ (a : RunRow) (b : RunRow). leb a.rep b.rep) (take_rows [] rows)

-- `measured_valid`
unfoldable pub measured_valid : ℕ → List RunRow → List RunRow
measured_valid warmup [] = []
measured_valid warmup (r ∷ runs) =
    let rest = measured_valid warmup runs in if ltb warmup r.rep && r.valid then r ∷ rest else rest

-- The events that the gate reads.
abbrev pub cycle : ℕ
cycle = 17

abbrev pub npu_active : ℕ
npu_active = 35

abbrev pub mac_active : ℕ
mac_active = 48

pub data RunCheck : Type 0 where
  r1_valid r2_rc r3_output r4_overflow r5_active r6_cycle r6s_mac_le_npu : RunCheck

-- `test` where both numbers are there.
abbrev pub both_given : (ℕ → ℕ → Bool) → Option ℕ → Option ℕ → Bool
both_given test none w = false
both_given test (some a) none = false
both_given test (some a) (some w) = test a w

-- `[k for k, ok in checks.items() if not ok]`
unfoldable pub failing {ℓ} : {K : Type ℓ} → List (K × Bool) → List K
failing [] = []
failing ((k, holds) ∷ checks) = let rest = failing checks in if holds then rest else k ∷ rest

-- The checks that both stages share.
unfoldable pub shared_checks : RunRow → List (RunCheck × Bool)
unfolding event
shared_checks run =
    let a = event npu_active run.events in
    (r1_valid, run.valid)
    ∷ (r2_rc, is 0 run.run_rc)
    ∷ (r3_output, is 0 run.vendor_rc && is 0 run.ofm_mismatch)
    ∷ (r4_overflow, not run.overflow)
    ∷ (r5_active, both_given (λ a w. ltb 0 a && leb a w) a run.window_cycles)
    ∷ []

unfoldable pub run_checks : RunRow → List RunCheck
unfolding shared_checks failing event
run_checks run = failing (
    shared_checks run
    ++ (r6_cycle, both_given within_percent (event cycle run.events) run.window_cycles) ∷ [])

-- `[k for k in run_checks(run) if k != "R6_cycle"]`
unfoldable pub without_r6 : List RunCheck → List RunCheck
without_r6 [] = []
without_r6 (r6_cycle ∷ checks) = without_r6 checks
without_r6 (check ∷ checks) = check ∷ without_r6 checks

unfoldable pub stage1_checks : RunRow → List RunCheck
unfolding without_r6 run_checks event failing
stage1_checks run =
    without_r6 (run_checks run)
    ++ failing (
        (
          r6s_mac_le_npu,
          both_given (λ a m. leb m a) (event npu_active run.events) (event mac_active run.events),
        )
        ∷ [])
