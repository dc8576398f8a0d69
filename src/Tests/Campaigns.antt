-- ===== src/Tests/Campaigns.antt =====
-- Runs of the knobs of a blob, of the gate over a campaign, and of the statuses.
use mps4_prototyping_board.Prelude.{
  ℕ, ◌≡◌, ◌↔◌, refl, List, [], ◌∷◌, true, false, none, some, ok, All, sorted, codes,
}
use mps4_prototyping_board.Events.Verdicts.{within_percent}
use mps4_prototyping_board.Bytes.{starts_with}
use mps4_prototyping_board.Pmwl.{off_word}
use mps4_prototyping_board.Pmwl.Knobs.{Wanted, knobs, split_two}
use mps4_prototyping_board.Pmwl.Knobs.Bounds.{Fits, knobs-Fits}
use mps4_prototyping_board.Pmwl.Knobs.Fields.{Honours, knobs-Honours}
use mps4_prototyping_board.Baseline.{CsvRow, RunRow, run_checks}
use mps4_prototyping_board.Baseline.Boot.{Summary, Profile, Manifest, gate, passed}
use mps4_prototyping_board.Baseline.Passes.{Passes, gate_iff}
use mps4_prototyping_board.Baseline.Rows.{gate-no_overflow}

-- The arguments of `knobs` for the board's profile.
abbrev asked : Wanted
asked = record {
  axi = codes "ext:rd_weights";
  ports =
      (codes "cmd", codes "ext")
      ∷ (codes "const", codes "ext")
      ∷ (codes "arena", codes "ext")
      ∷ (codes "fast", codes "sram")
      ∷ [];
  axi_limit = (codes "sram", 0x20F0B) ∷ (codes "ext", 0x21F3F) ∷ [];
  power = some 63;
  fast = some 0x3100_0100;
  ta = some 1;
}

abbrev asked_words : List ℕ
asked_words =
    258 ∷ 10 ∷ 2 ∷ 0 ∷ 0 ∷ 4 ∷ 4 ∷ 0x20F0B ∷ 0x21F3F ∷ 63 ∷ 0x3100_0100 ∷ 1 ∷ off_word ∷ off_word
    ∷ off_word ∷ off_word ∷ []

knobs_run : knobs asked ≡ ok asked_words
unfolding knobs split_two
knobs_run = refl

knobs-Fits_example : Fits asked_words
knobs-Fits_example = knobs-Fits asked asked_words knobs_run

knobs-Honours_example : Honours asked asked_words
knobs-Honours_example = knobs-Honours asked asked_words knobs_run

abbrev row_of : ℕ → ℕ → ℕ → CsvRow
row_of rep ev value = record {
  rep = rep;
  run_valid = true;
  window_cycles = some 1000;
  run_rc = some 0;
  vendor_rc = some 0;
  ofm_mismatch = some 0;
  event_overflow = false;
  ev_type = ev;
  event_value = some value;
}

-- Two repeats, whose rows are not in order.
abbrev rows : List CsvRow
rows = row_of 2 17 995 ∷ row_of 1 17 1000 ∷ row_of 1 35 900 ∷ row_of 2 35 901 ∷ []

abbrev summary : Summary
summary = record {
  provenance = (codes "fpga", codes "FI101") ∷ [];
  blob_sha256 = some (codes "ab");
  cms_sha256 = some (codes "cd");
  ifm_sha256 = none;
  golden_sha256 = none;
  blob_knobs = some asked_words;
  requested_ids = some (17 ∷ 35 ∷ []);
  coverage = codes "COMPLETE_SUBSET(2)";
  refused = false;
  runs = some 2;
}

abbrev profile : Profile
profile = record { image = (codes "fpga", codes "FI101") ∷ []; knob_args = asked; repeats = 2 }

abbrev manifest : Manifest
manifest = record { blob_sha256 = codes "ab"; cms_sha256 = codes "cd"; golden = none }

gate_run : passed (gate (some (summary, rows)) profile manifest (17 ∷ 35 ∷ []) run_checks) ≡ true
unfolding gate run_checks starts_with sorted within_percent
gate_run = refl

gate_iff_example :
    (passed (gate (some (summary, rows)) profile manifest (17 ∷ 35 ∷ []) run_checks) ≡ true)
    ↔ Passes summary rows profile manifest (17 ∷ 35 ∷ []) run_checks
gate_iff_example = gate_iff summary rows profile manifest (17 ∷ 35 ∷ []) run_checks

gate-no_overflow_example : All (λ r. r.event_overflow ≡ false) rows
gate-no_overflow_example = gate-no_overflow summary rows profile manifest (17 ∷ 35 ∷ []) gate_run

abbrev good_row : RunRow
good_row = record {
  rep = 6;
  valid = true;
  overflow = false;
  window_cycles = some 1000;
  run_rc = some 0;
  vendor_rc = some 0;
  ofm_mismatch = some 0;
  events = (17, some 1000) ∷ (35, some 900) ∷ (48, some 400) ∷ [];
}
