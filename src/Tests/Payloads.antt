-- ===== src/Tests/Payloads.antt =====
-- Runs of the statuses of an operator, over the natural numbers, and of the payload of a driver.
use mps4_prototyping_board.Prelude.{
  ℕ, ◌+◌, ◌-◌, ◌≡◌, ◌≢◌, inl, inr, refl, arith, ◌↔◌, [], ◌∷◌, true, false, err, ltb, leb, ◌==◌,
  Bool-cases,
}
use mps4_prototyping_board.Bytes.{Bytes}
use mps4_prototyping_board.Study.{
  Numbers, Spread, mac_active_ratio, wd_stalled_ratio, Metrics, trm, separation, lower, higher,
  supported, inactivity_status,
}
use mps4_prototyping_board.Study.Statuses.{IsOrder, inactivity_status-supported_iff}
use mps4_prototyping_board.Workload.{out_of_fuel, extract_cms}
use mps4_prototyping_board.Workload.Walk.{extract_cms_total}

-- Ratios in thousandths.
abbrev pub thousandths : Numbers
thousandths = record {
  Num = ℕ;
  lt = ltb;
  leq = leb;
  same = λ a b. a == b;
  minus = λ a b. a - b;
  nil = 0;
}

pub thousandths-IsOrder : IsOrder thousandths
thousandths-IsOrder = record {
  asym = λ (a : ℕ) (b : ℕ) h. ground arith;
  between = λ (a : ℕ) (b : ℕ) (c : ℕ) h. elim (Bool-cases (ltb a c)) [
    | inl e ↦ inl e
    | inr e ↦ inr (ground arith)
  ];
}

abbrev around : ℕ → Spread ℕ
around m = record { median = m; min = m - 5; max = m + 5; deterministic = false }

-- An operator whose MACs are active less, and whose weight stream stalls more.
abbrev slow : Metrics thousandths
slow mac_active_ratio = around 300
slow wd_stalled_ratio = around 600
slow metric = around 100

abbrev fast : Metrics thousandths
fast mac_active_ratio = around 700
fast wd_stalled_ratio = around 100
fast metric = around 100

inactivity_status_run : inactivity_status thousandths slow fast wd_stalled_ratio trm ≡ supported
unfolding inactivity_status
inactivity_status_run = refl

inactivity_status-supported_iff_example :
    (inactivity_status thousandths slow fast wd_stalled_ratio trm ≡ supported) ↔ (
      (trm ≡ trm)
      × (separation thousandths (slow mac_active_ratio) (fast mac_active_ratio) ≡ lower)
      × (separation thousandths (slow wd_stalled_ratio) (fast wd_stalled_ratio) ≡ higher)
      × (leb
            ((fast mac_active_ratio).median - (slow mac_active_ratio).median)
            ((slow wd_stalled_ratio).median - (fast wd_stalled_ratio).median)
          ≡ true))
inactivity_status-supported_iff_example =
    inactivity_status-supported_iff thousandths slow fast wd_stalled_ratio trm

-- COP1, an OPTIMIZER_CONFIG, a NOP, and a COMMAND_STREAM of one word.
abbrev payload : Bytes
payload =
    67 ∷ 79 ∷ 80 ∷ 49 ∷ 1 ∷ 0 ∷ 0 ∷ 0 ∷ 0 ∷ 0 ∷ 0 ∷ 0 ∷ 0 ∷ 0 ∷ 0 ∷ 0 ∷ 5 ∷ 0 ∷ 0 ∷ 0 ∷ 2 ∷ 0 ∷ 1
    ∷ 0 ∷ 9 ∷ 8 ∷ 7 ∷ 6 ∷ []

extract_cms_total_example : extract_cms payload ≢ err out_of_fuel
extract_cms_total_example = extract_cms_total payload
