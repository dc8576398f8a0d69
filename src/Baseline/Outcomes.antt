-- ===== src/Baseline/Outcomes.antt =====
-- host/analysis/baseline_gate.py, `outcome` and `overall`, with the median of `statistics`.
use mps4_prototyping_board.Prelude.{
  ℕ, ◌+◌, ◌-◌, ◌*◌, ◌/◌, ◌%◌, List, [], ◌∷◌, Bool, true, false, ◌&&◌, ◌||◌, Option, none, some, leb,
  ◌==◌, if◌then◌else◌, length, get_or, sorted,
}
use mps4_prototyping_board.Events.Verdicts.{within_percent}
use mps4_prototyping_board.Baseline.{RunRow, measured_valid, npu_active, event}
use mps4_prototyping_board.Baseline.Boot.{is_nil}

pub data Outcome : Type 0 where
  mlek_equivalent mlek_different unresolved : Outcome

-- Twice `statistics.median(xs)`, which raises an error on no values.
unfoldable pub twice_median : List ℕ → Option ℕ
twice_median [] = none
twice_median (x ∷ xs) =
    let n = length (x ∷ xs) in
    let ys = sorted leb (x ∷ xs) in
    some (
      if n % 2 == 1 then 2 * get_or ys (n / 2) 0 else get_or ys (n / 2 - 1) 0 + get_or ys (n / 2) 0)

-- The values of an event; None among them is a TypeError of the sort.
unfoldable pub values_of : ℕ → List RunRow → Option (List ℕ)
unfolding event
values_of ev [] = some []
values_of ev (r ∷ runs) =
    let rest = values_of ev runs in
    elim (event ev r.events) [
      | none ↦ none
      | some v ↦ elim rest [ none ↦ none | some vs ↦ some (v ∷ vs) ]
    ]

unfoldable pub median_of : ℕ → List RunRow → Option ℕ
unfolding values_of twice_median
median_of ev runs = elim (values_of ev runs) [ none ↦ none | some vs ↦ twice_median vs ]

-- The board reference of a workload: the beats by event, and the ACTIVE median.
pub record Mlek : Type 0 where
  pub beats : List (ℕ × ℕ)
  pub active_median : ℕ

-- `all(med[ours] == mlek[theirs] for ours, theirs in BEATS)`; all medians are taken before.
unfoldable pub beats_equal : List (ℕ × ℕ) → List RunRow → Option Bool
unfolding median_of
beats_equal [] runs = some true
beats_equal ((ev, want) ∷ beats) runs =
    let rest = beats_equal beats runs in
    elim (median_of ev runs) [
      | none ↦ none
      | some med ↦ elim rest [ none ↦ none | some equal ↦ some (med == 2 * want && equal) ]
    ]

-- `outcome` after the gate; `none` is an error of Python.
unfoldable pub outcome : Bool → ℕ → List RunRow → Mlek → Option Outcome
unfolding measured_valid beats_equal median_of
outcome false warmup runs mlek = some unresolved
outcome true warmup runs mlek =
    let m = measured_valid warmup runs in
    elim (median_of npu_active m) [
      | none ↦ none
      | some active ↦ elim (beats_equal mlek.beats m) [
        | none ↦ none
        | some equal ↦
            if mlek.active_median == 0
            then none
            else some (
                if equal && within_percent active (2 * mlek.active_median)
                then mlek_equivalent
                else mlek_different)
      ]
    ]

abbrev pub same_outcome : Outcome → Outcome → Bool
same_outcome mlek_equivalent mlek_equivalent = true
same_outcome mlek_different mlek_different = true
same_outcome unresolved unresolved = true
same_outcome a b = false

-- `x in per`
unfoldable pub among : Outcome → List Outcome → Bool
among x [] = false
among x (y ∷ per) = same_outcome x y || among x per

unfoldable pub overall : List Outcome → Outcome
unfolding among
overall per =
    if is_nil per || among unresolved per
    then unresolved
    else if among mlek_different per
    then mlek_different
    else mlek_equivalent
