-- ===== src/Events/Verdicts.antt =====
-- host/lib/pmu_events_parse.py, `verdict`, `consistency` and `check_coverage`.
use mps4_prototyping_board.Prelude.{
  ℕ, ◌+◌, ◌-◌, ◌*◌, List, [], ◌∷◌, Bool, not, ◌&&◌, Option, none, some, Result, ok, err, ltb, leb,
  ◌==◌, if◌then◌else◌, length, has,
}
use mps4_prototyping_board.Events.{nat_equality, unique, all_of, wanted}

pub data Verdict : Type 0 where
  counted_nonzero counted_zero inconsistent not_observed : Verdict

-- `[v for v in values if v is not None]`
unfoldable pub observed : List (Option ℕ) → List ℕ
observed [] = []
observed (none ∷ values) = observed values
observed (some v ∷ values) = v ∷ observed values

-- `verdict`, for the number of repeats that the sweep runs with.
unfoldable pub verdict : ℕ → List (Option ℕ) → Verdict
unfolding observed all_of
verdict wanted values =
    let seen = observed values in
    if ltb (length seen) wanted
    then not_observed
    else if all_of (λ v. ltb 0 v) seen
    then counted_nonzero
    else if all_of (λ v. v == 0) seen
    then counted_zero
    else inconsistent

-- One row of runs.csv, as far as `consistency` reads it.
pub record Row : Type 0 where
  pub ev_type : ℕ
  pub event_value : Option ℕ
  pub window_cycles : Option ℕ

pub data Check : Type 0 where
  unproven pass fail : Check

-- |a - b|
abbrev pub distance : ℕ → ℕ → ℕ
distance a b = (a - b) + (b - a)

-- `w and abs(v - w) / w <= 0.01`, over the integers.
unfoldable pub within_percent : ℕ → ℕ → Bool
within_percent v w = not (w == 0) && leb (100 * distance v w) w

-- The outcomes of the rows of one event type that have both numbers.
unfoldable pub outcomes : ℕ → (ℕ → ℕ → Bool) → List Row → List Bool
outcomes event test [] = []
outcomes event test (r ∷ rows) =
    let rest = outcomes event test rows in
    elim r.event_value [
      | none ↦ rest
      | some v ↦ elim r.window_cycles [
        | none ↦ rest
        | some w ↦ if r.ev_type == event then test v w ∷ rest else rest
      ]
    ]

unfoldable pub concluded : List Bool → Check
unfolding all_of
concluded [] = unproven
concluded (x ∷ xs) = if all_of (λ o. o) (x ∷ xs) then pass else fail

-- `consistency`: CYCLE_EVENT_VS_PMCCNTR and NPU_ACTIVE_LE_CYCLE.
unfoldable pub consistency : List Row → Check × Check
unfolding outcomes within_percent concluded
consistency rows =
    (concluded (outcomes 17 within_percent rows), concluded (outcomes 35 (λ v w. leb v w) rows))

-- `set(xs) == set(ys)`
unfoldable pub same_set : List ℕ → List ℕ → Bool
unfolding all_of
same_set xs ys = all_of (λ x. has x ys) xs && all_of (λ y. has y xs) ys

-- `check_coverage`: the error is RULE_SET_COVERAGE, with the two numbers of its message.
unfoldable pub check_coverage : List ℕ → List ℕ → Option (List ℕ) → Result (ℕ × ℕ) (Unit {0})
unfolding same_set unique
check_coverage known rows_by_ev expected =
    let want = wanted known expected in
    if same_set rows_by_ev want
    then ok tt
    else err (length (unique rows_by_ev), length (unique want))
