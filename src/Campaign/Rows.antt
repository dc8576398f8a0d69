-- ===== src/Campaign/Rows.antt =====
-- host/board/run_pmu_events.py: the rows that a run gives.
use mps4_prototyping_board.Prelude.{
  ℕ, suc, ◌^◌, ◌-◌, ◌≡◌, refl, subst, ap, ◌∙◌, sym, List, [], ◌∷◌, map, Bool, true, false, not,
  ◌&&◌, Option, none, some, length, get_elem?, ◌==◌, ok, All, ◌⊎◌, inl, inr, ok-injective,
  some-injective, >>=-eq-ok, or_raise, refuse_if-eq-ok, or_raise-eq-ok,
}
use mps4_prototyping_board.Measure.{Measurement, PmuBlock}
use mps4_prototyping_board.Link.{index_error}
use mps4_prototyping_board.Events.{Run, Mode, Term, run_validity}
use mps4_prototyping_board.Events.Validity.{
  IsCounted, IsDone, run_validity_iff, run_validity-none_failed,
}
use mps4_prototyping_board.Campaign.{
  uncaught, rule_codes_echo, rule_record_schema, SweepRow, Sweep, run_of, failed_echo, row_of,
  value_at, rows_of, judge_valid, judge_record,
}

abbrev pub NoValue : SweepRow → Type 0
NoValue r = r.event_value ≡ none

-- Where the run was not valid, no row has a value.
abbrev Empty : Bool → List SweepRow → Type 0
Empty true rows = Unit
Empty false rows = All NoValue rows

row_of-Empty :
    (set_id rep : ℕ) (p : PmuBlock) (valid : Bool) (slot ev : ℕ) (value : Option ℕ)
    (overflow : Option Bool) (rest : List SweepRow)
    → value_at p valid slot ≡ ok value
    → Empty valid rest
    → Empty valid (row_of set_id rep p valid slot ev value overflow ∷ rest)
row_of-Empty set_id rep p true slot ev value overflow rest h e = tt
row_of-Empty set_id rep p false slot ev value overflow rest h e = (sym (ok-injective h), e)

rows_of-codes :
    (set_id rep : ℕ) (p : PmuBlock) (valid : Bool) (slot : ℕ) (codes : List ℕ)
    (rows : List SweepRow)
    → rows_of set_id rep p valid slot codes ≡ ok rows
    → (map (λ r. r.ev_type) rows ≡ codes) × Empty valid rows
unfolding rows_of
rows_of-codes set_id rep p valid slot [] rows h =
    subst (λ l. (map (λ r. r.ev_type) l ≡ []) × Empty valid l) (ok-injective h)
      (refl, no_rows valid)
  where
    no_rows : (valid : Bool) → Empty valid []
    no_rows true = tt
    no_rows false = tt
rows_of-codes set_id rep p valid slot (ev ∷ codes) rows h =
    let (value, got, h0) = >>=-eq-ok (value_at p valid slot) _ h in
    let (overflow, o, h1) =
      >>=-eq-ok (or_raise (uncaught index_error) (get_elem? p.event_overflow slot)) _ h0 in
    let (rest, r, h2) = >>=-eq-ok (rows_of set_id rep p valid (suc slot) codes) _ h1 in
    let (same, empty) = rows_of-codes set_id rep p valid (suc slot) codes rest r in
    subst (λ l. (map (λ r. r.ev_type) l ≡ ev ∷ codes) × Empty valid l) (ok-injective h2)
      (ap (λ l. ev ∷ l) same, row_of-Empty set_id rep p valid slot ev value overflow rest got empty)

judge_valid-rows :
    (set_id rep : ℕ) (codes : List ℕ) (p : PmuBlock) (r : Run) (way : Mode)
    (o : Option (Bool × List Term)) (rows : List SweepRow)
    → run_validity r codes way ≡ o
    → judge_valid set_id rep codes p o ≡ ok rows
    → (map (λ r. r.ev_type) rows ≡ codes) × ((IsCounted r codes × IsDone r way) ⊎ All NoValue rows)
unfolding judge_valid failed_echo
judge_valid-rows set_id rep codes p r way none rows e h = cc h
judge_valid-rows set_id rep codes p r way (some (false, failed)) rows e h =
    let (echo, h0) =
      refuse_if-eq-ok
        (failed_echo failed && (not false && p.event_valid_mask == 2 ^ length codes - 1))
        rule_codes_echo (rows_of set_id rep p false 0 codes) h in
    let (same, empty) = rows_of-codes set_id rep p false 0 codes rows h0 in (same, inr empty)
judge_valid-rows set_id rep codes p r way (some (true, [])) rows e h =
    let (same, empty) = rows_of-codes set_id rep p true 0 codes rows h in
    (same, inl ((run_validity_iff r codes way).0 e))
judge_valid-rows set_id rep codes p r way (some (true, t ∷ failed)) rows e h =
    cc (run_validity-none_failed r codes way true (t ∷ failed) e)

-- The rows that a run gives are one for each code of its set, in order; and they hold values only where the
-- record says that the codes counted over one window and the run was done as the mode asks.
pub judge_record-rows :
    (s : Sweep) (set_id rep : ℕ) (codes : List ℕ) (rc : ℕ) (m : Measurement) (p : PmuBlock)
    (rows : List SweepRow)
    → m.pmu ≡ some p
    → judge_record s set_id rep codes rc (some m) ≡ ok rows
    → (map (λ r. r.ev_type) rows ≡ codes)
      × ((IsCounted (run_of s rc m p) codes × IsDone (run_of s rc m p) s.validity)
          ⊎ All NoValue rows)
unfolding judge_record
judge_record-rows s set_id rep codes rc m p rows e h =
    let (p', found, h0) = >>=-eq-ok (or_raise rule_record_schema m.pmu) _ h in
    let same = some-injective (sym (or_raise-eq-ok rule_record_schema m.pmu p' found) ∙ e) in
    let (version, h1) =
      refuse_if-eq-ok (not (p'.record_schema_version == 1)) rule_record_schema _ h0 in
    judge_valid-rows set_id rep codes p (run_of s rc m p) s.validity _ rows refl (
      subst
        (λ q.
          judge_valid set_id rep codes q (run_validity (run_of s rc m q) codes s.validity)
          ≡ ok rows)
        same h1)
