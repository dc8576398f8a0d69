-- ===== src/Events.antt =====
-- host/lib/pmu_events_parse.py: the event sets of a sweep and the validity of a run.
-- `driver_ids` reads a reference file, so that the known ids are an argument.
pub mod Verdicts
pub mod Chunks
pub mod Validity
pub mod Judged
use mps4_prototyping_board.Prelude.{
  ℕ, zero, suc, ◌+◌, ◌-◌, ◌*◌, ◌/◌, ◌^◌, ◌≡◌, List, [], ◌∷◌, ◌++◌, map, Bool, true, false, not,
  ◌&&◌, ◌||◌, Option, none, some, Result, ok, err, Equality, ltb, leb, ◌==◌, ==_iff, if◌then◌else◌,
  length, take, drop, has, add, sorted, bit_and, bit_or,
}
use mps4_prototyping_board.Measure.{PmuBlock}

instance abbrev pub nat_equality : Equality ℕ
nat_equality = record { same = λ a b. a == b; same_iff = ==_iff }

abbrev pub instrumentation_events : ℕ
instrumentation_events = 2

abbrev pub slot_count : ℕ
slot_count = 8

abbrev pub repeats : ℕ
repeats = 3

-- `set(xs)`
unfoldable pub unique : List ℕ → List ℕ
unique [] = []
unique (x ∷ xs) = let rest = unique xs in if has x rest then rest else x ∷ rest

-- The elements of `set(xs) - set(ys)`, before sorting.
unfoldable pub outside : List ℕ → List ℕ → List ℕ
outside [] ys = []
outside (x ∷ xs) ys = let rest = outside xs ys in if has x ys then rest else x ∷ rest

-- `range(start, start + count)`
unfoldable pub range_from : ℕ → ℕ → List ℕ
range_from start zero = []
range_from start (suc count) = start ∷ range_from (suc start) count

-- `[(i + 1, ids[i * SLOTS:(i + 1) * SLOTS]) for i in range(...)]`
unfoldable pub chunks : List ℕ → List (ℕ × List ℕ)
unfolding range_from
chunks ids =
    map (λ i. (i + 1, take slot_count (drop (i * slot_count) ids)))
      (range_from 0 ((length ids + slot_count - 1) / slot_count))

-- `if unknown: raise ValueError(...)`
abbrev pub checked : List ℕ → List (ℕ × List ℕ) → Result (List ℕ) (List (ℕ × List ℕ))
checked [] sets = ok sets
checked (x ∷ unknown) sets = err (x ∷ unknown)

-- `event_sets`: the error holds the ids that the driver does not know.
unfoldable pub event_sets : List ℕ → Option (List ℕ) → Result (List ℕ) (List (ℕ × List ℕ))
unfolding unique outside chunks
event_sets known none = ok (chunks (sorted leb (unique known)))
event_sets known (some ids) =
    checked (sorted leb (outside (unique ids) known)) (chunks (sorted leb (unique ids)))

abbrev pub status_cmd_end : ℕ
status_cmd_end = 2 ^ 5

abbrev pub status_faults : ℕ
status_faults = bit_or (bit_or (2 ^ 2) (2 ^ 4)) (bit_or (2 ^ 8) (2 ^ 9))

abbrev pub flags_completed : ℕ
flags_completed = 0xD

abbrev pub knob_not_honoured : ℕ
knob_not_honoured = 0x7D

pub data Mode : Type 0 where
  exact model : Mode

-- The keys of the terms of both modes.
pub data Term : Type 0 where
  rc_zero required_flags cycle_valid cycle_progress seam_fired : Term
  mode_applied_2 applied_count valid_mask_full codes_echo : Term
  vendor_rc_completed completion_flags stream_completed knobs_honoured : Term

-- What `run_validity` reads of a run, by its keys.
pub record Run : Type 0 where
  pub run_rc : ℕ
  pub required_flags_ok : Bool
  pub pmu : PmuBlock
  pub seam_fired : Option ℕ
  pub valid_flags : ℕ
  pub vendor_rc : Option ℕ
  pub seam_npu_status : Option ℕ
  pub seam_npu_qread : Option ℕ
  pub cms_len : ℕ

-- `value == n`, where the value may be None.
abbrev pub is : ℕ → Option ℕ → Bool
is n none = false
is n (some v) = v == n

-- `all(shown[i] == codes[i] for i in range(n))`: `none` is the IndexError of a list that is too short.
unfoldable pub echoes : List ℕ → List (Option ℕ) → Option Bool
echoes [] shown = some true
echoes (c ∷ codes) [] = none
echoes (c ∷ codes) (e ∷ shown) =
    let rest = echoes codes shown in if is c e then rest else some false

unfoldable pub is_completed : ℕ → Option ℕ → Bool
is_completed cms_len none = false
is_completed cms_len (some st) =
    not (bit_and st status_cmd_end == 0) && bit_and st status_faults == 0

-- The terms of the PMU record, which both modes have.
unfoldable pub pmu_terms : Run → List ℕ → Bool → List (Term × Bool)
pmu_terms r codes echoed =
    let p = r.pmu in
    let n = length codes in
    (cycle_valid, p.npu_pmu_cycle_valid == 1)
    ∷ (cycle_progress, p.cycle_progress_observed == 1)
    ∷ (seam_fired, is 1 r.seam_fired)
    ∷ (mode_applied_2, p.instrumentation_mode_applied == instrumentation_events)
    ∷ (applied_count, p.applied_event_count == n)
    ∷ (valid_mask_full, p.event_valid_mask == 2 ^ n - 1)
    ∷ (codes_echo, echoed)
    ∷ []

-- `completion`, in mode `model`.
unfoldable pub completion : Run → List (Term × Bool)
unfolding is_completed
completion r =
    (vendor_rc_completed, is 0 r.vendor_rc || is 2 r.vendor_rc)
    ∷ (completion_flags, bit_and r.valid_flags flags_completed == flags_completed)
    ∷ (stream_completed, is_completed r.cms_len r.seam_npu_status && is r.cms_len r.seam_npu_qread)
    ∷ (knobs_honoured, not (r.run_rc == knob_not_honoured))
    ∷ []

-- The terms of a mode: in `model` the first two are taken out and those of the completion added.
unfoldable pub terms_of : Run → List ℕ → Mode → Bool → List (Term × Bool)
unfolding pmu_terms completion
terms_of r codes exact echoed =
    (rc_zero, r.run_rc == 0) ∷ (required_flags, r.required_flags_ok) ∷ pmu_terms r codes echoed
terms_of r codes model echoed = pmu_terms r codes echoed ++ completion r

-- `[k for k in terms if not terms[k]]`
unfoldable pub failed_of : List (Term × Bool) → List Term
failed_of [] = []
failed_of ((term, holds) ∷ terms) =
    let rest = failed_of terms in if holds then rest else term ∷ rest

abbrev pub none_failed : List Term → Bool
none_failed [] = true
none_failed (term ∷ terms) = false

-- `run_validity`
unfoldable pub run_validity : Run → List ℕ → Mode → Option (Bool × List Term)
unfolding echoes terms_of failed_of
run_validity r codes way = elim (echoes codes r.pmu.event_codes) [
  | none ↦ none
  | some echoed ↦
      let failed = failed_of (terms_of r codes way echoed) in some (none_failed failed, failed)
]

-- The ids that a sweep is about: by default, those of the driver.
abbrev pub wanted : List ℕ → Option (List ℕ) → List ℕ
wanted known none = known
wanted known (some ids) = ids

-- `all(test(v) for v in values)`
unfoldable pub all_of {ℓ} : {A : Type ℓ} → (A → Bool) → List A → Bool
all_of test [] = true
all_of test (v ∷ values) = test v && all_of test values
