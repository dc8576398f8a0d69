-- ===== src/Baseline/Passes.antt =====
-- host/analysis/baseline_gate.py, `gate`: when a workload passes.
use mps4_prototyping_board.Prelude.{
  ℕ, ◌≡◌, refl, sym, ap, ap₂, ◌∙◌, arith, Option, none, Name, List, [], ◌∷◌, true, false, ◌&&◌,
  some, ◌==◌, ==_iff, length, All, inl, inr, ◌⊎◌, ◌↔◌, Bool-cases, List-cases, Result, ok, err,
  ok-injective, and_true,
}
use mps4_prototyping_board.Pmwl.Knobs.{KnobError}
use mps4_prototyping_board.Baseline.{CsvRow, RunRow, RunCheck, load_runs}
use mps4_prototyping_board.Baseline.Boot.{
  BootCheck, passed, Summary, Profile, Manifest, boot_checks, failed_runs, is_nil, other_golden,
  gate,
}
use mps4_prototyping_board.Baseline.Boots.{Boots, is_name_iff, boot_checks_iff}
use mps4_prototyping_board.Baseline.Reps.{repeats_of, length-load_runs}

failed_runs_iff :
    (checks : RunRow → List RunCheck) (runs : List RunRow)
    → (failed_runs checks runs ≡ []) ↔ All (λ r. checks r ≡ []) runs
unfolding failed_runs
failed_runs_iff checks [] = (λ h. tt, λ h. refl)
failed_runs_iff checks (r ∷ runs) = elim (List-cases (checks r)) [
  | inl e ↦
      rw e
        (λ h. (refl, (failed_runs_iff checks runs).0 h), λ h. (failed_runs_iff checks runs).1 h.1)
  | inr (k, ks, e) ↦ rw e (λ h. cc h, λ h. cc h.0)
]

is_nil_iff {ℓ} : {A : Type ℓ} (xs : List A) → (is_nil xs ≡ true) ↔ (xs ≡ [])
is_nil_iff [] = (λ h. refl, λ h. refl)
is_nil_iff (x ∷ xs) = (λ h. cc h, λ h. cc h)

-- The input and the reference OFM are those of the manifest, where it has them.
abbrev pub Golden : Summary → Option (Name × Name) → Type 0
Golden summ none = Unit
Golden summ (some (input, ofm)) = (summ.ifm_sha256 ≡ some input) × (summ.golden_sha256 ≡ some ofm)

other_golden_iff :
    (summ : Summary) (golden : Option (Name × Name))
    → (other_golden summ golden ≡ false) ↔ Golden summ golden
other_golden_iff summ none = (λ h. tt, λ h. refl)
other_golden_iff summ (some (input, ofm)) =
    ground (arith, is_name_iff input summ.ifm_sha256, is_name_iff ofm summ.golden_sha256)

-- What the gate asks of a campaign whose files are there: the golden data, the blob, the image, the ids and the
-- number of runs of summary.json are as the profile and the manifest say, no run of runs.csv has a failed
-- check, and its rows name as many repeats as the profile has.
abbrev pub Passes :
    Summary → List CsvRow → Profile → Manifest → List ℕ → (RunRow → List RunCheck) → Type 0
Passes summ rows prof man ids checks =
    Golden summ man.golden
    × Boots summ prof man ids
    × All (λ r. checks r ≡ []) (load_runs rows)
    × (length (repeats_of [] rows) ≡ prof.repeats)

-- The same by the tests of the code.
abbrev Tested :
    Summary → List CsvRow → Profile → Manifest → List ℕ → (RunRow → List RunCheck) → Type 0
Tested summ rows prof man ids checks =
    (other_golden summ man.golden ≡ false)
    × (boot_checks summ prof man ids ≡ ok [])
    × All (λ r. checks r ≡ []) (load_runs rows)
    × (length (load_runs rows) ≡ prof.repeats)

Tested-Passes :
    (summ : Summary) (rows : List CsvRow) (prof : Profile) (man : Manifest) (ids : List ℕ)
    (checks : RunRow → List RunCheck)
    → Tested summ rows prof man ids checks ↔ Passes summ rows prof man ids checks
Tested-Passes summ rows prof man ids checks =
    let golden = other_golden_iff summ man.golden in
    let boot = boot_checks_iff summ prof man ids in
    (
      λ (p, q, r, s). (golden.0 p, boot.0 q, r, sym (length-load_runs rows) ∙ s),
      λ (p, q, r, s). (golden.1 p, boot.1 q, r, length-load_runs rows ∙ s),
    )

Result-cases {ℓ} :
    {E : Type 0} {A : Type ℓ} (m : Result E A) → ((e : E) × (m ≡ err e)) ⊎ ((a : A) × (m ≡ ok a))
Result-cases (err e) = inl (e, refl)
Result-cases (ok a) = inr (a, refl)

judged_iff :
    (checks : RunRow → List RunCheck) (runs : List RunRow) (boot : List BootCheck) (repeats : ℕ)
    → ((is_nil boot && (is_nil (failed_runs checks runs) && length runs == repeats)) ≡ true) ↔ (
        (false ≡ false)
        × (◌≡◌ {A = Result KnobError (List BootCheck)} (ok boot) (ok []))
        × All (λ r. checks r ≡ []) runs
        × (length runs ≡ repeats))
judged_iff checks runs boot repeats =
    let failed = failed_runs checks runs in
    let none_failed = failed_runs_iff checks runs in
    (
      λ h.
          let (a, rest) = and_true (is_nil boot) (is_nil failed && length runs == repeats) h in
          let (b, c) = and_true (is_nil failed) (length runs == repeats) rest in
          (
            refl,
            ap ok ((is_nil_iff boot).0 a),
            none_failed.0 ((is_nil_iff failed).0 b),
            (==_iff (length runs) repeats).0 c,
          ),
      λ (p, q, r, s).
          ap₂ (λ a b. a && b) ((is_nil_iff boot).1 (ok-injective q))
            (ap₂ (λ a b. a && b) ((is_nil_iff failed).1 (none_failed.1 r))
              ((==_iff (length runs) repeats).1 s)),
    )

gate-Tested :
    (summ : Summary) (rows : List CsvRow) (prof : Profile) (man : Manifest) (ids : List ℕ)
    (checks : RunRow → List RunCheck)
    → (passed (gate (some (summ, rows)) prof man ids checks) ≡ true)
      ↔ Tested summ rows prof man ids checks
unfolding gate
gate-Tested summ rows prof man ids checks = elim (Bool-cases (other_golden summ man.golden)) [
  | inl g ↦ rw g (λ h. cc h, λ h. cc h.0)
  | inr g ↦ elim (Result-cases (boot_checks summ prof man ids)) [
    | inl (e, b) ↦ rw (g, b) (λ h. cc h, λ (p, q, r, s). cc q)
    | inr (boot, b) ↦ rw (g, b) (judged_iff checks (load_runs rows) boot prof.repeats)
  ]
]

-- For the files of a workload, `gate` gives BASELINE_PASS exactly when summary.json has the manifest's golden data,
-- blob and command stream, the knob words of the profile's arguments, the image of the profile, the
-- requested ids, a complete coverage, no refusal and the profile's number of runs; every run of
-- runs.csv passes its checks; and the distinct repeats of its rows are as many as the profile's.
pub gate_iff :
    (summ : Summary) (rows : List CsvRow) (prof : Profile) (man : Manifest) (ids : List ℕ)
    (checks : RunRow → List RunCheck)
    → (passed (gate (some (summ, rows)) prof man ids checks) ≡ true)
      ↔ Passes summ rows prof man ids checks
gate_iff summ rows prof man ids checks =
    let tested = gate-Tested summ rows prof man ids checks in
    let asked = Tested-Passes summ rows prof man ids checks in
    (λ h. asked.0 (tested.0 h), λ h. tested.1 (asked.1 h))
