-- ===== src/Baseline/Rows.antt =====
-- host/lib/results.py, `load_runs`: what becomes of the rows, and of an overflow that one of them reports.
use mps4_prototyping_board.Prelude.{
  ℕ, subst, ◌≡◌, arith, List, [], ◌∷◌, Bool, true, false, leb, ◌==◌, if◌then◌else◌, All, inl, inr,
  Bool-cases, sorted, place_in, some,
}
use mps4_prototyping_board.Baseline.{
  CsvRow, RunRow, fresh_run, add_row, take_row, take_rows, load_runs, run_checks,
}
use mps4_prototyping_board.Baseline.Boot.{Summary, Profile, Manifest, gate, passed}
use mps4_prototyping_board.Baseline.Checks.{run_checks_iff}
use mps4_prototyping_board.Baseline.Passes.{gate_iff}

All-place_in {ℓ μ} :
    {A : Type ℓ} (leq : A → A → Bool) (P : A → Type μ) (x : A) (ys : List A)
    → All P (place_in leq x ys)
    → P x × All P ys
unfolding place_in
All-place_in leq P x [] h = h
All-place_in leq P x (y ∷ ys) h = elim (Bool-cases (leq x y)) [
  | inl e ↦ subst (λ b. All P (if b then x ∷ y ∷ ys else y ∷ place_in leq x ys)) e h
  | inr e ↦
      let (q, rest) = subst (λ b. All P (if b then x ∷ y ∷ ys else y ∷ place_in leq x ys)) e h in
      let (p, others) = All-place_in leq P x ys rest in (p, (q, others))
]

All-sorted {ℓ μ} :
    {A : Type ℓ} (leq : A → A → Bool) (P : A → Type μ) (xs : List A)
    → All P (sorted leq xs)
    → All P xs
unfolding sorted
All-sorted leq P [] h = tt
All-sorted leq P (x ∷ xs) h =
    let (p, rest) = All-place_in leq P x (sorted leq xs) h in (p, All-sorted leq P xs rest)

abbrev Clear : RunRow → Type 0
Clear run = run.overflow ≡ false

take_row-Clear :
    (r : CsvRow) (runs : List RunRow)
    → All Clear (take_row r runs)
    → (r.event_overflow ≡ false) × All Clear runs
unfolding take_row add_row fresh_run
take_row-Clear r [] h = (h.0, tt)
take_row-Clear r (run ∷ runs) h = elim (Bool-cases (run.rep == r.rep)) [
  | inl e ↦
      let (this, others) =
        subst (λ b. All Clear (if b then add_row r run ∷ runs else run ∷ take_row r runs)) e h in
      (ground arith, (ground arith, others))
  | inr e ↦
      let (this, rest) =
        subst (λ b. All Clear (if b then add_row r run ∷ runs else run ∷ take_row r runs)) e h in
      let (clear, others) = take_row-Clear r runs rest in (clear, (this, others))
]

take_rows-Clear :
    (rows : List CsvRow) (runs : List RunRow)
    → All Clear (take_rows runs rows)
    → All (λ r. r.event_overflow ≡ false) rows × All Clear runs
unfolding take_rows
take_rows-Clear [] runs h = (tt, h)
take_rows-Clear (r ∷ rows) runs h =
    let (rest, clear) = take_rows-Clear rows (take_row r runs) h in
    let (this, before) = take_row-Clear r runs clear in ((this, rest), before)

All-of {ℓ μ κ} :
    {A : Type ℓ} {P : A → Type μ} {Q : A → Type κ}
    → ((x : A) → P x → Q x)
    → (xs : List A) → All P xs
    → All Q xs
All-of h [] u = tt
All-of {P = P} {Q = Q} h (x ∷ xs) (p, q) = (h x p, All-of {P = P} {Q = Q} h xs q)

-- A workload with BASELINE_PASS at stage 0 has no row in its runs.csv that reports an overflow, in
-- whatever order its rows stand and however many a repeat has.
pub gate-no_overflow :
    (summ : Summary) (rows : List CsvRow) (prof : Profile) (man : Manifest) (ids : List ℕ)
    → passed (gate (some (summ, rows)) prof man ids run_checks) ≡ true
    → All (λ r. r.event_overflow ≡ false) rows
gate-no_overflow summ rows prof man ids h =
    let (golden, boot, good, size) = (gate_iff summ rows prof man ids run_checks).0 h in
    let clear =
      All-of {P = λ r. run_checks r ≡ []} {Q = Clear}
        (λ r e. ((run_checks_iff r).0 e).0.no_overflow) (load_runs rows) good in
    (take_rows-Clear rows [] (
      All-sorted (λ (a : RunRow) (b : RunRow). leb a.rep b.rep) Clear (take_rows [] rows)
        (unfold load_runs in clear))).0
