-- ===== src/Baseline/Reps.antt =====
-- host/lib/results.py, `load_runs`: one run for each repeat that the rows name.
use mps4_prototyping_board.Prelude.{
  ℕ, suc, ◌≡◌, refl, ap, ◌∙◌, sym, arith, List, [], ◌∷◌, map, Bool, true, false, leb, ◌==◌, inl,
  inr, Bool-cases, length, sorted, place_in, has, add,
}
use mps4_prototyping_board.Events.{nat_equality}
use mps4_prototyping_board.Baseline.{
  CsvRow, RunRow, fresh_run, add_row, take_row, take_rows, load_runs,
}

-- The distinct repeats of the rows, behind those that were seen.
unfoldable pub repeats_of : List ℕ → List CsvRow → List ℕ
unfolding add
repeats_of seen [] = seen
repeats_of seen (r ∷ rows) = repeats_of (add r.rep seen) rows

abbrev reps : List RunRow → List ℕ
reps runs = map (λ r. r.rep) runs

add-cons-same : (n m : ℕ) (ms : List ℕ) → (m == n) ≡ true → add n (m ∷ ms) ≡ m ∷ ms
unfolding add has
add-cons-same n m ms e = ground (arith, e)

add-cons-other : (n m : ℕ) (ms : List ℕ) → (m == n) ≡ false → add n (m ∷ ms) ≡ m ∷ add n ms
unfolding add has
add-cons-other n m ms e = elim (Bool-cases (has n ms)) [
  | inl h ↦ ground (arith, e, h)
  | inr h ↦ ground (arith, e, h)
]

take_row-reps : (r : CsvRow) (runs : List RunRow) → reps (take_row r runs) ≡ add r.rep (reps runs)
unfolding take_row add_row fresh_run
take_row-reps r [] = unfold add has in refl
take_row-reps r (run ∷ runs) = elim (Bool-cases (run.rep == r.rep)) [
  | inl e ↦ rw e (sym (add-cons-same r.rep run.rep (reps runs) e))
  | inr e ↦ rw e (
      ap (λ l. run.rep ∷ l) (take_row-reps r runs)
      ∙ sym (add-cons-other r.rep run.rep (reps runs) e))
]

take_rows-reps :
    (rows : List CsvRow) (runs : List RunRow)
    → reps (take_rows runs rows) ≡ repeats_of (reps runs) rows
unfolding take_rows repeats_of
take_rows-reps [] runs = refl
take_rows-reps (r ∷ rows) runs =
    take_rows-reps rows (take_row r runs) ∙ ap (λ s. repeats_of s rows) (take_row-reps r runs)

length-place_in :
    (leq : RunRow → RunRow → Bool) (x : RunRow) (ys : List RunRow)
    → length (place_in leq x ys) ≡ suc (length ys)
unfolding place_in
length-place_in leq x [] = refl
length-place_in leq x (y ∷ ys) = elim (Bool-cases (leq x y)) [
  | inl e ↦ rw e refl
  | inr e ↦ rw e (ap suc (length-place_in leq x ys))
]

length-sorted :
    (leq : RunRow → RunRow → Bool) (xs : List RunRow) → length (sorted leq xs) ≡ length xs
unfolding sorted
length-sorted leq [] = refl
length-sorted leq (x ∷ xs) = length-place_in leq x (sorted leq xs) ∙ ap suc (length-sorted leq xs)

length-reps : (runs : List RunRow) → length (reps runs) ≡ length runs
length-reps [] = refl
length-reps (r ∷ runs) = ap suc (length-reps runs)

-- There are as many runs as the rows name repeats.
pub length-load_runs : (rows : List CsvRow) → length (load_runs rows) ≡ length (repeats_of [] rows)
unfolding load_runs
length-load_runs rows =
    length-sorted (λ (a : RunRow) (b : RunRow). leb a.rep b.rep) (take_rows [] rows)
    ∙ sym (length-reps (take_rows [] rows))
    ∙ ap length (take_rows-reps rows [])
