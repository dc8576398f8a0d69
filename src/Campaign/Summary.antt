-- ===== src/Campaign/Summary.antt =====
-- host/board/run_pmu_events.py: what `main` makes of the rows of a sweep: the values of each event, their
-- verdicts and counts, the consistency, the coverage and the exit code. The files and the texts are left out.
use mps4_prototyping_board.Prelude.{
  ℕ, ◌+◌, List, [], ◌∷◌, ◌++◌, map, Bool, true, false, Option, Result, ok, err, ◌>>=◌, leb, ◌==◌,
  if◌then◌else◌, sorted,
}
use mps4_prototyping_board.Campaign.{SweepRow, Stop, uncaught}
use mps4_prototyping_board.Events.Verdicts.{
  Verdict, counted_nonzero, counted_zero, inconsistent, not_observed, verdict, Row, Check,
  consistency, check_coverage,
}

-- The dictionary `by`, in the order in which the events came.
abbrev pub Grouped : Type 0
Grouped = List (ℕ × List (Option ℕ))

-- `by.setdefault(ev, []).append(v)`
unfoldable pub append_to : ℕ → Option ℕ → Grouped → Grouped
append_to ev v [] = (ev, v ∷ []) ∷ []
append_to ev v ((e, vs) ∷ by) =
    let rest = append_to ev v by in if e == ev then (e, vs ++ v ∷ []) ∷ by else (e, vs) ∷ rest

-- `for r in rows`
unfoldable pub group : Grouped → List SweepRow → Grouped
unfolding append_to
group by [] = by
group by (r ∷ rows) = group (append_to r.ev_type r.event_value by) rows

-- An event of per_event.csv.
pub record PerEvent : Type 0 where
  pub ev_type : ℕ
  pub verdict : Verdict
  pub values : List (Option ℕ)

-- `per`: the events ascending, each with the verdict of its values.
unfoldable pub per_event : ℕ → List SweepRow → List PerEvent
unfolding group sorted verdict
per_event repeats rows =
    map
      (λ (g : ℕ × List (Option ℕ)). record {
        ev_type = g.0;
        verdict = verdict repeats g.1;
        values = g.1;
      })
      (sorted (λ a b. leb a.0 b.0) (group [] rows))

unfoldable pub is_verdict : Verdict → Verdict → Bool
is_verdict counted_nonzero counted_nonzero = true
is_verdict counted_zero counted_zero = true
is_verdict inconsistent inconsistent = true
is_verdict not_observed not_observed = true
is_verdict v w = false

-- `VERDICTS`
abbrev pub verdicts : List Verdict
verdicts = counted_nonzero ∷ counted_zero ∷ inconsistent ∷ not_observed ∷ []

-- `sum(1 for p in per if p["verdict"] == v)`
unfoldable pub verdict_count : Verdict → List PerEvent → ℕ
unfolding is_verdict
verdict_count v [] = 0
verdict_count v (p ∷ per) =
    let rest = verdict_count v per in if is_verdict p.verdict v then 1 + rest else rest

abbrev pub row_read : SweepRow → Row
row_read r = record {
  ev_type = r.ev_type;
  event_value = r.event_value;
  window_cycles = r.window_cycles;
}

pub record Summary : Type 0 where
  pub per : List PerEvent
  pub consistent : Check × Check
  pub verdict_counts : List (Verdict × ℕ)
  pub coverage : Result (ℕ × ℕ) (Unit {0})
  pub exit_code : ℕ

-- `return 1 if refusal else 0`; an error that nothing catches ends `main` before the summary.
abbrev pub exit_of : Result Stop (Unit {0}) → Result Stop ℕ
exit_of (ok done) = ok 0
exit_of (err (uncaught e)) = err (uncaught e)
exit_of (err e) = ok 1

-- The keys of `by`.
abbrev pub keys : Grouped → List ℕ
keys by = map (λ (g : ℕ × List (Option ℕ)). g.0) by

unfoldable pub summary :
    ℕ → List ℕ → Option (List ℕ) → Result Stop (Unit {0}) → List SweepRow → Result Stop Summary
unfolding per_event verdict_count consistency check_coverage
summary repeats known ids ended rows = do
  code ← exit_of ended
  ok (record {
    per = per_event repeats rows;
    verdict_counts = map (λ v. (v, verdict_count v (per_event repeats rows))) verdicts;
    consistent = consistency (map row_read rows);
    coverage = check_coverage known (keys (group [] rows)) ids;
    exit_code = code;
  })
