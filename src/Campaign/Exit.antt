-- ===== src/Campaign/Exit.antt =====
-- host/board/run_pmu_events.py, `main`: the coverage in the summary and the exit code, after a sweep.
use mps4_prototyping_board.Prelude.{
  ℕ, ◌<◌, ◌≡◌, sym, ap, ◌∙◌, arith, List, [], ◌∷◌, true, Option, Result, ok, err, ◌⊎◌, ◌↔◌, inl,
  inr, Bool-cases, ◌==◌, ==_iff, ok-injective, has, has-cons, >>=-eq-ok,
}
use mps4_prototyping_board.Link.{Link}
use mps4_prototyping_board.Events.{nat_equality, event_sets}
use mps4_prototyping_board.Events.Chunks.{joined, event_sets-Covers}
use mps4_prototyping_board.Events.Verdicts.{check_coverage}
use mps4_prototyping_board.Events.Judged.{check_coverage_iff}
use mps4_prototyping_board.Campaign.{
  Stop, uncaught, rule_ping, rule_capability, rule_mode_nack, rule_run_transport,
  rule_record_schema, rule_codes_echo, SweepRow, Sweep,
}
use mps4_prototyping_board.Campaign.Loop.{Camp, sweep}
use mps4_prototyping_board.Campaign.Summary.{
  Grouped, append_to, group, keys, Summary, summary, exit_of,
}
use mps4_prototyping_board.Campaign.Coverage.{events, Grew, After, sweep-After}

keys-append_to :
    (x ev : ℕ) (v : Option ℕ) (by : Grouped)
    → (has x (keys (append_to ev v by)) ≡ true) ↔ ((has x (keys by) ≡ true) ⊎ (x ≡ ev))
unfolding append_to
keys-append_to x ev v [] = unfold has in ground (arith, has-cons x ev [])
keys-append_to x ev v ((e, vs) ∷ by) = elim (Bool-cases (e == ev)) [
  | inl h ↦ rw h (ground (arith, (==_iff e ev).0 h, has-cons x e (keys by)))
  | inr h ↦ rw h (
      ground (
        arith,
        keys-append_to x ev v by,
        has-cons x e (keys by),
        has-cons x e (keys (append_to ev v by)),
      ))
]

-- The events of the dictionary are those of the rows.
keys-group :
    (x : ℕ) (by : Grouped) (rows : List SweepRow)
    → (has x (keys (group by rows)) ≡ true)
      ↔ ((has x (keys by) ≡ true) ⊎ (has x (events rows) ≡ true))
unfolding group
keys-group x by [] = unfold has in ground arith
keys-group x by (r ∷ rows) = ground (
  arith,
  keys-group x (append_to r.ev_type r.event_value by) rows,
  keys-append_to x r.ev_type r.event_value by,
  has-cons x r.ev_type (events rows),
)

exit_of-err : (e : Stop) (n : ℕ) → exit_of (err e) ≡ ok n → n ≡ 1
exit_of-err (uncaught e) n h = cc h
exit_of-err rule_ping n h = sym (ok-injective h)
exit_of-err rule_capability n h = sym (ok-injective h)
exit_of-err rule_mode_nack n h = sym (ok-injective h)
exit_of-err rule_run_transport n h = sym (ok-injective h)
exit_of-err rule_record_schema n h = sym (ok-injective h)
exit_of-err rule_codes_echo n h = sym (ok-injective h)

summary-eq-ok :
    (repeats : ℕ) (known : List ℕ) (ids : Option (List ℕ)) (ended : Result Stop (Unit {0}))
    (rows : List SweepRow) (sm : Summary)
    → summary repeats known ids ended rows ≡ ok sm
    → (exit_of ended ≡ ok sm.exit_code)
      × (check_coverage known (keys (group [] rows)) ids ≡ sm.coverage)
unfolding summary
summary-eq-ok repeats known ids ended rows sm h =
    let (code, found, rest) = >>=-eq-ok (exit_of ended) _ h in
    let same = ok-injective rest in
    (found ∙ ap (λ (z : Summary). ok z.exit_code) same, ap (λ (z : Summary). z.coverage) same)

-- The rows of a sweep that ended well cover what was asked for.
ended-covered :
    (known : List ℕ) (ids : Option (List ℕ)) (sets : List (ℕ × List ℕ)) (rows : List SweepRow)
    → event_sets known ids ≡ ok sets
    → Grew (joined sets) [] rows
    → check_coverage known (keys (group [] rows)) ids ≡ ok tt
ended-covered known ids sets rows listed g =
    (check_coverage_iff known (keys (group [] rows)) ids).1 (λ x.
      unfold has in
      ground
        (arith, keys-group x [] rows, g x, (event_sets-Covers known ids sets listed).same_ids x))

summary-judged :
    (s : Sweep) (known : List ℕ) (ids : Option (List ℕ)) (sets : List (ℕ × List ℕ)) (sm : Summary)
    (n : ℕ × ℕ)
    → event_sets known ids ≡ ok sets
    → (r : Result Stop (Unit {0})) (c : Camp) → After (Grew (joined sets) []) (r, c)
    → summary s.repeats known ids r c.rows ≡ ok sm
    → sm.coverage ≡ err n
    → sm.exit_code ≡ 1
summary-judged s known ids sets sm n listed (ok u) c g made part =
    let covered = (summary-eq-ok s.repeats known ids (ok u) c.rows sm made).1 in
    cc (covered, ended-covered known ids sets c.rows listed g, part)
summary-judged s known ids sets sm n listed (err e) c g made part =
    exit_of-err e sm.exit_code (summary-eq-ok s.repeats known ids (err e) c.rows sm made).0

-- A sweep over the event sets of the ids asked for, with one repeat at least, that begins without rows: where
-- its summary says that the coverage is not complete, the exit code is 1, whatever the link returned.
pub summary-exit_code :
    (s : Sweep) (known : List ℕ) (ids : Option (List ℕ)) (sets : List (ℕ × List ℕ)) (l : Link)
    (sm : Summary) (n : ℕ × ℕ)
    → event_sets known ids ≡ ok sets
    → 0 < s.repeats
    → (let ended = sweep s sets (record { link = l; rows = [] }) in
        summary s.repeats known ids ended.0 ended.1.rows ≡ ok sm)
    → sm.coverage ≡ err n
    → sm.exit_code ≡ 1
summary-exit_code s known ids sets l sm n listed pos made part =
    let begun : Camp = record { link = l; rows = [] } in
    summary-judged s known ids sets sm n listed (sweep s sets begun).0 (sweep s sets begun).1
      (sweep-After s sets begun pos) made part
