-- ===== src/Campaign/Coverage.antt =====
-- host/board/run_pmu_events.py: a sweep that ends well has rows for every event that was asked for.
use mps4_prototyping_board.Prelude.{
  ℕ, zero, suc, ◌<◌, ◌≡◌, refl, subst, ap, ◌∙◌, arith, List, [], ◌∷◌, ◌++◌, map, Bool, true, false,
  not, ◌||◌, Option, none, some, Result, ok, err, ◌⊎◌, ◌↔◌, get_or, drop, length, ◌==◌, has,
  has-append, or_raise, or_raise-eq-ok, >>=-eq-ok,
}
use mps4_prototyping_board.Measure.{Measurement}
use mps4_prototyping_board.Link.{LinkError, M, run_measured}
use mps4_prototyping_board.Link.Commands.{ping, reset_runner, set_instrumentation_mode}
use mps4_prototyping_board.Events.{nat_equality, instrumentation_events}
use mps4_prototyping_board.Events.Chunks.{joined}
use mps4_prototyping_board.Campaign.{
  Stop, uncaught, rule_ping, rule_mode_nack, rule_record_schema, SweepRow, Sweep, judge_record,
}
use mps4_prototyping_board.Campaign.Loop.{
  mode_stop, Camp, C, go_on, refuse, turned, calling, transport, run_rep, run_reps, ◌►◌, keep_rows,
  where_needed, prime, run_set, run_sets, any_count, sweep,
}
use mps4_prototyping_board.Campaign.Rows.{judge_record-rows}

abbrev pub events : List SweepRow → List ℕ
events rows = map (λ r. r.ev_type) rows

-- The second rows have the events of the first, and those of the list.
abbrev pub Grew : List ℕ → List SweepRow → List SweepRow → Type 0
Grew ids rows more =
    (x : ℕ) → (has x (events more) ≡ true) ↔ ((has x (events rows) ≡ true) ⊎ (has x ids ≡ true))

-- What holds of the rows where a part of the sweep ends well.
abbrev pub After : {A : Type 0} → (List SweepRow → Type 0) → Result Stop A × Camp → Type 0
After P (ok a, d) = P d.rows
After P (err e, d) = Unit

After-rows :
    {A : Type 0} (P : List SweepRow → Type 0) (r : Result Stop A) (d : Camp)
    → P d.rows
    → After P (r, d)
After-rows P (ok a) d p = p
After-rows P (err e) d p = tt

go_on-After :
    {A B : Type 0} (Q P : List SweepRow → Type 0) (m : Result Stop A) (rest : A → C B) (c : Camp)
    → After Q (m, c)
    → ((a : A) (d : Camp) → Q d.rows → After P (rest a d))
    → After P (go_on m rest c)
go_on-After Q P (ok a) rest c h k = k a c h
go_on-After Q P (err e) rest c h k = tt

events-append : (xs ys : List SweepRow) → events (xs ++ ys) ≡ events xs ++ events ys
events-append [] ys = refl
events-append (x ∷ xs) ys = ap (λ l. x.ev_type ∷ l) (events-append xs ys)

Grew-append :
    (ids : List ℕ) (rows more : List SweepRow) → events more ≡ ids → Grew ids rows (rows ++ more)
Grew-append ids rows more h = λ x. rw (events-append rows more, h) (has-append x (events rows) ids)

judge_record-events :
    (s : Sweep) (set_id rep : ℕ) (codes : List ℕ) (rc : ℕ) (o : Option Measurement)
    (rows : List SweepRow)
    → judge_record s set_id rep codes rc o ≡ ok rows
    → events rows ≡ codes
unfolding judge_record
judge_record-events s set_id rep codes rc none rows h = cc h
judge_record-events s set_id rep codes rc (some m) rows h =
    let (p, found, rest) = >>=-eq-ok (or_raise rule_record_schema m.pmu) _ h in
    (judge_record-rows s set_id rep codes rc m p rows
      (or_raise-eq-ok rule_record_schema m.pmu p found) h).0

keep_rows-After :
    (ids : List ℕ) (r : Result Stop (List SweepRow)) (c : Camp)
    → ((rows : List SweepRow) → r ≡ ok rows → events rows ≡ ids)
    → After (Grew ids c.rows) (go_on r keep_rows c)
keep_rows-After ids (ok rows) c h = Grew-append ids c.rows rows (h rows refl)
keep_rows-After ids (err e) c h = tt

-- A call of the link leaves the rows as they are.
calling-After :
    {A B : Type 0} (P : List SweepRow → Type 0) (caught : LinkError → Stop) (m : M A)
    (rest : A → C B) (c : Camp)
    → ((a : A) (d : Camp) → d.rows ≡ c.rows → After P (rest a d))
    → After P ((calling caught m ► rest) c)
calling-After P caught m rest c k =
    go_on-After (λ rows. rows ≡ c.rows) P (turned caught (m c.link).0) rest (calling caught m c).1
      (After-rows (λ rows. rows ≡ c.rows) (turned caught (m c.link).0) (calling caught m c).1 refl)
      k

refuse-After :
    {B : Type 0} (P : List SweepRow → Type 0) (b : Bool) (e : Stop) (rest : Unit {0} → C B)
    (c : Camp)
    → After P (rest tt c)
    → After P ((refuse b e ► rest) c)
refuse-After P true e rest c k = tt
refuse-After P false e rest c k = k

where_needed-After :
    {B : Type 0} (P : List SweepRow → Type 0) (b : Bool) (caught : LinkError → Stop)
    (m : M (Unit {0})) (rest : Unit {0} → C B) (c : Camp)
    → ((d : Camp) → d.rows ≡ c.rows → After P (rest tt d))
    → After P ((where_needed b (calling caught m) ► rest) c)
where_needed-After P true caught m rest c k = calling-After P caught m rest c (λ u d e. k d e)
where_needed-After P false caught m rest c k = k c refl

run_rep-After :
    (s : Sweep) (set_id rep : ℕ) (codes : List ℕ) (c : Camp)
    → After (Grew codes c.rows) (run_rep s set_id rep codes c)
unfolding run_rep
run_rep-After s set_id rep codes c =
    calling-After (Grew codes c.rows) transport (run_measured 120000) _ c (λ rc d e.
      subst
        (λ rows.
          After (Grew codes rows)
            (go_on (judge_record s set_id rep codes rc d.link.last_measurement) keep_rows d))
        e
        (keep_rows-After codes (judge_record s set_id rep codes rc d.link.last_measurement) d
          (judge_record-events s set_id rep codes rc d.link.last_measurement)))

-- Further repeats of a set bring no other event.
run_reps-After :
    (s : Sweep) (set_id : ℕ) (codes : List ℕ) (rep count : ℕ) (start : List SweepRow) (c : Camp)
    → Grew codes start c.rows
    → After (Grew codes start) (run_reps s set_id codes rep count c)
unfolding run_reps
run_reps-After s set_id codes rep zero start c g = g
run_reps-After s set_id codes rep (suc count) start c g =
    go_on-After (Grew codes c.rows) (Grew codes start) (run_rep s set_id rep codes c).0
      (λ u. run_reps s set_id codes (suc rep) count) (run_rep s set_id rep codes c).1
      (run_rep-After s set_id rep codes c)
      (λ u d h.
        run_reps-After s set_id codes (suc rep) count start d (λ x. ground (arith, g x, h x)))

repeats-After :
    (s : Sweep) (set_id : ℕ) (codes : List ℕ) (count : ℕ) (c : Camp)
    → 0 < count
    → After (Grew codes c.rows) (run_reps s set_id codes 1 count c)
unfolding run_reps
repeats-After s set_id codes zero c h = absurd (omega arith)
repeats-After s set_id codes (suc count) c h =
    go_on-After (Grew codes c.rows) (Grew codes c.rows) (run_rep s set_id 1 codes c).0
      (λ u. run_reps s set_id codes 2 count) (run_rep s set_id 1 codes c).1
      (run_rep-After s set_id 1 codes c) (λ u d g. run_reps-After s set_id codes 2 count c.rows d g)

run_set-After :
    (s : Sweep) (fresh : Bool) (set_id : ℕ) (codes : List ℕ) (c : Camp)
    → 0 < s.repeats
    → After (Grew codes c.rows) (run_set s fresh set_id codes c)
unfolding run_set
run_set-After s fresh set_id codes c h =
    let P = Grew codes c.rows in
    let configure = set_instrumentation_mode instrumentation_events codes set_id in
    where_needed-After P fresh (mode_stop set_id) reset_runner _ c (λ d e.
      calling-After P (mode_stop set_id) configure _ d (λ ws f p.
        refuse-After P
          (not (get_or ws 1 0 == instrumentation_events) || not (get_or ws 2 0 == length codes))
          rule_mode_nack _ f
          (where_needed-After P fresh transport (prime s) _ f (λ g q.
            subst (λ rows. After (Grew codes rows) (run_reps s set_id codes 1 s.repeats g))
              (q ∙ p ∙ e) (repeats-After s set_id codes s.repeats g h)))))

run_sets-After :
    (s : Sweep) (first : Bool) (sets : List (ℕ × List ℕ)) (c : Camp)
    → 0 < s.repeats
    → After (Grew (joined sets) c.rows) (run_sets s first sets c)
unfolding run_sets joined
run_sets-After s first [] c h = λ x. unfold has in ground arith
run_sets-After s first ((set_id, codes) ∷ sets) c h =
    let one = run_set s (first || not s.keep_model) set_id codes c in
    go_on-After (Grew codes c.rows) (Grew (codes ++ joined sets) c.rows) one.0
      (λ u. run_sets s false sets) one.1
      (run_set-After s (first || not s.keep_model) set_id codes c h)
      (λ u d g.
        further d g (run_sets s false sets d).0 (run_sets s false sets d).1
          (run_sets-After s false sets d h))
  where
    further :
        (d : Camp)
        → Grew codes c.rows d.rows
        → (r : Result Stop (Unit {0})) (e : Camp) → After (Grew (joined sets) d.rows) (r, e)
        → After (Grew (codes ++ joined sets) c.rows) (r, e)
    further d g (ok u) e k = λ x. ground (arith, g x, k x, has-append x codes (joined sets))
    further d g (err z) e k = tt

pub sweep-After :
    (s : Sweep) (sets : List (ℕ × List ℕ)) (c : Camp)
    → 0 < s.repeats
    → After (Grew (joined sets) c.rows) (sweep s sets c)
unfolding sweep
sweep-After s sets c h =
    let P = Grew (joined sets) c.rows in
    calling-After P (λ e. uncaught e) ping _ c
      (λ k d e. refuse-After P (not (k.state == 1)) rule_ping _ d (
        refuse-After P (any_count (drop 2 k.counts)) rule_ping _ d (
          subst (λ rows. After (Grew (joined sets) rows) (run_sets s true sets d)) e
            (run_sets-After s true sets d h))))
