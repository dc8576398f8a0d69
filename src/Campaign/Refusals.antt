-- ===== src/Campaign/Refusals.antt =====
-- host/board/run_pmu_events.py: the rules that the loop of `main` refuses by.
use mps4_prototyping_board.Prelude.{
  subst, get_or, drop, ℕ, ◌≡◌, ◌≢◌, refl, List, [], ◌∷◌, Bool, true, false, not, ◌||◌, ◌&&◌, All,
  Name, codes, Option, none, some, if◌then◌else◌, ◌==◌, Bool-cases, length, get_elem?, suc, zero,
  ◌-◌, ◌^◌, Result, ok, err, ◌>>=◌, refuse_if, or_raise, inl, inr,
}
use mps4_prototyping_board.Bytes.{find, starts_with}
use mps4_prototyping_board.Measure.{Measurement, PmuBlock}
use mps4_prototyping_board.Link.{
  LinkError, timed_out, unexpected_response, measurement, run_sequence, struct_error,
  needs_run_sequence, too_many_codes, out_of_fuel, nack, index_error, M, run_measured,
}
use mps4_prototyping_board.Link.Commands.{Counters, ping, reset_runner, set_instrumentation_mode}
use mps4_prototyping_board.Events.{Term, run_validity, instrumentation_events}
use mps4_prototyping_board.Campaign.{
  Stop, run_of, rule_ping, rule_capability, rule_mode_nack, rule_codes_echo, rule_record_schema,
  uncaught, Sweep, value_at, rows_of, failed_echo, judge_valid, judge_record,
}
use mps4_prototyping_board.Campaign.Loop.{
  error_names, state_names, mentions, is_unsupported, mode_stop, Camp, C, go_on, refuse, turned,
  calling, transport, run_rep, run_reps, ◌►◌, give, keep_rows, where_needed, prime, run_set,
  run_sets, any_count, sweep,
}

-- A word that no name of a table has is not mentioned, whatever the code.
mentions-none :
    (word : Name) (code : ℕ) (names : List (ℕ × Name))
    → All (λ row. find word row.1 ≡ none) names
    → mentions word code names ≡ false
unfolding mentions
mentions-none word code [] h = refl
mentions-none word code ((c, name) ∷ names) (h, rest) = elim (Bool-cases (c == code)) [
  | inl e ↦ rw (e, h) refl
  | inr e ↦ rw e (mentions-none word code names rest)
]

error_names-none : All (λ (row : ℕ × Name). find (codes "UNSUPPORTED") row.1 ≡ none) error_names
unfolding find starts_with
error_names-none = (refl, (refl, (refl, (refl, (refl, (refl, (refl, (refl, (refl, tt)))))))))

state_names-none : All (λ (row : ℕ × Name). find (codes "UNSUPPORTED") row.1 ≡ none) state_names
unfolding find starts_with
state_names-none = (refl, (refl, (refl, (refl, (refl, (refl, (refl, tt)))))))

-- No error of the mode's exchange becomes RULE_CAPABILITY.
mode_stop-ne-capability : (set_id : ℕ) (e : LinkError) → mode_stop set_id e ≢ rule_capability
unfolding mode_stop is_unsupported
mode_stop-ne-capability set_id (nack code orig state) =
    rw
      (
        mentions-none (codes "UNSUPPORTED") code error_names error_names-none,
        mentions-none (codes "UNSUPPORTED") state state_names state_names-none,
        mode_stop,
        is_unsupported,
      )
      (mode_nack (set_id == 1))
  where
    mode_nack :
        (b : Bool)
        → ◌≢◌ {A = Stop} (if b && false then rule_capability else rule_mode_nack) rule_capability
    mode_nack true h = cc h
    mode_nack false h = cc h
mode_stop-ne-capability set_id e = λ h. cc h

-- A part of the sweep that never stops with RULE_CAPABILITY.
abbrev Never : {A : Type 0} → Result Stop A → Type 0
Never (ok a) = Unit
Never (err e) = e ≢ rule_capability

turned-Never :
    {A : Type 0} (caught : LinkError → Stop) (m : Result LinkError A)
    → ((e : LinkError) → caught e ≢ rule_capability)
    → Never (turned caught m)
turned-Never caught (ok a) h = tt
turned-Never caught (err e) h = h e

bind-Never :
    {A B : Type 0} (m : Result Stop A) (rest : A → Result Stop B)
    → Never m
    → ((a : A) → Never (rest a))
    → Never (m >>= rest)
bind-Never (ok a) rest h k = k a
bind-Never (err e) rest h k = h

go_on-Never :
    {A B : Type 0} (m : Result Stop A) (rest : A → C B) (c : Camp)
    → Never m
    → ((a : A) (d : Camp) → Never (rest a d).0)
    → Never (go_on m rest c).0
go_on-Never (ok a) rest c h k = k a c
go_on-Never (err e) rest c h k = h

refuse-Never : (b : Bool) (e : Stop) (c : Camp) → e ≢ rule_capability → Never (refuse b e c).0
refuse-Never true e c h = h
refuse-Never false e c h = tt

refuse_if-Never : (b : Bool) (e : Stop) → e ≢ rule_capability → Never (refuse_if b e)
refuse_if-Never true e h = h
refuse_if-Never false e h = tt

or_raise-Never : {A : Type 0} (e : Stop) (o : Option A) → e ≢ rule_capability → Never (or_raise e o)
or_raise-Never e none h = h
or_raise-Never e (some a) h = tt

transport-ne : (e : LinkError) → transport e ≢ rule_capability
transport-ne timed_out = λ h. cc h
transport-ne (unexpected_response a b) = λ h. cc h
transport-ne (measurement e) = λ h. cc h
transport-ne (run_sequence e) = λ h. cc h
transport-ne (nack a b c) = λ h. cc h
transport-ne struct_error = λ h. cc h
transport-ne index_error = λ h. cc h
transport-ne needs_run_sequence = λ h. cc h
transport-ne too_many_codes = λ h. cc h
transport-ne out_of_fuel = λ h. cc h

value_at-Never : (p : PmuBlock) (valid : Bool) (slot : ℕ) → Never (value_at p valid slot)
value_at-Never p true slot =
    or_raise-Never (uncaught index_error) (get_elem? p.event_values slot) (λ h. cc h)
value_at-Never p false slot = tt

rows_of-Never :
    (set_id rep : ℕ) (p : PmuBlock) (valid : Bool) (slot : ℕ) (codes : List ℕ)
    → Never (rows_of set_id rep p valid slot codes)
unfolding rows_of
rows_of-Never set_id rep p valid slot [] = tt
rows_of-Never set_id rep p valid slot (ev ∷ codes) =
    bind-Never (value_at p valid slot) _ (value_at-Never p valid slot) (λ value.
      bind-Never (or_raise (uncaught index_error) (get_elem? p.event_overflow slot)) _
        (or_raise-Never (uncaught index_error) (get_elem? p.event_overflow slot) (λ h. cc h))
        (λ overflow.
          bind-Never (rows_of set_id rep p valid (suc slot) codes) _
            (rows_of-Never set_id rep p valid (suc slot) codes) (λ rest. tt)))

judge_valid-Never :
    (set_id rep : ℕ) (codes : List ℕ) (p : PmuBlock) (o : Option (Bool × List Term))
    → Never (judge_valid set_id rep codes p o)
unfolding judge_valid
judge_valid-Never set_id rep codes p none = λ h. cc h
judge_valid-Never set_id rep codes p (some (valid, failed)) =
    bind-Never (refuse_if _ rule_codes_echo) _
      (refuse_if-Never
        (failed_echo failed && (not valid && p.event_valid_mask == 2 ^ length codes - 1))
        rule_codes_echo (λ h. cc h))
      (λ u. rows_of-Never set_id rep p valid 0 codes)

judge_record-Never :
    (s : Sweep) (set_id rep : ℕ) (codes : List ℕ) (rc : ℕ) (o : Option Measurement)
    → Never (judge_record s set_id rep codes rc o)
unfolding judge_record
judge_record-Never s set_id rep codes rc none = λ h. cc h
judge_record-Never s set_id rep codes rc (some m) =
    bind-Never (or_raise rule_record_schema m.pmu) _
      (or_raise-Never rule_record_schema m.pmu (λ h. cc h))
      (λ p.
        bind-Never (refuse_if (not (p.record_schema_version == 1)) rule_record_schema) _
          (refuse_if-Never (not (p.record_schema_version == 1)) rule_record_schema (λ h. cc h))
          (λ u.
            judge_valid-Never set_id rep codes p (run_validity (run_of s rc m p) codes s.validity)))

calling-Never :
    {A : Type 0} (caught : LinkError → Stop) (m : M A) (c : Camp)
    → ((e : LinkError) → caught e ≢ rule_capability)
    → Never (calling caught m c).0
calling-Never caught m c h = turned-Never caught (m c.link).0 h

step-Never :
    {A B : Type 0} (first : C A) (rest : A → C B) (c : Camp)
    → Never (first c).0
    → ((a : A) (d : Camp) → Never (rest a d).0)
    → Never ((first ► rest) c).0
step-Never first rest c h k = go_on-Never (first c).0 rest (first c).1 h k

run_rep-Never :
    (s : Sweep) (set_id rep : ℕ) (codes : List ℕ) (c : Camp)
    → Never (run_rep s set_id rep codes c).0
unfolding run_rep
run_rep-Never s set_id rep codes c =
    let judge_it =
      λ (rc : ℕ) (d : Camp). give (judge_record s set_id rep codes rc d.link.last_measurement) d in
    step-Never (calling transport (run_measured 120000)) (λ rc. judge_it rc ► keep_rows) c
      (calling-Never transport (run_measured 120000) c transport-ne)
      (λ rc d.
        step-Never (judge_it rc) keep_rows d
          (judge_record-Never s set_id rep codes rc d.link.last_measurement) (λ rows e. tt))

run_reps-Never :
    (s : Sweep) (set_id : ℕ) (codes : List ℕ) (rep count : ℕ) (c : Camp)
    → Never (run_reps s set_id codes rep count c).0
unfolding run_reps
run_reps-Never s set_id codes rep zero c = tt
run_reps-Never s set_id codes rep (suc count) c =
    step-Never (run_rep s set_id rep codes) (λ u. run_reps s set_id codes (suc rep) count) c
      (run_rep-Never s set_id rep codes c) (λ u d. run_reps-Never s set_id codes (suc rep) count d)

where_needed-Never :
    (b : Bool) (act : C (Unit {0})) (c : Camp) → Never (act c).0 → Never (where_needed b act c).0
where_needed-Never true act c h = h
where_needed-Never false act c h = tt

run_set-Never :
    (s : Sweep) (fresh : Bool) (set_id : ℕ) (codes : List ℕ) (c : Camp)
    → Never (run_set s fresh set_id codes c).0
unfolding run_set
run_set-Never s fresh set_id codes c =
    let reps = run_reps s set_id codes 1 s.repeats in
    let primed = where_needed fresh (calling transport (prime s)) ► λ u. reps in
    let strange = λ (ws : List ℕ).
      not (get_or ws 1 0 == instrumentation_events) || not (get_or ws 2 0 == length codes) in
    let check = λ (ws : List ℕ). refuse (strange ws) rule_mode_nack ► λ u. primed in
    let configure = set_instrumentation_mode instrumentation_events codes set_id in
    let mode = calling (mode_stop set_id) configure ► check in
    let ne = mode_stop-ne-capability set_id in
    step-Never (where_needed fresh (calling (mode_stop set_id) reset_runner)) (λ u. mode) c
      (where_needed-Never fresh (calling (mode_stop set_id) reset_runner) c
        (calling-Never (mode_stop set_id) reset_runner c ne))
      (λ u d.
        step-Never (calling (mode_stop set_id) configure) check d
          (calling-Never (mode_stop set_id) configure d ne)
          (λ ws e.
            step-Never (refuse (strange ws) rule_mode_nack) (λ u. primed) e
              (refuse-Never (strange ws) rule_mode_nack e (λ h. cc h))
              (λ u f.
                step-Never (where_needed fresh (calling transport (prime s))) (λ u. reps) f
                  (where_needed-Never fresh (calling transport (prime s)) f
                    (calling-Never transport (prime s) f transport-ne))
                  (λ u g. run_reps-Never s set_id codes 1 s.repeats g))))

run_sets-Never :
    (s : Sweep) (first : Bool) (sets : List (ℕ × List ℕ)) (c : Camp)
    → Never (run_sets s first sets c).0
unfolding run_sets
run_sets-Never s first [] c = tt
run_sets-Never s first ((set_id, codes) ∷ sets) c =
    step-Never (run_set s (first || not s.keep_model) set_id codes) (λ u. run_sets s false sets) c
      (run_set-Never s (first || not s.keep_model) set_id codes c)
      (λ u d. run_sets-Never s false sets d)

sweep-Never : (s : Sweep) (sets : List (ℕ × List ℕ)) (c : Camp) → Never (sweep s sets c).0
unfolding sweep
sweep-Never s sets c =
    let caught = λ (e : LinkError). uncaught e in
    let work = run_sets s true sets in
    let counted = λ (k : Counters). refuse (any_count (drop 2 k.counts)) rule_ping ► λ u. work in
    let judge = λ (k : Counters). refuse (not (k.state == 1)) rule_ping ► λ u. counted k in
    step-Never (calling caught ping) judge c (calling-Never caught ping c (λ e h. cc h)) (λ k d.
      step-Never (refuse (not (k.state == 1)) rule_ping) (λ u. counted k) d
        (refuse-Never (not (k.state == 1)) rule_ping d (λ h. cc h))
        (λ u e.
          step-Never (refuse (any_count (drop 2 k.counts)) rule_ping) (λ u. work) e
            (refuse-Never (any_count (drop 2 k.counts)) rule_ping e (λ h. cc h))
            (λ u f. run_sets-Never s true sets f)))

-- A sweep never stops with RULE_CAPABILITY, whatever the link and the firmware do: the code of a NACK for
-- an unsupported command has no name in ERROR_NAMES, so that the text of the exception does not have
-- the word that the rule looks for.
pub sweep-ne-capability :
    (s : Sweep) (sets : List (ℕ × List ℕ)) (c : Camp) → (sweep s sets c).0 ≢ err rule_capability
sweep-ne-capability s sets c h = subst Never h (sweep-Never s sets c) refl
