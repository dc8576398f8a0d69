-- ===== src/Link/Run/Loop.antt =====
-- `run` under measure-v2 (host/lib/runner_proto.py): its loop and what it returns.
use mps4_prototyping_board.Prelude.{
  ℕ, zero, suc, ◌+◌, ◌≤◌, ◌<◌, ◌≡◌, ◌≢◌, refl, sym, ap, ◌∙◌, subst, arith, List, [], ◌∷◌, Bool,
  true, false, none, some, length, Result, ok, err, inl, inr, Bool-cases, Option-cases,
}
use mps4_prototyping_board.Bytes.{Bytes}
use mps4_prototyping_board.Proto.{Frame, build_frame, cmd_run}
use mps4_prototyping_board.Measure.{Measurement}
use mps4_prototyping_board.Link.{
  Link, LinkError, timed_out, struct_error, run_sequence, duplicate_complete, out_of_fuel, Progress,
  Move, late, acknowledge, complete, fail, judge_frame, before, poll, run_loop, conclude, watch,
  after_reading, continue, next_seq, run_measured, send_request,
}
use mps4_prototyping_board.Link.Reads.{Reads, Outcome, got, expired, read_frame-Outcome}
use mps4_prototyping_board.Link.Request.{after_send}
use mps4_prototyping_board.Link.Run.{
  Accepts, going, judge_frame-late, judge_frame-acknowledge, judge_frame-complete, judge_frame-fail,
  Watched, finished, gave_up, raised, Watched-before,
}

-- The link that `read_frame` is called on.
abbrev polled : Link → Link
polled l = record l { clock = after_reading (after_reading l.clock) }

poll-Outcome :
    (deadline : ℕ) (l : Link)
    → Outcome (length (after_reading (after_reading l.clock))) (polled l) (poll deadline l)
unfolding poll
poll-Outcome deadline l = read_frame-Outcome _ (polled l)

length-after_reading : (c : List ℕ) → length (after_reading c) ≤ length c
length-after_reading [] = omega arith
length-after_reading (n ∷ c) = omega arith

-- One round of the loop.
module _ (fuel deadline seq : ℕ) (p : Progress) (l : Link) where
  loop_over :
      before l.clock deadline ≡ false
      → run_loop (suc fuel) deadline seq p l ≡ (ok p, record l { clock = after_reading l.clock })
  unfolding run_loop
  loop_over h = ground arith

  loop_expired :
      (l' : Link)
      → before l.clock deadline ≡ true
      → poll deadline l ≡ (err timed_out, l')
      → run_loop (suc fuel) deadline seq p l ≡ (ok p, l')
  unfolding run_loop
  loop_expired l' b h = ground arith

  module _ (f : Frame) (l' : Link) (b : before l.clock deadline ≡ true)
      (h : poll deadline l ≡ (ok f, l')) where
    loop_late :
        judge_frame seq p f ≡ late
        → run_loop (suc fuel) deadline seq p l
          ≡ run_loop fuel deadline seq p (record l' { late_frames = l'.late_frames + 1 })
    unfolding run_loop
    loop_late j = ground arith

    pub loop_acknowledge :
        judge_frame seq p f ≡ acknowledge
        → run_loop (suc fuel) deadline seq p l
          ≡ run_loop fuel deadline seq (record p { acked = true }) l'
    unfolding run_loop
    loop_acknowledge j = ground arith

    pub loop_complete :
        (m : Measurement)
        → judge_frame seq p f ≡ complete m
        → run_loop (suc fuel) deadline seq p l ≡ (
          ok (record p { completed = true; rc = some m.run_rc }),
          record l' { last_measurement = some m },
        )
    unfolding run_loop
    loop_complete m j = ground arith

    loop_fail :
        (e : LinkError)
        → judge_frame seq p f ≡ fail e
        → run_loop (suc fuel) deadline seq p l ≡ (err e, l')
    unfolding run_loop
    loop_fail e j = ground arith

-- The loop with enough fuel ends in one of the three ways, and never for want of fuel.
run_loop-Watched :
    (fuel deadline seq : ℕ) (acked : Bool) (l : Link)
    → length l.clock < fuel
    → Watched seq acked l (run_loop fuel deadline seq (going acked) l)
run_loop-Watched zero deadline seq acked l h = elim h [ ]
run_loop-Watched (suc fuel) deadline seq acked l h = elim (Bool-cases (before l.clock deadline)) [
  | inl b ↦
      after b (poll deadline l) refl (poll-Outcome deadline l)
        (λ a l' c. run_loop-Watched fuel deadline seq a l' c)
  | inr b ↦
      rw (loop_over fuel deadline seq (going acked) l b)
        (gave_up acked (record l { clock = after_reading l.clock }))
]
  where
    Rest : Type 0
    Rest =
        (a : Bool) (l' : Link)
        → length l'.clock < fuel
        → Watched seq a l' (run_loop fuel deadline seq (going a) l')

    judged :
        (f : Frame) (l' : Link) (j : Move)
        → judge_frame seq (going acked) f ≡ j
        → before l.clock deadline ≡ true
        → poll deadline l ≡ (ok f, l')
        → length l'.clock < length l.clock
        → Reads l.receiver l.chunks (f ∷ []) l'.receiver l'.chunks
        → Rest
        → Watched seq acked l (run_loop (suc fuel) deadline seq (going acked) l)
    judged f l' late j b e c d rec = rw (loop_late fuel deadline seq (going acked) l f l' b e j) (
        Watched-before seq acked acked l _ f d (λ fs m a. judge_frame-late seq acked f j a)
          (rec acked (record l' { late_frames = l'.late_frames + 1 }) (omega arith)))
    judged f l' acknowledge j b e c d rec =
        rw (loop_acknowledge fuel deadline seq (going acked) l f l' b e j) (
          Watched-before seq acked true l l' f d (λ fs m a. judge_frame-acknowledge seq acked f j a)
            (rec true l' (omega arith)))
    judged f l' (complete m) j b e c d rec =
        rw (loop_complete fuel deadline seq (going acked) l f l' b e m j)
          (at_once acked (judge_frame-complete seq acked f m j))
      where
        at_once :
            (a : Bool)
            → (a ≡ true) × Accepts seq a (f ∷ []) m
            → Watched seq a l (
              ok (record { acked = a; completed = true; rc = some m.run_rc }),
              record l' { last_measurement = some m },
            )
        at_once true (p, x) = finished (f ∷ []) m (record l' { last_measurement = some m }) d x refl
        at_once false (p, x) = cc p
    judged f l' (fail x) j b e c d rec =
        let (p, q) = judge_frame-fail seq acked f x j in
        rw (loop_fail fuel deadline seq (going acked) l f l' b e x j) (raised x l' p q)

    after :
        before l.clock deadline ≡ true
        → (o : Result LinkError Frame × Link) → poll deadline l ≡ o
        → Outcome (length (after_reading (after_reading l.clock))) (polled l) o
        → Rest
        → Watched seq acked l (run_loop (suc fuel) deadline seq (going acked) l)
    after b o e (expired l' d) rec =
        rw (loop_expired fuel deadline seq (going acked) l l' b e) (gave_up acked l')
    after b o e (got f l' c d) rec =
        judged f l' (judge_frame seq (going acked) f) refl b e
          (omega
            (arith, length-after_reading l.clock, length-after_reading (after_reading l.clock)))
          d.reads rec

-- What `run` can end in, once the request is out: the frames to RUN_COMPLETE, or an error.
data Concluded (seq : ℕ) (l : Link) : Result LinkError ℕ × Link → Type 0 where
  returned :
      (fs : List Frame) (m : Measurement) (l' : Link)
      → Reads l.receiver l.chunks fs l'.receiver l'.chunks
      → Accepts seq false fs m
      → l'.last_measurement ≡ some m
      → Concluded seq l (ok m.run_rc, l')
  refused :
      (e : LinkError) (l' : Link)
      → e ≢ out_of_fuel
      → e ≢ run_sequence duplicate_complete
      → Concluded seq l (err e, l')

conclude-Concluded :
    (seq : ℕ) (l : Link) (o : Result LinkError Progress × Link)
    → Watched seq false l o
    → Concluded seq l (continue o.0 conclude o.1)
unfolding conclude
conclude-Concluded seq l o (finished fs m l' d a p) = returned fs m l' d a p
conclude-Concluded seq l o (gave_up true l') = refused _ l' (λ w. cc) (λ w. cc)
conclude-Concluded seq l o (gave_up false l') = refused _ l' (λ w. cc) (λ w. cc)
conclude-Concluded seq l o (raised e l' p q) = refused e l' p q

-- The clock does not matter to what was read.
Watched-clock :
    (seq : ℕ) (acked : Bool) (l : Link) (c : List ℕ) (o : Result LinkError Progress × Link)
    → Watched seq acked (record l { clock = c }) o
    → Watched seq acked l o
Watched-clock seq acked l c o (finished fs m l' d a p) = finished fs m l' d a p
Watched-clock seq acked l c o (gave_up s l') = gave_up s l'
Watched-clock seq acked l c o (raised e l' p q) = raised e l' p q

watch-Concluded : (timeout : ℕ) (l : Link) → Concluded l.seq l (watch timeout l)
unfolding watch
watch-Concluded timeout l = conclude-Concluded l.seq l _ (
    Watched-clock l.seq false l (after_reading l.clock) _ (
      run_loop-Watched (suc (length l.clock)) _ l.seq false
        (record l { clock = after_reading l.clock }) (omega (arith, length-after_reading l.clock))))

module _ (timeout : ℕ) (l : Link) where
  pub run_sent :
      (blob : Bytes)
      → build_frame cmd_run (next_seq l) [] 0 ≡ some blob
      → run_measured timeout l ≡ watch timeout (after_send l blob)
  unfolding run_measured send_request
  run_sent blob h = ground arith

  run_refused :
      build_frame cmd_run (next_seq l) [] 0 ≡ none
      → run_measured timeout l ≡ (err struct_error, record l { seq = next_seq l })
  unfolding run_measured send_request
  run_refused h = ground arith

  -- The fuel of `run` under measure-v2 is enough: each round takes a reading of the clock, of which the trace
  -- lists finitely many.
  run_measured-ne-out_of_fuel : (run_measured timeout l).0 ≢ err out_of_fuel
  run_measured-ne-out_of_fuel = elim (Option-cases (build_frame cmd_run (next_seq l) [] 0)) [
    | inl e ↦ rw (run_refused e) (λ w. cc)
    | inr (blob, e) ↦
        rw (run_sent blob e) (not_fuel _ blob (watch-Concluded timeout (after_send l blob)))
  ]
    where
      not_fuel :
          (o : Result LinkError ℕ × Link) (blob : Bytes)
          → Concluded (next_seq l) (after_send l blob) o
          → o.0 ≢ err out_of_fuel
      not_fuel o blob (returned fs m l' d a p) = λ w. cc
      not_fuel o blob (refused e l' p q) = λ w. p (cc)

  -- `run` under measure-v2 never raises the error for a second RUN_COMPLETE: the loop ends with the
  -- first one, so the test for `completed` is never true.
  pub run_measured-ne-duplicate_complete :
      (run_measured timeout l).0 ≢ err (run_sequence duplicate_complete)
  run_measured-ne-duplicate_complete = elim (Option-cases (build_frame cmd_run (next_seq l) [] 0)) [
    | inl e ↦ rw (run_refused e) (λ w. cc)
    | inr (blob, e) ↦
        rw (run_sent blob e) (not_twice _ blob (watch-Concluded timeout (after_send l blob)))
  ]
    where
      not_twice :
          (o : Result LinkError ℕ × Link) (blob : Bytes)
          → Concluded (next_seq l) (after_send l blob) o
          → o.0 ≢ err (run_sequence duplicate_complete)
      not_twice o blob (returned fs m l' d a p) = λ w. cc
      not_twice o blob (refused e l' p q) = λ w. q (cc)

  -- The rc that `run` returns under measure-v2 is that of a record `m`, which `last_measurement` keeps.
  -- The frames that were read, one after the other, out of the bytes end in a RUN_COMPLETE with `m`;
  -- the ACK with this exchange's number is among them; each other frame before the ACK is of another
  -- exchange, each other one after it is of another exchange or is no NACK and no ACK of a run, and
  -- none of them is a RUN_COMPLETE.
  pub run_measured-Accepts :
      (rc : ℕ) (l' : Link)
      → run_measured timeout l ≡ (ok rc, l')
      → (fs : List Frame) × (m : Measurement) × Reads l.receiver l.chunks fs l'.receiver l'.chunks
        × Accepts (next_seq l) false fs m
        × (l'.last_measurement ≡ some m)
        × (rc ≡ m.run_rc)
  run_measured-Accepts rc l' h = elim (Option-cases (build_frame cmd_run (next_seq l) [] 0)) [
    | inl e ↦ cc (ap (λ o. o.0) (sym (run_refused e) ∙ h))
    | inr (blob, e) ↦
        accepted _ blob (sym (run_sent blob e) ∙ h) (watch-Concluded timeout (after_send l blob))
  ]
    where
      Accepted : Link → ℕ → Type 0
      Accepted k n =
          (fs : List Frame) × (m : Measurement) × Reads l.receiver l.chunks fs k.receiver k.chunks
          × Accepts (next_seq l) false fs m
          × (k.last_measurement ≡ some m)
          × (n ≡ m.run_rc)

      accepted :
          (o : Result LinkError ℕ × Link) (blob : Bytes)
          → o ≡ (ok rc, l')
          → Concluded (next_seq l) (after_send l blob) o
          → Accepted l' rc
      accepted o blob q (returned fs m k d a p) =
          subst (λ x. Accepted x rc) (ap (λ z. z.1) q) (fs, m, d, a, p, cc (ap (λ z. z.0) q))
      accepted o blob q (refused e k p r) = cc (ap (λ z. z.0) q)
