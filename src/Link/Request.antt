-- ===== src/Link/Request.antt =====
-- `RunnerLink.request` (host/lib/runner_proto.py): how it ends and what it returns.
use mps4_prototyping_board.Prelude.{
  ℕ, zero, suc, ◌≤◌, ◌<◌, ◌≡◌, ◌≢◌, refl, sym, ap, subst₂, ◌∙◌, arith, bit_or, List, [], ◌∷◌, ◌++◌,
  Option, none, some, length, Result, ok, err, All, Option-cases, inl, inr,
}
use mps4_prototyping_board.Bytes.{Bytes}
use mps4_prototyping_board.Proto.{Frame, build_frame}
use mps4_prototyping_board.Link.{
  Link, LinkError, timed_out, struct_error, out_of_fuel, read_frame, judge_response, request_loop,
  request, next_seq, nack_of,
}
use mps4_prototyping_board.Link.Reads.{
  Reads-append, Read, Outcome, got, expired, read_frame-Outcome, Read-weaken,
}

-- An answer to the request `command` with the number `seq`.
pub record Answers (command seq : ℕ) (f : Frame) : Type 0 where
  pub numbered : f.sequence ≡ seq
  pub acknowledged : f.command ≡ bit_or command 0x80

judge_response-ok :
    (command seq : ℕ) (f g : Frame)
    → judge_response command seq f ≡ some (ok g)
    → (g ≡ f) × Answers command seq f
unfolding judge_response
judge_response-ok command seq f g h = ground arith

judge_response-none :
    (command seq : ℕ) (f : Frame) → judge_response command seq f ≡ none → f.sequence ≢ seq
unfolding judge_response
judge_response-none command seq f h = ground arith

nack_of-ne-out_of_fuel : (f : Frame) → nack_of f ≢ out_of_fuel
nack_of-ne-out_of_fuel f = ground arith

judge_response-ne-out_of_fuel :
    (command seq : ℕ) (f : Frame) → judge_response command seq f ≢ some (err out_of_fuel)
unfolding judge_response
judge_response-ne-out_of_fuel command seq f h = ground (arith, nack_of-ne-out_of_fuel f)

-- From `l` to `l'` the frames `stale`, of other exchanges, were read and passed over, then `f`.
pub record Found (command seq : ℕ) (l : Link) (f : Frame) (l' : Link) : Type 0 where
  pub stale : List Frame
  pub others : All (λ g. g.sequence ≢ seq) stale
  pub answers : Answers command seq f
  pub read : Read (length l.clock) l (stale ++ f ∷ []) l'

Read-append :
    (n m : ℕ) {l l' l'' : Link} {fs gs : List Frame}
    → Read n l fs l'
    → Read m l' gs l''
    → Read m l (fs ++ gs) l''
Read-append n m d e = record {
  reads = Reads-append d.reads e.reads;
  protocol = e.protocol ∙ d.protocol;
  late_frames = e.late_frames ∙ d.late_frames;
  last_measurement = e.last_measurement ∙ d.last_measurement;
  seq = e.seq ∙ d.seq;
  sent = e.sent ∙ d.sent;
  clock = e.clock;
}

-- What the loop of `request` can end in.
data Ended (command seq : ℕ) (l : Link) : Result LinkError Frame × Link → Type 0 where
  answered : (f : Frame) (l' : Link) → Found command seq l f l' → Ended command seq l (ok f, l')
  failed : (e : LinkError) (l' : Link) → e ≢ out_of_fuel → Ended command seq l (err e, l')

module _ (command seq timeout : ℕ) where
  Ended-later :
      (l l' : Link) (f : Frame) {o : Result LinkError Frame × Link}
      → f.sequence ≢ seq
      → length l'.clock ≤ length l.clock
      → Read (length l.clock) l (f ∷ []) l'
      → Ended command seq l' o
      → Ended command seq l o
  Ended-later l l' f h c d (failed e l'' n) = failed e l'' n
  Ended-later l l' f h c d (answered g l'' found) = answered g l'' (record {
    stale = f ∷ found.stale;
    others = (h, found.others);
    answers = found.answers;
    read =
        Read-append (length l.clock) (length l.clock) d
          (Read-weaken (length l'.clock) (length l.clock) c found.read);
  })

  module _ (fuel : ℕ) (l : Link) where
    loop_failed :
        (e : LinkError) (l' : Link)
        → read_frame timeout l ≡ (err e, l')
        → request_loop (suc fuel) command seq timeout l ≡ (err e, l')
    unfolding request_loop
    loop_failed e l' h = ground arith

    pub loop_answered :
        (f : Frame) (r : Result LinkError Frame) (l' : Link)
        → read_frame timeout l ≡ (ok f, l')
        → judge_response command seq f ≡ some r
        → request_loop (suc fuel) command seq timeout l ≡ (r, l')
    unfolding request_loop
    loop_answered f r l' h j = ground arith

    loop_stale :
        (f : Frame) (l' : Link)
        → read_frame timeout l ≡ (ok f, l')
        → judge_response command seq f ≡ none
        → request_loop (suc fuel) command seq timeout l ≡ request_loop fuel command seq timeout l'
    unfolding request_loop
    loop_stale f l' h j = ground arith

  request_loop-Ended :
      (fuel : ℕ) (l : Link)
      → length l.clock < fuel
      → Ended command seq l (request_loop fuel command seq timeout l)
  request_loop-Ended zero l h = elim h [ ]
  request_loop-Ended (suc fuel) l h =
      after (read_frame timeout l) refl (read_frame-Outcome timeout l)
        (λ l' c. request_loop-Ended fuel l' c)
    where
      judged :
          (f : Frame) (l' : Link) (j : Option (Result LinkError Frame))
          → judge_response command seq f ≡ j
          → read_frame timeout l ≡ (ok f, l')
          → length l'.clock < length l.clock
          → Read (length l.clock) l (f ∷ []) l'
          → ((l' : Link)
              → length l'.clock < fuel
              → Ended command seq l' (request_loop fuel command seq timeout l'))
          → Ended command seq l (request_loop (suc fuel) command seq timeout l)
      judged f l' none j e c d rec = rw (loop_stale fuel l f l' e j) (
          Ended-later l l' f (judge_response-none command seq f j) (omega arith) d
            (rec l' (omega arith)))
      judged f l' (some (ok g)) j e c d rec =
          let (p, q) = judge_response-ok command seq f g j in
          rw (loop_answered fuel l f (ok g) l' e j, p)
            (answered f l' (record { stale = []; others = tt; answers = q; read = d }))
      judged f l' (some (err x)) j e c d rec = rw (loop_answered fuel l f (err x) l' e j) (
          failed x l' (λ (w : x ≡ out_of_fuel).
            judge_response-ne-out_of_fuel command seq f (j ∙ ap (λ z. some (err z)) w)))

      after :
          (o : Result LinkError Frame × Link)
          → read_frame timeout l ≡ o
          → Outcome (length l.clock) l o
          → ((l' : Link)
              → length l'.clock < fuel
              → Ended command seq l' (request_loop fuel command seq timeout l'))
          → Ended command seq l (request_loop (suc fuel) command seq timeout l)
      after o e (expired l' d) rec =
          rw (loop_failed fuel l timed_out l' e) (failed timed_out l' (λ w. cc))
      after o e (got f l' c d) rec = judged f l' (judge_response command seq f) refl e c d rec

-- The link after the request was sent.
abbrev pub after_send : Link → Bytes → Link
after_send l blob = record l { seq = next_seq l; sent = l.sent ++ blob ∷ [] }

module _ (command : ℕ) (payload : Bytes) (timeout : ℕ) (l : Link) where
  pub request_sent :
      (blob : Bytes)
      → build_frame command (next_seq l) payload 0 ≡ some blob
      → request command payload timeout l
        ≡ request_loop (suc (length l.clock)) command (next_seq l) timeout (after_send l blob)
  unfolding request
  request_sent blob h = ground arith

  request_refused :
      build_frame command (next_seq l) payload 0 ≡ none
      → request command payload timeout l ≡ (err struct_error, record l { seq = next_seq l })
  unfolding request
  request_refused h = ground arith

  -- The fuel of `request` is enough: each round takes a reading of the clock, of which the trace lists finitely
  -- many. The code sets a deadline to each frame and none to the loop.
  request-ne-out_of_fuel : (request command payload timeout l).0 ≢ err out_of_fuel
  request-ne-out_of_fuel = elim (Option-cases (build_frame command (next_seq l) payload 0)) [
    | inl e ↦ rw (request_refused e) (λ w. cc)
    | inr (blob, e) ↦ rw (request_sent blob e) (
        not_fuel _ blob (
          request_loop-Ended command (next_seq l) timeout (suc (length l.clock)) (after_send l blob)
            (omega arith)))
  ]
    where
      not_fuel :
          (o : Result LinkError Frame × Link) (blob : Bytes)
          → Ended command (next_seq l) (after_send l blob) o
          → o.0 ≢ err out_of_fuel
      not_fuel o blob (answered f l' d) = λ w. cc
      not_fuel o blob (failed e l' n) = λ w. n (cc)

  -- A frame that `request` returns answers it: it carries the number of this exchange and the
  -- command with the top bit set, the request was written out as `build_frame` builds it, and only
  -- frames of other exchanges were read before it.
  pub request-Found :
      (f : Frame) (l' : Link)
      → request command payload timeout l ≡ (ok f, l')
      → (blob : Bytes) × (build_frame command (next_seq l) payload 0 ≡ some blob)
        × Found command (next_seq l) (after_send l blob) f l'
  request-Found f l' h = elim (Option-cases (build_frame command (next_seq l) payload 0)) [
    | inl e ↦ cc (ap (λ o. o.0) (sym (request_refused e) ∙ h))
    | inr (blob, e) ↦ (
      blob,
      e,
      found_of _ blob (sym (request_sent blob e) ∙ h) (
          request_loop-Ended command (next_seq l) timeout (suc (length l.clock)) (after_send l blob)
            (omega arith)),
    )
  ]
    where
      found_of :
          (o : Result LinkError Frame × Link) (blob : Bytes)
          → o ≡ (ok f, l')
          → Ended command (next_seq l) (after_send l blob) o
          → Found command (next_seq l) (after_send l blob) f l'
      found_of o blob p (answered g l'' d) =
          let q : g ≡ f = cc (ap (λ z. z.0) p) in
          subst₂ (λ x y. Found command (next_seq l) (after_send l blob) x y) q (ap (λ z. z.1) p) d
      found_of o blob p (failed e l'' n) = cc (ap (λ z. z.0) p)
