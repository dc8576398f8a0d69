-- ===== src/Link/Run.antt =====
-- `run` under measure-v2 (host/lib/runner_proto.py): the frames that it accepts.
pub mod Loop
use mps4_prototyping_board.Prelude.{
  ℕ, zero, suc, ◌+◌, ◌-◌, ◌%◌, ◌^◌, ◌≤◌, ◌<◌, ◌≡◌, ◌≢◌, refl, sym, ap, ◌∙◌, arith, bit_or, List, [],
  ◌∷◌, ◌++◌, Bool, true, false, Option, none, some, length, Result, ok, err, inl, inr, Bool-cases,
  ◌⊎◌, not, ◌&&◌, ◌==◌,
}
use mps4_prototyping_board.Bytes.{Bytes}
use mps4_prototyping_board.Proto.{Frame, cmd_run, cmd_run_complete, nack_code}
use mps4_prototyping_board.Receive.{Receiver}
use mps4_prototyping_board.Measure.{Measurement, parse_measurement_payload}
use mps4_prototyping_board.Link.{
  Link, LinkError, timed_out, run_sequence, duplicate_complete, out_of_fuel, read_frame, Progress,
  Move, late, acknowledge, complete, fail, judge_frame, before, poll, caught, run_loop, conclude,
  start, watch, after_reading, nack_of,
}
use mps4_prototyping_board.Link.Reads.{
  Reads, stop, Reads-append, Read, Outcome, got, expired, read_frame-Outcome,
}

-- `Accepts seq acked fs m`: the frames `fs` are what `run` wants to see after the request `seq`, when
-- the ACK was seen already or not, and the last of them is the RUN_COMPLETE with the record `m`.
pub data Accepts (seq : ℕ) : Bool → List Frame → Measurement → Type 0 where
  straggler :
      {acked : Bool} (f : Frame) {fs : List Frame} {m : Measurement}
      → f.sequence ≢ seq
      → f.command ≢ cmd_run_complete
      → Accepts seq acked fs m
      → Accepts seq acked (f ∷ fs) m
  ack :
      (f : Frame) {fs : List Frame} {m : Measurement}
      → f.sequence ≡ seq
      → f.command ≡ bit_or cmd_run 0x80
      → Accepts seq true fs m
      → Accepts seq false (f ∷ fs) m
  other :
      (f : Frame) {fs : List Frame} {m : Measurement}
      → f.command ≢ nack_code
      → f.command ≢ bit_or cmd_run 0x80
      → f.command ≢ cmd_run_complete
      → Accepts seq true fs m
      → Accepts seq true (f ∷ fs) m
  completed :
      (f : Frame) {m : Measurement}
      → f.command ≡ cmd_run_complete
      → parse_measurement_payload f.payload ≡ ok m
      → Accepts seq true (f ∷ []) m

-- Before the loop ends, `completed` is false and there is no rc.
abbrev pub going : Bool → Progress
going acked = record { acked = acked; completed = false; rc = none }

judge_frame-late_cases :
    (seq : ℕ) (acked : Bool) (f : Frame)
    → judge_frame seq (going acked) f ≡ late
    → ((f.sequence ≢ seq) × (f.command ≢ cmd_run_complete))
      ⊎ ((acked ≡ true)
          × (f.command ≢ nack_code)
          × (f.command ≢ bit_or cmd_run 0x80)
          × (f.command ≢ cmd_run_complete))
unfolding judge_frame
judge_frame-late_cases seq acked f h =
    elim (Bool-cases (not (f.sequence == seq) && not (f.command == cmd_run_complete))) [
      | inl e ↦ inl (ground arith, ground arith)
      | inr e ↦ inr (ground arith, ground arith, ground arith, ground arith)
    ]

pub judge_frame-late :
    (seq : ℕ) (acked : Bool) (f : Frame) {fs : List Frame} {m : Measurement}
    → judge_frame seq (going acked) f ≡ late
    → Accepts seq acked fs m
    → Accepts seq acked (f ∷ fs) m
judge_frame-late seq false f h a = elim (judge_frame-late_cases seq false f h) [
  | inl (p, q) ↦ straggler f p q a
  | inr (w, p, q, r) ↦ cc w
]
judge_frame-late seq true f h a = elim (judge_frame-late_cases seq true f h) [
  | inl (p, q) ↦ straggler f p q a
  | inr (w, p, q, r) ↦ other f p q r a
]

pub judge_frame-acknowledge :
    (seq : ℕ) (acked : Bool) (f : Frame) {fs : List Frame} {m : Measurement}
    → judge_frame seq (going acked) f ≡ acknowledge
    → Accepts seq true fs m
    → Accepts seq acked (f ∷ fs) m
unfolding judge_frame
judge_frame-acknowledge seq false f h a = ack f (ground arith) (ground arith) a
judge_frame-acknowledge seq true f h a = absurd (ground arith)

pub judge_frame-complete :
    (seq : ℕ) (acked : Bool) (f : Frame) (m : Measurement)
    → judge_frame seq (going acked) f ≡ complete m
    → (acked ≡ true) × Accepts seq acked (f ∷ []) m
unfolding judge_frame
judge_frame-complete seq false f m h = absurd (ground arith)
judge_frame-complete seq true f m h = (refl, completed f (ground arith) (ground arith))

pub judge_frame-fail :
    (seq : ℕ) (acked : Bool) (f : Frame) (e : LinkError)
    → judge_frame seq (going acked) f ≡ fail e
    → (e ≢ out_of_fuel) × (e ≢ run_sequence duplicate_complete)
unfolding judge_frame
judge_frame-fail seq acked f e h = (λ w. ground arith, λ w. ground arith)

-- What the loop of `run` can end in: all frames up to RUN_COMPLETE, the time being up, or an error.
pub data Watched (seq : ℕ) (acked : Bool) (l : Link)
    : Result LinkError Progress × Link → Type 0 where
  finished :
      (fs : List Frame) (m : Measurement) (l' : Link)
      → Reads l.receiver l.chunks fs l'.receiver l'.chunks
      → Accepts seq acked fs m
      → l'.last_measurement ≡ some m
      → Watched seq acked l (ok (record { acked = true; completed = true; rc = some m.run_rc }), l')
  gave_up : (seen : Bool) (l' : Link) → Watched seq acked l (ok (going seen), l')
  raised :
      (e : LinkError) (l' : Link)
      → e ≢ out_of_fuel
      → e ≢ run_sequence duplicate_complete
      → Watched seq acked l (err e, l')

-- One more frame in front.
pub Watched-before :
    (seq : ℕ) (acked seen : Bool) (l l' : Link) (f : Frame) {o : Result LinkError Progress × Link}
    → Reads l.receiver l.chunks (f ∷ []) l'.receiver l'.chunks
    → ((fs : List Frame) (m : Measurement) → Accepts seq seen fs m → Accepts seq acked (f ∷ fs) m)
    → Watched seq seen l' o
    → Watched seq acked l o
Watched-before seq acked seen l l' f d k (finished fs m l'' e a p) =
    finished (f ∷ fs) m l'' (Reads-append d e) (k fs m a) p
Watched-before seq acked seen l l' f d k (gave_up s l'') = gave_up s l''
Watched-before seq acked seen l l' f d k (raised e l'' p q) = raised e l'' p q
