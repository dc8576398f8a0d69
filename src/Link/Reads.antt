-- ===== src/Link/Reads.antt =====
-- `RunnerLink.read_frame` (host/lib/runner_proto.py): how it ends, and what it reads.
use mps4_prototyping_board.Prelude.{
  ℕ, suc, ◌+◌, ◌≤◌, ◌<◌, ◌≡◌, refl, arith, List, [], ◌∷◌, ◌++◌, true, false, Option, none, some,
  length, Result, ok, err, ltb, Bool-cases, inl, inr,
}
use mps4_prototyping_board.Bytes.{Bytes}
use mps4_prototyping_board.Proto.{Frame}
use mps4_prototyping_board.Receive.{Receiver, try_parse, feed}
use mps4_prototyping_board.Receive.Fuel.{try_parse_total}
use mps4_prototyping_board.Link.{
  Link, LinkError, timed_out, receive, read_loop, read_from, read_frame,
}

-- `Reads r cs fs s ds`: from the receiver `r`, with the chunks `cs` still to come, the calls of
-- `_try_parse` return the frames `fs`, and `s` and `ds` are left.
pub data Reads : Receiver → List Bytes → List Frame → Receiver → List Bytes → Type 0 where
  stop : {r : Receiver} {cs : List Bytes} → Reads r cs [] r cs
  took :
      {r : Receiver} {cs : List Bytes} {f : Frame} {fs : List Frame} (t : Receiver) {s : Receiver}
      {ds : List Bytes}
      → try_parse r ≡ some (some f, t)
      → Reads t cs fs s ds
      → Reads r cs (f ∷ fs) s ds
  chunk :
      {r : Receiver} {c : Bytes} {cs : List Bytes} {fs : List Frame} (t : Receiver) {s : Receiver}
      {ds : List Bytes}
      → try_parse r ≡ some (none, t)
      → Reads (feed c t) cs fs s ds
      → Reads r (c ∷ cs) fs s ds
  idle :
      {r : Receiver} {fs : List Frame} (t : Receiver) {s : Receiver} {ds : List Bytes}
      → try_parse r ≡ some (none, t)
      → Reads t [] fs s ds
      → Reads r [] fs s ds

pub Reads-append :
    {r s t : Receiver} {cs ds es : List Bytes} {fs gs : List Frame}
    → Reads r cs fs s ds
    → Reads s ds gs t es
    → Reads r cs (fs ++ gs) t es
Reads-append stop e = e
Reads-append (took u h d) e = took u h (Reads-append d e)
Reads-append (chunk u h d) e = chunk u h (Reads-append d e)
Reads-append (idle u h d) e = idle u h (Reads-append d e)

-- From `l` to `l'` the frames `fs` were read, and at most `n` readings of the clock are left.
pub record Read (n : ℕ) (l : Link) (fs : List Frame) (l' : Link) : Type 0 where
  pub reads : Reads l.receiver l.chunks fs l'.receiver l'.chunks
  pub protocol : l'.protocol ≡ l.protocol
  pub late_frames : l'.late_frames ≡ l.late_frames
  pub last_measurement : l'.last_measurement ≡ l.last_measurement
  pub seq : l'.seq ≡ l.seq
  pub sent : l'.sent ≡ l.sent
  pub clock : length l'.clock ≤ n

-- `read_frame` returns a frame, or times out; it raises nothing else.
pub data Outcome (n : ℕ) (l : Link) : Result LinkError Frame × Link → Type 0 where
  got :
      (f : Frame) (l' : Link) → length l'.clock < n → Read n l (f ∷ []) l' → Outcome n l (ok f, l')
  expired : (l' : Link) → Read n l [] l' → Outcome n l (err timed_out, l')

-- A parse that gave nothing and the read after it, before what follows.
Read-receive :
    (n : ℕ) (l : Link) (t : Receiver) (later : List ℕ) (fs : List Frame) (l' : Link)
    → try_parse l.receiver ≡ some (none, t)
    → Read n (receive (record l { receiver = t; clock = later })) fs l'
    → Read n l fs l'
unfolding receive
Read-receive n l t later fs l' h e = by_chunks l.chunks e
  where
    by_chunks :
        (cs : List Bytes)
        → Read n (receive (record l { receiver = t; clock = later; chunks = cs })) fs l'
        → Read n (record l { chunks = cs }) fs l'
    by_chunks [] e = record {
      reads = idle t h e.reads;
      protocol = e.protocol;
      late_frames = e.late_frames;
      last_measurement = e.last_measurement;
      seq = e.seq;
      sent = e.sent;
      clock = e.clock;
    }
    by_chunks (c ∷ cs) e = record {
      reads = chunk t h e.reads;
      protocol = e.protocol;
      late_frames = e.late_frames;
      last_measurement = e.last_measurement;
      seq = e.seq;
      sent = e.sent;
      clock = e.clock;
    }

Outcome-receive :
    (n : ℕ) (l : Link) (t : Receiver) (later : List ℕ) (o : Result LinkError Frame × Link)
    → try_parse l.receiver ≡ some (none, t)
    → Outcome n (receive (record l { receiver = t; clock = later })) o
    → Outcome n l o
Outcome-receive n l t later o h (got f l' c e) =
    got f l' c (Read-receive n l t later (f ∷ []) l' h e)
Outcome-receive n l t later o h (expired l' e) = expired l' (Read-receive n l t later [] l' h e)

pub Read-weaken :
    (n m : ℕ) {l l' : Link} {fs : List Frame} → n ≤ m → Read n l fs l' → Read m l fs l'
Read-weaken n m h e = record {
  reads = e.reads;
  protocol = e.protocol;
  late_frames = e.late_frames;
  last_measurement = e.last_measurement;
  seq = e.seq;
  sent = e.sent;
  clock = omega (arith, e.clock);
}

Outcome-weaken :
    (n m : ℕ) (l : Link) {o : Result LinkError Frame × Link} → n ≤ m → Outcome n l o → Outcome m l o
Outcome-weaken n m l h (got f l' c e) = got f l' (omega arith) (Read-weaken n m h e)
Outcome-weaken n m l h (expired l' e) = expired l' (Read-weaken n m h e)

-- Nothing was read.
still : (n : ℕ) (l : Link) (c : List ℕ) → length c ≤ n → Read n l [] (record l { clock = c })
still n l c h = record {
  reads = stop;
  protocol = refl;
  late_frames = refl;
  last_measurement = refl;
  seq = refl;
  sent = refl;
  clock = h;
}

module _ (now : ℕ) (later : List ℕ) (deadline : ℕ) (l : Link) where
  read_loop_late :
      ltb now deadline ≡ false
      → read_loop (now ∷ later) deadline l ≡ (err timed_out, record l { clock = later })
  unfolding read_loop
  read_loop_late e = rw (e, read_loop) refl

  pub read_loop_frame :
      (f : Frame) (r : Receiver)
      → ltb now deadline ≡ true
      → try_parse l.receiver ≡ some (some f, r)
      → read_loop (now ∷ later) deadline l ≡ (ok f, record l { receiver = r; clock = later })
  unfolding read_loop
  read_loop_frame f r e h = rw (e, read_loop) (rw (h, read_loop) refl)

  read_loop_more :
      (r : Receiver)
      → ltb now deadline ≡ true
      → try_parse l.receiver ≡ some (none, r)
      → read_loop (now ∷ later) deadline l
        ≡ read_loop later deadline (receive (record l { receiver = r; clock = later }))
  unfolding read_loop
  read_loop_more r e h = rw (e, read_loop) (rw (h, read_loop) refl)

-- One frame, taken off the buffer.
one_frame :
    (l : Link) (f : Frame) (r : Receiver) (later : List ℕ)
    → try_parse l.receiver ≡ some (some f, r)
    → Read (suc (length later)) l (f ∷ []) (record l { receiver = r; clock = later })
one_frame l f r later h = record {
  reads = took r h stop;
  protocol = refl;
  late_frames = refl;
  last_measurement = refl;
  seq = refl;
  sent = refl;
  clock = omega arith;
}

-- A frame takes one reading at least; a timeout leaves no more than there were.
read_loop-Outcome :
    (clock : List ℕ) (deadline : ℕ) (l : Link)
    → Outcome (length clock) l (read_loop clock deadline l)
read_loop-Outcome [] deadline l =
    unfold read_loop in expired (record l { clock = [] }) (still _ l [] (omega arith))
read_loop-Outcome (now ∷ later) deadline l =
    let (o, r, h) = try_parse_total l.receiver in
    elim (Bool-cases (ltb now deadline)) [
      | inl e ↦
          in_time o r e h
            (read_loop-Outcome later deadline (receive (record l { receiver = r; clock = later })))
      | inr e ↦
          rw (read_loop_late now later deadline l e)
            (expired (record l { clock = later }) (still _ l later (omega arith)))
    ]
  where
    in_time :
        (o : Option Frame) (r : Receiver)
        → ltb now deadline ≡ true
        → try_parse l.receiver ≡ some (o, r)
        → Outcome
            (length later)
            (receive (record l { receiver = r; clock = later }))
            (read_loop later deadline (receive (record l { receiver = r; clock = later })))
        → Outcome (suc (length later)) l (read_loop (now ∷ later) deadline l)
    in_time (some f) r e h rest =
        rw (read_loop_frame now later deadline l f r e h)
          (got f (record l { receiver = r; clock = later }) (omega arith) (one_frame l f r later h))
    in_time none r e h rest = rw (read_loop_more now later deadline l r e h) (
        Outcome-weaken (length later) _ l (omega arith)
          (Outcome-receive (length later) l r later _ h rest))

-- `read_frame` returns a frame that the bytes hold, or times out; it never runs out of fuel.
pub read_frame-Outcome :
    (timeout : ℕ) (l : Link) → Outcome (length l.clock) l (read_frame timeout l)
unfolding read_frame read_from
read_frame-Outcome timeout l = by_clock l.clock
  where
    by_clock :
        (c : List ℕ)
        → Outcome (length c) (record l { clock = c }) (read_from c timeout (record l { clock = c }))
    by_clock [] =
        expired (record l { clock = [] }) (still _ (record l { clock = [] }) [] (omega arith))
    by_clock (now ∷ later) =
        Outcome-weaken (length later) _ (record l { clock = now ∷ later }) (omega arith)
          (read_loop-Outcome later (now + timeout) (record l { clock = now ∷ later }))
