-- ===== src/Link/Live.antt =====
-- `RunnerLink.read_frame` and `request` (host/lib/runner_proto.py): an answer that arrives in time is returned.
use mps4_prototyping_board.Prelude.{
  ℕ, zero, suc, ◌+◌, ◌<◌, ◌≡◌, ◌≢◌, refl, ap, ◌∙◌, arith, List, [], ◌∷◌, true, false, none, some,
  bit_or, length, take, ok, All, ◌==◌, ==_iff,
}
use mps4_prototyping_board.Bytes.{Bytes}
use mps4_prototyping_board.Proto.{Frame, build_frame, nack_code}
use mps4_prototyping_board.Receive.{Receiver, try_parse, feed}
use mps4_prototyping_board.Link.{
  Link, receive, read_loop, read_from, read_frame, next_seq, judge_response, request,
}
use mps4_prototyping_board.Link.Request.{after_send, request_sent, loop_answered}

-- `Arrives r cs f n`: from the receiver `r`, with the chunks `cs` to come, `_try_parse` returns the frame `f`
-- after `n` reads of the port, and nothing before.
pub data Arrives : Receiver → List Bytes → Frame → ℕ → Type 0 where
  here :
      {r : Receiver} {cs : List Bytes} {f : Frame} (t : Receiver)
      → try_parse r ≡ some (some f, t)
      → Arrives r cs f zero
  after_chunk :
      {r : Receiver} {c : Bytes} {cs : List Bytes} {f : Frame} {n : ℕ} (t : Receiver)
      → try_parse r ≡ some (none, t)
      → Arrives (feed c t) cs f n
      → Arrives r (c ∷ cs) f (suc n)
  after_silence :
      {r : Receiver} {f : Frame} {n : ℕ} (t : Receiver)
      → try_parse r ≡ some (none, t)
      → Arrives t [] f n
      → Arrives r [] f (suc n)

-- There are so many readings of the clock, and all of them are before the deadline.
abbrev pub InTime : ℕ → ℕ → List ℕ → Type 0
InTime n deadline later = (n < length later) × All (λ t. t < deadline) (take (suc n) later)

-- The three cases of a round of the loop in time.
module _ (now deadline : ℕ) (later : List ℕ) (l : Link) (early : now < deadline) where
  pub loop_got :
      (f : Frame) (t : Receiver)
      → try_parse l.receiver ≡ some (some f, t)
      → read_loop (now ∷ later) deadline l ≡ (ok f, record l { receiver = t; clock = later })
  unfolding read_loop
  loop_got f t e = ground (arith, e, early)

  pub loop_waits :
      (t : Receiver)
      → try_parse l.receiver ≡ some (none, t)
      → read_loop (now ∷ later) deadline l
        ≡ read_loop later deadline (receive (record l { receiver = t; clock = later }))
  unfolding read_loop
  loop_waits t e = ground (arith, e, early)

read_loop-Arrives :
    (later : List ℕ) (deadline : ℕ) (l : Link) {r : Receiver} {cs : List Bytes} {f : Frame} {n : ℕ}
    → Arrives r cs f n
    → InTime n deadline later
    → (l' : Link) × (read_loop later deadline (record l { receiver = r; chunks = cs }) ≡ (ok f, l'))
unfolding receive
read_loop-Arrives [] deadline l (here t e) (h, q) = absurd (omega arith)
read_loop-Arrives [] deadline l (after_chunk t e a) (h, q) = absurd (omega arith)
read_loop-Arrives [] deadline l (after_silence t e a) (h, q) = absurd (omega arith)
read_loop-Arrives (now ∷ later) deadline l {r = r} {cs = cs} {f = f} (here t e) (h, q) = (
  record l { receiver = t; chunks = cs; clock = later },
  loop_got now deadline later (record l { receiver = r; chunks = cs }) q.0 f t e,
)
read_loop-Arrives (now ∷ later) deadline l {r = r} (after_chunk {c = c} {cs = cs} t e a) (h, q) =
    let (l', p) =
      read_loop-Arrives later deadline (record l { clock = later }) a (omega arith, q.1) in
    (l', loop_waits now deadline later (record l { receiver = r; chunks = c ∷ cs }) q.0 t e ∙ p)
read_loop-Arrives (now ∷ later) deadline l {r = r} (after_silence t e a) (h, q) =
    let (l', p) =
      read_loop-Arrives later deadline (record l { clock = later }) a (omega arith, q.1) in
    (l', loop_waits now deadline later (record l { receiver = r; chunks = [] }) q.0 t e ∙ p)

-- The frame answers the request of a command and a sequence number.
abbrev pub Answers : ℕ → ℕ → Frame → Type 0
Answers command seq f =
    (f.sequence ≡ seq) × (f.command ≡ bit_or command 0x80) × (f.command ≢ nack_code)

judge_response-Answers :
    (command seq : ℕ) (f : Frame)
    → Answers command seq f
    → judge_response command seq f ≡ some (ok f)
unfolding judge_response
judge_response-Answers command seq f (a, b, c) =
    let e : (f.sequence == seq) ≡ true = (==_iff f.sequence seq).1 a in
    let d : (f.command == nack_code) ≡ false = ground (arith, c) in
    let g : (f.command == bit_or command 0x80) ≡ true =
      (==_iff f.command (bit_or command 0x80)).1 b in
    rw (e, d, g) refl

-- Where the request can be built, its answer is the next frame that `_try_parse` takes out of the stream,
-- after some number of reads of the port, and the clock shows a time before the deadline for that many
-- rounds and one more, `request` returns the answer.
pub request-Arrives :
    (command : ℕ) (payload : Bytes) (timeout : ℕ) (l : Link) (blob : Bytes) (answer : Frame)
    (n now : ℕ) (later : List ℕ)
    → build_frame command (next_seq l) payload 0 ≡ some blob
    → l.clock ≡ now ∷ later
    → Arrives l.receiver l.chunks answer n
    → InTime n (now + timeout) later
    → Answers command (next_seq l) answer
    → (l' : Link) × (request command payload timeout l ≡ (ok answer, l'))
unfolding read_frame
request-Arrives command payload timeout l blob answer n now later built clock a t good =
    let (l', p) = read_loop-Arrives later (now + timeout) (after_send l blob) a t in
    let first = ap (λ c. read_from c timeout (after_send l blob)) clock ∙ from_clock now ∙ p in
    (
      l',
      request_sent command payload timeout l blob built
          ∙ loop_answered command (next_seq l) timeout (length l.clock) (after_send l blob) answer
              (ok answer) l' first (judge_response-Answers command (next_seq l) answer good),
    )
  where
    from_clock :
        (now : ℕ)
        → read_from (now ∷ later) timeout (after_send l blob)
          ≡ read_loop later (now + timeout) (after_send l blob)
    from_clock now = unfold read_from in refl
