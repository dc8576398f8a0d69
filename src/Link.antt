-- ===== src/Link.antt =====
-- host/lib/runner_proto.py, `RunnerLink`: the link's state, `read_frame`, `request` and `run`. The
-- serial port and the clock are the environment: what `time.time()` and `read(1024)` will return is
-- listed in the state, and what was written is kept. Times are whole milliseconds.
pub mod Commands
pub mod Reads
pub mod Live
pub mod Deadline
pub mod Request
pub mod Run
use mps4_prototyping_board.Prelude.{
  ℕ, zero, suc, ◌+◌, ◌-◌, ◌%◌, ◌^◌, min, bit_or, List, [], ◌∷◌, ◌++◌, Bool, true, false, not, ◌&&◌,
  Option, none, some, length, ltb, ◌==◌, if◌then◌else◌, Result, ok, err,
}
use Prim.Native.Nat.{max}
use mps4_prototyping_board.Prelude.Int.{ℤ, pos, signed32}
use mps4_prototyping_board.Bytes.{Bytes}
use mps4_prototyping_board.Proto.{
  Protocol, functional_v1, measure_v2, Frame, build_frame, cmd_run, cmd_run_complete, nack_code,
}
use mps4_prototyping_board.Receive.{Receiver, try_parse, feed, read_u32}
use mps4_prototyping_board.Measure.{Measurement, MeasureError, parse_measurement_payload}

-- `RunSequenceError`, by its message.
pub data RunSequence : Type 0 where
  duplicate_ack complete_before_ack duplicate_complete : RunSequence
  frame_before_ack no_ack no_run_complete : RunSequence

-- What a call raises. `struct_error` and `index_error` are Python's, on a payload that is too short
-- or a value that does not fit; `out_of_fuel` is none of Python's: it
-- says that a loop of the model stopped for want of fuel.
pub data LinkError : Type 0 where
  timed_out : LinkError
  unexpected_response : ℕ → ℕ → LinkError
  measurement : MeasureError → LinkError
  run_sequence : RunSequence → LinkError
  nack : ℕ → ℕ → ℕ → LinkError
  struct_error index_error needs_run_sequence too_many_codes : LinkError
  out_of_fuel : LinkError

pub record Link : Type 0 where
  pub protocol : Protocol
  pub late_frames : ℕ
  pub last_measurement : Option Measurement
  pub receiver : Receiver
  pub seq : ℕ
  pub sent : List Bytes
  pub clock : List ℕ
  pub chunks : List Bytes

-- A method of the link may raise, and what it changed before stays changed.
abbrev pub M {ℓ} : Type ℓ → Type ℓ
M A = Link → Result LinkError A × Link

abbrev pub pure {ℓ} : {A : Type ℓ} → A → M A
pure a l = (ok a, l)

abbrev pub raise {ℓ} : {A : Type ℓ} → LinkError → M A
raise e l = (err e, l)

abbrev pub continue {ℓ κ} : {A : Type ℓ} {B : Type κ} → Result LinkError A → (A → M B) → M B
continue (ok a) f l = f a l
continue (err e) f l = (err e, l)

abbrev pub ◌>>=◌ {ℓ μ} : {X : Type ℓ} {Y : Type μ} → M X → (X → M Y) → M Y
◌>>=◌ first rest l = continue (first l).0 rest (first l).1

abbrev pub ◌>>◌ {ℓ μ} : {X : Type ℓ} {Y : Type μ} → M X → M Y → M Y
first >> rest = first >>= λ _. rest

infixl 5 ◌>>=◌
infixl 5 ◌>>◌
-- `chunk = self._ser.read(1024)`, and `self._buf.extend(chunk)`; no chunk left is an empty read.
unfoldable pub receive : Link → Link
receive l = elim l.chunks [
  | [] ↦ l
  | c ∷ cs ↦ record l { receiver = feed c l.receiver; chunks = cs }
]

-- The loop of `read_frame`, over the clock's readings; a trace that ends is a deadline that passed.
unfoldable pub read_loop : List ℕ → ℕ → M Frame
read_loop [] deadline l = (err timed_out, record l { clock = [] })
read_loop (now ∷ later) deadline l = elim (ltb now deadline) [
  | false ↦ (err timed_out, record l { clock = later })
  | true ↦ elim (try_parse l.receiver) [
    | none ↦ (err out_of_fuel, l)
    | some (some frame, r) ↦ (ok frame, record l { receiver = r; clock = later })
    | some (none, r) ↦ read_loop later deadline (receive (record l { receiver = r; clock = later }))
  ]
]

unfoldable pub read_from : List ℕ → ℕ → M Frame
unfolding read_loop
read_from [] timeout l = (err timed_out, l)
read_from (now ∷ later) timeout l = read_loop later (now + timeout) l

unfoldable pub read_frame : ℕ → M Frame
unfolding read_from
read_frame timeout l = read_from l.clock timeout l

unfoldable pub send_raw : Bytes → M (Unit {0})
send_raw blob l = (ok tt, record l { sent = l.sent ++ blob ∷ [] })

-- The number of the next exchange: `self._seq = (self._seq + 1) & 0xFFFFFFFF`.
abbrev pub next_seq : Link → ℕ
next_seq l = (l.seq + 1) % 2 ^ 32

-- `self._seq` is advanced, and the frame of the request built and sent.
unfoldable pub send_request : ℕ → Bytes → M (Unit {0})
unfolding send_raw
send_request command payload l = elim (build_frame command (next_seq l) payload 0) [
  | none ↦ (err struct_error, record l { seq = next_seq l })
  | some blob ↦ send_raw blob (record l { seq = next_seq l })
]

-- `raise Nack(frame.flags, frame.payload[0], frame.payload[1])`
abbrev pub nack_of : Frame → LinkError
nack_of f = elim f.payload [
  | [] ↦ index_error
  | orig ∷ [] ↦ index_error
  | orig ∷ state ∷ rest ↦ nack f.flags orig state
]

-- What `request` makes of a frame: none is a stale response.
unfoldable pub judge_response : ℕ → ℕ → Frame → Option (Result LinkError Frame)
judge_response command seq frame =
    if not (frame.sequence == seq)
    then none
    else if frame.command == nack_code
    then some (err (nack_of frame))
    else if frame.command == bit_or command 0x80
    then some (ok frame)
    else some (err (unexpected_response frame.command command))

-- The loop of `request` on fuel; each round takes a reading of the clock.
unfoldable pub request_loop : ℕ → ℕ → ℕ → ℕ → M Frame
request_loop zero command seq timeout l = (err out_of_fuel, l)
request_loop (suc fuel) command seq timeout l =
    let (r, l') = read_frame timeout l in
    elim r [
      | err e ↦ (err e, l')
      | ok frame ↦ elim (judge_response command seq frame) [
        | some answer ↦ (answer, l')
        | none ↦ request_loop fuel command seq timeout l'
      ]
    ]

unfoldable pub await : ℕ → ℕ → M Frame
await command timeout l = request_loop (suc (length l.clock)) command l.seq timeout l

unfoldable pub request : ℕ → Bytes → ℕ → M Frame
unfolding send_request await
request command payload timeout = do send_request command payload; await command timeout

-- The local variables of `run` under measure-v2.
pub record Progress : Type 0 where
  pub acked : Bool
  pub completed : Bool
  pub rc : Option ℕ

-- What the body of `run` makes of a frame.
pub data Move : Type 0 where
  late : Move
  acknowledge : Move
  complete : Measurement → Move
  fail : LinkError → Move

unfoldable pub judge_record : Frame → Move
judge_record frame = elim (parse_measurement_payload frame.payload) [
  | ok m ↦ complete m
  | err e ↦ fail (measurement e)
]

unfoldable pub judge_frame : ℕ → Progress → Frame → Move
unfolding judge_record
judge_frame seq p frame =
    if not (frame.sequence == seq) && not (frame.command == cmd_run_complete)
    then late
    else if frame.command == nack_code
    then fail (nack_of frame)
    else if frame.command == bit_or cmd_run 0x80
    then (if p.acked then fail (run_sequence duplicate_ack) else acknowledge)
    else if frame.command == cmd_run_complete
    then (if not p.acked
        then fail (run_sequence complete_before_ack)
        else if p.completed
        then fail (run_sequence duplicate_complete)
        else judge_record frame)
    else if not p.acked
    then fail (run_sequence frame_before_ack)
    else late

-- `min(5.0, max(0.5, deadline - time.time()))`: the reading is taken off the clock.
unfoldable pub poll_timeout : List ℕ → ℕ → ℕ
poll_timeout [] deadline = 500
poll_timeout (now ∷ later) deadline = min 5000 (max 500 (deadline - now))

abbrev pub after_reading : List ℕ → List ℕ
after_reading [] = []
after_reading (now ∷ later) = later

-- `time.time() < deadline`; a trace that ends is a deadline that passed.
abbrev pub before : List ℕ → ℕ → Bool
before [] deadline = false
before (now ∷ later) deadline = ltb now deadline

-- `read_frame` as `run` calls it: a reading for the test, and one for the timeout.
unfoldable pub poll : ℕ → M Frame
poll deadline l =
    let rest = after_reading l.clock in
    read_frame (poll_timeout rest deadline) (record l { clock = after_reading rest })

-- `except ProtocolError: break` around `read_frame`: none is the break.
abbrev pub caught : Result LinkError Frame → Option (Result LinkError Frame)
caught (err timed_out) = none
caught r = some r

-- The loop of `run` on fuel. A `ProtocolError` of `read_frame`, which is its timeout, ends it.
unfoldable pub run_loop : ℕ → ℕ → ℕ → Progress → M Progress
run_loop zero deadline seq p l = (err out_of_fuel, l)
run_loop (suc fuel) deadline seq p l = elim (before l.clock deadline) [
  | false ↦ (ok p, record l { clock = after_reading l.clock })
  | true ↦
      let (r, l') = poll deadline l in
      elim (caught r) [
        | none ↦ (ok p, l')
        | some (err e) ↦ (err e, l')
        | some (ok frame) ↦ elim (judge_frame seq p frame) [
          | late ↦ run_loop fuel deadline seq p (record l' { late_frames = l'.late_frames + 1 })
          | acknowledge ↦ run_loop fuel deadline seq (record p { acked = true }) l'
          | complete m ↦ (
            ok (record p { completed = true; rc = some m.run_rc }),
            record l' { last_measurement = some m },
          )
          | fail e ↦ (err e, l')
        ]
      ]
]

-- `return 0 if rc is None else rc`, after the checks behind the loop.
unfoldable pub conclude : Progress → M ℕ
conclude p =
    if not p.acked
    then raise (run_sequence no_ack)
    else if not p.completed
    then raise (run_sequence no_run_complete)
    else pure (elim p.rc [ none ↦ 0 | some rc ↦ rc ])

abbrev pub start : Progress
start = record { acked = false; completed = false; rc = none }

-- `deadline = time.time() + timeout`, the loop, and the checks behind it.
unfoldable pub watch : ℕ → M ℕ
unfolding conclude
watch timeout l =
    let deadline : ℕ = elim l.clock [ [] ↦ 0 | now ∷ later ↦ now + timeout ] in
    (run_loop (suc (length l.clock)) deadline l.seq start >>= conclude)
      (record l { clock = after_reading l.clock })

unfoldable pub run_measured : ℕ → M ℕ
unfolding send_request watch
run_measured timeout = do send_request cmd_run []; watch timeout
