-- ===== src/Tests/Exchanges.antt =====
-- Runs of the link: a ping behind a stale answer, a measured run, and an event configuration.
use mps4_prototyping_board.Prelude.{
  ℕ, ◌≡◌, ◌≢◌, refl, arith, List, [], ◌∷◌, ◌++◌, true, false, none, some, replicate, append-nil,
  sym, ap, ◌∙◌, ok, err,
}
use mps4_prototyping_board.Bytes.{Bytes, crc32, find, le32s, starts_with, pack_words}
use mps4_prototyping_board.Proto.{
  measure_v2, Frame, build_frame, frame_bytes, body_bytes, cmd_ping, cmd_run,
}
use mps4_prototyping_board.Proto.Layout.{sent_frame}
use mps4_prototyping_board.Receive.{
  harvest_text, skip, read_u32, unpack_frame, check_candidate, round, parse_loop, try_parse,
}
use mps4_prototyping_board.Measure.{Measurement}
use mps4_prototyping_board.Measure.Encoding.{
  Content, IsContent, encode, decoded, content_words, length-encode,
}
use mps4_prototyping_board.Bytes.Words.{pack_words-eq-some}
use mps4_prototyping_board.Link.{
  Link, start, continue, complete, acknowledge, run_sequence, duplicate_complete, request,
  run_measured, send_request, send_raw, await, request_loop, read_frame, read_from, read_loop,
  judge_response, judge_frame, judge_record, poll, poll_timeout, run_loop, conclude, watch,
}
use mps4_prototyping_board.Link.Run.Loop
use mps4_prototyping_board.Receive.RoundTrip.{IsNoise, try_parse-build_frame}
use mps4_prototyping_board.Measure.Parse.{parse_measurement_payload-encode}
use mps4_prototyping_board.Link.Reads.{Reads, read_loop_frame}
use mps4_prototyping_board.Link.Request.{Found, after_send, request-Found}
use mps4_prototyping_board.Link.Run.{Accepts}
use mps4_prototyping_board.Link.Run.Loop.{
  run_measured-ne-duplicate_complete, run_measured-Accepts, loop_acknowledge, loop_complete,
}
use mps4_prototyping_board.Link.Commands.{mode_request}

-- A link whose bytes are `bs`, in one chunk, and a clock of nine readings.
abbrev pub fresh : Bytes → Link
fresh bs = record {
  protocol = measure_v2;
  late_frames = 0;
  last_measurement = none;
  receiver = record { buf = bs; text_log = []; resyncs = 0 };
  seq = 0;
  sent = [];
  clock = replicate 9 0;
  chunks = [];
}

abbrev stale : Bytes
stale =
    78 ∷ 85 ∷ 82 ∷ 49 ∷ 1 ∷ 129 ∷ 0 ∷ 0 ∷ 9 ∷ 0 ∷ 0 ∷ 0 ∷ 0 ∷ 0 ∷ 0 ∷ 0 ∷ 60 ∷ 151 ∷ 86 ∷ 113 ∷ []

abbrev pub pong : Bytes
pong =
    78 ∷ 85 ∷ 82 ∷ 49 ∷ 1 ∷ 129 ∷ 0 ∷ 0 ∷ 1 ∷ 0 ∷ 0 ∷ 0 ∷ 0 ∷ 0 ∷ 0 ∷ 0 ∷ 137 ∷ 140 ∷ 179 ∷ 162 ∷ []

abbrev pub ping_sent : Bytes
ping_sent =
    78 ∷ 85 ∷ 82 ∷ 49 ∷ 1 ∷ 1 ∷ 0 ∷ 0 ∷ 1 ∷ 0 ∷ 0 ∷ 0 ∷ 0 ∷ 0 ∷ 0 ∷ 0 ∷ 22 ∷ 185 ∷ 82 ∷ 213 ∷ []

abbrev run_sent : Bytes
run_sent =
    78 ∷ 85 ∷ 82 ∷ 49 ∷ 1 ∷ 48 ∷ 0 ∷ 0 ∷ 1 ∷ 0 ∷ 0 ∷ 0 ∷ 0 ∷ 0 ∷ 0 ∷ 0 ∷ 202 ∷ 45 ∷ 182 ∷ 60 ∷ []

abbrev run_ack : Bytes
run_ack =
    78 ∷ 85 ∷ 82 ∷ 49 ∷ 1 ∷ 176 ∷ 0 ∷ 0 ∷ 1 ∷ 0 ∷ 0 ∷ 0 ∷ 0 ∷ 0 ∷ 0 ∷ 0 ∷ 85 ∷ 24 ∷ 87 ∷ 75 ∷ []

-- The record of a run with rc 0, and the RUN_COMPLETE around it.
abbrev run_record : Content
run_record = record { sequence = 3; flags = 15; rc = 0; body = replicate 47 0 }

abbrev run_complete : Bytes
run_complete = frame_bytes (sent_frame 0x31 0 (encode run_record) 0)

pub ping_sent_built : build_frame cmd_ping 1 [] 0 ≡ some ping_sent
unfolding build_frame frame_bytes body_bytes crc32
ping_sent_built = refl

-- The link after the answer.
abbrev answered : Link
answered = record (fresh []) { seq = 1; sent = ping_sent ∷ []; clock = replicate 5 0 }

ping_answered :
    request cmd_ping [] 100 (fresh (stale ++ pong)) ≡ (ok (sent_frame 0x81 1 [] 0), answered)
unfolding request send_request send_raw await request_loop read_frame read_from read_loop
    judge_response build_frame frame_bytes body_bytes crc32 try_parse parse_loop round
    check_candidate skip harvest_text find starts_with unpack_frame read_u32
ping_answered = refl

request-Found_example :
    (blob : Bytes) × (build_frame cmd_ping 1 [] 0 ≡ some blob)
    × Found cmd_ping 1 (after_send (fresh (stale ++ pong)) blob) (sent_frame 0x81 1 [] 0) answered
request-Found_example =
    request-Found cmd_ping [] 100 (fresh (stale ++ pong)) (sent_frame 0x81 1 [] 0) answered
      ping_answered

run_measured-ne-duplicate_complete_example :
    (run_measured 1000 (fresh (run_ack ++ run_complete))).0 ≢ err (run_sequence duplicate_complete)
run_measured-ne-duplicate_complete_example =
    run_measured-ne-duplicate_complete 1000 (fresh (run_ack ++ run_complete))

-- The link after the run.
abbrev measured : Link
measured = record (fresh []) {
  seq = 1;
  sent = run_sent ∷ [];
  clock = [];
  last_measurement = some (decoded run_record);
}

abbrev ack_frame : Frame
ack_frame = sent_frame 0xB0 1 [] 0

abbrev complete_frame : Frame
complete_frame = sent_frame 0x31 0 (encode run_record) 0

-- The link when the request is out, before and after each of the two frames.
abbrev sending : ℕ → Bytes → Link
sending n bs = record (fresh bs) { seq = 1; sent = run_sent ∷ []; clock = replicate n 0 }

run_sent_built : build_frame cmd_run 1 [] 0 ≡ some run_sent
unfolding build_frame frame_bytes body_bytes crc32
run_sent_built = refl

complete_built : build_frame 0x31 0 (encode run_record) 0 ≡ some run_complete
unfolding build_frame encode content_words le32s
complete_built = refl

empty-IsNoise : IsNoise []
unfolding find starts_with
empty-IsNoise = refl

ack_built : build_frame 0xB0 1 [] 0 ≡ some run_ack
unfolding build_frame frame_bytes body_bytes crc32
ack_built = refl

ack_parsed :
    (rest : Bytes)
    → try_parse (sending 8 (run_ack ++ rest)).receiver
      ≡ some (some ack_frame, (sending 4 rest).receiver)
unfolding harvest_text
ack_parsed rest =
    try_parse-build_frame (sending 8 (run_ack ++ rest)).receiver [] 0xB0 1 [] 0 rest (omega arith)
      empty-IsNoise ack_built refl

ack_polled :
    (rest : Bytes) → poll 1000 (sending 8 (run_ack ++ rest)) ≡ (ok ack_frame, sending 4 rest)
unfolding poll poll_timeout read_frame read_from
ack_polled rest =
    read_loop_frame 0 (replicate 4 0) 1000 (sending 6 (run_ack ++ rest)) ack_frame
      (sending 4 rest).receiver refl (ack_parsed rest)

complete_parsed :
    try_parse (sending 4 run_complete).receiver
    ≡ some (some complete_frame, (sending 4 []).receiver)
unfolding harvest_text
complete_parsed =
    try_parse-build_frame (sending 4 run_complete).receiver [] 0x31 0 (encode run_record) 0 []
      (omega (arith, length-encode run_record)) empty-IsNoise complete_built
      (sym (append-nil run_complete))

complete_polled : poll 1000 (sending 4 run_complete) ≡ (ok complete_frame, sending 0 [])
unfolding poll poll_timeout read_frame read_from
complete_polled =
    read_loop_frame 0 [] 1000 (sending 2 run_complete) complete_frame (sending 4 []).receiver refl
      complete_parsed

body_packed : pack_words run_record.body ≡ some (le32s run_record.body)
unfolding pack_words
body_packed = refl

run_record-IsContent : IsContent run_record
run_record-IsContent = record {
  sequence_fits = omega arith;
  flags_fit = omega arith;
  rc_fits = omega arith;
  body_fits = (pack_words-eq-some run_record.body body_packed).0;
  known = omega arith;
  capped = omega arith;
}

complete_judged :
    judge_frame 1 (record start { acked = true }) complete_frame ≡ complete (decoded run_record)
unfolding judge_frame judge_record
complete_judged =
    rw (parse_measurement_payload-encode run_record run_record-IsContent, judge_record) refl

ack_judged : judge_frame 1 start ack_frame ≡ acknowledge
unfolding judge_frame
ack_judged = refl

loop_completed :
    run_loop 10 1000 1 start (sending 8 (run_ack ++ run_complete))
    ≡ (ok (record { acked = true; completed = true; rc = some 0 }), measured)
unfolding decoded
loop_completed =
    loop_acknowledge 9 1000 1 start (sending 8 (run_ack ++ run_complete)) ack_frame
      (sending 4 run_complete) refl (ack_polled run_complete) ack_judged
    ∙ loop_complete 8 1000 1 (record start { acked = true }) (sending 4 run_complete) complete_frame
        (sending 0 []) refl complete_polled (decoded run_record) complete_judged

run_completed : run_measured 1000 (fresh (run_ack ++ run_complete)) ≡ (ok 0, measured)
unfolding watch conclude
run_completed =
    Loop.run_sent 1000 (fresh (run_ack ++ run_complete)) run_sent run_sent_built
    ∙ ap (λ o. continue o.0 conclude o.1) loop_completed

run_measured-Accepts_example :
    (fs : List Frame) × (m : Measurement) × Reads
      (fresh (run_ack ++ run_complete)).receiver
      []
      fs
      measured.receiver
      []
    × Accepts 1 false fs m
    × (measured.last_measurement ≡ some m)
    × (0 ≡ m.run_rc)
run_measured-Accepts_example =
    run_measured-Accepts 1000 (fresh (run_ack ++ run_complete)) 0 measured run_completed

-- Two event codes.
abbrev two_codes : Bytes
two_codes = le32s (1 ∷ 5 ∷ 2 ∷ 17 ∷ 34 ∷ 0 ∷ 0 ∷ 0 ∷ 0 ∷ 0 ∷ 0 ∷ [])

two_codes_packed : mode_request 1 (17 ∷ 34 ∷ []) 5 (fresh []) ≡ (ok two_codes, fresh [])
unfolding mode_request pack_words le32s
two_codes_packed = refl
