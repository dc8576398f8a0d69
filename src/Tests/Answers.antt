-- ===== src/Tests/Answers.antt =====
-- A ping whose answer arrives in two chunks.
use mps4_prototyping_board.Prelude.{
  ◌≡◌, refl, arith, [], ◌∷◌, none, some, ok, take, drop, replicate,
}
use mps4_prototyping_board.Bytes.{Bytes, crc32, find, starts_with}
use mps4_prototyping_board.Proto.{Frame, cmd_ping}
use mps4_prototyping_board.Proto.Layout.{sent_frame}
use mps4_prototyping_board.Receive.{
  Receiver, feed, harvest_text, skip, read_u32, unpack_frame, check_candidate, round, parse_loop,
  try_parse, keep_tail,
}
use mps4_prototyping_board.Link.{Link, read_frame, request}
use mps4_prototyping_board.Link.Deadline.{EndsBefore, clock-read_frame}
use mps4_prototyping_board.Link.Live.{Arrives, here, after_chunk, request-Arrives}
use mps4_prototyping_board.Tests.Exchanges.{fresh, pong, ping_sent, ping_sent_built}

abbrev link : Link
link = record (fresh []) { chunks = take 10 pong ∷ drop 10 pong ∷ [] }

abbrev receiver_of : Bytes → Receiver
receiver_of bs = record { buf = bs; text_log = []; resyncs = 0 }

abbrev answer : Frame
answer = sent_frame 0x81 1 [] 0

empty_run : try_parse (receiver_of []) ≡ some (none, receiver_of [])
unfolding try_parse parse_loop round check_candidate skip harvest_text find starts_with keep_tail
empty_run = refl

half_run :
    try_parse (feed (take 10 pong) (receiver_of [])) ≡ some (none, receiver_of (take 10 pong))
unfolding try_parse parse_loop round check_candidate skip harvest_text find starts_with feed
    keep_tail
half_run = refl

whole_run :
    try_parse (feed (drop 10 pong) (receiver_of (take 10 pong)))
    ≡ some (some answer, receiver_of [])
unfolding try_parse parse_loop round check_candidate skip harvest_text find starts_with feed
    unpack_frame read_u32 crc32
whole_run = refl

pong-Arrives : Arrives (receiver_of []) (take 10 pong ∷ drop 10 pong ∷ []) answer 2
pong-Arrives =
    after_chunk (receiver_of []) empty_run
      (after_chunk (receiver_of (take 10 pong)) half_run (here (receiver_of []) whole_run))

request-Arrives_example : (l' : Link) × (request cmd_ping [] 100 link ≡ (ok answer, l'))
request-Arrives_example =
    request-Arrives cmd_ping [] 100 link ping_sent answer 2 0 (replicate 8 0) ping_sent_built refl
      pong-Arrives (omega arith) (refl, refl, omega arith)

-- A silent port: the reading 100 is the deadline's, and the two behind it are left.
abbrev silent : Link
silent = record (fresh []) { clock = 0 ∷ 50 ∷ 100 ∷ 150 ∷ 200 ∷ [] }

clock-read_frame_example : EndsBefore (150 ∷ 200 ∷ []) (read_frame 100 silent)
clock-read_frame_example =
    clock-read_frame 100 0 100 (50 ∷ []) (150 ∷ 200 ∷ []) silent refl (omega arith)
