-- ===== src/Tests/Frames.antt =====
-- Runs of the receive path: a frame behind log text, cut in two chunks.
use mps4_prototyping_board.Prelude.{
  ◌≡◌, refl, arith, [], ◌∷◌, ◌++◌, Option, none, some, take, drop, All, Bool, true, ltb, ◌&&◌,
}
use mps4_prototyping_board.Bytes.{Bytes, IsByte, crc32, find, starts_with}
use mps4_prototyping_board.Proto.{Frame, body_bytes, frame_bytes, build_frame}
use mps4_prototyping_board.Proto.Layout.{sent_frame}
use mps4_prototyping_board.Receive.{
  Receiver, harvest_text, skip, read_u32, unpack_frame, check_candidate, keep_tail, round,
  parse_loop, try_parse,
}
use mps4_prototyping_board.Receive.Fuel.{try_parse_total}
use mps4_prototyping_board.Receive.RoundTrip.{IsNoise, try_parse-build_frame}
use mps4_prototyping_board.Receive.Sound.{Holds, try_parse-Holds}
use mps4_prototyping_board.Receive.Stream.{Drains, done, next, Same, chunk_independence}

-- The ACK of a run, with the sequence number 1 and one byte of payload.
abbrev ack_frame : Frame
ack_frame = sent_frame 0xB0 1 (7 ∷ []) 0

abbrev ack_bytes : Bytes
ack_bytes =
    78 ∷ 85 ∷ 82 ∷ 49 ∷ 1 ∷ 176 ∷ 0 ∷ 0 ∷ 1 ∷ 0 ∷ 0 ∷ 0 ∷ 1 ∷ 0 ∷ 0 ∷ 0 ∷ 7 ∷ 253 ∷ 161 ∷ 76 ∷ 106
    ∷ []

-- "ok" and a line feed.
abbrev noise : Bytes
noise = 111 ∷ 107 ∷ 10 ∷ []

abbrev idle : Bytes → Receiver
idle bs = record { buf = bs; text_log = []; resyncs = 0 }

ack_built : build_frame 0xB0 1 (7 ∷ []) 0 ≡ some ack_bytes
unfolding build_frame frame_bytes body_bytes crc32
ack_built = refl

noise-IsNoise : IsNoise noise
unfolding find starts_with
noise-IsNoise = refl

try_parse-build_frame_example :
    try_parse (idle (noise ++ (ack_bytes ++ 9 ∷ [])))
    ≡ some (
      some ack_frame,
      record (harvest_text 3 (idle (noise ++ (ack_bytes ++ 9 ∷ [])))) { buf = 9 ∷ [] },
    )
try_parse-build_frame_example =
    try_parse-build_frame (idle (noise ++ (ack_bytes ++ 9 ∷ []))) noise 0xB0 1 (7 ∷ []) 0 (9 ∷ [])
      (omega arith) noise-IsNoise ack_built refl

are_bytes : Bytes → Bool
are_bytes [] = true
are_bytes (b ∷ bs) = ltb b 256 && are_bytes bs

All-IsByte : (bs : Bytes) → are_bytes bs ≡ true → All IsByte bs
unfolding are_bytes
All-IsByte [] h = tt
All-IsByte (b ∷ bs) h = (ground arith, All-IsByte bs (ground arith))

ack_bytes-IsByte : All IsByte ack_bytes
unfolding are_bytes
ack_bytes-IsByte = All-IsByte ack_bytes refl

-- The same frame, at the front of the buffer.
ack_parsed : try_parse (idle ack_bytes) ≡ some (some ack_frame, idle [])
unfolding try_parse parse_loop round check_candidate skip harvest_text find unpack_frame crc32
    read_u32
ack_parsed = refl

try_parse-Holds_example : Holds ack_bytes ack_frame []
try_parse-Holds_example =
    try_parse-Holds (idle ack_bytes) (idle []) ack_frame ack_bytes-IsByte ack_parsed

try_parse_total_example :
    (o : Option Frame) × (r : Receiver) × (try_parse (idle noise) ≡ some (o, r))
try_parse_total_example = try_parse_total (idle noise)

half_waits : try_parse (idle (take 10 ack_bytes)) ≡ some (none, idle (take 10 ack_bytes))
unfolding try_parse parse_loop round check_candidate skip harvest_text find
half_waits = refl

nothing_left : try_parse (idle []) ≡ some (none, idle [])
unfolding try_parse parse_loop round keep_tail find
nothing_left = refl

chunk_independence_example :
    (t : Receiver) × Drains (idle ack_bytes) (ack_frame ∷ []) t × Same t (idle [])
chunk_independence_example =
    chunk_independence (drop 10 ack_bytes) (idle (take 10 ack_bytes)) (idle (take 10 ack_bytes))
      (idle []) (done half_waits) (next (idle []) ack_parsed (done nothing_left))
