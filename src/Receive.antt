-- ===== src/Receive.antt =====
-- host/lib/runner_proto.py, the receive path of RunnerLink: `_harvest_text` and `_try_parse` over
-- the receive buffer. The UART carries frames and printf text; text outside frames is logged.
pub mod Text
pub mod Step
pub mod Fuel
pub mod RoundTrip
pub mod Sound
pub mod Relog
pub mod Feed
pub mod Tail
pub mod Stream
use mps4_prototyping_board.Prelude.{
  ℕ, zero, suc, ◌+◌, ◌-◌, ◌*◌, List, [], ◌∷◌, ◌++◌, Bool, true, false, Option, none, some, length,
  take, drop, get_or, ltb, ◌==◌, if◌then◌else◌,
}
use mps4_prototyping_board.Bytes.{Bytes, word, find, crc32}
use mps4_prototyping_board.Proto.{Frame, magic_bytes, header_len, max_payload}
use Text.{Line, log_lines}

pub record Receiver : Type 0 where
  pub buf : Bytes
  pub text_log : List Line
  pub resyncs : ℕ

-- `_harvest_text(upto)`
unfoldable pub harvest_text : ℕ → Receiver → Receiver
harvest_text zero r = r
harvest_text (suc n) r = record r { text_log = r.text_log ++ log_lines (take (suc n) r.buf) }

-- `_harvest_text(n)`, then `del buf[:n]`
unfoldable pub skip : ℕ → Receiver → Receiver
skip n r = record (harvest_text n r) { buf = drop n r.buf }

-- A bogus candidate: count it, and go on from the next byte.
unfoldable pub resync : Receiver → Receiver
resync r = skip 1 (record r { resyncs = r.resyncs + 1 })

-- The first four bytes of a buffer that has them, as a word.
unfoldable pub read_u32 : Bytes → ℕ
read_u32 (a ∷ b ∷ c ∷ d ∷ rest) = word a b c d
read_u32 _ = 0

-- `struct.unpack("<IBBHII", buf[:16])` and the payload that follows, `plen` bytes of it.
abbrev pub declared_len : Bytes → ℕ
declared_len buf = read_u32 (drop 12 buf)

unfoldable pub unpack_frame : Bytes → Frame
unfolding read_u32
unpack_frame buf = record {
  version = get_or buf 4 0;
  command = get_or buf 5 0;
  flags = get_or buf 6 0 + 256 * get_or buf 7 0;
  sequence = read_u32 (drop 8 buf);
  payload = take (declared_len buf) (drop header_len buf);
}

-- What one round of the `while True` of `_try_parse` does: return a frame, return None, or go on.
pub data Round : Type 0 where
  deliver : Frame → Receiver → Round
  wait : Receiver → Round
  again : Receiver → Round

-- The buffer begins with the magic.
unfoldable pub check_candidate : Receiver → Round
unfolding read_u32
check_candidate r =
    if ltb (length r.buf) header_len
    then wait r
    else let plen = declared_len r.buf in
      if ltb max_payload plen
      then again (resync r)
      else let total = header_len + plen + 4 in
        if ltb (length r.buf) total
        then wait r
        else if read_u32 (drop (header_len + plen) r.buf) == crc32 (take (header_len + plen) r.buf)
        then deliver (unpack_frame r.buf) (record r { buf = drop total r.buf })
        else again (resync r)

-- No magic: keep the last 3 bytes, since a magic may straddle the boundary.
unfoldable pub keep_tail : Receiver → Receiver
keep_tail r = if ltb 3 (length r.buf) then skip (length r.buf - 3) r else r

unfoldable pub round : Receiver → Round
round r = elim (find magic_bytes r.buf) [
  | none ↦ wait (keep_tail r)
  | some idx ↦ check_candidate (skip idx r)
]

-- The loop on fuel; `none` says that the fuel ran out.
unfoldable pub parse_loop : ℕ → Receiver → Option (Option Frame × Receiver)
parse_loop zero r = none
parse_loop (suc fuel) r = elim (round r) [
  | deliver f r' ↦ some (some f, r')
  | wait r' ↦ some (none, r')
  | again r' ↦ parse_loop fuel r'
]

-- `_try_parse`: each round but the last drops a byte, so a round for each byte and one are enough.
unfoldable pub try_parse : Receiver → Option (Option Frame × Receiver)
try_parse r = parse_loop (suc (length r.buf)) r

-- `buf.extend(chunk)`
abbrev pub feed : Bytes → Receiver → Receiver
feed chunk r = record r { buf = r.buf ++ chunk }
