-- ===== src/Proto/Layout.antt =====
-- The layout of a frame: its length, and `build_frame` on values that fit.
use mps4_prototyping_board.Prelude.{ℕ, ◌+◌, ◌≤◌, ◌<◌, ◌^◌, ◌≡◌, arith, length, length-append, some}
use mps4_prototyping_board.Bytes.{Bytes, le32, crc32}
use mps4_prototyping_board.Proto.{
  Frame, header_len, max_payload, body_bytes, frame_bytes, build_frame, version,
}

-- Every field of the frame fits its place on the wire, and the receiver accepts the length.
pub record IsFrame (f : Frame) : Type 0 where
  pub version_fits : f.version < 256
  pub command_fits : f.command < 256
  pub flags_fit : f.flags < 2 ^ 16
  pub sequence_fits : f.sequence < 2 ^ 32
  pub payload_fits : length f.payload ≤ max_payload

pub length-body_bytes : (f : Frame) → length (body_bytes f) ≡ header_len + length f.payload
unfolding body_bytes
length-body_bytes f = omega arith

pub length-frame_bytes : (f : Frame) → length (frame_bytes f) ≡ header_len + length f.payload + 4
unfolding frame_bytes
length-frame_bytes f =
    omega (arith, length-append (body_bytes f) (le32 (crc32 (body_bytes f))), length-body_bytes f)

abbrev pub sent_frame : ℕ → ℕ → Bytes → ℕ → Frame
sent_frame command sequence payload flags = record {
  version = version;
  command = command;
  flags = flags;
  sequence = sequence;
  payload = payload;
}

pub build_frame_fits :
    (command sequence : ℕ) (payload : Bytes) (flags : ℕ)
    → IsFrame (sent_frame command sequence payload flags)
    → build_frame command sequence payload flags
      ≡ some (frame_bytes (sent_frame command sequence payload flags))
unfolding build_frame
build_frame_fits command sequence payload flags h = ground arith

-- What `build_frame` returns is the frame's bytes, and the values fitted.
pub build_frame-eq-some :
    (command sequence : ℕ) (payload : Bytes) (flags : ℕ) {bs : Bytes}
    → length payload ≤ max_payload
    → build_frame command sequence payload flags ≡ some bs
    → IsFrame (sent_frame command sequence payload flags)
      × (bs ≡ frame_bytes (sent_frame command sequence payload flags))
unfolding build_frame
build_frame-eq-some command sequence payload flags short h = (
  record {
    version_fits = omega arith;
    command_fits = ground arith;
    flags_fit = ground arith;
    sequence_fits = ground arith;
    payload_fits = short;
  },
  ground arith,
)
