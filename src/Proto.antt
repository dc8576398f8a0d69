-- ===== src/Proto.antt =====
-- host/lib/runner_proto.py: the host side of the runner's wire protocol. The constants, the frames
-- and the errors; the parts that work on them are the modules below.
pub mod Layout
use mps4_prototyping_board.Prelude.{
  ℕ, ◌+◌, ◌*◌, ◌/◌, ◌%◌, ◌^◌, ◌&&◌, Bool, List, [], ◌∷◌, ◌++◌, Option, none, some, length, ltb,
  if◌then◌else◌,
}
use mps4_prototyping_board.Bytes.{Bytes, le32, crc32}

abbrev pub magic : ℕ
magic = 0x3152_554E

abbrev pub magic_bytes : Bytes
magic_bytes = le32 magic

abbrev pub version : ℕ
version = 1

-- `struct.calcsize("<IBBHII")`
abbrev pub header_len : ℕ
header_len = 16

abbrev pub max_payload : ℕ
max_payload = 4096

-- The commands, by their codes on the wire.
abbrev pub cmd_ping : ℕ
cmd_ping = 0x01

abbrev pub cmd_set_instrumentation_mode : ℕ
cmd_set_instrumentation_mode = 0x05

abbrev pub cmd_load_model_begin : ℕ
cmd_load_model_begin = 0x10

abbrev pub cmd_load_model_chunk : ℕ
cmd_load_model_chunk = 0x11

abbrev pub cmd_load_model_end : ℕ
cmd_load_model_end = 0x12

abbrev pub cmd_load_input : ℕ
cmd_load_input = 0x20

abbrev pub cmd_run : ℕ
cmd_run = 0x30

abbrev pub cmd_run_complete : ℕ
cmd_run_complete = 0x31

abbrev pub cmd_get_result : ℕ
cmd_get_result = 0x40

abbrev pub cmd_reset_runner : ℕ
cmd_reset_runner = 0x50

abbrev pub nack_code : ℕ
nack_code = 0xFF

-- The two wire variants, selected by the caller.
pub data Protocol : Type 0 where
  functional_v1 measure_v2 : Protocol

pub record Frame : Type 0 where
  pub version : ℕ
  pub command : ℕ
  pub flags : ℕ
  pub sequence : ℕ
  pub payload : Bytes

-- The header and the payload, over which the frame's CRC is taken: `struct.pack("<IBBHII", ...)` of
-- values that fit their fields, then the payload.
unfoldable pub body_bytes : Frame → Bytes
body_bytes f =
    le32 magic
    ++ (f.version ∷ f.command ∷ (f.flags % 256) ∷ (f.flags / 256) ∷ [])
    ++ le32 f.sequence
    ++ le32 (length f.payload)
    ++ f.payload

unfoldable pub frame_bytes : Frame → Bytes
frame_bytes f = body_bytes f ++ le32 (crc32 (body_bytes f))

-- `build_frame`: `none` is `struct.error`, a value that does not fit its field.
unfoldable pub build_frame : ℕ → ℕ → Bytes → ℕ → Option Bytes
build_frame command sequence payload flags =
    if ltb command 256
      && ltb flags (2 ^ 16)
      && ltb sequence (2 ^ 32)
      && ltb (length payload) (2 ^ 32)
    then some (
        frame_bytes (record {
          version = version;
          command = command;
          flags = flags;
          sequence = sequence;
          payload = payload;
        }))
    else none
