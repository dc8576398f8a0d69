-- ===== src/Link/Commands.antt =====
-- The commands of `RunnerLink`, each a `request` with its payload and what is read from the answer,
-- and `run` under both protocols. A tuple of words is a list.
pub mod Configure
use mps4_prototyping_board.Prelude.{
  ℕ, suc, ◌+◌, ◌-◌, ◌*◌, ◌^◌, List, [], ◌∷◌, ◌++◌, Option, none, some, length, take, drop,
  replicate, ltb, map, if◌then◌else◌,
}
use mps4_prototyping_board.Prelude.Int.{ℤ, pos, signed32}
use mps4_prototyping_board.Bytes.{Bytes, pack_words, unpack_words}
use mps4_prototyping_board.Proto.{
  Protocol, functional_v1, measure_v2, Frame, cmd_ping, cmd_set_instrumentation_mode,
  cmd_load_model_begin, cmd_load_model_chunk, cmd_load_model_end, cmd_load_input, cmd_run,
  cmd_get_result, cmd_reset_runner,
}
use mps4_prototyping_board.Measure.{abi_event_slots}
use mps4_prototyping_board.Link.{
  M, pure, raise, ◌>>=◌, Link, struct_error, needs_run_sequence, too_many_codes, request,
  run_measured,
}

-- The default of `request`'s parameter `timeout`, in milliseconds.
abbrev pub default_timeout : ℕ
default_timeout = 5000

-- `struct.pack` and `struct.unpack` inside a method: a `struct.error` is raised through it.
unfoldable pub packed : List ℕ → M Bytes
packed ws = elim (pack_words ws) [ none ↦ raise struct_error | some bs ↦ pure bs ]

unfoldable pub unpacked : ℕ → Bytes → M (List ℕ)
unpacked n bs = elim (unpack_words n (take (4 * n) bs)) [
  | none ↦ raise struct_error
  | some ws ↦ pure ws
]

pub record Counters : Type 0 where
  pub state : ℕ
  pub version : ℕ
  pub counts : List ℕ

-- `struct.unpack("<BBHIIIIIIIII", f.payload[:40])`: two bytes, a half word that is not used, and the
-- nine counters from `rx_bytes` to `parser_resync`.
unfoldable pub counters_of : Bytes → M Counters
unfolding unpacked
counters_of (state ∷ version ∷ low ∷ high ∷ rest) = do
  counts ← unpacked 9 rest
  pure (record { state = state; version = version; counts = counts })
counters_of _ = raise struct_error

unfoldable pub ping : M Counters
unfolding counters_of
ping = do f ← request cmd_ping [] default_timeout; counters_of f.payload

unfoldable pub load_model_begin : ℕ → ℕ → M (List ℕ)
unfolding packed unpacked
load_model_begin total_len total_crc = do
  payload ← packed (total_len ∷ total_crc ∷ [])
  f ← request cmd_load_model_begin payload default_timeout
  unpacked 3 f.payload

unfoldable pub load_model_chunk : ℕ → Bytes → M (List ℕ)
unfolding packed unpacked
load_model_chunk offset chunk = do
  header ← packed (offset ∷ [])
  f ← request cmd_load_model_chunk (header ++ chunk) default_timeout
  unpacked 3 f.payload

unfoldable pub load_model_end : ℕ → M (List ℕ)
unfolding unpacked
load_model_end timeout = do f ← request cmd_load_model_end [] timeout; unpacked 3 f.payload

unfoldable pub load_input : Bytes → M (List ℕ)
unfolding unpacked
load_input input = do f ← request cmd_load_input input default_timeout; unpacked 1 f.payload

-- `run` under functional-v1, where the ACK carries the rc.
unfoldable pub run_functional : ℕ → M ℤ
unfolding unpacked
run_functional timeout = do
  f ← request cmd_run [] timeout
  ws ← unpacked 1 f.payload
  elim ws [ [] ↦ raise struct_error | rc ∷ rest ↦ pure (signed32 rc) ]

unfoldable pub run : ℕ → M ℤ
unfolding run_functional
run timeout l = elim l.protocol [
  | functional_v1 ↦ run_functional timeout l
  | measure_v2 ↦ (run_measured timeout >>= λ rc. pure (pos rc)) l
]

-- The payload of GET_RESULT: measure-v2 has the 12-byte form only.
unfoldable pub result_request : ℕ → ℕ → Option ℕ → M Bytes
unfolding packed
result_request base len run_sequence l = elim l.protocol [
  | measure_v2 ↦ elim run_sequence [
    | none ↦ raise needs_run_sequence l
    | some seq ↦ packed (base ∷ len ∷ seq ∷ []) l
  ]
  | functional_v1 ↦ packed (base ∷ len ∷ []) l
]

-- The rc is signed; the base, the length and the CRC follow.
unfoldable pub get_result : ℕ → ℕ → Option ℕ → M (ℤ × List ℕ)
unfolding result_request unpacked
get_result base len run_sequence = do
  payload ← result_request base len run_sequence
  f ← request cmd_get_result payload 10000
  ws ← unpacked 4 f.payload
  elim ws [ [] ↦ raise struct_error | rc ∷ rest ↦ pure (signed32 rc, rest) ]

-- The payload of SET_INSTRUMENTATION_MODE: the codes are padded with zeros to the ABI's slots.
unfoldable pub mode_request : ℕ → List ℕ → ℕ → M Bytes
unfolding packed
mode_request mode codes event_set_id = do
  head ←
      (if ltb abi_event_slots (length codes)
        then raise too_many_codes
        else packed (mode ∷ event_set_id ∷ length codes ∷ []))
  body ← packed codes
  pure (head ++ body ++ replicate (4 * (abi_event_slots - length codes)) 0)

unfoldable pub set_instrumentation_mode : ℕ → List ℕ → ℕ → M (List ℕ)
unfolding mode_request unpacked
set_instrumentation_mode mode codes event_set_id = do
  payload ← mode_request mode codes event_set_id
  f ← request cmd_set_instrumentation_mode payload default_timeout
  unpacked 4 f.payload

unfoldable pub reset_runner : M (Unit {0})
reset_runner = do f ← request cmd_reset_runner [] default_timeout; pure tt
