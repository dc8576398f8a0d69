-- ===== src/Workload.antt =====
-- host/container/pack_vela_workload.py, `extract_cms`: the command stream of a driver payload, which is a
-- list of driver actions behind the word COP1.
pub mod Walk
pub mod Sound
pub mod Vela
pub mod Inspect
use mps4_prototyping_board.Prelude.{
  ℕ, zero, suc, ◌+◌, ◌-◌, ◌*◌, ◌/◌, ◌%◌, ◌^◌, bit_and, bit_or, List, [], ◌∷◌, Bool, true, false,
  not, Option, none, some, length, take, drop, get_elem?, ◌==◌, if◌then◌else◌, Result, ok, err,
  ◌>>=◌, ◌>>◌, refuse_if, codes,
}
use mps4_prototyping_board.Bytes.{Bytes, words, starts_with}

abbrev pub da_optimizer_config : ℕ
da_optimizer_config = 1

abbrev pub da_command_stream : ℕ
da_command_stream = 2

abbrev pub da_nop : ℕ
da_nop = 5

-- The `ValueError`s by their messages, and `struct.error`; `out_of_fuel` is the model's.
pub data CopError : Type 0 where
  not_cop1 struct_failed second_stream unknown_action no_stream out_of_fuel : CopError

-- `w & 0xFF`
abbrev pub action_of : ℕ → ℕ
action_of w = bit_and w 0xFF

-- `((w >> 8) & 0xFF) << 16 | (w >> 16)`
abbrev pub stream_words : ℕ → ℕ
stream_words w = bit_or (bit_and (w / 2 ^ 8) 0xFF * 2 ^ 16) (w / 2 ^ 16)

-- `cop[(i + 1) * 4:(i + 1 + n) * 4]`
abbrev pub stream_at : Bytes → ℕ → ℕ → Bytes
stream_at cop i n = take (n * 4) (drop ((i + 1) * 4) cop)

-- What one round of the loop comes to.
pub data Move : Type 0 where
  next : ℕ → Option Bytes → Move
  stop : Result CopError Bytes → Move

-- `if cms is None: raise ...; return cms`
abbrev pub finish : Option Bytes → Result CopError Bytes
finish none = err no_stream
finish (some cms) = ok cms

-- A COMMAND_STREAM at word `i`.
abbrev pub take_stream : Bytes → ℕ → ℕ → Option Bytes → Move
take_stream cop i w none = next (i + 1 + stream_words w) (some (stream_at cop i (stream_words w)))
take_stream cop i w (some cms) = stop (err second_stream)

-- The action at word `i`, where the payload has one.
unfoldable pub act : Bytes → ℕ → Option ℕ → Option Bytes → Move
act cop i none cms = stop (finish cms)
act cop i (some w) cms =
    if action_of w == da_optimizer_config
    then next (i + 3) cms
    else if action_of w == da_command_stream
    then take_stream cop i w cms
    else if action_of w == da_nop
    then next (i + 1) cms
    else stop (err unknown_action)

unfoldable pub walk : ℕ → Bytes → ℕ → Option Bytes → Result CopError Bytes
unfolding act
walk zero cop i cms = err out_of_fuel
walk (suc fuel) cop i cms = elim (act cop i (get_elem? (words cop) i) cms) [
  | stop r ↦ r
  | next j found ↦ walk fuel cop j found
]

-- `extract_cms`: each round but the last takes at least one word.
unfoldable pub extract_cms : Bytes → Result CopError Bytes
unfolding walk
extract_cms cop = do
  refuse_if (not (starts_with (codes "COP1") cop)) not_cop1
  refuse_if (not (length cop % 4 == 0)) struct_failed
  walk (suc (length (words cop))) cop 1 none
