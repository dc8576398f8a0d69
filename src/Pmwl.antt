-- ===== src/Pmwl.antt =====
-- host/lib/pmwl.py: the PMWL workload blob, its knob words, the packer and the header parser.
pub mod Write
pub mod Blob
pub mod Entries
pub mod Parse
pub mod Inside
pub mod Table
pub mod Sections
pub mod Knobs
use mps4_prototyping_board.Prelude.{
  ℕ, zero, suc, ◌+◌, ◌-◌, ◌*◌, ◌/◌, ◌%◌, ◌^◌, bit_or, bit_and, List, [], ◌∷◌, ◌++◌, Bool, true,
  false, not, ◌&&◌, ◌||◌, Option, none, some, length, take, drop, replicate, map, ltb, ◌==◌,
  if◌then◌else◌, Result, ok, err, ◌>>=◌, ◌>>◌, refuse_if, get_elem?, get_or,
}
use mps4_prototyping_board.Bytes.{Bytes, pack_words, unpack_words}

abbrev pub pmwl_magic : ℕ
pmwl_magic = 0x4C57_4D50

-- A knob that leaves the vendor's or reset state.
abbrev pub off_word : ℕ
off_word = 0xFFFF_FFFF

abbrev pub header_words : ℕ
header_words = 16

abbrev pub knob_count : ℕ
knob_count = 16

abbrev pub v2_knobs : ℕ
v2_knobs = 7

abbrev pub io_word : ℕ
io_word = header_words + knob_count

abbrev pub io_max : ℕ
io_max = 10

abbrev pub io_words : ℕ
io_words = 2 + 3 * io_max

-- The errors of `pack`, `SystemExit` by its message and Python's `struct.error`, and the
-- `ValueError`s of `parse_header`.
pub data PmwlError : Type 0 where
  count_mismatch too_many_tensors size_mismatch outside_arena no_stop struct_failed index_failed :
      PmwlError
  short_header not_pmwl unknown_version bad_table bad_entry_zero bad_entry : PmwlError

unfoldable pub align : ℕ → ℕ
align n = (n + 16 - 1) / 16 * 16

-- A tensor of the arena: where it lies, and its size.
pub record Tensor : Type 0 where
  pub arena_off : ℕ
  pub len : ℕ

pub record Info : Type 0 where
  pub cms : Bytes
  pub weights : Bytes
  pub arena_size : ℕ
  pub fast_size : ℕ
  pub inputs : List Tensor
  pub outputs : List Tensor
  pub ifm : Tensor
  pub ofm : Tensor

-- `info.get("inputs") or [(ifm_off, ifm_len)]`
unfoldable pub or_single : List Tensor → Tensor → List Tensor
or_single [] t = t ∷ []
or_single (u ∷ us) t = u ∷ us

-- An entry of the IO table.
pub record Entry : Type 0 where
  pub arena_off : ℕ
  pub len : ℕ
  pub data_off : ℕ

-- `any(w != OFF for w in ws)`
unfoldable pub any_set : List ℕ → Bool
any_set [] = false
any_set (w ∷ ws) = not (w == off_word) || any_set ws

-- `knob_words or [OFF] * KNOB_WORDS`
abbrev pub given_knobs : List ℕ → List ℕ
given_knobs [] = replicate knob_count off_word
given_knobs (k ∷ ks) = k ∷ ks

-- `kw`: the knob words given, and OFF for the rest.
unfoldable pub knob_list : List ℕ → List ℕ
knob_list ks = given_knobs ks ++ replicate (knob_count - length ks) off_word

-- The smallest version that holds the knobs and the tensors.
unfoldable pub pick_version : ℕ → List ℕ → ℕ
unfolding any_set
pick_version tensors kw =
    if ltb 2 tensors
    then 4
    else if any_set (take (knob_count - v2_knobs) (drop v2_knobs kw))
    then 3
    else if any_set (take v2_knobs kw)
    then 2
    else 1

-- The knob words that a version carries.
abbrev pub knob_words_of : ℕ → ℕ
knob_words_of version = if ltb 2 version then knob_count else if version == 2 then 8 else 0

-- The offsets of the data, each 16-byte aligned, and the end.
unfoldable pub place : ℕ → List Bytes → List ℕ
unfolding align
place at [] = []
place at (b ∷ bs) = at ∷ place (align (at + length b)) bs

unfoldable pub end_of : ℕ → List Bytes → ℕ
unfolding align
end_of at [] = at
end_of at (b ∷ bs) = end_of (align (at + length b)) bs

-- The checks of each tensor against its bytes and the arena, in order.
unfoldable pub check_tensors : ℕ → List Tensor → List Bytes → Result PmwlError (Unit {0})
check_tensors arena [] bs = ok tt
check_tensors arena (t ∷ ts) [] = ok tt
check_tensors arena (t ∷ ts) (b ∷ bs) = do
  refuse_if (not (length b == t.len)) size_mismatch
  refuse_if (ltb arena (t.arena_off + t.len)) outside_arena
  check_tensors arena ts bs

unfoldable pub entries : List Tensor → List ℕ → List Entry
entries (t ∷ ts) (d ∷ ds) =
    record { arena_off = t.arena_off; len = t.len; data_off = d } ∷ entries ts ds
entries _ _ = []

-- `blob[off:off + len(bs)] = bs`, on a blob that reaches so far.
unfoldable pub write : ℕ → Bytes → Bytes → Bytes
write off bs blob = take off blob ++ bs ++ drop (off + length bs) blob

-- The writes of the data, in order.
unfoldable pub write_all : List ℕ → List Bytes → Bytes → Bytes
unfolding write
write_all (o ∷ os) (b ∷ bs) blob = write_all os bs (write o b blob)
write_all _ _ blob = blob

-- `struct.pack` that raises.
unfoldable pub packed : List ℕ → Result PmwlError Bytes
packed ws = elim (pack_words ws) [ none ↦ err struct_failed | some bs ↦ ok bs ]

-- The words of an entry in the IO table.
unfoldable pub entry_words : List Entry → List ℕ
entry_words [] = []
entry_words (e ∷ es) = e.arena_off ∷ e.len ∷ e.data_off ∷ entry_words es

-- The IO table of version 4, filled up with zeros.
unfoldable pub table_words : ℕ → ℕ → List Entry → List ℕ
unfolding entry_words
table_words n_in n_out ents =
    let table = n_in ∷ n_out ∷ entry_words ents in table ++ replicate (io_words - length table) 0

-- The header's fields, in the order of HEADER_FIELDS.
pub record Header : Type 0 where
  pub version : ℕ
  pub cms_off : ℕ
  pub cms_len : ℕ
  pub const_off : ℕ
  pub const_len : ℕ
  pub arena_size : ℕ
  pub fast_size : ℕ
  pub ifm : Entry
  pub ofm : Entry
  pub irq_mask : ℕ
  pub total_len : ℕ

abbrev pub fields_of : Header → List ℕ
fields_of h =
    pmwl_magic ∷ h.version ∷ h.cms_off ∷ h.cms_len ∷ h.const_off ∷ h.const_len ∷ h.arena_size
    ∷ h.fast_size ∷ h.ifm.arena_off ∷ h.ifm.len ∷ h.ifm.data_off ∷ h.ofm.arena_off ∷ h.ofm.len
    ∷ h.ofm.data_off ∷ h.irq_mask ∷ h.total_len ∷ []
