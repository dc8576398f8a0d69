-- ===== src/Pmwl/Blob.antt =====
-- host/lib/pmwl.py, `pack` and `parse_header`.
use mps4_prototyping_board.Prelude.{
  ℕ, ◌+◌, ◌-◌, ◌*◌, List, [], ◌∷◌, ◌++◌, not, ◌||◌, none, some, length, take, drop, replicate, ltb,
  ◌==◌, if◌then◌else◌, Result, ok, err, ◌>>=◌, ◌>>◌, refuse_if, get_elem?, get_or,
}
use mps4_prototyping_board.Bytes.{Bytes, unpack_words}
use mps4_prototyping_board.Pmwl.{
  PmwlError, count_mismatch, too_many_tensors, no_stop, struct_failed, index_failed, header_words,
  io_word, io_max, io_words, align, Info, or_single, Entry, knob_list, pick_version, knob_words_of,
  place, end_of, check_tensors, entries, write, write_all, packed, table_words, Header, fields_of,
}

-- What `pack` computes before it writes.
pub record Layout : Type 0 where
  pub version : ℕ
  pub kw : List ℕ
  pub cms_off : ℕ
  pub const_off : ℕ
  pub data_offs : List ℕ
  pub total : ℕ

unfoldable pub layout : Info → ℕ → List Bytes → List ℕ → Layout
unfolding knob_list pick_version align place end_of
layout info tensors sections knob_words =
    let kw = knob_list knob_words in
    let version = pick_version tensors kw in
    let table = if version == 4 then 4 * io_words else 0 in
    let cms_off = 4 * header_words + 4 * knob_words_of version + table in
    let const_off = align (cms_off + length info.cms) in
    let off = align (const_off + length info.weights) in
    record {
      version = version;
      kw = kw;
      cms_off = cms_off;
      const_off = const_off;
      data_offs = place off sections;
      total = end_of off sections;
    }

unfoldable pub header_of : Info → Layout → Entry → Entry → Header
header_of info at fi fo = record {
  version = at.version;
  cms_off = at.cms_off;
  cms_len = length info.cms;
  const_off = at.const_off;
  const_len = length info.weights;
  arena_size = info.arena_size;
  fast_size = info.fast_size;
  ifm = fi;
  ofm = fo;
  irq_mask = 0xFFFF;
  total_len = at.total;
}

-- The last word of the command stream is NPU_OP_STOP: `struct.unpack("<I", cms[-4:])`.
unfoldable pub check_stop : Bytes → Result PmwlError (Unit {0})
check_stop cms = elim (unpack_words 1 (drop (length cms - 4) cms)) [
  | none ↦ err struct_failed
  | some ws ↦ refuse_if (not (get_or ws 0 0 == 0xFFFF_0000)) no_stop
]

-- `ents[n]`
unfoldable pub entry_at : List Entry → ℕ → Result PmwlError Entry
entry_at ents n = elim (get_elem? ents n) [ none ↦ err index_failed | some e ↦ ok e ]

-- The header, the knobs and the table, on a blob of zeros.
unfoldable pub write_front : Layout → Bytes → Bytes → Bytes → Bytes
unfolding write
write_front at header knobs table =
    write (4 * io_word) table
      (write (4 * header_words) knobs (write 0 header (replicate at.total 0)))

-- `pack`, with the IFMs and the reference OFMs as lists.
unfoldable pub pack : Info → List Bytes → List Bytes → List ℕ → Result PmwlError Bytes
unfolding or_single check_tensors layout header_of check_stop entry_at write_front
pack info ifms golds knob_words = do
  let ins = or_single info.inputs info.ifm
  let outs = or_single info.outputs info.ofm
  refuse_if (not (length ifms == length ins) || not (length golds == length outs)) count_mismatch
  refuse_if (ltb io_max (length ins + length outs)) too_many_tensors
  check_tensors info.arena_size (ins ++ outs) (ifms ++ golds)
  let at = layout info (length ins + length outs) (ifms ++ golds) knob_words
  let ents = entries (ins ++ outs) at.data_offs
  fi ← entry_at ents 0
  fo ← entry_at ents (length ins)
  header ← packed (fields_of (header_of info at fi fo))
  knobs ← packed (take (knob_words_of at.version) at.kw)
  table ← packed (if at.version == 4 then table_words (length ins) (length outs) ents else [])
  let front = write_front at header knobs table
  check_stop info.cms
  ok (
      write_all (at.cms_off ∷ at.const_off ∷ at.data_offs) (info.cms ∷ info.weights ∷ ifms ++ golds)
        front)
