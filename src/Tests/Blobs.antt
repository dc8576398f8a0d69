-- ===== src/Tests/Blobs.antt =====
-- Runs of the PMWL blob: a header, and two sections that are placed and written.
use mps4_prototyping_board.Prelude.{
  ℕ, ◌≡◌, ◌≢◌, refl, List, [], ◌∷◌, ◌++◌, none, some, length, replicate, All, get_or, ok,
}
use mps4_prototyping_board.Bytes.{Bytes, le32s, words, pack_words, unpack_words}
use mps4_prototyping_board.Pmwl.{
  Info, or_single, check_tensors, knob_list, pick_version, any_set, entries, packed, align, Entry,
  place, end_of, write, write_all, header_words, pmwl_magic,
}
use mps4_prototyping_board.Pmwl.Blob.{layout, header_of, check_stop, entry_at, write_front, pack}
use mps4_prototyping_board.Pmwl.Sections.{pack-Stand}
use mps4_prototyping_board.Pmwl.Entries.{IsEntry}
use mps4_prototyping_board.Pmwl.Write.{Stand}
use mps4_prototyping_board.Pmwl.Parse.{
  unpacked, header_of_words, version_knobs, knobs_of, table_of, check_entries, Parsed, parse_header,
}
use mps4_prototyping_board.Pmwl.Inside.{IsInside, parse_header-IsInside}

-- Two sections, of three bytes and of two.
abbrev sections : List Bytes
sections = (1 ∷ 2 ∷ 3 ∷ []) ∷ (4 ∷ 5 ∷ []) ∷ []

abbrev zeros : Bytes
zeros = replicate 48 0

zeros_fit : length zeros ≡ end_of 16 sections
unfolding end_of align
zeros_fit = refl

-- A header of version 1, with an IFM and an OFM of 16 bytes each.
abbrev fields : List ℕ
fields = 0x4C57_4D50 ∷ 1 ∷ 64 ∷ 0 ∷ 64 ∷ 0 ∷ 32 ∷ 0 ∷ 0 ∷ 16 ∷ 64 ∷ 16 ∷ 16 ∷ 80 ∷ 0xFFFF ∷ 96 ∷ []

abbrev parsed : Parsed
parsed = record {
  header = header_of_words fields;
  knobs = replicate 16 0xFFFF_FFFF;
  inputs = record { arena_off = 0; len = 16; data_off = 64 } ∷ [];
  outputs = record { arena_off = 16; len = 16; data_off = 80 } ∷ [];
}

fields_parsed : parse_header (le32s fields) ≡ ok parsed
unfolding parse_header header_of_words le32s unpack_words version_knobs knobs_of table_of
    check_entries unpacked
fields_parsed = refl

parse_header-IsInside_example :
    (ws : List ℕ) × (unpacked header_words 0 (le32s fields) ≡ ok ws)
    × (get_or ws 0 0 ≡ pmwl_magic)
    × (parsed.header ≡ header_of_words ws)
    × (version_knobs parsed.header.version ≢ none)
    × All (IsInside parsed.header) parsed.inputs
    × All (IsInside parsed.header) parsed.outputs
parse_header-IsInside_example = parse_header-IsInside (le32s fields) parsed fields_parsed

-- A model with a command stream of one word, and an IFM and an OFM of four bytes.
abbrev info : Info
info = record {
  cms = 0 ∷ 0 ∷ 255 ∷ 255 ∷ [];
  weights = 1 ∷ 2 ∷ [];
  arena_size = 64;
  fast_size = 0;
  inputs = [];
  outputs = [];
  ifm = record { arena_off = 0; len = 4 };
  ofm = record { arena_off = 16; len = 4 };
}

abbrev ifms : List Bytes
ifms = (3 ∷ 4 ∷ 5 ∷ 6 ∷ []) ∷ []

abbrev golds : List Bytes
golds = (7 ∷ 8 ∷ 9 ∷ 10 ∷ []) ∷ []

abbrev small_blob : Bytes
small_blob =
    80 ∷ 77 ∷ 87 ∷ 76 ∷ 1 ∷ 0 ∷ 0 ∷ 0 ∷ 64 ∷ 0 ∷ 0 ∷ 0 ∷ 4 ∷ 0 ∷ 0 ∷ 0 ∷ 80 ∷ 0 ∷ 0 ∷ 0 ∷ 2 ∷ 0 ∷ 0
    ∷ 0 ∷ 64 ∷ 0 ∷ 0 ∷ 0 ∷ 0 ∷ 0 ∷ 0 ∷ 0 ∷ 0 ∷ 0 ∷ 0 ∷ 0 ∷ 4 ∷ 0 ∷ 0 ∷ 0 ∷ 96 ∷ 0 ∷ 0 ∷ 0 ∷ 16 ∷ 0
    ∷ 0 ∷ 0 ∷ 4 ∷ 0 ∷ 0 ∷ 0 ∷ 112 ∷ 0 ∷ 0 ∷ 0 ∷ 255 ∷ 255 ∷ 0 ∷ 0 ∷ 128 ∷ 0 ∷ 0 ∷ 0 ∷ 0 ∷ 0 ∷ 255
    ∷ 255 ∷ 0 ∷ 0 ∷ 0 ∷ 0 ∷ 0 ∷ 0 ∷ 0 ∷ 0 ∷ 0 ∷ 0 ∷ 0 ∷ 0 ∷ 1 ∷ 2 ∷ 0 ∷ 0 ∷ 0 ∷ 0 ∷ 0 ∷ 0 ∷ 0 ∷ 0
    ∷ 0 ∷ 0 ∷ 0 ∷ 0 ∷ 0 ∷ 0 ∷ 3 ∷ 4 ∷ 5 ∷ 6 ∷ 0 ∷ 0 ∷ 0 ∷ 0 ∷ 0 ∷ 0 ∷ 0 ∷ 0 ∷ 0 ∷ 0 ∷ 0 ∷ 0 ∷ 7 ∷ 8
    ∷ 9 ∷ 10 ∷ 0 ∷ 0 ∷ 0 ∷ 0 ∷ 0 ∷ 0 ∷ 0 ∷ 0 ∷ 0 ∷ 0 ∷ 0 ∷ 0 ∷ []

small_packed : pack info ifms golds [] ≡ ok small_blob
unfolding pack or_single check_tensors layout header_of check_stop entry_at write_front knob_list
    pick_version align place end_of entries write write_all packed pack_words any_set le32s
    unpack_words words
small_packed = refl

pack-Stand_example :
    (length small_blob ≡ (layout info 2 (ifms ++ golds) []).total)
    × Stand
        ((layout info 2 (ifms ++ golds) []).cms_off
          ∷ (layout info 2 (ifms ++ golds) []).const_off
          ∷ (layout info 2 (ifms ++ golds) []).data_offs)
        (info.cms ∷ info.weights ∷ ifms ++ golds)
        small_blob
    × (fi : Entry) × (fo : Entry) × IsEntry (some info.ifm) (some 96) fi
    × IsEntry (some info.ofm) (some 112) fo
    × (unpack_words 16 small_blob
        ≡ some (
            pmwl_magic ∷ 1 ∷ 64 ∷ 4 ∷ 80 ∷ 2 ∷ 64 ∷ 0 ∷ fi.arena_off ∷ fi.len ∷ fi.data_off
            ∷ fo.arena_off ∷ fo.len ∷ fo.data_off ∷ 0xFFFF ∷ 128 ∷ []))
unfolding or_single layout knob_list pick_version align place end_of any_set
pack-Stand_example = pack-Stand info ifms golds [] small_blob small_packed
