-- ===== src/Pmwl/Parse.antt =====
-- host/lib/pmwl.py, `parse_header`.
use mps4_prototyping_board.Prelude.{
  ℕ, zero, suc, ◌+◌, ◌-◌, ◌*◌, List, [], ◌∷◌, ◌++◌, Bool, false, not, ◌&&◌, ◌||◌, Option, none,
  some, length, take, drop, replicate, ltb, ◌==◌, if◌then◌else◌, Result, ok, err, ◌>>=◌, ◌>>◌,
  refuse_if, get_or,
}
use mps4_prototyping_board.Bytes.{Bytes, unpack_words}
use mps4_prototyping_board.Pmwl.{
  PmwlError, struct_failed, short_header, not_pmwl, unknown_version, bad_table, bad_entry_zero,
  bad_entry, pmwl_magic, off_word, header_words, knob_count, v2_knobs, io_word, io_max, io_words,
  Entry, Header,
}

-- `struct.unpack_from("<nI", blob, off)`
unfoldable pub unpacked : ℕ → ℕ → Bytes → Result PmwlError (List ℕ)
unpacked n off blob = elim (unpack_words n (drop off blob)) [
  | none ↦ err struct_failed
  | some ws ↦ ok ws
]

-- `dict(zip(HEADER_FIELDS, ...))`
unfoldable pub header_of_words : List ℕ → Header
header_of_words ws =
    let at = λ (i : ℕ). get_or ws i 0 in
    record {
      version = at 1;
      cms_off = at 2;
      cms_len = at 3;
      const_off = at 4;
      const_len = at 5;
      arena_size = at 6;
      fast_size = at 7;
      ifm = record { arena_off = at 8; len = at 9; data_off = at 10 };
      ofm = record { arena_off = at 11; len = at 12; data_off = at 13 };
      irq_mask = at 14;
      total_len = at 15;
    }

-- How many knob words a version carries; another version is unknown.
unfoldable pub version_knobs : ℕ → Option ℕ
version_knobs version =
    if version == 1
    then some 0
    else if version == 2
    then some 8
    else if version == 3 || version == 4
    then some knob_count
    else none

-- The knob words, OFF where the version does not carry them; word 23 of version 2 is reserved.
unfoldable pub knobs_of : ℕ → List ℕ → List ℕ
knobs_of version carried =
    let k = carried ++ replicate (knob_count - length carried) off_word in
    if version == 2 then take v2_knobs k ++ off_word ∷ drop (suc v2_knobs) k else k

abbrev pub entry_eq : Entry → Entry → Bool
entry_eq d e = d.arena_off == e.arena_off && d.len == e.len && d.data_off == e.data_off

-- `[t[2 + 3 * i:5 + 3 * i] for i in range(n)]`, on the table from word 2 on.
unfoldable pub entries_of : ℕ → List ℕ → List Entry
entries_of zero ws = []
entries_of (suc n) ws =
    record { arena_off = get_or ws 0 0; len = get_or ws 1 0; data_off = get_or ws 2 0 }
    ∷ entries_of n (drop 3 ws)

-- Entry 0 of a list repeats the header's words.
unfoldable pub entry_zero : List Entry → ℕ → Entry → Bool
entry_zero ents n e = elim (drop n ents) [ [] ↦ false | d ∷ ds ↦ entry_eq d e ]

-- The number of IFMs and the entries, from the table of version 4 or from the header.
unfoldable pub table_of : Header → Bytes → Result PmwlError (ℕ × List Entry)
unfolding unpacked entries_of entry_zero
table_of h blob = if not (h.version == 4) then ok (1, h.ifm ∷ h.ofm ∷ []) else (do
  t ← unpacked io_words (4 * io_word) blob
  let n_in = get_or t 0 0
  let n_out = get_or t 1 0
  refuse_if (ltb n_in 1 || ltb n_out 1 || ltb io_max (n_in + n_out)) bad_table
  let ents = entries_of (n_in + n_out) (drop 2 t)
  refuse_if (not (entry_zero ents 0 h.ifm) || not (entry_zero ents n_in h.ofm)) bad_entry_zero
  ok (n_in, ents))

unfoldable pub check_entries : Header → List Entry → Result PmwlError (Unit {0})
check_entries h [] = ok tt
check_entries h (e ∷ es) = do
  refuse_if (ltb h.arena_size (e.arena_off + e.len) || ltb h.total_len (e.data_off + e.len))
      bad_entry
  check_entries h es

-- The dictionary that `parse_header` returns.
pub record Parsed : Type 0 where
  pub header : Header
  pub knobs : List ℕ
  pub inputs : List Entry
  pub outputs : List Entry

unfoldable pub parse_header : Bytes → Result PmwlError Parsed
unfolding unpacked header_of_words version_knobs knobs_of table_of check_entries
parse_header blob = do
  refuse_if (ltb (length blob) (4 * header_words)) short_header
  ws ← unpacked header_words 0 blob
  let h = header_of_words ws
  refuse_if (not (get_or ws 0 0 == pmwl_magic)) not_pmwl
  n ← elim (version_knobs h.version) [ none ↦ err unknown_version | some n ↦ ok n ]
  carried ← unpacked n (4 * header_words) blob
  let (n_in, ents) = (← table_of h blob)
  check_entries h ents
  ok (record {
    header = h;
    knobs = knobs_of h.version carried;
    inputs = take n_in ents;
    outputs = drop n_in ents;
  })
