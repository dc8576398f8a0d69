-- ===== src/Pmwl/Sections.antt =====
-- `pack` (host/lib/pmwl.py): the header and the sections in the blob that it returns.
use mps4_prototyping_board.Prelude.{
  ℕ, ◌+◌, ◌*◌, ◌≤◌, ◌≡◌, refl, sym, ap, ◌∙◌, subst, arith, List, [], ◌∷◌, ◌++◌, true, not, ◌||◌,
  ◌==◌, ltb, some, length, take, drop, replicate, length-replicate, length-append, length-take,
  take-append-drop, ltb-false→le, Bool-cases, Result, ok, >>=-eq-ok, refuse_if-eq-ok, if◌then◌else◌,
  inl, inr, ◌⊎◌, get_elem?,
}
use mps4_prototyping_board.Bytes.{Bytes, pack_words, unpack_words}
use mps4_prototyping_board.Bytes.Words.{pack_words-eq-some, length-le32s, unpack_words-le32s}
use mps4_prototyping_board.Pmwl.{
  PmwlError, io_max, Info, or_single, Entry, knob_words_of, check_tensors, entries, write,
  write_all, packed, table_words, fields_of, pmwl_magic, count_mismatch, too_many_tensors,
}
use mps4_prototyping_board.Pmwl.Table.{length-entries, length-table_words}
use mps4_prototyping_board.Pmwl.Write.{
  align_bounds, Apart, Stand, write_all-Stand, place-Apart, Apart-le, take-take, take-drop-write,
  take-write, length-write, length-write_nil,
}
use mps4_prototyping_board.Pmwl.Blob.{
  Layout, layout, header_of, check_stop, entry_at, write_front, pack,
}
use mps4_prototyping_board.Pmwl.Entries.{
  IsEntry, entries-IsEntry, get_elem?-behind, get_elem?-first, entry_at-eq-ok,
}

-- How many tensors `pack` counts.
abbrev pub tensors_of : Info → ℕ
tensors_of info = length (or_single info.inputs info.ifm) + length (or_single info.outputs info.ofm)

ok-injective : {a b : Bytes} → ◌≡◌ {A = Result PmwlError Bytes} (ok a) (ok b) → a ≡ b
ok-injective h = cc

module _ (info : Info) (ifms golds : List Bytes) (knob_words : List ℕ) where
  abbrev at : Layout
  at = layout info (tensors_of info) (ifms ++ golds) knob_words

  -- The writes of `pack`, and the words that it packed.
  record Packed (blob : Bytes) : Type 0 where
    few : tensors_of info ≤ io_max
    fi : Entry
    fo : Entry
    first_ifm :
        get_elem?
          (entries (or_single info.inputs info.ifm ++ or_single info.outputs info.ofm) at.data_offs)
          0
        ≡ some fi
    first_ofm :
        get_elem?
          (entries (or_single info.inputs info.ifm ++ or_single info.outputs info.ofm) at.data_offs)
          (length (or_single info.inputs info.ifm))
        ≡ some fo
    header : Bytes
    knobs : Bytes
    table : Bytes
    header_packed : pack_words (fields_of (header_of info at fi fo)) ≡ some header
    knobs_packed : pack_words (take (knob_words_of at.version) at.kw) ≡ some knobs
    table_packed :
        pack_words (
          if at.version == 4
          then table_words
              (length (or_single info.inputs info.ifm))
              (length (or_single info.outputs info.ofm))
              (entries
                (or_single info.inputs info.ifm ++ or_single info.outputs info.ofm)
                at.data_offs)
          else [])
        ≡ some table
    blob_written :
        blob
        ≡ write_all
            (at.cms_off ∷ at.const_off ∷ at.data_offs)
            (info.cms ∷ info.weights ∷ ifms ++ golds)
            (write_front at header knobs table)

  packed-eq-ok : (ws : List ℕ) (bs : Bytes) → packed ws ≡ ok bs → pack_words ws ≡ some bs
  unfolding packed
  packed-eq-ok ws bs h = ground arith

  pack-Packed : (blob : Bytes) → pack info ifms golds knob_words ≡ ok blob → Packed blob
  unfolding pack
  pack-Packed blob h =
      let ins = or_single info.inputs info.ifm in
      let outs = or_single info.outputs info.ofm in
      let ents = entries (ins ++ outs) at.data_offs in
      let (a, h1) =
        refuse_if-eq-ok (not (length ifms == length ins) || not (length golds == length outs))
          count_mismatch _ h in
      let (b, h2) = refuse_if-eq-ok (ltb io_max (length ins + length outs)) too_many_tensors _ h1 in
      let (c, d, h3) =
        >>=-eq-ok (check_tensors info.arena_size (ins ++ outs) (ifms ++ golds)) _ h2 in
      let (fi, e, h4) = >>=-eq-ok (entry_at ents 0) _ h3 in
      let (fo, f, h5) = >>=-eq-ok (entry_at ents (length ins)) _ h4 in
      let (header, g, h6) = >>=-eq-ok (packed (fields_of (header_of info at fi fo))) _ h5 in
      let (knobs, k, h7) = >>=-eq-ok (packed (take (knob_words_of at.version) at.kw)) _ h6 in
      let (table, t, h8) =
        >>=-eq-ok
          (packed (if at.version == 4 then table_words (length ins) (length outs) ents else [])) _
          h7 in
      let (u, v, h9) = >>=-eq-ok (check_stop info.cms) _ h8 in
      record {
        few = ltb-false→le io_max (tensors_of info) b;
        fi = fi;
        fo = fo;
        first_ifm = entry_at-eq-ok ents 0 fi e;
        first_ofm = entry_at-eq-ok ents (length ins) fo f;
        header = header;
        knobs = knobs;
        table = table;
        header_packed = packed-eq-ok _ header g;
        knobs_packed = packed-eq-ok _ knobs k;
        table_packed = packed-eq-ok _ table t;
        blob_written = sym (ok-injective h9);
      }

  -- The sections lie behind the front, one behind the other, and the last one ends in the blob.
  sections-Apart :
      Apart at.cms_off
        (at.cms_off ∷ at.const_off ∷ at.data_offs)
        (info.cms ∷ info.weights ∷ ifms ++ golds)
        at.total
  unfolding Apart layout
  sections-Apart = (
    omega arith,
    (
      (align_bounds (at.cms_off + length info.cms)).1,
      place-Apart _ _ (ifms ++ golds) (align_bounds (at.const_off + length info.weights)).1,
    ),
  )

  packed_size : (ws : List ℕ) (bs : Bytes) → pack_words ws ≡ some bs → length bs ≡ 4 * length ws
  packed_size ws bs h = ap length (pack_words-eq-some ws h).1 ∙ length-le32s ws

  room : at.cms_off ≤ at.total
  room = Apart-le at.cms_off _ _ at.total sections-Apart

  cms_off_sum :
      at.cms_off ≡ 64 + 4 * knob_words_of at.version + (if at.version == 4 then 128 else 0)
  unfolding layout
  cms_off_sum = refl

  few_entries :
      (blob : Bytes) (p : Packed blob)
      → length
          (entries (or_single info.inputs info.ifm ++ or_single info.outputs info.ofm) at.data_offs)
        ≤ io_max
  few_entries blob p = omega (
    arith,
    p.few,
    length-append (or_single info.inputs info.ifm) (or_single info.outputs info.ofm),
    length-entries (or_single info.inputs info.ifm ++ or_single info.outputs info.ofm) at.data_offs,
  )

  -- The table, where there is one, lies behind the sixteen knobs and before the command stream.
  table_fits :
      (blob : Bytes) (p : Packed blob) → (length p.table ≡ 0) ⊎ (128 + length p.table ≤ at.cms_off)
  table_fits blob p = elim (Bool-cases (at.version == 4)) [
    | inl e ↦ inr (
        omega (
          arith,
          rw e at (packed_size _ p.table p.table_packed),
          length-table_words _ _ _ (few_entries blob p),
          rw e at cms_off_sum,
          knobs_of_4 at.version e,
        ))
    | inr e ↦ inl (rw e at (packed_size _ p.table p.table_packed))
  ]
    where
      knobs_of_4 : (v : ℕ) → (v == 4) ≡ true → knob_words_of v ≡ 16
      knobs_of_4 v e = ground arith

  length-front :
      (blob : Bytes) (p : Packed blob) → length (write_front at p.header p.knobs p.table) ≡ at.total
  unfolding write_front
  length-front blob p =
      let zs = replicate {A = ℕ} at.total 0 in
      let hl = packed_size _ p.header p.header_packed in
      let kl = packed_size _ p.knobs p.knobs_packed in
      let z = length-replicate {A = ℕ} at.total 0 in
      let first = length-write 0 p.header zs (omega (arith, hl, z, room, cms_off_sum)) in
      let second = length-write 64 p.knobs (write 0 p.header zs) (
        omega
          (arith, kl, length-take (knob_words_of at.version) at.kw, z, first, room, cms_off_sum)) in
      elim (table_fits blob p) [
        | inl e ↦
            length-write_nil 128 p.table (write 64 p.knobs (write 0 p.header zs)) e
            ∙ second
            ∙ first
            ∙ z
        | inr e ↦
            length-write 128 p.table (write 64 p.knobs (write 0 p.header zs))
              (omega (arith, e, room, second, first, z))
            ∙ second
            ∙ first
            ∙ z
      ]

  take-front :
      (blob : Bytes) (p : Packed blob)
      → take 64 (write_front at p.header p.knobs p.table) ≡ p.header
  unfolding write_front
  take-front blob p =
      let zs = replicate {A = ℕ} at.total 0 in
      let hl = packed_size _ p.header p.header_packed in
      let kl = packed_size _ p.knobs p.knobs_packed in
      let z = length-replicate {A = ℕ} at.total 0 in
      let first = length-write 0 p.header zs (omega (arith, hl, z, room, cms_off_sum)) in
      let second = length-write 64 p.knobs (write 0 p.header zs) (
        omega
          (arith, kl, length-take (knob_words_of at.version) at.kw, z, first, room, cms_off_sum)) in
      take-write 128 p.table (write 64 p.knobs (write 0 p.header zs)) 64 (omega arith)
        (omega (arith, second, first, z, room, cms_off_sum))
      ∙ take-write 64 p.knobs (write 0 p.header zs) 64 (omega arith)
          (omega (arith, first, z, room, cms_off_sum))
      ∙ ap (λ n. take n (write 0 p.header zs)) (sym hl)
      ∙ take-drop-write 0 p.header zs (omega (arith, hl, z, room, cms_off_sum))

  -- A blob that `pack` returns has the size of its layout; every section (the command stream, the constants,
  -- the IFMs and the reference OFMs) stands whole at its offset; and the sixteen words in front are the magic, the
  -- version, the offsets and lengths of the command stream and the constants, the sizes of the arena and the
  -- fast scratch, the place, length and data offset of the first IFM and of the first OFM, the interrupt
  -- mask and the size of the blob.
  pub pack-Stand :
      (blob : Bytes)
      → pack info ifms golds knob_words ≡ ok blob
      → (length blob ≡ (layout info (tensors_of info) (ifms ++ golds) knob_words).total)
        × Stand
            (at.cms_off ∷ at.const_off ∷ at.data_offs)
            (info.cms ∷ info.weights ∷ ifms ++ golds)
            blob
        × (fi : Entry) × (fo : Entry) × IsEntry
            (get_elem? (or_single info.inputs info.ifm) 0)
            (get_elem? at.data_offs 0)
            fi
        × IsEntry
            (get_elem? (or_single info.outputs info.ofm) 0)
            (get_elem? at.data_offs (length (or_single info.inputs info.ifm)))
            fo
        × (unpack_words 16 blob
            ≡ some (
                pmwl_magic
                ∷ at.version
                ∷ at.cms_off
                ∷ length info.cms
                ∷ at.const_off
                ∷ length info.weights
                ∷ info.arena_size
                ∷ info.fast_size
                ∷ fi.arena_off
                ∷ fi.len
                ∷ fi.data_off
                ∷ fo.arena_off
                ∷ fo.len
                ∷ fo.data_off
                ∷ 0xFFFF
                ∷ at.total
                ∷ []))
  unfolding header_of
  pack-Stand blob h =
      let p = pack-Packed blob h in
      let ins = or_single info.inputs info.ifm in
      let outs = or_single info.outputs info.ofm in
      let front = write_front at p.header p.knobs p.table in
      let size = length-front blob p in
      let offs = at.cms_off ∷ at.const_off ∷ at.data_offs in
      let bs = info.cms ∷ info.weights ∷ ifms ++ golds in
      let (before, same, standing) =
        write_all-Stand at.cms_off offs bs front
          (subst (Apart at.cms_off offs bs) (sym size) sections-Apart) in
      let head : take 64 blob ≡ p.header =
        ap (take 64) p.blob_written
        ∙ sym (take-take 64 at.cms_off (write_all offs bs front) (omega (arith, cms_off_sum)))
        ∙ ap (take 64) before
        ∙ take-take 64 at.cms_off front (omega (arith, cms_off_sum))
        ∙ take-front blob p in
      let (fits, words) =
        pack_words-eq-some (fields_of (header_of info at p.fi p.fo)) p.header_packed in
      (
        ap length p.blob_written ∙ same ∙ size,
        subst (Stand offs bs) (sym p.blob_written) standing,
        p.fi,
        p.fo,
        subst (λ t. IsEntry t (get_elem? at.data_offs 0) p.fi)
            (get_elem?-first info.inputs outs info.ifm)
            (entries-IsEntry (ins ++ outs) at.data_offs 0 p.fi p.first_ifm),
        subst (λ t. IsEntry t (get_elem? at.data_offs (length ins)) p.fo)
            (get_elem?-behind ins outs)
            (entries-IsEntry (ins ++ outs) at.data_offs (length ins) p.fo p.first_ofm),
        ap (unpack_words 16)
              (sym (take-append-drop 64 blob) ∙ ap (λ x. x ++ drop 64 blob) (head ∙ words))
            ∙ unpack_words-le32s (fields_of (header_of info at p.fi p.fo)) (drop 64 blob) fits,
      )
