-- ===== src/Pmwl/Inside.antt =====
-- `parse_header` (host/lib/pmwl.py): what it accepts.
use mps4_prototyping_board.Prelude.{
  ℕ, ◌+◌, ◌*◌, ◌≤◌, ◌≡◌, ◌≢◌, refl, subst, arith, List, [], ◌∷◌, false, not, ◌||◌, ◌==◌, ltb, none,
  some, length, All, All-take, All-drop, Result, ok, err, >>=-eq-ok, refuse_if-eq-ok, get_or,
}
use mps4_prototyping_board.Bytes.{Bytes}
use mps4_prototyping_board.Pmwl.{
  PmwlError, short_header, not_pmwl, unknown_version, bad_entry, pmwl_magic, header_words, Entry,
  Header,
}
use mps4_prototyping_board.Pmwl.Parse.{
  unpacked, header_of_words, version_knobs, table_of, check_entries, Parsed, parse_header,
}

-- The entry lies in the arena, and its data before the header's total_len.
pub record IsInside (h : Header) (e : Entry) : Type 0 where
  pub in_arena : e.arena_off + e.len ≤ h.arena_size
  pub in_total_len : e.data_off + e.len ≤ h.total_len

ok-injective : {a b : Parsed} → ◌≡◌ {A = Result PmwlError Parsed} (ok a) (ok b) → a ≡ b
ok-injective h = cc

check_entries-IsInside :
    (h : Header) (es : List Entry) → check_entries h es ≡ ok tt → All (IsInside h) es
unfolding check_entries
check_entries-IsInside h [] k = tt
check_entries-IsInside h (e ∷ es) k =
    let (a, b) =
      refuse_if-eq-ok
        (ltb h.arena_size (e.arena_off + e.len) || ltb h.total_len (e.data_off + e.len)) bad_entry
        (check_entries h es) k in
    (record { in_arena = ground arith; in_total_len = ground arith }, check_entries-IsInside h es b)

abbrev Facts : Bytes → Parsed → Type 0
Facts blob p =
    (ws : List ℕ) × (unpacked header_words 0 blob ≡ ok ws)
    × (get_or ws 0 0 ≡ pmwl_magic)
    × (p.header ≡ header_of_words ws)
    × (version_knobs p.header.version ≢ none)
    × All (IsInside p.header) p.inputs
    × All (IsInside p.header) p.outputs

-- A blob that `parse_header` accepts has sixteen header words that start with the magic and are the fields of
-- the result, and a known version; each of the inputs and outputs lies inside the header's arena_size, and its
-- data end by the header's total_len, which is not compared with the length of the blob.
pub parse_header-IsInside :
    (blob : Bytes) (p : Parsed)
    → parse_header blob ≡ ok p
    → (ws : List ℕ) × (unpacked header_words 0 blob ≡ ok ws)
      × (get_or ws 0 0 ≡ pmwl_magic)
      × (p.header ≡ header_of_words ws)
      × (version_knobs p.header.version ≢ none)
      × All (IsInside p.header) p.inputs
      × All (IsInside p.header) p.outputs
unfolding parse_header
parse_header-IsInside blob p h =
    let (a, h1) = refuse_if-eq-ok (ltb (length blob) (4 * header_words)) short_header _ h in
    let (ws, b, h2) = >>=-eq-ok (unpacked header_words 0 blob) _ h1 in
    let k = header_of_words ws in
    let (c, h3) = refuse_if-eq-ok (not (get_or ws 0 0 == pmwl_magic)) not_pmwl _ h2 in
    let (n, d, h4) =
      >>=-eq-ok (elim (version_knobs k.version) [ none ↦ err unknown_version | some n ↦ ok n ]) _
        h3 in
    let (carried, e, h5) = >>=-eq-ok (unpacked n (4 * header_words) blob) _ h4 in
    let (t, f, h6) = >>=-eq-ok (table_of k blob) _ h5 in
    let (u, g, h7) = >>=-eq-ok (check_entries k t.1) _ h6 in
    let inside = check_entries-IsInside k t.1 g in
    subst (Facts blob) (ok-injective h7) (
      ws,
      b,
      equal (get_or ws 0 0) pmwl_magic c,
      refl,
      known k.version n d,
      All-take (IsInside k) t.0 t.1 inside,
      All-drop (IsInside k) t.0 t.1 inside,
    )
  where
    equal : (m n : ℕ) → not (m == n) ≡ false → m ≡ n
    equal m n e = ground arith

    known :
        (v n : ℕ)
        → (elim (version_knobs v) [ none ↦ err unknown_version | some n ↦ ok n ]) ≡ ok n
        → version_knobs v ≢ none
    known v n d e = cc (rw e at d)
