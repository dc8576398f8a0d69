-- ===== src/Ofm/Dump.antt =====
-- host/analysis/ofm_compare.py, `section`: reading back the lines of a dump.
use mps4_prototyping_board.Prelude.{
  ℕ, ◌+◌, ◌/◌, ◌%◌, ◌≡◌, ◌<◌, refl, sym, ap, ap₂, ◌∙◌, arith, List, [], ◌∷◌, ◌++◌, map, true, false,
  ltb, ◌==◌, if◌then◌else◌, All, Name, append_assoc, append-nil, some,
}
use mps4_prototyping_board.Bytes.{Bytes, IsByte, starts_with}
use mps4_prototyping_board.Ofm.{
  is_break, splitlines, after, is_hex, hex_value, find_bytes, is_dump_line, is_blank, no_bytes,
  read_dump, section,
}

-- `0x%02x, `, and a line of them.
abbrev pub hex_digit : ℕ → ℕ
hex_digit d = if ltb d 10 then d + 48 else d + 87

unfoldable pub dump_line : Bytes → Name
dump_line [] = []
dump_line (b ∷ bs) =
    b'0' ∷ b'x' ∷ hex_digit (b / 16) ∷ hex_digit (b % 16) ∷ b',' ∷ b' ' ∷ dump_line bs

hex_digit-is_hex : (d : ℕ) → d < 16 → is_hex (hex_digit d) ≡ true
hex_digit-is_hex d h = ground arith

hex_digit-value : (d : ℕ) → d < 16 → hex_value (hex_digit d) ≡ d
hex_digit-value d h = ground arith

find_bytes-dump_line : (bs : Bytes) → All IsByte bs → find_bytes (dump_line bs) ≡ bs
unfolding find_bytes dump_line
find_bytes-dump_line [] h = refl
find_bytes-dump_line (b ∷ bs) h =
    rw
      (
        hex_digit-is_hex (b / 16) (omega arith),
        hex_digit-is_hex (b % 16) (omega arith),
        hex_digit-value (b / 16) (omega arith),
        hex_digit-value (b % 16) (omega arith),
      )
      (ap₂ (λ z zs. z ∷ zs) (omega arith) (after_space bs ∙ find_bytes-dump_line bs h.1))
  where
    after_space : (bs : Bytes) → find_bytes (b' ' ∷ dump_line bs) ≡ find_bytes (dump_line bs)
    after_space [] = refl
    after_space (c ∷ cs) = refl

-- A character that ends no line.
abbrev pub IsInline : ℕ → Type 0
IsInline c = is_break c ≡ false

splitlines-break :
    (l rest : Name) → All IsInline l → splitlines (l ++ 10 ∷ rest) ≡ l ∷ splitlines rest
unfolding splitlines
splitlines-break [] rest h = refl
splitlines-break (c ∷ l) rest h = rw (splitlines-break l rest h.1, h.0, no_cr c h.0) refl
  where
    no_cr : (c : ℕ) → is_break c ≡ false → (c == 13) ≡ false
    no_cr c h = ground arith

dump_line-All : (bs : Bytes) → All IsByte bs → All IsInline (dump_line bs)
unfolding dump_line
dump_line-All [] h = tt
dump_line-All (b ∷ bs) h = (
  refl,
  (
    refl,
    (
      digit_inline (b / 16) (omega arith),
      (digit_inline (b % 16) (omega arith), (refl, (refl, dump_line-All bs h.1))),
    ),
  ),
)
  where
    digit_inline : (d : ℕ) → d < 16 → is_break (hex_digit d) ≡ false
    digit_inline d h = ground arith

-- The lines of a dump, each with its line feed.
unfoldable pub dump_text : List Bytes → Name
unfolding dump_line
dump_text [] = []
dump_text (row ∷ rows) = dump_line row ++ 10 ∷ dump_text rows

unfoldable pub flat : List Bytes → Bytes
flat [] = []
flat (row ∷ rows) = row ++ flat rows

abbrev pub IsRow : Bytes → Type 0
IsRow row = (no_bytes row ≡ false) × All IsByte row

splitlines-dump_text :
    (rows : List Bytes) (rest : Name)
    → All IsRow rows
    → splitlines (dump_text rows ++ rest) ≡ map dump_line rows ++ splitlines rest
unfolding dump_text
splitlines-dump_text [] rest h = refl
splitlines-dump_text (row ∷ rows) rest h =
    ap splitlines (append_assoc (dump_line row) (10 ∷ dump_text rows) rest)
    ∙ splitlines-break (dump_line row) (dump_text rows ++ rest) (dump_line-All row h.0.1)
    ∙ ap (λ ls. dump_line row ∷ ls) (splitlines-dump_text rows rest h.1)

-- What ends a dump: the end of the text, or a line that is neither a dump line nor blank.
abbrev pub Ends : List Name → Type 0
Ends [] = Unit
Ends (l ∷ ls) = (is_dump_line l ≡ false) × (is_blank l ≡ false)

is_dump_line-dump_line : (row : Bytes) → no_bytes row ≡ false → is_dump_line (dump_line row) ≡ true
unfolding is_dump_line dump_line starts_with
is_dump_line-dump_line [] h = cc h
is_dump_line-dump_line (b ∷ bs) h = refl

read_dump-rows :
    (out : Bytes) (rows : List Bytes) (more : List Name)
    → All IsRow rows
    → no_bytes (out ++ flat rows) ≡ false
    → Ends more
    → read_dump out (map dump_line rows ++ more) ≡ out ++ flat rows
unfolding read_dump flat
read_dump-rows out [] [] h n e = sym (append-nil out)
read_dump-rows out [] (l ∷ ls) h n e =
    let some_out : no_bytes out ≡ false = sym (ap no_bytes (append-nil out)) ∙ n in
    rw (e.0, e.1, some_out) (sym (append-nil out))
read_dump-rows out (row ∷ rows) more h n e =
    rw (is_dump_line-dump_line row h.0.0, find_bytes-dump_line row h.0.1)
      (read_dump-rows (out ++ row) rows more h.1 (rw append_assoc n) e
        ∙ append_assoc out row (flat rows))

-- The section of a mark that a text holds is the bytes of the dump that begins on the line after the first
-- mark, however they are spread over its lines of `0x.., ` values, up to the end of the text or a
-- line that is neither blank nor a dump line.
pub section-dump_text :
    (text mark first rest : Name) (row : Bytes) (rows : List Bytes)
    → after mark text ≡ some (first ++ 10 ∷ (dump_text (row ∷ rows) ++ rest))
    → All IsInline first
    → All IsRow (row ∷ rows)
    → Ends (splitlines rest)
    → section text mark ≡ some (flat (row ∷ rows))
unfolding section
section-dump_text text mark first rest row rows found inline good ends =
    rw (found, section)
      (rw
        (
          splitlines-break first (dump_text (row ∷ rows) ++ rest) inline,
          splitlines-dump_text (row ∷ rows) rest good,
        )
        (ap some
          (read_dump-rows [] (row ∷ rows) (splitlines rest) good (not_empty row good.0.0) ends)))
  where
    not_empty : (row : Bytes) → no_bytes row ≡ false → no_bytes (flat (row ∷ rows)) ≡ false
    not_empty [] h = cc h
    not_empty (b ∷ bs) h = unfold flat in refl
