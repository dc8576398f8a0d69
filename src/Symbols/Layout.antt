-- ===== src/Symbols/Layout.antt =====
-- firmware/gate/check_measure_symbols.py, `check_sec_noinit`: the map file, by its lines.
use mps4_prototyping_board.Prelude.{
  Name, codes, name_equality, ℕ, ◌+◌, ◌*◌, ◌-◌, List, [], ◌∷◌, ◌++◌, Bool, true, false, not, ◌&&◌,
  ◌||◌, Option, none, some, leb, ◌==◌, if◌then◌else◌, length, drop, has, add, sorted,
}
use mps4_prototyping_board.Bytes.{starts_with}
use mps4_prototyping_board.Symbols.{
  name_leq, is_digit, sec_noinit_base, sec_noinit_size, sec_noinit_objects,
}

-- `\s` and `str.isspace` on ASCII.
abbrev pub is_space : ℕ → Bool
is_space c = c == 32 || (leb 9 c && leb c 13 || leb 28 c && leb c 31)

-- A hexadecimal digit, by its value.
abbrev pub hex_digit : ℕ → Option ℕ
hex_digit c =
    if is_digit c
    then some (c - 48)
    else if leb 97 c && leb c 102
    then some (c - 87)
    else if leb 65 c && leb c 70
    then some (c - 55)
    else none

-- `[0-9a-fA-F]*`, after the value of the digits that were read.
unfoldable pub hex_rest : ℕ → Name → ℕ × Name
hex_rest n [] = (n, [])
hex_rest n (c ∷ cs) = elim (hex_digit c) [ none ↦ (n, c ∷ cs) | some d ↦ hex_rest (16 * n + d) cs ]

unfoldable pub skip_spaces : Name → Name
skip_spaces [] = []
skip_spaces (c ∷ cs) = let rest = skip_spaces cs in if is_space c then rest else c ∷ cs

-- `\s+0x([0-9a-fA-F]+)`, and what follows.
unfoldable pub spaced_hex : Name → Option (ℕ × Name)
unfolding hex_rest skip_spaces
spaced_hex [] = none
spaced_hex (c ∷ cs) = elim (skip_spaces cs) [
  | z ∷ x ∷ d ∷ rest ↦
      if is_space c && (z == 48 && x == 120)
      then elim (hex_digit d) [ none ↦ none | some v ↦ some (hex_rest v rest) ]
      else none
  | _ ↦ none
]

-- `MAP_SECTION_HEADER.match`: the base and the size.
unfoldable pub section_header : Name → Option (ℕ × ℕ)
unfolding spaced_hex
section_header line =
    if starts_with (codes ".sec_noinit") line
    then elim (spaced_hex (drop (length (codes ".sec_noinit")) line)) [
      | none ↦ none
      | some (base, rest) ↦ elim (spaced_hex rest) [
        | none ↦ none
        | some (size, more) ↦ some (base, size)
      ]
    ]
    else none

unfoldable pub reverse_onto : Name → Name → Name
reverse_onto out [] = out
reverse_onto out (c ∷ cs) = reverse_onto (c ∷ out) cs

-- The characters up to the first that `stop` names.
unfoldable pub until : (ℕ → Bool) → Name → Name
until stop [] = []
until stop (c ∷ cs) = let rest = until stop cs in if stop c then [] else c ∷ rest

unfoldable pub drop_bracket : Name → Name
drop_bracket [] = []
drop_bracket (c ∷ cs) = if c == 41 then cs else c ∷ cs

-- `MAP_OBJECT.search` and the last part of its path, on the line read backwards.
unfoldable pub object_of : Name → Option Name
unfolding skip_spaces reverse_onto until drop_bracket
object_of line =
    let word = until is_space (drop_bracket (skip_spaces (reverse_onto [] line))) in
    if starts_with (codes "o.") word && not (length word == 2)
    then some (reverse_onto [] (until (λ c. c == 47) word))
    else none

-- The objects of the section: the loop over the lines after its header.
unfoldable pub objects_of : List Name → List Name → List Name
unfolding object_of
objects_of objects [] = objects
objects_of objects ([] ∷ lines) = objects_of objects lines
objects_of objects ((c ∷ cs) ∷ lines) =
    let more =
      objects_of (elim (object_of (c ∷ cs)) [ none ↦ objects | some o ↦ add o objects ]) lines in
    if is_space c then more else objects

-- The first line that is the section's header, and the lines after it.
unfoldable pub find_section : List Name → Option ((ℕ × ℕ) × List Name)
unfolding section_header
find_section [] = none
find_section (line ∷ lines) = elim (section_header line) [
  | some header ↦ some (header, lines)
  | none ↦ find_section lines
]

-- The elements of `xs` that are not in `ys`.
unfoldable pub minus : List Name → List Name → List Name
minus [] ys = []
minus (x ∷ xs) ys = let rest = minus xs ys in if has x ys then rest else x ∷ rest

-- The lines of the report.
pub data LayoutNote : Type 0 where
  unreadable no_section : LayoutNote
  base_size : ℕ → ℕ → LayoutNote
  moved : LayoutNote
  objects_seen unexpected_objects absent_objects : List Name → LayoutNote

abbrev pub nonempty : List Name → Bool
nonempty [] = false
nonempty (x ∷ xs) = true

-- The report, and whether it is a PASS.
unfoldable pub judge_section : ℕ → ℕ → List Name → Bool × List LayoutNote
unfolding minus
judge_section base size objects =
    let is_moved = not (base == sec_noinit_base) || not (size == sec_noinit_size) in
    let unexpected = sorted name_leq (minus objects sec_noinit_objects) in
    let absent = sorted name_leq (minus sec_noinit_objects objects) in
    (
      not is_moved && not (nonempty unexpected),
      (base_size base size ∷ [])
          ++ ((if is_moved then moved ∷ [] else [])
              ++ ((objects_seen (sorted name_leq objects) ∷ [])
                  ++ ((if nonempty unexpected then unexpected_objects unexpected ∷ [] else [])
                      ++ (if nonempty absent then absent_objects absent ∷ [] else [])))),
    )

-- `check_sec_noinit`: no lines stand for a file that cannot be read.
unfoldable pub check_sec_noinit : Option (List Name) → Bool × List LayoutNote
unfolding find_section objects_of judge_section
check_sec_noinit none = (false, unreadable ∷ [])
check_sec_noinit (some lines) = elim (find_section lines) [
  | none ↦ (false, no_section ∷ [])
  | some ((base, size), rest) ↦ judge_section base size (objects_of [] rest)
]
