-- ===== src/Ofm.antt =====
-- host/analysis/ofm_compare.py: the OFM dump of a UART capture, and the comparison of two OFMs. A text is the
-- list of its code points.
pub mod Dump
pub mod Compare
pub mod Golden
use mps4_prototyping_board.Prelude.{
  ℕ, zero, suc, ◌+◌, ◌-◌, ◌*◌, List, [], ◌∷◌, ◌++◌, map, Bool, true, false, not, ◌&&◌, ◌||◌, Option,
  none, some, ltb, leb, ◌==◌, if◌then◌else◌, length, drop, get_or, Result, ok, err, Name, codes,
}
use mps4_prototyping_board.Prelude.Int.{ℤ, pos, negsuc, sub_ℕ}
use mps4_prototyping_board.Bytes.{Bytes, starts_with, find}
use mps4_prototyping_board.Receive.Text.{is_space}

-- IFM_MARK and OFM_MARK
abbrev pub ifm_mark : Name
ifm_mark = codes "input tensors populated"

abbrev pub ofm_mark : Name
ofm_mark = codes "output tensors post inference"

-- The characters at which `str.splitlines` ends a line.
abbrev pub is_break : ℕ → Bool
is_break c =
    (leb 10 c && leb c 13)
    || ((leb 28 c && leb c 30) || ((c == 133) || ((c == 8232) || (c == 8233))))

abbrev pub push : ℕ → List Name → List Name
push c [] = (c ∷ []) ∷ []
push c (l ∷ ls) = (c ∷ l) ∷ ls

abbrev pub begins_lf : Name → Bool
begins_lf [] = false
begins_lf (c ∷ cs) = c == 10

-- `text.splitlines()`
unfoldable pub splitlines : Name → List Name
splitlines [] = []
splitlines (c ∷ cs) =
    let rest = splitlines cs in
    if (c == 13) && begins_lf cs then rest else if is_break c then [] ∷ rest else push c rest

-- `text.split(mark, 1)[1]`: none is IndexError.
unfoldable pub after : Name → Name → Option Name
unfolding find
after mark text = elim (find mark text) [
  | none ↦ none
  | some i ↦ some (drop (i + length mark) text)
]

abbrev pub is_hex : ℕ → Bool
is_hex c = (leb b'0' c && leb c b'9') || (leb b'a' c && leb c b'f')

abbrev pub hex_value : ℕ → ℕ
hex_value c = if leb c b'9' then c - b'0' else c - 87

-- `HEX.findall`, each match as its number.
unfoldable pub find_bytes : Name → Bytes
find_bytes (a ∷ b ∷ c ∷ d ∷ e ∷ rest) =
    let past = find_bytes rest in
    let next = find_bytes (b ∷ c ∷ d ∷ e ∷ rest) in
    if (a == b'0') && ((b == b'x') && (is_hex c && (is_hex d && (e == b','))))
    then (hex_value c * 16 + hex_value d) ∷ past
    else next
find_bytes _ = []

-- `ln.lstrip("\t").startswith("0x")`
unfoldable pub is_dump_line : Name → Bool
unfolding starts_with
is_dump_line [] = false
is_dump_line (c ∷ cs) =
    let rest = is_dump_line cs in if c == 9 then rest else starts_with (codes "0x") (c ∷ cs)

-- `not ln.strip()`
unfoldable pub is_blank : Name → Bool
unfolding is_space
is_blank [] = true
is_blank (c ∷ cs) = is_space c && is_blank cs

abbrev pub no_bytes : Bytes → Bool
no_bytes [] = true
no_bytes (b ∷ bs) = false

-- The loop of `section`.
unfoldable pub read_dump : Bytes → List Name → Bytes
unfolding find_bytes is_dump_line is_blank
read_dump out [] = out
read_dump out (ln ∷ lines) =
    let longer = read_dump (out ++ find_bytes ln) lines in
    let same = read_dump out lines in
    if is_dump_line ln
    then longer
    else if not (is_blank ln) && not (no_bytes out)
    then out
    else same

-- `section`
unfoldable pub section : Name → Name → Option Bytes
unfolding after splitlines read_dump
section text mark = elim (after mark text) [
  | none ↦ none
  | some rest ↦ some (read_dump [] (drop 1 (splitlines rest)))
]

abbrev pub int8 : ℕ → ℤ
int8 b = if ltb 127 b then negsuc (255 - b) else pos b

-- The difference of two integers.
abbrev pub minus_int : ℤ → ℤ → ℤ
minus_int (pos x) (pos y) = sub_ℕ x y
minus_int (pos x) (negsuc y) = pos (x + suc y)
minus_int (negsuc x) (pos y) = negsuc (x + y)
minus_int (negsuc x) (negsuc y) = sub_ℕ y x

abbrev pub abs : ℤ → ℕ
abs (pos n) = n
abs (negsuc n) = suc n

-- `[i for i in range(len(a)) if a[i] != b[i]]`, from an index on, for lists of one length.
unfoldable pub differing : ℕ → Bytes → Bytes → List ℕ
differing i (x ∷ xs) (y ∷ ys) =
    let rest = differing (suc i) xs ys in if not (x == y) then i ∷ rest else rest
differing i _ _ = []

-- `max(values, default=0)`
unfoldable pub max_of : List ℕ → ℕ
max_of [] = 0
max_of (n ∷ ns) = let rest = max_of ns in if ltb rest n then n else rest

pub record Comparison : Type 0 where
  pub size : ℕ
  pub mismatch_count : ℕ
  pub positions : List ℕ
  pub a_values : List ℤ
  pub b_values : List ℤ
  pub signed_diff_a_minus_b : List ℤ
  pub max_abs_diff : ℕ

-- ValueError, with both lengths.
pub data LengthError : Type 0 where
  lengths_differ : ℕ → ℕ → LengthError

-- The dictionary that `compare` returns.
unfoldable pub compared : Bytes → Bytes → Comparison
unfolding differing max_of
compared a b =
    let places = differing 0 a b in
    let diff = map (λ i. minus_int (int8 (get_or a i 0)) (int8 (get_or b i 0))) places in
    record {
      size = length a;
      mismatch_count = length places;
      positions = places;
      a_values = map (λ i. int8 (get_or a i 0)) places;
      b_values = map (λ i. int8 (get_or b i 0)) places;
      signed_diff_a_minus_b = diff;
      max_abs_diff = max_of (map abs diff);
    }

-- `compare`
unfoldable pub compare_bytes : Bytes → Bytes → Result LengthError Comparison
unfolding compared
compare_bytes a b =
    if not (length a == length b)
    then err (lengths_differ (length a) (length b))
    else ok (compared a b)
