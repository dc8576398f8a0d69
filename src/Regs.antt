-- ===== src/Regs.antt =====
-- firmware/common/gen_npu_pmu_regs.py, the generator of the PMU register header: `_bitfields`, `_one` and
-- `extract`. The vendor's header is given by what the regular expressions find in it.
pub mod Render
pub mod Layout
pub mod Numerals
pub mod Drift
pub mod Sound
pub mod Check
pub mod Extract
use mps4_prototyping_board.Prelude.{
  ℕ, zero, suc, ◌+◌, ◌-◌, ◌*◌, ◌^◌, List, [], ◌∷◌, ◌++◌, Bool, true, false, not, ◌&&◌, ◌||◌, Option,
  none, some, ltb, leb, ◌==◌, if◌then◌else◌, length, Result, ok, err, ◌>>=◌, ◌>>◌, refuse_if,
  or_raise, Name, codes, same_name,
}

-- What `re` finds: the literals of the `#define` lines of a name, the (name, width) pairs of the fields of
-- a struct, and the (name, value) pairs of the enum `pmu_event`.
pub record Interface : Type 0 where
  pub defines : Name → List Name
  pub struct : Name → Option (List (Name × ℕ))
  pub pmu_event : Option (List (Name × ℕ))

-- A field of a register: its name, its shift and its width.
pub record Field : Type 0 where
  pub name : Name
  pub shift : ℕ
  pub width : ℕ

-- The errors: `SystemExit`, and the `ValueError` of `int(literal, 0)`.
pub data Refusal : Type 0 where
  no_struct no_field : Name → Refusal
  definitions fields_found field_width shift_range : Name → ℕ → Refusal
  bad_literal : Name → Refusal
  out_of_contract : Name → ℕ → ℕ → Refusal
  cycle_disagree overflow_disagree : ℕ → ℕ → Refusal
  start_stop_overlap no_enum : Refusal
  defined_twice no_event event_too_wide : Name → Refusal
  low_width high_width : Option ℕ → Refusal

-- The number of a digit of `[0-9A-Fa-f]`.
abbrev pub digit_value : ℕ → ℕ
digit_value c = if leb c b'9' then c - 48 else if leb c b'F' then c - 55 else c - 87

unfoldable pub read_digits : ℕ → ℕ → Name → ℕ
read_digits base n [] = n
read_digits base n (c ∷ cs) = read_digits base (n * base + digit_value c) cs

abbrev pub all_zeros : Name → Bool
all_zeros [] = true
all_zeros (c ∷ cs) = (c == b'0') && all_zeros cs

-- `int(text, 0)` of a text that is `0x[0-9A-Fa-f]+` or `\d+`. A decimal with a leading zero is refused,
-- unless it is zero.
unfoldable pub int_of : Name → Option ℕ
unfolding read_digits
int_of (c ∷ d ∷ cs) =
    if (c == b'0') && (d == b'x')
    then some (read_digits 16 0 cs)
    else if (c == b'0') && not (all_zeros (d ∷ cs))
    then none
    else some (read_digits 10 0 (c ∷ d ∷ cs))
int_of cs = some (read_digits 10 0 cs)

-- The loop of `_bitfields`, from a shift on.
unfoldable pub lay : ℕ → ℕ → List (Name × ℕ) → List Field
lay span shift [] = []
lay span shift ((name, width) ∷ rest) =
    let more = lay span (shift + width) rest in
    if leb span shift then [] else record { name = name; shift = shift; width = width } ∷ more

-- `_bitfields`
unfoldable pub bitfields : Interface → Name → ℕ → Result Refusal (List Field)
unfolding lay
bitfields h struct_name span = do
  found ← or_raise (no_struct struct_name) (h.struct struct_name)
  ok (lay span 0 found)

-- The fields of a name.
unfoldable pub hits : Name → List Field → List Field
hits want [] = []
hits want (f ∷ fs) = let rest = hits want fs in if same_name f.name want then f ∷ rest else rest

-- `if len(hit) != 1: raise`, and the one element.
abbrev pub only : Refusal → List Field → Result Refusal Field
only e (f ∷ []) = ok f
only e fs = err e

-- `_one`, for a pattern that is a plain name.
unfoldable pub one : List Field → Name → Name → Result Refusal ℕ
unfolding hits
one fields pattern_name place = do
  f ← only (fields_found place (length (hits pattern_name fields))) (hits pattern_name fields)
  refuse_if (not (f.width == 1)) (field_width place f.width)
  refuse_if (not (leb f.shift 31)) (shift_range place f.shift)
  ok f.shift

-- The one definition of a wanted name.
abbrev pub one_literal : Name → List Name → Result Refusal ℕ
one_literal name (literal ∷ []) = or_raise (bad_literal literal) (int_of literal)
one_literal name literals = err (definitions name (length literals))

unfoldable pub define : Interface → Name → Result Refusal ℕ
unfolding int_of
define h name = one_literal name (h.defines name)

-- The dictionary `found`, with a field for each name of WANTED.
pub record FoundOffsets : Type 0 where
  pub pmcr : ℕ
  pub pmcntenset : ℕ
  pub pmcntenclr : ℕ
  pub pmovsset : ℕ
  pub pmovsclr : ℕ
  pub pmintset : ℕ
  pub pmintclr : ℕ
  pub pmccntr : ℕ
  pub pmccntr_hi : ℕ
  pub pmccntr_cfg : ℕ
  pub pmevcntr_base : ℕ
  pub pmevcntr_arrlen : ℕ
  pub pmevtyper_base : ℕ
  pub pmevtyper_arrlen : ℕ

-- The loop over WANTED.
unfoldable pub find_all : Interface → Result Refusal FoundOffsets
unfolding define
find_all h = do
  pmcr ← define h (codes "NPU_REG_PMCR")
  pmcntenset ← define h (codes "NPU_REG_PMCNTENSET")
  pmcntenclr ← define h (codes "NPU_REG_PMCNTENCLR")
  pmovsset ← define h (codes "NPU_REG_PMOVSSET")
  pmovsclr ← define h (codes "NPU_REG_PMOVSCLR")
  pmintset ← define h (codes "NPU_REG_PMINTSET")
  pmintclr ← define h (codes "NPU_REG_PMINTCLR")
  pmccntr ← define h (codes "NPU_REG_PMCCNTR")
  pmccntr_hi ← define h (codes "NPU_REG_PMCCNTR_HI")
  pmccntr_cfg ← define h (codes "NPU_REG_PMCCNTR_CFG")
  pmevcntr_base ← define h (codes "NPU_REG_PMEVCNTR_BASE")
  pmevcntr_arrlen ← define h (codes "NPU_REG_PMEVCNTR_ARRLEN")
  pmevtyper_base ← define h (codes "NPU_REG_PMEVTYPER_BASE")
  pmevtyper_arrlen ← define h (codes "NPU_REG_PMEVTYPER_ARRLEN")
  ok (record {
    pmcr = pmcr;
    pmcntenset = pmcntenset;
    pmcntenclr = pmcntenclr;
    pmovsset = pmovsset;
    pmovsclr = pmovsclr;
    pmintset = pmintset;
    pmintclr = pmintclr;
    pmccntr = pmccntr;
    pmccntr_hi = pmccntr_hi;
    pmccntr_cfg = pmccntr_cfg;
    pmevcntr_base = pmevcntr_base;
    pmevcntr_arrlen = pmevcntr_arrlen;
    pmevtyper_base = pmevtyper_base;
    pmevtyper_arrlen = pmevtyper_arrlen;
  })
