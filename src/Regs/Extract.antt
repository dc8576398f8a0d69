-- ===== src/Regs/Extract.antt =====
-- firmware/common/gen_npu_pmu_regs.py, `extract` from the fields of PMCR on.
use mps4_prototyping_board.Prelude.{
  ℕ, ◌+◌, ◌^◌, List, [], ◌∷◌, Bool, false, not, ◌||◌, Option, none, some, ltb, leb, ◌==◌,
  if◌then◌else◌, length, Result, ok, ◌>>=◌, ◌>>◌, refuse_if, or_raise, Name, codes, same_name,
}
use mps4_prototyping_board.Regs.{
  Interface, Field, Refusal, fields_found, out_of_contract, cycle_disagree, overflow_disagree,
  start_stop_overlap, no_enum, defined_twice, no_event, event_too_wide, low_width, high_width,
  bitfields, hits, only, one, FoundOffsets, find_all,
}

-- The position and the width of a field.
pub record Place : Type 0 where
  pub pos : ℕ
  pub width : ℕ

pub record Bits : Type 0 where
  pub cnt_en : Place
  pub event_cnt_rst : Place
  pub cycle_cnt_rst : Place
  pub mask_en : Place
  pub num_event_cnt : Place

-- `bits[need]`
unfoldable pub pmcr_field : List Field → Name → Result Refusal Place
pmcr_field pmcr need = do
  f ← only (fields_found need (length (hits need pmcr))) (hits need pmcr)
  ok (record { pos = f.shift; width = f.width })

unfoldable pub find_bits : Interface → Result Refusal Bits
unfolding pmcr_field
find_bits h = do
  pmcr ← bitfields h (codes "pmcr_r") 32
  cnt_en ← pmcr_field pmcr (codes "cnt_en")
  event_cnt_rst ← pmcr_field pmcr (codes "event_cnt_rst")
  cycle_cnt_rst ← pmcr_field pmcr (codes "cycle_cnt_rst")
  mask_en ← pmcr_field pmcr (codes "mask_en")
  num_event_cnt ← pmcr_field pmcr (codes "num_event_cnt")
  ok (record {
    cnt_en = cnt_en;
    event_cnt_rst = event_cnt_rst;
    cycle_cnt_rst = cycle_cnt_rst;
    mask_en = mask_en;
    num_event_cnt = num_event_cnt;
  })

-- `_one(_bitfields(text, struct_name), pattern, struct_name)`
unfoldable pub cycle_bit : Interface → Name → Name → Result Refusal ℕ
cycle_bit h struct_name pattern_name = do
  fields ← bitfields h struct_name 32
  one fields pattern_name struct_name

-- The four cycle bits of `cyc`.
pub record Cycles : Type 0 where
  pub enset : ℕ
  pub enclr : ℕ
  pub ovsset : ℕ
  pub ovsclr : ℕ

unfoldable pub find_cycles : Interface → Result Refusal Cycles
unfolding cycle_bit
find_cycles h = do
  enset ← cycle_bit h (codes "pmcntenset_r") (codes "CYCLE_CNT")
  enclr ← cycle_bit h (codes "pmcntenclr_r") (codes "CYCLE_CNT")
  ovsset ← cycle_bit h (codes "pmovsset_r") (codes "CYCLE_CNT_OVF")
  ovsclr ← cycle_bit h (codes "pmovsclr_r") (codes "CYCLE_CNT_OVF")
  refuse_if (not (enset == enclr)) (cycle_disagree enset enclr)
  refuse_if (not (ovsset == ovsclr)) (overflow_disagree ovsset ovsclr)
  ok (record { enset = enset; enclr = enclr; ovsset = ovsset; ovsclr = ovsclr })

-- One round of the loop over START and STOP.
unfoldable pub cfg_field : List Field → Name → Result Refusal Place
cfg_field fields want = do
  f ← only (fields_found want (length (hits want fields))) (hits want fields)
  refuse_if (not (f.width == 10) || (not (leb f.shift 31) || ltb 32 (f.shift + f.width)))
      (out_of_contract want f.shift f.width)
  ok (record { pos = f.shift; width = f.width })

pub record Gate : Type 0 where
  pub start : Place
  pub stop : Place

unfoldable pub find_gate : Interface → Result Refusal Gate
unfolding cfg_field
find_gate h = do
  fields ← bitfields h (codes "pmccntr_cfg_r") 32
  start ← cfg_field fields (codes "CYCLE_CNT_CFG_START")
  stop ← cfg_field fields (codes "CYCLE_CNT_CFG_STOP")
  refuse_if (start.pos == stop.pos) start_stop_overlap
  ok (record { start = start; stop = stop })

-- `events.get(name)`
unfoldable pub event_of : Name → List (Name × ℕ) → Option ℕ
event_of name [] = none
event_of name ((other, v) ∷ events) = if same_name other name then some v else event_of name events

abbrev pub differs : Option ℕ → ℕ → Bool
differs none v = false
differs (some w) v = not (w == v)

-- The loop over the members of the enum, with the dictionary so far, the latest entry first.
unfoldable pub collect : List (Name × ℕ) → List (Name × ℕ) → Result Refusal (List (Name × ℕ))
unfolding event_of
collect events [] = ok events
collect events ((name, v) ∷ rest) = do
  refuse_if (differs (event_of name events) v) (defined_twice name)
  collect ((name, v) ∷ events) rest

-- `need in events`, and that its value fits the field.
unfoldable pub needed : List (Name × ℕ) → ℕ → Name → Result Refusal ℕ
unfolding event_of
needed events width need = do
  v ← or_raise (no_event need) (event_of need events)
  refuse_if (not (ltb v (2 ^ width))) (event_too_wide need)
  ok v

pub record EventNumbers : Type 0 where
  pub cycle : ℕ
  pub no_event_value : ℕ

unfoldable pub find_events : Interface → ℕ → Result Refusal EventNumbers
unfolding collect needed
find_events h width = do
  members ← or_raise no_enum h.pmu_event
  events ← collect [] members
  cycle ← needed events width (codes "CYCLE")
  none_value ← needed events width (codes "NO_EVENT")
  ok (record { cycle = cycle; no_event_value = none_value })

-- `widths.get(name)`: the last field of the name.
unfoldable pub width_of : Name → List Field → Option ℕ
width_of name [] = none
width_of name (f ∷ fs) =
    let later = width_of name fs in
    elim later [ some w ↦ some w | none ↦ if same_name f.name name then some f.width else none ]

abbrev pub is_width : ℕ → Option ℕ → Bool
is_width n none = false
is_width n (some w) = w == n

-- The width of the cycle counter, from its two words.
unfoldable pub find_width : Interface → Result Refusal ℕ
unfolding width_of
find_width h = do
  cc ← bitfields h (codes "pmccntr_r") 64
  refuse_if (not (is_width 32 (width_of (codes "CYCLE_CNT_LO") cc)))
      (low_width (width_of (codes "CYCLE_CNT_LO") cc))
  refuse_if (not (is_width 16 (width_of (codes "CYCLE_CNT_HI") cc)))
      (high_width (width_of (codes "CYCLE_CNT_HI") cc))
  lo ← or_raise (low_width none) (width_of (codes "CYCLE_CNT_LO") cc)
  hi ← or_raise (high_width none) (width_of (codes "CYCLE_CNT_HI") cc)
  ok (lo + hi)

-- What `extract` returns.
pub record Geometry : Type 0 where
  pub found : FoundOffsets
  pub bits : Bits
  pub cycle_width : ℕ
  pub cyc : Cycles
  pub gate : Gate
  pub numbers : EventNumbers

unfoldable pub extract : Interface → Result Refusal Geometry
extract h = do
  found ← find_all h
  bits ← find_bits h
  cyc ← find_cycles h
  gate ← find_gate h
  numbers ← find_events h gate.start.width
  cycle_width ← find_width h
  ok (record {
    found = found;
    bits = bits;
    cycle_width = cycle_width;
    cyc = cyc;
    gate = gate;
    numbers = numbers;
  })
