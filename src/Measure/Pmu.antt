-- ===== src/Measure/Pmu.antt =====
-- `decode_pmu_block` and `required_flags_ok` (host/lib/runner_proto.py).
use mps4_prototyping_board.Prelude.{
  ℕ, zero, suc, ◌+◌, ◌*◌, ◌%◌, ◌^◌, ◌≤◌, ◌<◌, ◌≡◌, ◌↔◌, refl, ap, ◌∙◌, arith, List, [], ◌∷◌, true,
  none, some, length, take, drop, get_or, get_elem?, ◌==◌, ok, if◌then◌else◌,
}
use mps4_prototyping_board.Prelude.Bits.{bit_or_above, bit_and_low}
use mps4_prototyping_board.Measure.{
  PmuBlock, Measurement, bit, judged, window_cycles, pmu_fields, decode_pmu_block,
  required_flags_ok,
}

-- The eight slots of a list, under the mask.
get_elem?-judged :
    (mask : ℕ) (xs : List ℕ) (n : ℕ)
    → n < 8
    → get_elem? (judged mask xs) n ≡ some (if bit mask n then some (get_or xs n 0) else none)
unfolding judged
get_elem?-judged mask xs zero h = refl
get_elem?-judged mask xs (suc zero) h = refl
get_elem?-judged mask xs (suc (suc zero)) h = refl
get_elem?-judged mask xs (suc (suc (suc zero))) h = refl
get_elem?-judged mask xs (suc (suc (suc (suc zero)))) h = refl
get_elem?-judged mask xs (suc (suc (suc (suc (suc zero))))) h = refl
get_elem?-judged mask xs (suc (suc (suc (suc (suc (suc zero)))))) h = refl
get_elem?-judged mask xs (suc (suc (suc (suc (suc (suc (suc zero))))))) h = refl
get_elem?-judged mask xs (suc (suc (suc (suc (suc (suc (suc (suc n)))))))) h = absurd (omega arith)

get_or-take-drop :
    (n k m : ℕ) (xs : List ℕ) → n < k → get_or (take k (drop m xs)) n 0 ≡ get_or xs (m + n) 0
get_or-take-drop n k m xs h = get_or-take n k (drop m xs) h ∙ get_or-drop n m xs
  where
    get_or-take : (n k : ℕ) (ys : List ℕ) → n < k → get_or (take k ys) n 0 ≡ get_or ys n 0
    get_or-take n zero ys h = elim h [ ]
    get_or-take n (suc k) [] h = refl
    get_or-take zero (suc k) (y ∷ ys) h = refl
    get_or-take (suc n) (suc k) (y ∷ ys) h = get_or-take n k ys (omega arith)

    get_or_at : (ys : List ℕ) (i j : ℕ) → i ≡ j → get_or ys i 0 ≡ get_or ys j 0
    get_or_at ys i j e = ap (λ (k : ℕ). get_or ys k 0) e

    get_or-drop : (n m : ℕ) (ys : List ℕ) → get_or (drop m ys) n 0 ≡ get_or ys (m + n) 0
    get_or-drop n zero ys = get_or_at ys n (0 + n) (omega arith)
    get_or-drop n (suc m) [] = refl
    get_or-drop n (suc m) (y ∷ ys) =
        get_or-drop n m ys ∙ get_or_at (y ∷ ys) (suc (m + n)) (suc m + n) (omega arith)

-- On every block that is long enough, slot `n` shows the code in word 15 + n and the value in word
-- 23 + n if bit `n` of the valid mask (word 13) is set, and nothing otherwise, whatever stands there.
pub decode_pmu_block_slots :
    (words : List ℕ) (p : PmuBlock) (n : ℕ)
    → decode_pmu_block words ≡ ok p
    → n < 8
    → (get_elem? p.event_codes n
        ≡ some (if bit (get_or words 13 0) n then some (get_or words (15 + n) 0) else none))
      × (get_elem? p.event_values n
          ≡ some (if bit (get_or words 13 0) n then some (get_or words (23 + n) 0) else none))
      × (p.event_valid_mask ≡ get_or words 13 0)
unfolding decode_pmu_block pmu_fields
decode_pmu_block_slots words p n h lt =
    let mask = get_or words 13 0 in
    ground (
      arith,
      get_elem?-judged mask (take 8 (drop 15 words)) n lt,
      get_elem?-judged mask (take 8 (drop 23 words)) n lt,
      get_or-take-drop n 8 15 words lt,
      get_or-take-drop n 8 23 words lt,
    )

window_cycles_sum : (lo hi : ℕ) → lo < 2 ^ 32 → window_cycles lo hi ≡ lo + hi % 65536 * 2 ^ 32
unfolding window_cycles
window_cycles_sum lo hi h = rw (bit_and_low 16 hi, bit_or_above 32 lo (hi % 65536) h) (omega arith)

decode_pmu_block-eq-ok :
    (words : List ℕ) (p : PmuBlock)
    → decode_pmu_block words ≡ ok p
    → (p ≡ pmu_fields words) × (55 ≤ length words)
unfolding decode_pmu_block
decode_pmu_block-eq-ok words p h = ground arith

-- Where the low word is below 2 ^ 32, the window count is the low word and the low 16 bits of the
-- high word, below 2 ^ 48. It is
-- reported exactly where the word for it says that it is valid.
pub decode_pmu_block_cycles :
    (words : List ℕ) (p : PmuBlock)
    → decode_pmu_block words ≡ ok p
    → p.npu_pmu_window_cycles_lo < 2 ^ 32
    → (p.npu_pmu_window_cycles_raw
        ≡ p.npu_pmu_window_cycles_lo + p.npu_pmu_window_cycles_hi % 65536 * 2 ^ 32)
      × (p.npu_pmu_window_cycles_raw < 2 ^ 48)
      × (p.npu_pmu_window_cycles
          ≡ (if p.npu_pmu_cycle_valid == 0 then none else some p.npu_pmu_window_cycles_raw))
unfolding pmu_fields
decode_pmu_block_cycles words p h lt =
    let (e, long) = decode_pmu_block-eq-ok words p h in
    let low : get_or words 31 0 < 2 ^ 32 = rw e at lt in
    let sum = window_cycles_sum (get_or words 31 0) (get_or words 32 0) low in
    rw e (sum, rw sum (omega arith), refl)

-- `required_flags_ok` asks for the four low flags, and for nothing else.
pub required_flags_ok_iff :
    (m : Measurement) → (required_flags_ok m ≡ true) ↔ (m.valid_flags % 16 ≡ 15)
unfolding required_flags_ok
required_flags_ok_iff m = rw (bit_and_low 4 m.valid_flags) (ground arith)
