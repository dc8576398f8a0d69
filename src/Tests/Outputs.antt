-- ===== src/Tests/Outputs.antt =====
-- Runs of the OFM comparison and of the golden checks, of the study's spreads, and of the MAC counts.
use mps4_prototyping_board.Prelude.{
  ℕ, ◌*◌, ◌≡◌, ◌≢◌, ◌↔◌, ◌≤◌, refl, arith, List, [], ◌∷◌, ◌++◌, true, some, Name, codes, length,
  has, ok, err,
}
use mps4_prototyping_board.Events.{nat_equality}
use mps4_prototyping_board.Bytes.{Bytes}
use mps4_prototyping_board.Baseline.{failing}
use mps4_prototyping_board.Ofm.{
  ifm_mark, ofm_mark, section, splitlines, after, compare_bytes, compared, Comparison, LengthError,
  is_dump_line, is_blank,
}
use mps4_prototyping_board.Ofm.Compare.{Differ, compare_bytes_lem}
use mps4_prototyping_board.Ofm.Dump.{Ends, dump_text, flat, section-dump_text}
use mps4_prototyping_board.Ofm.Golden.{Meta, Frozen, GoldenEntry, entry, entry_of, checks}
use mps4_prototyping_board.Ofm.Golden.Accept.{IsGolden, entry_iff}
use mps4_prototyping_board.Study.{separation, higher, lower}
use mps4_prototyping_board.Study.Spreads.{stats, AllAbove, separation-stats}
use mps4_prototyping_board.Models.{conv, conv_2d, geometry, op_macs}
use mps4_prototyping_board.Models.Macs.{shapes_in, op_macs-geometry}
use mps4_prototyping_board.Tests.Payloads.{thousandths, thousandths-IsOrder}

abbrev first_ofm : Bytes
first_ofm = 1 ∷ 2 ∷ 255 ∷ []

abbrev second_ofm : Bytes
second_ofm = 1 ∷ 3 ∷ 0 ∷ []

compare_bytes_lem_example :
    (length first_ofm ≡ length second_ofm
      → (r : Comparison) × (compare_bytes first_ofm second_ofm ≡ ok r)
        × ((i : ℕ) → (has i r.positions ≡ true) ↔ Differ first_ofm second_ofm i)
        × (r.mismatch_count ≡ length r.positions)
        × (r.max_abs_diff ≤ 255)
        × ((r.mismatch_count ≡ 0) ↔ (first_ofm ≡ second_ofm))
        × ((r.max_abs_diff ≡ 0) ↔ (first_ofm ≡ second_ofm)))
    × (length first_ofm ≢ length second_ofm
        → (e : LengthError) × (compare_bytes first_ofm second_ofm ≡ err e))
compare_bytes_lem_example = compare_bytes_lem first_ofm second_ofm (omega arith) (omega arith)

compared_run : (compared first_ofm second_ofm).positions ≡ 1 ∷ 2 ∷ []
unfolding compared
compared_run = refl

abbrev rows : List Bytes
rows = (1 ∷ 255 ∷ []) ∷ (128 ∷ []) ∷ []

abbrev capture : Name
capture =
    codes "run"
    ++ (10 ∷ (codes "output tensors post inference:" ++ 10 ∷ (dump_text rows ++ codes "done")))

after_run : after ofm_mark capture ≡ some (codes ":" ++ 10 ∷ (dump_text rows ++ codes "done"))
unfolding after dump_text
after_run = refl

Ends-run : Ends (splitlines (codes "done"))
unfolding is_dump_line is_blank splitlines
Ends-run = (refl, refl)

section-dump_text_example : section capture ofm_mark ≡ some (flat rows)
section-dump_text_example =
    section-dump_text capture ofm_mark (codes ":") (codes "done") (1 ∷ 255 ∷ []) ((128 ∷ []) ∷ [])
      after_run (refl, tt) ((refl, omega arith), ((refl, omega arith), tt)) Ends-run

-- A digest that keeps the bytes.
abbrev sha : Bytes → Name
sha bs = bs

abbrev uart : Name
uart =
    codes "Configured TA_SRAM"
    ++ (9
        ∷ (codes "@0x51102000"
            ++ (10
                ∷ (codes "Configured TA_EXT"
                    ++ (9
                        ∷ (codes "@0x51102400"
                            ++ (10
                                ∷ (codes "input tensors populated"
                                    ++ (10
                                        ∷ (codes "0x01, 0x02, "
                                            ++ (10
                                                ∷ (codes "output tensors post inference"
                                                    ++ (10 ∷ codes "0xff, 0x80, ")))))))))))))

abbrev meta : Meta
meta = record {
  ifm_len = 2;
  ofm_len = 2;
  vela_sha256 = 7 ∷ [];
  model_sha256 = 8 ∷ [];
  cms_sha256 = 9 ∷ [];
  ifm_sha256 = 1 ∷ 2 ∷ [];
  golden_sha256 = 255 ∷ 128 ∷ [];
  tflite_ofm_sha256 = 255 ∷ 127 ∷ [];
  blob_sha256 = 6 ∷ [];
}

abbrev frozen : Frozen
frozen = record { model_sha256 = 8 ∷ []; cms_sha256 = 9 ∷ [] }

abbrev tflite : Bytes
tflite = 255 ∷ 127 ∷ []

abbrev golden_entry : GoldenEntry
golden_entry =
    entry_of meta frozen (7 ∷ [])
      (checks sha (1 ∷ 2 ∷ []) (255 ∷ 128 ∷ []) uart meta frozen (7 ∷ []))
      (compared (255 ∷ 128 ∷ []) tflite)

entry_run : entry sha uart meta frozen (7 ∷ []) tflite ≡ ok golden_entry
unfolding entry section checks compare_bytes failing
entry_run = refl

entry_iff_example : (entry sha uart meta frozen (7 ∷ []) tflite ≡ ok golden_entry) ↔ (
    (ifm : Bytes) × (ofm : Bytes) × (section uart ifm_mark ≡ some ifm)
    × (section uart ofm_mark ≡ some ofm)
    × IsGolden sha ifm ofm uart meta frozen (7 ∷ [])
    × (sha tflite ≡ meta.tflite_ofm_sha256)
    × (length ofm ≡ length tflite)
    × (entry_of meta frozen
          (7 ∷ [])
          (checks sha ifm ofm uart meta frozen (7 ∷ []))
          (compared ofm tflite)
        ≡ golden_entry))
entry_iff_example = entry_iff sha uart meta frozen (7 ∷ []) tflite golden_entry

abbrev first_of : List ℕ → ℕ
first_of [] = 0
first_of (v ∷ vs) = v

separation-stats_example :
    ((separation thousandths
          (stats thousandths first_of 700 (690 ∷ []))
          (stats thousandths first_of 300 (320 ∷ []))
        ≡ higher)
      ↔ AllAbove thousandths (700 ∷ 690 ∷ []) (300 ∷ 320 ∷ []))
    × ((separation thousandths
            (stats thousandths first_of 700 (690 ∷ []))
            (stats thousandths first_of 300 (320 ∷ []))
          ≡ lower)
        ↔ AllAbove thousandths (300 ∷ 320 ∷ []) (700 ∷ 690 ∷ []))
separation-stats_example =
    separation-stats thousandths thousandths-IsOrder first_of 700 300 (690 ∷ []) (320 ∷ [])

op_macs-geometry_example :
    op_macs conv_2d (shapes_in (conv 1 56 56 64 64 3)) ((geometry (conv 1 56 56 64 64 3)).ofm ∷ [])
    ≡ ok (some (1 * (geometry (conv 1 56 56 64 64 3)).n_mac))
op_macs-geometry_example = op_macs-geometry (conv 1 56 56 64 64 3)
