-- ===== src/Tests/Records.antt =====
-- Runs of the record parser: a record of 110 words, with a PMU block.
use mps4_prototyping_board.Prelude.{
  ℕ, ◌+◌, ◌*◌, ◌%◌, ◌^◌, ◌<◌, ◌≡◌, refl, arith, List, ◌∷◌, ◌++◌, none, some, replicate, All, ok,
  if◌then◌else◌, ◌==◌,
}
use mps4_prototyping_board.Bytes.{IsByte, le32s, pack_words}
use mps4_prototyping_board.Bytes.Words.{le32s-IsByte, pack_words-eq-some}
use mps4_prototyping_board.Measure.{pmu_fields, decode_pmu_block, parse_measurement_payload}
use mps4_prototyping_board.Measure.Encoding.{Content, IsContent, content_words, encode, decoded}
use mps4_prototyping_board.Measure.Parse.{
  parse_measurement_payload-encode, parse_measurement_payload-eq-ok,
}
use mps4_prototyping_board.Measure.Pmu.{decode_pmu_block_cycles}

-- A block with slot 1 valid only, and a window count over 2 ^ 32.
abbrev block : List ℕ
block =
    1
    ∷ 0
    ∷ 0
    ∷ 0
    ∷ 0
    ∷ 1
    ∷ 1
    ∷ 8
    ∷ 8
    ∷ 8
    ∷ 8
    ∷ 2
    ∷ 2
    ∷ 2
    ∷ 0
    ∷ 17
    ∷ 34
    ∷ 0
    ∷ 0
    ∷ 0
    ∷ 0
    ∷ 0
    ∷ 0
    ∷ 100
    ∷ 200
    ∷ 0
    ∷ 0
    ∷ 0
    ∷ 0
    ∷ 0
    ∷ 0
    ∷ 5
    ∷ 65539
    ∷ 1
    ∷ replicate 21 0

abbrev content : Content
content = record { sequence = 3; flags = 15; rc = 0; body = replicate 47 0 ++ block }

body_packed : pack_words content.body ≡ some (le32s content.body)
unfolding pack_words
body_packed = refl

content-IsContent : IsContent content
content-IsContent = record {
  sequence_fits = omega arith;
  flags_fit = omega arith;
  rc_fits = omega arith;
  body_fits = (pack_words-eq-some content.body body_packed).0;
  known = omega arith;
  capped = omega arith;
}

parse_measurement_payload-encode_example :
    parse_measurement_payload (encode content) ≡ ok (decoded content)
parse_measurement_payload-encode_example =
    parse_measurement_payload-encode content content-IsContent

encode-IsByte : All IsByte (encode content)
unfolding encode
encode-IsByte = le32s-IsByte (content_words content)

parse_measurement_payload-eq-ok_example :
    (c : Content) × IsContent c × (encode content ≡ encode c) × (decoded content ≡ decoded c)
parse_measurement_payload-eq-ok_example =
    parse_measurement_payload-eq-ok (encode content) (decoded content) encode-IsByte
      parse_measurement_payload-encode_example

block_decoded : decode_pmu_block block ≡ ok (pmu_fields block)
unfolding decode_pmu_block
block_decoded = refl

cycles_low : (pmu_fields block).npu_pmu_window_cycles_lo < 2 ^ 32
unfolding pmu_fields
cycles_low = omega arith

decode_pmu_block_cycles_example :
    ((pmu_fields block).npu_pmu_window_cycles_raw
      ≡ (pmu_fields block).npu_pmu_window_cycles_lo
        + (pmu_fields block).npu_pmu_window_cycles_hi % 65536 * 2 ^ 32)
    × ((pmu_fields block).npu_pmu_window_cycles_raw < 2 ^ 48)
    × ((pmu_fields block).npu_pmu_window_cycles ≡ (
        if (pmu_fields block).npu_pmu_cycle_valid == 0
        then none
        else some (pmu_fields block).npu_pmu_window_cycles_raw))
decode_pmu_block_cycles_example =
    decode_pmu_block_cycles block (pmu_fields block) block_decoded cycles_low
