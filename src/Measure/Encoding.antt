-- ===== src/Measure/Encoding.antt =====
-- The RUN_COMPLETE payload as the firmware lays it out, written down apart from the parser.
use mps4_prototyping_board.Prelude.{
  ℕ, ◌+◌, ◌-◌, ◌*◌, ◌≤◌, ◌≡◌, refl, sym, ap, ◌∙◌, arith, List, [], ◌∷◌, ◌++◌, none, some, length,
  take, drop, take_all, append-nil, All, ltb, if◌then◌else◌,
}
use mps4_prototyping_board.Bytes.{Bytes, IsU32, le32s, words, crc32}
use mps4_prototyping_board.Bytes.Words.{words-le32s, length-le32s}
use mps4_prototyping_board.Bytes.Crc.{crc32-IsU32}
use mps4_prototyping_board.Measure.{
  rme_magic, rme_abi_version, rme_header_words, rme_known_fields, rme_pmu_fields, Measurement,
  pmu_fields, covered,
}

-- The words of the header that carry values, and the words behind the header.
pub record Content : Type 0 where
  pub sequence : ℕ
  pub flags : ℕ
  pub rc : ℕ
  pub body : List ℕ

pub record IsContent (c : Content) : Type 0 where
  pub sequence_fits : IsU32 c.sequence
  pub flags_fit : IsU32 c.flags
  pub rc_fits : IsU32 c.rc
  pub body_fits : All IsU32 c.body
  pub known : rme_known_fields ≤ length c.body
  pub capped : length c.body ≤ 1016

unfoldable pub content_crc : Content → ℕ
content_crc c = crc32 (le32s (c.sequence ∷ c.flags ∷ c.rc ∷ []) ++ le32s c.body)

unfoldable pub content_words : Content → List ℕ
content_words c =
    rme_magic
    ∷ rme_abi_version
    ∷ (rme_header_words + length c.body)
    ∷ rme_header_words
    ∷ c.sequence
    ∷ c.flags
    ∷ c.rc
    ∷ content_crc c
    ∷ c.body

unfoldable pub encode : Content → Bytes
unfolding content_words
encode c = le32s (content_words c)

-- The record that stands for the content: the PMU block is there from 102 words on.
unfoldable pub decoded : Content → Measurement
decoded c = record {
  run_sequence = c.sequence;
  valid_flags = c.flags;
  run_rc = c.rc;
  fields = take rme_known_fields c.body;
  trailing_words = length c.body - rme_known_fields;
  pmu = if ltb (length c.body) 102 then none else some (pmu_fields (drop rme_known_fields c.body));
  trailing = drop (rme_known_fields + rme_pmu_fields) c.body;
}

module _ (c : Content) (h : IsContent c) where
  pub words-encode : words (encode c) ≡ content_words c
  unfolding encode content_crc
  words-encode =
      ap words (sym (append-nil (encode c)))
      ∙ words-le32s (content_words c) [] (
        omega arith,
        (
          omega arith,
          (
            omega (arith, h.capped),
            (
              omega arith,
              (h.sequence_fits, (h.flags_fit, (h.rc_fits, (crc32-IsU32 _, h.body_fits)))),
            ),
          ),
        ),
      )
      ∙ unfold words in append-nil (content_words c)

  pub words-drop-encode : words (drop 32 (encode c)) ≡ c.body
  unfolding encode le32s
  words-drop-encode =
      ap words (sym (append-nil (le32s c.body)))
      ∙ words-le32s c.body [] h.body_fits
      ∙ unfold words in append-nil c.body

pub length-encode : (c : Content) → length (encode c) ≡ 4 * (8 + length c.body)
unfolding encode
length-encode c = omega (arith, length-le32s (content_words c))

pub crc32-covered-encode :
    (c : Content) → crc32 (covered (encode c) ((8 + length c.body) * 4)) ≡ content_crc c
unfolding encode covered content_crc le32s
crc32-covered-encode c =
    rw (take_all ((8 + length c.body) * 4 - 32) (le32s c.body) (omega (arith, length-le32s c.body)))
      refl
