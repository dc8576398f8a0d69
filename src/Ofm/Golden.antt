-- ===== src/Ofm/Golden.antt =====
-- host/analysis/mlek_golden.py: the golden of an MLEK capture, under the checks G1 to G5. SHA-256 is a
-- parameter, from bytes to the text of a digest; the keys of the two dictionaries that are read are fields.
pub mod Accept
use mps4_prototyping_board.Prelude.{
  ℕ, List, [], ◌∷◌, ◌++◌, Bool, true, false, not, ◌&&◌, Option, none, some, ◌==◌, if◌then◌else◌,
  length, Result, ok, err, ◌>>=◌, ◌>>◌, refuse_if, or_raise, Name, codes, same_name,
}
use mps4_prototyping_board.Prelude.Int.{ℤ}
use mps4_prototyping_board.Bytes.{Bytes, find}
use mps4_prototyping_board.Baseline.{failing}
use mps4_prototyping_board.Ofm.{ifm_mark, ofm_mark, section, Comparison, LengthError, compare_bytes}

-- TA_LINES
abbrev pub ta_lines : List Name
ta_lines =
    (codes "Configured TA_SRAM" ++ 9 ∷ codes "@0x51102000")
    ∷ (codes "Configured TA_EXT" ++ 9 ∷ codes "@0x51102400")
    ∷ []

-- The packed blob's meta.
pub record Meta : Type 0 where
  pub ifm_len : ℕ
  pub ofm_len : ℕ
  pub vela_sha256 : Name
  pub model_sha256 : Name
  pub cms_sha256 : Name
  pub ifm_sha256 : Name
  pub golden_sha256 : Name
  pub tflite_ofm_sha256 : Name
  pub blob_sha256 : Name

-- The frozen manifest's entry.
pub record Frozen : Type 0 where
  pub model_sha256 : Name
  pub cms_sha256 : Name

pub data GoldenCheck : Type 0 where
  g1_lengths g2_same_vela_output g3_ta_configured g4_model_and_cms_unchanged : GoldenCheck
  g5_blob_holds_dump : GoldenCheck

-- IndexError, and the ValueErrors.
pub data GoldenError : Type 0 where
  no_mark : Name → GoldenError
  rejected : List GoldenCheck → GoldenError
  not_the_tflite_ofm : GoldenError
  bad_lengths : LengthError → GoldenError

-- `all(t in text for t in lines)`
unfoldable pub all_in : List Name → Name → Bool
unfolding find
all_in [] text = true
all_in (t ∷ ts) text = elim (find t text) [ some i ↦ true | none ↦ false ] && all_in ts text

-- What the entry adds to the frozen one.
pub record GoldenEntry : Type 0 where
  pub frozen : Frozen
  pub blob_sha256 : Name
  pub input_sha256 : Name
  pub ofm_sha256 : Name
  pub mlek_vela_sha256 : Name
  pub golden_validity : List (GoldenCheck × Bool)
  pub diagnostic_tflite_ofm_sha256 : Name
  pub mismatch_count : ℕ
  pub positions : List ℕ
  pub signed_diff_mlek_minus_tflite : List ℤ
  pub max_abs_diff : ℕ

-- The entry, from the checks and the comparison with the tflite_runtime OFM.
unfoldable pub entry_of :
    Meta → Frozen → Name → List (GoldenCheck × Bool) → Comparison → GoldenEntry
entry_of meta frozen vela g diag = record {
  frozen = frozen;
  blob_sha256 = meta.blob_sha256;
  input_sha256 = meta.ifm_sha256;
  ofm_sha256 = meta.golden_sha256;
  mlek_vela_sha256 = vela;
  golden_validity = g;
  diagnostic_tflite_ofm_sha256 = meta.tflite_ofm_sha256;
  mismatch_count = diag.mismatch_count;
  positions = diag.positions;
  signed_diff_mlek_minus_tflite = diag.signed_diff_a_minus_b;
  max_abs_diff = diag.max_abs_diff;
}

-- A ValueError of `compare`.
abbrev pub compared_or {ℓ} : {A : Type ℓ} → Result LengthError A → Result GoldenError A
compared_or (ok r) = ok r
compared_or (err e) = err (bad_lengths e)

-- `all(g.values())`
abbrev pub is_none_failing : List GoldenCheck → Bool
is_none_failing [] = true
is_none_failing (k ∷ ks) = false

module _ (sha : Bytes → Name) where
  -- The checks, from the two sections.
  unfoldable pub checks : Bytes → Bytes → Name → Meta → Frozen → Name → List (GoldenCheck × Bool)
  unfolding all_in
  checks ifm ofm text meta frozen vela =
      (g1_lengths, (length ifm == meta.ifm_len) && (length ofm == meta.ofm_len))
      ∷ (g2_same_vela_output, same_name vela meta.vela_sha256)
      ∷ (g3_ta_configured, all_in ta_lines text)
      ∷ (
        g4_model_and_cms_unchanged,
        same_name meta.model_sha256 frozen.model_sha256
            && same_name meta.cms_sha256 frozen.cms_sha256,
      )
      ∷ (
        g5_blob_holds_dump,
        same_name meta.ifm_sha256 (sha ifm) && same_name meta.golden_sha256 (sha ofm),
      )
      ∷ []

  -- `validity`
  unfoldable pub validity :
      Name → Meta → Frozen → Name → Result GoldenError (List (GoldenCheck × Bool))
  unfolding checks
  validity text meta frozen vela = do
    ifm ← or_raise (no_mark ifm_mark) (section text ifm_mark)
    ofm ← or_raise (no_mark ofm_mark) (section text ofm_mark)
    ok (checks ifm ofm text meta frozen vela)

  -- `entry`
  unfoldable pub entry : Name → Meta → Frozen → Name → Bytes → Result GoldenError GoldenEntry
  unfolding validity entry_of
  entry text meta frozen vela tflite_ofm = do
    g ← validity text meta frozen vela
    refuse_if (not (is_none_failing (failing g))) (rejected (failing g))
    refuse_if (not (same_name (sha tflite_ofm) meta.tflite_ofm_sha256)) not_the_tflite_ofm
    ofm ← or_raise (no_mark ofm_mark) (section text ofm_mark)
    diag ← compared_or (compare_bytes ofm tflite_ofm)
    ok (entry_of meta frozen vela g diag)
