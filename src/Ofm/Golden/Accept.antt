-- ===== src/Ofm/Golden/Accept.antt =====
-- host/analysis/mlek_golden.py, `entry`: which captures get a manifest entry.
use mps4_prototyping_board.Prelude.{
  ◌≡◌, ◌↔◌, inl, inr, refl, sym, ap, ap₂, ◌∙◌, List, [], ◌∷◌, Bool, true, false, not, ◌&&◌,
  Bool-cases, some, ◌==◌, ==_iff, length, Result, ok, err, ok-injective, >>=-eq-ok, or_raise-eq-ok,
  refuse_if-eq-ok, Name, same_name, same_name_iff, and_true, or_raise, some-injective,
}
use mps4_prototyping_board.Bytes.{Bytes}
use mps4_prototyping_board.Baseline.{failing}
use mps4_prototyping_board.Ofm.{
  ifm_mark, ofm_mark, section, Comparison, LengthError, compare_bytes, compared, lengths_differ,
}
use mps4_prototyping_board.Ofm.Golden.{
  Meta, Frozen, GoldenCheck, all_in, ta_lines, compared_or, checks, validity, is_none_failing,
  entry, entry_of, GoldenEntry, no_mark, g1_lengths, g2_same_vela_output, g3_ta_configured,
  g4_model_and_cms_unchanged, g5_blob_holds_dump,
}

-- What makes a capture golden.
pub record IsGolden (sha : Bytes → Name) (ifm ofm : Bytes) (text : Name) (meta : Meta)
    (frozen : Frozen) (vela : Name) : Type 0 where
  pub ifm_length : length ifm ≡ meta.ifm_len
  pub ofm_length : length ofm ≡ meta.ofm_len
  pub same_vela : vela ≡ meta.vela_sha256
  pub configured : all_in ta_lines text ≡ true
  pub model : meta.model_sha256 ≡ frozen.model_sha256
  pub cms : meta.cms_sha256 ≡ frozen.cms_sha256
  pub ifm_digest : meta.ifm_sha256 ≡ sha ifm
  pub ofm_digest : meta.golden_sha256 ≡ sha ofm

is_none_failing-cons :
    (k : GoldenCheck) (b : Bool) (rest : List (GoldenCheck × Bool))
    → is_none_failing (failing ((k, b) ∷ rest)) ≡ (b && is_none_failing (failing rest))
unfolding failing
is_none_failing-cons k true rest = refl
is_none_failing-cons k false rest = refl

none_failing :
    is_none_failing (
      failing (
        (g1_lengths, true)
        ∷ (g2_same_vela_output, true)
        ∷ (g3_ta_configured, true)
        ∷ (g4_model_and_cms_unchanged, true)
        ∷ (g5_blob_holds_dump, true)
        ∷ []))
    ≡ true
unfolding failing
none_failing = refl

is_none_failing_iff :
    (sha : Bytes → Name) (ifm ofm : Bytes) (text : Name) (meta : Meta) (frozen : Frozen)
    (vela : Name)
    → (is_none_failing (failing (checks sha ifm ofm text meta frozen vela)) ≡ true)
      ↔ IsGolden sha ifm ofm text meta frozen vela
unfolding checks
is_none_failing_iff sha ifm ofm text meta frozen vela = (
  λ h.
      let (a, h1) = and_true _ _ (sym (is_none_failing-cons g1_lengths _ _) ∙ h) in
      let (b, h2) = and_true _ _ (sym (is_none_failing-cons g2_same_vela_output _ _) ∙ h1) in
      let (c, h3) = and_true _ _ (sym (is_none_failing-cons g3_ta_configured _ _) ∙ h2) in
      let (d, h4) = and_true _ _ (sym (is_none_failing-cons g4_model_and_cms_unchanged _ _) ∙ h3) in
      let (e, h5) = and_true _ _ (sym (is_none_failing-cons g5_blob_holds_dump _ _) ∙ h4) in
      let (a1, a2) = and_true _ _ a in
      let (d1, d2) = and_true _ _ d in
      let (e1, e2) = and_true _ _ e in
      record {
        ifm_length = (==_iff _ _).0 a1;
        ofm_length = (==_iff _ _).0 a2;
        same_vela = (same_name_iff _ _).0 b;
        configured = c;
        model = (same_name_iff _ _).0 d1;
        cms = (same_name_iff _ _).0 d2;
        ifm_digest = (same_name_iff _ _).0 e1;
        ofm_digest = (same_name_iff _ _).0 e2;
      },
  λ v.
      rw
        (
          (==_iff _ _).1 v.ifm_length,
          (==_iff _ _).1 v.ofm_length,
          (same_name_iff _ _).1 v.same_vela,
          v.configured,
          (same_name_iff _ _).1 v.model,
          (same_name_iff _ _).1 v.cms,
          (same_name_iff _ _).1 v.ifm_digest,
          (same_name_iff _ _).1 v.ofm_digest,
        )
        none_failing,
)

compare_bytes-eq-ok :
    (a b : Bytes) (r : Comparison)
    → compare_bytes a b ≡ ok r
    → (length a ≡ length b) × (compared a b ≡ r)
unfolding compare_bytes
compare_bytes-eq-ok a b r h = elim (Bool-cases (length a == length b)) [
  | inl e ↦ ((==_iff (length a) (length b)).0 e, ok-injective (rw e at h))
  | inr e ↦ let other : err (lengths_differ (length a) (length b)) ≡ ok r = rw e at h in cc other
]

compare_bytes-same : (a b : Bytes) → length a ≡ length b → compare_bytes a b ≡ ok (compared a b)
unfolding compare_bytes
compare_bytes-same a b h = rw ((==_iff (length a) (length b)).1 h) refl

compared_or-eq-ok :
    {A : Type 0} (m : Result LengthError A) (r : A) → compared_or m ≡ ok r → m ≡ ok r
compared_or-eq-ok (ok s) r h = let e : s ≡ r = ok-injective h in ap ok e
compared_or-eq-ok (err e) r h = cc h

-- `entry` gives a manifest entry exactly when the capture holds both marks, the checks G1 to G5 all hold of
-- the two sections, the tflite_runtime OFM has the digest of the meta, and it is as long as the dumped
-- OFM. The entry's differences are those of the dumped OFM and the tflite_runtime one.
pub entry_iff :
    (sha : Bytes → Name) (text : Name) (meta : Meta) (frozen : Frozen) (vela : Name)
    (tflite_ofm : Bytes) (e : GoldenEntry)
    → (entry sha text meta frozen vela tflite_ofm ≡ ok e) ↔ (
        (ifm : Bytes) × (ofm : Bytes) × (section text ifm_mark ≡ some ifm)
        × (section text ofm_mark ≡ some ofm)
        × IsGolden sha ifm ofm text meta frozen vela
        × (sha tflite_ofm ≡ meta.tflite_ofm_sha256)
        × (length ofm ≡ length tflite_ofm)
        × (entry_of meta frozen vela
              (checks sha ifm ofm text meta frozen vela)
              (compared ofm tflite_ofm)
            ≡ e))
unfolding entry validity
entry_iff sha text meta frozen vela tflite_ofm e = (
  λ done.
      let (g, p, done1) = >>=-eq-ok (validity sha text meta frozen vela) _ done in
      let (ifm, q, p1) = >>=-eq-ok (or_raise (no_mark ifm_mark) (section text ifm_mark)) _ p in
      let (ofm, r, p2) = >>=-eq-ok (or_raise (no_mark ofm_mark) (section text ofm_mark)) _ p1 in
      let (t, done2) = refuse_if-eq-ok (not (is_none_failing (failing g))) _ _ done1 in
      let (u, done3) =
        refuse_if-eq-ok (not (same_name (sha tflite_ofm) meta.tflite_ofm_sha256)) _ _ done2 in
      let (ofm', r', done4) =
        >>=-eq-ok (or_raise (no_mark ofm_mark) (section text ofm_mark)) _ done3 in
      let (diag, s, done5) = >>=-eq-ok (compared_or (compare_bytes ofm' tflite_ofm)) _ done4 in
      let at_ifm = or_raise-eq-ok (no_mark ifm_mark) (section text ifm_mark) ifm q in
      let at_ofm = or_raise-eq-ok (no_mark ofm_mark) (section text ofm_mark) ofm r in
      let at_ofm' = or_raise-eq-ok (no_mark ofm_mark) (section text ofm_mark) ofm' r' in
      let one_ofm : ofm' ≡ ofm = some-injective (sym at_ofm' ∙ at_ofm) in
      let (l, c) = compare_bytes-eq-ok ofm' tflite_ofm diag (compared_or-eq-ok _ diag s) in
      let the_checks : checks sha ifm ofm text meta frozen vela ≡ g = ok-injective p2 in
      (
        ifm,
        ofm,
        at_ifm,
        at_ofm,
        (is_none_failing_iff sha ifm ofm text meta frozen vela).0
            (ap (λ k. is_none_failing (failing k)) the_checks ∙ not_not _ t),
        (same_name_iff _ _).0 (not_not _ u),
        sym (ap length one_ofm) ∙ l,
        ap₂ (λ k (o : Bytes). entry_of meta frozen vela k (compared o tflite_ofm)) the_checks
              (sym one_ofm)
            ∙ ap (entry_of meta frozen vela g) c
            ∙ ok-injective done5,
      ),
  λ (ifm, ofm, p, q, v, d, l, w).
      let passed = (is_none_failing_iff sha ifm ofm text meta frozen vela).1 v in
      rw (p, q, passed, (same_name_iff _ _).1 d, compare_bytes-same ofm tflite_ofm l) (ap ok w),
)
  where
    not_not : (b : Bool) → not b ≡ false → b ≡ true
    not_not true h = refl
    not_not false h = cc h
