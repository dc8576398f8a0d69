-- ===== src/Measure/Parse.antt =====
-- `parse_measurement_payload` (host/lib/runner_proto.py) and the layout of the ABI.
use mps4_prototyping_board.Prelude.{
  ℕ, zero, suc, ◌+◌, ◌-◌, ◌*◌, ◌≤◌, ◌<◌, ◌^◌, ◌≡◌, refl, sym, ap, ap₂, ◌∙◌, arith, List, [], ◌∷◌,
  none, some, length, length-drop, drop, All, ltb, ok, Result, get_or, take_all, if◌then◌else◌,
  ltb-false, ◌==◌, All-drop, ==_refl, true, not, refuse_if-eq-ok, >>=-eq-ok,
}
use mps4_prototyping_board.Bytes.{Bytes, IsByte, IsU32, le32s, words, crc32}
use mps4_prototyping_board.Bytes.Words.{length-le32s, le32s-words}
use mps4_prototyping_board.Measure.{
  Measurement, MeasureError, covered, measurement_payload_crc, pmu_of, decode_pmu_block, pmu_fields,
  short_payload, bad_magic, bad_version, bad_header_words, below_minimum, over_cap,
  declared_mismatch, crc_mismatch, parse_measurement_payload, rme_known_fields, rme_magic,
}
use mps4_prototyping_board.Measure.Encoding.{
  Content, IsContent, content_crc, content_words, encode, decoded, words-encode, words-drop-encode,
  length-encode, crc32-covered-encode,
}

measurement_payload_crc-encode :
    (c : Content) → measurement_payload_crc (encode c) (8 + length c.body) ≡ ok (content_crc c)
unfolding measurement_payload_crc
measurement_payload_crc-encode c = ground (arith, length-encode c, crc32-covered-encode c)

pmu_of-body :
    (body : List ℕ)
    → pmu_of (8 + length body) (drop rme_known_fields body)
      ≡ ok (if ltb (length body) 102 then none else some (pmu_fields (drop rme_known_fields body)))
unfolding pmu_of decode_pmu_block
pmu_of-body body = ground (arith, length-drop rme_known_fields body)

same_size : (n : ℕ) → ((8 + n) * 4 == 4 * (8 + n)) ≡ true
same_size n = ground arith

-- The encoding of a content that fits the ABI (words below 2 ^ 32, and between 47 and 1016 of them
-- behind the header) is accepted and parsed into that content.
pub parse_measurement_payload-encode :
    (c : Content) → IsContent c → parse_measurement_payload (encode c) ≡ ok (decoded c)
unfolding parse_measurement_payload content_words decoded
parse_measurement_payload-encode c h =
    rw
      (
        words-encode c h,
        words-drop-encode c h,
        length-encode c,
        ltb-false (4 * (8 + length c.body)) 32 (omega arith),
        ltb-false (8 + length c.body) 55 (omega (arith, h.known)),
        ltb-false 1024 (8 + length c.body) (omega (arith, h.capped)),
        same_size (length c.body),
        measurement_payload_crc-encode c,
        ==_refl (content_crc c),
        take_all (8 + length c.body - 8) c.body (omega arith),
        pmu_of-body c.body,
      )
      refl

module _ (p : Bytes) where
  header_word : ℕ → ℕ
  header_word i = get_or (words p) i 0

  -- What an accepted payload has passed.
  record Accepted : Type 0 where
    magic_ok : header_word 0 ≡ rme_magic
    version_ok : header_word 1 ≡ 1
    header_ok : header_word 3 ≡ 8
    minimum : 55 ≤ header_word 2
    cap : header_word 2 ≤ 1024
    size : header_word 2 * 4 ≡ length p
    crc_ok : crc32 (covered p (header_word 2 * 4)) ≡ header_word 7

  measurement_payload_crc-eq-ok :
      (n crc : ℕ) → measurement_payload_crc p n ≡ ok crc → crc32 (covered p (n * 4)) ≡ crc
  unfolding measurement_payload_crc
  measurement_payload_crc-eq-ok n crc h = ground arith

  parse-Accepted : (m : Measurement) → parse_measurement_payload p ≡ ok m → Accepted
  unfolding parse_measurement_payload header_word
  parse-Accepted m h =
      let (g1, h1) = refuse_if-eq-ok (ltb (length p) 32) short_payload _ h in
      let (g2, h2) = refuse_if-eq-ok (not (header_word 0 == rme_magic)) bad_magic _ h1 in
      let (g3, h3) = refuse_if-eq-ok (not (header_word 1 == 1)) bad_version _ h2 in
      let (g4, h4) = refuse_if-eq-ok (not (header_word 3 == 8)) bad_header_words _ h3 in
      let (g5, h5) = refuse_if-eq-ok (ltb (header_word 2) 55) below_minimum _ h4 in
      let (g6, h6) = refuse_if-eq-ok (ltb 1024 (header_word 2)) over_cap _ h5 in
      let (g7, h7) = refuse_if-eq-ok (not (header_word 2 * 4 == length p)) declared_mismatch _ h6 in
      let (crc, e, h8) = >>=-eq-ok (measurement_payload_crc p (header_word 2)) _ h7 in
      let (g9, h9) = refuse_if-eq-ok (not (crc == header_word 7)) crc_mismatch _ h8 in
      record {
        magic_ok = ground arith;
        version_ok = ground arith;
        header_ok = ground arith;
        minimum = ground arith;
        cap = ground arith;
        size = ground arith;
        crc_ok = ground (arith, measurement_payload_crc-eq-ok (header_word 2) crc e);
      }

content_of : List ℕ → Content
content_of ws = record {
  sequence = get_or ws 4 0;
  flags = get_or ws 5 0;
  rc = get_or ws 6 0;
  body = drop 8 ws;
}

-- The bytes under the CRC, by the words that they hold.
covered-le32s :
    (ws : List ℕ)
    → 8 ≤ length ws
    → crc32 (covered (le32s ws) (length ws * 4)) ≡ content_crc (content_of ws)
unfolding covered le32s content_crc content_of
covered-le32s (w0 ∷ w1 ∷ w2 ∷ w3 ∷ w4 ∷ w5 ∷ w6 ∷ w7 ∷ body) h =
    rw
      (take_all (length (w0 ∷ w1 ∷ w2 ∷ w3 ∷ w4 ∷ w5 ∷ w6 ∷ w7 ∷ body) * 4 - 32) (le32s body)
        (omega (arith, length-le32s body)))
      refl
covered-le32s _ h = absurd (omega arith)

crc-words :
    (ws : List ℕ) (p : Bytes) (n : ℕ)
    → le32s ws ≡ p
    → length ws ≡ n
    → 8 ≤ length ws
    → crc32 (covered p (n * 4)) ≡ content_crc (content_of ws)
crc-words ws p n e l h =
    ap₂ (λ (q : Bytes) (k : ℕ). crc32 (covered q (k * 4))) (sym e) (sym l) ∙ covered-le32s ws h

ok-injective : {m n : Measurement} → ◌≡◌ {A = Result MeasureError Measurement} (ok m) (ok n) → m ≡ n
ok-injective h = cc

content_words-content_of :
    (ws : List ℕ)
    → 8 ≤ length ws
    → get_or ws 0 0 ≡ rme_magic
    → get_or ws 1 0 ≡ 1
    → get_or ws 2 0 ≡ length ws
    → get_or ws 3 0 ≡ 8
    → get_or ws 7 0 ≡ content_crc (content_of ws)
    → content_words (content_of ws) ≡ ws
unfolding content_words content_of
content_words-content_of (w0 ∷ w1 ∷ w2 ∷ w3 ∷ w4 ∷ w5 ∷ w6 ∷ w7 ∷ body) h e0 e1 e2 e3 e7 =
    ground (arith, e7)
content_words-content_of _ h e0 e1 e2 e3 e7 = absurd (omega arith)

content_of-IsContent :
    (ws : List ℕ) → All IsU32 ws → 55 ≤ length ws → length ws ≤ 1024 → IsContent (content_of ws)
unfolding content_of
content_of-IsContent ws u lo hi = record {
  sequence_fits = get_or-IsU32 4 ws u;
  flags_fit = get_or-IsU32 5 ws u;
  rc_fits = get_or-IsU32 6 ws u;
  body_fits = All-drop IsU32 8 ws u;
  known = omega (arith, length-drop 8 ws);
  capped = omega (arith, length-drop 8 ws);
}
  where
    get_or-IsU32 : (n : ℕ) (vs : List ℕ) → All IsU32 vs → get_or vs n 0 < 2 ^ 32
    get_or-IsU32 n [] k = omega arith
    get_or-IsU32 zero (v ∷ vs) k = k.0
    get_or-IsU32 (suc n) (v ∷ vs) k = get_or-IsU32 n vs k.1

-- A payload of bytes that is accepted is the encoding of a content that fits the ABI, CRC included,
-- and the record is that content.
pub parse_measurement_payload-eq-ok :
    (p : Bytes) (m : Measurement)
    → All IsByte p
    → parse_measurement_payload p ≡ ok m
    → (c : Content) × IsContent c × (p ≡ encode c) × (m ≡ decoded c)
unfolding header_word encode
parse_measurement_payload-eq-ok p m b h =
    let a = parse-Accepted p m h in
    let n = header_word p 2 in
    let (e, l, u) = le32s-words p n (omega (arith, a.size)) b in
    let ws = words p in
    let lo : 55 ≤ length ws = omega (arith, a.minimum, l) in
    let laid : content_words (content_of ws) ≡ ws =
      content_words-content_of ws (omega arith) a.magic_ok a.version_ok (sym l) a.header_ok
        (sym a.crc_ok ∙ crc-words ws p n e l (omega arith)) in
    let fits = content_of-IsContent ws u lo (omega (arith, a.cap, l)) in
    let whole : p ≡ encode (content_of ws) = sym e ∙ ap le32s (sym laid) in
    (
      content_of ws,
      fits,
      whole,
      ok-injective (
          sym h
          ∙ ap parse_measurement_payload whole
          ∙ parse_measurement_payload-encode (content_of ws) fits),
    )
