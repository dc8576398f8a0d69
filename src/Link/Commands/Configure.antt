-- ===== src/Link/Commands/Configure.antt =====
-- The payload of `set_instrumentation_mode` (host/lib/runner_proto.py).
use mps4_prototyping_board.Prelude.{
  ℕ, zero, suc, ◌-◌, ◌*◌, ◌≤◌, ◌≡◌, refl, sym, ap, subst, ◌∙◌, arith, List, [], ◌∷◌, ◌++◌,
  append-nil, false, some, length, replicate, length-append, length-replicate, All, All-append, ok,
  ltb, ltb-false→le, Bool-cases, Option-cases, inl, inr,
}
use mps4_prototyping_board.Bytes.{Bytes, IsU32, le32s, pack_words, unpack_words}
use mps4_prototyping_board.Bytes.Words.{
  pack_words-eq-some, unpack_words-le32s, le32s-append, length-le32s,
}
use mps4_prototyping_board.Measure.{abi_event_slots}
use mps4_prototyping_board.Link.{Link}
use mps4_prototyping_board.Link.Commands.{mode_request}

le32s-zeros : (n : ℕ) → le32s (replicate n 0) ≡ replicate (4 * n) 0
unfolding le32s
le32s-zeros zero = refl
le32s-zeros (suc n) =
    subst (λ k. le32s (replicate (suc n) 0) ≡ replicate k 0) (four n)
      (ap (λ r. 0 ∷ 0 ∷ 0 ∷ 0 ∷ r) (le32s-zeros n))
  where
    four : (k : ℕ) → suc (suc (suc (suc (4 * k)))) ≡ 4 * suc k
    four k = omega arith

zeros-IsU32 : (n : ℕ) → All IsU32 (replicate n 0)
zeros-IsU32 zero = tt
zeros-IsU32 (suc n) = (omega arith, zeros-IsU32 n)

-- The words of the payload, the codes padded to the slots of the ABI.
abbrev pub mode_words : ℕ → List ℕ → ℕ → List ℕ
mode_words mode codes event_set_id =
    (mode ∷ event_set_id ∷ length codes ∷ [])
    ++ codes
    ++ replicate (abi_event_slots - length codes) 0

module _ (mode : ℕ) (codes : List ℕ) (event_set_id : ℕ) where
  mode_request_parts :
      (l l' : Link) (bs : Bytes)
      → mode_request mode codes event_set_id l ≡ (ok bs, l')
      → (head : Bytes) × (body : Bytes) × (ltb abi_event_slots (length codes) ≡ false)
        × (pack_words (mode ∷ event_set_id ∷ length codes ∷ []) ≡ some head)
        × (pack_words codes ≡ some body)
        × (bs ≡ head ++ body ++ replicate (4 * (abi_event_slots - length codes)) 0)
        × (l' ≡ l)
  unfolding mode_request
  mode_request_parts l l' bs h = elim (Bool-cases (ltb abi_event_slots (length codes))) [
    | inl e ↦ absurd (ground arith)
    | inr e ↦ elim (Option-cases (pack_words (mode ∷ event_set_id ∷ length codes ∷ []))) [
      | inl a ↦ absurd (ground arith)
      | inr (head, a) ↦ elim (Option-cases (pack_words codes)) [
        | inl b ↦ absurd (ground arith)
        | inr (body, b) ↦ (head, body, e, a, b, ground arith, ground arith)
      ]
    ]
  ]

  -- The payload that SET_INSTRUMENTATION_MODE is sent with, when there is one, is eleven words: the
  -- mode, the event set, the number of codes, and the codes padded with zeros to the eight slots.
  -- There are then at most eight codes, and the link is unchanged.
  pub mode_request-words :
      (l l' : Link) (bs : Bytes)
      → mode_request mode codes event_set_id l ≡ (ok bs, l')
      → (length codes ≤ abi_event_slots)
        × (length bs ≡ 44)
        × (unpack_words 11 bs ≡ some (mode_words mode codes event_set_id))
        × (l' ≡ l)
  mode_request-words l l' bs h =
      let (head, body, e, a, b, c, d) = mode_request_parts l l' bs h in
      let (p, q) = pack_words-eq-some _ a in
      let (r, s) = pack_words-eq-some _ b in
      let few : length codes ≤ 8 = ltb-false→le _ _ e in
      let whole = whole_words head body q s in
      let w : bs ≡ le32s (mode_words mode codes event_set_id) = c ∙ whole in
      (
        few,
        ap length w
            ∙ length-le32s (mode_words mode codes event_set_id)
            ∙ ap (λ n. 4 * n) (eleven few),
        ap (unpack_words 11) (w ∙ sym (append-nil _)) ∙ as_words few p r,
        d,
      )
    where
      eleven : length codes ≤ 8 → length (mode_words mode codes event_set_id) ≡ 11
      eleven few = omega (
        arith,
        length-append codes (replicate {A = ℕ} (abi_event_slots - length codes) 0),
        length-replicate {A = ℕ} (abi_event_slots - length codes) 0,
      )

      as_words :
          length codes ≤ 8
          → All IsU32 (mode ∷ event_set_id ∷ length codes ∷ [])
          → All IsU32 codes
          → unpack_words 11 (le32s (mode_words mode codes event_set_id) ++ [])
            ≡ some (mode_words mode codes event_set_id)
      as_words few p r =
          subst
            (λ n.
              unpack_words n (le32s (mode_words mode codes event_set_id) ++ [])
              ≡ some (mode_words mode codes event_set_id))
            (eleven few)
            (unpack_words-le32s (mode_words mode codes event_set_id) [] (
              All-append IsU32 (mode ∷ event_set_id ∷ length codes ∷ [])
                (codes ++ replicate (abi_event_slots - length codes) 0) p
                (All-append IsU32 codes (replicate (abi_event_slots - length codes) 0) r
                  (zeros-IsU32 (abi_event_slots - length codes)))))

      gap : ℕ
      gap = abi_event_slots - length codes

      whole_words :
          (head body : Bytes)
          → head ≡ le32s (mode ∷ event_set_id ∷ length codes ∷ [])
          → body ≡ le32s codes
          → head ++ body ++ replicate (4 * gap) 0 ≡ le32s (mode_words mode codes event_set_id)
      whole_words head body q s =
          rw (q, s, ← (le32s-zeros gap))
            (sym (
              le32s-append ((mode ∷ event_set_id ∷ length codes ∷ []) ++ codes) (replicate gap 0)
              ∙ ap (λ x. x ++ le32s (replicate gap 0))
                  (le32s-append (mode ∷ event_set_id ∷ length codes ∷ []) codes)))
