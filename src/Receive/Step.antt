-- ===== src/Receive/Step.antt =====
-- One round of `_try_parse`: what it does to the buffer.
use mps4_prototyping_board.Prelude.{
  ℕ, ◌+◌, ◌≤◌, ◌<◌, ◌≡◌, refl, sym, ◌∙◌, arith, none, some, length, drop, length-drop, drop-drop,
  Option-cases, inl, inr, ltb, Bool-cases, take, ◌⊎◌, ◌≢◌,
}
use mps4_prototyping_board.Bytes.{find, crc32}
use mps4_prototyping_board.Proto.{Frame, magic_bytes, header_len, max_payload}
use mps4_prototyping_board.Receive.{
  Receiver, skip, resync, harvest_text, deliver, wait, again, check_candidate, keep_tail, round,
  declared_len, read_u32, unpack_frame,
}

pub buf-skip : (n : ℕ) (r : Receiver) → (skip n r).buf ≡ drop n r.buf
unfolding skip
buf-skip n r = refl

pub skip_zero : (r : Receiver) → skip 0 r ≡ r
unfolding skip harvest_text
skip_zero r = refl

pub round-none : (r : Receiver) → find magic_bytes r.buf ≡ none → round r ≡ wait (keep_tail r)
unfolding round
round-none r h = rw (h, round) refl

pub round-some :
    (r : Receiver) (i : ℕ) → find magic_bytes r.buf ≡ some i → round r ≡ check_candidate (skip i r)
unfolding round
round-some r i h = rw (h, round) refl

-- A refused candidate is left by one byte, and it had a whole header.
pub check_candidate_again :
    (r r' : Receiver) → check_candidate r ≡ again r' → (r' ≡ resync r) × (16 ≤ length r.buf)
unfolding check_candidate
check_candidate_again r r' h = ground arith

length-resync-skip :
    (i : ℕ) (r : Receiver)
    → 16 ≤ length (skip i r).buf
    → length (resync (skip i r)).buf < length r.buf
unfolding resync skip
length-resync-skip i r q = omega (arith, length-drop i r.buf, length-drop 1 (drop i r.buf))

-- Going on to the next round takes at least a byte.
pub round_again_shorter : (r r' : Receiver) → round r ≡ again r' → length r'.buf < length r.buf
round_again_shorter r r' h = elim (Option-cases (find magic_bytes r.buf)) [
  | inl e ↦ cc (h, round-none r e)
  | inr (i, e) ↦
      let (p, q) = check_candidate_again (skip i r) r' (sym (round-some r i e) ∙ h) in
      rw p (length-resync-skip i r q)
]

buf-resync-skip : (i : ℕ) (r : Receiver) → (resync (skip i r)).buf ≡ drop (i + 1) r.buf
unfolding resync skip
buf-resync-skip i r = drop-drop 1 i r.buf

-- Going on leaves the buffer without some first bytes.
pub round_again_drop : (r r' : Receiver) → round r ≡ again r' → (n : ℕ) × (r'.buf ≡ drop n r.buf)
round_again_drop r r' h = elim (Option-cases (find magic_bytes r.buf)) [
  | inl e ↦ cc (h, round-none r e)
  | inr (i, e) ↦
      let (p, q) = check_candidate_again (skip i r) r' (sym (round-some r i e) ∙ h) in
      (i + 1, rw p (buf-resync-skip i r))
]

-- Where the magic has a whole frame behind it with a fitting CRC, the round delivers it.
pub check_candidate_deliver :
    (r : Receiver)
    → 16 ≤ length r.buf
    → declared_len r.buf ≤ max_payload
    → header_len + declared_len r.buf + 4 ≤ length r.buf
    → read_u32 (drop (header_len + declared_len r.buf) r.buf)
      ≡ crc32 (take (header_len + declared_len r.buf) r.buf)
    → check_candidate r
      ≡ deliver
          (unpack_frame r.buf)
          (record r { buf = drop (header_len + declared_len r.buf + 4) r.buf })
unfolding check_candidate
check_candidate_deliver r a b c d = ground arith

pub check_candidate-eq-deliver :
    (r r' : Receiver) (f : Frame)
    → check_candidate r ≡ deliver f r'
    → (16 ≤ length r.buf)
      × (declared_len r.buf ≤ max_payload)
      × (header_len + declared_len r.buf + 4 ≤ length r.buf)
      × (read_u32 (drop (header_len + declared_len r.buf) r.buf)
          ≡ crc32 (take (header_len + declared_len r.buf) r.buf))
      × (f ≡ unpack_frame r.buf)
      × (r' ≡ record r { buf = drop (header_len + declared_len r.buf + 4) r.buf })
unfolding check_candidate
check_candidate-eq-deliver r r' f h = ground arith

pub check_candidate-eq-again :
    (r r' : Receiver)
    → check_candidate r ≡ again r'
    → (r' ≡ resync r)
      × (16 ≤ length r.buf)
      × ((max_payload < declared_len r.buf)
          ⊎ ((header_len + declared_len r.buf + 4 ≤ length r.buf)
              × (read_u32 (drop (header_len + declared_len r.buf) r.buf)
                  ≢ crc32 (take (header_len + declared_len r.buf) r.buf))))
unfolding check_candidate
check_candidate-eq-again r r' h = (
  ground arith,
  ground arith,
  elim (Bool-cases (ltb max_payload (declared_len r.buf))) [
    | inl e ↦ inl (ground arith)
    | inr e ↦ inr (ground arith, ground arith)
  ],
)

-- Waiting at a candidate leaves everything as it is.
pub check_candidate-eq-wait : (r r' : Receiver) → check_candidate r ≡ wait r' → r' ≡ r
unfolding check_candidate
check_candidate-eq-wait r r' h = ground arith

-- A candidate is refused for a length over the cap, or for a CRC that does not fit.
pub check_candidate_refuse :
    (r : Receiver)
    → 16 ≤ length r.buf
    → (max_payload < declared_len r.buf)
      ⊎ ((header_len + declared_len r.buf + 4 ≤ length r.buf)
          × (read_u32 (drop (header_len + declared_len r.buf) r.buf)
              ≢ crc32 (take (header_len + declared_len r.buf) r.buf)))
    → check_candidate r ≡ again (resync r)
unfolding check_candidate
check_candidate_refuse r h (inl p) = ground arith
check_candidate_refuse r h (inr p) = ground arith
