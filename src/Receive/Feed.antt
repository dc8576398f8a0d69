-- ===== src/Receive/Feed.antt =====
-- One round of `_try_parse` (host/lib/runner_proto.py) when more bytes arrive behind.
use mps4_prototyping_board.Prelude.{
  ℕ, zero, suc, ◌+◌, ◌≤◌, ◌<◌, ◌≡◌, refl, sym, ap, ◌∙◌, arith, [], ◌∷◌, ◌++◌, some, length,
  length-append, length-drop, take, drop, take-append_le, drop-append_le, Option-cases, inl, inr,
  get_or,
}
use mps4_prototyping_board.Bytes.{Bytes, find}
use mps4_prototyping_board.Bytes.Find.{find-starts, find-append_some, find_zero}
use mps4_prototyping_board.Proto.{Frame, magic_bytes, header_len}
use mps4_prototyping_board.Receive.{
  Receiver, harvest_text, skip, resync, deliver, wait, again, check_candidate, round, declared_len,
  read_u32, unpack_frame, feed,
}
use mps4_prototyping_board.Receive.Step.{
  round-none, round-some, check_candidate_deliver, check_candidate-eq-deliver, skip_zero,
  check_candidate-eq-again, check_candidate_refuse, check_candidate-eq-wait,
}

read_u32-append : (bs more : Bytes) → 4 ≤ length bs → read_u32 (bs ++ more) ≡ read_u32 bs
unfolding read_u32
read_u32-append (a ∷ b ∷ c ∷ d ∷ rest) more h = refl
read_u32-append _ more h = absurd (omega arith)

-- A field that stands whole in the buffer is read the same when bytes are added behind.
read_u32-drop-append :
    (n : ℕ) (bs more : Bytes)
    → n + 4 ≤ length bs
    → read_u32 (drop n (bs ++ more)) ≡ read_u32 (drop n bs)
read_u32-drop-append n bs more h =
    rw (drop-append_le n bs more (omega arith))
      (read_u32-append (drop n bs) more (omega (arith, length-drop n bs)))

get_or-append : (n : ℕ) (bs more : Bytes) → n < length bs → get_or (bs ++ more) n 0 ≡ get_or bs n 0
get_or-append n [] more h = absurd (omega arith)
get_or-append zero (b ∷ bs) more h = refl
get_or-append (suc n) (b ∷ bs) more h = get_or-append n bs more (omega arith)

module _ (more : Bytes) where
  skip-feed :
      (n : ℕ) (r : Receiver) → n ≤ length r.buf → skip n (feed more r) ≡ feed more (skip n r)
  unfolding skip harvest_text
  skip-feed zero r h = refl
  skip-feed (suc n) r h =
      rw (take-append_le (suc n) r.buf more h, drop-append_le (suc n) r.buf more h) refl

  resync-feed : (r : Receiver) → 16 ≤ length r.buf → resync (feed more r) ≡ feed more (resync r)
  unfolding resync
  resync-feed r h = skip-feed 1 (record r { resyncs = r.resyncs + 1 }) (omega arith)

  declared_len-feed : (bs : Bytes) → 16 ≤ length bs → declared_len (bs ++ more) ≡ declared_len bs
  declared_len-feed bs h = read_u32-drop-append 12 bs more (omega arith)

  unpack_frame-feed :
      (bs : Bytes)
      → header_len + declared_len bs ≤ length bs
      → unpack_frame (bs ++ more) ≡ unpack_frame bs
  unfolding unpack_frame
  unpack_frame-feed bs h =
      rw
        (
          get_or-append 4 bs more (omega arith),
          get_or-append 5 bs more (omega arith),
          get_or-append 6 bs more (omega arith),
          get_or-append 7 bs more (omega arith),
          read_u32-drop-append 8 bs more (omega arith),
          declared_len-feed bs (omega arith),
          drop-append_le header_len bs more (omega arith),
          take-append_le (declared_len bs) (drop header_len bs) more
              (omega (arith, length-drop header_len bs)),
        )
        refl

  -- The stored CRC and the bytes that it covers.
  crc-feed :
      (bs : Bytes)
      → header_len + declared_len bs + 4 ≤ length bs
      → (read_u32 (drop (header_len + declared_len bs) (bs ++ more))
          ≡ read_u32 (drop (header_len + declared_len bs) bs))
        × (take (header_len + declared_len bs) (bs ++ more)
            ≡ take (header_len + declared_len bs) bs)
  crc-feed bs h = (
    read_u32-drop-append (header_len + declared_len bs) bs more (omega arith),
    take-append_le (header_len + declared_len bs) bs more (omega arith),
  )

  check_candidate-feed_deliver :
      (r r' : Receiver) (f : Frame)
      → check_candidate r ≡ deliver f r'
      → check_candidate (feed more r) ≡ deliver f (feed more r')
  check_candidate-feed_deliver r r' f h =
      let (whole, short, fits, crc, ef, er) = check_candidate-eq-deliver r r' f h in
      let (stored, covered) = crc-feed r.buf fits in
      let d = declared_len-feed r.buf whole in
      check_candidate_deliver (feed more r) (omega (arith, length-append r.buf more)) (rw d short)
        (rw d (omega (arith, length-append r.buf more))) (rw (d, stored, covered) crc)
      ∙ rw
          (
            d,
            unpack_frame-feed r.buf (omega arith),
            drop-append_le (header_len + declared_len r.buf + 4) r.buf more fits,
            ef,
            er,
          )
          refl

  check_candidate-feed_again :
      (r r' : Receiver)
      → check_candidate r ≡ again r'
      → check_candidate (feed more r) ≡ again (feed more r')
  check_candidate-feed_again r r' h =
      let (er, whole, why) = check_candidate-eq-again r r' h in
      let d = declared_len-feed r.buf whole in
      check_candidate_refuse (feed more r) (omega (arith, length-append r.buf more)) (elim why [
        | inl long ↦ inl (rw d long)
        | inr (fits, differs) ↦
            let (stored, covered) = crc-feed r.buf fits in
            inr (rw d (omega (arith, length-append r.buf more)), rw (d, stored, covered) differs)
      ])
      ∙ ap again (resync-feed r whole ∙ ap (feed more) (sym er))

  -- The magic that was found is found again, and the receiver goes to it by the same bytes.
  round-feed-some :
      (r : Receiver) (i : ℕ)
      → find magic_bytes r.buf ≡ some i
      → round (feed more r) ≡ check_candidate (feed more (skip i r))
  round-feed-some r i e =
      round-some (feed more r) i (find-append_some magic_bytes r.buf more i e)
      ∙ ap check_candidate (skip-feed i r (omega (arith, (find-starts magic_bytes r.buf i e).1)))

  pub round-feed_deliver :
      (r r' : Receiver) (f : Frame)
      → round r ≡ deliver f r'
      → round (feed more r) ≡ deliver f (feed more r')
  round-feed_deliver r r' f h = elim (Option-cases (find magic_bytes r.buf)) [
    | inl e ↦ cc (h, round-none r e)
    | inr (i, e) ↦
        round-feed-some r i e
        ∙ check_candidate-feed_deliver (skip i r) r' f (sym (round-some r i e) ∙ h)
  ]

  pub round-feed_again :
      (r r' : Receiver) → round r ≡ again r' → round (feed more r) ≡ again (feed more r')
  round-feed_again r r' h = elim (Option-cases (find magic_bytes r.buf)) [
    | inl e ↦ cc (h, round-none r e)
    | inr (i, e) ↦
        round-feed-some r i e
        ∙ check_candidate-feed_again (skip i r) r' (sym (round-some r i e) ∙ h)
  ]

  find_at_start :
      (r : Receiver) (i : ℕ)
      → find magic_bytes r.buf ≡ some i
      → find magic_bytes ((skip i r).buf ++ more) ≡ some 0
  unfolding skip
  find_at_start r i e =
      find-append_some magic_bytes (drop i r.buf) more 0
        (find_zero magic_bytes (drop i r.buf) (omega arith) (find-starts magic_bytes r.buf i e).0)

  -- Waiting at a candidate: the round that follows stands at it.
  pub round-feed_wait_some :
      (r r' : Receiver) (i : ℕ)
      → find magic_bytes r.buf ≡ some i
      → round r ≡ wait r'
      → round (feed more r) ≡ round (feed more r')
  round-feed_wait_some r r' i e h =
      let p = check_candidate-eq-wait (skip i r) r' (sym (round-some r i e) ∙ h) in
      round-feed-some r i e
      ∙ ap check_candidate (sym (skip_zero (feed more (skip i r))))
      ∙ sym (round-some (feed more (skip i r)) 0 (find_at_start r i e))
      ∙ ap (λ s. round (feed more s)) (sym p)
