-- ===== src/Receive/Stream.antt =====
-- `_try_parse` (host/lib/runner_proto.py) over the chunks of the UART.
use mps4_prototyping_board.Prelude.{
  ℕ, zero, suc, ◌≡◌, refl, sym, ap, ◌∙◌, List, [], ◌∷◌, ◌++◌, Option, none, some, length, arith,
  Option-cases, inl, inr,
}
use mps4_prototyping_board.Bytes.{Bytes, find}
use mps4_prototyping_board.Proto.{Frame, magic_bytes}
use mps4_prototyping_board.Receive.{Receiver, keep_tail, wait, round, parse_loop, try_parse, feed}
use mps4_prototyping_board.Receive.Step.{round-none}
use mps4_prototyping_board.Receive.Fuel.{
  Round-cases, parse_loop_deliver, parse_loop_wait, parse_loop_again, try_parse_deliver,
  try_parse_again,
}
use mps4_prototyping_board.Receive.Relog.{log_of, view, round-relog, view-try_parse-relog}
use mps4_prototyping_board.Receive.Feed.{round-feed_deliver, round-feed_again, round-feed_wait_some}
use mps4_prototyping_board.Receive.Tail.{round-feed_wait_none, relog_same, relog_round-log_of}

-- `Drains r fs s`: from `r`, calls of `_try_parse` return the frames `fs` and then None, leaving `s`.
pub data Drains : Receiver → List Frame → Receiver → Type 0 where
  done : {r s : Receiver} → try_parse r ≡ some (none, s) → Drains r [] s
  next :
      {r : Receiver} {f : Frame} {fs : List Frame} (r' : Receiver) {s : Receiver}
      → try_parse r ≡ some (some f, r')
      → Drains r' fs s
      → Drains r (f ∷ fs) s

-- The same buffer and count of resyncs, and any log.
pub record Same (r s : Receiver) : Type 0 where
  pub buf : r.buf ≡ s.buf
  pub resyncs : r.resyncs ≡ s.resyncs

view-eq-some :
    (p : Option (Option Frame × Receiver)) (o : Option Frame) (s : Receiver)
    → view p ≡ some (o, s.buf, s.resyncs)
    → (s' : Receiver) × (p ≡ some (o, s')) × Same s' s
view-eq-some none o s h = cc h
view-eq-some (some (o', s')) o s h =
    (s', rw first refl, record { buf = ground (arith, h); resyncs = ground (arith, h) })
  where
    first : o' ≡ o
    first = ground (arith, h)

Same-try_parse : (r s : Receiver) → Same r s → view (try_parse r) ≡ view (try_parse s)
Same-try_parse r s e =
    let (log, p) = round-relog r.text_log s in
    view-try_parse-relog s r log (ap round (relog_same r s e.buf e.resyncs) ∙ p)

Same-Drains :
    (r r' : Receiver) {fs : List Frame} {s : Receiver}
    → Same r' r
    → Drains r fs s
    → (s' : Receiver) × Drains r' fs s' × Same s' s
Same-Drains r r' {s = s} e (done h) =
    let (s', p, q) = view-eq-some (try_parse r') none s (Same-try_parse r' r e ∙ ap view h) in
    (s', done p, q)
Same-Drains r r' e (next {f = f} t h d) =
    let (t', p, q) = view-eq-some (try_parse r') (some f) t (Same-try_parse r' r e ∙ ap view h) in
    let (s', d', q') = Same-Drains t t' q d in (s', next t' p d', q')

module _ (more : Bytes) where
  -- A frame that was delivered is delivered all the same when more bytes wait behind it.
  try_parse-feed-some :
      (k : ℕ) (r s : Receiver) (f : Frame)
      → parse_loop k r ≡ some (some f, s)
      → try_parse (feed more r) ≡ some (some f, feed more s)
  try_parse-feed-some zero r s f h = unfold parse_loop in cc h
  try_parse-feed-some (suc k) r s f h = elim (Round-cases (round r)) [
    | inl (g, t, e) ↦
        try_parse_deliver (feed more r) (feed more s) f
          (round-feed_deliver more r s f (cc (e, h, parse_loop_deliver k r t g e)))
    | inr (inl (t, e)) ↦ cc (h, parse_loop_wait k r t e)
    | inr (inr (t, e)) ↦
        try_parse_again (feed more r) (feed more t) (round-feed_again more r t e)
        ∙ try_parse-feed-some k t s f (sym (parse_loop_again k r t e) ∙ h)
  ]

  round-feed_wait :
      (r s : Receiver)
      → round r ≡ wait s
      → view (try_parse (feed more r)) ≡ view (try_parse (feed more s))
  round-feed_wait r s h = elim (Option-cases (find magic_bytes r.buf)) [
    | inl e ↦
        let (log, p) = round-feed_wait_none more r e in
        let q : s ≡ keep_tail r = ground (arith, round-none r e) in
        rw q (view-try_parse-relog (feed more (keep_tail r)) (feed more r) log p)
    | inr (i, e) ↦
        let d = round (feed more s) in
        view-try_parse-relog (feed more s) (feed more r) (log_of d)
          (round-feed_wait_some more r s i e h ∙ relog_round-log_of d)
  ]

  -- Giving up on what is there loses nothing of what follows.
  try_parse-feed-none :
      (k : ℕ) (r s : Receiver)
      → parse_loop k r ≡ some (none, s)
      → view (try_parse (feed more r)) ≡ view (try_parse (feed more s))
  try_parse-feed-none zero r s h = unfold parse_loop in cc h
  try_parse-feed-none (suc k) r s h = elim (Round-cases (round r)) [
    | inl (g, t, e) ↦ cc (h, parse_loop_deliver k r t g e)
    | inr (inl (t, e)) ↦ round-feed_wait r s (cc (e, h, parse_loop_wait k r t e))
    | inr (inr (t, e)) ↦
        ap view (try_parse_again (feed more r) (feed more t) (round-feed_again more r t e))
        ∙ try_parse-feed-none k t s (sym (parse_loop_again k r t e) ∙ h)
  ]

-- The first frame after a None is the same whether the bytes before it were given up or not.
Drains-feed :
    (more : Bytes) (r s : Receiver) {fs : List Frame} {t : Receiver}
    → view (try_parse (feed more r)) ≡ view (try_parse (feed more s))
    → Drains (feed more s) fs t
    → (t' : Receiver) × Drains (feed more r) fs t' × Same t' t
Drains-feed more r s {t = t} e (done h) =
    let (t', p, q) = view-eq-some (try_parse (feed more r)) none t (e ∙ ap view h) in
    (t', done p, q)
Drains-feed more r s e (next {f = f} u h d) =
    let (u', p, q) = view-eq-some (try_parse (feed more r)) (some f) u (e ∙ ap view h) in
    let (t', d', q') = Same-Drains u u' q d in (t', next u' p d', q')

-- If the frames `fs` come out of the buffer and, after `more` has arrived, the frames `gs`, then all
-- of them come out, in that order, when `more` was there from the start; the bytes that are left
-- and the count of resyncs are the same.
pub chunk_independence :
    (more : Bytes) (r s t : Receiver) {fs gs : List Frame}
    → Drains r fs s
    → Drains (feed more s) gs t
    → (t' : Receiver) × Drains (feed more r) (fs ++ gs) t' × Same t' t
unfolding try_parse
chunk_independence more r s t (done h) d =
    Drains-feed more r s (try_parse-feed-none more (suc (length r.buf)) r s h) d
chunk_independence more r s t (next {f = f} u h d) e =
    let (t', d', q) = chunk_independence more u s t d e in
    (t', next (feed more u) (try_parse-feed-some more (suc (length r.buf)) r u f h) d', q)
