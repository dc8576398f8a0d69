-- ===== src/Receive/Tail.antt =====
-- The three bytes that `_try_parse` (host/lib/runner_proto.py) keeps where there is no magic.
use mps4_prototyping_board.Prelude.{
  ℕ, zero, suc, ◌+◌, ◌-◌, ◌≤◌, ◌≡◌, refl, sym, ap, ◌∙◌, arith, List, ◌++◌, none, length,
  length-append, length-drop, drop, drop-drop, drop-append_le, Option-cases, inl, inr, ltb,
  Bool-cases, ltb→lt, ltb-false→le,
}
use mps4_prototyping_board.Bytes.{Bytes, find}
use mps4_prototyping_board.Bytes.Find.{find-append_none}
use mps4_prototyping_board.Proto.{magic_bytes}
use mps4_prototyping_board.Receive.{
  Receiver, harvest_text, skip, keep_tail, Round, deliver, wait, again, check_candidate, round,
  feed,
}
use mps4_prototyping_board.Receive.Text.{Line}
use mps4_prototyping_board.Receive.Step.{round-none, round-some}
use mps4_prototyping_board.Receive.Relog.{relog, relog_round, log_of, check_candidate-relog}
use mathlib.Core.Option

pub relog_same : (r s : Receiver) → r.buf ≡ s.buf → r.resyncs ≡ s.resyncs → r ≡ relog r.text_log s
relog_same r s p q = λ i. record { buf = p i; text_log = r.text_log; resyncs = q i }

pub relog_round-log_of : (d : Round) → d ≡ relog_round (log_of d) d
relog_round-log_of (deliver f r) = refl
relog_round-log_of (wait r) = refl
relog_round-log_of (again r) = refl

resyncs-skip : (n : ℕ) (r : Receiver) → (skip n r).resyncs ≡ r.resyncs
unfolding skip harvest_text
resyncs-skip zero r = refl
resyncs-skip (suc n) r = refl

resyncs-keep_tail : (r : Receiver) → (keep_tail r).resyncs ≡ r.resyncs
unfolding keep_tail
resyncs-keep_tail r = ground (arith, resyncs-skip (length r.buf - 3) r)

buf-keep_tail : (r : Receiver) → (keep_tail r).buf ≡ drop (length r.buf - 3) r.buf
unfolding keep_tail skip
buf-keep_tail r = elim (Bool-cases (ltb 3 (length r.buf))) [
  | inl e ↦ rw e refl
  | inr e ↦
      let z : length r.buf - 3 ≡ 0 = omega (arith, ltb-false→le 3 (length r.buf) e) in
      rw (e, z) refl
]

module _ (more : Bytes) (r : Receiver) (d : ℕ) (short : d ≤ length r.buf) where
  buf-feed-skip : (feed more (skip d r)).buf ≡ drop d (feed more r).buf
  unfolding skip
  buf-feed-skip = sym (drop-append_le d r.buf more short)

  keep_tail-feed-skip :
      d + 3 ≤ length r.buf
      → keep_tail (feed more r)
        ≡ relog (keep_tail (feed more r)).text_log (keep_tail (feed more (skip d r)))
  keep_tail-feed-skip room =
      relog_same (keep_tail (feed more r)) (keep_tail (feed more (skip d r)))
        (rw
          (
            buf-keep_tail (feed more r),
            buf-keep_tail (feed more (skip d r)),
            buf-feed-skip,
            drop-drop (length (drop d (r.buf ++ more)) - 3) d (r.buf ++ more),
          )
          (ap (λ (k : ℕ). drop k (r.buf ++ more))
            (omega (arith, length-append r.buf more, length-drop d (r.buf ++ more)))))
        (rw
          (
            resyncs-keep_tail (feed more r),
            resyncs-keep_tail (feed more (skip d r)),
            resyncs-skip d r,
          )
          refl)

  skip-feed-skip :
      (i : ℕ)
      → skip (d + i) (feed more r)
        ≡ relog (skip (d + i) (feed more r)).text_log (skip i (feed more (skip d r)))
  skip-feed-skip i =
      relog_same (skip (d + i) (feed more r)) (skip i (feed more (skip d r)))
        (unfold skip in
          sym (drop-drop i d (r.buf ++ more)) ∙ ap (drop i) (drop-append_le d r.buf more short))
        (rw
          (
            resyncs-skip (d + i) (feed more r),
            resyncs-skip i (feed more (skip d r)),
            resyncs-skip d r,
          )
          refl)

  round-feed-skip :
      find magic_bytes r.buf ≡ none
      → d + 3 ≤ length r.buf
      → (log : List Line) × (round (feed more r) ≡ relog_round log (round (feed more (skip d r))))
  round-feed-skip e room = elim (Option-cases (find magic_bytes (feed more (skip d r)).buf)) [
    | inl f ↦ (
      (keep_tail (feed more r)).text_log,
      round-none (feed more r) (shifted ∙ ap (Option.map (λ i. d + i)) f)
          ∙ ap wait (keep_tail-feed-skip room)
          ∙ ap (relog_round (keep_tail (feed more r)).text_log)
              (sym (round-none (feed more (skip d r)) f)),
    )
    | inr (i, f) ↦
        let l = (skip (d + i) (feed more r)).text_log in
        let l' = log_of (check_candidate (relog l (skip i (feed more (skip d r))))) in
        (
          l',
          round-some (feed more r) (d + i) (shifted ∙ ap (Option.map (λ i. d + i)) f)
              ∙ ap check_candidate (skip-feed-skip i)
              ∙ check_candidate-relog l (skip i (feed more (skip d r)))
              ∙ ap (relog_round l') (sym (round-some (feed more (skip d r)) i f)),
        )
  ]
    where
      shifted :
          find magic_bytes (r.buf ++ more)
          ≡ Option.map (λ i. d + i) (find magic_bytes (feed more (skip d r)).buf)
      shifted =
          find-append_none magic_bytes r.buf more d e (omega arith) (omega arith)
          ∙ ap (λ (b : Bytes). Option.map (λ i. d + i) (find magic_bytes b)) (unfold skip in refl)

-- Waiting without a magic: the rounds that follow differ in the log alone.
pub round-feed_wait_none :
    (more : Bytes) (r : Receiver)
    → find magic_bytes r.buf ≡ none
    → (log : List Line) × (round (feed more r) ≡ relog_round log (round (feed more (keep_tail r))))
unfolding keep_tail
round-feed_wait_none more r e = elim (Bool-cases (ltb 3 (length r.buf))) [
  | inl long ↦
      let h = ltb→lt 3 (length r.buf) long in
      rw long (round-feed-skip more r (length r.buf - 3) (omega arith) e (omega arith))
  | inr short ↦ rw short (log_of (round (feed more r)), relog_round-log_of (round (feed more r)))
]
