-- ===== src/Receive/Relog.antt =====
-- `_try_parse` (host/lib/runner_proto.py) and the text log, which it writes.
use mps4_prototyping_board.Prelude.{
  ℕ, zero, suc, ◌+◌, ◌-◌, ◌≡◌, refl, sym, ap, ◌∙◌, arith, List, Option, none, some, length,
  Option-cases, inl, inr,
}
use mps4_prototyping_board.Bytes.{Bytes, find}
use mps4_prototyping_board.Proto.{Frame, magic_bytes}
use mps4_prototyping_board.Receive.{
  Receiver, harvest_text, skip, resync, keep_tail, Round, deliver, wait, again, check_candidate,
  round, parse_loop, try_parse,
}
use mps4_prototyping_board.Receive.Text.{Line}
use mps4_prototyping_board.Receive.Step.{round-none, round-some}
use mps4_prototyping_board.Receive.Fuel.{
  Round-cases, parse_loop_deliver, parse_loop_wait, parse_loop_again, parse_loop-fuel,
}

abbrev pub relog : List Line → Receiver → Receiver
relog log r = record r { text_log = log }

abbrev pub relog_round : List Line → Round → Round
relog_round log (deliver f r) = deliver f (relog log r)
relog_round log (wait r) = wait (relog log r)
relog_round log (again r) = again (relog log r)

-- What a round leaves in the log.
abbrev pub log_of : Round → List Line
log_of (deliver f r) = r.text_log
log_of (wait r) = r.text_log
log_of (again r) = r.text_log

resync-relog :
    (log : List Line) (r : Receiver)
    → resync (relog log r) ≡ relog (resync (relog log r)).text_log (resync r)
unfolding resync skip harvest_text
resync-relog log r = refl

pub check_candidate-relog :
    (log : List Line) (r : Receiver)
    → check_candidate (relog log r)
      ≡ relog_round (log_of (check_candidate (relog log r))) (check_candidate r)
unfolding check_candidate
check_candidate-relog log r = ground (arith, resync-relog log r)

skip-relog :
    (n : ℕ) (log : List Line) (r : Receiver)
    → skip n (relog log r) ≡ relog (skip n (relog log r)).text_log (skip n r)
unfolding skip harvest_text
skip-relog zero log r = refl
skip-relog (suc n) log r = refl

keep_tail-relog :
    (log : List Line) (r : Receiver)
    → keep_tail (relog log r) ≡ relog (keep_tail (relog log r)).text_log (keep_tail r)
unfolding keep_tail
keep_tail-relog log r = ground (arith, skip-relog (length r.buf - 3) log r)

pub round-relog :
    (log : List Line) (r : Receiver)
    → (log' : List Line) × (round (relog log r) ≡ relog_round log' (round r))
round-relog log r = elim (Option-cases (find magic_bytes r.buf)) [
  | inl e ↦ (
    (keep_tail (relog log r)).text_log,
    round-none (relog log r) e
        ∙ ap wait (keep_tail-relog log r)
        ∙ ap (relog_round (keep_tail (relog log r)).text_log) (sym (round-none r e)),
  )
  | inr (i, e) ↦
      let l = (skip i (relog log r)).text_log in
      let l' = log_of (check_candidate (relog l (skip i r))) in
      (
        l',
        round-some (relog log r) i e
            ∙ ap check_candidate (skip-relog i log r)
            ∙ check_candidate-relog l (skip i r)
            ∙ ap (relog_round l') (sym (round-some r i e)),
      )
]

-- What the caller can see of a result, but for the log.
abbrev pub view : Option (Option Frame × Receiver) → Option (Option Frame × Bytes × ℕ)
view none = none
view (some (o, r)) = some (o, r.buf, r.resyncs)

-- Rounds that differ in the log alone lead to results that differ in the log alone.
pub view-parse_loop-relog :
    (k : ℕ) (r s : Receiver) (log : List Line)
    → round s ≡ relog_round log (round r)
    → view (parse_loop k s) ≡ view (parse_loop k r)
view-parse_loop-relog zero r s log h = unfold parse_loop in refl
view-parse_loop-relog (suc k) r s log h = elim (Round-cases (round r)) [
  | inl (f, r', e) ↦
      rw
        (
          parse_loop_deliver k r r' f e,
          parse_loop_deliver k s (relog log r') f (h ∙ ap (relog_round log) e),
        )
        refl
  | inr (inl (r', e)) ↦
      rw (parse_loop_wait k r r' e, parse_loop_wait k s (relog log r') (h ∙ ap (relog_round log) e))
        refl
  | inr (inr (r', e)) ↦
      let (log', p) = round-relog log r' in
      rw
        (
          parse_loop_again k r r' e,
          parse_loop_again k s (relog log r') (h ∙ ap (relog_round log) e),
        )
        (view-parse_loop-relog k r' (relog log r') log' p)
]

pub view-try_parse-relog :
    (r s : Receiver) (log : List Line)
    → round s ≡ relog_round log (round r)
    → view (try_parse s) ≡ view (try_parse r)
unfolding try_parse
view-try_parse-relog r s log h =
    let k = suc (length r.buf + length s.buf) in
    rw
      (
        parse_loop-fuel (suc (length s.buf)) k s (omega arith) (omega arith),
        parse_loop-fuel (suc (length r.buf)) k r (omega arith) (omega arith),
      )
      (view-parse_loop-relog k r s log h)
