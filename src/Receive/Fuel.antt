-- ===== src/Receive/Fuel.antt =====
-- The loop of `_try_parse` (host/lib/runner_proto.py) and its fuel.
use mps4_prototyping_board.Prelude.{
  ℕ, zero, suc, ◌<◌, ◌≡◌, refl, ◌∙◌, arith, ◌⊎◌, inl, inr, Option, none, some, length,
}
use mps4_prototyping_board.Proto.{Frame}
use mps4_prototyping_board.Receive.{
  Receiver, Round, deliver, wait, again, round, parse_loop, try_parse,
}
use mps4_prototyping_board.Receive.Step.{round_again_shorter}

pub Round-cases :
    (d : Round)
    → ((f : Frame) × (r' : Receiver) × (d ≡ deliver f r'))
      ⊎ (((r' : Receiver) × (d ≡ wait r')) ⊎ ((r' : Receiver) × (d ≡ again r')))
Round-cases (deliver f r') = inl (f, r', refl)
Round-cases (wait r') = inr (inl (r', refl))
Round-cases (again r') = inr (inr (r', refl))

module _ (k : ℕ) (r r' : Receiver) where
  pub parse_loop_deliver :
      (f : Frame) → round r ≡ deliver f r' → parse_loop (suc k) r ≡ some (some f, r')
  unfolding parse_loop
  parse_loop_deliver f h = rw (h, parse_loop) refl

  pub parse_loop_wait : round r ≡ wait r' → parse_loop (suc k) r ≡ some (none, r')
  unfolding parse_loop
  parse_loop_wait h = rw (h, parse_loop) refl

  pub parse_loop_again : round r ≡ again r' → parse_loop (suc k) r ≡ parse_loop k r'
  unfolding parse_loop
  parse_loop_again h = rw (h, parse_loop) refl

-- Any two fuels above the buffer's length give one result.
pub parse_loop-fuel :
    (k m : ℕ) (r : Receiver) → length r.buf < k → length r.buf < m → parse_loop k r ≡ parse_loop m r
unfolding parse_loop
parse_loop-fuel zero m r p q = elim p [ ]
parse_loop-fuel (suc k) zero r p q = elim q [ ]
parse_loop-fuel (suc k) (suc m) r p q = elim (Round-cases (round r)) [
  | inl (f, r', e) ↦ rw (e, parse_loop) refl
  | inr (inl (r', e)) ↦ rw (e, parse_loop) refl
  | inr (inr (r', e)) ↦
      let h = round_again_shorter r r' e in
      rw (e, parse_loop) (parse_loop-fuel k m r' (omega arith) (omega arith))
]

-- The result of `_try_parse` by what its first round does.
pub try_parse_deliver :
    (r r' : Receiver) (f : Frame) → round r ≡ deliver f r' → try_parse r ≡ some (some f, r')
unfolding try_parse parse_loop
try_parse_deliver r r' f h = rw (h, parse_loop) refl

pub try_parse_wait : (r r' : Receiver) → round r ≡ wait r' → try_parse r ≡ some (none, r')
unfolding try_parse parse_loop
try_parse_wait r r' h = rw (h, parse_loop) refl

pub try_parse_again : (r r' : Receiver) → round r ≡ again r' → try_parse r ≡ try_parse r'
try_parse_again r r' h =
    first_round h
    ∙ parse_loop-fuel (length r.buf) (suc (length r'.buf)) r' (round_again_shorter r r' h)
        (omega arith)
    ∙ unfold try_parse in refl
  where
    first_round : round r ≡ again r' → try_parse r ≡ parse_loop (length r.buf) r'
    first_round h = unfold try_parse parse_loop in rw (h, parse_loop) refl

parse_loop_total :
    (k : ℕ) (r : Receiver)
    → length r.buf < k
    → (o : Option Frame) × (r' : Receiver) × (parse_loop k r ≡ some (o, r'))
unfolding parse_loop
parse_loop_total zero r p = elim p [ ]
parse_loop_total (suc k) r p = elim (Round-cases (round r)) [
  | inl (f, r', e) ↦ (some f, r', rw (e, parse_loop) refl)
  | inr (inl (r', e)) ↦ (none, r', rw (e, parse_loop) refl)
  | inr (inr (r', e)) ↦
      let h = round_again_shorter r r' e in rw (e, parse_loop) (parse_loop_total k r' (omega arith))
]

-- `_try_parse` returns, with a frame or without one, whatever the buffer holds.
pub try_parse_total :
    (r : Receiver) → (o : Option Frame) × (r' : Receiver) × (try_parse r ≡ some (o, r'))
unfolding try_parse
try_parse_total r = parse_loop_total (suc (length r.buf)) r (omega arith)
