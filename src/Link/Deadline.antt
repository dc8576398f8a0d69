-- ===== src/Link/Deadline.antt =====
-- `RunnerLink.read_frame` (host/lib/runner_proto.py): its deadline.
use mps4_prototyping_board.Prelude.{
  ℕ, ◌+◌, ◌<◌, ◌≤◌, ◌≡◌, ◌≢◌, refl, sym, subst, ap, ◌∙◌, arith, List, [], ◌∷◌, ◌++◌, append_assoc,
  false, Bool-cases, Option-cases, inl, inr, ltb, some, err, Result,
}
use mps4_prototyping_board.Proto.{Frame}
use mps4_prototyping_board.Receive.Fuel.{try_parse_total}
use mps4_prototyping_board.Link.{
  Link, LinkError, out_of_fuel, receive, read_loop, read_from, read_frame,
}
use mps4_prototyping_board.Link.Live.{loop_got, loop_waits}

-- The call ended with a frame or an error of the code, and with the readings that it had not taken, among
-- them all of `rest`.
abbrev pub EndsBefore : List ℕ → Result LinkError Frame × Link → Type 0
EndsBefore rest (r, l) = (r ≢ err out_of_fuel) × ((left : List ℕ) × (l.clock ≡ left ++ rest))

module _ (deadline late : ℕ) (rest : List ℕ) (passed : deadline ≤ late) where
  read_loop-EndsBefore :
      (earlier : List ℕ) (l : Link)
      → EndsBefore rest (read_loop (earlier ++ late ∷ rest) deadline l)
  unfolding read_loop
  read_loop-EndsBefore [] l =
      let over : ltb late deadline ≡ false = ground arith in
      rw (over, read_loop) (λ h. cc h, ([], refl))
  read_loop-EndsBefore (now ∷ earlier) l = elim (Bool-cases (ltb now deadline)) [
    | inr e ↦
        rw (e, read_loop)
          (λ h. cc h, (earlier ++ late ∷ [], sym (append_assoc earlier (late ∷ []) rest)))
    | inl e ↦
        let early : now < deadline = ground (arith, e) in
        let later = earlier ++ late ∷ rest in
        let (o, t, p) = try_parse_total l.receiver in
        elim (Option-cases o) [
          | inr (f, q) ↦
              let got = loop_got now deadline later l early f t (p ∙ ap (λ z. some (z, t)) q) in
              subst (EndsBefore rest) (sym got)
                (λ h. cc h, (earlier ++ late ∷ [], sym (append_assoc earlier (late ∷ []) rest)))
          | inl q ↦
              let waits = loop_waits now deadline later l early t (p ∙ ap (λ z. some (z, t)) q) in
              subst (EndsBefore rest) (sym waits)
                (read_loop-EndsBefore earlier (receive (record l { receiver = t; clock = later })))
        ]
  ]

-- Where a reading of the clock behind the first is at the deadline or past it, `read_frame` ends, with a frame or
-- an error of the code, and takes no reading behind that one, whatever the port returns and however long
-- the trace goes on.
pub clock-read_frame :
    (timeout now late : ℕ) (earlier rest : List ℕ) (l : Link)
    → l.clock ≡ now ∷ earlier ++ late ∷ rest
    → now + timeout ≤ late
    → EndsBefore rest (read_frame timeout l)
unfolding read_frame read_from
clock-read_frame timeout now late earlier rest l clock passed =
    subst (λ c. EndsBefore rest (read_from c timeout l)) (sym clock)
      (read_loop-EndsBefore (now + timeout) late rest passed earlier l)
