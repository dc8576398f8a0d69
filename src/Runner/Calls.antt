-- ===== src/Runner/Calls.antt =====
-- firmware/gate/check_runner.py, `_register_offset_call`: the calls that it looks for.
use mps4_prototyping_board.Prelude.{
  ◌≡◌, ◌↔◌, ◌⊎◌, inl, inr, refl, sym, ap, ◌∙◌, List, [], ◌∷◌, ◌++◌, Bool, true, false, not, ◌&&◌,
  ◌||◌, Bool-cases, Name, All, append_assoc, and_true, All-append, subst,
}
use mathlib.Core.List.{reverse, reverse_aux, reverse-cons, reverse-append, reverse-reverse}
use mps4_prototyping_board.Runner.{AsmLine, takes_register, call_after, register_offset_call}

-- A line that is no call and writes no offset.
abbrev pub IsQuiet : AsmLine → Type 0
IsQuiet l = (l.is_bl ≡ false) × (l.writes_r0 ≡ false)

-- A line that is no call and writes an offset that is no constant.
abbrev pub Computes : AsmLine → Type 0
Computes l = (l.is_bl ≡ false) × (l.writes_r0 ≡ true) × (l.immediate_r0 ≡ false)

-- Some line before is `Computes` and all lines nearer are quiet.
abbrev Reaches : List AsmLine → Type 0
Reaches before =
    (near : List AsmLine) × (w : AsmLine) × (far : List AsmLine) × (before ≡ near ++ w ∷ far)
    × All IsQuiet near
    × Computes w

-- The three cases of the loop.
module _ (l : AsmLine) (ls : List AsmLine) where
  takes_call : l.is_bl ≡ true → takes_register (l ∷ ls) ≡ false
  unfolding takes_register
  takes_call e = rw e refl

  takes_write : l.is_bl ≡ false → l.writes_r0 ≡ true → takes_register (l ∷ ls) ≡ not l.immediate_r0
  unfolding takes_register
  takes_write e f = rw (e, f) refl

  takes_quiet : l.is_bl ≡ false → l.writes_r0 ≡ false → takes_register (l ∷ ls) ≡ takes_register ls
  unfolding takes_register
  takes_quiet e f = rw (e, f) refl

takes_register_iff : (before : List AsmLine) → (takes_register before ≡ true) ↔ Reaches before
unfolding takes_register
takes_register_iff [] = (λ h. cc h, λ (near, w, far, e, q, c). nothing near w far e)
  where
    nothing :
        (near : List AsmLine) (w : AsmLine) (far : List AsmLine)
        → [] ≡ near ++ w ∷ far
        → false ≡ true
    nothing [] w far e = cc e
    nothing (n ∷ near) w far e = cc e
takes_register_iff (l ∷ ls) = elim (Bool-cases l.is_bl) [
  | inl e ↦ (
    λ h. cc (takes_call l ls e, h),
    λ (near, w, far, p, q, c). absurd (at_call near w far p q c e),
  )
  | inr e ↦ elim (Bool-cases l.writes_r0) [
    | inl f ↦ (
      λ h. ([], l, ls, refl, tt, (e, f, not_true l.immediate_r0 (sym (takes_write l ls e f) ∙ h))),
      λ (near, w, far, p, q, c). takes_write l ls e f ∙ at_write near w far p q c f,
    )
    | inr f ↦ (
      λ h.
          let (near, w, far, p, q, c) =
            (takes_register_iff ls).0 (sym (takes_quiet l ls e f) ∙ h) in
          (l ∷ near, w, far, ap (λ k. l ∷ k) p, ((e, f), q), c),
      λ (near, w, far, p, q, c).
          takes_quiet l ls e f ∙ (takes_register_iff ls).1 (past near w far p q c f),
    )
  ]
]
  where
    not_true : (b : Bool) → not b ≡ true → b ≡ false
    not_true true h = cc h
    not_true false h = refl

    head_of : (n : AsmLine) (xs : List AsmLine) → l ∷ ls ≡ n ∷ xs → l ≡ n
    head_of n xs h = cc h

    tail_of : (n : AsmLine) (xs : List AsmLine) → l ∷ ls ≡ n ∷ xs → ls ≡ xs
    tail_of n xs h = cc h

    at_call :
        (near : List AsmLine) (w : AsmLine) (far : List AsmLine)
        → l ∷ ls ≡ near ++ w ∷ far
        → All IsQuiet near
        → Computes w
        → l.is_bl ≡ true
        → ⊥
    at_call [] w far p q c e = cc (ap (λ (x : AsmLine). x.is_bl) (head_of w far p), c.0, e)
    at_call (n ∷ near) w far p q c e = cc (ap (λ (x : AsmLine). x.is_bl) (head_of n _ p), q.0.0, e)

    at_write :
        (near : List AsmLine) (w : AsmLine) (far : List AsmLine)
        → l ∷ ls ≡ near ++ w ∷ far
        → All IsQuiet near
        → Computes w
        → l.writes_r0 ≡ true
        → not l.immediate_r0 ≡ true
    at_write [] w far p q c e =
        ap not (ap (λ (x : AsmLine). x.immediate_r0) (head_of w far p) ∙ c.2)
    at_write (n ∷ near) w far p q c e =
        absurd (cc (ap (λ (x : AsmLine). x.writes_r0) (head_of n _ p), q.0.1, e))

    past :
        (near : List AsmLine) (w : AsmLine) (far : List AsmLine)
        → l ∷ ls ≡ near ++ w ∷ far
        → All IsQuiet near
        → Computes w
        → l.writes_r0 ≡ false
        → Reaches ls
    past [] w far p q c e =
        absurd (cc (ap (λ (x : AsmLine). x.writes_r0) (head_of w far p), c.1, e))
    past (n ∷ near) w far p q c e = (near, w, far, tail_of n _ p, q.1, c)

-- A call to the callee among the lines, and a register offset before it.
abbrev Found : Name → List AsmLine → List AsmLine → Type 0
Found callee before lines =
    (pre : List AsmLine) × (c : AsmLine) × (back : List AsmLine) × (lines ≡ pre ++ c ∷ back)
    × (c.calls callee ≡ true)
    × Reaches (reverse_aux pre before)

call_after_iff :
    (callee : Name) (before lines : List AsmLine)
    → (call_after callee before lines ≡ true) ↔ Found callee before lines
unfolding call_after
call_after_iff callee before [] = (λ h. cc h, λ (pre, c, back, p, h, r). nothing pre c back p)
  where
    nothing :
        (near : List AsmLine) (w : AsmLine) (far : List AsmLine)
        → [] ≡ near ++ w ∷ far
        → false ≡ true
    nothing [] w far e = cc e
    nothing (n ∷ near) w far e = cc e
call_after_iff callee before (l ∷ ls) =
    let (there, back_again) = call_after_iff callee (l ∷ before) ls in
    let here = takes_register_iff before in
    (
      λ h. elim (Bool-cases (l.calls callee && takes_register before)) [
        | inl e ↦
            let (a, b) = and_true (l.calls callee) (takes_register before) e in
            ([], l, ls, refl, a, here.0 b)
        | inr e ↦
            let (pre, c, back, p, k, r) = there (rw e at h) in
            (l ∷ pre, c, back, ap (λ z. l ∷ z) p, k, r)
      ],
      λ (pre, c, back, p, k, r). elim (first pre c back p k r) [
        | inl (a, b) ↦ rw (a, here.1 b) refl
        | inr f ↦ or_right (l.calls callee && takes_register before) (back_again f)
      ],
    )
  where
    or_right : (a : Bool) {b : Bool} → b ≡ true → (a || b) ≡ true
    or_right true h = refl
    or_right false h = h

    first :
        (pre : List AsmLine) (c : AsmLine) (back : List AsmLine)
        → l ∷ ls ≡ pre ++ c ∷ back
        → c.calls callee ≡ true
        → Reaches (reverse_aux pre before)
        → ((l.calls callee ≡ true) × Reaches before) ⊎ Found callee (l ∷ before) ls
    first [] c back p k r =
        let same : l ≡ c = cc p in inl (ap (λ (x : AsmLine). x.calls callee) same ∙ k, r)
    first (n ∷ pre) c back p k r =
        let same : l ≡ n = cc p in
        let rest : ls ≡ pre ++ c ∷ back = cc p in
        inr
          (pre, c, back, rest, k, subst (λ x. Reaches (reverse_aux pre (x ∷ before))) (sym same) r)

turned :
    (xs : List AsmLine) (x : AsmLine) (ys : List AsmLine)
    → reverse (xs ++ x ∷ ys) ≡ reverse ys ++ x ∷ reverse xs
turned xs x ys =
    reverse-append xs (x ∷ ys)
    ∙ ap (λ z. z ++ reverse xs) (reverse-cons x ys)
    ∙ append_assoc (reverse ys) (x ∷ []) (reverse xs)

All-reverse : (ls : List AsmLine) → All IsQuiet ls → All IsQuiet (reverse ls)
All-reverse [] h = tt
All-reverse (l ∷ ls) h =
    subst (All IsQuiet) (sym (reverse-cons l ls))
      (All-append IsQuiet (reverse ls) (l ∷ []) (All-reverse ls h.1) (h.0, tt))

-- A line that writes the offset register and is no constant, then lines that are no call and write no
-- offset, and then a call to the callee.
abbrev pub ComputedCall : List AsmLine → Name → Type 0
ComputedCall lines callee =
    (front : List AsmLine) × (w : AsmLine) × (mid : List AsmLine) × (c : AsmLine) × (back : List
      AsmLine)
    × (lines ≡ (front ++ w ∷ mid) ++ c ∷ back)
    × Computes w
    × All IsQuiet mid
    × (c.calls callee ≡ true)

-- `_register_offset_call` finds a call just where the disassembly has one with a computed offset.
pub register_offset_call_iff :
    (lines : List AsmLine) (callee : Name)
    → (register_offset_call lines callee ≡ true) ↔ ComputedCall lines callee
unfolding register_offset_call
register_offset_call_iff lines callee = (
  λ h.
      let (pre, c, back, p, k, (near, w, far, e, q, comp)) = (call_after_iff callee [] lines).0 h in
      (
        reverse far,
        w,
        reverse near,
        c,
        back,
        p ∙ ap (λ z. z ++ c ∷ back) (sym (reverse-reverse pre) ∙ ap reverse e ∙ turned near w far),
        comp,
        All-reverse near q,
        k,
      ),
  λ (front, w, mid, c, back, p, comp, q, k). (call_after_iff callee [] lines).1 (
    front ++ w ∷ mid,
    c,
    back,
    p,
    k,
    (reverse mid, w, reverse front, turned front w mid, All-reverse mid q, comp),
  ),
)
