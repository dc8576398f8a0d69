-- ===== src/Symbols/Walk/Loop.antt =====
-- The loop of `reachable`: its end, and what it keeps.
use mps4_prototyping_board.Prelude.{
  ℕ, zero, suc, ◌+◌, ◌≤◌, ◌≡◌, refl, sym, subst, ap, ◌∙◌, arith, List, [], ◌∷◌, ◌++◌, Bool, none,
  some, length, length-append, Equality, sorted, has-sorted, missing_of, ◌⊎◌, inl, inr,
}
use mps4_prototyping_board.Symbols.Walk.{
  Graph, Search, targets, offer_root, start_from, start, missing_roots, all_targets, expand,
  search_loop, reachable,
}
use mps4_prototyping_board.Symbols.Walk.Reach.{
  offer_root-cases, has-all_targets, work, work-offer_all,
}

pub List-cases {ℓ} :
    {A : Type ℓ} (xs : List A) → (xs ≡ []) ⊎ ((x : A) × (rest : List A) × (xs ≡ x ∷ rest))
List-cases [] = inl refl
List-cases (x ∷ rest) = inr (x, rest, refl)

some-injective {ℓ} : {A : Type ℓ} {x y : A} → some x ≡ some y → x ≡ y
some-injective h = cc

module _ {ℓ} {A : Type ℓ} ⦃q : Equality A⦄ (leq : A → A → Bool) (g : Graph A) where
  loop_empty : (k : ℕ) (s : Search A) → s.queue ≡ [] → search_loop leq g k s ≡ some s
  unfolding search_loop
  loop_empty zero s e = ground arith
  loop_empty (suc k) s e = ground arith

  loop_stuck :
      (s : Search A) (node : A) (rest : List A)
      → s.queue ≡ node ∷ rest
      → search_loop leq g zero s ≡ none
  unfolding search_loop
  loop_stuck s node rest e = ground arith

  loop_round :
      (k : ℕ) (s : Search A) (node : A) (rest : List A)
      → s.queue ≡ node ∷ rest
      → search_loop leq g (suc k) s ≡ search_loop leq g k (expand leq g node rest s)
  unfolding search_loop
  loop_round k s node rest e = ground arith

  work-expand :
      (node : A) (rest : List A) (s : Search A)
      → s.queue ≡ node ∷ rest
      → suc (work (all_targets g) (expand leq g node rest s)) ≤ work (all_targets g) s
  unfolding expand
  work-expand node rest s e = omega (
    arith,
    ap length e,
    work-offer_all (all_targets g) (sorted leq (targets g node))
        (record s { queue = rest; order = s.order ++ node ∷ [] })
        (λ x p. has-all_targets g node x ((has-sorted leq x (targets g node)).0 p)),
  )

  -- Fuel for the work that is left is enough.
  pub loop_ends :
      (k : ℕ) (s : Search A)
      → work (all_targets g) s ≤ k
      → (t : Search A) × (search_loop leq g k s ≡ some t)
  loop_ends zero s h = elim (List-cases s.queue) [
    | inl e ↦ (s, loop_empty zero s e)
    | inr (node, rest, e) ↦ absurd (omega (arith, ap length e))
  ]
  loop_ends (suc k) s h = elim (List-cases s.queue) [
    | inl e ↦ (s, loop_empty (suc k) s e)
    | inr (node, rest, e) ↦
        let less = work-expand node rest s e in
        let (t, ends) = loop_ends k (expand leq g node rest s) (omega arith) in
        (t, loop_round k s node rest e ∙ ends)
  ]

  -- What a round keeps holds at the end, where the queue is empty.
  pub loop_keeps {μ} :
      (P : Search A → Type μ)
      → ((s : Search A) (node : A) (rest : List A)
          → s.queue ≡ node ∷ rest
          → P s
          → P (expand leq g node rest s))
      → (k : ℕ) (s t : Search A) → P s
      → search_loop leq g k s ≡ some t
      → P t × (t.queue ≡ [])
  loop_keeps P keep zero s t p h = elim (List-cases s.queue) [
    | inl e ↦
        let same = some-injective (sym (loop_empty zero s e) ∙ h) in
        (subst P same p, subst (λ (z : Search A). z.queue ≡ []) same e)
    | inr (node, rest, e) ↦ cc (loop_stuck s node rest e, h)
  ]
  loop_keeps P keep (suc k) s t p h = elim (List-cases s.queue) [
    | inl e ↦
        let same = some-injective (sym (loop_empty (suc k) s e) ∙ h) in
        (subst P same p, subst (λ (z : Search A). z.queue ≡ []) same e)
    | inr (node, rest, e) ↦
        loop_keeps P keep k (expand leq g node rest s) t (keep s node rest e p)
          (sym (loop_round k s node rest e) ∙ h)
  ]

  start_from-queue :
      (roots : List A) (s : Search A)
      → length (start_from g roots s).queue ≤ length s.queue + length roots
  unfolding start_from
  start_from-queue [] s = omega arith
  start_from-queue (r ∷ roots) s = elim (offer_root-cases g r s) [
    | inl (e, w) ↦ omega (
      arith,
      start_from-queue roots (offer_root g r s),
      length-append s.queue (r ∷ []),
      ap (λ (z : Search A). length z.queue) w,
    )
    | inr (e, w) ↦
        omega (
          arith,
          start_from-queue roots (offer_root g r s),
          ap (λ (z : Search A). length z.queue) w,
        )
  ]

  missing_of-le-length : (xs s : List A) → missing_of xs s ≤ length xs
  unfolding missing_of
  missing_of-le-length [] s = omega arith
  missing_of-le-length (x ∷ xs) s = ground (arith, missing_of-le-length xs s)

  -- The fuel of `reachable` is enough: it returns a search whose queue is empty.
  pub reachable_ends :
      (roots : List A)
      → (t : Search A) × (search_loop leq g (length roots + length (all_targets g)) (start g roots)
          ≡ some t)
        × (reachable leq g roots ≡ some (t, missing_roots g roots))
  unfolding reachable start
  reachable_ends roots =
      let empty : Search A = record { seen = []; queue = []; order = [] } in
      let (t, ends) = loop_ends (length roots + length (all_targets g)) (start g roots) (
        omega (
          arith,
          start_from-queue roots empty,
          missing_of-le-length (all_targets g) (start g roots).seen,
        )) in
      (t, ends, rw (ends, reachable) refl)
