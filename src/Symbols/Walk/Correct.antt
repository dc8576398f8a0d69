-- ===== src/Symbols/Walk/Correct.antt =====
-- `reachable`: the set that it returns, and the roots that it misses.
use mps4_prototyping_board.Prelude.{
  ◌≡◌, refl, sym, subst, arith, List, [], ◌∷◌, ◌++◌, Bool, true, some, Equality, has, sorted,
  has-cons, has-sorted, Bool-cases, ◌⊎◌, inl, inr, ◌↔◌,
}
use mps4_prototyping_board.Symbols.Walk.{
  Graph, Search, targets, in_graph, offer_root, start_from, start, missing_roots, expand, reachable,
}
use mps4_prototyping_board.Symbols.Walk.Reach.{
  Reach, root, call, has-offer_root, queue-offer_root, has-offer_all, queue-offer_all,
}
use mps4_prototyping_board.Symbols.Walk.Loop.{loop_keeps, reachable_ends}

module _ {ℓ} {A : Type ℓ} ⦃q : Equality A⦄ (leq : A → A → Bool) (g : Graph A) (roots : List A) where
  record Inv (s : Search A) : Type ℓ where
    source : (x : A) → has x roots ≡ true → in_graph g x ≡ true → has x s.seen ≡ true
    queued : (x : A) → has x s.queue ≡ true → has x s.seen ≡ true
    sound : (x : A) → has x s.seen ≡ true → Reach g roots x
    closed :
        (x y : A)
        → has x s.seen ≡ true
        → has y (targets g x) ≡ true
        → (has x s.queue ≡ true) ⊎ (has y s.seen ≡ true)

  -- What `start` has seen and queued, with more roots to come.
  start_from-seen :
      (rs : List A) (s : Search A) (x : A)
      → (has x (start_from g rs s).seen ≡ true)
        ↔ ((has x s.seen ≡ true) ⊎ ((has x rs ≡ true) × (in_graph g x ≡ true)))
  unfolding start_from
  start_from-seen [] s x = unfold has in ground arith
  start_from-seen (r ∷ rs) s x =
      ground
        (arith, has-offer_root g r s x, start_from-seen rs (offer_root g r s) x, has-cons x r rs)

  start_from-queued :
      (rs : List A) (s : Search A) (x : A)
      → (has x (start_from g rs s).queue ≡ true)
        ↔ ((has x s.queue ≡ true) ⊎ ((has x rs ≡ true) × (in_graph g x ≡ true)))
  unfolding start_from
  start_from-queued [] s x = unfold has in ground arith
  start_from-queued (r ∷ rs) s x =
      ground (
        arith,
        queue-offer_root g r s x,
        start_from-queued rs (offer_root g r s) x,
        has-cons x r rs,
      )

  Inv-start : Inv (start g roots)
  unfolding start
  Inv-start =
      let empty : Search A = record { seen = []; queue = []; order = [] } in
      let seen = start_from-seen roots empty in
      let queue = start_from-queued roots empty in
      record {
        source = λ x p h. (seen x).1 (inr (p, h));
        queued = λ x p. (seen x).1 (elim ((queue x).0 p) [ inl f ↦ inl f | inr r ↦ inr r ]);
        sound = λ x p. elim ((seen x).0 p) [ inl f ↦ unfold has in cc f | inr r ↦ root x r.0 r.1 ];
        closed =
            λ x y p h. inl ((queue x).1 (elim ((seen x).0 p) [ inl f ↦ inl f | inr r ↦ inr r ]));
      }

  Inv-expand :
      (s : Search A) (node : A) (rest : List A)
      → s.queue ≡ node ∷ rest
      → Inv s
      → Inv (expand leq g node rest s)
  unfolding expand
  Inv-expand s node rest e v =
      let s' : Search A = record s { queue = rest; order = s.order ++ node ∷ [] } in
      let ts = sorted leq (targets g node) in
      let seen = has-offer_all ts s' in
      let queue = queue-offer_all ts s' in
      let to_node = v.sound node (
        v.queued node
          (subst (λ l. has node l ≡ true) (sym e) ((has-cons node node rest).1 (inl refl)))) in
      record {
        source = λ x p h. (seen x).1 (inl (v.source x p h));
        queued = λ x p. (seen x).1 (elim ((queue x).0 p) [
          | inl old ↦ inl (
              v.queued x (subst (λ l. has x l ≡ true) (sym e) ((has-cons x node rest).1 (inr old))))
          | inr (n, m) ↦ inr m
        ]);
        sound = λ x p. elim ((seen x).0 p) [
          | inl old ↦ v.sound x old
          | inr m ↦ call node x to_node ((has-sorted leq x (targets g node)).0 m)
        ];
        closed = λ x y p h. elim (Bool-cases (has x s.seen)) [
          | inl old ↦ elim (v.closed x y old h) [
            | inl w ↦ elim ((has-cons x node rest).0 (subst (λ l. has x l ≡ true) e w)) [
              | inl same ↦ inr (
                  (seen y).1 (
                    inr (
                      (has-sorted leq y (targets g node)).1
                        (subst (λ z. has y (targets g z) ≡ true) same h))))
              | inr later ↦ inl ((queue x).1 (inl later))
            ]
            | inr m ↦ inr ((seen y).1 (inl m))
          ]
          | inr new ↦ elim ((seen x).0 p) [
            | inl old ↦ cc (old, new)
            | inr m ↦ inl ((queue x).1 (inr (new, m)))
          ]
        ];
      }

  complete : (t : Search A) → Inv t → t.queue ≡ [] → {x : A} → Reach g roots x → has x t.seen ≡ true
  complete t v e (root x p h) = v.source x p h
  complete t v e (call x y r h) = elim (v.closed x y (complete t v e r) h) [
    | inl w ↦ unfold has in cc (subst (λ l. has x l ≡ true) e w)
    | inr m ↦ m
  ]

  -- `reachable` always returns: the functions that a chain of direct calls leads to from a root that is
  -- in the graph, and no others, and the roots that are not in the graph.
  pub reachable-Reach :
      (t : Search A) × (reachable leq g roots ≡ some (t, missing_roots g roots))
      × ((x : A) → (has x t.seen ≡ true) ↔ Reach g roots x)
  reachable-Reach =
      let (t, ends, result) = reachable_ends leq g roots in
      let (v, e) = loop_keeps leq g Inv Inv-expand _ (start g roots) t Inv-start ends in
      (t, result, λ x. (v.sound x, λ r. complete t v e r))
