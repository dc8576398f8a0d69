-- ===== src/Symbols/Walk/Reach.antt =====
-- The walks in the call graph, and one round of the search.
use mps4_prototyping_board.Prelude.{
  ℕ, ◌+◌, ◌≤◌, ◌≡◌, refl, sym, subst, arith, List, [], ◌∷◌, ◌++◌, true, false, length,
  length-append, Equality, has, add, has-add, has-append, has-cons, has-single, missing_of,
  missing_of-add, Bool-cases, ◌⊎◌, inl, inr, ◌↔◌,
}
use mps4_prototyping_board.Symbols.Walk.{
  Graph, Search, lookup, targets, in_graph, offer, offer_all, offer_root, all_targets,
}

module _ {ℓ} {A : Type ℓ} ⦃q : Equality A⦄ where
  -- `Reach g roots x`: a chain of direct calls leads from a root that is in the graph to `x`.
  pub data Reach (g : Graph A) (roots : List A) : A → Type ℓ where
    root : (x : A) → has x roots ≡ true → in_graph g x ≡ true → Reach g roots x
    call : (x y : A) → Reach g roots x → has y (targets g x) ≡ true → Reach g roots y

  -- A target is one of the targets of the whole graph.
  pub has-all_targets :
      (g : Graph A) (x y : A) → has y (targets g x) ≡ true → has y (all_targets g) ≡ true
  unfolding targets lookup all_targets
  has-all_targets [] x y h = h
  has-all_targets ((f, ts) ∷ g) x y h =
      ground (arith, has-append y ts (all_targets g), has-all_targets g x y)

  offer-cases :
      (t : A) (s : Search A)
      → ((has t s.seen ≡ true) × (offer t s ≡ s))
        ⊎ ((has t s.seen ≡ false)
            × (offer t s ≡ record s { seen = add t s.seen; queue = s.queue ++ t ∷ [] }))
  unfolding offer
  offer-cases t s = elim (Bool-cases (has t s.seen)) [
    | inl e ↦ inl (e, rw e refl)
    | inr e ↦ inr (e, rw e refl)
  ]

  has-offer :
      (t : A) (s : Search A) (x : A)
      → (has x (offer t s).seen ≡ true) ↔ ((has x s.seen ≡ true) ⊎ (x ≡ t))
  has-offer t s x = elim (offer-cases t s) [
    | inl (e, w) ↦
        rw w (
          λ p. inl p,
          λ r. elim r [ inl p ↦ p | inr v ↦ subst (λ z. has z s.seen ≡ true) (sym v) e ],
        )
    | inr (e, w) ↦ rw w (has-add x t s.seen)
  ]

  queue-offer :
      (t : A) (s : Search A) (x : A)
      → (has x (offer t s).queue ≡ true)
        ↔ ((has x s.queue ≡ true) ⊎ ((has x s.seen ≡ false) × (x ≡ t)))
  queue-offer t s x = elim (offer-cases t s) [
    | inl (e, w) ↦ rw w (
      λ p. inl p,
      λ r. elim r [ inl p ↦ p | inr (n, v) ↦ cc (n, subst (λ z. has z s.seen ≡ true) (sym v) e) ],
    )
    | inr (e, w) ↦ rw w (
      λ p. elim ((has-append x s.queue (t ∷ [])).0 p) [
        | inl a ↦ inl a
        | inr b ↦
            let v = (has-single x t).0 b in inr (subst (λ z. has z s.seen ≡ false) (sym v) e, v)
      ],
      λ r.
          (has-append x s.queue (t ∷ [])).1
            (elim r [ inl a ↦ inl a | inr (n, v) ↦ inr ((has-single x t).1 v) ]),
    )
  ]

  pub has-offer_all :
      (ts : List A) (s : Search A) (x : A)
      → (has x (offer_all ts s).seen ≡ true) ↔ ((has x s.seen ≡ true) ⊎ (has x ts ≡ true))
  unfolding offer_all
  has-offer_all [] s x = ground arith
  has-offer_all (t ∷ ts) s x =
      ground (arith, has-offer t s x, has-offer_all ts (offer t s) x, has-cons x t ts)

  -- The queue gets what was not seen, and nothing else.
  pub queue-offer_all :
      (ts : List A) (s : Search A) (x : A)
      → (has x (offer_all ts s).queue ≡ true)
        ↔ ((has x s.queue ≡ true) ⊎ ((has x s.seen ≡ false) × (has x ts ≡ true)))
  unfolding offer_all
  queue-offer_all [] s x = ground arith
  queue-offer_all (t ∷ ts) s x =
      ground (
        arith,
        has-offer t s x,
        queue-offer t s x,
        queue-offer_all ts (offer t s) x,
        has-cons x t ts,
      )

  -- What is left to do: the queue, and the targets not seen.
  abbrev pub work : List A → Search A → ℕ
  work all s = length s.queue + missing_of all s.seen

  work-offer :
      (all : List A) (t : A) (s : Search A) → has t all ≡ true → work all (offer t s) ≤ work all s
  work-offer all t s m = elim (offer-cases t s) [
    | inl (e, w) ↦ rw w (omega arith)
    | inr (e, w) ↦
        rw w (omega (arith, length-append s.queue (t ∷ []), missing_of-add t all s.seen m e))
  ]

  pub work-offer_all :
      (all ts : List A) (s : Search A)
      → ((x : A) → has x ts ≡ true → has x all ≡ true)
      → work all (offer_all ts s) ≤ work all s
  unfolding offer_all
  work-offer_all all [] s h = omega arith
  work-offer_all all (t ∷ ts) s h = omega (
    arith,
    work-offer all t s (h t ((has-cons t t ts).1 (inl refl))),
    work-offer_all all ts (offer t s) (λ x p. h x ((has-cons x t ts).1 (inr p))),
  )

  pub offer_root-cases :
      (g : Graph A) (r : A) (s : Search A)
      → ((in_graph g r ≡ true)
          × (offer_root g r s ≡ record s { seen = add r s.seen; queue = s.queue ++ r ∷ [] }))
        ⊎ ((in_graph g r ≡ false) × (offer_root g r s ≡ s))
  unfolding offer_root
  offer_root-cases g r s = elim (Bool-cases (in_graph g r)) [
    | inl e ↦ inl (e, rw e refl)
    | inr e ↦ inr (e, rw e refl)
  ]

  module _ (g : Graph A) (r : A) (s : Search A) (x : A) where
    pub has-offer_root :
        (has x (offer_root g r s).seen ≡ true)
        ↔ ((has x s.seen ≡ true) ⊎ ((x ≡ r) × (in_graph g x ≡ true)))
    has-offer_root = elim (offer_root-cases g r s) [
      | inl (e, w) ↦ rw w (
        λ p. elim ((has-add x r s.seen).0 p) [
          | inl a ↦ inl a
          | inr v ↦ inr (v, subst (λ z. in_graph g z ≡ true) (sym v) e)
        ],
        λ k. (has-add x r s.seen).1 (elim k [ inl a ↦ inl a | inr (v, i) ↦ inr v ]),
      )
      | inr (e, w) ↦ rw w (
        λ p. inl p,
        λ k. elim k [
          | inl a ↦ a
          | inr (v, i) ↦ cc (i, subst (λ z. in_graph g z ≡ false) (sym v) e)
        ],
      )
    ]

    pub queue-offer_root :
        (has x (offer_root g r s).queue ≡ true)
        ↔ ((has x s.queue ≡ true) ⊎ ((x ≡ r) × (in_graph g x ≡ true)))
    queue-offer_root = elim (offer_root-cases g r s) [
      | inl (e, w) ↦ rw w (
        λ p. elim ((has-append x s.queue (r ∷ [])).0 p) [
          | inl a ↦ inl a
          | inr b ↦
              let v = (has-single x r).0 b in inr (v, subst (λ z. in_graph g z ≡ true) (sym v) e)
        ],
        λ k.
            (has-append x s.queue (r ∷ [])).1
              (elim k [ inl a ↦ inl a | inr (v, i) ↦ inr ((has-single x r).1 v) ]),
      )
      | inr (e, w) ↦ rw w (
        λ p. inl p,
        λ k. elim k [
          | inl a ↦ a
          | inr (v, i) ↦ cc (i, subst (λ z. in_graph g z ≡ false) (sym v) e)
        ],
      )
    ]
