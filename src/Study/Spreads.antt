-- ===== src/Study/Spreads.antt =====
-- host/analysis/stage1.py, `stats`: the entries of a metric that the study reads, and what they say of the
-- measured values. `statistics.median` is a parameter; there is at least one value.
use mps4_prototyping_board.Prelude.{
  ◌≡◌, ◌↔◌, inl, inr, refl, sym, List, [], ◌∷◌, true, false, Bool-cases, All, if◌then◌else◌, subst,
}
use mps4_prototyping_board.Study.{Numbers, Spread, higher, lower, separation}
use mps4_prototyping_board.Study.Statuses.{IsOrder}

module _ (n : Numbers) where
  -- `min` and `max` of a first value and others.
  unfoldable pub min_from : n.Num → List n.Num → n.Num
  min_from best [] = best
  min_from best (v ∷ vs) = min_from (if n.lt v best then v else best) vs

  unfoldable pub max_from : n.Num → List n.Num → n.Num
  max_from best [] = best
  max_from best (v ∷ vs) = max_from (if n.lt best v then v else best) vs

  -- `stats`
  unfoldable pub stats : (List n.Num → n.Num) → n.Num → List n.Num → Spread n.Num
  unfolding min_from max_from
  stats median first rest =
      let low = min_from first rest in
      let high = max_from first rest in
      record {
        median = median (first ∷ rest);
        min = low;
        max = high;
        deterministic = n.same low high;
      }

-- Every value of the second list is below every value of the first.
abbrev pub AllAbove : (n : Numbers) → List n.Num → List n.Num → Type 0
AllAbove n xs ys = All (λ x. All (λ y. n.lt y x ≡ true) ys) xs

module _ (n : Numbers) (law : IsOrder n) where
  irreflexive : (a : n.Num) → n.lt a a ≡ false
  irreflexive a = elim (Bool-cases (n.lt a a)) [ inl e ↦ law.asym a a e | inr e ↦ e ]

  -- What is not below a value is not below a smaller one.
  not_below : (a b c : n.Num) → n.lt a b ≡ false → n.lt c b ≡ true → n.lt a c ≡ false
  not_below a b c h k = elim (Bool-cases (n.lt a c)) [
    | inr e ↦ e
    | inl e ↦ elim (law.between c b a k) [
      | inl d ↦ absurd (cc (law.asym a c e, d))
      | inr d ↦ absurd (cc (d, h))
    ]
  ]

  -- No value is below the result, and it is one of the values.
  pub min_from-bound :
      (best v : n.Num) (vs : List n.Num) → n.lt v best ≡ false → n.lt v (min_from n best vs) ≡ false
  unfolding min_from
  min_from-bound best v [] h = h
  min_from-bound best v (w ∷ vs) h = elim (Bool-cases (n.lt w best)) [
    | inl e ↦ rw e (min_from-bound w v vs (not_below v best w h e))
    | inr e ↦ rw e (min_from-bound best v vs h)
  ]

  below_none :
      (best : n.Num) (vs : List n.Num) (m : n.Num)
      → min_from n best vs ≡ m
      → (n.lt best m ≡ false) × All (λ v. n.lt v m ≡ false) vs
  unfolding min_from
  below_none best [] m p = (subst (λ z. n.lt best z ≡ false) p (irreflexive best), tt)
  below_none best (w ∷ vs) m p = elim (Bool-cases (n.lt w best)) [
    | inl e ↦
        let q : min_from n w vs ≡ m = rw e at p in
        let (a, b) = below_none w vs m q in
        (subst (λ z. n.lt best z ≡ false) q (min_from-bound w best vs (law.asym w best e)), (a, b))
    | inr e ↦
        let q : min_from n best vs ≡ m = rw e at p in
        let (a, b) = below_none best vs m q in
        (a, (subst (λ z. n.lt w z ≡ false) q (min_from-bound best w vs e), b))
  ]

  pub min_from-All :
      (best : n.Num) (vs : List n.Num) → All (λ v. n.lt v (min_from n best vs) ≡ false) (best ∷ vs)
  min_from-All best vs = below_none best vs (min_from n best vs) refl

  pub min_from-one {ℓ} :
      (P : n.Num → Type ℓ) (best : n.Num) (vs : List n.Num)
      → P best
      → All P vs
      → P (min_from n best vs)
  unfolding min_from
  min_from-one P best [] p q = p
  min_from-one P best (w ∷ vs) p q = elim (Bool-cases (n.lt w best)) [
    | inl e ↦ rw e (min_from-one P w vs q.0 q.1)
    | inr e ↦ rw e (min_from-one P best vs p q.1)
  ]

-- The numbers in the other order.
abbrev flip : Numbers → Numbers
flip n = record n { lt = λ a b. n.lt b a }

flip-IsOrder : (n : Numbers) → IsOrder n → IsOrder (flip n)
flip-IsOrder n law = record {
  asym = λ a b h. law.asym b a h;
  between = λ a b c h. elim (law.between b a c h) [ inl d ↦ inr d | inr d ↦ inl d ];
}

max_from-flip :
    (n : Numbers) (best : n.Num) (vs : List n.Num) → max_from n best vs ≡ min_from (flip n) best vs
unfolding max_from min_from
max_from-flip n best [] = refl
max_from-flip n best (v ∷ vs) = max_from-flip n (if n.lt best v then v else best) vs

module _ (n : Numbers) (law : IsOrder n) where
  max_from-All :
      (best : n.Num) (vs : List n.Num) → All (λ v. n.lt (max_from n best vs) v ≡ false) (best ∷ vs)
  max_from-All best vs =
      subst (λ m. All (λ v. n.lt m v ≡ false) (best ∷ vs)) (sym (max_from-flip n best vs))
        (min_from-All (flip n) (flip-IsOrder n law) best vs)

  max_from-one {ℓ} :
      (P : n.Num → Type ℓ) (best : n.Num) (vs : List n.Num)
      → P best
      → All P vs
      → P (max_from n best vs)
  max_from-one P best vs p q =
      subst P (sym (max_from-flip n best vs))
        (min_from-one (flip n) (flip-IsOrder n law) P best vs p q)

  -- The largest of one list is below the smallest of another.
  beyond :
      (x y : n.Num) (xs ys : List n.Num)
      → (n.lt (max_from n y ys) (min_from n x xs) ≡ true) ↔ AllAbove n (x ∷ xs) (y ∷ ys)
  beyond x y xs ys = (
    λ h. each (x ∷ xs) (min_from-All n law x xs) h,
    λ h.
        let column = min_from-one n law (λ m. All (λ v. n.lt v m ≡ true) (y ∷ ys)) x xs h.0 h.1 in
        max_from-one (λ v. n.lt v (min_from n x xs) ≡ true) y ys column.0 column.1,
  )
    where
      one :
          (v : n.Num)
          → n.lt (max_from n y ys) v ≡ true
          → (zs : List n.Num) → All (λ z. n.lt (max_from n y ys) z ≡ false) zs
          → All (λ z. n.lt z v ≡ true) zs
      one v h [] q = tt
      one v h (z ∷ zs) q = (
        elim (law.between (max_from n y ys) v z h) [ inl d ↦ absurd (cc (d, q.0)) | inr d ↦ d ],
        one v h zs q.1,
      )

      each :
          (vs : List n.Num)
          → All (λ v. n.lt v (min_from n x xs) ≡ false) vs
          → n.lt (max_from n y ys) (min_from n x xs) ≡ true
          → AllAbove n vs (y ∷ ys)
      each [] q h = tt
      each (v ∷ vs) q h = (
        elim (law.between (max_from n y ys) (min_from n x xs) v h) [
          | inl d ↦ one v d (y ∷ ys) (max_from-All y ys)
          | inr d ↦ absurd (cc (d, q.0))
        ],
        each vs q.1 h,
      )

  -- Of two metrics with at least one measured value each, the spread of the one is HIGHER than that of the
  -- other exactly when each of its values is above each of the other's, and LOWER exactly when each of
  -- its values is below each of the other's. The numbers are to be ordered by the comparison.
  pub separation-stats :
      (median : List n.Num → n.Num) (x y : n.Num) (xs ys : List n.Num)
      → ((separation n (stats n median x xs) (stats n median y ys) ≡ higher)
          ↔ AllAbove n (x ∷ xs) (y ∷ ys))
        × ((separation n (stats n median x xs) (stats n median y ys) ≡ lower)
            ↔ AllAbove n (y ∷ ys) (x ∷ xs))
  unfolding separation stats
  separation-stats median x y xs ys =
      let up = beyond x y xs ys in
      let down = beyond y x ys xs in
      elim (Bool-cases (n.lt (max_from n y ys) (min_from n x xs))) [
        | inl e ↦
            rw e ((λ h. up.0 e, λ h. refl), (λ h. cc h, λ h. absurd (clash (up.0 e).0.0 h.0.0)))
        | inr e ↦ elim (Bool-cases (n.lt (max_from n x xs) (min_from n y ys))) [
          | inl f ↦
              rw (e, f) ((λ h. cc h, λ h. absurd (cc (e, up.1 h))), (λ h. down.0 f, λ h. refl))
          | inr f ↦
              rw (e, f)
                (
                  (λ h. cc h, λ h. absurd (cc (e, up.1 h))),
                  (λ h. cc h, λ h. absurd (cc (f, down.1 h))),
                )
        ]
      ]
    where
      clash : n.lt y x ≡ true → n.lt x y ≡ true → ⊥
      clash a b = cc (law.asym y x a, b)
