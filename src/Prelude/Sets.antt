-- ===== src/Prelude/Sets.antt =====
-- Python's sets as lists without repetition, over a type with a decided equality, and `sorted`.
use Prim.Native.Nat.{ℕ, ◌+◌, ◌≤◌}
use mathlib.Core.Path.{◌≡◌, sym, subst}
use mathlib.Core.Logic.{◌↔◌, ◌⊎◌, inl, inr}
use mathlib.Core.Bool.{Bool, true, false, ◌||◌}
use mathlib.Core.List.{List, [], ◌∷◌, ◌++◌}
use native.Mathlib.Omega.{arith}
use mps4_prototyping_board.Prelude.Tests.{Bool-cases, if◌then◌else◌}

pub record Equality {ℓ} (A : Type ℓ) : Type ℓ where
  pub same : A → A → Bool
  pub same_iff : (x y : A) → (same x y ≡ true) ↔ (x ≡ y)

module _ {ℓ} {A : Type ℓ} ⦃q : Equality A⦄ where
  -- `x in xs`
  unfoldable pub has : A → List A → Bool
  has x [] = false
  has x (y ∷ ys) = q.same x y || has x ys

  -- `s.add(x)`
  unfoldable pub add : A → List A → List A
  unfolding has
  add x s = if has x s then s else s ++ x ∷ []

  pub has-append :
      (x : A) (xs ys : List A) → (has x (xs ++ ys) ≡ true) ↔ ((has x xs ≡ true) ⊎ (has x ys ≡ true))
  unfolding has
  has-append x [] ys = ground arith
  has-append x (y ∷ xs) ys = ground (arith, has-append x xs ys)

  pub has-cons : (x y : A) (ys : List A) → (has x (y ∷ ys) ≡ true) ↔ ((x ≡ y) ⊎ (has x ys ≡ true))
  unfolding has
  has-cons x y ys = ground (arith, q.same_iff x y)

  pub has-single : (x y : A) → (has x (y ∷ []) ≡ true) ↔ (x ≡ y)
  unfolding has
  has-single x y = ground (arith, q.same_iff x y)

  pub has-add : (x y : A) (s : List A) → (has x (add y s) ≡ true) ↔ ((has x s ≡ true) ⊎ (x ≡ y))
  unfolding add
  has-add x y s = elim (Bool-cases (has y s)) [
    | inl e ↦
        rw e (λ p. inl p, λ r. elim r [ inl p ↦ p | inr w ↦ subst (λ z. has z s ≡ true) (sym w) e ])
    | inr e ↦ rw e (
      λ p. elim ((has-append x s (y ∷ [])).0 p) [
        | inl a ↦ inl a
        | inr b ↦ elim ((has-cons x y []).0 b) [ inl w ↦ inr w | inr f ↦ cc f ]
      ],
      λ r.
          (has-append x s (y ∷ [])).1
            (elim r [ inl a ↦ inl a | inr w ↦ inr ((has-cons x y []).1 (inl w)) ]),
    )
  ]

  -- How many of `xs` are not in `s` yet.
  unfoldable pub missing_of : List A → List A → ℕ
  missing_of [] s = 0
  missing_of (x ∷ xs) s = (if has x s then 0 else 1) + missing_of xs s

  pub missing_of-grows :
      (xs s t : List A)
      → ((x : A) → has x s ≡ true → has x t ≡ true)
      → missing_of xs t ≤ missing_of xs s
  unfolding missing_of
  missing_of-grows [] s t h = omega arith
  missing_of-grows (x ∷ xs) s t h = ground (arith, h x, missing_of-grows xs s t h)

  -- A new element that is among `xs` leaves fewer of them missing.
  pub missing_of-add :
      (y : A) (xs s : List A)
      → has y xs ≡ true
      → has y s ≡ false
      → missing_of xs (add y s) + 1 ≤ missing_of xs s
  unfolding missing_of
  missing_of-add y [] s m n = unfold has in cc m
  missing_of-add y (x ∷ xs) s m n =
      let grown = missing_of-grows xs s (add y s) (λ z h. (has-add z y s).1 (inl h)) in
      elim ((has-cons y x xs).0 m) [
        | inl w ↦ ground (arith, w, grown, has-add x y s, subst (λ z. has z s ≡ false) w n)
        | inr r ↦ ground (arith, grown, has-add x y s, missing_of-add y xs s r n)
      ]

module _ {ℓ} {A : Type ℓ} (leq : A → A → Bool) where
  unfoldable pub place_in : A → List A → List A
  place_in x [] = x ∷ []
  place_in x (y ∷ ys) = let rest = place_in x ys in if leq x y then x ∷ y ∷ ys else y ∷ rest

  -- `sorted(xs)`
  unfoldable pub sorted : List A → List A
  unfolding place_in
  sorted [] = []
  sorted (x ∷ xs) = place_in x (sorted xs)

  module _ ⦃q : Equality A⦄ where
    has-place_in :
        (x y : A) (ys : List A) → (has x (place_in y ys) ≡ true) ↔ ((x ≡ y) ⊎ (has x ys ≡ true))
    unfolding place_in
    has-place_in x y [] = has-cons x y []
    has-place_in x y (z ∷ ys) = elim (Bool-cases (leq y z)) [
      | inl e ↦ rw e (has-cons x y (z ∷ ys))
      | inr e ↦
          rw e (ground (arith, has-cons x z (place_in y ys), has-cons x z ys, has-place_in x y ys))
    ]

    -- Sorting neither loses nor adds anything.
    pub has-sorted : (x : A) (xs : List A) → (has x (sorted xs) ≡ true) ↔ (has x xs ≡ true)
    unfolding sorted
    has-sorted x [] = (λ p. p, λ p. p)
    has-sorted x (y ∷ ys) =
        ground (arith, has-place_in x y (sorted ys), has-cons x y ys, has-sorted x ys)
