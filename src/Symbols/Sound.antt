-- ===== src/Symbols/Sound.antt =====
-- The build gate of firmware/gate/check_measure_symbols.py: what its exit code says of the call graph.
pub mod Section
pub mod Objects
pub mod Parts
pub mod Verdicts
use mps4_prototyping_board.Prelude.{
  Name, name_equality, ℕ, ◌≡◌, ◌≢◌, refl, sym, subst, ap, ◌∙◌, arith, List, [], ◌∷◌, ◌++◌, Bool,
  true, false, not, ◌&&◌, ◌||◌, Option, none, some, All, Equality, has, sorted, has-cons,
  has-sorted, Bool-cases, ◌⊎◌, inl, inr, ◌↔◌, if◌then◌else◌,
}
use mps4_prototyping_board.Bytes.{starts_with}
use mps4_prototyping_board.Symbols.{name_leq, inject_marker_prefix}
use mps4_prototyping_board.Symbols.Walk.{Graph, in_graph, missing_roots}
use mps4_prototyping_board.Symbols.Gates.{is_empty, markers_of, both}
use mps4_prototyping_board.Symbols.Verdict.{pick}

-- A list with nothing in it, by membership.
pub is_empty-has {ℓ} :
    {A : Type ℓ} ⦃q : Equality A⦄ (xs : List A)
    → (is_empty xs ≡ true) ↔ ((x : A) → has x xs ≡ false)
is_empty-has [] = (λ h x. unfold has in refl, λ h. refl)
is_empty-has (y ∷ ys) = (λ h. cc h, λ h. cc (h y, (has-cons y y ys).1 (inl refl)))

pub is_empty-sorted :
    (xs : List Name) → (is_empty (sorted name_leq xs) ≡ true) ↔ ((x : Name) → has x xs ≡ false)
is_empty-sorted xs = (
  λ h x. ground (arith, (is_empty-has (sorted name_leq xs)).0 h x, has-sorted name_leq x xs),
  λ h. (is_empty-has (sorted name_leq xs)).1 (λ x. ground (arith, h x, has-sorted name_leq x xs)),
)

pub has-pick :
    (test : Name → Bool) (xs : List Name) (x : Name)
    → (has x (pick test xs) ≡ true) ↔ ((has x xs ≡ true) × (test x ≡ true))
unfolding pick
has-pick test [] x = unfold has in ground arith
has-pick test (y ∷ ys) x = elim (Bool-cases (test y)) [
  | inl e ↦ rw e (
    λ p. elim ((has-cons x y (pick test ys)).0 p) [
      | inl w ↦ ((has-cons x y ys).1 (inl w), ap test w ∙ e)
      | inr r ↦ let (a, b) = (has-pick test ys x).0 r in ((has-cons x y ys).1 (inr a), b)
    ],
    λ (a, b). (has-cons x y (pick test ys)).1 (elim ((has-cons x y ys).0 a) [
      | inl w ↦ inl w
      | inr r ↦ inr ((has-pick test ys x).1 (r, b))
    ]),
  )
  | inr e ↦ rw e (
    λ p. let (a, b) = (has-pick test ys x).0 p in ((has-cons x y ys).1 (inr a), b),
    λ (a, b). elim ((has-cons x y ys).0 a) [
      | inl w ↦ cc (b, ap test w, e)
      | inr r ↦ (has-pick test ys x).1 (r, b)
    ],
  )
]

pub markers_of-pick : (xs : List Name) → markers_of xs ≡ pick (starts_with inject_marker_prefix) xs
unfolding markers_of pick
markers_of-pick [] = refl
markers_of-pick (x ∷ xs) = rw (markers_of-pick xs) refl

pub both-pick : (hs xs : List Name) → both hs xs ≡ pick (λ h. has h xs) hs
unfolding both pick
both-pick [] xs = refl
both-pick (h ∷ hs) xs = rw (both-pick hs xs) refl

-- No root is missing exactly when all of them are in the graph.
pub missing_roots_iff :
    (g : Graph Name) (roots : List Name)
    → (missing_roots g roots ≡ []) ↔ All (λ r. in_graph g r ≡ true) roots
unfolding missing_roots
missing_roots_iff g [] = (λ h. tt, λ h. refl)
missing_roots_iff g (r ∷ roots) = elim (Bool-cases (in_graph g r)) [
  | inl e ↦
      rw e (λ h. (refl, (missing_roots_iff g roots).0 h), λ h. (missing_roots_iff g roots).1 h.1)
  | inr e ↦ rw e (λ h. cc h, λ h. cc h.0)
]
