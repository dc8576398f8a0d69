-- ===== src/Pmwl/Write.antt =====
-- `align`, and the slice assignments of `pack` (host/lib/pmwl.py).
use mps4_prototyping_board.Prelude.{
  ℕ, zero, suc, ◌+◌, ◌%◌, ◌≤◌, ◌<◌, ◌≡◌, refl, sym, ap, ◌∙◌, subst, arith, List, [], ◌∷◌, ◌++◌,
  append_assoc, length, take, drop, length-append, length-take, length-drop, take-append_le,
  take-length, drop-length,
}
use mps4_prototyping_board.Bytes.{Bytes}
use mps4_prototyping_board.Pmwl.{align, place, end_of, write, write_all}

-- An offset that `align` gives is a multiple of 16, the first one that is not below what it was given.
pub align_bounds : (n : ℕ) → (align n % 16 ≡ 0) × (n ≤ align n) × (align n < n + 16)
unfolding align
align_bounds n = (omega arith, omega arith, omega arith)

pub take-take : (n m : ℕ) (bs : Bytes) → n ≤ m → take n (take m bs) ≡ take n bs
take-take zero m bs h = refl
take-take (suc n) zero bs h = elim h [ ]
take-take (suc n) (suc m) [] h = refl
take-take (suc n) (suc m) (b ∷ bs) h = ap (λ r. b ∷ r) (take-take n m bs (omega arith))

take-drop : (o k n : ℕ) (bs : Bytes) → n ≡ o + k → take k (drop o bs) ≡ drop o (take n bs)
take-drop zero k n bs h = ap (λ m. take m bs) (omega arith)
take-drop (suc o) k zero bs h = absurd (omega arith)
take-drop (suc o) zero (suc n) [] h = refl
take-drop (suc o) (suc k) (suc n) [] h = refl
take-drop (suc o) k (suc n) (b ∷ bs) h = take-drop o k n bs (omega arith)

module _ (off : ℕ) (bs blob : Bytes) where
  pub length-write : off + length bs ≤ length blob → length (write off bs blob) ≡ length blob
  unfolding write
  length-write h = omega (
    arith,
    length-append (take off blob ++ bs) (drop (off + length bs) blob),
    length-append (take off blob) bs,
    length-take off blob,
    length-drop (off + length bs) blob,
  )

  -- Writing nothing keeps the size, wherever it is.
  pub length-write_nil : length bs ≡ 0 → length (write off bs blob) ≡ length blob
  unfolding write
  length-write_nil h = omega (
    arith,
    h,
    length-append (take off blob ++ bs) (drop (off + length bs) blob),
    length-append (take off blob) bs,
    length-take off blob,
    length-drop (off + length bs) blob,
  )

  pub take-write : (n : ℕ) → n ≤ off → n ≤ length blob → take n (write off bs blob) ≡ take n blob
  unfolding write
  take-write n h k =
      ap (take n) (append_assoc (take off blob) bs (drop (off + length bs) blob))
      ∙ take-append_le n (take off blob) (bs ++ drop (off + length bs) blob)
          (omega (arith, length-take off blob))
      ∙ take-take n off blob h

  -- What was written stands there.
  pub take-drop-write :
      off + length bs ≤ length blob → take (length bs) (drop off (write off bs blob)) ≡ bs
  unfolding write
  take-drop-write h =
      let after = drop (off + length bs) blob in
      let before : off ≡ length (take off blob) = omega (arith, length-take off blob) in
      ap (λ x. take (length bs) (drop off x)) (append_assoc (take off blob) bs after)
      ∙ ap (λ n. take (length bs) (drop n (take off blob ++ (bs ++ after)))) before
      ∙ ap (take (length bs)) (drop-length (take off blob) (bs ++ after))
      ∙ take-length bs after

-- `Apart from os bs total`: the sections `bs` at `os` lie one behind the other, between the two bounds.
unfoldable pub Apart : ℕ → List ℕ → List Bytes → ℕ → Type 0
Apart from (o ∷ os) (b ∷ bs) total = (from ≤ o) × Apart (o + length b) os bs total
Apart from _ _ total = from ≤ total

-- Each of the sections stands at its offset.
unfoldable pub Stand : List ℕ → List Bytes → Bytes → Type 0
Stand (o ∷ os) (b ∷ bs) blob = (take (length b) (drop o blob) ≡ b) × Stand os bs blob
Stand _ _ blob = Unit

pub Apart-le :
    (from : ℕ) (os : List ℕ) (bs : List Bytes) (total : ℕ) → Apart from os bs total → from ≤ total
unfolding Apart
Apart-le from (o ∷ os) (b ∷ bs) total (p, q) = omega (arith, Apart-le (o + length b) os bs total q)
Apart-le from [] bs total h = h
Apart-le from (o ∷ os) [] total h = h

-- Sections apart from one another are written so that all of them stand, and that what lies before
-- them stays.
pub write_all-Stand :
    (from : ℕ) (os : List ℕ) (bs : List Bytes) (blob : Bytes)
    → Apart from os bs (length blob)
    → (take from (write_all os bs blob) ≡ take from blob)
      × (length (write_all os bs blob) ≡ length blob)
      × Stand os bs (write_all os bs blob)
unfolding Apart Stand write_all
write_all-Stand from [] bs blob h = (refl, refl, tt)
write_all-Stand from (o ∷ os) [] blob h = (refl, refl, tt)
write_all-Stand from (o ∷ os) (b ∷ bs) blob (p, q) =
    let inside = Apart-le (o + length b) os bs (length blob) q in
    let written = write o b blob in
    let same = length-write o b blob inside in
    let (before, size, standing) =
      write_all-Stand (o + length b) os bs written
        (subst (Apart (o + length b) os bs) (sym same) q) in
    (
      sym (take-take from (o + length b) (write_all os bs written) (omega arith))
          ∙ ap (take from) before
          ∙ take-take from (o + length b) written (omega arith)
          ∙ take-write o b blob from p (omega arith),
      size ∙ same,
      (
        take-drop o (length b) (o + length b) (write_all os bs written) refl
            ∙ ap (drop o) before
            ∙ sym (take-drop o (length b) (o + length b) written refl)
            ∙ take-drop-write o b blob inside,
        standing,
      ),
    )

-- The offsets that `pack` gives lie apart.
pub place-Apart :
    (from at : ℕ) (bs : List Bytes) → from ≤ at → Apart from (place at bs) bs (end_of at bs)
unfolding Apart place end_of
place-Apart from at [] h = h
place-Apart from at (b ∷ bs) h =
    (h, place-Apart (at + length b) (align (at + length b)) bs (align_bounds (at + length b)).1)

-- Sections written where `place` puts them, into a blob that ends where `end_of` says, stand whole at
-- their offsets; the blob keeps its size, and what lies before the first of them stays.
pub place_sections :
    (at : ℕ) (bs : List Bytes) (blob : Bytes)
    → length blob ≡ end_of at bs
    → (take at (write_all (place at bs) bs blob) ≡ take at blob)
      × (length (write_all (place at bs) bs blob) ≡ length blob)
      × Stand (place at bs) bs (write_all (place at bs) bs blob)
place_sections at bs blob h =
    write_all-Stand at (place at bs) bs blob
      (subst (Apart at (place at bs) bs) (sym h) (place-Apart at at bs (omega arith)))
