-- ===== src/Regs/Layout.antt =====
-- firmware/common/gen_npu_pmu_regs.py, `_bitfields` and `_one`: where the fields of a register lie.
use mps4_prototyping_board.Prelude.{
  ℕ, zero, suc, ◌+◌, ◌≡◌, ◌≤◌, ◌<◌, inl, inr, arith, List, [], ◌∷◌, true, false, Bool-cases, leb,
  get_elem?, none, some, Name, same_name, ok, ok-injective, >>=-eq-ok,
}
use mps4_prototyping_board.Regs.{Interface, Field, Refusal, lay, bitfields, hits, only}

-- A field of the loop starts at or after the loop's shift, and below the span.
lay-at :
    (span shift : ℕ) (found : List (Name × ℕ)) (i : ℕ) (f : Field)
    → get_elem? (lay span shift found) i ≡ some f
    → (shift ≤ f.shift) × (f.shift < span)
unfolding lay
lay-at span shift [] i f h = cc h
lay-at span shift ((name, width) ∷ rest) zero f h = elim (Bool-cases (leb span shift)) [
  | inl e ↦ absurd (cc (absent e))
  | inr e ↦ let same : shift ≡ f.shift = cc (present e) in (omega arith, ground arith)
]
  where
    absent : leb span shift ≡ true → none ≡ some f
    absent e = rw e at h

    present :
        leb span shift ≡ false
        → some (record { name = name; shift = shift; width = width }) ≡ some f
    present e = rw e at h
lay-at span shift ((name, width) ∷ rest) (suc i) f h = elim (Bool-cases (leb span shift)) [
  | inl e ↦ let absent : none ≡ some f = rw e at h in cc absent
  | inr e ↦
      let later = lay-at span (shift + width) rest i f (rw e at h) in
      (omega (arith, later), later.1)
]

-- Of two fields, the earlier one ends where the later one starts or before.
lay_apart :
    (span shift : ℕ) (found : List (Name × ℕ)) (i j : ℕ) (f g : Field)
    → get_elem? (lay span shift found) i ≡ some f
    → get_elem? (lay span shift found) j ≡ some g
    → i < j
    → f.shift + f.width ≤ g.shift
unfolding lay
lay_apart span shift [] i j f g p q h = cc p
lay_apart span shift ((name, width) ∷ rest) i zero f g p q h = elim h [ ]
lay_apart span shift ((name, width) ∷ rest) zero (suc j) f g p q h =
    elim (Bool-cases (leb span shift)) [
      | inl e ↦ absurd (cc (absent e))
      | inr e ↦
          let from : shift ≡ f.shift = cc (present e) in
          let wide : width ≡ f.width = cc (present e) in
          omega (arith, (lay-at span (shift + width) rest j g (rw e at q)).0)
    ]
  where
    absent : leb span shift ≡ true → none ≡ some f
    absent e = rw e at p

    present :
        leb span shift ≡ false
        → some (record { name = name; shift = shift; width = width }) ≡ some f
    present e = rw e at p
lay_apart span shift ((name, width) ∷ rest) (suc i) (suc j) f g p q h =
    elim (Bool-cases (leb span shift)) [
      | inl e ↦ let absent : none ≡ some f = rw e at p in cc absent
      | inr e ↦ lay_apart span (shift + width) rest i j f g (rw e at p) (rw e at q) (omega arith)
    ]

-- The fields that `_bitfields` returns are in the order of their bits and share none: an earlier field ends
-- where a later one starts or before, and each starts below the span.
pub bitfields_apart :
    (h : Interface) (struct_name : Name) (span : ℕ) (fields : List Field)
    → bitfields h struct_name span ≡ ok fields
    → ((i : ℕ) (f : Field) → get_elem? fields i ≡ some f → f.shift < span)
      × ((i j : ℕ) (f g : Field)
          → get_elem? fields i ≡ some f
          → get_elem? fields j ≡ some g
          → i < j
          → f.shift + f.width ≤ g.shift)
unfolding bitfields
bitfields_apart h struct_name span fields done =
    let (found, p, q) = >>=-eq-ok _ (λ found. ok (lay span 0 found)) done in
    let e = ok-injective q in
    (
      λ i f at. (lay-at span 0 found i f (rw e at)).1,
      λ i j f g at_i at_j less. lay_apart span 0 found i j f g (rw e at_i) (rw e at_j) less,
    )

-- The first hit stands among the fields, under the name.
pub hits-at :
    (want : Name) (fs : List Field) (f : Field) (rest : List Field)
    → hits want fs ≡ f ∷ rest
    → (i : ℕ) × (get_elem? fs i ≡ some f)
unfolding hits
hits-at want [] f rest h = cc h
hits-at want (g ∷ fs) f rest h = elim (Bool-cases (same_name g.name want)) [
  | inl e ↦ let eq : g ∷ hits want fs ≡ f ∷ rest = rw e at h in (0, cc eq)
  | inr e ↦ let (i, at) = hits-at want fs f rest (rw e at h) in (suc i, at)
]

pub only-eq-ok : (e : Refusal) (fs : List Field) (f : Field) → only e fs ≡ ok f → fs ≡ f ∷ []
only-eq-ok e [] f h = cc h
only-eq-ok e (g ∷ []) f h = let eq = ok-injective h in cc eq
only-eq-ok e (g ∷ k ∷ fs) f h = cc h
