-- ===== src/Symbols/Sound/Section.antt =====
-- `check_sec_noinit` of firmware/gate/check_measure_symbols.py: when it passes.
use mps4_prototyping_board.Prelude.{
  some-injective, Name, name_equality, ℕ, ◌≡◌, refl, sym, subst, ap, ap₂, ◌∙◌, arith, List, [], ◌∷◌,
  true, false, not, Option, none, some, has, sorted, Bool-cases, Option-cases, inl, inr, ◌↔◌,
}
use mps4_prototyping_board.Symbols.{name_leq, sec_noinit_base, sec_noinit_size, sec_noinit_objects}
use mps4_prototyping_board.Symbols.Gates.{is_empty}
use mps4_prototyping_board.Symbols.Layout.{
  minus, nonempty, objects_of, find_section, judge_section, check_sec_noinit,
}
use mps4_prototyping_board.Symbols.Verdict.{pick}
use mps4_prototyping_board.Symbols.Sound.Objects.{
  IsSection, Names, find_section_iff, objects_of-Names,
}
use mps4_prototyping_board.Symbols.Sound.{is_empty-sorted, has-pick}

minus-pick : (xs ys : List Name) → minus xs ys ≡ pick (λ x. not (has x ys)) xs
unfolding minus pick
minus-pick [] ys = refl
minus-pick (x ∷ xs) ys = elim (Bool-cases (has x ys)) [
  | inl e ↦ rw e (minus-pick xs ys)
  | inr e ↦ rw e (ap (λ l. x ∷ l) (minus-pick xs ys))
]

not-nonempty : (xs : List Name) → not (nonempty xs) ≡ is_empty xs
not-nonempty [] = refl
not-nonempty (x ∷ xs) = refl

judge_section_iff :
    (base size : ℕ) (objects : List Name)
    → ((judge_section base size objects).0 ≡ true) ↔ (
        (base ≡ sec_noinit_base)
        × (size ≡ sec_noinit_size)
        × ((o : Name) → has o objects ≡ true → has o sec_noinit_objects ≡ true))
unfolding judge_section
judge_section_iff base size objects =
    let strange = is_empty-sorted (minus objects sec_noinit_objects) in
    let same = minus-pick objects sec_noinit_objects in
    let flip = not-nonempty (sorted name_leq (minus objects sec_noinit_objects)) in
    let picked = λ (x : Name). has-pick (λ o. not (has o sec_noinit_objects)) objects x in
    (
      λ h. (
        ground arith,
        ground arith,
        λ o p.
            let none_there =
              subst (λ l. has o l ≡ false) same (strange.0 (ground (arith, flip)) o) in
            ground (arith, p, none_there, picked o),
      ),
      λ (a, b, c).
          let empty =
            strange.1
              (λ x. subst (λ l. has x l ≡ false) (sym same) (ground (arith, c x, picked x))) in
          ground (arith, empty, flip),
    )

-- The same by what the code finds.
check_sec_noinit-found :
    (map_lines : Option (List Name))
    → ((check_sec_noinit map_lines).0 ≡ true) ↔ (
        (lines : List Name) × (rest : List Name) × (map_lines ≡ some lines)
        × (find_section lines ≡ some ((sec_noinit_base, sec_noinit_size), rest))
        × ((o : Name) → has o (objects_of [] rest) ≡ true → has o sec_noinit_objects ≡ true))
unfolding check_sec_noinit
check_sec_noinit-found none = (λ h. cc h, λ (lines, rest, e, f, g). cc e)
check_sec_noinit-found (some lines) = elim (Option-cases (find_section lines)) [
  | inl e ↦
      rw (e, check_sec_noinit)
        (λ h. cc h, λ (l, rest, p, f, g). cc (sym e ∙ ap find_section (some-injective p) ∙ f))
  | inr (((base, size), rest), e) ↦
      let judged = judge_section_iff base size (objects_of [] rest) in
      rw (e, check_sec_noinit)
        (
          λ h.
              let (a, b, c) = judged.0 h in
              (lines, rest, refl, e ∙ ap₂ (λ x y. some ((x, y), rest)) a b, c),
          λ (l, more, p, f, g).
              let same = some-injective (sym e ∙ ap find_section (some-injective p) ∙ f) in
              judged.1 (
                ap (λ z. z.0.0) same,
                ap (λ z. z.0.1) same,
                λ o h. g o (subst (λ r. has o (objects_of [] r) ≡ true) (ap (λ z. z.1) same) h),
              ),
        )
]

-- The layout of `.sec_noinit` passes exactly when the map file could be read, the first line that is a header of
-- the section gives the base 0x90020000 and the size 0xF90, and every object that a line of the section names
-- is one of the six allowed; the lines of the section are those behind the header up to the first that is
-- not empty and does not start with a blank.
pub check_sec_noinit_iff :
    (map_lines : Option (List Name))
    → ((check_sec_noinit map_lines).0 ≡ true) ↔ (
        (lines : List Name) × (body : List Name) × (map_lines ≡ some lines)
        × IsSection lines 0x9002_0000 0xF90 body
        × ((o : Name) → Names body o → has o sec_noinit_objects ≡ true))
check_sec_noinit_iff map_lines =
    let found = check_sec_noinit-found map_lines in
    (
      λ h.
          let (lines, body, e, f, g) = found.0 h in
          (
            lines,
            body,
            e,
            (find_section_iff lines sec_noinit_base sec_noinit_size body).0 f,
            λ o n. g o ((objects_of-Names o [] body).1 (inr n)),
          ),
      λ (lines, body, e, f, g). found.1 (
        lines,
        body,
        e,
        (find_section_iff lines sec_noinit_base sec_noinit_size body).1 f,
        λ o h. elim ((objects_of-Names o [] body).0 h) [ inl p ↦ none_in o p | inr n ↦ g o n ],
      ),
    )
  where
    none_in : (o : Name) → has o [] ≡ true → has o sec_noinit_objects ≡ true
    none_in o p = unfold has in cc p
