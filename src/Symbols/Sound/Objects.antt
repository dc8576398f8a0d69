-- ===== src/Symbols/Sound/Objects.antt =====
-- firmware/gate/check_measure_symbols.py, `check_sec_noinit`: the part of the map file that it reads.
use mps4_prototyping_board.Prelude.{
  Name, name_equality, ℕ, ◌≡◌, ◌⊎◌, ◌↔◌, inl, inr, refl, sym, ap, ap₂, ◌∙◌, List, [], ◌∷◌, ◌++◌,
  true, none, some, some-injective, All, has, add, has-add, Bool-cases, Option-cases,
}
use mps4_prototyping_board.Symbols.Layout.{
  is_space, section_header, object_of, objects_of, find_section,
}

-- The line belongs to the output section whose lines begin the list: it starts with a blank, and so does every
-- line before it that is not empty.
pub data Within : List Name → Name → Type 0 where
  this_line :
      {c : ℕ} {cs : Name} {lines : List Name}
      → is_space c ≡ true
      → Within ((c ∷ cs) ∷ lines) (c ∷ cs)
  behind_empty : {lines : List Name} {l : Name} → Within lines l → Within ([] ∷ lines) l
  behind_line :
      {c : ℕ} {cs : Name} {lines : List Name} {l : Name}
      → is_space c ≡ true
      → Within lines l
      → Within ((c ∷ cs) ∷ lines) l

-- A line of the section names the object.
abbrev pub Names : List Name → Name → Type 0
Names lines o = (l : Name) × Within lines l × (object_of l ≡ some o)

Within-cons :
    {c : ℕ} {cs : Name} {lines : List Name} {l : Name}
    → Within ((c ∷ cs) ∷ lines) l
    → (is_space c ≡ true) × ((l ≡ c ∷ cs) ⊎ Within lines l)
Within-cons (this_line b) = (b, inl refl)
Within-cons (behind_line b w) = (b, inr w)

Within-empty : {lines : List Name} {l : Name} → Within ([] ∷ lines) l → Within lines l
Within-empty (behind_empty w) = w

not-Within : {l : Name} → Within [] l → ⊥
not-Within w = elim w [ ]

-- A line that starts with a blank adds its object to what the lines behind it name.
Names-line :
    {c : ℕ} {cs : Name} {lines : List Name} (o : Name) (objects : List Name)
    → is_space c ≡ true
    → ((has o objects ≡ true) ⊎ Names ((c ∷ cs) ∷ lines) o)
      ↔ (((has o objects ≡ true) ⊎ (object_of (c ∷ cs) ≡ some o)) ⊎ Names lines o)
Names-line o objects b = (
  λ h. elim h [
    | inl p ↦ inl (inl p)
    | inr (l, w, e) ↦ elim (Within-cons w).1 [
      | inl q ↦ inl (inr (ap object_of (sym q) ∙ e))
      | inr v ↦ inr (l, v, e)
    ]
  ],
  λ h. elim h [
    | inl (inl p) ↦ inl p
    | inl (inr e) ↦ inr (_, this_line b, e)
    | inr (l, w, e) ↦ inr (l, behind_line b w, e)
  ],
)

-- The objects that are collected are those that a line of the section names.
pub objects_of-Names :
    (o : Name) (objects lines : List Name)
    → (has o (objects_of objects lines) ≡ true) ↔ ((has o objects ≡ true) ⊎ Names lines o)
unfolding objects_of
objects_of-Names o objects [] =
    (λ h. inl h, λ h. elim h [ inl p ↦ p | inr (l, w, e) ↦ absurd (not-Within w) ])
objects_of-Names o objects ([] ∷ lines) =
    let rest = objects_of-Names o objects lines in
    (
      λ h. elim (rest.0 h) [ inl p ↦ inl p | inr (l, w, e) ↦ inr (l, behind_empty w, e) ],
      λ h. rest.1 (elim h [ inl p ↦ inl p | inr (l, w, e) ↦ inr (l, Within-empty w, e) ]),
    )
objects_of-Names o objects ((c ∷ cs) ∷ lines) = elim (Bool-cases (is_space c)) [
  | inr e ↦ rw e (λ h. inl h, λ h. elim h [ inl p ↦ p | inr (l, w, f) ↦ cc (e, (Within-cons w).0) ])
  | inl e ↦
      let line = Names-line {c = c} {cs = cs} {lines = lines} o objects e in
      elim (Option-cases (object_of (c ∷ cs))) [
        | inl f ↦
            let rest = objects_of-Names o objects lines in
            rw (e, f)
              (
                λ h. line.1 (elim (rest.0 h) [ inl p ↦ inl (inl p) | inr n ↦ inr n ]),
                λ h. rest.1 (elim (line.0 h) [
                  | inl (inl p) ↦ inl p
                  | inl (inr g) ↦ cc (f, g)
                  | inr n ↦ inr n
                ]),
              )
        | inr (q, f) ↦
            let rest = objects_of-Names o (add q objects) lines in
            let added = has-add o q objects in
            rw (e, f)
              (
                λ h. line.1 (elim (rest.0 h) [
                  | inl p ↦
                      inl (elim (added.0 p) [ inl r ↦ inl r | inr g ↦ inr (f ∙ ap some (sym g)) ])
                  | inr n ↦ inr n
                ]),
                λ h. rest.1 (elim (line.0 h) [
                  | inl (inl p) ↦ inl (added.1 (inl p))
                  | inl (inr g) ↦ inl (added.1 (inr (some-injective (sym g ∙ f))))
                  | inr n ↦ inr n
                ]),
              )
      ]
]

-- The first header of the section, with the base and the size, and the lines behind it.
abbrev pub IsSection : List Name → ℕ → ℕ → List Name → Type 0
IsSection lines base size body =
    (before : List Name) × (head : Name) × (lines ≡ before ++ head ∷ body)
    × All (λ l. section_header l ≡ none) before
    × (section_header head ≡ some (base, size))

cons-injective : {x y : Name} {xs ys : List Name} → x ∷ xs ≡ y ∷ ys → (x ≡ y) × (xs ≡ ys)
cons-injective h = (cc h, cc h)

-- Whether the first line is the header.
module _ (line : Name) (lines : List Name) (base size : ℕ) (body : List Name) where
  IsSection-later :
      section_header line ≡ none
      → IsSection (line ∷ lines) base size body ↔ IsSection lines base size body
  IsSection-later e =
      (λ (before, head, split, others, found). shorter before (head, split, others, found), longer)
    where
      shorter :
          (before : List Name)
          → (head : Name) × (line ∷ lines ≡ before ++ head ∷ body)
            × All (λ l. section_header l ≡ none) before
            × (section_header head ≡ some (base, size))
          → IsSection lines base size body
      shorter [] (head, split, others, found) =
          cc (e, ap section_header (cons-injective split).0, found)
      shorter (b ∷ before) (head, split, (n, others), found) =
          (before, head, (cons-injective split).1, others, found)

      longer : IsSection lines base size body → IsSection (line ∷ lines) base size body
      longer (before, head, split, others, found) =
          (line ∷ before, head, ap (λ l. line ∷ l) split, (e, others), found)

  IsSection-here :
      (b s : ℕ)
      → section_header line ≡ some (b, s)
      → IsSection (line ∷ lines) base size body
        ↔ ◌≡◌ {A = (ℕ × ℕ) × List Name} ((b, s), lines) ((base, size), body)
  IsSection-here b s e = (
    λ (before, head, split, others, found). same before (head, split, others, found),
    λ h. ([], line, ap (λ z. line ∷ z.1) h, tt, e ∙ ap (λ z. some z.0) h),
  )
    where
      same :
          (before : List Name)
          → (head : Name) × (line ∷ lines ≡ before ++ head ∷ body)
            × All (λ l. section_header l ≡ none) before
            × (section_header head ≡ some (base, size))
          → ◌≡◌ {A = (ℕ × ℕ) × List Name} ((b, s), lines) ((base, size), body)
      same [] (head, split, others, found) =
          ap₂ (λ (z : ℕ × ℕ) (ls : List Name). (z, ls))
            (some-injective (sym e ∙ ap section_header (cons-injective split).0 ∙ found))
            (cons-injective split).1
      same (k ∷ before) (head, split, (n, others), found) =
          cc (e, ap section_header (cons-injective split).0, n)

-- The section is found where it is.
pub find_section_iff :
    (lines : List Name) (base size : ℕ) (body : List Name)
    → (find_section lines ≡ some ((base, size), body)) ↔ IsSection lines base size body
unfolding find_section
find_section_iff [] base size body = (
  λ h. cc h,
  λ (before, head, split, others, found). none_there before (head, split, others, found),
)
  where
    none_there :
        (before : List Name)
        → (head : Name) × ([] ≡ before ++ head ∷ body)
          × All (λ l. section_header l ≡ none) before
          × (section_header head ≡ some (base, size))
        → find_section [] ≡ some ((base, size), body)
    none_there [] (head, split, others, found) = cc split
    none_there (b ∷ before) (head, split, others, found) = cc split
find_section_iff (line ∷ lines) base size body = elim (Option-cases (section_header line)) [
  | inl e ↦
      let later = IsSection-later line lines base size body e in
      let rest = find_section_iff lines base size body in
      rw (e, find_section) (λ h. later.1 (rest.0 h), λ h. rest.1 (later.0 h))
  | inr ((b, s), e) ↦
      let here = IsSection-here line lines base size body b s e in
      rw (e, find_section) (λ h. here.1 (some-injective h), λ h. ap some (here.0 h))
]
