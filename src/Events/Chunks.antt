-- ===== src/Events/Chunks.antt =====
-- host/lib/pmu_events_parse.py, `event_sets`: the sets of at most eight events.
use mps4_prototyping_board.Prelude.{
  List-cases, ok-injective, ℕ, zero, suc, ◌+◌, ◌-◌, ◌*◌, ◌/◌, ◌≡◌, ◌≤◌, ◌<◌, refl, sym, subst, ap,
  ◌∙◌, arith, List, [], ◌∷◌, ◌++◌, map, true, false, Option, none, some, leb, length, take, drop,
  drop-drop, take_all, length-take, length-drop, All, inl, inr, ◌⊎◌, ◌↔◌, Bool-cases, ok, has,
  sorted, place_in, has-cons, has-sorted,
}
use mps4_prototyping_board.Events.{
  nat_equality, slot_count, unique, outside, checked, range_from, chunks, event_sets, wanted,
}

-- The ids of the sets, one after the other.
unfoldable pub joined : List (ℕ × List ℕ) → List ℕ
joined [] = []
joined ((n, ids) ∷ sets) = ids ++ joined sets

-- The sets are numbered from `n` on.
abbrev pub Numbered : ℕ → List (ℕ × List ℕ) → Type 0
Numbered n [] = Unit
Numbered n ((m, ids) ∷ sets) = (m ≡ n) × Numbered (suc n) sets

-- Strictly ascending.
abbrev pub Ascending : List ℕ → Type 0
Ascending [] = Unit
Ascending (x ∷ xs) = All (λ y. x < y) xs × Ascending xs

abbrev chunk : List ℕ → ℕ → ℕ × List ℕ
chunk ids i = (i + 1, take slot_count (drop (i * slot_count) ids))

take-nil {ℓ} : {A : Type ℓ} (n : ℕ) → take {A = A} n [] ≡ []
take-nil zero = refl
take-nil (suc n) = refl

suc_sum : (m n : ℕ) → suc m + n ≡ suc (m + n)
suc_sum m n = omega arith

take-plus {ℓ} :
    {A : Type ℓ} (m n : ℕ) (xs : List A) → take m xs ++ take n (drop m xs) ≡ take (m + n) xs
take-plus zero n xs = ap (λ (k : ℕ). take k xs) (omega arith)
take-plus (suc m) n [] = take-nil n ∙ sym (ap (λ (k : ℕ). take k []) (suc_sum m n))
take-plus (suc m) n (x ∷ xs) =
    ap (λ l. x ∷ l) (take-plus m n xs) ∙ sym (ap (λ (k : ℕ). take k (x ∷ xs)) (suc_sum m n))

joined-range :
    (ids : List ℕ) (count start : ℕ)
    → joined (map (chunk ids) (range_from start count))
      ≡ take (count * slot_count) (drop (start * slot_count) ids)
unfolding joined range_from
joined-range ids zero start = refl
joined-range ids (suc count) start =
    let rest = joined-range ids count (suc start) in
    let moved : drop (suc start * slot_count) ids
        ≡ drop slot_count (drop (start * slot_count) ids) =
      ap (λ (k : ℕ). drop k ids) (omega arith)
      ∙ sym (drop-drop slot_count (start * slot_count) ids) in
    ap (λ l. take slot_count (drop (start * slot_count) ids) ++ l)
      (rest ∙ ap (take (count * slot_count)) moved)
    ∙ take-plus slot_count (count * slot_count) (drop (start * slot_count) ids)
    ∙ ap (λ (k : ℕ). take k (drop (start * slot_count) ids)) (omega arith)

Numbered-range_from :
    (ids : List ℕ) (count start : ℕ)
    → Numbered (suc start) (map (chunk ids) (range_from start count))
unfolding range_from
Numbered-range_from ids zero start = tt
Numbered-range_from ids (suc count) start = (omega arith, Numbered-range_from ids count (suc start))

sizes-range :
    (ids : List ℕ) (count start : ℕ)
    → (start + count) * slot_count < length ids + slot_count
    → All
        (λ s. (1 ≤ length s.1) × (length s.1 ≤ slot_count))
        (map (chunk ids) (range_from start count))
unfolding range_from
sizes-range ids zero start h = tt
sizes-range ids (suc count) start h =
    let size = length-take slot_count (drop (start * slot_count) ids) in
    let rest = length-drop (start * slot_count) ids in
    (
      (omega (arith, size, rest), omega (arith, size, rest)),
      sizes-range ids count (suc start) (omega arith),
    )

All-place_in {μ} :
    (P : ℕ → Type μ) (x : ℕ) (ys : List ℕ) → P x → All P ys → All P (place_in leb x ys)
unfolding place_in
All-place_in P x [] p u = (p, tt)
All-place_in P x (y ∷ ys) p (q, r) = elim (Bool-cases (leb x y)) [
  | inl e ↦ rw e (p, (q, r))
  | inr e ↦ rw e (q, All-place_in P x ys p r)
]

All-below : (x y : ℕ) (ys : List ℕ) → x < y → All (λ z. y < z) ys → All (λ z. x < z) ys
All-below x y [] h u = tt
All-below x y (z ∷ ys) h (a, b) = (omega arith, All-below x y ys h b)

place_in-Ascending :
    (x : ℕ) (ys : List ℕ) → has x ys ≡ false → Ascending ys → Ascending (place_in leb x ys)
unfolding place_in
place_in-Ascending x [] n u = (tt, tt)
place_in-Ascending x (y ∷ ys) n (a, b) = elim (Bool-cases (leb x y)) [
  | inl e ↦
      let below : x < y = ground (arith, e, n, has-cons x y ys) in
      rw e ((below, All-below x y ys below a), (a, b))
  | inr e ↦ rw e (
    All-place_in (λ z. y < z) x ys (ground arith) a,
    place_in-Ascending x ys (ground (arith, n, has-cons x y ys)) b,
  )
]

has-unique : (x : ℕ) (xs : List ℕ) → (has x (unique xs) ≡ true) ↔ (has x xs ≡ true)
unfolding unique
has-unique x [] = (λ h. h, λ h. h)
has-unique x (y ∷ xs) = elim (Bool-cases (has y (unique xs))) [
  | inl e ↦ rw e (
    λ h. (has-cons x y xs).1 (inr ((has-unique x xs).0 h)),
    λ h. elim ((has-cons x y xs).0 h) [
      | inl w ↦ subst (λ z. has z (unique xs) ≡ true) (sym w) e
      | inr r ↦ (has-unique x xs).1 r
    ],
  )
  | inr e ↦ rw e (ground (arith, has-unique x xs, has-cons x y xs, has-cons x y (unique xs)))
]

sorted-unique-Ascending : (xs : List ℕ) → Ascending (sorted leb (unique xs))
unfolding unique sorted
sorted-unique-Ascending [] = tt
sorted-unique-Ascending (x ∷ xs) = elim (Bool-cases (has x (unique xs))) [
  | inl e ↦ rw e (sorted-unique-Ascending xs)
  | inr e ↦ rw e (
      place_in-Ascending x (sorted leb (unique xs))
        (ground (arith, e, has-sorted leb x (unique xs))) (sorted-unique-Ascending xs))
]

has-nil : (x : ℕ) → has x [] ≡ false
unfolding has
has-nil x = refl

outside-has :
    (xs ys : List ℕ) (x : ℕ) → has x xs ≡ true → (has x ys ≡ true) ⊎ (has x (outside xs ys) ≡ true)
unfolding outside
outside-has [] ys x e = unfold has in cc e
outside-has (y ∷ xs) ys x e = elim ((has-cons x y xs).0 e) [
  | inl w ↦ elim (Bool-cases (has y ys)) [
    | inl t ↦ inl (subst (λ z. has z ys ≡ true) (sym w) t)
    | inr t ↦ rw t (inr ((has-cons x y (outside xs ys)).1 (inl w)))
  ]
  | inr r ↦ elim (outside-has xs ys x r) [
    | inl a ↦ inl a
    | inr b ↦ elim (Bool-cases (has y ys)) [
      | inl t ↦ rw t (inr b)
      | inr t ↦ rw t (inr ((has-cons x y (outside xs ys)).1 (inr b)))
    ]
  ]
]

chunks-Covers :
    (ids : List ℕ)
    → (joined (chunks ids) ≡ ids)
      × Numbered 1 (chunks ids)
      × All (λ s. (1 ≤ length s.1) × (length s.1 ≤ slot_count)) (chunks ids)
unfolding chunks
chunks-Covers ids =
    let count = (length ids + slot_count - 1) / slot_count in
    (
      joined-range ids count 0 ∙ take_all (count * slot_count) ids (omega arith),
      Numbered-range_from ids count 0,
      sizes-range ids count 0 (omega arith),
    )

-- The sets of a sweep over `ids`, of which the driver knows each.
pub record Covers (known ids : List ℕ) (sets : List (ℕ × List ℕ)) : Type 0 where
  pub ascending : Ascending (joined sets)
  pub same_ids : (x : ℕ) → (has x (joined sets) ≡ true) ↔ (has x ids ≡ true)
  pub numbered : Numbered 1 sets
  pub sizes : All (λ s. (1 ≤ length s.1) × (length s.1 ≤ slot_count)) sets
  pub all_known : (x : ℕ) → has x ids ≡ true → has x known ≡ true

sorted-Covers :
    (known ids : List ℕ)
    → ((x : ℕ) → has x ids ≡ true → has x known ≡ true)
    → Covers known ids (chunks (sorted leb (unique ids)))
sorted-Covers known ids h =
    let (whole, numbers, sizes) = chunks-Covers (sorted leb (unique ids)) in
    record {
      ascending = rw whole (sorted-unique-Ascending ids);
      same_ids = λ x. rw whole (ground (arith, has-sorted leb x (unique ids), has-unique x ids));
      numbered = numbers;
      sizes = sizes;
      all_known = h;
    }

-- What `event_sets` returns holds each requested id (by default, each id the driver knows) once, in
-- ascending order over the sets, and nothing else; the sets are numbered from 1 and hold one to
-- eight ids; and the driver knows all of them.
pub event_sets-Covers :
    (known : List ℕ) (ids : Option (List ℕ)) (sets : List (ℕ × List ℕ))
    → event_sets known ids ≡ ok sets
    → Covers known (wanted known ids) sets
unfolding event_sets
event_sets-Covers known none sets h =
    subst (Covers known known) (ok-injective h) (sorted-Covers known known (λ x e. e))
event_sets-Covers known (some ids) sets h =
    elim (List-cases (sorted leb (outside (unique ids) known))) [
      | inl e ↦
          subst (Covers known ids)
            (ok-injective (subst (λ l. checked l (chunks (sorted leb (unique ids))) ≡ ok sets) e h))
            (sorted-Covers known ids (λ x t.
              elim (outside-has (unique ids) known x ((has-unique x ids).1 t)) [
                | inl a ↦ a
                | inr b ↦ cc (
                  subst (λ l. has x l ≡ true) e
                      ((has-sorted leb x (outside (unique ids) known)).1 b),
                  has-nil x,
                )
              ]))
      | inr (x, xs, e) ↦
          absurd (cc (subst (λ l. checked l (chunks (sorted leb (unique ids))) ≡ ok sets) e h))
    ]
