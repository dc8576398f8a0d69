-- ===== src/Ofm/Compare.antt =====
-- host/analysis/ofm_compare.py, `compare`: what its result says of the two OFMs.
use mps4_prototyping_board.Prelude.{
  ℕ, zero, suc, ◌+◌, ◌≡◌, ◌≢◌, ◌≤◌, ◌<◌, ◌↔◌, ◌⊎◌, inl, inr, refl, ap, ap₂, ◌∙◌, arith, List, [],
  ◌∷◌, map, true, false, Bool-cases, ◌==◌, ==_iff, length, get_or, All, has, has-cons, List-cases,
  ok, err, subst,
}
use mps4_prototyping_board.Bytes.{Bytes, IsByte}
use mps4_prototyping_board.Events.{nat_equality}
use mps4_prototyping_board.Ofm.{
  int8, minus_int, abs, differing, max_of, Comparison, LengthError, compare_bytes, compared,
  lengths_differ,
}

-- The two lists have different entries at a place.
abbrev pub Differ : Bytes → Bytes → ℕ → Type 0
Differ a b i = (i < length a) × (get_or a i 0 ≢ get_or b i 0)

differing-has :
    (start : ℕ) (a b : Bytes) (n : ℕ)
    → length a ≡ length b
    → (has n (differing start a b) ≡ true) ↔ ((i : ℕ) × (n ≡ start + i) × Differ a b i)
unfolding differing has
differing-has start [] [] n e = (λ h. absurd (cc h), λ (i, p, q). absurd (omega (arith, q.0)))
differing-has start (x ∷ a) (y ∷ b) n e =
    let (there, back) = differing-has (suc start) a b n (cc e) in
    elim (Bool-cases (x == y)) [
      | inl t ↦ rw t (
        λ h. let (i, p, (q, r)) = there h in (suc i, p ∙ omega arith, (omega (arith, q), r)),
        λ (i, p, (q, r)). elim (earlier i p q r) [
          | inl z ↦ absurd (z.1 ((==_iff x y).0 t))
          | inr w ↦ back w
        ],
      )
      | inr f ↦ rw f (
        λ h. elim ((has-cons n start (differing (suc start) a b)).0 h) [
          | inl w ↦ (0, w ∙ omega arith, (omega arith, λ same. cc (f, (==_iff x y).1 same)))
          | inr r ↦ let (i, p, (q, r)) = there r in (suc i, p ∙ omega arith, (omega (arith, q), r))
        ],
        λ (i, p, (q, r)).
            (has-cons n start (differing (suc start) a b)).1
              (elim (earlier i p q r) [ inl z ↦ inl z.0 | inr w ↦ inr (back w) ]),
      )
    ]
  where
    earlier :
        (i : ℕ)
        → n ≡ start + i
        → i < suc (length a)
        → get_or (x ∷ a) i 0 ≢ get_or (y ∷ b) i 0
        → ((n ≡ start) × (x ≢ y)) ⊎ ((k : ℕ) × (n ≡ suc start + k) × Differ a b k)
    earlier zero p q r = inl (p ∙ omega arith, r)
    earlier (suc k) p q r = inr (k, p ∙ omega arith, (omega (arith, q), r))
differing-has start [] (y ∷ b) n e = cc e
differing-has start (x ∷ a) [] n e = cc e

-- On bytes the difference is below 256 and is zero for equal bytes only.
abs_le : (x y : ℕ) → IsByte x → IsByte y → abs (minus_int (int8 x) (int8 y)) ≤ 255
abs_le x y p q = ground arith

abs_zero : (x y : ℕ) → IsByte x → IsByte y → abs (minus_int (int8 x) (int8 y)) ≡ 0 → x ≡ y
abs_zero x y p q h = ground arith

-- No place differs in equal lists only.
differing_nil : (start : ℕ) (a b : Bytes) → length a ≡ length b → differing start a b ≡ [] → a ≡ b
unfolding differing
differing_nil start [] [] e h = refl
differing_nil start [] (y ∷ b) e h = cc e
differing_nil start (x ∷ a) [] e h = cc e
differing_nil start (x ∷ a) (y ∷ b) e h = elim (Bool-cases (x == y)) [
  | inl t ↦
      ap₂ (λ z zs. z ∷ zs) ((==_iff x y).0 t) (differing_nil (suc start) a b (cc e) (rw t at h))
  | inr t ↦ let absent : start ∷ differing (suc start) a b ≡ [] = rw t at h in cc absent
]

max_of_bounds : (ns : List ℕ) → All (λ n. n ≤ max_of ns) ns
unfolding max_of
max_of_bounds [] = tt
max_of_bounds (n ∷ ns) = (ground arith, widen ns (max_of_bounds ns))
  where
    widen : (ks : List ℕ) → All (λ k. k ≤ max_of ns) ks → All (λ k. k ≤ max_of (n ∷ ns)) ks
    widen [] h = tt
    widen (k ∷ ks) h = (ground (arith, h.0), widen ks h.1)

max_of-le : (ns : List ℕ) (k : ℕ) → All (λ n. n ≤ k) ns → max_of ns ≤ k
unfolding max_of
max_of-le [] k h = omega arith
max_of-le (n ∷ ns) k h = ground (arith, max_of-le ns k h.1)

get_or-IsByte : (xs : Bytes) (i : ℕ) → All IsByte xs → IsByte (get_or xs i 0)
get_or-IsByte [] i h = omega arith
get_or-IsByte (x ∷ xs) zero h = h.0
get_or-IsByte (x ∷ xs) (suc i) h = get_or-IsByte xs i h.1

-- The absolute differences at given places.
abbrev gaps : Bytes → Bytes → List ℕ → List ℕ
gaps a b places = map abs (map (λ i. minus_int (int8 (get_or a i 0)) (int8 (get_or b i 0))) places)

gaps_le :
    (a b : Bytes) (places : List ℕ)
    → All IsByte a
    → All IsByte b
    → All (λ n. n ≤ 255) (gaps a b places)
gaps_le a b [] p q = tt
gaps_le a b (i ∷ places) p q = (
  abs_le (get_or a i 0) (get_or b i 0) (get_or-IsByte a i p) (get_or-IsByte b i q),
  gaps_le a b places p q,
)

-- Where the largest gap is zero, no place differs.
gaps_zero :
    (a b : Bytes) (places : List ℕ)
    → All IsByte a
    → All IsByte b
    → ((i : ℕ) → has i places ≡ true → get_or a i 0 ≢ get_or b i 0)
    → max_of (gaps a b places) ≡ 0
    → places ≡ []
gaps_zero a b [] p q d z = refl
gaps_zero a b (i ∷ places) p q d z =
    let x = get_or a i 0 in
    let y = get_or b i 0 in
    let bound = (max_of_bounds (gaps a b (i ∷ places))).0 in
    absurd (
      d i ((has-cons i i places).1 (inl refl))
        (abs_zero x y (get_or-IsByte a i p) (get_or-IsByte b i q) (omega (arith, bound, z))))

-- `compare` raises ValueError exactly for different lengths. For bytes of one length its positions are just
-- the places at which the two differ, as many as the mismatch count, and the largest absolute difference
-- is at most 255; there is no mismatch, and the largest difference is 0, exactly for equal OFMs.
pub compare_bytes_lem :
    (a b : Bytes)
    → All IsByte a
    → All IsByte b
    → (length a ≡ length b
        → (r : Comparison) × (compare_bytes a b ≡ ok r)
          × ((i : ℕ) → (has i r.positions ≡ true) ↔ Differ a b i)
          × (r.mismatch_count ≡ length r.positions)
          × (r.max_abs_diff ≤ 255)
          × ((r.mismatch_count ≡ 0) ↔ (a ≡ b))
          × ((r.max_abs_diff ≡ 0) ↔ (a ≡ b)))
      × (length a ≢ length b → (e : LengthError) × (compare_bytes a b ≡ err e))
unfolding compare_bytes compared
compare_bytes_lem a b p q = (
  λ same.
      let r = compared a b in
      let places = differing 0 a b in
      let at = λ (i : ℕ). differing-has 0 a b i same in
      let none_left = λ (z : places ≡ []). differing_nil 0 a b same z in
      (
        r,
        rw (is_same same) refl,
        λ i. (
          λ h. let (k, e, d) = (at i).0 h in subst (Differ a b) (omega (arith, e)) d,
          λ d. (at i).1 (i, omega arith, d),
        ),
        refl,
        max_of-le (gaps a b places) 255 (gaps_le a b places p q),
        (λ z. none_left (empty places z), λ e. ap length (no_places same e)),
        (
          λ z. none_left (gaps_zero a b places p q (differ_there same) z),
          λ e. ap (λ l. max_of (gaps a b l)) (no_places same e),
        ),
      ),
  λ other. (lengths_differ (length a) (length b), rw (not_same other) refl),
)
  where
    not_same : length a ≢ length b → (length a == length b) ≡ false
    not_same n = ground (arith, n)

    is_same : length a ≡ length b → (length a == length b) ≡ true
    is_same e = ground arith

    empty : (l : List ℕ) → length l ≡ 0 → l ≡ []
    empty [] e = refl
    empty (x ∷ l) e = cc e

    differ_there :
        length a ≡ length b → (i : ℕ) → has i (differing 0 a b) ≡ true → get_or a i 0 ≢ get_or b i 0
    differ_there same i h =
        let (k, e, d) = (differing-has 0 a b i same).0 h in
        let eq : k ≡ i = omega (arith, e) in (subst (Differ a b) eq d).1

    no_places : length a ≡ length b → a ≡ b → differing 0 a b ≡ []
    no_places same e = elim (List-cases (differing 0 a b)) [
      | inl z ↦ z
      | inr (i, rest, z) ↦ absurd (
          differ_there same i (rw z ((has-cons i i rest).1 (inl refl)))
            (ap (λ (l : List ℕ). get_or l i 0) e))
    ]
