-- ===== src/Regs/Numerals.antt =====
-- firmware/common/gen_npu_pmu_regs.py, the numbers of the rendered lines: `%u` and `%0nX`, and the masks.
use mps4_prototyping_board.Prelude.{
  ℕ, zero, suc, ◌+◌, ◌-◌, ◌*◌, ◌/◌, ◌%◌, ◌^◌, ◌≤◌, ◌<◌, ◌≡◌, refl, sym, ap, ◌∙◌, arith, [], ◌∷◌,
  ◌++◌, Bool-cases, inl, inr, ltb, if◌then◌else◌, length, replicate, All, All-append, All-replicate,
  Name, ltb→lt, ltb-false→le, subst, ap₂,
}
use native.Mathlib.Nat.{div-add-mod, mod-lt, pow-suc, one-le-pow, div-lt_self, mul-div_cancel}
use mps4_prototyping_board.Regs.Extract.{Place}
use mps4_prototyping_board.Regs.Render.{digit, digits, padded, mask}

abbrev undigit : ℕ → ℕ
undigit c = if ltb c 58 then c - 48 else c - 55

-- The number that digits stand for, after the number before them.
value : ℕ → ℕ → Name → ℕ
value base n [] = n
value base n (c ∷ cs) = value base (n * base + undigit c) cs

value-append :
    (base n : ℕ) (xs ys : Name) → value base n (xs ++ ys) ≡ value base (value base n xs) ys
unfolding value
value-append base n [] ys = refl
value-append base n (x ∷ xs) ys = value-append base (n * base + undigit x) xs ys

undigit-digit : (d : ℕ) → d < 16 → undigit (digit d) ≡ d
undigit-digit d h = ground arith

shorter_fits : (base fuel n : ℕ) → 2 ≤ base → n ≤ suc fuel → base ≤ n → n / base ≤ fuel
shorter_fits base fuel n lo h e =
    let less : n / base < n = div-lt_self (omega arith) (omega arith) in omega (arith, less)

value-digits :
    (base fuel n : ℕ) → 2 ≤ base → base ≤ 16 → n ≤ fuel → value base 0 (digits base fuel n) ≡ n
unfolding value digits
value-digits base zero n lo hi h = omega (arith, undigit-digit n (omega arith))
value-digits base (suc fuel) n lo hi h = elim (Bool-cases (ltb n base)) [
  | inl e ↦ rw e (omega (arith, undigit-digit n (omega (arith, ltb→lt n base e))))
  | inr e ↦
      let p = div-add-mod n base in
      let r : n % base < base = mod-lt n (omega arith) in
      let q = shorter_fits base fuel n lo h (ltb-false→le n base e) in
      rw
        (
          e,
          value-append base 0 (digits base fuel (n / base)) (digit (n % base) ∷ []),
          value-digits base fuel (n / base) lo hi q,
          undigit-digit (n % base) (omega (arith, r)),
        )
        (omega (arith, p))
]

value-padded : (base width : ℕ) (ds : Name) → value base 0 (padded width ds) ≡ value base 0 ds
unfolding padded value
value-padded base width ds =
    rw (value-append base 0 (replicate (width - length ds) 48) ds, zeros (width - length ds)) refl
  where
    zeros : (k : ℕ) → value base 0 (replicate k 48) ≡ 0
    zeros zero = refl
    zeros (suc k) = ap (λ (t : ℕ). value base t (replicate k 48)) (omega arith) ∙ zeros k

-- A character of a numeral.
abbrev pub IsDigit : ℕ → Type 0
IsDigit c = (48 ≤ c) × (c ≤ 70)

digits-All : (base fuel n : ℕ) → 2 ≤ base → base ≤ 16 → n ≤ fuel → All IsDigit (digits base fuel n)
unfolding digits
digits-All base zero n lo hi h = ((ground arith, ground arith), tt)
digits-All base (suc fuel) n lo hi h = elim (Bool-cases (ltb n base)) [
  | inl e ↦ rw e ((ground (arith, ltb→lt n base e), ground (arith, ltb→lt n base e)), tt)
  | inr e ↦
      let r : n % base < base = mod-lt n (omega arith) in
      let q = shorter_fits base fuel n lo h (ltb-false→le n base e) in
      rw e (
        All-append IsDigit (digits base fuel (n / base)) _ (digits-All base fuel (n / base) lo hi q)
          ((ground (arith, r), ground (arith, r)), tt))
]

padded-All : (width : ℕ) (ds : Name) → All IsDigit ds → All IsDigit (padded width ds)
unfolding padded
padded-All width ds h =
    All-append IsDigit (replicate (width - length ds) 48) ds
      (All-replicate IsDigit (width - length ds) 48 (omega arith)) h

head_eq : {a b : ℕ} {xs ys : Name} → a ∷ xs ≡ b ∷ ys → a ≡ b
head_eq h = cc h

tail_eq : {a b : ℕ} {xs ys : Name} → a ∷ xs ≡ b ∷ ys → xs ≡ ys
tail_eq h = cc h

-- Two texts that begin with digits and go on with another character.
cut :
    (xs ys : Name) (s : ℕ) (u v : Name)
    → All IsDigit xs
    → All IsDigit ys
    → ¬ IsDigit s
    → xs ++ s ∷ u ≡ ys ++ s ∷ v
    → (xs ≡ ys) × (u ≡ v)
cut [] [] s u v p q n e = (refl, tail_eq e)
cut [] (y ∷ ys) s u v p q n e = absurd (n (subst IsDigit (head_eq (sym e)) q.0))
cut (x ∷ xs) [] s u v p q n e = absurd (n (subst IsDigit (head_eq e) p.0))
cut (x ∷ xs) (y ∷ ys) s u v p q n e =
    let (a, b) = cut xs ys s u v p.1 q.1 n (tail_eq e) in (ap₂ (λ z zs. z ∷ zs) (head_eq e) a, b)

pub append_left_cancel : (xs u v : Name) → xs ++ u ≡ xs ++ v → u ≡ v
append_left_cancel [] u v e = e
append_left_cancel (x ∷ xs) u v e = append_left_cancel xs u v (tail_eq e)

-- A numeral with a character that is no digit after it can be read back.
pub decimal_cut :
    (n m s : ℕ) (u v : Name)
    → ¬ IsDigit s
    → digits 10 n n ++ s ∷ u ≡ digits 10 m m ++ s ∷ v
    → (n ≡ m) × (u ≡ v)
decimal_cut n m s u v stop e =
    let all = λ (k : ℕ). digits-All 10 k k (omega arith) (omega arith) (omega arith) in
    let back = λ (k : ℕ). value-digits 10 k k (omega arith) (omega arith) (omega arith) in
    let (a, b) = cut (digits 10 n n) (digits 10 m m) s u v (all n) (all m) stop e in
    (sym (back n) ∙ ap (value 10 0) a ∙ back m, b)

pub hexadecimal_cut :
    (width n m s : ℕ) (u v : Name)
    → ¬ IsDigit s
    → padded width (digits 16 n n) ++ s ∷ u ≡ padded width (digits 16 m m) ++ s ∷ v
    → (n ≡ m) × (u ≡ v)
hexadecimal_cut width n m s u v stop e =
    let all = λ (k : ℕ).
      padded-All width (digits 16 k k)
        (digits-All 16 k k (omega arith) (omega arith) (omega arith)) in
    let back = λ (k : ℕ).
      value-padded 16 width (digits 16 k k)
      ∙ value-digits 16 k k (omega arith) (omega arith) (omega arith) in
    let (a, b) = cut _ _ s u v (all n) (all m) stop e in
    (sym (back n) ∙ ap (value 16 0) a ∙ back m, b)

-- A mask at a known position shows its width.
pub mask-injective : (p q : Place) → p.pos ≡ q.pos → mask p ≡ mask q → p.width ≡ q.width
unfolding mask
mask-injective p q e h = powers p.width q.width (
    omega (
      arith,
      one-le-pow p.width 2 (omega arith),
      one-le-pow q.width 2 (omega arith),
      ones p.width q.width q.pos
          (subst (λ k. (2 ^ p.width - 1) * 2 ^ k ≡ (2 ^ q.width - 1) * 2 ^ q.pos) e h),
    ))
  where
    ones : (a b k : ℕ) → (2 ^ a - 1) * 2 ^ k ≡ (2 ^ b - 1) * 2 ^ k → 2 ^ a - 1 ≡ 2 ^ b - 1
    ones a b k g =
        let wide : 0 < 2 ^ k = one-le-pow k 2 (omega arith) in
        sym (mul-div_cancel (2 ^ a - 1) wide)
        ∙ ap (λ (t : ℕ). t / 2 ^ k) g
        ∙ mul-div_cancel (2 ^ b - 1) wide

    powers : (a b : ℕ) → 2 ^ a ≡ 2 ^ b → a ≡ b
    powers zero zero g = refl
    powers zero (suc b) g = absurd (omega (arith, g, pow-suc 2 b, one-le-pow b 2 (omega arith)))
    powers (suc a) zero g = absurd (omega (arith, g, pow-suc 2 a, one-le-pow a 2 (omega arith)))
    powers (suc a) (suc b) g = ap suc (powers a b (omega (arith, g, pow-suc 2 a, pow-suc 2 b)))
