-- ===== src/Prelude/Bits.antt =====
-- `&` and `|` at variables, as arithmetic on the binary digits. The native operations stand for
-- `bitwise`, a recursion on digits with fuel; here it is one equation for the lowest digit.
use Prim.Native.Nat.{
  ℕ, zero, suc, ◌+◌, ◌-◌, ◌*◌, ◌/◌, ◌%◌, ◌^◌, ◌≤◌, ◌<◌, min, max, bit_and, bit_or, digits,
  bit_and-bitwise, bit_or-bitwise,
}
use mathlib.Core.Path.{◌≡◌, refl, ap, ◌∙◌}
use native.Mathlib.Nat.{
  pow-suc, one-le-pow, div-add-mod, mod-lt, mod-eq_of_lt, add-mul-mod_self_left,
}
use native.Mathlib.Omega.{arith}

-- More fuel than the first number needs changes nothing.
digits-fuel : (z : ℕ → ℕ) (f : ℕ → ℕ → ℕ) (k a b : ℕ) → a ≤ k → digits z f k a b ≡ digits z f a a b
digits-fuel z f k a b h = search_fuel k a a b h (omega arith)
  where
    search_fuel : (k m a b : ℕ) → a ≤ k → a ≤ m → digits z f k a b ≡ digits z f m a b
    search_fuel zero zero a b p q = refl
    search_fuel zero (suc m) zero b p q = refl
    search_fuel zero (suc m) (suc a) b p q = elim p [ ]
    search_fuel (suc k) zero zero b p q = refl
    search_fuel (suc k) zero (suc a) b p q = elim q [ ]
    search_fuel (suc k) (suc m) zero b p q = refl
    search_fuel (suc k) (suc m) (suc a) b p q =
        rw (search_fuel k m (suc a / 2) (b / 2) (omega arith) (omega arith))

-- The lowest digit, and the others.
pub bit_and_digit : (m n : ℕ) → bit_and m n ≡ bit_and (m / 2) (n / 2) * 2 + min (m % 2) (n % 2)
bit_and_digit zero n = simp bit_and-bitwise (omega arith)
bit_and_digit (suc m) n =
    let shorter = digits-fuel (λ y. 0) min m (suc m / 2) (n / 2) (omega arith) in
    omega (arith, shorter, bit_and-bitwise (suc m) n, bit_and-bitwise (suc m / 2) (n / 2))

pub bit_or_digit : (m n : ℕ) → bit_or m n ≡ bit_or (m / 2) (n / 2) * 2 + max (m % 2) (n % 2)
bit_or_digit zero n = simp bit_or-bitwise (omega arith)
bit_or_digit (suc m) n =
    let shorter = digits-fuel (λ y. y) max m (suc m / 2) (n / 2) (omega arith) in
    omega (arith, shorter, bit_or-bitwise (suc m) n, bit_or-bitwise (suc m / 2) (n / 2))

zero-bit_and : (b : ℕ) → bit_and 0 b ≡ 0
zero-bit_and b = bit_and-bitwise 0 b

bit_or-zero_below : (k a : ℕ) → a ≤ k → bit_or a 0 ≡ a
bit_or-zero_below k zero h = refl
bit_or-zero_below zero (suc a) h = elim h [ ]
bit_or-zero_below (suc k) (suc a) h =
    omega (arith, bit_or_digit (suc a) 0, bit_or-zero_below k (suc a / 2) (omega arith))

bit_and-zero_below : (k a : ℕ) → a ≤ k → bit_and a 0 ≡ 0
bit_and-zero_below k zero h = refl
bit_and-zero_below zero (suc a) h = elim h [ ]
bit_and-zero_below (suc k) (suc a) h =
    omega (arith, bit_and_digit (suc a) 0, bit_and-zero_below k (suc a / 2) (omega arith))

pub bit_and-zero : (a : ℕ) → bit_and a 0 ≡ 0
bit_and-zero a = bit_and-zero_below a a (omega arith)

-- The `|` of a number of `k` bits with one above them is their sum.
pub bit_or_above : (k lo hi : ℕ) → lo < 2 ^ k → bit_or lo (hi * 2 ^ k) ≡ lo + hi * 2 ^ k
bit_or_above zero zero hi h = omega (arith, bit_or-bitwise 0 (hi * 2 ^ 0))
bit_or_above zero (suc lo) hi h = absurd (omega arith)
bit_or_above (suc k) lo hi h = rw bit_or_digit (
    rw (twice hi k, bit_or_above k (lo / 2) hi (omega (arith, pow-suc 2 k)))
      (omega (arith, pow-suc 2 k, even hi k, twice hi k)))
  where
    even : (q k : ℕ) → q * 2 ^ suc k ≡ q * 2 ^ k * 2
    even q k = omega (arith, ap (λ (t : ℕ). q * t) (pow-suc 2 k))

    twice : (q k : ℕ) → q * 2 ^ suc k / 2 ≡ q * 2 ^ k
    twice q k = omega (arith, even q k)

-- The remainder by twice a number, by the lowest digit.
mod_double : (q a : ℕ) → 0 < q → a % (q * 2) ≡ a / 2 % q * 2 + a % 2
mod_double q a h =
    let x = a / 2 % q * 2 + a % 2 in
    let whole : a ≡ x + q * 2 * (a / 2 / q) = omega (arith, div-add-mod (a / 2) q) in
    ap (λ (t : ℕ). t % (q * 2)) whole
    ∙ add-mul-mod_self_left x (q * 2) (a / 2 / q)
    ∙ mod-eq_of_lt (omega (arith, mod-lt (a / 2) h))

-- `&` with a mask of `k` ones is the remainder by `2 ^ k`. The mask is a variable, so that it stays
-- shut.
bit_and_ones : (k a m : ℕ) → m + 1 ≡ 2 ^ k → bit_and a m ≡ a % 2 ^ k
bit_and_ones zero a zero e = bit_and-zero a ∙ omega arith
bit_and_ones zero a (suc m) e = absurd (omega arith)
bit_and_ones (suc k) a m e =
    let p = pow-suc 2 k in
    let rest = bit_and_ones k (a / 2) (m / 2) (omega arith) in
    rw (bit_and_digit a m, rest, p, mod_double (2 ^ k) a (one-le-pow k 2 (omega arith)))
      (omega arith)

pub bit_and_low : (k a : ℕ) → bit_and a (2 ^ k - 1) ≡ a % 2 ^ k
bit_and_low k a = bit_and_ones k a (2 ^ k - 1) (omega (arith, one-le-pow k 2 (omega arith)))

-- A sum bounds the `|`, and each argument the `&`.
pub bit_or_le_add : (a b : ℕ) → bit_or a b ≤ a + b
bit_or_le_add a b = go a a b (omega arith)
  where
    go : (fuel a b : ℕ) → a ≤ fuel → bit_or a b ≤ a + b
    go fuel zero b h = omega (arith, bit_or-bitwise 0 b)
    go zero (suc a) b h = absurd (omega arith)
    go (suc fuel) (suc a) b h =
        omega (arith, bit_or_digit (suc a) b, go fuel (suc a / 2) (b / 2) (omega arith))

pub bit_and_le : (a b : ℕ) → bit_and a b ≤ b
bit_and_le a b = go a a b (omega arith)
  where
    go : (fuel a b : ℕ) → a ≤ fuel → bit_and a b ≤ b
    go fuel zero b h = omega (arith, bit_and-bitwise 0 b)
    go zero (suc a) b h = absurd (omega arith)
    go (suc fuel) (suc a) b h =
        omega (arith, bit_and_digit (suc a) b, go fuel (suc a / 2) (b / 2) (omega arith))
