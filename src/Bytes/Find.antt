-- ===== src/Bytes/Find.antt =====
-- `bytes.find` on a buffer that grows at its end: a position found stays, and bytes without the
-- pattern can be dropped but for the last ones, where it may straddle the end.
use mps4_prototyping_board.Prelude.{
  ℕ, zero, suc, ◌+◌, ◌≤◌, ◌<◌, ◌≡◌, refl, sym, ap, ◌∙◌, arith, [], ◌∷◌, ◌++◌, true, false, Option,
  none, some, length, drop, Bool-cases, inl, inr,
}
use mps4_prototyping_board.Bytes.{Bytes, starts_with, find}
use mathlib.Core.Option

pub starts_with-append_self : (pat rest : Bytes) → starts_with pat (pat ++ rest) ≡ true
unfolding starts_with
starts_with-append_self [] rest = refl
starts_with-append_self (p ∷ pat) rest = ground (arith, starts_with-append_self pat rest)

-- A prefix that is there stays when bytes are added behind.
pub starts_with-append_true :
    (pat bs more : Bytes) → starts_with pat bs ≡ true → starts_with pat (bs ++ more) ≡ true
unfolding starts_with
starts_with-append_true [] bs more h = refl
starts_with-append_true (p ∷ pat) [] more h = cc
starts_with-append_true (p ∷ pat) (b ∷ bs) more h =
    ground (arith, starts_with-append_true pat bs more)

-- Where the buffer is long enough, what is added behind does not matter.
pub starts_with-append_long :
    (pat bs more : Bytes)
    → length pat ≤ length bs
    → starts_with pat (bs ++ more) ≡ starts_with pat bs
unfolding starts_with
starts_with-append_long [] bs more h = refl
starts_with-append_long (p ∷ pat) [] more h = absurd (omega arith)
starts_with-append_long (p ∷ pat) (b ∷ bs) more h =
    rw (starts_with-append_long pat bs more (omega arith)) refl

-- A prefix is the first part of the buffer.
pub starts_with-eq-append :
    (pat bs : Bytes) → starts_with pat bs ≡ true → bs ≡ pat ++ drop (length pat) bs
unfolding starts_with
starts_with-eq-append [] bs h = refl
starts_with-eq-append (p ∷ pat) [] h = cc
starts_with-eq-append (p ∷ pat) (b ∷ bs) h = ground (arith, starts_with-eq-append pat bs)

starts_with-le : (pat bs : Bytes) → starts_with pat bs ≡ true → length pat ≤ length bs
unfolding starts_with
starts_with-le [] bs h = omega arith
starts_with-le (p ∷ pat) [] h = cc
starts_with-le (p ∷ pat) (b ∷ bs) h = ground (arith, starts_with-le pat bs)

find_here :
    (pat : Bytes) (b : ℕ) (bs : Bytes)
    → starts_with pat (b ∷ bs) ≡ true
    → find pat (b ∷ bs) ≡ some 0
unfolding find
find_here pat b bs h = rw h refl

find_later :
    (pat : Bytes) (b : ℕ) (bs : Bytes)
    → starts_with pat (b ∷ bs) ≡ false
    → find pat (b ∷ bs) ≡ Option.map suc (find pat bs)
unfolding find
find_later pat b bs h = rw h refl

found_here :
    (pat bs : Bytes) (i : ℕ)
    → i ≡ 0
    → starts_with pat bs ≡ true
    → (starts_with pat (drop i bs) ≡ true) × (i + length pat ≤ length bs)
found_here pat bs zero p e = (e, omega (arith, starts_with-le pat bs e))
found_here pat bs (suc i) p e = absurd (omega arith)

-- A pattern at the start is found there.
pub find_zero : (pat bs : Bytes) → 0 < length pat → starts_with pat bs ≡ true → find pat bs ≡ some 0
find_zero pat [] h e = absurd (omega (arith, starts_with-le pat [] e))
find_zero pat (b ∷ bs) h e = find_here pat b bs e

map-suc-eq-some :
    (o : Option ℕ) (i : ℕ) → Option.map suc o ≡ some i → (j : ℕ) × (o ≡ some j) × (i ≡ suc j)
map-suc-eq-some none i h = cc h
map-suc-eq-some (some j) i h = (j, refl, ground arith)

-- A position found: the pattern stands there, whole.
pub find-starts :
    (pat bs : Bytes) (i : ℕ)
    → find pat bs ≡ some i
    → (starts_with pat (drop i bs) ≡ true) × (i + length pat ≤ length bs)
find-starts pat [] i h = unfold find in cc h
find-starts pat (b ∷ bs) i h = elim (Bool-cases (starts_with pat (b ∷ bs))) [
  | inl e ↦ found_here pat (b ∷ bs) i (ground (arith, find_here pat b bs e)) e
  | inr e ↦
      let (j, p, q) = map-suc-eq-some (find pat bs) i (sym (find_later pat b bs e) ∙ h) in
      let (s, l) = find-starts pat bs j p in rw q (s, omega arith)
]

pub find-append_some :
    (pat bs more : Bytes) (i : ℕ) → find pat bs ≡ some i → find pat (bs ++ more) ≡ some i
find-append_some pat [] more i h = unfold find in cc h
find-append_some pat (b ∷ bs) more i h = elim (Bool-cases (starts_with pat (b ∷ bs))) [
  | inl e ↦
      find_here pat b (bs ++ more) (starts_with-append_true pat (b ∷ bs) more e)
      ∙ sym (find_here pat b bs e)
      ∙ h
  | inr e ↦
      let (j, p, q) = map-suc-eq-some (find pat bs) i (sym (find_later pat b bs e) ∙ h) in
      find_later pat b (bs ++ more) (
        starts_with-append_long pat (b ∷ bs) more (omega (arith, (find-starts pat (b ∷ bs) i h).1))
        ∙ e)
      ∙ rw (find-append_some pat bs more j p) (ap some (sym q))
]

-- Without the pattern in it, all of a buffer but its last `length pat - 1` bytes can be dropped.
pub find-append_none :
    (pat bs more : Bytes) (d : ℕ)
    → find pat bs ≡ none
    → 0 < length pat
    → d + length pat ≤ length bs + 1
    → find pat (bs ++ more) ≡ Option.map (λ i. d + i) (find pat (drop d bs ++ more))
find-append_none pat bs more zero h some_pat fits = sym (map_zero (find pat (bs ++ more)))
  where
    map_zero : (o : Option ℕ) → Option.map (λ i. 0 + i) o ≡ o
    map_zero none = refl
    map_zero (some i) = ap some (omega arith)
find-append_none pat [] more (suc d) h some_pat fits = absurd (omega arith)
find-append_none pat (b ∷ bs) more (suc d) h some_pat fits =
    elim (Bool-cases (starts_with pat (b ∷ bs))) [
      | inl e ↦ cc (h, find_here pat b bs e)
      | inr e ↦
          find_later pat b (bs ++ more)
            (starts_with-append_long pat (b ∷ bs) more (omega arith) ∙ e)
          ∙ ap (Option.map suc) (
              find-append_none pat bs more d
                (map_none (find pat bs) (sym (find_later pat b bs e) ∙ h)) some_pat (omega arith))
          ∙ map_map (find pat (drop d bs ++ more))
    ]
  where
    map_none : (o : Option ℕ) → Option.map suc o ≡ none → o ≡ none
    map_none none p = refl
    map_none (some i) p = cc p

    map_map :
        (o : Option ℕ) → Option.map suc (Option.map (λ i. d + i) o) ≡ Option.map (λ i. suc d + i) o
    map_map none = refl
    map_map (some i) = ap some (omega arith)
