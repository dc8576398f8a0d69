-- ===== src/Events/Judged.antt =====
-- host/lib/pmu_events_parse.py, `verdict`, `consistency` and `check_coverage`.
use mps4_prototyping_board.Prelude.{
  some-injective, ℕ, ◌+◌, ◌*◌, ◌≡◌, ◌≤◌, refl, sym, subst, ap₂, arith, List, [], ◌∷◌, Bool, true,
  ◌&&◌, Option, none, some, ltb, leb, ◌==◌, if◌then◌else◌, length, All, inl, inr, ◌↔◌, Bool-cases,
  Option-cases, subst₂, leb→le, ==_iff, ok, has, has-cons, and_true, ◌≢◌,
}
use mps4_prototyping_board.Events.{all_of, wanted, nat_equality}
use mps4_prototyping_board.Events.Verdicts.{
  Verdict, counted_nonzero, counted_zero, inconsistent, not_observed, observed, verdict, Row, fail,
  distance, within_percent, outcomes, concluded, consistency, same_set, check_coverage,
}

-- How many repeats counted zero, and how many more.
unfoldable pub zeros : List (Option ℕ) → ℕ
zeros [] = 0
zeros (none ∷ values) = zeros values
zeros (some v ∷ values) = (if v == 0 then 1 else 0) + zeros values

unfoldable pub positives : List (Option ℕ) → ℕ
positives [] = 0
positives (none ∷ values) = positives values
positives (some v ∷ values) = (if v == 0 then 0 else 1) + positives values

-- The verdict by these two numbers.
abbrev pub by_counts : ℕ → ℕ → ℕ → Verdict
by_counts wanted z p =
    if ltb (z + p) wanted
    then not_observed
    else if z == 0
    then counted_nonzero
    else if p == 0
    then counted_zero
    else inconsistent

length-observed :
    (values : List (Option ℕ)) → length (observed values) ≡ zeros values + positives values
unfolding observed zeros positives
length-observed [] = refl
length-observed (none ∷ values) = length-observed values
length-observed (some v ∷ values) = ground (arith, length-observed values)

all_positive :
    (values : List (Option ℕ)) → all_of (λ v. ltb 0 v) (observed values) ≡ (zeros values == 0)
unfolding observed all_of zeros
all_positive [] = refl
all_positive (none ∷ values) = all_positive values
all_positive (some v ∷ values) = ground (arith, all_positive values)

all_zero :
    (values : List (Option ℕ)) → all_of (λ v. v == 0) (observed values) ≡ (positives values == 0)
unfolding observed all_of positives
all_zero [] = refl
all_zero (none ∷ values) = all_zero values
all_zero (some v ∷ values) = ground (arith, all_zero values)

-- The verdict of an event depends only on how many of its valid repeats counted zero and how many
-- counted more: too few of both is NOT_OBSERVED, no zero COUNTED_NONZERO, only zeros COUNTED_ZERO,
-- and both kinds INCONSISTENT. The order of the repeats and the invalid ones do not matter.
pub verdict-counts :
    (repeats : ℕ) (values : List (Option ℕ))
    → verdict repeats values ≡ by_counts repeats (zeros values) (positives values)
unfolding verdict
verdict-counts repeats values =
    rw (length-observed values, all_positive values, all_zero values) refl

pub all_of-All {ℓ} :
    {A : Type ℓ} (test : A → Bool) (xs : List A)
    → (all_of test xs ≡ true) ↔ All (λ x. test x ≡ true) xs
unfolding all_of
all_of-All test [] = (λ h. tt, λ h. refl)
all_of-All test (x ∷ xs) = (
  λ h. (ground arith, (all_of-All test xs).0 (ground arith)),
  λ (a, b). let rest = (all_of-All test xs).1 b in ground (arith, a, rest),
)

-- The same ids are in both lists.
all_of-has :
    (test : ℕ → Bool) (xs : List ℕ)
    → (all_of test xs ≡ true) ↔ ((x : ℕ) → has x xs ≡ true → test x ≡ true)
unfolding all_of has
all_of-has test [] = (λ h x e. cc e, λ h. refl)
all_of-has test (y ∷ xs) = (
  λ h x e. elim ((has-cons x y xs).0 e) [
    | inl w ↦ subst (λ z. test z ≡ true) (sym w) (and_true (test y) _ h).0
    | inr r ↦ (all_of-has test xs).0 (and_true (test y) _ h).1 x r
  ],
  λ h.
      ap₂ (λ a b. a && b) (h y ((has-cons y y xs).1 (inl refl)))
        ((all_of-has test xs).1 (λ x e. h x ((has-cons x y xs).1 (inr e)))),
)

-- `check_coverage` raises no refusal exactly when the ids with rows are those that were asked for,
-- which by default are the ids the driver knows, whatever their order and repetitions.
pub check_coverage_iff :
    (known rows_by_ev : List ℕ) (expected : Option (List ℕ))
    → (check_coverage known rows_by_ev expected ≡ ok tt)
      ↔ ((x : ℕ) → (has x rows_by_ev ≡ true) ↔ (has x (wanted known expected) ≡ true))
unfolding check_coverage same_set
check_coverage_iff known rows_by_ev expected =
    let there = all_of-has (λ x. has x (wanted known expected)) rows_by_ev in
    let back = all_of-has (λ x. has x rows_by_ev) (wanted known expected) in
    elim (Bool-cases (same_set rows_by_ev (wanted known expected))) [
      | inl e ↦
          rw (e, check_coverage)
            (λ h x. (there.0 (and_true _ _ e).0 x, back.0 (and_true _ _ e).1 x), λ h. refl)
      | inr e ↦
          rw (e, check_coverage)
            (
              λ h. cc h,
              λ h.
                  absurd
                    (cc (e, ap₂ (λ a b. a && b) (there.1 (λ x. (h x).0)) (back.1 (λ x. (h x).1)))),
            )
    ]

-- A row with both numbers, of the given event.
abbrev pub Shows : Row → ℕ → ℕ → ℕ → Type 0
Shows r event v w = (r.ev_type ≡ event) × (r.event_value ≡ some v) × (r.window_cycles ≡ some w)

concluded_ne_fail : (xs : List Bool) → (concluded xs ≢ fail) ↔ All (λ o. o ≡ true) xs
unfolding concluded
concluded_ne_fail [] = (λ h. tt, λ h e. cc e)
concluded_ne_fail (x ∷ xs) = elim (Bool-cases (all_of (λ o. o) (x ∷ xs))) [
  | inl e ↦ rw (e, concluded) (λ h. (all_of-All (λ o. o) (x ∷ xs)).0 e, λ h p. cc p)
  | inr e ↦
      rw (e, concluded) (λ h. absurd (h refl), λ h p. cc (e, (all_of-All (λ o. o) (x ∷ xs)).1 h))
]

outcomes-All :
    (event : ℕ) (test : ℕ → ℕ → Bool) (rows : List Row)
    → All (λ o. o ≡ true) (outcomes event test rows)
      ↔ All (λ r. (v w : ℕ) → Shows r event v w → test v w ≡ true) rows
unfolding outcomes
outcomes-All event test [] = (λ h. tt, λ h. tt)
outcomes-All event test (r ∷ rows) =
    let (there, back) = outcomes-All event test rows in
    elim (Option-cases r.event_value) [
      | inl e ↦ rw e (λ h. (λ v w (a, b, c). absurd (cc (e, b)), there h), λ h. back h.1)
      | inr (x, e) ↦ elim (Option-cases r.window_cycles) [
        | inl f ↦ rw (e, f) (λ h. (λ v w (a, b, c). absurd (cc (f, c)), there h), λ h. back h.1)
        | inr (y, f) ↦ elim (Bool-cases (r.ev_type == event)) [
          | inl g ↦
              rw (e, f, g)
                (
                  λ h. (
                    λ v w (a, b, c).
                        subst₂ (λ p q. test p q ≡ true) (some-injective b) (some-injective c) h.0,
                    there h.1,
                  ),
                  λ h. (h.0 x y ((==_iff r.ev_type event).0 g, refl, refl), back h.1),
                )
          | inr g ↦
              rw (e, f, g)
                (λ h. (λ v w (a, b, c). absurd (ground (arith, a, g)), there h), λ h. back h.1)
        ]
      ]
    ]

All-iff {ℓ μ κ} :
    {A : Type ℓ} {P : A → Type μ} {Q : A → Type κ}
    → ((x : A) → P x → Q x)
    → (xs : List A) → All P xs
    → All Q xs
All-iff h [] u = tt
All-iff {P = P} {Q = Q} h (x ∷ xs) (p, q) = (h x p, All-iff {P = P} {Q = Q} h xs q)

pub within_percent_iff :
    (v w : ℕ) → (within_percent v w ≡ true) ↔ ((w ≢ 0) × (100 * distance v w ≤ w))
unfolding within_percent
within_percent_iff v w = ground arith

-- No consistency check fails exactly when each row of event 17 with both numbers has a window that
-- is not empty and that its value meets within one percent, and each such row of event 35 has a
-- value of at most its window.
pub consistency_iff :
    (rows : List Row)
    → (((consistency rows).0 ≢ fail) × ((consistency rows).1 ≢ fail)) ↔ (
        All (λ r. (v w : ℕ) → Shows r 17 v w → (w ≢ 0) × (100 * distance v w ≤ w)) rows
        × All (λ r. (v w : ℕ) → Shows r 35 v w → v ≤ w) rows)
unfolding consistency
consistency_iff rows =
    let cycles = concluded_ne_fail (outcomes 17 within_percent rows) in
    let active = concluded_ne_fail (outcomes 35 (λ v w. leb v w) rows) in
    let of_cycles = outcomes-All 17 within_percent rows in
    let of_active = outcomes-All 35 (λ v w. leb v w) rows in
    (
      λ (a, b). (
        All-iff (λ r h v w s. (within_percent_iff v w).0 (h v w s)) rows (of_cycles.0 (cycles.0 a)),
        All-iff (λ r h v w s. leb→le v w (h v w s)) rows (of_active.0 (active.0 b)),
      ),
      λ (a, b). (
        cycles.1 (of_cycles.1 (All-iff (λ r h v w s. (within_percent_iff v w).1 (h v w s)) rows a)),
        active.1 (of_active.1 (All-iff (λ r h v w s. ground (arith, h v w s)) rows b)),
      ),
    )
