-- ===== src/Baseline/Checks.antt =====
-- `run_checks` of host/analysis/baseline_gate.py and `stage1_checks` of host/analysis/stage1.py: when a
-- run fails none.
use mps4_prototyping_board.Prelude.{
  ℕ, ◌*◌, ◌≡◌, ◌≢◌, ◌≤◌, ◌<◌, refl, sym, ap, ap₂, ◌∙◌, arith, List, [], ◌∷◌, ◌++◌, Bool, true,
  false, not, ◌&&◌, Option, none, some, ltb, leb, All, All-append, All-split, inl, inr, ◌↔◌,
  Bool-cases, some-injective, leb→le, and_true,
}
use mps4_prototyping_board.Events.{is}
use mps4_prototyping_board.Events.Verdicts.{within_percent, distance}
use mps4_prototyping_board.Events.Validity.{is_iff}
use mps4_prototyping_board.Events.Judged.{within_percent_iff}
use mps4_prototyping_board.Baseline.{
  RunRow, RunCheck, r6_cycle, r6s_mac_le_npu, event, both_given, failing, shared_checks, run_checks,
  without_r6, stage1_checks, npu_active, mac_active, cycle,
}

pub failing_iff {ℓ} :
    {K : Type ℓ} (checks : List (K × Bool)) → (failing checks ≡ []) ↔ All (λ c. c.1 ≡ true) checks
unfolding failing
failing_iff [] = (λ h. tt, λ h. refl)
failing_iff ((k, holds) ∷ checks) = elim (Bool-cases holds) [
  | inl e ↦ rw e (λ h. (refl, (failing_iff checks).0 h), λ h. (failing_iff checks).1 h.1)
  | inr e ↦ rw e (λ h. cc h, λ h. cc h.0)
]

both_given_iff :
    (test : ℕ → ℕ → Bool) (o p : Option ℕ)
    → (both_given test o p ≡ true)
      ↔ ((a : ℕ) × (w : ℕ) × (o ≡ some a) × (p ≡ some w) × (test a w ≡ true))
both_given_iff test none p = (λ h. cc h, λ (a, w, e, f, g). cc e)
both_given_iff test (some x) none = (λ h. cc h, λ (a, w, e, f, g). cc f)
both_given_iff test (some x) (some y) = (
  λ h. (x, y, refl, refl, h),
  λ (a, w, e, f, g). ap₂ test (some-injective e) (some-injective f) ∙ g,
)

-- What both stages ask of a run: valid, rc 0, an output that matched, no overflow, and an active count
-- above zero and within the window.
pub record IsSound (r : RunRow) : Type 0 where
  pub valid : r.valid ≡ true
  pub rc : r.run_rc ≡ some 0
  pub vendor_rc : r.vendor_rc ≡ some 0
  pub same_output : r.ofm_mismatch ≡ some 0
  pub no_overflow : r.overflow ≡ false
  pub active :
      (a : ℕ) × (w : ℕ) × (event npu_active r.events ≡ some a)
      × (r.window_cycles ≡ some w)
      × (0 < a)
      × (a ≤ w)

shared_checks_iff : (r : RunRow) → All (λ c. c.1 ≡ true) (shared_checks r) ↔ IsSound r
unfolding shared_checks
shared_checks_iff r =
    let active =
      both_given_iff (λ a w. ltb 0 a && leb a w) (event npu_active r.events) r.window_cycles in
    (
      λ (a, (b, (c, (d, (e, u))))).
          let (v, o) = and_true (is 0 r.vendor_rc) _ c in
          let (x, w, p, q, t) = active.0 e in
          record {
            valid = a;
            rc = (is_iff 0 r.run_rc).0 b;
            vendor_rc = (is_iff 0 r.vendor_rc).0 v;
            same_output = (is_iff 0 r.ofm_mismatch).0 o;
            no_overflow = ground arith;
            active = (x, w, p, q, ground arith, ground arith);
          },
      λ k.
          let (x, w, p, q, s, t) = k.active in
          (
            k.valid,
            (
              (is_iff 0 r.run_rc).1 k.rc,
              (
                ap₂ (λ a b. a && b) ((is_iff 0 r.vendor_rc).1 k.vendor_rc)
                    ((is_iff 0 r.ofm_mismatch).1 k.same_output),
                (ap not k.no_overflow, (active.1 (x, w, p, q, ground arith), tt)),
              ),
            ),
          ),
    )

-- A run has no failed check of stage 0 exactly when it is sound and its cycle event is within one
-- percent of its window, which is not empty.
pub run_checks_iff :
    (r : RunRow)
    → (run_checks r ≡ []) ↔ (
        IsSound r
        × ((c : ℕ) × (w : ℕ) × (event cycle r.events ≡ some c)
            × (r.window_cycles ≡ some w)
            × (w ≢ 0)
            × (100 * distance c w ≤ w)))
unfolding run_checks
run_checks_iff r =
    let within = both_given_iff within_percent (event cycle r.events) r.window_cycles in
    let last = (r6_cycle, both_given within_percent (event cycle r.events) r.window_cycles) ∷ [] in
    let all = failing_iff (shared_checks r ++ last) in
    let shared = shared_checks_iff r in
    (
      λ h.
          let (front, (t, u)) = All-split (λ c. c.1 ≡ true) (shared_checks r) last (all.0 h) in
          let (c, w, p, q, test) = within.0 t in
          let (some_window, close) = (within_percent_iff c w).0 test in
          (shared.0 front, (c, w, p, q, some_window, close)),
      λ (sound, (c, w, p, q, some_window, close)).
          let test = within.1 (c, w, p, q, (within_percent_iff c w).1 (some_window, close)) in
          all.1 (All-append (λ c. c.1 ≡ true) (shared_checks r) last (shared.1 sound) (test, tt)),
    )

failing-append {ℓ} :
    {K : Type ℓ} (xs ys : List (K × Bool)) → failing (xs ++ ys) ≡ failing xs ++ failing ys
unfolding failing
failing-append [] ys = refl
failing-append ((k, holds) ∷ xs) ys = elim (Bool-cases holds) [
  | inl e ↦ rw e (failing-append xs ys)
  | inr e ↦ rw e (ap (λ l. k ∷ l) (failing-append xs ys))
]

append_nil_iff {ℓ} : {A : Type ℓ} (xs ys : List A) → (xs ++ ys ≡ []) ↔ ((xs ≡ []) × (ys ≡ []))
append_nil_iff [] ys = (λ h. (refl, h), λ h. h.1)
append_nil_iff (x ∷ xs) ys = (λ h. cc h, λ h. cc h.0)

-- The checks other than R6 stay.
abbrev Stays : RunCheck → Type 0
Stays k = (ks : List RunCheck) → without_r6 (k ∷ ks) ≡ k ∷ without_r6 ks

without_r6-failing :
    (xs : List (RunCheck × Bool)) (last : Bool)
    → All (λ c. Stays c.0) xs
    → without_r6 (failing (xs ++ (r6_cycle, last) ∷ [])) ≡ failing xs
unfolding failing without_r6
without_r6-failing [] true u = refl
without_r6-failing [] false u = refl
without_r6-failing ((k, holds) ∷ xs) last (p, q) = elim (Bool-cases holds) [
  | inl e ↦ rw e (without_r6-failing xs last q)
  | inr e ↦
      rw e
        (p (failing (xs ++ (r6_cycle, last) ∷ [])) ∙ ap (λ l. k ∷ l) (without_r6-failing xs last q))
]

stay_all : (r : RunRow) → All (λ c. Stays c.0) (shared_checks r)
unfolding shared_checks without_r6
stay_all r = (λ ks. refl, (λ ks. refl, (λ ks. refl, (λ ks. refl, (λ ks. refl, tt)))))

-- A run has no failed check of stage 1 exactly when it is sound and its mac_active count is at most its
-- npu_active count; the cycle event is not asked for.
pub stage1_checks_iff :
    (r : RunRow)
    → (stage1_checks r ≡ []) ↔ (
        IsSound r
        × ((a : ℕ) × (m : ℕ) × (event npu_active r.events ≡ some a)
            × (event mac_active r.events ≡ some m)
            × (m ≤ a)))
unfolding stage1_checks run_checks
stage1_checks_iff r =
    let below =
      both_given_iff (λ a m. leb m a) (event npu_active r.events) (event mac_active r.events) in
    let last = both_given within_percent (event cycle r.events) r.window_cycles in
    let mac =
      (
        r6s_mac_le_npu,
        both_given (λ a m. leb m a) (event npu_active r.events) (event mac_active r.events),
      )
      ∷ [] in
    let dropped = without_r6-failing (shared_checks r) last (stay_all r) in
    let parts = append_nil_iff (failing (shared_checks r)) (failing mac) in
    let shared = failing_iff (shared_checks r) in
    let whole = ap (λ l. l ++ failing mac) dropped in
    (
      λ h.
          let (x, y) = parts.0 (sym whole ∙ h) in
          let (a, m, p, q, t) = below.0 ((failing_iff mac).0 y).0 in
          ((shared_checks_iff r).0 (shared.0 x), (a, m, p, q, leb→le m a t)),
      λ (k, (a, m, p, q, t)).
          whole
          ∙ parts.1 (
            shared.1 ((shared_checks_iff r).1 k),
            (failing_iff mac).1 (below.1 (a, m, p, q, ground arith), tt),
          ),
    )
