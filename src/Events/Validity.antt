-- ===== src/Events/Validity.antt =====
-- host/lib/pmu_events_parse.py, `run_validity`: the terms of both modes.
use mps4_prototyping_board.Prelude.{
  subst, some-injective, ℕ, ◌-◌, ◌^◌, ◌≡◌, ◌≢◌, refl, sym, ap, ap₂, ◌∙◌, arith, List, [], ◌∷◌, map,
  Bool, true, ◌&&◌, ◌||◌, Option, none, some, length, take, All, inl, inr, ◌⊎◌, ◌↔◌, Bool-cases,
  Option-cases, bit_and, ==_iff, All-append, All-split, and_true,
}
use mps4_prototyping_board.Events.{
  Run, Mode, exact, model, Term, echoes, is, is_completed, completion, failed_of, none_failed,
  terms_of, pmu_terms, run_validity, status_cmd_end, status_faults, flags_completed,
  knob_not_honoured, instrumentation_events,
}

-- The record says that the counters of the codes counted over one window.
pub record IsCounted (r : Run) (codes : List ℕ) : Type 0 where
  pub cycle_valid : r.pmu.npu_pmu_cycle_valid ≡ 1
  pub progress : r.pmu.cycle_progress_observed ≡ 1
  pub fired_once : r.seam_fired ≡ some 1
  pub events_mode : r.pmu.instrumentation_mode_applied ≡ instrumentation_events
  pub all_applied : r.pmu.applied_event_count ≡ length codes
  pub all_valid : r.pmu.event_valid_mask ≡ 2 ^ length codes - 1
  pub same_codes : take (length codes) r.pmu.event_codes ≡ map some codes

-- What the run has to have done besides, by mode.
abbrev pub IsDone : Run → Mode → Type 0
IsDone r exact = (r.run_rc ≡ 0) × (r.required_flags_ok ≡ true)
IsDone r model =
    ((r.vendor_rc ≡ some 0) ⊎ (r.vendor_rc ≡ some 2))
    × (bit_and r.valid_flags flags_completed ≡ flags_completed)
    × ((st : ℕ) × (r.seam_npu_status ≡ some st)
        × (bit_and st status_cmd_end ≢ 0)
        × (bit_and st status_faults ≡ 0))
    × (r.seam_npu_qread ≡ some r.cms_len)
    × (r.run_rc ≢ knob_not_honoured)

pub is_iff : (n : ℕ) (o : Option ℕ) → (is n o ≡ true) ↔ (o ≡ some n)
is_iff n none = (λ h. cc h, λ h. cc h)
is_iff n (some v) =
    (λ h. ap some (ground arith), λ h. let e = some-injective h in ground (arith, e))

cons-injective {ℓ} :
    {A : Type ℓ} {x y : A} {xs ys : List A} → (x ∷ xs) ≡ (y ∷ ys) → (x ≡ y) × (xs ≡ ys)
cons-injective h = (cc, cc)

echoes_iff :
    (codes : List ℕ) (shown : List (Option ℕ))
    → (echoes codes shown ≡ some true) ↔ (take (length codes) shown ≡ map some codes)
unfolding echoes
echoes_iff [] shown = (λ h. refl, λ h. refl)
echoes_iff (c ∷ codes) [] = (λ h. cc h, λ h. cc h)
echoes_iff (c ∷ codes) (e ∷ shown) =
    let (there, back) = echoes_iff codes shown in
    elim (Bool-cases (is c e)) [
      | inl t ↦
          rw t
            (λ h. ap₂ (λ a b. a ∷ b) ((is_iff c e).0 t) (there h), λ h. back (cons-injective h).1)
      | inr f ↦ rw f (λ h. cc h, λ h. let e = (is_iff c e).1 (cons-injective h).0 in cc (e, f))
    ]

none_failed_iff :
    (terms : List (Term × Bool))
    → (none_failed (failed_of terms) ≡ true) ↔ All (λ t. t.1 ≡ true) terms
unfolding failed_of
none_failed_iff [] = (λ h. tt, λ h. refl)
none_failed_iff ((t, holds) ∷ terms) = elim (Bool-cases holds) [
  | inl e ↦ rw e (λ h. (refl, (none_failed_iff terms).0 h), λ h. (none_failed_iff terms).1 h.1)
  | inr e ↦ rw e (λ h. cc h, λ h. cc h.0)
]

-- The terms of the record together with the echo of the codes.
pmu_terms_iff :
    (r : Run) (codes : List ℕ) (echoed : Bool)
    → echoes codes r.pmu.event_codes ≡ some echoed
    → All (λ t. t.1 ≡ true) (pmu_terms r codes echoed) ↔ IsCounted r codes
unfolding pmu_terms
pmu_terms_iff r codes echoed e = (
  λ (a, (b, (c, (d, (f, (g, (h, u))))))). record {
    cycle_valid = (==_iff _ _).0 a;
    progress = (==_iff _ _).0 b;
    fired_once = (is_iff 1 r.seam_fired).0 c;
    events_mode = (==_iff _ _).0 d;
    all_applied = (==_iff _ _).0 f;
    all_valid = (==_iff _ _).0 g;
    same_codes = (echoes_iff codes r.pmu.event_codes).0 (e ∙ ap some h);
  },
  λ k. (
    (==_iff _ _).1 k.cycle_valid,
    (
      (==_iff _ _).1 k.progress,
      (
        (is_iff 1 r.seam_fired).1 k.fired_once,
        (
          (==_iff _ _).1 k.events_mode,
          (
            (==_iff _ _).1 k.all_applied,
            (
              (==_iff _ _).1 k.all_valid,
              (some-injective (sym e ∙ (echoes_iff codes r.pmu.event_codes).1 k.same_codes), tt),
            ),
          ),
        ),
      ),
    ),
  ),
)

is_completed_iff :
    (n : ℕ) (o : Option ℕ)
    → (is_completed n o ≡ true) ↔ (
        (st : ℕ) × (o ≡ some st) × (bit_and st status_cmd_end ≢ 0) × (bit_and st status_faults ≡ 0))
unfolding is_completed
is_completed_iff n none = (λ h. cc h, λ (st, e, a, b). cc e)
is_completed_iff n (some st) = (
  λ h. (st, refl, λ e. ground arith, ground arith),
  λ (st', e, a, b). let same = some-injective e in ground (arith, same, a, b),
)

-- What a mode asks for beside the record, by its terms.
terms_of_iff :
    (r : Run) (codes : List ℕ) (way : Mode) (echoed : Bool)
    → All (λ t. t.1 ≡ true) (terms_of r codes way echoed)
      ↔ (All (λ t. t.1 ≡ true) (pmu_terms r codes echoed) × IsDone r way)
unfolding terms_of completion
terms_of_iff r codes exact echoed = (
  λ (a, (b, rest)). (rest, ((==_iff _ _).0 a, b)),
  λ (rest, (a, b)). ((==_iff _ _).1 a, (b, rest)),
)
terms_of_iff r codes model echoed = (
  λ h.
      let (front, (v, (f, (s, (k, u))))) =
        All-split (λ t. t.1 ≡ true) (pmu_terms r codes echoed) (completion r) h in
      let (fin, qread) = and_true (is_completed r.cms_len r.seam_npu_status) _ s in
      (
        front,
        (
          vendor_iff.0 v,
          (==_iff _ _).0 f,
          (is_completed_iff r.cms_len r.seam_npu_status).0 fin,
          (is_iff r.cms_len r.seam_npu_qread).0 qread,
          λ e. ground (arith, k, e),
        ),
      ),
  λ (front, (v, f, s, q, k)).
      All-append (λ t. t.1 ≡ true) (pmu_terms r codes echoed) (completion r) front
        (
          vendor_iff.1 v,
          (
            (==_iff _ _).1 f,
            (
              ap₂ (λ a b. a && b) ((is_completed_iff r.cms_len r.seam_npu_status).1 s)
                  ((is_iff r.cms_len r.seam_npu_qread).1 q),
              (ground (arith, k), tt),
            ),
          ),
        ),
)
  where
    vendor_iff :
        ((is 0 r.vendor_rc || is 2 r.vendor_rc) ≡ true)
        ↔ ((r.vendor_rc ≡ some 0) ⊎ (r.vendor_rc ≡ some 2))
    vendor_iff = ground (arith, is_iff 0 r.vendor_rc, is_iff 2 r.vendor_rc)

none_failed→nil : (failed : List Term) → none_failed failed ≡ true → failed ≡ []
none_failed→nil [] h = refl
none_failed→nil (t ∷ failed) h = cc

-- `run_validity` finds a run valid, with no failed term, exactly when the PMU record says that the
-- counters of the codes counted over one window (its codes being those asked for, in order), and,
-- in mode `exact`, the rc is zero and the required flags are set, or, in mode `model`, the vendor rc
-- is 0 or 2, the completion flags are set, the command stream ended without a fault and was read to
-- its end, and the knobs were honoured.
pub run_validity_iff :
    (r : Run) (codes : List ℕ) (way : Mode)
    → (run_validity r codes way ≡ some (true, [])) ↔ (IsCounted r codes × IsDone r way)
unfolding run_validity
run_validity_iff r codes way = elim (Option-cases (echoes codes r.pmu.event_codes)) [
  | inl e ↦
      rw (e, run_validity)
        (λ h. cc h, λ (k, d). cc (sym e ∙ (echoes_iff codes r.pmu.event_codes).1 k.same_codes))
  | inr (echoed, e) ↦
      let all = none_failed_iff (terms_of r codes way echoed) in
      let done = terms_of_iff r codes way echoed in
      let counted = pmu_terms_iff r codes echoed e in
      rw (e, run_validity)
        (
          λ h.
              let (front, d) = done.0 (all.0 (ap (λ z. z.0) (some-injective h))) in
              (counted.0 front, d),
          λ (k, d).
              let good = all.1 (done.1 (counted.1 k, d)) in
              ap₂ (λ a b. some (a, b)) good (none_failed→nil _ good),
        )
]

-- Whether a run is valid is whether no term failed.
pub run_validity-none_failed :
    (r : Run) (codes : List ℕ) (way : Mode) (valid : Bool) (failed : List Term)
    → run_validity r codes way ≡ some (valid, failed)
    → none_failed failed ≡ valid
unfolding run_validity
run_validity-none_failed r codes way valid failed h =
    elim (Option-cases (echoes codes r.pmu.event_codes)) [
      | inl e ↦ cc (subst (λ o. judged o ≡ some (valid, failed)) e h)
      | inr (echoed, e) ↦
          let both = some-injective (subst (λ o. judged o ≡ some (valid, failed)) e h) in
          sym (ap (λ z. none_failed z.1) both) ∙ ap (λ z. z.0) both
    ]
  where
    judged : Option Bool → Option (Bool × List Term)
    judged none = none
    judged (some echoed) =
        let failed = failed_of (terms_of r codes way echoed) in some (none_failed failed, failed)
