-- ===== src/Baseline/Overall.antt =====
-- host/analysis/baseline_gate.py, `overall`.
use mps4_prototyping_board.Prelude.{
  ◌≡◌, ◌≢◌, ◌↔◌, refl, List, [], ◌∷◌, All, false, Bool-cases, inl, inr,
}
use mps4_prototyping_board.Baseline.Outcomes.{
  Outcome, mlek_equivalent, mlek_different, unresolved, among, overall,
}

-- None of the two worse outcomes is among them exactly when all of them are MLEK_EQUIVALENT.
among-All :
    (per : List Outcome)
    → ((among unresolved per ≡ false) × (among mlek_different per ≡ false))
      ↔ All (λ o. o ≡ mlek_equivalent) per
unfolding among
among-All [] = (λ h. tt, λ h. (refl, refl))
among-All (mlek_equivalent ∷ per) = (λ h. (refl, (among-All per).0 h), λ h. (among-All per).1 h.1)
among-All (mlek_different ∷ per) = (λ h. cc h.1, λ h. cc h.0)
among-All (unresolved ∷ per) = (λ h. cc h.0, λ h. cc h.0)

-- The overall outcome is MLEK_EQUIVALENT exactly when there is a workload and each of them has that
-- outcome.
pub overall_iff :
    (per : List Outcome)
    → (overall per ≡ mlek_equivalent) ↔ ((per ≢ []) × All (λ o. o ≡ mlek_equivalent) per)
unfolding overall
overall_iff [] = (λ h. cc h, λ h. absurd (h.0 refl))
overall_iff (o ∷ per) =
    let all = among-All (o ∷ per) in
    elim (Bool-cases (among unresolved (o ∷ per))) [
      | inl e ↦ rw (e, overall) (λ h. cc h, λ h. cc (e, (all.1 h.1).0))
      | inr e ↦ elim (Bool-cases (among mlek_different (o ∷ per))) [
        | inl f ↦ rw (e, f, overall) (λ h. cc h, λ h. cc (f, (all.1 h.1).1))
        | inr f ↦ rw (e, f, overall) (λ h. (λ p. cc p, all.0 (e, f)), λ h. refl)
      ]
    ]
