-- ===== src/Study/Statuses.antt =====
-- host/analysis/stage2a.py, `separation`, `inactivity_status` and `efficiency_status`.
use mps4_prototyping_board.Prelude.{
  ◌≡◌, ◌⊎◌, ◌↔◌, inl, inr, refl, List, Bool, true, false, Bool-cases,
}
use mps4_prototyping_board.Study.{
  Numbers, Spread, Metric, mac_active_ratio, mac_active_cycle_efficiency, dpu_given_mac_active,
  Separation, higher, lower, overlap, supported, refuted, Source, trm, driver, is_lower, Metrics,
  separation, judge, inactivity_status, efficiency_status, stalls_higher, stalls, h5_of, h6_of,
}

-- The order that the comparison stands for: no two numbers are below each other, and a third number
-- lies above the lower or below the higher of two.
pub record IsOrder (n : Numbers) : Type 0 where
  pub asym : (a b : n.Num) → n.lt a b ≡ true → n.lt b a ≡ false
  pub between : (a b c : n.Num) → n.lt a b ≡ true → (n.lt a c ≡ true) ⊎ (n.lt c b ≡ true)

abbrev pub flipped : Separation → Separation
flipped higher = lower
flipped lower = higher
flipped overlap = overlap

-- The minimum is not above the maximum.
abbrev pub IsSpread : (n : Numbers) → Spread n.Num → Type 0
IsSpread n s = n.lt s.max s.min ≡ false

-- Two spreads are not apart in both directions.
one_way :
    (n : Numbers) (law : IsOrder n) (s t : Spread n.Num)
    → IsSpread n s
    → IsSpread n t
    → n.lt t.max s.min ≡ true
    → n.lt s.max t.min ≡ false
one_way n law s t p q h = elim (Bool-cases (n.lt s.max t.min)) [
  | inr e ↦ e
  | inl e ↦ elim (law.between s.max t.min s.min e) [
    | inl a ↦ absurd (cc (a, p))
    | inr b ↦ elim (law.between s.min t.min t.max b) [
      | inl c ↦ absurd (cc (law.asym s.min t.max c, h))
      | inr d ↦ absurd (cc (d, q))
    ]
  ]
]

-- Over numbers that are ordered, a spread is HIGHER than another exactly as the other is LOWER than it, and
-- OVERLAP goes both ways.
pub separation-flipped :
    (n : Numbers) (law : IsOrder n) (s t : Spread n.Num)
    → IsSpread n s
    → IsSpread n t
    → separation n t s ≡ flipped (separation n s t)
unfolding separation
separation-flipped n law s t p q = elim (Bool-cases (n.lt t.max s.min)) [
  | inl e ↦ rw (e, one_way n law s t p q e) refl
  | inr e ↦ elim (Bool-cases (n.lt s.max t.min)) [ inl f ↦ rw (e, f) refl | inr f ↦ rw (e, f) refl ]
]

judge-supported_iff :
    (n : Numbers) (sep : Separation) (source : Source) (covers positive : Bool)
    → (judge n sep source covers positive ≡ supported)
      ↔ ((source ≡ trm) × (sep ≡ higher) × (covers ≡ true))
judge-supported_iff n higher trm true b = (λ h. (refl, refl, refl), λ h. refl)
judge-supported_iff n higher trm false b = (λ h. cc h, λ (x, y, z). cc z)
judge-supported_iff n higher driver true b = (λ h. cc h, λ (x, y, z). cc x)
judge-supported_iff n higher driver false b = (λ h. cc h, λ (x, y, z). cc x)
judge-supported_iff n lower source c b = (λ h. cc h, λ (x, y, z). cc y)
judge-supported_iff n overlap source c true = (λ h. cc h, λ (x, y, z). cc y)
judge-supported_iff n overlap source c false = (λ h. cc h, λ (x, y, z). cc y)

is_lower_iff : (s : Separation) → (is_lower s ≡ true) ↔ (s ≡ lower)
is_lower_iff higher = (λ h. cc h, λ h. cc h)
is_lower_iff lower = (λ h. refl, λ h. refl)
is_lower_iff overlap = (λ h. cc h, λ h. cc h)

-- A MAC-inactivity hypothesis is SUPPORTED exactly when its counter's meaning comes from the TRM, the
-- operator's MAC-active ratio separates LOWER from the reference's, its counter separates HIGHER, and the
-- counter's median excess is not below the missing MAC-active ratio. So a counter whose meaning comes
-- from the driver never makes one SUPPORTED.
pub inactivity_status-supported_iff :
    (n : Numbers) (op ref : Metrics n) (metric : Metric) (source : Source)
    → (inactivity_status n op ref metric source ≡ supported) ↔ (
        (source ≡ trm)
        × (separation n (op mac_active_ratio) (ref mac_active_ratio) ≡ lower)
        × (separation n (op metric) (ref metric) ≡ higher)
        × (n.leq
              (n.minus (ref mac_active_ratio).median (op mac_active_ratio).median)
              (n.minus (op metric).median (ref metric).median)
            ≡ true))
unfolding inactivity_status
inactivity_status-supported_iff n op ref metric source =
    let low = is_lower_iff (separation n (op mac_active_ratio) (ref mac_active_ratio)) in
    let judged = judge-supported_iff n (separation n (op metric) (ref metric)) source in
    elim (Bool-cases (is_lower (separation n (op mac_active_ratio) (ref mac_active_ratio)))) [
      | inl e ↦ rw e (
        λ h. let (a, b, c) = (judged _ _).0 h in (a, low.0 e, b, c),
        λ (a, b, c, d). (judged _ _).1 (a, c, d),
      )
      | inr e ↦ rw e (λ h. cc h, λ (a, b, c, d). cc (e, low.1 b))
    ]

h5-or-h6 :
    (n : Numbers) (c : Separation) (raised : List Metric)
    → ¬ ((h5_of n c raised ≡ supported) × (h6_of n c ≡ supported))
h5-or-h6 n lower raised = λ (a, b). cc a
h5-or-h6 n higher raised = λ (a, b). cc b
h5-or-h6 n overlap raised = λ (a, b). cc b

-- H5 and H6 are never SUPPORTED together, and both are REFUTED unless the active-cycle efficiency of the
-- operator separates LOWER from the reference's.
pub efficiency_status-exclusive :
    (n : Numbers) (op ref : Metrics n)
    → (¬ (
        ((efficiency_status n op ref).0 ≡ supported)
        × ((efficiency_status n op ref).1 ≡ supported)))
      × ((separation n (op mac_active_cycle_efficiency) (ref mac_active_cycle_efficiency) ≡ lower)
          ⊎ (efficiency_status n op ref ≡ (refuted, refuted)))
unfolding efficiency_status
efficiency_status-exclusive n op ref =
    let sep = separation n (op mac_active_cycle_efficiency) (ref mac_active_cycle_efficiency) in
    elim (Bool-cases (is_lower sep)) [
      | inl t ↦ rw t (
        h5-or-h6 n (separation n (op dpu_given_mac_active) (ref dpu_given_mac_active))
            (stalls_higher n op ref stalls),
        inl ((is_lower_iff sep).0 t),
      )
      | inr t ↦ rw t (λ (a, b). cc a, inr refl)
    ]
