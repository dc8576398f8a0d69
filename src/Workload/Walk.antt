-- ===== src/Workload/Walk.antt =====
-- host/container/pack_vela_workload.py, `extract_cms`: its loop over the driver actions.
use mps4_prototyping_board.Prelude.{
  ℕ, zero, suc, ◌+◌, ◌%◌, ◌≡◌, ◌≢◌, ◌<◌, ◌⊎◌, inl, inr, refl, subst, arith, List, [], ◌∷◌, Option,
  none, some, length, get_elem?, ◌==◌, Result, err, Bool-cases, codes,
}
use mps4_prototyping_board.Bytes.{Bytes, words, starts_with}
use mps4_prototyping_board.Workload.{
  CopError, out_of_fuel, action_of, Move, next, stop, take_stream, act, walk, extract_cms,
  da_optimizer_config, da_command_stream, da_nop,
}

-- A round that goes on was at a word of the payload, and comes to a later one; one that ends does not
-- lack fuel.
abbrev Advances : Bytes → ℕ → Move → Type 0
Advances cop i (stop r) = r ≢ err out_of_fuel
Advances cop i (next j found) = (i < j) × (i < length (words cop))

get_elem?-some {ℓ} :
    {A : Type ℓ} (xs : List A) (i : ℕ) (x : A) → get_elem? xs i ≡ some x → i < length xs
get_elem?-some [] i x h = cc h
get_elem?-some (y ∷ xs) zero x h = omega arith
get_elem?-some (y ∷ xs) (suc i) x h = omega (arith, get_elem?-some xs i x h)

take_stream-Advances :
    (cop : Bytes) (i w : ℕ) (cms : Option Bytes)
    → i < length (words cop)
    → Advances cop i (take_stream cop i w cms)
take_stream-Advances cop i w none h = (omega arith, h)
take_stream-Advances cop i w (some c) h = λ e. cc e

act-Advances :
    (cop : Bytes) (i : ℕ) (o : Option ℕ) (cms : Option Bytes)
    → get_elem? (words cop) i ≡ o
    → Advances cop i (act cop i o cms)
unfolding act
act-Advances cop i none none e = λ h. cc h
act-Advances cop i none (some c) e = λ h. cc h
act-Advances cop i (some w) cms e =
    let inside = get_elem?-some (words cop) i w e in
    elim (Bool-cases (action_of w == da_optimizer_config)) [
      | inl p ↦ rw p (omega arith, inside)
      | inr p ↦ elim (Bool-cases (action_of w == da_command_stream)) [
        | inl q ↦ rw (p, q) (take_stream-Advances cop i w cms inside)
        | inr q ↦ elim (Bool-cases (action_of w == da_nop)) [
          | inl r ↦ rw (p, q, r) (omega arith, inside)
          | inr r ↦ rw (p, q, r) (λ h. cc h)
        ]
      ]
    ]

pub Move-cases :
    (m : Move)
    → ((r : Result CopError Bytes) × (m ≡ stop r))
      ⊎ ((j : ℕ) × (found : Option Bytes) × (m ≡ next j found))
Move-cases (stop r) = inl (r, refl)
Move-cases (next j found) = inr (j, found, refl)

walk-ends :
    (fuel : ℕ) (cop : Bytes) (i : ℕ) (cms : Option Bytes)
    → 0 < fuel
    → length (words cop) < fuel + i
    → walk fuel cop i cms ≢ err out_of_fuel
unfolding walk
walk-ends zero cop i cms p h = absurd (omega arith)
walk-ends (suc fuel) cop i cms p h =
    let moved = act-Advances cop i (get_elem? (words cop) i) cms refl in
    elim (Move-cases (act cop i (get_elem? (words cop) i) cms)) [
      | inl (r, e) ↦ rw (e, walk) (subst (Advances cop i) e moved)
      | inr (j, found, e) ↦
          let (ahead, inside) = subst (Advances cop i) e moved in
          rw (e, walk) (walk-ends fuel cop j found (omega arith) (omega arith))
    ]

-- `extract_cms` returns for every payload: its loop over the driver actions ends, with the stream or with
-- one of the code's errors.
pub extract_cms_total : (cop : Bytes) → extract_cms cop ≢ err out_of_fuel
unfolding extract_cms
extract_cms_total cop = elim (Bool-cases (starts_with (codes "COP1") cop)) [
  | inr e ↦ rw e (λ h. cc h)
  | inl e ↦ elim (Bool-cases (length cop % 4 == 0)) [
    | inr f ↦ rw (e, f) (λ h. cc h)
    | inl f ↦
        rw (e, f) (walk-ends (suc (length (words cop))) cop 1 none (omega arith) (omega arith))
  ]
]
