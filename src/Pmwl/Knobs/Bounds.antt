-- ===== src/Pmwl/Knobs/Bounds.antt =====
-- host/lib/pmwl.py, `knobs`: the words that it returns.
use mps4_prototyping_board.Prelude.{
  some-injective, or_raise, or_raise-eq-ok, ok-injective, ℕ, zero, suc, ◌+◌, ◌*◌, ◌^◌, ◌≡◌, ◌≤◌,
  ◌<◌, refl, subst, ap, ◌∙◌, arith, bit_or, bit_and, List, [], ◌∷◌, Bool, true, false, not, ◌&&◌,
  ◌||◌, Option, none, some, ltb, leb, ◌==◌, if◌then◌else◌, replicate, ok, >>=-eq-ok,
  refuse_if-eq-ok, Name, codes, same_name, length, All, All-replicate, Bool-cases, inl, inr,
}
use mps4_prototyping_board.Prelude.Bits.{bit_or_le_add, bit_and_le}
use mps4_prototyping_board.Pmwl.{off_word, knob_count}
use mps4_prototyping_board.Pmwl.Knobs.{
  Wanted, axi_chan, regioncfg, qconfig, mem_attr, attr_sram, mem_attr_ext, mem_attr_sram, put_given,
  axi_sram, axi_ext, power_ctrl, fast_base, ta_profile, get_key, set_at, split_two, is_ext, put_axi,
  attr_of, put_ports, put_limit, put_power, put_fast, put_profile, fast_is_sram, knobs,
  axi_channels, axi_limit_fields, power_ctrl_mask, onchip_start, onchip_end, ta_profiles, is_key,
  value_error, key_error, reserved_bits, power_outside, fast_outside, fast_port, unknown_profile,
}

-- Sixteen words of 32 bits.
abbrev pub Fits : List ℕ → Type 0
Fits k = (length k ≡ knob_count) × All (λ w. w < 2 ^ 32) k

length-set_at : (i v : ℕ) (k : List ℕ) → length (set_at i v k) ≡ length k
unfolding set_at
length-set_at i v [] = refl
length-set_at zero v (x ∷ k) = refl
length-set_at (suc i) v (x ∷ k) = ap suc (length-set_at i v k)

All-set_at : (P : ℕ → Type 0) (i v : ℕ) (k : List ℕ) → P v → All P k → All P (set_at i v k)
unfolding set_at
All-set_at P i v [] h u = tt
All-set_at P zero v (x ∷ k) h (a, b) = (h, b)
All-set_at P (suc i) v (x ∷ k) h (a, b) = (a, All-set_at P i v k h b)

set_at-Fits : (i v : ℕ) (k : List ℕ) → v < 2 ^ 32 → Fits k → Fits (set_at i v k)
set_at-Fits i v k h (size, words) =
    (length-set_at i v k ∙ size, All-set_at (λ w. w < 2 ^ 32) i v k h words)

get_key-All {ℓ μ} :
    {A : Type ℓ} (P : A → Type μ) (key : Name) (rows : List (Name × A)) (out : A)
    → get_key key rows ≡ some out
    → All (λ r. P r.1) rows
    → P out
unfolding get_key
get_key-All P key [] out e u = cc e
get_key-All P key ((k, v) ∷ rows) out e (p, q) = elim (Bool-cases (same_name k key)) [
  | inl t ↦
      subst P
        (some-injective (subst (λ b. (if b then some v else get_key key rows) ≡ some out) t e)) p
  | inr t ↦
      get_key-All P key rows out
        (subst (λ b. (if b then some v else get_key key rows) ≡ some out) t e) q
]

axi_word_lt : (ext : Bool) (sel : ℕ) → sel ≤ 9 → bit_or (if ext then 2 ^ 8 else 0) sel < 2 ^ 32
axi_word_lt true sel h = omega (arith, bit_or_le_add (2 ^ 8) sel)
axi_word_lt false sel h = omega (arith, bit_or_le_add 0 sel)

pub put_axi-Fits : (axi : Name) (k l : List ℕ) → put_axi axi k ≡ ok l → Fits k → Fits l
unfolding put_axi
put_axi-Fits [] k l h f = subst Fits (ok-injective h) f
put_axi-Fits (c ∷ cs) k l h f =
    let ((port, chan), e, h0) = >>=-eq-ok (or_raise value_error (split_two (c ∷ cs))) _ h in
    let (sel, found, h1) = >>=-eq-ok (or_raise key_error (get_key chan axi_channels)) _ h0 in
    let small =
      get_key-All (λ v. v ≤ 9) chan axi_channels sel (or_raise-eq-ok key_error _ sel found)
        (
          omega arith,
          (
            omega arith,
            (
              omega arith,
              (
                omega arith,
                (omega arith, (omega arith, (omega arith, (omega arith, (omega arith, tt))))),
              ),
            ),
          ),
        ) in
    subst Fits (ok-injective h1) (set_at-Fits axi_chan _ k (axi_word_lt (is_ext port) sel small) f)

attr_of_le : (role : Name) (ports : List (Name × Name)) (v : ℕ) → attr_of role ports ≡ ok v → v ≤ 2
unfolding attr_of
attr_of_le role ports v h =
    let (port, e, h0) = >>=-eq-ok (or_raise key_error (get_key role ports)) _ h in
    let same = ok-injective h0 in ground (arith, same)

pub put_ports-Fits :
    (ports : List (Name × Name)) (k l : List ℕ) → put_ports ports k ≡ ok l → Fits k → Fits l
unfolding put_ports
put_ports-Fits [] k l h f = subst Fits (ok-injective h) f
put_ports-Fits (row ∷ rows) k l h f =
    let ports = row ∷ rows in
    let (weights, e0, h0) = >>=-eq-ok (attr_of (codes "const") ports) _ h in
    let (arena, e1, h1) = >>=-eq-ok (attr_of (codes "arena") ports) _ h0 in
    let (fast, e2, h2) = >>=-eq-ok (attr_of (codes "fast") ports) _ h1 in
    let (cmd, e3, h3) = >>=-eq-ok (attr_of (codes "cmd") ports) _ h2 in
    let a = attr_of_le (codes "const") ports weights e0 in
    let b = attr_of_le (codes "arena") ports arena e1 in
    let c = attr_of_le (codes "fast") ports fast e2 in
    let d = attr_of_le (codes "cmd") ports cmd e3 in
    let regions =
      let or2 =
        bit_or_le_add (bit_or (bit_or weights (arena * 2 ^ 2)) (fast * 2 ^ 4))
          (attr_sram * 2 ^ 6) in
      let or1 = bit_or_le_add (bit_or weights (arena * 2 ^ 2)) (fast * 2 ^ 4) in
      let or0 = bit_or_le_add weights (arena * 2 ^ 2) in
      set_at-Fits regioncfg _ k (omega (arith, or0, or1, or2, a, b, c)) f in
    subst Fits (ok-injective h3) (
      set_at-Fits (mem_attr + 3) mem_attr_ext _ (omega arith) (
        set_at-Fits (mem_attr + 2) mem_attr_ext _ (omega arith) (
          set_at-Fits (mem_attr + 1) mem_attr_sram _ (omega arith) (
            set_at-Fits mem_attr mem_attr_sram _ (omega arith)
              (set_at-Fits qconfig cmd _ (omega (arith, d)) regions)))))

pub put_given-Fits :
    (field : ℕ) (o : Option ℕ) (k l : List ℕ) → put_given field o k ≡ ok l → Fits k → Fits l
unfolding put_given
put_given-Fits field none k l h f = subst Fits (ok-injective h) f
put_given-Fits field (some v) k l h f =
    let (clear, h0) = refuse_if-eq-ok (not (bit_and v axi_limit_fields == v)) reserved_bits _ h in
    subst Fits (ok-injective h0)
      (set_at-Fits field v k (ground (arith, clear, bit_and_le v axi_limit_fields)) f)

pub put_power-Fits : (o : Option ℕ) (k l : List ℕ) → put_power o k ≡ ok l → Fits k → Fits l
unfolding put_power
put_power-Fits none k l h f = subst Fits (ok-injective h) f
put_power-Fits (some v) k l h f =
    let (inside, h0) = refuse_if-eq-ok (ltb power_ctrl_mask v) power_outside _ h in
    subst Fits (ok-injective h0) (set_at-Fits power_ctrl v k (ground (arith, inside)) f)

pub put_fast-Fits :
    (o : Option ℕ) (ports : List (Name × Name)) (k l : List ℕ)
    → put_fast o ports k ≡ ok l
    → Fits k
    → Fits l
unfolding put_fast
put_fast-Fits none ports k l h f = subst Fits (ok-injective h) f
put_fast-Fits (some v) ports k l h f =
    let (inside, h0) =
      refuse_if-eq-ok (not (bit_and v 0xFF == 0) || not (leb onchip_start v && ltb v onchip_end))
        fast_outside _ h in
    let (port, h1) = refuse_if-eq-ok (not (fast_is_sram ports)) fast_port _ h0 in
    subst Fits (ok-injective h1) (set_at-Fits fast_base v k (ground (arith, inside)) f)

put_profile-Fits : (o : Option ℕ) (k l : List ℕ) → put_profile o k ≡ ok l → Fits k → Fits l
unfolding put_profile
put_profile-Fits none k l h f = subst Fits (ok-injective h) f
put_profile-Fits (some v) k l h f =
    let (known, h0) = refuse_if-eq-ok (not (is_key v ta_profiles)) unknown_profile _ h in
    subst Fits (ok-injective h0) (set_at-Fits ta_profile v k (ground (arith, known)) f)

pub start_words-Fits : Fits (replicate knob_count off_word)
start_words-Fits = (refl, All-replicate (λ x. x < 2 ^ 32) knob_count off_word (omega arith))

-- What `knobs` returns is sixteen words of 32 bits, whatever was asked for.
pub knobs-Fits : (w : Wanted) (k : List ℕ) → knobs w ≡ ok k → Fits k
unfolding knobs put_limit
knobs-Fits w k h =
    let start = replicate knob_count off_word in
    let (k1, e1, h1) = >>=-eq-ok (put_axi w.axi start) _ h in
    let (k2, e2, h2) = >>=-eq-ok (put_ports w.ports k1) _ h1 in
    let (k3, e3, h3) = >>=-eq-ok (put_limit (codes "sram") axi_sram w.axi_limit k2) _ h2 in
    let (k4, e4, h4) = >>=-eq-ok (put_limit (codes "ext") axi_ext w.axi_limit k3) _ h3 in
    let (k5, e5, h5) = >>=-eq-ok (put_power w.power k4) _ h4 in
    let (k6, e6, h6) = >>=-eq-ok (put_fast w.fast w.ports k5) _ h5 in
    put_profile-Fits w.ta k6 k h6 (
      put_fast-Fits w.fast w.ports k5 k6 e6 (
        put_power-Fits w.power k4 k5 e5 (
          put_given-Fits axi_ext (get_key (codes "ext") w.axi_limit) k3 k4 e4 (
            put_given-Fits axi_sram (get_key (codes "sram") w.axi_limit) k2 k3 e3 (
              put_ports-Fits w.ports k1 k2 e2 (put_axi-Fits w.axi start k1 e1 start_words-Fits))))))
