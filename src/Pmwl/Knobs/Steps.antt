-- ===== src/Pmwl/Knobs/Steps.antt =====
-- host/lib/pmwl.py, `knobs`: what each of its steps writes.
use mps4_prototyping_board.Prelude.{
  ℕ, zero, suc, ◌+◌, ◌≡◌, ◌≢◌, ◌≤◌, ◌<◌, ◌⊎◌, refl, sym, ap, ◌∙◌, arith, bit_and, List, [], ◌∷◌,
  true, not, ◌&&◌, ◌||◌, Option, none, some, ltb, leb, ◌==◌, Result, ok, >>=-eq-ok, refuse_if-eq-ok,
  Name, codes, length, get_or, ok-injective, or_raise,
}
use mps4_prototyping_board.Pmwl.{off_word}
use mps4_prototyping_board.Pmwl.Knobs.{
  KnobError, value_error, key_error, split_two, axi_channels, axi_chan, regioncfg, qconfig,
  mem_attr, attr_of, set_at, put_axi, put_ports, put_given, put_power, put_fast, get_key,
  put_profile, fast_is_sram, axi_limit_fields, power_ctrl_mask, onchip_start, onchip_end,
  ta_profiles, is_key, reserved_bits, power_outside, fast_outside, fast_port, unknown_profile,
  power_ctrl, fast_base, ta_profile,
}

-- What a value that may be missing puts in its word.
abbrev pub or_off : Option ℕ → ℕ
or_off none = off_word
or_off (some v) = v

-- What must hold of a value where it is given.
abbrev pub Given : (ℕ → Type 0) → Option ℕ → Type 0
Given P none = Unit
Given P (some v) = P v

pub same_word : (i v : ℕ) (k : List ℕ) → i < length k → get_or (set_at i v k) i 0 ≡ v
unfolding set_at
same_word i v [] h = absurd (omega arith)
same_word zero v (x ∷ k) h = refl
same_word (suc i) v (x ∷ k) h = same_word i v k (omega arith)

other_word : (i j v : ℕ) (k : List ℕ) → i ≢ j → get_or (set_at i v k) j 0 ≡ get_or k j 0
unfolding set_at
other_word i j v [] h = refl
other_word zero zero v (x ∷ k) h = absurd (h refl)
other_word zero (suc j) v (x ∷ k) h = refl
other_word (suc i) zero v (x ∷ k) h = refl
other_word (suc i) (suc j) v (x ∷ k) h = other_word i j v k (λ e. h (ap suc e))

-- The word `j` is what it was.
abbrev pub Keeps : ℕ → List ℕ → List ℕ → Type 0
Keeps j k l = get_or l j 0 ≡ get_or k j 0

pub stays : (j : ℕ) (k l : List ℕ) → ◌≡◌ {A = Result KnobError (List ℕ)} (ok k) (ok l) → Keeps j k l
stays j k l h = ap (λ m. get_or m j 0) (sym (ok-injective h))

pub put_axi-Keeps : (j : ℕ) (axi : Name) (k l : List ℕ) → put_axi axi k ≡ ok l → 1 ≤ j → Keeps j k l
unfolding put_axi
put_axi-Keeps j [] k l h n = stays j k l h
put_axi-Keeps j (c ∷ cs) k l h n =
    let ((port, chan), e, h0) = >>=-eq-ok (or_raise value_error (split_two (c ∷ cs))) _ h in
    let (sel, found, h1) = >>=-eq-ok (or_raise key_error (get_key chan axi_channels)) _ h0 in
    stays j _ l h1 ∙ other_word axi_chan j _ k (omega arith)

-- The ports stand in words 1 to 6.
pub put_ports-Keeps :
    (j : ℕ) (ports : List (Name × Name)) (k l : List ℕ)
    → put_ports ports k ≡ ok l
    → ((i : ℕ) → 1 ≤ i → i ≤ 6 → i ≢ j)
    → Keeps j k l
unfolding put_ports
put_ports-Keeps j [] k l h n = stays j k l h
put_ports-Keeps j (row ∷ rows) k l h n =
    let ports = row ∷ rows in
    let (weights, e0, h0) = >>=-eq-ok (attr_of (codes "const") ports) _ h in
    let (arena, e1, h1) = >>=-eq-ok (attr_of (codes "arena") ports) _ h0 in
    let (fast, e2, h2) = >>=-eq-ok (attr_of (codes "fast") ports) _ h1 in
    let (cmd, e3, h3) = >>=-eq-ok (attr_of (codes "cmd") ports) _ h2 in
    stays j _ l h3
    ∙ other_word (mem_attr + 3) j _ _ (n (mem_attr + 3) (omega arith) (omega arith))
    ∙ other_word (mem_attr + 2) j _ _ (n (mem_attr + 2) (omega arith) (omega arith))
    ∙ other_word (mem_attr + 1) j _ _ (n (mem_attr + 1) (omega arith) (omega arith))
    ∙ other_word mem_attr j _ _ (n mem_attr (omega arith) (omega arith))
    ∙ other_word qconfig j _ _ (n qconfig (omega arith) (omega arith))
    ∙ other_word regioncfg j _ k (n regioncfg (omega arith) (omega arith))

-- The step wrote the value where one is given, and keeps the other words.
pub Writes : ℕ → Option ℕ → List ℕ → List ℕ → Type 0
Writes i none k l = (j : ℕ) → Keeps j k l
Writes i (some v) k l = (get_or l i 0 ≡ v) × ((j : ℕ) → i ≢ j → Keeps j k l)

writes :
    (i v : ℕ) (k l : List ℕ)
    → ◌≡◌ {A = Result KnobError (List ℕ)} (ok (set_at i v k)) (ok l)
    → i < length k
    → Writes i (some v) k l
unfolding Writes
writes i v k l h n =
    (stays i _ l h ∙ same_word i v k n, λ j ne. stays j _ l h ∙ other_word i j v k ne)

pub put_given-Writes :
    (field : ℕ) (o : Option ℕ) (k l : List ℕ)
    → put_given field o k ≡ ok l
    → field < length k
    → Writes field o k l × Given (λ v. bit_and v axi_limit_fields ≡ v) o
unfolding put_given Writes
put_given-Writes field none k l h n = (λ j. stays j k l h, tt)
put_given-Writes field (some v) k l h n =
    let (clear, h0) = refuse_if-eq-ok (not (bit_and v axi_limit_fields == v)) reserved_bits _ h in
    (writes field v k l h0 n, ground (arith, clear))

pub put_power-Writes :
    (o : Option ℕ) (k l : List ℕ)
    → put_power o k ≡ ok l
    → power_ctrl < length k
    → Writes power_ctrl o k l × Given (λ v. v ≤ power_ctrl_mask) o
unfolding put_power Writes
put_power-Writes none k l h n = (λ j. stays j k l h, tt)
put_power-Writes (some v) k l h n =
    let (inside, h0) = refuse_if-eq-ok (ltb power_ctrl_mask v) power_outside _ h in
    (writes power_ctrl v k l h0 n, ground (arith, inside))

-- A base for the fast scratch that the on-chip SRAM takes.
abbrev pub IsFastBase : List (Name × Name) → ℕ → Type 0
IsFastBase ports v =
    (bit_and v 0xFF ≡ 0) × (onchip_start ≤ v) × (v < onchip_end) × (fast_is_sram ports ≡ true)

pub put_fast-Writes :
    (o : Option ℕ) (ports : List (Name × Name)) (k l : List ℕ)
    → put_fast o ports k ≡ ok l
    → fast_base < length k
    → Writes fast_base o k l × Given (IsFastBase ports) o
unfolding put_fast Writes
put_fast-Writes none ports k l h n = (λ j. stays j k l h, tt)
put_fast-Writes (some v) ports k l h n =
    let (inside, h0) =
      refuse_if-eq-ok (not (bit_and v 0xFF == 0) || not (leb onchip_start v && ltb v onchip_end))
        fast_outside _ h in
    let (port, h1) = refuse_if-eq-ok (not (fast_is_sram ports)) fast_port _ h0 in
    (
      writes fast_base v k l h1 n,
      (
        ground (arith, inside),
        ground (arith, inside),
        ground (arith, inside),
        ground (arith, port),
      ),
    )

pub put_profile-Writes :
    (o : Option ℕ) (k l : List ℕ)
    → put_profile o k ≡ ok l
    → ta_profile < length k
    → Writes ta_profile o k l × Given (λ v. (v ≡ 1) ⊎ (v ≡ 2)) o
unfolding put_profile Writes
put_profile-Writes none k l h n = (λ j. stays j k l h, tt)
put_profile-Writes (some v) k l h n =
    let (known, h0) = refuse_if-eq-ok (not (is_key v ta_profiles)) unknown_profile _ h in
    (writes ta_profile v k l h0 n, ground (arith, known))

pub written :
    (i : ℕ) (o : Option ℕ) (k l : List ℕ)
    → Writes i o k l
    → get_or k i 0 ≡ off_word
    → get_or l i 0 ≡ or_off o
unfolding Writes
written i none k l h off = h i ∙ off
written i (some v) k l h off = h.0

pub kept : (i j : ℕ) (o : Option ℕ) (k l : List ℕ) → Writes i o k l → i ≢ j → Keeps j k l
unfolding Writes
kept i j none k l h ne = h j
kept i j (some v) k l h ne = h.1 j ne
