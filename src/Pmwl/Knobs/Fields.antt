-- ===== src/Pmwl/Knobs/Fields.antt =====
-- host/lib/pmwl.py, `knobs`: what stands in the words that it returns.
use mps4_prototyping_board.Prelude.{
  ℕ, zero, suc, ◌<◌, ◌≡◌, ◌≢◌, ◌≤◌, ◌⊎◌, refl, sym, subst, ◌∙◌, arith, bit_and, List, replicate, ok,
  >>=-eq-ok, codes, get_or,
}
use mps4_prototyping_board.Pmwl.{off_word, knob_count}
use mps4_prototyping_board.Pmwl.Knobs.{
  Wanted, put_axi, put_ports, put_limit, put_power, put_fast, get_key, knobs, axi_limit_fields,
  power_ctrl_mask, axi_sram, axi_ext, power_ctrl, fast_base, ta_profile, axi_chan,
}
use mps4_prototyping_board.Pmwl.Knobs.Ports.{
  AxiWord, PortWords, PortWords-same, put_axi-AxiWord, put_ports-PortWords,
}
use mps4_prototyping_board.Pmwl.Knobs.Bounds.{
  put_axi-Fits, put_ports-Fits, put_given-Fits, put_power-Fits, put_fast-Fits, start_words-Fits,
}
use mps4_prototyping_board.Pmwl.Knobs.Steps.{
  or_off, Given, IsFastBase, Keeps, put_axi-Keeps, put_ports-Keeps, put_given-Writes,
  put_power-Writes, put_fast-Writes, put_profile-Writes, written, kept, Writes,
}

get_or-replicate : (n j : ℕ) → j < n → get_or (replicate n off_word) j 0 ≡ off_word
get_or-replicate zero j h = absurd (omega arith)
get_or-replicate (suc n) zero h = refl
get_or-replicate (suc n) (suc j) h = get_or-replicate n j (omega arith)

-- The words between the steps of `knobs`, and what each step wrote.
record Trace (w : Wanted) (k : List ℕ) : Type 0 where
  k2 : List ℕ
  k3 : List ℕ
  k4 : List ℕ
  k5 : List ℕ
  k6 : List ℕ
  still_off : (j : ℕ) → 7 ≤ j → Keeps j (replicate knob_count off_word) k2
  axi_put : AxiWord w.axi (get_or k2 axi_chan 0)
  ports_put : PortWords w.ports (λ j. get_or k2 j 0)
  sram : Writes axi_sram (get_key (codes "sram") w.axi_limit) k2 k3
  ext : Writes axi_ext (get_key (codes "ext") w.axi_limit) k3 k4
  power : Writes power_ctrl w.power k4 k5
  fast : Writes fast_base w.fast k5 k6
  profile : Writes ta_profile w.ta k6 k
  sram_fits : Given (λ v. bit_and v axi_limit_fields ≡ v) (get_key (codes "sram") w.axi_limit)
  ext_fits : Given (λ v. bit_and v axi_limit_fields ≡ v) (get_key (codes "ext") w.axi_limit)
  power_fits : Given (λ v. v ≤ power_ctrl_mask) w.power
  fast_fits : Given (IsFastBase w.ports) w.fast
  profile_fits : Given (λ v. (v ≡ 1) ⊎ (v ≡ 2)) w.ta

knobs-Trace : (w : Wanted) (k : List ℕ) → knobs w ≡ ok k → Trace w k
unfolding knobs put_limit
knobs-Trace w k h =
    let start = replicate knob_count off_word in
    let (k1, e1, h1) = >>=-eq-ok (put_axi w.axi start) _ h in
    let (k2, e2, h2) = >>=-eq-ok (put_ports w.ports k1) _ h1 in
    let (k3, e3, h3) = >>=-eq-ok (put_limit (codes "sram") axi_sram w.axi_limit k2) _ h2 in
    let (k4, e4, h4) = >>=-eq-ok (put_limit (codes "ext") axi_ext w.axi_limit k3) _ h3 in
    let (k5, e5, h5) = >>=-eq-ok (put_power w.power k4) _ h4 in
    let (k6, e6, h6) = >>=-eq-ok (put_fast w.fast w.ports k5) _ h5 in
    let sram = get_key (codes "sram") w.axi_limit in
    let ext = get_key (codes "ext") w.axi_limit in
    let f1 = put_axi-Fits w.axi start k1 e1 start_words-Fits in
    let f2 = put_ports-Fits w.ports k1 k2 e2 f1 in
    let f3 = put_given-Fits axi_sram sram k2 k3 e3 f2 in
    let f4 = put_given-Fits axi_ext ext k3 k4 e4 f3 in
    let f5 = put_power-Fits w.power k4 k5 e5 f4 in
    let f6 = put_fast-Fits w.fast w.ports k5 k6 e6 f5 in
    let (w3, g3) = put_given-Writes axi_sram sram k2 k3 e3 (omega (arith, f2.0)) in
    let (w4, g4) = put_given-Writes axi_ext ext k3 k4 e4 (omega (arith, f3.0)) in
    let (w5, g5) = put_power-Writes w.power k4 k5 e5 (omega (arith, f4.0)) in
    let (w6, g6) = put_fast-Writes w.fast w.ports k5 k6 e6 (omega (arith, f5.0)) in
    let (w7, g7) = put_profile-Writes w.ta k6 k h6 (omega (arith, f6.0)) in
    record {
      k2 = k2;
      k3 = k3;
      k4 = k4;
      k5 = k5;
      k6 = k6;
      still_off = λ j n.
          put_ports-Keeps j w.ports k1 k2 e2 (λ i a b. omega arith)
          ∙ put_axi-Keeps j w.axi start k1 e1 (omega arith);
      axi_put =
          subst (AxiWord w.axi)
            (sym (put_ports-Keeps axi_chan w.ports k1 k2 e2 (λ i a b. omega arith)))
            (put_axi-AxiWord w.axi start k1 e1 (omega arith) refl);
      ports_put = put_ports-PortWords w.ports k1 k2 e2 (omega (arith, f1.0)) (λ j a b.
          put_axi-Keeps j w.axi start k1 e1 a ∙ get_or-replicate knob_count j (omega arith));
      sram = w3;
      ext = w4;
      power = w5;
      fast = w6;
      profile = w7;
      sram_fits = g3;
      ext_fits = g4;
      power_fits = g5;
      fast_fits = g6;
      profile_fits = g7;
    }

-- The words of the AXI channel, the ports, the limits, the power step, the fast base and the profile.
pub record Honours (w : Wanted) (k : List ℕ) : Type 0 where
  pub axi_word : AxiWord w.axi (get_or k axi_chan 0)
  pub port_words : PortWords w.ports (λ j. get_or k j 0)
  pub sram_word : get_or k axi_sram 0 ≡ or_off (get_key (codes "sram") w.axi_limit)
  pub ext_word : get_or k axi_ext 0 ≡ or_off (get_key (codes "ext") w.axi_limit)
  pub power_word : get_or k power_ctrl 0 ≡ or_off w.power
  pub fast_word : get_or k fast_base 0 ≡ or_off w.fast
  pub profile_word : get_or k ta_profile 0 ≡ or_off w.ta
  pub sram_field : Given (λ v. bit_and v axi_limit_fields ≡ v) (get_key (codes "sram") w.axi_limit)
  pub ext_field : Given (λ v. bit_and v axi_limit_fields ≡ v) (get_key (codes "ext") w.axi_limit)
  pub power_field : Given (λ v. v ≤ power_ctrl_mask) w.power
  pub fast_field : Given (IsFastBase w.ports) w.fast
  pub profile_field : Given (λ v. (v ≡ 1) ⊎ (v ≡ 2)) w.ta

-- Where `knobs` returns words: the word of `axi` is the number of the channel that it names, with 256 more on the
-- external port; those of `ports` are the attributes of its four roles, two bits for each region, and the
-- fixed memory attributes; the limits, the power step, the fast base and the profile stand in their words; and
-- OFF stands in the words of what was not given. Each of the last is one that its field takes: no reserved
-- bit in a limit, six bits for the power step, a fast base that is 256-aligned inside the on-chip SRAM
-- with `fast` on the SRAM port, and profile 1 or 2.
pub knobs-Honours : (w : Wanted) (k : List ℕ) → knobs w ≡ ok k → Honours w k
knobs-Honours w k h =
    let t = knobs-Trace w k h in
    let sram = get_key (codes "sram") w.axi_limit in
    let ext = get_key (codes "ext") w.axi_limit in
    let by3 = λ (j : ℕ) (n : axi_sram ≢ j). kept axi_sram j sram t.k2 t.k3 t.sram n in
    let by4 = λ (j : ℕ) (n : axi_ext ≢ j). kept axi_ext j ext t.k3 t.k4 t.ext n in
    let by5 = λ (j : ℕ) (n : power_ctrl ≢ j). kept power_ctrl j w.power t.k4 t.k5 t.power n in
    let by6 = λ (j : ℕ) (n : fast_base ≢ j). kept fast_base j w.fast t.k5 t.k6 t.fast n in
    let by7 = λ (j : ℕ) (n : ta_profile ≢ j). kept ta_profile j w.ta t.k6 k t.profile n in
    let low : (j : ℕ) → j ≤ 6 → get_or k j 0 ≡ get_or t.k2 j 0 = λ j n.
      by7 j (omega arith)
      ∙ by6 j (omega arith)
      ∙ by5 j (omega arith)
      ∙ by4 j (omega arith)
      ∙ by3 j (omega arith) in
    record {
      axi_word = subst (AxiWord w.axi) (sym (low axi_chan (omega arith))) t.axi_put;
      port_words =
          PortWords-same w.ports (λ j. get_or t.k2 j 0) (λ j. get_or k j 0) (λ j a b. low j b)
            t.ports_put;
      sram_word =
          by7 axi_sram (λ e. cc e)
          ∙ by6 axi_sram (λ e. cc e)
          ∙ by5 axi_sram (λ e. cc e)
          ∙ by4 axi_sram (λ e. cc e)
          ∙ written axi_sram sram t.k2 t.k3 t.sram (t.still_off axi_sram (omega arith));
      ext_word =
          by7 axi_ext (λ e. cc e)
          ∙ by6 axi_ext (λ e. cc e)
          ∙ by5 axi_ext (λ e. cc e)
          ∙ written axi_ext ext t.k3 t.k4 t.ext
              (by3 axi_ext (λ e. cc e) ∙ t.still_off axi_ext (omega arith));
      power_word =
          by7 power_ctrl (λ e. cc e)
          ∙ by6 power_ctrl (λ e. cc e)
          ∙ written power_ctrl w.power t.k4 t.k5 t.power (
              by4 power_ctrl (λ e. cc e)
              ∙ by3 power_ctrl (λ e. cc e)
              ∙ t.still_off power_ctrl (omega arith));
      fast_word =
          by7 fast_base (λ e. cc e)
          ∙ written fast_base w.fast t.k5 t.k6 t.fast (
              by5 fast_base (λ e. cc e)
              ∙ by4 fast_base (λ e. cc e)
              ∙ by3 fast_base (λ e. cc e)
              ∙ t.still_off fast_base (omega arith));
      profile_word = written ta_profile w.ta t.k6 k t.profile (
          by6 ta_profile (λ e. cc e)
          ∙ by5 ta_profile (λ e. cc e)
          ∙ by4 ta_profile (λ e. cc e)
          ∙ by3 ta_profile (λ e. cc e)
          ∙ t.still_off ta_profile (omega arith));
      sram_field = t.sram_fits;
      ext_field = t.ext_fits;
      power_field = t.power_fits;
      fast_field = t.fast_fits;
      profile_field = t.profile_fits;
    }
