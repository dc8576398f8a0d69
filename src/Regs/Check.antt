-- ===== src/Regs/Check.antt =====
-- firmware/common/gen_npu_pmu_regs.py, the modes --generate and --check: which changes of the vendor's
-- header the check sees.
use mps4_prototyping_board.Prelude.{
  ℕ, ◌≡◌, ◌↔◌, refl, sym, ap, ap₂, ◌∙◌, Bool-cases, inl, inr, some, get_or, Name, same_name,
  same_name_iff, ok, ok-injective,
}
use mps4_prototyping_board.Regs.{Interface}
use mps4_prototyping_board.Regs.Extract.{Place, Geometry, extract}
use mps4_prototyping_board.Regs.Render.{render, mask, generate, check}
use mps4_prototyping_board.Regs.Numerals.{mask-injective}
use mps4_prototyping_board.Regs.Drift.{shown, render-shown}
use mps4_prototyping_board.Regs.Sound.{IsUsable, extract-IsUsable}

-- The geometry without the one number that no line shows, the length of the array of type registers.
abbrev pub forget : Geometry → Geometry
forget g = record g { found = record g.found { pmevtyper_arrlen = 0 } }

place_eq : (p q : Place) → p.pos ≡ q.pos → mask p ≡ mask q → p ≡ q
place_eq p q a b = ap₂ (λ (x y : ℕ). record { pos = x; width = y }) a (mask-injective p q a b)

module _ (g k : Geometry) (e : shown g ≡ shown k) where
  at_index : (n : ℕ) → get_or (shown g) n 0 ≡ get_or (shown k) n 0
  at_index n = ap (λ xs. get_or xs n 0) e

  found_eq : (forget g).found ≡ (forget k).found
  unfolding shown
  found_eq = λ i. record {
    pmcr = at_index 0 i;
    pmcntenset = at_index 1 i;
    pmcntenclr = at_index 2 i;
    pmovsset = at_index 3 i;
    pmovsclr = at_index 4 i;
    pmintset = at_index 5 i;
    pmintclr = at_index 6 i;
    pmccntr = at_index 7 i;
    pmccntr_hi = at_index 8 i;
    pmccntr_cfg = at_index 9 i;
    pmevcntr_base = at_index 10 i;
    pmevtyper_base = at_index 11 i;
    pmevcntr_arrlen = at_index 12 i;
    pmevtyper_arrlen = 0;
  }

  bits_eq : g.bits ≡ k.bits
  unfolding shown
  bits_eq = λ i. record {
    cnt_en = place_eq g.bits.cnt_en k.bits.cnt_en (at_index 15) (at_index 16) i;
    event_cnt_rst =
        place_eq g.bits.event_cnt_rst k.bits.event_cnt_rst (at_index 17) (at_index 18) i;
    cycle_cnt_rst =
        place_eq g.bits.cycle_cnt_rst k.bits.cycle_cnt_rst (at_index 19) (at_index 20) i;
    mask_en = place_eq g.bits.mask_en k.bits.mask_en (at_index 21) (at_index 22) i;
    num_event_cnt =
        place_eq g.bits.num_event_cnt k.bits.num_event_cnt (at_index 23) (at_index 24) i;
  }

  cyc_eq : IsUsable g → IsUsable k → g.cyc ≡ k.cyc
  unfolding shown
  cyc_eq u v =
      let a = u.cycles in
      let b = v.cycles in
      let set = at_index 25 in
      let ovs = at_index 26 in
      let clear = sym a.enable ∙ set ∙ b.enable in
      let ovs_clear = sym a.overflow ∙ ovs ∙ b.overflow in
      λ i. record { enset = set i; enclr = clear i; ovsset = ovs i; ovsclr = ovs_clear i }

  gate_eq : g.gate ≡ k.gate
  unfolding shown
  gate_eq = λ i. record {
    start = place_eq g.gate.start k.gate.start (at_index 27) (at_index 28) i;
    stop = place_eq g.gate.stop k.gate.stop (at_index 29) (at_index 30) i;
  }

  numbers_eq : g.numbers ≡ k.numbers
  unfolding shown
  numbers_eq = λ i. record { cycle = at_index 31 i; no_event_value = at_index 32 i }

  forget_eq : IsUsable g → IsUsable k → forget g ≡ forget k
  unfolding shown
  forget_eq u v = λ i. record {
    found = found_eq i;
    bits = bits_eq i;
    cycle_width = at_index 13 i;
    cyc = cyc_eq u v i;
    gate = gate_eq i;
    numbers = numbers_eq i;
  }

render-forget : (g : Geometry) → render g ≡ render (forget g)
unfolding render
render-forget g = refl

check-zero_iff :
    (h : Interface) (k : Geometry) (t : Name)
    → extract h ≡ ok k
    → (check h (some t) ≡ ok 0) ↔ (t ≡ render k)
unfolding check
check-zero_iff h k t done = elim (Bool-cases (same_name t (render k))) [
  | inl e ↦ rw (done, e) (λ p. (same_name_iff t (render k)).0 e, λ p. refl)
  | inr e ↦ rw (done, e) (λ p. cc (ok-injective p), λ p. cc (e, (same_name_iff t (render k)).1 p))
]

-- The check of a register header that was generated from one vendor header against a second vendor
-- header, both of them accepted, passes exactly when both give the same geometry, but for the length of
-- the array of type registers (NPU_REG_PMEVTYPER_ARRLEN), which the header does not show.
pub check-generate_iff :
    (h later : Interface) (g k : Geometry)
    → extract h ≡ ok g
    → extract later ≡ ok k
    → (t : Name) → generate h ≡ ok t
    → (check later (some t) ≡ ok 0) ↔ (forget g ≡ forget k)
unfolding generate
check-generate_iff h later g k p q t made =
    let text : render g ≡ t = ok-injective (rw p at made) in
    let passed = check-zero_iff later k t q in
    (
      λ c.
          forget_eq g k (render-shown g k (text ∙ passed.0 c)) (extract-IsUsable h g p)
            (extract-IsUsable later k q),
      λ e. passed.1 (sym text ∙ render-forget g ∙ ap render e ∙ sym (render-forget k)),
    )
