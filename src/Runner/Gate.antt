-- ===== src/Runner/Gate.antt =====
-- firmware/gate/check_runner.py, `check`: which runners it lets through.
use mps4_prototyping_board.Prelude.{
  ◌≡◌, ◌↔◌, refl, Bool, true, false, not, ◌||◌, codes, has, Result, ok, ◌>>◌, refuse_if,
}
use mps4_prototyping_board.Events.{nat_equality}
use mps4_prototyping_board.Runner.Calls.{ComputedCall, register_offset_call_iff}
use mps4_prototyping_board.Runner.{
  Rule, Inputs, runner_magic, seam_fmt, apply_fmt, ext_literal, raised_timeout, power_ctrl_hook,
  events_define, count_refusal, register_offset_call, contains, wrap_of, check_runner,
}

-- What the gate asks for, rule by rule.
pub record IsRunnable (r : Inputs) : Type 0 where
  pub inference : r.linked (codes "apU85Conv_TEST") ≡ true
  pub programs : ComputedCall r.objdump (codes "pmu_reg_write")
  pub reads_back : ComputedCall r.objdump (codes "pmu_reg_read")
  pub build : has r.build_id r.literals ≡ true
  pub main : r.linked (codes "main") ≡ true
  pub has_mode2 : contains events_define r.src ≡ true
  pub keeps_refusal : contains count_refusal r.src ≡ true
  pub seam : contains seam_fmt (wrap_of r.src) ≡ true
  pub wrapped : r.linked (codes "__wrap_printf") ≡ true
  pub ext : contains ext_literal r.elf ≡ true
  pub test_wrap : r.wrap_test_u85 ≡ true
  pub magic : has runner_magic r.literals ≡ true
  pub applies : contains apply_fmt (wrap_of r.src) ≡ true
  pub timeout : contains raised_timeout r.vendor ≡ true
  pub hook : contains power_ctrl_hook r.vendor ≡ true
  pub strong : r.strong_power_ctrl ≡ true

not-false : (b : Bool) → not b ≡ false → b ≡ true
not-false true h = refl
not-false false h = cc h

neither : (a b : Bool) → (not a || not b) ≡ false → (a ≡ true) × (b ≡ true)
neither true true h = (refl, refl)
neither true false h = cc h
neither false b h = cc h

passed :
    (t : Bool) (e : Rule) (m : Result Rule (Unit {0}))
    → (refuse_if (not t) e >> m) ≡ ok tt
    → (t ≡ true) × (m ≡ ok tt)
passed true e m h = (refl, h)
passed false e m h = cc h

passed_both :
    (t u : Bool) (e : Rule) (m : Result Rule (Unit {0}))
    → (refuse_if (not t || not u) e >> m) ≡ ok tt
    → (t ≡ true) × (u ≡ true) × (m ≡ ok tt)
passed_both true true e m h = (refl, refl, h)
passed_both true false e m h = cc h
passed_both false u e m h = cc h

-- The gate passes exactly the runners that meet every one of its rules. For the two loop rules it is that the
-- disassembly has a line that writes the offset register and is no constant, then lines that are no call
-- and write no offset, and then a call to the accessor.
pub check_runner_iff : (r : Inputs) → (check_runner r ≡ ok tt) ↔ IsRunnable r
unfolding check_runner
check_runner_iff r = (
  λ h.
      let (a, h1) = passed (r.linked (codes "apU85Conv_TEST")) _ _ h in
      let (b, h2) = passed (register_offset_call r.objdump (codes "pmu_reg_write")) _ _ h1 in
      let (c, h3) = passed (register_offset_call r.objdump (codes "pmu_reg_read")) _ _ h2 in
      let (d, h4) = passed (has r.build_id r.literals) _ _ h3 in
      let (e, h5) = passed (r.linked (codes "main")) _ _ h4 in
      let (f, g, h6) =
        passed_both (contains events_define r.src) (contains count_refusal r.src) _ _ h5 in
      let (i, j, h7) =
        passed_both (contains seam_fmt (wrap_of r.src)) (r.linked (codes "__wrap_printf")) _ _ h6 in
      let (k, h8) = passed (contains ext_literal r.elf) _ _ h7 in
      let (l, h9) = passed r.wrap_test_u85 _ _ h8 in
      let (m, h10) = passed (has runner_magic r.literals) _ _ h9 in
      let (n, h11) = passed (contains apply_fmt (wrap_of r.src)) _ _ h10 in
      let (o, h12) = passed (contains raised_timeout r.vendor) _ _ h11 in
      let (p, h13) = passed (contains power_ctrl_hook r.vendor) _ _ h12 in
      let (q, h14) = passed r.strong_power_ctrl _ _ h13 in
      record {
        inference = a;
        programs = (register_offset_call_iff _ _).0 b;
        reads_back = (register_offset_call_iff _ _).0 c;
        build = d;
        main = e;
        has_mode2 = f;
        keeps_refusal = g;
        seam = i;
        wrapped = j;
        ext = k;
        test_wrap = l;
        magic = m;
        applies = n;
        timeout = o;
        hook = p;
        strong = q;
      },
  λ v.
      rw
        (
          v.inference,
          (register_offset_call_iff _ _).1 v.programs,
          (register_offset_call_iff _ _).1 v.reads_back,
          v.build,
          v.main,
          v.has_mode2,
          v.keeps_refusal,
          v.seam,
          v.wrapped,
          v.ext,
          v.test_wrap,
          v.magic,
          v.applies,
          v.timeout,
          v.hook,
          v.strong,
        )
        refl,
)
