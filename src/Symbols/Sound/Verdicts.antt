-- ===== src/Symbols/Sound/Verdicts.antt =====
-- `main` of firmware/gate/check_measure_symbols.py: what its exit code says of a build.
use mps4_prototyping_board.Prelude.{
  Name, name_equality, ℕ, ◌≡◌, refl, sym, ◌∙◌, arith, List, [], ◌∷◌, Bool, true, false, not, ◌||◌,
  some, All, has, length, ◌↔◌, if◌then◌else◌,
}
use mps4_prototyping_board.Bytes.{starts_with}
use mps4_prototyping_board.Symbols.{
  name_leq, is_denied, measured_roots, inject_marker_prefix, npu_entry_symbol, test_hook_symbols,
  command_dispatch_roots,
}
use mps4_prototyping_board.Symbols.Walk.{Graph, Search, in_graph, missing_roots, reachable}
use mps4_prototyping_board.Symbols.Walk.Reach.{Reach}
use mps4_prototyping_board.Symbols.Walk.Correct.{reachable-Reach}
use mps4_prototyping_board.Symbols.Layout.{check_sec_noinit}
use mps4_prototyping_board.Symbols.Gates.{
  GateNote, roots_found, roots_missing, hooks_in, check_injections, judge_hooks, check_test_hooks,
}
use mps4_prototyping_board.Symbols.Verdict.{Build, build_graph, denylist_verdict, gate_main}
use mps4_prototyping_board.Symbols.Sound.{missing_roots_iff}
use mps4_prototyping_board.Symbols.Sound.Parts.{
  denylist_verdict_normal, check_injections_normal, judge_hooks_normal,
}

-- What the gate asks of a build in its normal mode.
pub record Approved (b : Build) : Type 0 where
  pub roots : All (λ r. in_graph (build_graph b.listing).graph r ≡ true) measured_roots
  pub quiet :
      (x : Name) → Reach (build_graph b.listing).graph measured_roots x → is_denied x ≡ false
  pub runs_npu : Reach (build_graph b.listing).graph measured_roots npu_entry_symbol
  pub unmarked : (x : Name) → has x b.symbols ≡ true → starts_with inject_marker_prefix x ≡ false
  pub dispatcher : All (λ r. in_graph (build_graph b.listing).graph r ≡ true) command_dispatch_roots
  pub no_hook : (x : Name) → has x test_hook_symbols ≡ true → has x b.symbols ≡ false
  pub no_hook_call :
      (x : Name)
      → has x test_hook_symbols ≡ true
      → Reach (build_graph b.listing).graph command_dispatch_roots x
      → ⊥
  pub section : (check_sec_noinit b.map_lines).0 ≡ true

hooks_known :
    (symbols : List Name) (g : Graph Name) (expected : Bool) (t : Search Name) (lost : List Name)
    → reachable name_leq g command_dispatch_roots ≡ some (t, lost)
    → (ok : Bool) × (log : List GateNote) × (check_test_hooks symbols g expected ≡ some (ok, log))
      × ((ok ≡ true) ↔ (
          (lost ≡ []) × ((judge_hooks g (hooks_in symbols) (hooks_in t.seen) expected).0 ≡ true)))
unfolding check_test_hooks
hooks_known symbols g expected t [] f =
    let verdict = judge_hooks g (hooks_in symbols) (hooks_in t.seen) expected in
    (
      verdict.0,
      roots_found (length t.seen) ∷ verdict.1,
      rw (f, check_test_hooks) refl,
      (λ h. (refl, h), λ h. h.1),
    )
hooks_known symbols g expected t (r ∷ lost) f =
    (false, roots_missing (r ∷ lost) ∷ [], rw (f, check_test_hooks) refl, (λ h. cc h, λ h. cc h.0))

gate_main-code :
    (b : Build) (s : Search Name) (lost : List Name) (ok : Bool) (log : List GateNote)
    → reachable name_leq (build_graph b.listing).graph measured_roots ≡ some (s, lost)
    → check_test_hooks b.symbols (build_graph b.listing).graph b.expect_test_hooks ≡ some (ok, log)
    → gate_main b
      ≡ some (
          if not (check_sec_noinit b.map_lines).0
            || (not (check_injections b.symbols s.seen b.expect_injected_skip b.expect_test_hooks).0
                || not ok)
          then 1
          else (denylist_verdict b.advisory
              (build_graph b.listing).graph
              (build_graph b.listing).indirect
              s.seen
              lost).0)
unfolding gate_main
gate_main-code b s lost ok log e f = rw (e, gate_main) (rw (f, gate_main) refl)

-- The gate always returns an exit code, in every mode.
pub gate_main_total : (b : Build) → (code : ℕ) × (gate_main b ≡ some code)
gate_main_total b =
    let g = (build_graph b.listing).graph in
    let (s, e, seen) = reachable-Reach name_leq g measured_roots in
    let (t, f, seen') = reachable-Reach name_leq g command_dispatch_roots in
    let (ok, log, h, w) = hooks_known b.symbols g b.expect_test_hooks t _ f in
    (_, gate_main-code b s _ ok log e h)

code_zero :
    (section injections hooks : Bool) (deny : ℕ)
    → (some (if not section || (not injections || not hooks) then 1 else deny) ≡ some 0)
      ↔ ((section ≡ true) × (injections ≡ true) × (hooks ≡ true) × (deny ≡ 0))
code_zero section injections hooks deny = ground arith

-- The exit code 0 of the normal mode (without `--advisory` and without an expected injection or hook)
-- is given exactly to a build in which all roots are in the call graph, no chain of direct calls
-- leads from the measured path to a denied symbol, one leads to the NPU's entry, no symbol is an
-- injection marker or a test hook, no chain leads from the dispatcher to a hook, and the layout of
-- `.sec_noinit` passes.
pub gate_main-Approved :
    (b : Build)
    → b.advisory ≡ false
    → b.expect_injected_skip ≡ false
    → b.expect_test_hooks ≡ false
    → (gate_main b ≡ some 0) ↔ Approved b
gate_main-Approved b a i h =
    let g = (build_graph b.listing).graph in
    let (s, e, seen) = reachable-Reach name_leq g measured_roots in
    let (t, f, seen') = reachable-Reach name_leq g command_dispatch_roots in
    let (ok, log, k, w) = hooks_known b.symbols g b.expect_test_hooks t _ f in
    let code = gate_main-code b s _ ok log e k in
    let zero = code_zero (check_sec_noinit b.map_lines).0 _ ok _ in
    let deny =
      denylist_verdict_normal b.advisory g (build_graph b.listing).indirect s.seen
        (missing_roots g measured_roots) a in
    let inj =
      check_injections_normal b.symbols s.seen b.expect_injected_skip b.expect_test_hooks i h in
    let hooks = judge_hooks_normal g b.symbols t.seen b.expect_test_hooks h in
    let m = missing_roots_iff g measured_roots in
    let d = missing_roots_iff g command_dispatch_roots in
    (
      λ z.
          let (section, injections, hooked, denied) = zero.0 (sym code ∙ z) in
          let (lost, judged) = w.0 hooked in
          let (found, quiet) = deny.0 denied in
          let (unmarked, npu) = inj.0 injections in
          record {
            roots = m.0 found;
            quiet = λ x r. quiet x ((seen x).1 r);
            runs_npu = (seen npu_entry_symbol).0 npu;
            unmarked = unmarked;
            dispatcher = d.0 lost;
            no_hook = λ x p. (hooks.0 judged x p).0;
            no_hook_call = λ x p r. cc ((hooks.0 judged x p).1, (seen' x).1 r);
            section = section;
          },
      λ v.
          code
          ∙ zero.1 (
            v.section,
            inj.1 (v.unmarked, (seen npu_entry_symbol).1 v.runs_npu),
            w.1 (
              d.1 v.dispatcher,
              hooks.1
                  (λ x p. (v.no_hook x p, not_true _ (λ q. v.no_hook_call x p ((seen' x).0 q)))),
            ),
            deny.1 (m.1 v.roots, λ x p. v.quiet x ((seen x).0 p)),
          ),
    )
  where
    not_true : (c : Bool) → (c ≡ true → ⊥) → c ≡ false
    not_true true f = absurd (f refl)
    not_true false f = refl
