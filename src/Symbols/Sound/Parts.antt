-- ===== src/Symbols/Sound/Parts.antt =====
-- `check_injections`, `check_test_hooks` and `denylist_verdict` of
-- firmware/gate/check_measure_symbols.py: when they pass.
use mps4_prototyping_board.Prelude.{
  Name, name_equality, ℕ, ◌≡◌, refl, sym, subst, ◌∙◌, arith, List, [], ◌∷◌, Bool, true, false, not,
  ◌==◌, has, sorted, Bool-cases, inl, inr, ◌↔◌, if◌then◌else◌,
}
use mps4_prototyping_board.Bytes.{starts_with}
use mps4_prototyping_board.Symbols.{
  name_leq, is_denied, inject_marker_prefix, npu_entry_symbol, test_hook_symbols,
  known_indirect_sites,
}
use mps4_prototyping_board.Symbols.Walk.{Graph}
use mps4_prototyping_board.Symbols.Gates.{
  is_empty, markers_of, both, hooks_in, check_injections, judge_hooks,
}
use mps4_prototyping_board.Symbols.Verdict.{pick, sites_of, denylist_verdict}
use mps4_prototyping_board.Symbols.Sound.{is_empty-sorted, has-pick, markers_of-pick, both-pick}

pub check_injections_iff :
    (symbols reached : List Name)
    → ((check_injections symbols reached false false).0 ≡ true) ↔ (
        ((x : Name) → has x symbols ≡ true → starts_with inject_marker_prefix x ≡ false)
        × (has npu_entry_symbol reached ≡ true))
unfolding check_injections
check_injections_iff symbols reached =
    let marks = is_empty-sorted (markers_of symbols) in
    let picked = λ (x : Name). has-pick (starts_with inject_marker_prefix) symbols x in
    let same = markers_of-pick symbols in
    (
      λ h. (
        λ x p.
            let none_there = subst (λ l. has x l ≡ false) same (marks.0 (ground arith) x) in
            ground (arith, p, none_there, picked x),
        ground arith,
      ),
      λ h.
          let empty =
            marks.1
              (λ x. subst (λ l. has x l ≡ false) (sym same) (ground (arith, h.0 x, picked x))) in
          ground (arith, empty, h.1),
    )

pub judge_hooks_iff :
    (g : Graph Name) (symbols seen : List Name)
    → ((judge_hooks g (hooks_in symbols) (hooks_in seen) false).0 ≡ true) ↔ (
        (x : Name)
        → has x test_hook_symbols ≡ true
        → (has x symbols ≡ false) × (has x seen ≡ false))
unfolding judge_hooks hooks_in
judge_hooks_iff g symbols seen =
    let here = is_empty-sorted (both test_hook_symbols symbols) in
    let there = is_empty-sorted (both test_hook_symbols seen) in
    let in_symbols = λ (x : Name). has-pick (λ h. has h symbols) test_hook_symbols x in
    let in_seen = λ (x : Name). has-pick (λ h. has h seen) test_hook_symbols x in
    let s1 = both-pick test_hook_symbols symbols in
    let s2 = both-pick test_hook_symbols seen in
    (
      λ h x p.
          let a = subst (λ l. has x l ≡ false) s1 (here.0 (ground arith) x) in
          let b = subst (λ l. has x l ≡ false) s2 (there.0 (ground arith) x) in
          (ground (arith, p, a, in_symbols x), ground (arith, p, b, in_seen x)),
      λ h.
          let a =
            here.1
              (λ x. subst (λ l. has x l ≡ false) (sym s1) (ground (arith, h x, in_symbols x))) in
          let b =
            there.1 (λ x. subst (λ l. has x l ≡ false) (sym s2) (ground (arith, h x, in_seen x))) in
          ground (arith, a, b),
    )

-- Without violations the exit code is 0, known and unknown indirect calls alike; with one it is 1.
denylist_verdict-code :
    (g : Graph Name) (indirect : List (Name × ℕ)) (seen : List Name)
    → (denylist_verdict false g indirect seen []).0
      ≡ (if is_empty (sorted name_leq (pick is_denied seen)) then 0 else 1)
unfolding denylist_verdict
denylist_verdict-code g indirect seen =
    let strange = is_empty (
      sorted name_leq (
        pick (λ f. not (has f known_indirect_sites))
          (sorted name_leq (pick (λ f. not (sites_of indirect f == 0)) seen)))) in
    elim (Bool-cases (is_empty (sorted name_leq (pick is_denied seen)))) [
      | inl e ↦ elim (Bool-cases strange) [ inl k ↦ rw e (rw k refl) | inr k ↦ rw e (rw k refl) ]
      | inr e ↦ rw e refl
    ]

pub denylist_verdict_iff :
    (g : Graph Name) (indirect : List (Name × ℕ)) (seen missing : List Name)
    → ((denylist_verdict false g indirect seen missing).0 ≡ 0)
      ↔ ((missing ≡ []) × ((x : Name) → has x seen ≡ true → is_denied x ≡ false))
denylist_verdict_iff g indirect seen (r ∷ missing) =
    unfold denylist_verdict in (λ h. absurd (omega arith), λ h. cc h.0)
denylist_verdict_iff g indirect seen [] =
    let code = denylist_verdict-code g indirect seen in
    let nothing = is_empty-sorted (pick is_denied seen) in
    let picked = λ (x : Name). has-pick is_denied seen x in
    (
      λ h. (
        refl,
        λ x p.
            let empty = zero_empty _ (sym code ∙ h) in
            ground (arith, p, nothing.0 empty x, picked x),
      ),
      λ (k, h). code ∙ empty_zero _ (nothing.1 (λ x. ground (arith, h x, picked x))),
    )
  where
    zero_empty : (b : Bool) → ◌≡◌ {A = ℕ} (if b then 0 else 1) 0 → b ≡ true
    zero_empty true h = refl
    zero_empty false h = absurd (omega arith)

    empty_zero : (b : Bool) → b ≡ true → ◌≡◌ {A = ℕ} (if b then 0 else 1) 0
    empty_zero b h = rw h refl

-- The same for a mode that is known to be the normal one.
pub denylist_verdict_normal :
    (advisory : Bool) (g : Graph Name) (indirect : List (Name × ℕ)) (seen missing : List Name)
    → advisory ≡ false
    → ((denylist_verdict advisory g indirect seen missing).0 ≡ 0)
      ↔ ((missing ≡ []) × ((x : Name) → has x seen ≡ true → is_denied x ≡ false))
denylist_verdict_normal true g indirect seen missing a = cc a
denylist_verdict_normal false g indirect seen missing a =
    denylist_verdict_iff g indirect seen missing

pub check_injections_normal :
    (symbols reached : List Name) (skip hooks : Bool)
    → skip ≡ false
    → hooks ≡ false
    → ((check_injections symbols reached skip hooks).0 ≡ true) ↔ (
        ((x : Name) → has x symbols ≡ true → starts_with inject_marker_prefix x ≡ false)
        × (has npu_entry_symbol reached ≡ true))
check_injections_normal symbols reached true hooks a b = cc a
check_injections_normal symbols reached false true a b = cc b
check_injections_normal symbols reached false false a b = check_injections_iff symbols reached

pub judge_hooks_normal :
    (g : Graph Name) (symbols seen : List Name) (hooks : Bool)
    → hooks ≡ false
    → ((judge_hooks g (hooks_in symbols) (hooks_in seen) hooks).0 ≡ true) ↔ (
        (x : Name)
        → has x test_hook_symbols ≡ true
        → (has x symbols ≡ false) × (has x seen ≡ false))
judge_hooks_normal g symbols seen true a = cc a
judge_hooks_normal g symbols seen false a = judge_hooks_iff g symbols seen
