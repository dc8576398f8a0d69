-- ===== src/Symbols/Gates.antt =====
-- firmware/gate/check_measure_symbols.py, `check_injections` and `check_test_hooks`.
use mps4_prototyping_board.Prelude.{
  Name, name_equality, ℕ, List, [], ◌∷◌, Bool, true, false, not, ◌&&◌, Option, none, some,
  if◌then◌else◌, has, sorted, length, map,
}
use mps4_prototyping_board.Bytes.{starts_with}
use mps4_prototyping_board.Symbols.{
  name_leq, inject_marker_prefix, npu_entry_symbol, test_hook_symbols, command_dispatch_roots,
}
use mps4_prototyping_board.Symbols.Walk.{Graph, reachable}
use mps4_prototyping_board.Symbols.Path.{shortest_path}

-- The messages of both gates.
pub data GateNote : Type 0 where
  expect_hooks expect_skip : GateNote
  no_marker no_markers : GateNote
  markers leaked : List Name → GateNote
  npu_gone npu_still npu_there npu_skipped : GateNote
  roots_missing : List Name → GateNote
  roots_found : ℕ → GateNote
  no_hook no_reachable_hook nothing_to_reach no_hooks none_reachable : GateNote
  hooks_present hooks_leaked hooks_reachable : List Name → GateNote
  via : List Name → GateNote

-- `sorted(s for s in symbols if s.startswith(INJECT_MARKER_PREFIX))`, before sorting.
unfoldable pub markers_of : List Name → List Name
markers_of [] = []
markers_of (s ∷ symbols) =
    let rest = markers_of symbols in if starts_with inject_marker_prefix s then s ∷ rest else rest

abbrev pub is_empty {ℓ} : {A : Type ℓ} → List A → Bool
is_empty [] = true
is_empty (x ∷ xs) = false

unfoldable pub check_injections : List Name → List Name → Bool → Bool → Bool × List GateNote
unfolding markers_of
check_injections symbols reached skip_expected hooks_expected =
    let found = sorted name_leq (markers_of symbols) in
    let npu_reached = has npu_entry_symbol reached in
    if hooks_expected
    then (
      not (is_empty found) && npu_reached,
      expect_hooks
          ∷ (if is_empty found then no_marker else markers found)
          ∷ (if npu_reached then npu_there else npu_gone)
          ∷ [],
    )
    else if skip_expected
    then (
      not (is_empty found) && not npu_reached,
      expect_skip
          ∷ (if is_empty found then no_marker else markers found)
          ∷ (if npu_reached then npu_still else npu_skipped)
          ∷ [],
    )
    else (
      is_empty found && npu_reached,
      (if is_empty found then no_markers else leaked found)
          ∷ (if npu_reached then npu_there else npu_gone)
          ∷ [],
    )

-- `hooks & xs`
unfoldable pub both : List Name → List Name → List Name
both [] xs = []
both (h ∷ hs) xs = let rest = both hs xs in if has h xs then h ∷ rest else rest

-- `sorted(TEST_HOOK_SYMBOLS & xs)`
unfoldable pub hooks_in : List Name → List Name
unfolding both
hooks_in xs = sorted name_leq (both test_hook_symbols xs)

-- The paths to the hooks.
unfoldable pub vias : Graph Name → List Name → List GateNote
vias g hooks = map (λ h. via (shortest_path g command_dispatch_roots h)) hooks

-- The two verdicts of the gate, where the dispatcher is in the graph.
unfoldable pub judge_hooks : Graph Name → List Name → List Name → Bool → Bool × List GateNote
unfolding vias
judge_hooks g present reached hooks_expected =
    if hooks_expected
    then (
      not (is_empty present) && not (is_empty reached),
      expect_hooks
          ∷ (if is_empty present then no_hook else hooks_present present)
          ∷ (if is_empty reached
              then (if is_empty present then nothing_to_reach else no_reachable_hook) ∷ []
              else hooks_reachable reached ∷ vias g reached),
    )
    else (
      is_empty present && is_empty reached,
      (if is_empty present then no_hooks else hooks_leaked present)
          ∷ (if is_empty reached
              then none_reachable ∷ []
              else hooks_reachable reached ∷ vias g reached),
    )

-- `check_test_hooks`; `none` is the model's, where `reachable` runs out of fuel.
unfoldable pub check_test_hooks : List Name → Graph Name → Bool → Option (Bool × List GateNote)
unfolding hooks_in judge_hooks
check_test_hooks symbols g hooks_expected = elim (reachable name_leq g command_dispatch_roots) [
  | none ↦ none
  | some (s, root ∷ more) ↦ some (false, roots_missing (root ∷ more) ∷ [])
  | some (s, []) ↦
      let (ok, log) = judge_hooks g (hooks_in symbols) (hooks_in s.seen) hooks_expected in
      some (ok, roots_found (length s.seen) ∷ log)
]
