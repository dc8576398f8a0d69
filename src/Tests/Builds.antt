-- ===== src/Tests/Builds.antt =====
-- Runs of the build gate: a call graph of numbers, and the listing of a small build.
use mps4_prototyping_board.Prelude.{
  ℕ, ◌≡◌, ◌↔◌, refl, List, [], ◌∷◌, ◌++◌, map, true, false, Option, some, leb, has, Name, codes,
  name_equality, sorted, add,
}
use mps4_prototyping_board.Bytes.{starts_with}
use mps4_prototyping_board.Events.{nat_equality}
use mps4_prototyping_board.Symbols.{
  measured_roots, command_dispatch_roots, npu_entry_symbol, sec_noinit_objects,
}
use mps4_prototyping_board.Symbols.Walk.{Graph, Search, reachable, missing_roots}
use mps4_prototyping_board.Symbols.Walk.Reach.{Reach}
use mps4_prototyping_board.Symbols.Walk.Correct.{reachable-Reach}
use mps4_prototyping_board.Symbols.Layout.{check_sec_noinit}
use mps4_prototyping_board.Symbols.Verdict.{header, instruction, other, Build, gate_main}
use mps4_prototyping_board.Symbols.Sound.Objects.{IsSection, Names}
use mps4_prototyping_board.Symbols.Sound.Section.{check_sec_noinit_iff}
use mps4_prototyping_board.Symbols.Sound.Verdicts.{Approved, gate_main-Approved}

-- 1 calls 2 and 3, 2 calls 1, and 4 calls 1; 5 is no function of the graph.
abbrev calls : Graph ℕ
calls = (1, 3 ∷ 2 ∷ []) ∷ (2, 1 ∷ []) ∷ (4, 1 ∷ []) ∷ []

abbrev roots : List ℕ
roots = 1 ∷ 5 ∷ []

reachable_run :
    reachable leb calls roots
    ≡ some (record { seen = 1 ∷ 2 ∷ 3 ∷ []; queue = []; order = 1 ∷ 2 ∷ 3 ∷ [] }, 5 ∷ [])
unfolding reachable
reachable_run = refl

reachable-Reach_example :
    (t : Search ℕ) × (reachable leb calls roots ≡ some (t, missing_roots calls roots))
    × ((x : ℕ) → (has x t.seen ≡ true) ↔ Reach calls roots x)
reachable-Reach_example = reachable-Reach leb calls roots

abbrev map_file : List Name
map_file =
    codes ".text           0x00000000     0x1000"
    ∷ codes ".sec_noinit     0x90020000      0xf90"
    ∷ codes " .sec_noinit    0x90020000      0xf90 lib/test3.o"
    ∷ codes ".heap           0x90030000        0x0"
    ∷ []

-- Every root calls the NPU's entry, directly.
abbrev build : Build
build = record {
  listing =
      map (λ f. header f) (measured_roots ++ command_dispatch_roots)
      ++ instruction false (npu_entry_symbol ∷ []) ∷ other ∷ [];
  symbols = measured_roots ++ command_dispatch_roots;
  map_lines = some map_file;
  advisory = false;
  expect_injected_skip = false;
  expect_test_hooks = false;
}

gate_main-Approved_example : (gate_main build ≡ some 0) ↔ Approved build
gate_main-Approved_example = gate_main-Approved build refl refl refl

-- Two of the six objects.
abbrev sound_map : List Name
sound_map =
    codes ".text           0x00000000     0x1000"
    ∷ codes ".sec_noinit     0x90020000      0xf90"
    ∷ codes " .sec_noinit    0x90020000      0x800 lib/u85_AXIBus.o"
    ∷ []
    ∷ codes " .sec_noinit    0x90020800      0x790 lib/u85_MaxPooling.o"
    ∷ codes ".heap           0x90030000        0x0"
    ∷ []

check_sec_noinit_run : (check_sec_noinit (some sound_map)).0 ≡ true
unfolding check_sec_noinit starts_with sorted has add
check_sec_noinit_run = refl

check_sec_noinit_iff_example : ((check_sec_noinit (some sound_map)).0 ≡ true) ↔ (
    (lines : List Name) × (body : List Name) × (◌≡◌ {A = Option (List Name)}
      (some sound_map)
      (some lines))
    × IsSection lines 0x9002_0000 0xF90 body
    × ((o : Name) → Names body o → has o sec_noinit_objects ≡ true))
check_sec_noinit_iff_example = check_sec_noinit_iff (some sound_map)
