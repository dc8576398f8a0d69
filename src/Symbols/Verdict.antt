-- ===== src/Symbols/Verdict.antt =====
-- firmware/gate/check_measure_symbols.py, `build_graph`, `denylist_verdict` and `main`: the exit codes
-- of the build gate, and what it reports.
use mps4_prototyping_board.Prelude.{
  Name, name_equality, same_name, ℕ, suc, ◌+◌, List, [], ◌∷◌, ◌++◌, Bool, not, ◌||◌, Option, none,
  some, ◌==◌, if◌then◌else◌, has, add, sorted, length, map,
}
use mps4_prototyping_board.Symbols.{name_leq, is_denied, known_indirect_sites, measured_roots}
use mps4_prototyping_board.Symbols.Walk.{Graph, reachable}
use mps4_prototyping_board.Symbols.Path.{shortest_path}
use mps4_prototyping_board.Symbols.Layout.{check_sec_noinit}
use mps4_prototyping_board.Symbols.Gates.{is_empty, check_injections, check_test_hooks}

-- A line of the disassembly, as the regular expressions of the gate read it: the header of a function,
-- or an instruction with the targets in it and whether it calls through a register.
pub data Line : Type 0 where
  header : Name → Line
  instruction : Bool → List Name → Line
  other : Line

-- `build_graph`'s state: the call graph, the indirect call sites and the function that is open.
pub record Listing : Type 0 where
  pub graph : Graph Name
  pub indirect : List (Name × ℕ)
  pub current : Option Name

-- `graph.setdefault(f, set())` and `indirect_sites.setdefault(f, 0)`
unfoldable pub set_default {ℓ} : {V : Type ℓ} → Name → V → List (Name × V) → List (Name × V)
set_default f v [] = (f, v) ∷ []
set_default f v ((h, w) ∷ rest) =
    let more = set_default f v rest in if same_name f h then (h, w) ∷ rest else (h, w) ∷ more

-- The value at a key, changed.
unfoldable pub update {ℓ} : {V : Type ℓ} → Name → (V → V) → List (Name × V) → List (Name × V)
update f change [] = []
update f change ((h, w) ∷ rest) =
    let more = update f change rest in if same_name f h then (h, change w) ∷ rest else (h, w) ∷ more

unfoldable pub add_all : List Name → List Name → List Name
add_all [] s = s
add_all (t ∷ ts) s = add_all ts (add t s)

-- One line of the listing.
unfoldable pub read_line : Line → Listing → Listing
unfolding set_default update add_all
read_line (header f) l = record {
  graph = set_default f [] l.graph;
  indirect = set_default f 0 l.indirect;
  current = some f;
}
read_line other l = l
read_line (instruction through_register targets) l = elim l.current [
  | none ↦ l
  | some f ↦ record l {
    graph = update f (add_all targets) l.graph;
    indirect = if through_register then update f suc l.indirect else l.indirect;
  }
]

unfoldable pub read_lines : List Line → Listing → Listing
unfolding read_line
read_lines [] l = l
read_lines (line ∷ lines) l = read_lines lines (read_line line l)

unfoldable pub build_graph : List Line → Listing
unfolding read_lines
build_graph lines = read_lines lines (record { graph = []; indirect = []; current = none })

-- `indirect_sites.get(f, 0)`
unfoldable pub sites_of : List (Name × ℕ) → Name → ℕ
sites_of [] f = 0
sites_of ((h, n) ∷ rest) f = let more = sites_of rest f in if same_name f h then n else more

-- The elements that a test picks.
unfoldable pub pick : (Name → Bool) → List Name → List Name
pick test [] = []
pick test (x ∷ xs) = let rest = pick test xs in if test x then x ∷ rest else rest

unfoldable pub total_sites : List (Name × ℕ) → List Name → ℕ
unfolding sites_of
total_sites sites [] = 0
total_sites sites (f ∷ fs) = sites_of sites f + total_sites sites fs

-- What `denylist_verdict` reports.
pub data DenyNote : Type 0 where
  roots_lost : List Name → DenyNote
  functions : ℕ → DenyNote
  sites : ℕ → List Name → DenyNote
  denied : List (Name × List Name) → DenyNote
  advice incomplete_note pass_note : DenyNote
  unexpected known : List Name → DenyNote

-- `denylist_verdict`: the exit code and the report.
unfoldable pub denylist_verdict :
    Bool → Graph Name → List (Name × ℕ) → List Name → List Name → ℕ × List DenyNote
unfolding sites_of pick total_sites
denylist_verdict advisory g indirect seen (r ∷ missing) = (2, roots_lost (r ∷ missing) ∷ [])
denylist_verdict advisory g indirect seen [] =
    let violations = sorted name_leq (pick is_denied seen) in
    let indirect_funcs = sorted name_leq (pick (λ f. not (sites_of indirect f == 0)) seen) in
    let strange = sorted name_leq (pick (λ f. not (has f known_indirect_sites)) indirect_funcs) in
    let counts = functions (length seen) ∷ sites (total_sites indirect seen) indirect_funcs ∷ [] in
    let report = denied (map (λ v. (v, shortest_path g measured_roots v)) violations) in
    if not (is_empty violations)
    then (if advisory then (0, counts ++ report ∷ advice ∷ []) else (1, counts ++ report ∷ []))
    else if not (is_empty strange)
    then (0, counts ++ incomplete_note ∷ unexpected strange ∷ [])
    else (0, counts ++ pass_note ∷ known indirect_funcs ∷ [])

-- The arguments of the gate that choose its mode, and what the tools print.
pub record Build : Type 0 where
  pub listing : List Line
  pub symbols : List Name
  pub map_lines : Option (List Name)
  pub advisory : Bool
  pub expect_injected_skip : Bool
  pub expect_test_hooks : Bool

-- `main`: the exit code. `none` is the model's, where a search runs out of fuel.
unfoldable pub gate_main : Build → Option ℕ
unfolding build_graph
gate_main b =
    let l = build_graph b.listing in
    elim (reachable name_leq l.graph measured_roots) [
      | none ↦ none
      | some (s, missing) ↦ elim (check_test_hooks b.symbols l.graph b.expect_test_hooks) [
        | none ↦ none
        | some (hooks_ok, hooks_log) ↦
            let (noinit_ok, noinit_log) = check_sec_noinit b.map_lines in
            let (inj_ok, inj_log) =
              check_injections b.symbols s.seen b.expect_injected_skip b.expect_test_hooks in
            let (deny_rc, deny_log) =
              denylist_verdict b.advisory l.graph l.indirect s.seen missing in
            some (if not noinit_ok || (not inj_ok || not hooks_ok) then 1 else deny_rc)
      ]
    ]
