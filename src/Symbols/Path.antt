-- ===== src/Symbols/Path.antt =====
-- firmware/gate/check_measure_symbols.py, `shortest_path`.
use mps4_prototyping_board.Prelude.{
  Name, name_equality, same_name, ℕ, zero, suc, ◌+◌, List, [], ◌∷◌, ◌++◌, true, false, Option, none,
  some, length, if◌then◌else◌, has, add, sorted,
}
use mps4_prototyping_board.Symbols.{name_leq}
use mps4_prototyping_board.Symbols.Walk.{Graph, targets, in_graph, all_targets}

-- The search for a target: what was seen, the queue, and from where each node was first seen.
pub record Trail : Type 0 where
  pub seen : List Name
  pub queue : List Name
  pub prev : List (Name × Name)

unfoldable pub previous : List (Name × Name) → Name → Option Name
previous [] x = none
previous ((y, p) ∷ rest) x = let later = previous rest x in if same_name x y then some p else later

-- `while path[-1] in prev`, from the end of the path to its start, on fuel.
unfoldable pub chain : ℕ → List (Name × Name) → List Name → Name → List Name
unfolding previous
chain zero prev path x = x ∷ path
chain (suc fuel) prev path x = elim (previous prev x) [
  | none ↦ x ∷ path
  | some p ↦ chain fuel prev (x ∷ path) p
]

unfoldable pub mark : Name → List Name → Trail → Trail
mark node [] t = t
mark node (nxt ∷ rest) t = mark node rest (
    if has nxt t.seen then t else record {
      seen = add nxt t.seen;
      queue = t.queue ++ nxt ∷ [];
      prev = t.prev ++ (nxt, node) ∷ [];
    })

unfoldable pub trail_loop : ℕ → Graph Name → Name → Trail → List Name
unfolding mark chain
trail_loop zero g target t = target ∷ []
trail_loop (suc fuel) g target t = elim t.queue [
  | [] ↦ target ∷ []
  | node ∷ rest ↦ elim (same_name node target) [
    | true ↦ chain (length t.prev) t.prev [] node
    | false ↦
        trail_loop fuel g target
          (mark node (sorted name_leq (targets g node)) (record t { queue = rest }))
  ]
]

unfoldable pub trail_start : Graph Name → List Name → Trail → Trail
trail_start g [] t = t
trail_start g (r ∷ roots) t =
    trail_start g roots
      (if in_graph g r then record t { seen = add r t.seen; queue = t.queue ++ r ∷ [] } else t)

-- `shortest_path`: each round takes a node off the queue, and each node is queued once.
unfoldable pub shortest_path : Graph Name → List Name → Name → List Name
unfolding trail_loop trail_start
shortest_path g roots target =
    trail_loop (suc (length roots + length (all_targets g))) g target
      (trail_start g roots (record { seen = []; queue = []; prev = [] }))
