-- ===== src/Symbols/Walk.antt =====
-- firmware/gate/check_measure_symbols.py, `reachable` and `shortest_path`: breadth-first search over
-- the call graph, a dictionary from a function to the set of its targets.
pub mod Reach
pub mod Loop
pub mod Correct
use mps4_prototyping_board.Prelude.{
  ℕ, zero, suc, ◌+◌, List, [], ◌∷◌, ◌++◌, Bool, true, false, Option, none, some, length,
  if◌then◌else◌, Equality, has, add, sorted,
}

abbrev pub Graph {ℓ} : Type ℓ → Type ℓ
Graph A = List (A × List A)

-- The sets `seen`, the queue and the list `order` of the search.
pub record Search {ℓ} (A : Type ℓ) : Type ℓ where
  pub seen : List A
  pub queue : List A
  pub order : List A

module _ {ℓ} {A : Type ℓ} ⦃q : Equality A⦄ where
  -- `graph.get(node)`
  unfoldable pub lookup : Graph A → A → Option (List A)
  lookup [] node = none
  lookup ((f, ts) ∷ g) node = let rest = lookup g node in if q.same node f then some ts else rest

  -- `graph.get(node, ())`
  unfoldable pub targets : Graph A → A → List A
  unfolding lookup
  targets g node = elim (lookup g node) [ none ↦ [] | some ts ↦ ts ]

  -- `node in graph`
  unfoldable pub in_graph : Graph A → A → Bool
  unfolding lookup
  in_graph g node = elim (lookup g node) [ none ↦ false | some ts ↦ true ]

  -- `if nxt not in seen: seen.add(nxt); queue.append(nxt)`
  unfoldable pub offer : A → Search A → Search A
  unfolding has add
  offer nxt s =
      if has nxt s.seen then s else record s { seen = add nxt s.seen; queue = s.queue ++ nxt ∷ [] }

  unfoldable pub offer_all : List A → Search A → Search A
  unfolding offer
  offer_all [] s = s
  offer_all (nxt ∷ rest) s = offer_all rest (offer nxt s)

  -- A root that is in the graph is seen, and queued.
  unfoldable pub offer_root : Graph A → A → Search A → Search A
  unfolding in_graph add
  offer_root g r s =
      if in_graph g r then record s { seen = add r s.seen; queue = s.queue ++ r ∷ [] } else s

  unfoldable pub start_from : Graph A → List A → Search A → Search A
  unfolding offer_root
  start_from g [] s = s
  start_from g (r ∷ roots) s = start_from g roots (offer_root g r s)

  unfoldable pub start : Graph A → List A → Search A
  unfolding start_from
  start g roots = start_from g roots (record { seen = []; queue = []; order = [] })

  unfoldable pub missing_roots : Graph A → List A → List A
  unfolding in_graph
  missing_roots g [] = []
  missing_roots g (r ∷ roots) =
      let rest = missing_roots g roots in if in_graph g r then rest else r ∷ rest

  -- Every target that a walk can add.
  unfoldable pub all_targets : Graph A → List A
  all_targets [] = []
  all_targets ((f, ts) ∷ g) = ts ++ all_targets g

  module _ (leq : A → A → Bool) (g : Graph A) where
    -- One round: `node`, taken off the queue, and its targets in order.
    unfoldable pub expand : A → List A → Search A → Search A
    unfolding targets offer_all sorted
    expand node rest s =
        offer_all (sorted leq (targets g node))
          (record s { queue = rest; order = s.order ++ node ∷ [] })

    -- The `while queue` loop, on fuel.
    unfoldable pub search_loop : ℕ → Search A → Option (Search A)
    unfolding expand
    search_loop zero s = elim s.queue [ [] ↦ some s | node ∷ rest ↦ none ]
    search_loop (suc fuel) s = elim s.queue [
      | [] ↦ some s
      | node ∷ rest ↦ search_loop fuel (expand node rest s)
    ]

    -- `reachable`: the search, and the roots that are not in the graph. A round takes one node off the
    -- queue, and each node is queued once.
    unfoldable pub reachable : List A → Option (Search A × List A)
    unfolding search_loop start missing_roots all_targets
    reachable roots = elim (search_loop (length roots + length (all_targets g)) (start g roots)) [
      | none ↦ none
      | some s ↦ some (s, missing_roots g roots)
    ]
