-- ===== src/Ceg/Search.antt =====
-- `hasCycle` and `reachableSet` of mek/internal/ceg/builder.go: the depth-first searches. The
-- recursion is on fuel, one unit for each nested call; `none` means that the fuel ran out.
pub mod Ends
pub mod Reach
pub mod Cycles
pub mod Reached
use ai_workstation_core.Base.{
  String, List, [], ◌∷◌, Option, none, some, ℕ, zero, suc, ◌+◌, Bool, true, false, not,
  if◌then◌else◌, ◌==◌, length,
}
use ai_workstation_core.Base.Assoc.{Assoc, lookup, insert, lookup_or, has}
use ai_workstation_core.Types.Graph.{CegNode, Ceg}

-- The states 1 and 2 of the map `visited`; a missing key is the state 0.
pub data Mark : Type 0 where
  visiting finished : Mark

-- The successors of a node, none for an identifier that is no node.
abbrev pub next_of : Assoc CegNode → String → List String
next_of nodes id = elim (lookup id nodes) [ none ↦ [] | some node ↦ node.successors ]

abbrev pub Search : Type 0
Search = String → Assoc Mark → Option (Bool × Assoc Mark)

-- The loop over the successors, which stops at the first cycle.
unfoldable pub visit_all : Search → List String → Assoc Mark → Option (Bool × Assoc Mark)
visit_all visit [] marks = some (false, marks)
visit_all visit (id ∷ ids) marks = elim (visit id marks) [
  | none ↦ none
  | some r ↦ if r.0 then some r else visit_all visit ids r.1
]

-- `dfs` of `hasCycle`: has it met a node that is being visited?
unfoldable pub find_cycle : ℕ → Assoc CegNode → Search
find_cycle zero nodes id marks = none
find_cycle (suc fuel) nodes id marks = elim (lookup id marks) [
  | some visiting ↦ some (true, marks)
  | some finished ↦ some (false, marks)
  | none ↦ elim (visit_all (find_cycle fuel nodes) (next_of nodes id) (insert id visiting marks)) [
    | none ↦ none
    | some r ↦ if r.0 then some r else some (false, insert id finished r.1)
  ]
]

-- The loop over the nodes of the graph visits those that no earlier search has.
unfoldable pub cycle_from :
    ℕ → Assoc CegNode → List String → Assoc Mark → Option (Bool × Assoc Mark)
cycle_from fuel nodes ids marks =
    visit_all (λ id m. if has id m then some (false, m) else find_cycle fuel nodes id m) ids marks

-- Each nested call marks one more key of the map of nodes; a missing key has no successors.
abbrev pub search_fuel : Ceg → ℕ
search_fuel ceg = length ceg.node_map + 2

unfoldable pub has_cycle : Ceg → Option Bool
has_cycle ceg = elim (cycle_from (search_fuel ceg) ceg.node_map ceg.order []) [
  | none ↦ none
  | some r ↦ some r.0
]

abbrev pub Walk : Type 0
Walk = String → Assoc Bool → Option (Assoc Bool)

unfoldable pub walk_all : Walk → List String → Assoc Bool → Option (Assoc Bool)
walk_all walk [] reached = some reached
walk_all walk (id ∷ ids) reached = elim (walk id reached) [
  | none ↦ none
  | some r ↦ walk_all walk ids r
]

-- `dfs` of `reachableSet`.
unfoldable pub reach : ℕ → Assoc CegNode → Walk
reach zero nodes id reached = none
reach (suc fuel) nodes id reached =
    if has id reached
    then some reached
    else walk_all (reach fuel nodes) (next_of nodes id) (insert id true reached)

-- The search starts at every node of in-degree 0.
unfoldable pub reachable_set : Ceg → Option (Assoc Bool)
reachable_set ceg =
    walk_all
      (λ id r.
        if lookup_or id ceg.in_degree 0 == 0
        then reach (search_fuel ceg) ceg.node_map id r
        else some r)
      ceg.order []
