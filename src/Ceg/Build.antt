-- ===== src/Ceg/Build.antt =====
-- `Build`, `validate` and the writes of `topoSort` of mek/internal/ceg/builder.go. Of an error's
-- message the model keeps what it prints.
pub mod Laws
pub mod Acyclic
pub mod Reached
use mathlib.Core.List.{foldl}
use ai_workstation_core.Base.{
  String, List, [], ◌∷◌, ◌++◌, Option, none, some, ℕ, zero, suc, ◌+◌, ◌-◌, Bool, true, false,
  if◌then◌else◌, ◌==◌, ltb, map, length, contains, any,
}
use ai_workstation_core.Base.Assoc.{Assoc, lookup, insert, lookup_or}
use ai_workstation_core.Base.Sorting.{sort_strings}
use ai_workstation_core.Types.Rir.{ExecutableUnit, Edge, Rir}
use ai_workstation_core.Types.Graph.{CegNode, Ceg, empty}
use ai_workstation_core.Ceg.Layers.{compute_layers}
use ai_workstation_core.Ceg.Search.{has_cycle, reachable_set}

pub data BuildError : Type 0 where
  cycles_detected : BuildError
  indegree_exceeded : (id : String) (indegree : ℕ) → BuildError
  max_depth_exceeded : (depth : ℕ) → BuildError
  unreachable_nodes : (nodes reachable : ℕ) → BuildError

abbrev node_of : ExecutableUnit → CegNode
node_of u = record {
  id = u.id;
  type = u.type;
  activation = u.activation;
  gate = u.gate;
  binding = u.binding;
  scheduling = u.scheduling;
  predecessors = [];
  successors = [];
  layer = 0;
}

unfoldable pub add_node : Ceg → ExecutableUnit → Ceg
add_node ceg u = record ceg {
  order = ceg.order ++ u.id ∷ [];
  node_map = insert u.id (node_of u) ceg.node_map;
  in_degree = insert u.id 0 ceg.in_degree;
}

-- `from.Successors = append(from.Successors, edge.To)`, if the node exists.
abbrev pub add_successor : Edge → Assoc CegNode → Assoc CegNode
add_successor edge nodes = elim (lookup edge.from nodes) [
  | none ↦ nodes
  | some n ↦ insert edge.from (record n { successors = n.successors ++ edge.to ∷ [] }) nodes
]

unfoldable pub add_edge : Ceg → Edge → Ceg
add_edge ceg edge =
    let nodes = add_successor edge ceg.node_map in
    elim (lookup edge.to nodes) [
      | none ↦ record ceg { edges = ceg.edges ++ edge ∷ []; node_map = nodes }
      | some n ↦ record ceg {
        edges = ceg.edges ++ edge ∷ [];
        node_map =
            insert edge.to (record n { predecessors = n.predecessors ++ edge.from ∷ [] }) nodes;
        in_degree = insert edge.to (lookup_or edge.to ceg.in_degree 0 + 1) ceg.in_degree;
      }
    ]

unfoldable pub build_graph : Rir → Ceg
build_graph rir = foldl add_edge (foldl add_node empty rir.units) rir.edges

-- nodeLayer[id]: the last layer that holds the identifier, and 0 for one in no layer.
abbrev pub layer_of : List (List String) → ℕ → String → ℕ → ℕ
layer_of [] i id d = d
layer_of (l ∷ ls) i id d = layer_of ls (i + 1) id (if contains l id then i else d)

-- The writes of `topoSort`: the layers, their number, the layer of each node, and the sorted
-- successors of each node that stands in a layer.
unfoldable pub assign_layers : Ceg → List (List String) → Ceg
assign_layers ceg ls = record ceg {
  node_map =
      map
        (λ e. (
          e.0,
          record e.1 {
            layer = layer_of ls 0 e.0 0;
            successors =
                if any (λ l. contains l e.0) ls
                then sort_strings e.1.successors
                else e.1.successors;
          },
        ))
        ceg.node_map;
  layers = ls;
  max_depth = length ls;
}

-- The first node of more than 1024 predecessors.
unfoldable pub find_overloaded : Assoc CegNode → List String → Option BuildError
find_overloaded nodes [] = none
find_overloaded nodes (id ∷ ids) = elim (lookup id nodes) [
  | none ↦ find_overloaded nodes ids
  | some n ↦
      if ltb 1024 (length n.predecessors)
      then some (indegree_exceeded n.id (length n.predecessors))
      else find_overloaded nodes ids
]

-- `validate`, given what the two searches found.
unfoldable pub judge : Ceg → Bool → ℕ → Option BuildError
judge ceg cyclic reachable =
    if cyclic then some cycles_detected else elim (find_overloaded ceg.node_map ceg.order) [
      | some x ↦ some x
      | none ↦
          if ltb 128 ceg.max_depth
          then some (max_depth_exceeded ceg.max_depth)
          else if reachable == length ceg.order
          then none
          else some (unreachable_nodes (length ceg.order) reachable)
    ]

pub data Built : Type 0 where
  built : Ceg → Built
  refused : BuildError → Built
  out_of_fuel : Built

-- `validate`, whose error ends `Build`.
unfoldable pub validate : Ceg → Built
validate ceg = elim (has_cycle ceg) [
  | none ↦ out_of_fuel
  | some cyclic ↦ elim (reachable_set ceg) [
    | none ↦ out_of_fuel
    | some reached ↦ elim (judge ceg cyclic (length reached)) [
      | none ↦ built ceg
      | some x ↦ refused x
    ]
  ]
]

unfoldable pub build : Rir → Built
build rir =
    let ceg = build_graph rir in
    elim (compute_layers ceg) [ none ↦ out_of_fuel | some ls ↦ validate (assign_layers ceg ls) ]
