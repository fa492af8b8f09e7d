-- ===== src/Ceg/Build/Laws.antt =====
-- What `Build` answers, and what it lets pass.
use ai_workstation_core.Base.{
  String, List, [], ◌∷◌, none, some, ℕ, ◌≤◌, Bool, false, ◌≡◌, arith, subst, sym, length, All,
  option_rule, Option-cases, inl, inr,
}
use ai_workstation_core.Base.Assoc.{Assoc, lookup}
use ai_workstation_core.Types.Rir.{Rir}
use ai_workstation_core.Types.Graph.{CegNode, Ceg}
use ai_workstation_core.Ceg.Layers.{compute_layers}
use ai_workstation_core.Ceg.Layers.Ends.{compute_layers_total}
use ai_workstation_core.Ceg.Search.{has_cycle, reachable_set}
use ai_workstation_core.Ceg.Search.Ends.{has_cycle_total}
use ai_workstation_core.Ceg.Search.Reach.{reachable_set_total}
use ai_workstation_core.Ceg.Build.{
  find_overloaded, judge, Built, built, out_of_fuel, validate, build_graph, build, assign_layers,
}

-- The node, if it is one, has 1024 predecessors at most.
abbrev pub WithinDegree : Assoc CegNode → String → Type 0
WithinDegree nodes id =
    (node : CegNode) → lookup id nodes ≡ some node → length node.predecessors ≤ 1024

find_overloaded-none :
    (nodes : Assoc CegNode) (ids : List String)
    → find_overloaded nodes ids ≡ none
    → All (WithinDegree nodes) ids
unfolding find_overloaded
find_overloaded-none nodes [] h = tt
find_overloaded-none nodes (id ∷ ids) h = (
  λ node found. ground arith,
  find_overloaded-none nodes ids (elim (Option-cases (lookup id nodes)) [
    | inl missing ↦ ground arith
    | inr (node, found) ↦ ground arith
  ]),
)

-- What `validate` asks of a graph.
abbrev pub WellBuilt : Ceg → Type 0
WellBuilt ceg =
    (has_cycle ceg ≡ some false)
    × All (WithinDegree ceg.node_map) ceg.order
    × (ceg.max_depth ≤ 128)
    × (m : Assoc Bool) × (reachable_set ceg ≡ some m)
    × (length m ≡ length ceg.order)

judge-none :
    (ceg : Ceg) (cyclic : Bool) (reachable : ℕ)
    → judge ceg cyclic reachable ≡ none
    → (cyclic ≡ false)
      × (find_overloaded ceg.node_map ceg.order ≡ none)
      × (ceg.max_depth ≤ 128)
      × (reachable ≡ length ceg.order)
unfolding judge
judge-none ceg cyclic reachable h = ground arith

built-injective : (a b : Ceg) → built a ≡ built b → a ≡ b
built-injective a b h = cc h

-- A graph that `validate` answers is the one that it was given, and is well built.
pub validate-WellBuilt : (ceg g : Ceg) → validate ceg ≡ built g → (g ≡ ceg) × WellBuilt ceg
unfolding validate
validate-WellBuilt ceg g h =
    let (cyclic, c) = has_cycle_total ceg in
    let (m, r) = reachable_set_total ceg in
    elim (Option-cases (judge ceg cyclic (length m))) [
      | inr (x, bad) ↦ absurd (ground arith)
      | inl fine ↦
          let (acyclic, degree, depth, reached) = judge-none ceg cyclic (length m) fine in
          (
            ground arith,
            (
              ground arith,
              find_overloaded-none ceg.node_map ceg.order degree,
              depth,
              m,
              r,
              reached,
            ),
          )
    ]

abbrev pub Answers : Built → Type 0
Answers out_of_fuel = ⊥
Answers _ = Unit

validate-Answers : (ceg : Ceg) → Answers (validate ceg)
unfolding validate
validate-Answers ceg =
    option_rule Answers (has_cycle ceg) (λ stuck. absurd (ground (arith, has_cycle_total ceg)))
      (λ cyclic c.
        option_rule Answers (reachable_set ceg)
          (λ stuck. absurd (ground (arith, reachable_set_total ceg)))
          (λ m r. option_rule Answers (judge ceg cyclic (length m)) (λ _. tt) (λ x _. tt)))

-- `Build` answers a graph or an error for every input, within the fuel of its three searches.
pub build-Answers : (rir : Rir) → Answers (build rir)
unfolding build
build-Answers rir =
    option_rule Answers (compute_layers (build_graph rir))
      (λ stuck. absurd (ground (arith, compute_layers_total (build_graph rir))))
      (λ ls e. validate-Answers (assign_layers (build_graph rir) ls))

-- A graph that `Build` answers has passed every check: the search finds no cycle in it, no node
-- has more than 1024 predecessors, there are at most 128 layers, and the search from the roots
-- reaches as many identifiers as there are nodes.
pub build-WellBuilt : (rir : Rir) (g : Ceg) → build rir ≡ built g → WellBuilt g
unfolding build
build-WellBuilt rir g h =
    let (ls, e) = compute_layers_total (build_graph rir) in
    let ceg = assign_layers (build_graph rir) ls in
    let (same, well) = validate-WellBuilt ceg g (ground arith) in subst WellBuilt (sym same) well
