-- ===== src/Scheduler/Waves.antt =====
-- `ComputeWaves` of mek/internal/scheduler/scheduler.go: each layer is split into waves by a greedy
-- colouring of the conflict graph of its nodes.
pub mod Colours
pub mod Grouping
pub mod Partition
pub mod Links
pub mod Overlap
pub mod Graph
use mathlib.Core.List.{foldl}
use ai_workstation_core.Base.{
  String, List, [], ◌∷◌, ◌++◌, Option, none, some, ℕ, zero, suc, ◌+◌, Bool, true, false, ◌&&◌, ◌||◌,
  if◌then◌else◌, ◌==◌, ltb, str_eq, any, contains, map, length,
}
use ai_workstation_core.Base.Assoc.{Assoc, keys, lookup, insert, lookup_or}
use ai_workstation_core.Base.Sorting.{sort_strings}
use ai_workstation_core.Types.Rir.{Rir, ExecutableUnit, IsolationBoundary, DataFlowInput}
use ai_workstation_core.Types.Graph.{Ceg}

-- conflicts[a][b] = true
abbrev pub Conflicts : Type 0
Conflicts = Assoc (Assoc Bool)

abbrev pub neighbours : Conflicts → String → List String
neighbours conflicts id = keys (lookup_or id conflicts [])

-- The units of every isolation region that holds the unit.
unfoldable pub collect_surfaces : String → List IsolationBoundary → List String
collect_surfaces id [] = []
collect_surfaces id (iso ∷ regions) =
    let rest = collect_surfaces id regions in
    if contains iso.units id then iso.units ++ rest else rest

abbrev pub has_overlap : List String → List String → Bool
has_overlap a b = any (λ sa. any (λ sb. str_eq sa sb) b) a

-- The contracts of the inputs of the units with an identifier.
unfoldable pub contracts_of : String → List ExecutableUnit → List String
contracts_of id [] = []
contracts_of id (u ∷ units) =
    let rest = contracts_of id units in
    if str_eq u.id id then map (λ i. i.contract) u.inputs ++ rest else rest

-- Two nodes conflict if they share a data contract among their inputs.
unfoldable pub has_data_flow_conflict : String → String → Rir → Bool
has_data_flow_conflict a b rir =
    any (λ k. contains (contracts_of b rir.units) k) (contracts_of a rir.units)

-- surfaces[id]: none if the identifier is no unit's.
unfoldable pub surface_of : String → Rir → List String
surface_of id rir =
    if contains (map (λ u. u.id) rir.units) id
    then collect_surfaces id rir.isolation_regions
    else []

unfoldable pub add_conflict : String → String → Conflicts → Conflicts
add_conflict a b conflicts = insert a (insert b true (lookup_or a conflicts [])) conflicts

-- The two tests by which a pair of nodes is linked: a shared surface, or a shared contract.
unfoldable pub clash : Rir → String → String → Bool
clash rir a b = has_overlap (surface_of a rir) (surface_of b rir) || has_data_flow_conflict a b rir

-- The body of the double loop, for one pair of nodes.
unfoldable pub link : Rir → Conflicts → String → String → Conflicts
link rir conflicts a b =
    if clash rir a b then add_conflict b a (add_conflict a b conflicts) else conflicts

unfoldable pub link_all : Rir → Conflicts → List String → Conflicts
link_all rir conflicts [] = conflicts
link_all rir conflicts (a ∷ later) =
    link_all rir (foldl (λ c b. link rir c a b) conflicts later) later

unfoldable pub build_conflict_graph : List String → Rir → Conflicts
build_conflict_graph layer rir = link_all rir (foldl (λ c id. insert id [] c) [] layer) layer

-- The colours that the neighbours have so far.
unfoldable pub used_colours : Assoc ℕ → List String → List ℕ
used_colours colours [] = []
used_colours colours (n ∷ ns) =
    let rest = used_colours colours ns in
    elim (lookup n colours) [ none ↦ rest | some c ↦ c ∷ rest ]

abbrev pub is_used : List ℕ → ℕ → Bool
is_used used c = any (λ u. u == c) used

-- `for used[c] { c++ }`, on fuel; the last answer is that of spent fuel.
unfoldable pub first_free : ℕ → List ℕ → ℕ → ℕ
first_free zero used c = c
first_free (suc fuel) used c =
    let next = first_free fuel used (c + 1) in if is_used used c then next else c

-- One node of the greedy loop of `colorGraph`.
unfoldable pub colour_node : Conflicts → Assoc ℕ → String → Assoc ℕ
colour_node conflicts colours n =
    let used = used_colours colours (neighbours conflicts n) in
    insert n (first_free (length used) used 0) colours

unfoldable pub colour_all : Conflicts → Assoc ℕ → List String → Assoc ℕ
colour_all conflicts colours nodes = foldl (colour_node conflicts) colours nodes

abbrev pub colour_of : Assoc ℕ → String → ℕ
colour_of colours n = lookup_or n colours 0

unfoldable pub max_colour : Assoc ℕ → ℕ
max_colour [] = 0
max_colour ((n, c) ∷ colours) = let rest = max_colour colours in if ltb rest c then c else rest

-- waves[i] = append(waves[i], n)
unfoldable pub append_at : List (List String) → ℕ → String → List (List String)
append_at [] i n = []
append_at (w ∷ ws) zero n = (w ++ n ∷ []) ∷ ws
append_at (w ∷ ws) (suc i) n = w ∷ append_at ws i n

abbrev pub blank : ℕ → List (List String)
blank zero = []
blank (suc k) = [] ∷ blank k

unfoldable pub group : Assoc ℕ → List String → List (List String)
group colours nodes =
    foldl (λ waves n. append_at waves (colour_of colours n) n) (blank (max_colour colours + 1))
      nodes

unfoldable pub colour_graph : List String → Conflicts → List (List String)
colour_graph nodes conflicts =
    let sorted = sort_strings nodes in
    map sort_strings (group (colour_all conflicts [] sorted) sorted)

-- An empty layer keeps a nil list of waves.
abbrev layer_waves : Rir → List String → List (List String)
layer_waves rir [] = []
layer_waves rir (id ∷ ids) = colour_graph (id ∷ ids) (build_conflict_graph (id ∷ ids) rir)

unfoldable pub compute_waves : Ceg → Rir → List (List (List String))
compute_waves ceg rir = map (layer_waves rir) ceg.layers
