-- ===== src/Ceg/Layers.antt =====
-- `topoSort` of mek/internal/ceg/builder.go: Kahn's algorithm, a layer at a time. The working copy of
-- the in-degrees may go below zero, at an edge to an identifier that is no node: it holds integers.
pub mod Ends
use mathlib.Core.List.{foldl}
use ai_workstation_core.Base.{
  String, List, [], ◌∷◌, ◌++◌, Option, none, some, ℕ, zero, suc, ◌+◌, Bool, true, false,
  if◌then◌else◌, ◌==◌, map, select, length,
}
use ai_workstation_core.Base.Assoc.{Assoc, lookup, insert, lookup_or}
use ai_workstation_core.Base.Sorting.{sort_strings}
use ai_workstation_core.Types.Graph.{CegNode, Ceg}

-- `negsuc n` is -(n + 1).
pub data ℤ : Type 0 where
  pos : ℕ → ℤ
  negsuc : ℕ → ℤ

abbrev pub pred_ℤ : ℤ → ℤ
pred_ℤ (pos zero) = negsuc 0
pred_ℤ (pos (suc n)) = pos n
pred_ℤ (negsuc n) = negsuc (n + 1)

abbrev pub is_zero : ℤ → Bool
is_zero (pos zero) = true
is_zero _ = false

abbrev pub degree_of : Assoc ℤ → String → ℤ
degree_of degrees id = lookup_or id degrees (pos 0)

-- The loop over the successors of a node: `inDeg[succ]--`, and a node that reaches 0 is queued.
unfoldable pub release : Assoc ℤ → List String → List String → Assoc ℤ × List String
release degrees queue [] = (degrees, queue)
release degrees queue (succ ∷ succs) =
    let d = pred_ℤ (degree_of degrees succ) in
    release (insert succ d degrees) (if is_zero d then queue ++ succ ∷ [] else queue) succs

abbrev pub successors_of : Assoc CegNode → String → List String
successors_of nodes id = elim (lookup id nodes) [
  | none ↦ []
  | some node ↦ sort_strings node.successors
]

-- The loop over the nodes of one layer; the queue holds those of the next.
unfoldable pub visit_layer :
    Assoc CegNode → Assoc ℤ → List String → List String → Assoc ℤ × List String
visit_layer nodes degrees queue [] = (degrees, queue)
visit_layer nodes degrees queue (id ∷ layer) =
    let (degrees', queue') = release degrees queue (successors_of nodes id) in
    visit_layer nodes degrees' queue' layer

abbrev pub is_nil {ℓ} : {A : Type ℓ} → List A → Bool
is_nil [] = true
is_nil (_ ∷ _) = false

-- The outer loop, on fuel: the layers that it appends. `none`: the fuel ran out.
unfoldable pub layers_from : ℕ → Assoc CegNode → Assoc ℤ → List String → Option (List (List String))
layers_from zero nodes degrees queue = none
layers_from (suc fuel) nodes degrees queue =
    let (degrees', queue') = visit_layer nodes degrees [] queue in
    let rest = layers_from fuel nodes degrees' (sort_strings queue') in
    if is_nil queue then some [] else elim rest [ none ↦ none | some ls ↦ some (queue ∷ ls) ]

-- The identifiers of in-degree 0, in the order of the units.
unfoldable pub roots : Ceg → List String
roots ceg = select (λ id. lookup_or id ceg.in_degree 0 == 0) ceg.order

abbrev pub degrees_of : Assoc ℕ → Assoc ℤ
degrees_of m = map (λ e. (e.0, pos e.1)) m

-- How many degrees are positive.
abbrev pub count_positive : Assoc ℤ → ℕ
count_positive [] = 0
count_positive ((id, pos (suc n)) ∷ m) = suc (count_positive m)
count_positive ((id, pos zero) ∷ m) = count_positive m
count_positive ((id, negsuc n) ∷ m) = count_positive m

-- The fuel: one round for each root and each node of positive in-degree, and the last test.
abbrev pub layer_fuel : Ceg → ℕ
layer_fuel ceg = suc (length (roots ceg) + count_positive (degrees_of ceg.in_degree))

unfoldable pub compute_layers : Ceg → Option (List (List String))
compute_layers ceg =
    layers_from (layer_fuel ceg) ceg.node_map (degrees_of ceg.in_degree) (sort_strings (roots ceg))
