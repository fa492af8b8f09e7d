-- ===== src/Ceg/Layers/Ends.antt =====
-- The fuel of Kahn's loop.
use ai_workstation_core.Base.{
  String, List, [], ◌∷◌, ◌++◌, some, ℕ, zero, suc, ◌+◌, ◌<◌, Bool, true, false, ◌≡◌, refl, arith,
  if◌then◌else◌, length, length-append, ◌∙◌,
}
use ai_workstation_core.Base.Assoc.{Assoc, lookup, insert}
use ai_workstation_core.Base.Sorting.{sort_strings, length-sort_strings}
use ai_workstation_core.Types.Graph.{CegNode, Ceg}
use ai_workstation_core.Ceg.Layers.{
  ℤ, pos, negsuc, pred_ℤ, is_zero, degree_of, release, successors_of, visit_layer, layers_from,
  roots, degrees_of, count_positive, layer_fuel, compute_layers,
}

abbrev positive : ℤ → ℕ
positive (pos zero) = 0
positive (pos (suc n)) = 1
positive (negsuc n) = 0

count_positive-cons :
    (id : String) (d : ℤ) (m : Assoc ℤ)
    → count_positive ((id, d) ∷ m) ≡ positive d + count_positive m
count_positive-cons id (pos zero) m = omega arith
count_positive-cons id (pos (suc n)) m = omega arith
count_positive-cons id (negsuc n) m = omega arith

count_positive-insert :
    (id : String) (d : ℤ) (m : Assoc ℤ)
    → count_positive (insert id d m) + positive (degree_of m id) ≡ count_positive m + positive d
unfolding insert lookup
count_positive-insert id d [] = omega (arith, count_positive-cons id d [])
count_positive-insert id d ((j, w) ∷ m) = ground (
  arith,
  count_positive-cons id d m,
  count_positive-cons j w m,
  count_positive-cons j w (insert id d m),
  count_positive-insert id d m,
)

-- A positive degree that falls stays positive, or reaches 0.
positive-pred : (d : ℤ) → positive (pred_ℤ d) + (if is_zero (pred_ℤ d) then 1 else 0) ≡ positive d
positive-pred d = ground arith

-- What is queued was positive before.
release_work :
    (degrees : Assoc ℤ) (queue succs : List String)
    → count_positive (release degrees queue succs).0 + length (release degrees queue succs).1
      ≡ count_positive degrees + length queue
unfolding release
release_work degrees queue [] = refl
release_work degrees queue (succ ∷ succs) =
    let d = degree_of degrees succ in
    let queue' = if is_zero (pred_ℤ d) then queue ++ succ ∷ [] else queue in
    omega (
      arith,
      release_work (insert succ (pred_ℤ d) degrees) queue' succs,
      count_positive-insert succ (pred_ℤ d) degrees,
      positive-pred d,
      queued (is_zero (pred_ℤ d)),
    )
  where
    queued :
        (b : Bool)
        → length (if b then queue ++ succ ∷ [] else queue) ≡ length queue + (if b then 1 else 0)
    queued true = omega (arith, length-append queue (succ ∷ []))
    queued false = omega arith

visit_layer_work :
    (nodes : Assoc CegNode) (degrees : Assoc ℤ) (queue layer : List String)
    → count_positive (visit_layer nodes degrees queue layer).0
        + length (visit_layer nodes degrees queue layer).1
      ≡ count_positive degrees + length queue
unfolding visit_layer
visit_layer_work nodes degrees queue [] = refl
visit_layer_work nodes degrees queue (id ∷ layer) =
    let (degrees', queue') = release degrees queue (successors_of nodes id) in
    visit_layer_work nodes degrees' queue' layer
    ∙ release_work degrees queue (successors_of nodes id)

layers_from_total :
    (fuel : ℕ) (nodes : Assoc CegNode) (degrees : Assoc ℤ) (queue : List String)
    → count_positive degrees + length queue < fuel
    → (ls : List (List String)) × (layers_from fuel nodes degrees queue ≡ some ls)
unfolding layers_from
layers_from_total zero nodes degrees queue h = absurd (omega arith)
layers_from_total (suc fuel) nodes degrees [] h = ([], refl)
layers_from_total (suc fuel) nodes degrees (q ∷ queue) h =
    let (degrees', queue') = visit_layer nodes degrees [] (q ∷ queue) in
    let (ls, e) =
      layers_from_total fuel nodes degrees' (sort_strings queue') (
        omega (arith, visit_layer_work nodes degrees [] (q ∷ queue), length-sort_strings queue')) in
    ((q ∷ queue) ∷ ls, rw e)

-- The layering ends on every graph, within the fuel.
pub compute_layers_total : (ceg : Ceg) → (ls : List (List String)) × (compute_layers ceg ≡ some ls)
unfolding compute_layers
compute_layers_total ceg =
    layers_from_total (layer_fuel ceg) ceg.node_map (degrees_of ceg.in_degree)
      (sort_strings (roots ceg)) (omega (arith, length-sort_strings (roots ceg)))
