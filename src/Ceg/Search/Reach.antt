-- ===== src/Ceg/Search/Reach.antt =====
-- The fuel of the search for the reachable nodes.
use ai_workstation_core.Base.{
  String, List, [], ◌∷◌, Option, some, ℕ, zero, suc, ◌+◌, ◌≤◌, ◌<◌, Bool, true, false, ◌==◌, ◌≡◌,
  refl, arith, if◌then◌else◌, length, Option-cases, inl, inr, if_rule,
}
use ai_workstation_core.Base.Assoc.{Assoc, lookup, insert, has, lookup_or}
use ai_workstation_core.Types.Graph.{CegNode, Ceg}
use ai_workstation_core.Ceg.Search.{next_of, search_fuel, Walk, walk_all, reach, reachable_set}
use ai_workstation_core.Ceg.Search.Ends.{
  unmarked, unmarked-insert, unmarked-insert_new, unmarked-length,
}

module _ (nodes : Assoc CegNode) where
  abbrev Ends : Assoc Bool → Option (Assoc Bool) → Type 0
  Ends reached o = (r : Assoc Bool) × (o ≡ some r) × (unmarked nodes r ≤ unmarked nodes reached)

  walk_all-Ends :
      (n : ℕ) (walk : Walk)
      → ((id : String) (m : Assoc Bool) → unmarked nodes m < n → Ends m (walk id m))
      → (ids : List String) (m : Assoc Bool) → unmarked nodes m < n
      → Ends m (walk_all walk ids m)
  unfolding walk_all
  walk_all-Ends n walk one [] m small = (m, refl, omega arith)
  walk_all-Ends n walk one (id ∷ ids) m small =
      let (r, e, fewer) = one id m small in
      let later = walk_all-Ends n walk one ids r (omega arith) in
      (later.0, ground (arith, later.1), omega (arith, later.2))

  -- The search below a node that is met for the first time.
  successors-Ends :
      (walk : Walk) (id : String) (m : Assoc Bool)
      → ((j : String) (k : Assoc Bool) → unmarked nodes k < unmarked nodes m → Ends k (walk j k))
      → has id m ≡ false
      → Ends m (walk_all walk (next_of nodes id) (insert id true m))
  unfolding walk_all
  successors-Ends walk id m one new = elim (Option-cases (lookup id nodes)) [
    | inl missing ↦ (insert id true m, ground arith, unmarked-insert nodes id true m)
    | inr (node, found) ↦
        let less = unmarked-insert_new nodes id node true m found new in
        let (r, e, fewer) =
          walk_all-Ends (unmarked nodes m) walk one (next_of nodes id) (insert id true m) less in
        (r, e, omega arith)
  ]

  reach-Ends :
      (fuel : ℕ) (id : String) (m : Assoc Bool)
      → unmarked nodes m + 1 < fuel
      → Ends m (reach fuel nodes id m)
  unfolding reach
  reach-Ends zero id m small = absurd (omega arith)
  reach-Ends (suc fuel) id m small =
      if_rule (Ends m) (has id m) (λ _. (m, refl, omega arith))
        (λ new.
          successors-Ends (reach fuel nodes) id m (λ j k few. reach-Ends fuel j k (omega arith))
            new)

abbrev nothing_reached : Assoc Bool
nothing_reached = []

-- The search for the reachable nodes ends on every graph, within the fuel.
pub reachable_set_total : (ceg : Ceg) → (m : Assoc Bool) × (reachable_set ceg ≡ some m)
unfolding reachable_set
reachable_set_total ceg =
    let (r, e, fewer) =
      walk_all-Ends ceg.node_map (length ceg.node_map + 1)
        (λ id m.
          if lookup_or id ceg.in_degree 0 == 0
          then reach (search_fuel ceg) ceg.node_map id m
          else some m)
        (λ id m small.
          if_rule (Ends ceg.node_map m) (lookup_or id ceg.in_degree 0 == 0)
            (λ _. reach-Ends ceg.node_map (search_fuel ceg) id m (omega arith))
            (λ _. (m, refl, omega arith)))
        ceg.order [] (omega (arith, unmarked-length ceg.node_map nothing_reached)) in
    (r, e)
