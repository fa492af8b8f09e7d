-- ===== src/Ceg/Search/Ends.antt =====
-- The fuel of the search for a cycle, and how marks reduce it.
use ai_workstation_core.Base.{
  String, List, [], ◌∷◌, Option, none, some, ℕ, zero, suc, ◌+◌, ◌≤◌, ◌<◌, Bool, true, false, ◌≡◌,
  refl, arith, if◌then◌else◌, length, str_eq, eq_iff, Option-cases, Bool-cases, inl, inr, if_rule,
}
use ai_workstation_core.Base.Assoc.{Assoc, lookup, insert, has, lookup-insert}
use ai_workstation_core.Types.Graph.{CegNode, Ceg}
use ai_workstation_core.Ceg.Search.{
  Mark, visiting, finished, next_of, Search, visit_all, find_cycle, cycle_from, search_fuel,
  has_cycle,
}

-- How many keys of the first map the second has not.
abbrev pub unmarked {ℓ κ} : {V : Type ℓ} {W : Type κ} → Assoc V → Assoc W → ℕ
unmarked [] marks = 0
unmarked ((k, v) ∷ nodes) marks =
    let rest = unmarked nodes marks in if has k marks then rest else suc rest

pub has-insert {κ} :
    {W : Type κ} (k j : String) (w : W) (marks : Assoc W)
    → has j (insert k w marks) ≡ (if str_eq k j then true else has j marks)
has-insert k j w marks = ground (arith, lookup-insert k j w marks)

module _ {ℓ κ} {V : Type ℓ} {W : Type κ} where
  pub unmarked-insert :
      (nodes : Assoc V) (k : String) (w : W) (marks : Assoc W)
      → unmarked nodes (insert k w marks) ≤ unmarked nodes marks
  unmarked-insert [] k w marks = omega arith
  unmarked-insert ((j, v) ∷ nodes) k w marks =
      ground (arith, has-insert k j w marks, unmarked-insert nodes k w marks)

  -- A new mark on a key of the map makes one key less.
  pub unmarked-insert_new :
      (nodes : Assoc V) (k : String) (v : V) (w : W) (marks : Assoc W)
      → lookup k nodes ≡ some v
      → has k marks ≡ false
      → unmarked nodes (insert k w marks) < unmarked nodes marks
  unfolding lookup
  unmarked-insert_new [] k v w marks found new = cc
  unmarked-insert_new ((j, u) ∷ nodes) k v w marks found new = ground (
    arith,
    eq_iff j k,
    eq_iff k j,
    has-insert k j w marks,
    unmarked-insert nodes k w marks,
    unmarked-insert_new nodes k v w marks,
  )

  pub unmarked-length : (nodes : Assoc V) (marks : Assoc W) → unmarked nodes marks ≤ length nodes
  unmarked-length [] marks = omega arith
  unmarked-length ((j, u) ∷ nodes) marks = ground (arith, unmarked-length nodes marks)

module _ (nodes : Assoc CegNode) where
  -- A search ends with the marks that it was given, or more.
  abbrev Ends : Assoc Mark → Option (Bool × Assoc Mark) → Type 0
  Ends marks o =
      (r : Bool × Assoc Mark) × (o ≡ some r) × (unmarked nodes r.1 ≤ unmarked nodes marks)

  visit_all-Ends :
      (n : ℕ) (visit : Search)
      → ((id : String) (marks : Assoc Mark)
          → unmarked nodes marks < n
          → Ends marks (visit id marks))
      → (ids : List String) (marks : Assoc Mark) → unmarked nodes marks < n
      → Ends marks (visit_all visit ids marks)
  unfolding visit_all
  visit_all-Ends n visit one [] marks small = ((false, marks), refl, omega arith)
  visit_all-Ends n visit one (id ∷ ids) marks small =
      let (r, e, fewer) = one id marks small in
      let later = visit_all-Ends n visit one ids r.1 (omega arith) in
      elim (Bool-cases r.0) [
        | inl met ↦ (r, ground arith, fewer)
        | inr fine ↦ (later.0, ground (arith, later.1), omega (arith, later.2))
      ]

  -- The search below a node that is met for the first time.
  successors-Ends :
      (visit : Search) (id : String) (marks : Assoc Mark)
      → ((j : String) (m : Assoc Mark)
          → unmarked nodes m < unmarked nodes marks
          → Ends m (visit j m))
      → lookup id marks ≡ none
      → Ends marks (visit_all visit (next_of nodes id) (insert id visiting marks))
  unfolding visit_all
  successors-Ends visit id marks one new = elim (Option-cases (lookup id nodes)) [
    | inl missing ↦
        ((false, insert id visiting marks), ground arith, unmarked-insert nodes id visiting marks)
    | inr (node, found) ↦
        let less = unmarked-insert_new nodes id node visiting marks found (ground arith) in
        let (r, e, fewer) =
          visit_all-Ends (unmarked nodes marks) visit one (next_of nodes id)
            (insert id visiting marks) less in
        (r, e, omega arith)
  ]

  find_cycle-Ends :
      (fuel : ℕ) (id : String) (marks : Assoc Mark)
      → unmarked nodes marks + 1 < fuel
      → Ends marks (find_cycle fuel nodes id marks)
  unfolding find_cycle
  find_cycle-Ends zero id marks small = absurd (omega arith)
  find_cycle-Ends (suc fuel) id marks small = elim (Option-cases (lookup id marks)) [
    | inr (visiting, known) ↦ ((true, marks), cc known, omega arith)
    | inr (finished, known) ↦ ((false, marks), cc known, omega arith)
    | inl new ↦
        let (r, e, fewer) =
          successors-Ends (find_cycle fuel nodes) id marks
            (λ j m few. find_cycle-Ends fuel j m (omega arith)) new in
        elim (Bool-cases r.0) [
          | inl met ↦ (r, ground arith, fewer)
          | inr fine ↦ (
            (false, insert id finished r.1),
            ground arith,
            omega (arith, unmarked-insert nodes id finished r.1, fewer),
          )
        ]
  ]

abbrev no_marks : Assoc Mark
no_marks = []

-- The search for a cycle ends on every graph, within the fuel.
pub has_cycle_total : (ceg : Ceg) → (b : Bool) × (has_cycle ceg ≡ some b)
unfolding has_cycle cycle_from
has_cycle_total ceg =
    let (r, e, fewer) =
      visit_all-Ends ceg.node_map (length ceg.node_map + 1)
        (λ id m.
          if has id m then some (false, m) else find_cycle (search_fuel ceg) ceg.node_map id m)
        (λ id m small.
          if_rule (Ends ceg.node_map m) (has id m) (λ _. ((false, m), refl, omega arith))
            (λ _. find_cycle-Ends ceg.node_map (search_fuel ceg) id m (omega arith)))
        ceg.order [] (omega (arith, unmarked-length ceg.node_map no_marks)) in
    (r.0, cc e)
