-- ===== src/Verify/Laws.antt =====
-- What a report that passes says, and what a run of the scheduler passes.
use mathlib.Core.List.{foldl}
use ai_workstation_core.Base.{
  String, List, [], ◌∷◌, Option, none, some, Bool, true, false, not, ◌&&◌, ◌||◌, ◌≡◌, refl, arith,
  str_eq, all, option_rule, Option-cases, inl, inr,
}
use ai_workstation_core.Base.Assoc.{Assoc, lookup}
use ai_workstation_core.Types.Status.{NodeStatus, success, is_terminal, status_eq}
use ai_workstation_core.Types.StatusMap.{StatusMap, get}
use ai_workstation_core.Types.Rir.{Edge}
use ai_workstation_core.Types.Graph.{Ceg}
use ai_workstation_core.Ceg.Activation.{succeeded, evaluate_activation}
use ai_workstation_core.Scheduler.Justified.{is_started, Justified}
use ai_workstation_core.Verify.{
  Report, check_node, check_dependency, check_edge, check_requirement, has_success,
  check_activation, first_report, structural,
}

-- Rule V-002: the node is in the journal, with a terminal status.
abbrev pub ends_well : Assoc NodeStatus → String → Bool
ends_well terminals id = elim (lookup id terminals) [ none ↦ false | some s ↦ is_terminal s ]

-- Rule G6: a dependency of a success has not another status.
abbrev pub is_respected : Assoc NodeStatus → Edge → Bool
is_respected terminals edge =
    not (str_eq edge.type "dependency")
    || not (has_success terminals edge.to)
    || elim (lookup edge.from terminals) [ none ↦ true | some s ↦ status_eq s success ]

-- Rule ACTIVATION: what a success requires under `all_success` has succeeded.
abbrev pub is_activated : Ceg → Assoc NodeStatus → String → Bool
is_activated ceg terminals id = elim (lookup id ceg.node_map) [
  | none ↦ true
  | some node ↦
      not (str_eq node.activation.condition "all_success" && has_success terminals id)
      || all (has_success terminals) node.activation.requires
]

module _ (ceg : Ceg) (terminals : Assoc NodeStatus) where
  nodes-pass :
      (r : Report) (ids : List String)
      → (foldl (check_node terminals) r ids).pass ≡ (r.pass && all (ends_well terminals) ids)
  unfolding check_node
  nodes-pass r [] = ground arith
  nodes-pass r (id ∷ ids) = ground (arith, nodes-pass (check_node terminals r id) ids)

  edges-pass :
      (r : Report) (edges : List Edge)
      → (foldl (check_edge terminals) r edges).pass ≡ (r.pass && all (is_respected terminals) edges)
  unfolding check_edge check_dependency
  edges-pass r [] = ground arith
  edges-pass r (edge ∷ edges) = ground (arith, edges-pass (check_edge terminals r edge) edges)

  requirements-pass :
      (id : String) (r : Report) (reqs : List String)
      → (foldl (check_requirement terminals id) r reqs).pass
        ≡ (r.pass && all (has_success terminals) reqs)
  unfolding check_requirement
  requirements-pass id r [] = ground arith
  requirements-pass id r (req ∷ reqs) =
      ground (arith, requirements-pass id (check_requirement terminals id r req) reqs)

  activation-pass :
      (r : Report) (id : String)
      → (check_activation ceg terminals r id).pass ≡ (r.pass && is_activated ceg terminals id)
  unfolding check_activation
  activation-pass r id = elim (Option-cases (lookup id ceg.node_map)) [
    | inl missing ↦ ground arith
    | inr (node, found) ↦ ground (arith, requirements-pass id r node.activation.requires)
  ]

  activations-pass :
      (r : Report) (ids : List String)
      → (foldl (check_activation ceg terminals) r ids).pass
        ≡ (r.pass && all (is_activated ceg terminals) ids)
  activations-pass r [] = ground arith
  activations-pass r (id ∷ ids) =
      ground
        (arith, activations-pass (check_activation ceg terminals r id) ids, activation-pass r id)

  -- A report passes exactly if every node of the graph is terminal in the journal, no dependency
  -- of a success is there with another status, and all that a success requires under `all_success`
  -- has succeeded.
  pub structural-pass : (structural ceg terminals).pass ≡ (
      all (ends_well terminals) ceg.order
      && all (is_respected terminals) ceg.edges
      && all (is_activated ceg terminals) ceg.order)
  unfolding structural
  structural-pass = ground (
    arith,
    nodes-pass (first_report ceg terminals) ceg.order,
    edges-pass (foldl (check_node terminals) (first_report ceg terminals) ceg.order) ceg.edges,
    activations-pass
        (foldl (check_edge terminals)
          (foldl (check_node terminals) (first_report ceg terminals) ceg.order) ceg.edges)
        ceg.order,
  )

all_congr :
    (p q : String → Bool) (ids : List String)
    → ((id : String) → p id ≡ q id)
    → all p ids ≡ all q ids
all_congr p q [] h = refl
all_congr p q (id ∷ ids) h = ground (arith, h id, all_congr p q ids h)

agrees-succeeded :
    (sm : StatusMap) (terminals : Assoc NodeStatus) (id : String)
    → lookup id terminals ≡ get sm id
    → has_success terminals id ≡ succeeded sm id
agrees-succeeded sm terminals id agrees = cc agrees

succeeded-is_started :
    (o : Option NodeStatus)
    → elim o [ none ↦ false | some s ↦ status_eq s success ] ≡ true
    → is_started o ≡ true
succeeded-is_started none h = cc h
succeeded-is_started (some success) h = refl
succeeded-is_started (some _) h = cc

-- Where the journal agrees with the status map of a run that started no node before its activation
-- held, no node fails the rule ACTIVATION.
pub Justified-is_activated :
    (ceg : Ceg) (sm : StatusMap) (terminals : Assoc NodeStatus) (id : String)
    → ((j : String) → lookup j terminals ≡ get sm j)
    → Justified ceg sm
    → is_activated ceg terminals id ≡ true
unfolding evaluate_activation
Justified-is_activated ceg sm terminals id agrees j =
    option_rule (λ b. b ≡ true) (lookup id ceg.node_map) (λ _. refl)
      (λ node found. ground (
        arith,
        agrees-succeeded sm terminals id (agrees id),
        succeeded-is_started (get sm id),
        j id node found,
        all_congr (has_success terminals) (succeeded sm) node.activation.requires
            (λ q. agrees-succeeded sm terminals q (agrees q)),
      ))
