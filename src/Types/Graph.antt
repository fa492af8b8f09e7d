-- ===== src/Types/Graph.antt =====
-- The execution graph (`CEG`) of mek/pkg/types/types.go. `Nodes` and `NodeMap` hold the same
-- pointers, as `Validate` lets no identifier stand twice: here `order` lists the identifiers of
-- `Nodes`, and the nodes stand in `node_map`.
use ai_workstation_core.Base.{String, List, [], Option, ℕ}
use ai_workstation_core.Base.Assoc.{Assoc}
use ai_workstation_core.Types.Rir.{UnitType, Activation, GateConfig, Binding, Scheduling, Edge}

pub record CegNode : Type 0 where
  pub id : String
  pub type : UnitType
  pub activation : Activation
  pub gate : Option GateConfig
  pub binding : Binding
  pub scheduling : Scheduling
  pub predecessors : List String
  pub successors : List String
  pub layer : ℕ

pub record Ceg : Type 0 where
  pub order : List String
  pub node_map : Assoc CegNode
  pub edges : List Edge
  pub in_degree : Assoc ℕ
  pub layers : List (List String)
  pub max_depth : ℕ

abbrev pub empty : Ceg
empty = record { order = []; node_map = []; edges = []; in_degree = []; layers = []; max_depth = 0 }
