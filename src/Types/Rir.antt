-- ===== src/Types/Rir.antt =====
-- The intermediate representation (`RIR`) of mek/pkg/types/types.go: every field that the kernel's
-- code reads. Strings that it compares with constants stay strings.
use ai_workstation_core.Base.{String, List, Option, ℕ}

pub data UnitType : Type 0 where
  agent capability task gate checkpoint : UnitType
  custom : String → UnitType

pub record Activation : Type 0 where
  pub condition : String
  pub requires : List String
  pub optional : List String

pub record GateBranch : Type 0 where
  pub condition : String
  pub target : String

pub record GateConfig : Type 0 where
  pub branches : List GateBranch
  pub default : String

pub record Binding : Type 0 where
  pub contract : String
  pub isolation : String

pub record DataFlowInput : Type 0 where
  pub key : String
  pub from_unit : String
  pub from_output : String
  pub contract : String

pub record Scheduling : Type 0 where
  pub priority : ℕ
  pub deadline : String

pub record ExecutableUnit : Type 0 where
  pub id : String
  pub type : UnitType
  pub binding : Binding
  pub dependencies : List String
  pub inputs : List DataFlowInput
  pub scheduling : Scheduling
  pub activation : Activation
  pub gate : Option GateConfig

pub record Edge : Type 0 where
  pub from : String
  pub to : String
  pub type : String

pub record IsolationBoundary : Type 0 where
  pub id : String
  pub units : List String

pub record Rir : Type 0 where
  pub schema_version : String
  pub spec_hash : String
  pub execution_mode : String
  pub max_parallelism : ℕ
  pub units : List ExecutableUnit
  pub edges : List Edge
  pub isolation_regions : List IsolationBoundary
