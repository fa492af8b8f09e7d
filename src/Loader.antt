-- ===== src/Loader.antt =====
-- `Validate` of mek/internal/rir/loader.go: the checks of an intermediate representation, in their
-- order. `max_parallelism` is a natural number here: the source refuses what is below 0 as it does 0.
pub mod Laws
use ai_workstation_core.Base.{
  String, List, [], ◌∷◌, Option, none, some, ℕ, ◌+◌, Bool, true, false, not, ◌&&◌, if◌then◌else◌,
  ◌==◌, ltb, str_eq, contains, map, length,
}
use ai_workstation_core.Types.Rir.{
  UnitType, checkpoint, gate, GateBranch, GateConfig, ExecutableUnit, Rir,
}

pub data ValidationError : Type 0 where
  schema_version_mismatch : (version : String) → ValidationError
  unsupported_mode : (mode : String) → ValidationError
  invalid_max_parallelism : ValidationError
  duplicate_unit_id : (id : String) → ValidationError
  missing_spec_hash : ValidationError
  checkpoint_forbidden : (id : String) → ValidationError
  unresolved_dependency : (id dependency : String) → ValidationError
  gate_missing_branches gate_missing_default : (id : String) → ValidationError
  multiple_escalate_branches : (id : String) (branches : ℕ) → ValidationError

abbrev pub is_checkpoint : UnitType → Bool
is_checkpoint checkpoint = true
is_checkpoint _ = false

abbrev pub is_gate : UnitType → Bool
is_gate gate = true
is_gate _ = false

abbrev pub unit_ids : List ExecutableUnit → List String
unit_ids units = map (λ u. u.id) units

-- The first argument holds the identifiers that were seen.
unfoldable pub find_duplicate : List String → List ExecutableUnit → Option ValidationError
find_duplicate ids [] = none
find_duplicate ids (u ∷ units) =
    let rest = find_duplicate (u.id ∷ ids) units in
    if contains ids u.id then some (duplicate_unit_id u.id) else rest

unfoldable pub find_checkpoint : List ExecutableUnit → Option ValidationError
find_checkpoint [] = none
find_checkpoint (u ∷ units) =
    let rest = find_checkpoint units in
    if is_checkpoint u.type then some (checkpoint_forbidden u.id) else rest

unfoldable pub find_dependency : List String → String → List String → Option ValidationError
find_dependency ids id [] = none
find_dependency ids id (dep ∷ deps) =
    let rest = find_dependency ids id deps in
    if contains ids dep then rest else some (unresolved_dependency id dep)

unfoldable pub find_unresolved : List String → List ExecutableUnit → Option ValidationError
find_unresolved ids [] = none
find_unresolved ids (u ∷ units) =
    let rest = find_unresolved ids units in
    elim (find_dependency ids u.id u.dependencies) [ some x ↦ some x | none ↦ rest ]

abbrev pub escalate_count : List GateBranch → ℕ
escalate_count [] = 0
escalate_count (b ∷ branches) =
    let rest = escalate_count branches in if str_eq b.target "ESCALATE" then rest + 1 else rest

unfoldable pub check_branches : String → GateConfig → Option ValidationError
check_branches id config =
    if length config.branches == 0
    then some (gate_missing_branches id)
    else if str_eq config.default ""
    then some (gate_missing_default id)
    else if ltb 1 (escalate_count config.branches)
    then some (multiple_escalate_branches id (escalate_count config.branches))
    else none

unfoldable pub check_gate : ExecutableUnit → Option ValidationError
check_gate u =
    if is_gate u.type
    then elim u.gate [
      | none ↦ some (gate_missing_branches u.id)
      | some config ↦ check_branches u.id config
    ]
    else none

unfoldable pub find_gate_error : List ExecutableUnit → Option ValidationError
find_gate_error [] = none
find_gate_error (u ∷ units) =
    let rest = find_gate_error units in elim (check_gate u) [ some x ↦ some x | none ↦ rest ]

-- The first error.
abbrev pub or_error : Option ValidationError → Option ValidationError → Option ValidationError
or_error (some x) y = some x
or_error none y = y

abbrev pub refuse_if : Bool → ValidationError → Option ValidationError
refuse_if true x = some x
refuse_if false x = none

unfoldable pub validate : Rir → Option ValidationError
validate rir =
    or_error
      (refuse_if (not (str_eq rir.schema_version "1.0"))
        (schema_version_mismatch rir.schema_version))
      (or_error
        (refuse_if (not (str_eq rir.execution_mode "2")) (unsupported_mode rir.execution_mode))
        (or_error (refuse_if (rir.max_parallelism == 0) invalid_max_parallelism) (
          or_error (find_duplicate [] rir.units) (
            or_error (refuse_if (str_eq rir.spec_hash "") missing_spec_hash) (
              or_error (find_checkpoint rir.units) (
                or_error (find_unresolved (unit_ids rir.units) rir.units)
                  (find_gate_error rir.units)))))))
