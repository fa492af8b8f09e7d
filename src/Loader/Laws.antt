-- ===== src/Loader/Laws.antt =====
-- The rules of `Validate`, described apart from its loops.
use ai_workstation_core.Base.{
  String, List, [], ◌∷◌, Option, none, some, ◌<◌, ◌≤◌, true, false, ◌≡◌, ◌↔◌, arith, str_eq,
  contains, length, All, Option-cases, Bool-cases, inl, inr,
}
use ai_workstation_core.Types.Rir.{GateConfig, ExecutableUnit, Rir}
use ai_workstation_core.Loader.{
  is_checkpoint, is_gate, unit_ids, find_duplicate, find_checkpoint, find_dependency,
  find_unresolved, escalate_count, check_branches, check_gate, find_gate_error, validate, or_error,
  ValidationError,
}

-- No unit has an identifier of the list, or that of an earlier unit.
abbrev pub Fresh : List String → List ExecutableUnit → Type 0
Fresh ids [] = Unit
Fresh ids (u ∷ units) = (contains ids u.id ≡ false) × Fresh (u.id ∷ ids) units

abbrev pub GateOk : ExecutableUnit → Type 0
GateOk u =
    is_gate u.type ≡ true
    → (config : GateConfig) × (u.gate ≡ some config)
      × (0 < length config.branches)
      × (str_eq config.default "" ≡ false)
      × (escalate_count config.branches ≤ 1)

abbrev pub Resolved : List String → ExecutableUnit → Type 0
Resolved ids u = All (λ dep. contains ids dep ≡ true) u.dependencies

-- The rules I-001, I-002, I-004, I-005, I-006, V-005, V-014 and those of the kernel.
abbrev pub Valid : Rir → Type 0
Valid rir =
    (str_eq rir.schema_version "1.0" ≡ true)
    × (str_eq rir.execution_mode "2" ≡ true)
    × (0 < rir.max_parallelism)
    × Fresh [] rir.units
    × (str_eq rir.spec_hash "" ≡ false)
    × All (λ (u : ExecutableUnit). is_checkpoint u.type ≡ false) rir.units
    × All (Resolved (unit_ids rir.units)) rir.units
    × All GateOk rir.units

or_error-none : (x y : Option ValidationError) → (or_error x y ≡ none) ↔ ((x ≡ none) × (y ≡ none))
or_error-none x y = ground arith

find_duplicate-none :
    (ids : List String) (units : List ExecutableUnit)
    → (find_duplicate ids units ≡ none) ↔ Fresh ids units
unfolding find_duplicate
find_duplicate-none ids [] = ground arith
find_duplicate-none ids (u ∷ units) = ground (arith, find_duplicate-none (u.id ∷ ids) units)

find_checkpoint-none :
    (units : List ExecutableUnit)
    → (find_checkpoint units ≡ none)
      ↔ All (λ (u : ExecutableUnit). is_checkpoint u.type ≡ false) units
unfolding find_checkpoint
find_checkpoint-none [] = ground arith
find_checkpoint-none (u ∷ units) = ground (arith, find_checkpoint-none units)

find_dependency-none :
    (ids : List String) (id : String) (deps : List String)
    → (find_dependency ids id deps ≡ none) ↔ All (λ dep. contains ids dep ≡ true) deps
unfolding find_dependency
find_dependency-none ids id [] = ground arith
find_dependency-none ids id (dep ∷ deps) = ground (arith, find_dependency-none ids id deps)

find_unresolved-none :
    (ids : List String) (units : List ExecutableUnit)
    → (find_unresolved ids units ≡ none) ↔ All (Resolved ids) units
unfolding find_unresolved
find_unresolved-none ids [] = ground arith
find_unresolved-none ids (u ∷ units) =
    ground (arith, find_dependency-none ids u.id u.dependencies, find_unresolved-none ids units)

check_gate-none : (u : ExecutableUnit) → (check_gate u ≡ none) ↔ GateOk u
unfolding check_gate check_branches
check_gate-none u = (
  λ h is. elim (Option-cases u.gate) [
    | inl missing ↦ absurd (ground arith)
    | inr (config, found) ↦ (config, found, ground arith, ground arith, ground arith)
  ],
  λ ok. elim (Bool-cases (is_gate u.type)) [
    | inr other ↦ ground arith
    | inl is ↦ let (config, found, some_branch, default, few) = ok is in ground arith
  ],
)

find_gate_error-none :
    (units : List ExecutableUnit) → (find_gate_error units ≡ none) ↔ All GateOk units
unfolding find_gate_error
find_gate_error-none [] = ground arith
find_gate_error-none (u ∷ units) = ground (arith, check_gate-none u, find_gate_error-none units)

-- `Validate` returns no error exactly for a representation that satisfies every rule: the schema
-- version, the mode and the parallelism, distinct identifiers, a hash, no checkpoint, resolved
-- dependencies, and gates with branches, a default and at most one ESCALATE.
pub validate_iff : (rir : Rir) → (validate rir ≡ none) ↔ Valid rir
unfolding validate
validate_iff rir = ground (
  arith,
  find_duplicate-none [] rir.units,
  find_checkpoint-none rir.units,
  find_unresolved-none (unit_ids rir.units) rir.units,
  find_gate_error-none rir.units,
)
