-- ===== src/Ceg/Activation.antt =====
-- `EvaluateActivation` and `ShouldSkip` of mek/internal/ceg/builder.go.
pub mod Laws
use ai_workstation_core.Base.{
  String, List, [], ◌∷◌, ◌++◌, Option, none, some, Bool, true, false, not, ◌&&◌, ◌||◌,
  if◌then◌else◌, str_eq, any, all,
}
use ai_workstation_core.Types.Status.{NodeStatus, success, is_terminal, status_eq}
use ai_workstation_core.Types.StatusMap.{StatusMap, get}
use ai_workstation_core.Types.Graph.{CegNode}

-- `ok && status == SUCCESS`
abbrev pub succeeded : StatusMap → String → Bool
succeeded sm id = elim (get sm id) [ none ↦ false | some s ↦ status_eq s success ]

-- `ok && status.IsTerminal()`
abbrev pub finished : StatusMap → String → Bool
finished sm id = elim (get sm id) [ none ↦ false | some s ↦ is_terminal s ]

-- `ok && status.IsTerminal() && status != SUCCESS`
abbrev pub finished_badly : StatusMap → String → Bool
finished_badly sm id = elim (get sm id) [
  | none ↦ false
  | some s ↦ is_terminal s && not (status_eq s success)
]

abbrev pub candidates : CegNode → List String
candidates node = node.activation.requires ++ node.activation.optional

abbrev pub is_empty {ℓ} : {A : Type ℓ} → List A → Bool
is_empty [] = true
is_empty (_ ∷ _) = false

-- The default case of the source answers false for a `conditional:` text and for any other.
unfoldable pub evaluate_activation : CegNode → StatusMap → Bool
evaluate_activation node sm =
    if str_eq node.activation.condition "all_success"
    then all (succeeded sm) node.activation.requires
    else if str_eq node.activation.condition "any_success"
    then any (succeeded sm) (candidates node)
    else false

unfoldable pub should_skip : CegNode → StatusMap → Bool
should_skip node sm =
    if str_eq node.activation.condition "all_success"
    then any (finished_badly sm) node.activation.requires
    else if str_eq node.activation.condition "any_success"
    then (if is_empty (candidates node)
        then false
        else all (λ c. finished sm c && not (succeeded sm c)) (candidates node))
    else false
