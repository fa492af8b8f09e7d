-- ===== src/Ceg/Activation/Laws.antt =====
-- The two tests of a blocked node, against one another and under later commits.
use ai_workstation_core.Base.{
  String, List, [], ◌∷◌, some, Bool, true, false, not, ◌&&◌, any, all, ◌≡◌, ◌↔◌, refl, arith,
  Option-cases, inl, inr,
}
use ai_workstation_core.Types.Status.{success, is_terminal, status_eq_iff}
use ai_workstation_core.Types.StatusMap.{StatusMap, get}
use ai_workstation_core.Types.Graph.{CegNode}
use ai_workstation_core.Commit.{Engine}
use ai_workstation_core.Commit.Histories.{Writes, get_frozen}
use ai_workstation_core.Ceg.Activation.{
  succeeded, finished, finished_badly, candidates, evaluate_activation, should_skip,
}

module _ (sm : StatusMap) where
  all_excludes_any :
      (ids : List String) → all (succeeded sm) ids ≡ true → any (finished_badly sm) ids ≡ false
  all_excludes_any [] h = refl
  all_excludes_any (i ∷ ids) h = ground (arith, all_excludes_any ids)

  any_excludes_all :
      (ids : List String)
      → any (succeeded sm) ids ≡ true
      → all (λ c. finished sm c && not (succeeded sm c)) ids ≡ false
  any_excludes_all [] h = ground arith
  any_excludes_all (i ∷ ids) h = ground (arith, any_excludes_all ids)

-- A node that may run is never one to skip.
pub evaluate_activation-excludes-should_skip :
    (node : CegNode) (sm : StatusMap)
    → evaluate_activation node sm ≡ true
    → should_skip node sm ≡ false
unfolding evaluate_activation should_skip
evaluate_activation-excludes-should_skip node sm h =
    ground
      (arith, all_excludes_any sm node.activation.requires, any_excludes_all sm (candidates node))

succeeded_iff :
    (sm : StatusMap) (id : String) → (succeeded sm id ≡ true) ↔ (get sm id ≡ some success)
succeeded_iff sm id = elim (Option-cases (get sm id)) [
  | inl missing ↦ rw missing (ground arith)
  | inr (s, found) ↦ rw found (ground (arith, status_eq_iff s success))
]

module _ {e f : Engine} (w : Writes e f) where
  succeeded-Writes : (id : String) → succeeded e.sm id ≡ true → succeeded f.sm id ≡ true
  unfolding is_terminal
  succeeded-Writes id h = ground (arith, get_frozen id success w, succeeded_iff e.sm id)

  finished_badly-Writes :
      (id : String) → finished_badly e.sm id ≡ true → finished_badly f.sm id ≡ true
  finished_badly-Writes id h = elim (Option-cases (get e.sm id)) [
    | inl missing ↦ absurd (ground arith)
    | inr (s, found) ↦ ground (arith, get_frozen id s w)
  ]

  not-succeeded-Writes :
      (id : String)
      → (finished e.sm id && not (succeeded e.sm id)) ≡ true
      → (finished f.sm id && not (succeeded f.sm id)) ≡ true
  not-succeeded-Writes id h = elim (Option-cases (get e.sm id)) [
    | inl missing ↦ absurd (ground arith)
    | inr (s, found) ↦ ground (arith, get_frozen id s w)
  ]

-- A test that holds of each element goes on holding where it holds pointwise.
module _ {P Q : String → Bool} (keep : (id : String) → P id ≡ true → Q id ≡ true) where
  all_mono : (ids : List String) → all P ids ≡ true → all Q ids ≡ true
  all_mono [] h = refl
  all_mono (i ∷ ids) h = ground (arith, keep i, all_mono ids)

  any_mono : (ids : List String) → any P ids ≡ true → any Q ids ≡ true
  any_mono [] h = h
  any_mono (i ∷ ids) h = ground (arith, keep i, any_mono ids)

module _ {e f : Engine} (node : CegNode) (w : Writes e f) where
  -- Once a node may run, it may run after every later sequence of commits.
  pub evaluate_activation-Writes :
      evaluate_activation node e.sm ≡ true → evaluate_activation node f.sm ≡ true
  unfolding evaluate_activation
  evaluate_activation-Writes h = ground (
    arith,
    all_mono (succeeded-Writes w) node.activation.requires,
    any_mono (succeeded-Writes w) (candidates node),
  )

  -- Once a node is one to skip, it is so after every later sequence of commits.
  pub should_skip-Writes : should_skip node e.sm ≡ true → should_skip node f.sm ≡ true
  unfolding should_skip
  should_skip-Writes h = ground (
    arith,
    any_mono (finished_badly-Writes w) node.activation.requires,
    all_mono (not-succeeded-Writes w) (candidates node),
  )

-- A node to skip never becomes one that may run, whatever is committed later.
pub should_skip-final :
    {e f : Engine} (node : CegNode)
    → Writes e f
    → should_skip node e.sm ≡ true
    → evaluate_activation node f.sm ≡ false
should_skip-final {f} node w h =
    ground (arith, should_skip-Writes node w, evaluate_activation-excludes-should_skip node f.sm)
