-- ===== src/Samples/Runs.antt =====
-- The theorems on commits, activations and runs at the sample graph.
use ai_workstation_core.Base.{[], ◌∷◌, none, some, false, ◌≡◌, refl, ◌↔◌}
use ai_workstation_core.Base.Assoc.{lookup}
use ai_workstation_core.Types.Status.{
  blocked, ready, running, success, failure, skipped, is_terminal,
}
use ai_workstation_core.Types.StatusMap.{get, get_state}
use ai_workstation_core.Commit.{double_commit, commit}
use ai_workstation_core.Commit.Laws.{commit_frozen, Accepts, commit-Accepts_iff}
use ai_workstation_core.Commit.Histories.{Writes, done, write}
use ai_workstation_core.Ceg.Activation.{evaluate_activation, should_skip}
use ai_workstation_core.Ceg.Activation.Laws.{should_skip-final}
use ai_workstation_core.Samples.{state, node, engine}

commit_frozen_example :
    lookup "scan" (commit (engine success blocked) "scan" failure none).0.sm ≡ some (state success)
unfolding lookup is_terminal
commit_frozen_example =
    commit_frozen (engine success blocked) "scan" failure none "scan" (state success) refl refl

commit-Accepts_iff_example :
    ((commit (engine success blocked) "report" ready none).1 ≡ none) ↔ Accepts (some blocked) ready
unfolding get lookup
commit-Accepts_iff_example = commit-Accepts_iff (engine success blocked) "report" ready none

refused :
    (commit (engine success blocked) "scan" failure none).1
    ≡ some (double_commit "scan" success failure)
unfolding commit get_state lookup is_terminal
refused = refl

history :
    Writes
      (engine success blocked)
      (commit (commit (engine success blocked) "report" ready none).0 "report" running none).0
history = write "report" running none (write "report" ready none done)

should_skip-final_example :
    evaluate_activation
      (node "report" ("scan" ∷ []))
      (commit (engine failure blocked) "report" skipped none).0.sm
    ≡ false
unfolding should_skip get lookup is_terminal
should_skip-final_example =
    should_skip-final (node "report" ("scan" ∷ [])) (write "report" skipped none done) refl
