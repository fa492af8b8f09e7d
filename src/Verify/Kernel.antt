-- ===== src/Verify/Kernel.antt =====
-- The journal of a run of the kernel, under the rules of `Structural`.
use ai_workstation_core.Base.{String, List, [], ◌<◌, true, ◌≡◌, length}
use ai_workstation_core.Types.Graph.{Ceg}
use ai_workstation_core.Commit.{event_capacity, new}
use ai_workstation_core.Commit.Histories.{Writes, Writes-trans}
use ai_workstation_core.Scheduler.Steps.{init_status_map}
use ai_workstation_core.Scheduler.Steps.Writes.{init_status_map-Writes}
use ai_workstation_core.Scheduler.Loop.{Env}
use ai_workstation_core.Scheduler.Loop.Writes.{engine_of, run_loop-Writes}
use ai_workstation_core.Scheduler.Justified.Loop.{Arrives, kernel_run, kernel_run-Justified}
use ai_workstation_core.Journal.{new_journal, subscribe, load_terminals}
use ai_workstation_core.Journal.Kernel.{subscribe-agrees}
use ai_workstation_core.Verify.Laws.{is_activated, Justified-is_activated}

kernel_run-Writes :
    (ceg : Ceg) (env : Env) (waves : List (List (List String)))
    → Writes (new []) (engine_of (kernel_run ceg env waves))
kernel_run-Writes ceg env waves =
    Writes-trans (init_status_map-Writes ceg (new []))
      (run_loop-Writes ceg env waves (init_status_map ceg (new [])))

-- No node fails the rule ACTIVATION in the journal of a run from an empty status map, whatever the
-- nodes answer and however the run ends, if the results of each wave are those of its claimed
-- nodes, each once, in some order, and if fewer events have waited than the channel holds.
pub kernel_run-is_activated :
    (ceg : Ceg) (env : Env) (waves : List (List (List String))) (now id : String)
    → Arrives env
    → length (engine_of (kernel_run ceg env waves)).events < event_capacity
    → is_activated ceg
        (load_terminals
          (subscribe now new_journal (engine_of (kernel_run ceg env waves)).events).entries)
        id
      ≡ true
kernel_run-is_activated ceg env waves now id arrives room =
    Justified-is_activated ceg (engine_of (kernel_run ceg env waves)).sm _ id
      (λ j. subscribe-agrees now j (kernel_run-Writes ceg env waves) room)
      (kernel_run-Justified ceg env waves arrives)
