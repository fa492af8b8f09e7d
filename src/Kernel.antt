-- ===== src/Kernel.antt =====
-- `New` and `Run` of mek/internal/runtime/runtime.go, once the file has been read: the representation
-- is validated, the graph built, the waves computed and the statuses initialised; then the loop runs.
pub mod Laws
use ai_workstation_core.Base.{String, List, [], Option, none, some}
use ai_workstation_core.Types.Rir.{Rir}
use ai_workstation_core.Types.Graph.{Ceg}
use ai_workstation_core.Loader.{ValidationError, validate}
use ai_workstation_core.Commit.{Engine, new}
use ai_workstation_core.Ceg.Build.{BuildError, Built, built, refused, out_of_fuel, build}
use ai_workstation_core.Scheduler.Steps.{init_status_map}
use ai_workstation_core.Scheduler.Waves.{compute_waves}
use ai_workstation_core.Scheduler.Loop.{Env, Outcome, run_loop}

pub record Mek : Type 0 where
  pub ceg : Ceg
  pub engine : Engine
  pub waves : List (List (List String))

-- `endless` stands for a construction that ran out of its fuel.
pub data Started : Type 0 where
  started : Mek → Started
  invalid : ValidationError → Started
  unbuildable : BuildError → Started
  endless : Started

abbrev pub start_on : Rir → Built → Started
start_on rir (built ceg) =
    started
      (record { ceg = ceg; engine = init_status_map ceg (new []); waves = compute_waves ceg rir })
start_on rir (refused x) = unbuildable x
start_on rir out_of_fuel = endless

unfoldable pub start : Rir → Started
start rir = elim (validate rir) [ some x ↦ invalid x | none ↦ start_on rir (build rir) ]

unfoldable pub run : Mek → Env → Outcome
run mek env = run_loop mek.ceg env mek.waves mek.engine
