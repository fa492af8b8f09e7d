-- ===== src/Kernel/Laws.antt =====
-- What the kernel is given to run, and what its runs keep.
use ai_workstation_core.Base.{◌≡◌, ◌≢◌, refl, subst, arith, Option-cases, inl, inr}
use ai_workstation_core.Types.Rir.{Rir}
use ai_workstation_core.Types.Graph.{Ceg}
use ai_workstation_core.Loader.{validate}
use ai_workstation_core.Loader.Laws.{Valid, validate_iff}
use ai_workstation_core.Ceg.Build.{Built, built, refused, out_of_fuel, build}
use ai_workstation_core.Ceg.Build.Laws.{WellBuilt, Answers, build-Answers, build-WellBuilt}
use ai_workstation_core.Scheduler.Justified.{Justified}
use ai_workstation_core.Scheduler.Justified.Steps.{init_status_map-Justified}
use ai_workstation_core.Scheduler.Justified.Loop.{Arrives, run_loop-Justified}
use ai_workstation_core.Scheduler.Loop.{Env}
use ai_workstation_core.Scheduler.Loop.Writes.{engine_of}
use ai_workstation_core.Kernel.{Mek, started, endless, start_on, start, run}

-- What a kernel that has started holds.
abbrev pub Ready : Mek → Type 0
Ready mek = WellBuilt mek.ceg × Justified mek.ceg mek.engine.sm

start_on-Ready :
    (rir : Rir) (b : Built) (mek : Mek)
    → ((g : Ceg) → b ≡ built g → WellBuilt g)
    → start_on rir b ≡ started mek
    → Ready mek
start_on-Ready rir (built ceg) mek well h =
    subst Ready (started-injective h) (well ceg refl, init_status_map-Justified ceg)
  where
    started-injective : {a b : Mek} → started a ≡ started b → a ≡ b
    started-injective h' = cc h'
start_on-Ready rir (refused x) mek well h = absurd (cc h)
start_on-Ready rir out_of_fuel mek well h = absurd (cc h)

-- If the kernel starts on a representation, this satisfies every rule of the loader, the graph has
-- passed every check of `Build`, and the activation of every node that has been started holds.
pub start-Ready : (rir : Rir) (mek : Mek) → start rir ≡ started mek → Valid rir × Ready mek
unfolding start
start-Ready rir mek h = elim (Option-cases (validate rir)) [
  | inr (x, bad) ↦ absurd (ground arith)
  | inl fine ↦ (
    (validate_iff rir).0 fine,
    start_on-Ready rir (build rir) mek (build-WellBuilt rir) (ground arith),
  )
]

start_on-Answers : (rir : Rir) (b : Built) → Answers b → start_on rir b ≢ endless
start_on-Answers rir (built ceg) a h = cc h
start_on-Answers rir (refused x) a h = cc h
start_on-Answers rir out_of_fuel a h = absurd a

-- The kernel starts or reports an error, within the fuel, on every representation.
pub start-Answers : (rir : Rir) → start rir ≢ endless
unfolding start
start-Answers rir h = elim (Option-cases (validate rir)) [
  | inr (x, bad) ↦ ground arith
  | inl fine ↦ start_on-Answers rir (build rir) (build-Answers rir) (ground arith)
]

-- When the run of a kernel that has started on some representation is over, however it ends, the
-- activation of every node that was started holds, if the results of each wave are those of its
-- claimed nodes, each once, in some order.
pub run-Justified :
    (rir : Rir) (mek : Mek) (env : Env)
    → Arrives env
    → start rir ≡ started mek
    → Justified mek.ceg (engine_of (run mek env)).sm
unfolding run
run-Justified rir mek env arrives h =
    run_loop-Justified mek.ceg env arrives mek.waves mek.engine (start-Ready rir mek h).1.1
