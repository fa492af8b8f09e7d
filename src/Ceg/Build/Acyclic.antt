-- ===== src/Ceg/Build/Acyclic.antt =====
-- The graphs that `Build` lets pass and the paths in them: mek/internal/ceg/builder.go.
use ai_workstation_core.Base.{String, true, false, ◌≡◌, arith, inl, inr, contains}
use ai_workstation_core.Types.Rir.{Rir}
use ai_workstation_core.Types.Graph.{Ceg}
use ai_workstation_core.Ceg.Search.Cycles.{Grounded, has_cycle-Found}
use ai_workstation_core.Ceg.Build.{built, build}
use ai_workstation_core.Ceg.Build.Laws.{build-WellBuilt}

-- In a graph that `Build` answers, every path along the edges from a node ends, whatever the
-- representation is: the graph has no cycle that a node leads to.
pub build-Grounded :
    (rir : Rir) (g : Ceg)
    → build rir ≡ built g
    → (id : String) → contains g.order id ≡ true
    → Grounded g.node_map id
build-Grounded rir g h id is = elim (has_cycle-Found g false (build-WellBuilt rir g h).0) [
  | inl (none_found, grounded) ↦ grounded id is
  | inr (bad, cycle) ↦ absurd (ground arith)
]
