-- ===== src/Samples/Builds.antt =====
-- The theorems on the loader, the construction of the graph and the kernel at the sample graph.
use ai_workstation_core.Base.{String, [], ◌∷◌, none, some, Bool, true, ◌≡◌, ◌↔◌, refl, false, arith}
use ai_workstation_core.Base.Assoc.{Assoc, lookup, insert, has}
use ai_workstation_core.Base.Sorting.{sort_strings, insert_sorted}
use ai_workstation_core.Types.Status.{success}
use ai_workstation_core.Loader.{
  find_duplicate, find_checkpoint, find_dependency, find_unresolved, check_gate, find_gate_error,
  validate as load_validate,
}
use ai_workstation_core.Loader.Laws.{Valid, validate_iff}
use ai_workstation_core.Commit.{new}
use ai_workstation_core.Ceg.Layers.{release, visit_layer, layers_from, roots, compute_layers}
use ai_workstation_core.Ceg.Search.{
  visit_all, find_cycle, cycle_from, has_cycle, walk_all, reach, reachable_set,
}
use ai_workstation_core.Ceg.Build.{
  add_node, add_edge, build_graph, assign_layers, find_overloaded, judge, built, validate, build,
}
use ai_workstation_core.Ceg.Build.Laws.{Answers, build-Answers}
use ai_workstation_core.Ceg.Build.Acyclic.{build-Grounded}
use ai_workstation_core.Ceg.Build.Reached.{LeadsToNodes, build-Reached}
use ai_workstation_core.Ceg.Search.Cycles.{Grounded, Found, has_cycle-Found}
use ai_workstation_core.Ceg.Search.Reached.{Comes, IsRoot, reachable_set_iff}
use ai_workstation_core.Scheduler.Steps.{init_status_map}
use ai_workstation_core.Scheduler.Waves.{compute_waves}
use ai_workstation_core.Scheduler.Justified.{Justified}
use ai_workstation_core.Scheduler.Loop.Writes.{engine_of}
use ai_workstation_core.Kernel.{Mek, started, start, run}
use ai_workstation_core.Kernel.Laws.{run-Justified}
use ai_workstation_core.Samples.{graph, rir}
use ai_workstation_core.Samples.Scheduling.{answer, answering, answering-Arrives}

built_graph : build rir ≡ built graph
unfolding build build_graph add_node add_edge lookup insert compute_layers layers_from visit_layer
    release roots sort_strings insert_sorted assign_layers validate has_cycle cycle_from visit_all
    find_cycle reachable_set walk_all reach find_overloaded judge
built_graph = refl

build-Answers_example : Answers (build rir)
build-Answers_example = build-Answers rir

build-Grounded_example : Grounded graph.node_map "scan"
build-Grounded_example = build-Grounded rir graph built_graph "scan" refl

graph-LeadsToNodes : LeadsToNodes graph
unfolding lookup
graph-LeadsToNodes u w e = ground arith

build-Reached_example : (root : String) × IsRoot graph root × Comes graph.node_map root "report"
build-Reached_example = build-Reached rir graph built_graph graph-LeadsToNodes "report" refl

searched : has_cycle graph ≡ some false
unfolding has_cycle cycle_from visit_all find_cycle lookup insert
searched = refl

has_cycle-Found_example : Found graph false
has_cycle-Found_example = has_cycle-Found graph false searched

abbrev both : Assoc Bool
both = ("scan", true) ∷ ("report", true) ∷ []

walked : reachable_set graph ≡ some both
unfolding reachable_set walk_all reach lookup insert
walked = refl

reachable_set_iff_example :
    (has "report" both ≡ true)
    ↔ ((root : String) × IsRoot graph root × Comes graph.node_map root "report")
reachable_set_iff_example = reachable_set_iff graph both "report" walked

validate_iff_example : (load_validate rir ≡ none) ↔ Valid rir
validate_iff_example = validate_iff rir

abbrev mek : Mek
mek = record {
  ceg = graph;
  engine = init_status_map graph (new []);
  waves = compute_waves graph rir;
}

mek_starts : start rir ≡ started mek
unfolding start load_validate find_duplicate find_checkpoint find_dependency find_unresolved
    check_gate find_gate_error build build_graph add_node add_edge lookup insert compute_layers
    layers_from visit_layer release roots sort_strings insert_sorted assign_layers validate
    has_cycle cycle_from visit_all find_cycle reachable_set walk_all reach find_overloaded judge
mek_starts = refl

run-Justified_example : Justified graph (engine_of (run mek (answering (answer success false)))).sm
run-Justified_example =
    run-Justified rir mek (answering (answer success false)) answering-Arrives mek_starts
