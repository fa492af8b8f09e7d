-- ===== src/Trace/Laws.antt =====
-- The terminal statuses that the collector answers: mek/internal/trace/collector.go.
use ai_workstation_core.Base.{
  String, List, [], ◌∷◌, Option, none, some, ℕ, Bool, ◌≡◌, refl, ap, ◌∙◌, arith, eq_iff,
  if◌then◌else◌, str_eq,
}
use ai_workstation_core.Base.Assoc.{Assoc, lookup, insert, lookup-insert}
use ai_workstation_core.Types.Status.{NodeStatus, other, is_terminal}
use ai_workstation_core.Commit.{CommitEvent}
use ai_workstation_core.Trace.{
  NodeTrace, Collector, trace_of, track, emit, process, collect, terminal_statuses,
}

abbrev pub known : Option NodeStatus → NodeStatus
known none = other ""
known (some s) = s

-- What the collector answers for a node after an event, from what it answered before: a terminal
-- status stands until the next one, and a node that is new and not terminal has the empty status.
abbrev pub noted : Option NodeStatus → CommitEvent → String → Option NodeStatus
noted o evt id =
    let told = if is_terminal evt.new_status then evt.new_status else known o in
    if str_eq evt.node_id id then some told else o

abbrev pub noted_all : Option NodeStatus → List CommitEvent → String → Option NodeStatus
noted_all o [] id = o
noted_all o (evt ∷ events) id = noted_all (noted o evt id) events id

lookup-terminal_statuses :
    (traces : Assoc NodeTrace) (id : String)
    → lookup id (terminal_statuses traces)
      ≡ elim (lookup id traces) [ none ↦ none | some t ↦ some t.terminal_status ]
unfolding lookup terminal_statuses
lookup-terminal_statuses [] id = refl
lookup-terminal_statuses ((k, t) ∷ traces) id =
    ground (arith, eq_iff k id, lookup-terminal_statuses traces id)

track-status :
    (now : String) (evt : CommitEvent) (t : NodeTrace) (s : NodeStatus)
    → (track now evt t s).0.terminal_status ≡ (if is_terminal s then s else t.terminal_status)
unfolding track is_terminal
track-status now evt t s = ground arith

module _ (has_room : ℕ → Bool) (now : String) where
  pub process-traces :
      (c : Collector) (evt : CommitEvent)
      → (process has_room now c evt).traces
        ≡ insert evt.node_id (track now evt (trace_of now c evt) evt.new_status).0 c.traces
  unfolding process emit
  process-traces c evt = ground arith

  terminal_statuses-process :
      (c : Collector) (evt : CommitEvent) (id : String)
      → lookup id (terminal_statuses (process has_room now c evt).traces)
        ≡ noted (lookup id (terminal_statuses c.traces)) evt id
  unfolding trace_of
  terminal_statuses-process c evt id =
      let t = trace_of now c evt in
      ap (λ m. lookup id (terminal_statuses m)) (process-traces c evt)
      ∙ ground (
        arith,
        eq_iff evt.node_id id,
        track-status now evt t evt.new_status,
        lookup-terminal_statuses c.traces id,
        lookup-terminal_statuses (insert evt.node_id (track now evt t evt.new_status).0 c.traces)
            id,
        lookup-insert evt.node_id id (track now evt t evt.new_status).0 c.traces,
      )

  -- After any events, and whichever trace events were dropped, the collector answers a status for
  -- the nodes it knew and those the events name: the status of the node's last terminal event, or
  -- the one before if there is none, which is empty for a new node.
  pub terminal_statuses-collect :
      (c : Collector) (events : List CommitEvent) (id : String)
      → lookup id (terminal_statuses (collect has_room now c events).traces)
        ≡ noted_all (lookup id (terminal_statuses c.traces)) events id
  unfolding collect
  terminal_statuses-collect c [] id = refl
  terminal_statuses-collect c (evt ∷ events) id =
      terminal_statuses-collect (process has_room now c evt) events id
      ∙ ap (λ o. noted_all o events id) (terminal_statuses-process c evt id)
