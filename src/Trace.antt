-- ===== src/Trace.antt =====
-- mek/internal/trace/collector.go: the traces of the nodes, built from the commit events. The clock's
-- text is an argument, and so is whether the channel of the trace events has room for the event of a
-- sequence number. Absent texts and statuses are the empty text; a snapshot is the value itself. The
-- fields that the collector never writes are left out.
pub mod Laws
use mathlib.Core.List.{foldl, map}
use Prim.Native.String.{◌++◌ as text_append}
use ai_workstation_core.Base.{
  String, List, [], ◌∷◌, ◌++◌, Option, none, some, ℕ, ◌+◌, ◌%◌, ◌^◌, Bool, true, false,
  if◌then◌else◌,
}
use ai_workstation_core.Base.Assoc.{Assoc, lookup, insert}
use ai_workstation_core.Types.Status.{
  NodeStatus, blocked, ready, running, success, failure, skipped, terminated, other,
}
use ai_workstation_core.Types.Rir.{UnitType, capability}
use ai_workstation_core.Types.StatusMap.{Value}
use ai_workstation_core.Commit.{CommitEvent}

pub record Span : Type 0 where
  pub scheduled_at : String
  pub started_at : String
  pub completed_at : String
  pub committed_at : String

pub record NodeTrace : Type 0 where
  pub trace_id : String
  pub node_id : String
  pub node_type : UnitType
  pub span : Span
  pub outputs : Option (Assoc Value)
  pub artifacts : Option (List String)
  pub terminal_status : NodeStatus

pub record TraceEvent : Type 0 where
  pub sequence : ℕ
  pub type : String
  pub node_id : String
  pub status : NodeStatus
  pub trace : NodeTrace

-- The collector, with the trace events that were sent.
pub record Collector : Type 0 where
  pub traces : Assoc NodeTrace
  pub sent : List TraceEvent
  pub seq : ℕ

abbrev pub new_collector : Collector
new_collector = record { traces = []; sent = []; seq = 0 }

abbrev pub infer_type : String → UnitType
infer_type id = capability

abbrev pub new_trace : String → String → NodeTrace
new_trace now id = record {
  trace_id = text_append id (text_append "-" now);
  node_id = id;
  node_type = infer_type id;
  span = record { scheduled_at = ""; started_at = ""; completed_at = ""; committed_at = "" };
  outputs = none;
  artifacts = none;
  terminal_status = other "";
}

-- The trace of an event's node, after the lines that create it.
unfoldable pub trace_of : String → Collector → CommitEvent → NodeTrace
trace_of now c evt = elim (lookup evt.node_id c.traces) [
  | none ↦ new_trace now evt.node_id
  | some t ↦ t
]

abbrev pub complete : String → CommitEvent → NodeStatus → NodeTrace → NodeTrace
complete now evt status t = record t {
  span = record t.span { completed_at = now; committed_at = now };
  outputs = evt.outputs;
  artifacts = evt.artifacts;
  terminal_status = status;
}

abbrev pub stop : String → NodeStatus → NodeTrace → NodeTrace
stop now status t = record t {
  span = record t.span { committed_at = now };
  terminal_status = status;
}

-- The switch over the new status: the trace after it and the type of the event that is sent.
unfoldable pub track : String → CommitEvent → NodeTrace → NodeStatus → NodeTrace × Option String
track now evt t running = (record t { span = record t.span { started_at = now } }, some "started")
track now evt t success = (complete now evt success t, some "committed")
track now evt t failure = (complete now evt failure t, some "failed")
track now evt t skipped = (stop now skipped t, some "skipped")
track now evt t terminated = (stop now terminated t, some "terminated")
track now evt t ready = (record t { span = record t.span { scheduled_at = now } }, some "scheduled")
track now evt t blocked = (t, none)
track now evt t (other s) = (t, none)

module _ (has_room : ℕ → Bool) where
  -- `emit`; the sequence is a uint64.
  unfoldable pub emit : Collector → String → String → NodeStatus → NodeTrace → Collector
  emit c type id status t =
      let next = (c.seq + 1) % 2 ^ 64 in
      let event : TraceEvent = record {
        sequence = next;
        type = type;
        node_id = id;
        status = status;
        trace = t;
      } in
      if has_room next
      then record c { seq = next; sent = c.sent ++ event ∷ [] }
      else record c { seq = next }

  unfoldable pub process : String → Collector → CommitEvent → Collector
  process now c evt =
      let tracked = track now evt (trace_of now c evt) evt.new_status in
      let kept = record c { traces = insert evt.node_id tracked.0 c.traces } in
      elim tracked.1 [
        | none ↦ kept
        | some type ↦ emit kept type evt.node_id evt.new_status tracked.0
      ]

  -- `Subscribe`: the events of the channel, in their order.
  unfoldable pub collect : String → Collector → List CommitEvent → Collector
  collect now c events = foldl (process now) c events

-- `Trace`
abbrev pub trace : Collector → String → Option NodeTrace
trace c id = lookup id c.traces

-- `TerminalStatuses`
unfoldable pub terminal_statuses : Assoc NodeTrace → Assoc NodeStatus
terminal_statuses traces = map (λ e. (e.0, e.1.terminal_status)) traces
