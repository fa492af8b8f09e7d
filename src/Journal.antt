-- ===== src/Journal.antt =====
-- mek/internal/journal/journal.go: the append-only record of the commit events, and the maps of last
-- statuses that mek/internal/replay and mek/internal/verify read from it. The clock's text is an
-- argument; the file is the list of the entries that were encoded. Absent statuses are the empty text.
pub mod Laws
pub mod Kernel
use mathlib.Core.List.{foldl}
use ai_workstation_core.Base.{
  String, List, [], ◌∷◌, ◌++◌, Option, none, some, ℕ, zero, suc, ◌+◌, ◌%◌, ◌^◌, Bool, true, false,
  if◌then◌else◌, str_eq, select,
}
use ai_workstation_core.Base.Assoc.{Assoc, insert}
use ai_workstation_core.Types.Status.{NodeStatus, other}
use ai_workstation_core.Types.StatusMap.{Value}
use ai_workstation_core.Commit.{CommitEvent}

pub record Entry : Type 0 where
  pub sequence : ℕ
  pub timestamp : String
  pub node_id : String
  pub from_status : NodeStatus
  pub to_status : NodeStatus
  pub outputs : Option (Assoc Value)
  pub artifacts : Option (List String)

pub record Journal : Type 0 where
  pub entries : List Entry
  pub file : List Entry
  pub sequence : ℕ

abbrev pub new_journal : Journal
new_journal = record { entries = []; file = []; sequence = 0 }

-- The loop from the last entry down to the first: `TerminalStatus`.
unfoldable pub terminal_status : List Entry → String → Option NodeStatus
terminal_status [] id = none
terminal_status (e ∷ entries) id = elim (terminal_status entries id) [
  | some s ↦ some s
  | none ↦ if str_eq e.node_id id then some e.to_status else none
]

abbrev pub from_of : Option NodeStatus → NodeStatus
from_of none = other ""
from_of (some s) = s

abbrev pub entry_of : String → Journal → CommitEvent → Entry
entry_of now j evt = record {
  sequence = j.sequence;
  timestamp = now;
  node_id = evt.node_id;
  from_status = from_of (terminal_status j.entries evt.node_id);
  to_status = evt.new_status;
  outputs = evt.outputs;
  artifacts = evt.artifacts;
}

-- `record`; the sequence is a uint64.
unfoldable pub record_event : String → Journal → CommitEvent → Journal
record_event now j evt = record {
  entries = j.entries ++ entry_of now j evt ∷ [];
  file = j.file ++ entry_of now j evt ∷ [];
  sequence = (j.sequence + 1) % 2 ^ 64;
}

-- `Subscribe`: the events of the channel, in their order.
unfoldable pub subscribe : String → Journal → List CommitEvent → Journal
subscribe now j events = foldl (record_event now) j events

abbrev pub node_history : Journal → String → List Entry
node_history j id = select (λ e. str_eq e.node_id id) j.entries

-- `terminals[entry.NodeID] = entry.ToStatus`, over the entries.
unfoldable pub load_terminals : List Entry → Assoc NodeStatus
load_terminals entries = foldl (λ m e. insert e.node_id e.to_status m) [] entries
