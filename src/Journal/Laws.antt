-- ===== src/Journal/Laws.antt =====
-- What the journal records: numbering, the chain of statuses, and the map of last statuses.
use mathlib.Core.List.{foldl, append-nil, append_assoc}
use ai_workstation_core.Base.{
  String, List, [], ◌∷◌, ◌++◌, none, some, ℕ, ◌+◌, ◌%◌, ◌^◌, ◌<◌, ◌≡◌, refl, arith, ◌∙◌, ap, sym,
  if◌then◌else◌, str_eq, length, length-append,
}
use ai_workstation_core.Base.Assoc.{Assoc, lookup, insert, lookup-insert}
use ai_workstation_core.Types.Status.{NodeStatus}
use ai_workstation_core.Commit.{CommitEvent}
use ai_workstation_core.Journal.{
  Entry, Journal, terminal_status, from_of, entry_of, record_event, load_terminals,
}

pub terminal_status-append :
    (entries : List Entry) (e : Entry) (id : String)
    → terminal_status (entries ++ e ∷ []) id
      ≡ (if str_eq e.node_id id then some e.to_status else terminal_status entries id)
unfolding terminal_status
terminal_status-append [] e id = refl
terminal_status-append (d ∷ entries) e id = ground (arith, terminal_status-append entries e id)

-- After an event is recorded its node has the event's status; the other nodes keep theirs.
pub terminal_status-record_event :
    (now : String) (j : Journal) (evt : CommitEvent) (id : String)
    → terminal_status (record_event now j evt).entries id
      ≡ (if str_eq evt.node_id id then some evt.new_status else terminal_status j.entries id)
unfolding record_event
terminal_status-record_event now j evt id = terminal_status-append j.entries (entry_of now j evt) id

load_from :
    (entries : List Entry) (m : Assoc NodeStatus) (id : String)
    → lookup id (foldl (λ m' e. insert e.node_id e.to_status m') m entries)
      ≡ elim (terminal_status entries id) [ some s ↦ some s | none ↦ lookup id m ]
unfolding terminal_status
load_from [] m id = refl
load_from (e ∷ entries) m id = ground (
  arith,
  load_from entries (insert e.node_id e.to_status m) id,
  lookup-insert e.node_id id e.to_status m,
)

-- The map that replay and verification load from a journal answers for every node what the journal's
-- own search from the end does.
pub lookup-load_terminals :
    (entries : List Entry) (id : String)
    → lookup id (load_terminals entries) ≡ terminal_status entries id
unfolding load_terminals lookup
lookup-load_terminals entries id = ground (arith, load_from entries [] id)

-- The entries are numbered from `n` on, and each starts at the status that its node had before.
abbrev pub Chained : List Entry → ℕ → List Entry → Type 0
Chained before n [] = Unit
Chained before n (e ∷ entries) =
    (e.sequence ≡ n)
    × (e.from_status ≡ from_of (terminal_status before e.node_id))
    × Chained (before ++ e ∷ []) (n + 1) entries

abbrev pub WellFormed : Journal → Type 0
WellFormed j =
    Chained [] 0 j.entries × (j.sequence ≡ length j.entries % 2 ^ 64) × (j.file ≡ j.entries)

Chained-append :
    (before entries : List Entry) (n : ℕ) (e : Entry)
    → Chained before n entries
    → e.sequence ≡ n + length entries
    → e.from_status ≡ from_of (terminal_status (before ++ entries) e.node_id)
    → Chained before n (entries ++ e ∷ [])
Chained-append before [] n e c s f =
    (omega arith, f ∙ ap (λ es. from_of (terminal_status es e.node_id)) (append-nil before), tt)
Chained-append before (d ∷ entries) n e c s f = (
  c.0,
  c.1,
  Chained-append (before ++ d ∷ []) entries (n + 1) e c.2 (omega arith) (
      f
      ∙ ap (λ es. from_of (terminal_status es e.node_id))
          (sym (append_assoc before (d ∷ []) entries))),
)

-- Recording an event keeps a journal of less than 2^64 entries well formed: its entries are numbered
-- in order, each starts at the last status that the journal had for its node, and the file holds
-- what the memory does.
pub record_event-WellFormed :
    (now : String) (j : Journal) (evt : CommitEvent)
    → length j.entries < 2 ^ 64
    → WellFormed j
    → WellFormed (record_event now j evt)
unfolding record_event
record_event-WellFormed now j evt small (c, s, f) = (
  Chained-append [] j.entries 0 (entry_of now j evt) c (ground arith) refl,
  ground (arith, length-append j.entries (entry_of now j evt ∷ [])),
  ground arith,
)
