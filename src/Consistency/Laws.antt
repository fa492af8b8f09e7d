-- ===== src/Consistency/Laws.antt =====
-- What the four checks of `FullConsistencyCheck` come to: mek/internal/verify/verify.go.
use mathlib.Core.List.{foldl}
use ai_workstation_core.Base.{
  String, List, [], ◌∷◌, ◌++◌, Option, none, some, ℕ, Bool, true, false, ◌&&◌, ◌≡◌, refl, sym, ap,
  subst, ◌∙◌, inl, inr, arith, eq_iff, if◌then◌else◌, str_eq, all, All, contains, option_rule,
  Option-cases,
}
use ai_workstation_core.Base.Assoc.{Assoc, lookup, insert, has, IsMap, insert-IsMap}
use ai_workstation_core.Types.Status.{NodeStatus, is_terminal}
use ai_workstation_core.Types.StatusMap.{NodeState, StatusMap}
use ai_workstation_core.Commit.{CommitEvent}
use ai_workstation_core.Journal.{
  Entry, Journal, entry_of, new_journal, record_event, subscribe, terminal_status, load_terminals,
}
use ai_workstation_core.Journal.Laws.{lookup-load_terminals}
use ai_workstation_core.Journal.Kernel.{announced, terminal_status-subscribe}
use ai_workstation_core.Trace.{
  NodeTrace, Collector, new_collector, collect, process, terminal_statuses,
}
use ai_workstation_core.Trace.Laws.{noted_all, process-traces, terminal_statuses-collect}
use ai_workstation_core.Consistency.{
  events_of, first_failing, same_status, status_at, Texts, check_journal, check_trace, journal_of,
}

-- The checks pass if no entry of the maps fails.
first_failing-none :
    {V : Type 0} (test : String × V → Bool) (m : Assoc V)
    → elim (first_failing test m) as (λ _. Bool) [ none ↦ true | some e ↦ false ] ≡ all test m
unfolding first_failing
first_failing-none test [] = refl
first_failing-none test (e ∷ m) = ground (arith, first_failing-none test m)

module _ (texts : Texts) where
  pub check_journal-pass :
      (journal : Assoc NodeStatus) (sm : StatusMap)
      → (check_journal texts journal sm).pass ≡ (
          all (λ e. same_status (status_at sm e.0) e.1) journal
          && all (λ e. same_status (lookup e.0 journal) e.1.status) sm)
  unfolding check_journal
  check_journal-pass journal sm = ground (
    arith,
    first_failing-none (λ e. same_status (status_at sm e.0) e.1) journal,
    first_failing-none (λ e. same_status (lookup e.0 journal) e.1.status) sm,
  )

  pub check_trace-pass :
      (traces journal : Assoc NodeStatus)
      → (check_trace texts traces journal).pass
        ≡ all (λ e. same_status (lookup e.0 journal) e.1) traces
  unfolding check_trace
  check_trace-pass traces journal =
      ground (arith, first_failing-none (λ e. same_status (lookup e.0 journal) e.1) traces)

-- The statuses that the events of a status map announce.
announced-events_of :
    (sm : StatusMap) (o : Option NodeStatus) (ids : List String) (id : String)
    → announced o (events_of sm ids) id
      ≡ (if contains ids id && has id sm then status_at sm id else o)
unfolding events_of
announced-events_of sm o [] id = refl
announced-events_of sm o (k ∷ ids) id = elim (Option-cases (lookup k sm)) [
  | inl e ↦ ground (arith, e, eq_iff k id, announced-events_of sm o ids id)
  | inr (s, e) ↦
      let told = if str_eq k id then some s.status else o in
      ground (arith, e, eq_iff k id, announced-events_of sm told ids id)
]

IsTerminal : CommitEvent → Type 0
IsTerminal evt = is_terminal evt.new_status ≡ true

events_of-IsTerminal :
    (sm : StatusMap) (ids : List String)
    → ((k : String) (s : NodeState) → lookup k sm ≡ some s → is_terminal s.status ≡ true)
    → All IsTerminal (events_of sm ids)
unfolding events_of IsTerminal
events_of-IsTerminal sm [] h = tt
events_of-IsTerminal sm (k ∷ ids) h =
    option_rule (All IsTerminal) (lookup k sm) (λ e. events_of-IsTerminal sm ids h)
      (λ s e. (h k s e, events_of-IsTerminal sm ids h))

noted_all-announced :
    (events : List CommitEvent) (o : Option NodeStatus) (id : String)
    → All IsTerminal events
    → noted_all o events id ≡ announced o events id
unfolding IsTerminal
noted_all-announced [] o id h = refl
noted_all-announced (evt ∷ events) o id h =
    ap (λ p. noted_all p events id) (ground (arith, h.0))
    ∙ noted_all-announced events (if str_eq evt.node_id id then some evt.new_status else o) id h.1

-- The loaded maps have no repeated keys.
pub load-IsMap :
    (entries : List Entry) (m : Assoc NodeStatus)
    → IsMap m
    → IsMap (foldl (λ m e. insert e.node_id e.to_status m) m entries)
load-IsMap [] m d = d
load-IsMap (e ∷ entries) m d =
    load-IsMap entries (insert e.node_id e.to_status m) (insert-IsMap e.node_id e.to_status m d)

has-terminal_statuses :
    (m : Assoc NodeTrace) (id : String) → has id (terminal_statuses m) ≡ has id m
unfolding lookup terminal_statuses
has-terminal_statuses [] id = refl
has-terminal_statuses ((k, t) ∷ m) id = ground (arith, eq_iff k id, has-terminal_statuses m id)

pub terminal_statuses-IsMap : (m : Assoc NodeTrace) → IsMap m → IsMap (terminal_statuses m)
unfolding terminal_statuses
terminal_statuses-IsMap [] d = tt
terminal_statuses-IsMap ((k, t) ∷ m) d =
    (has-terminal_statuses m k ∙ d.0, terminal_statuses-IsMap m d.1)

pub collect-IsMap :
    (has_room : ℕ → Bool) (now : String) (c : Collector) (events : List CommitEvent)
    → IsMap c.traces
    → IsMap (collect has_room now c events).traces
unfolding collect
collect-IsMap has_room now c [] d = d
collect-IsMap has_room now c (evt ∷ events) d =
    collect-IsMap has_room now (process has_room now c evt) events (
      subst IsMap (sym (process-traces has_room now c evt)) (insert-IsMap evt.node_id _ c.traces d))

pub subscribe-file :
    (now : String) (j : Journal) (events : List CommitEvent)
    → j.file ≡ j.entries
    → (subscribe now j events).file ≡ (subscribe now j events).entries
unfolding subscribe record_event
subscribe-file now j [] e = e
subscribe-file now j (evt ∷ events) e =
    subscribe-file now (record_event now j evt) events (ap (λ l. l ++ entry_of now j evt ∷ []) e)

-- The statuses of a map and of the kernel are the same, so each check of one against the other
-- passes.
module _ (sm : StatusMap) (ids : List String) (now : String)
    (covered : (k : String) → has k sm ≡ true → contains ids k ≡ true) where
  told : (k : String) → announced none (events_of sm ids) k ≡ status_at sm k
  told k = ground (arith, covered k, announced-events_of sm none ids k)

  pub journal_tells :
      (k : String) → lookup k (load_terminals (journal_of now ids sm).entries) ≡ status_at sm k
  unfolding terminal_status
  journal_tells k =
      lookup-load_terminals (journal_of now ids sm).entries k
      ∙ terminal_status-subscribe now new_journal (events_of sm ids) k
      ∙ told k

  module _
      (ended : (k : String) (s : NodeState) → lookup k sm ≡ some s → is_terminal s.status ≡ true)
      (has_room : ℕ → Bool) where
    pub trace_tells :
        (k : String)
        → lookup k
            (terminal_statuses (collect has_room now new_collector (events_of sm ids)).traces)
          ≡ status_at sm k
    unfolding terminal_statuses lookup
    trace_tells k =
        terminal_statuses-collect has_room now new_collector (events_of sm ids) k
        ∙ noted_all-announced (events_of sm ids) none k (events_of-IsTerminal sm ids ended)
        ∙ told k
