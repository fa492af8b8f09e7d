-- ===== src/Journal/Kernel.antt =====
-- The journal of a sequence of commits and the kernel's status map.
use ai_workstation_core.Base.{
  String, List, [], ◌∷◌, ◌++◌, Option, none, some, ◌<◌, ◌≡◌, refl, arith, ◌∙◌, ap, if◌then◌else◌,
  str_eq, length, Bool-cases, inl, inr, ltb, if_rule, option_rule,
}
use ai_workstation_core.Base.Assoc.{lookup, insert, lookup-insert}
use ai_workstation_core.Types.Status.{NodeStatus, is_terminal}
use ai_workstation_core.Types.StatusMap.{
  StatusMap, ExecutionResult, NodeState, get, get_state, set_state,
}
use ai_workstation_core.Commit.{
  CommitEvent, Engine, CommitError, event_of, publish, event_capacity, first_state, next_state,
  is_valid_transition, commit, new,
}
use ai_workstation_core.Commit.Laws.{first_state-status, next_state-status}
use ai_workstation_core.Commit.Histories.{Writes, done, write}
use ai_workstation_core.Journal.{
  Journal, new_journal, terminal_status, record_event, subscribe, load_terminals,
}
use ai_workstation_core.Journal.Laws.{terminal_status-record_event, lookup-load_terminals}

-- The status of the last event of a node, or an earlier answer.
abbrev pub announced : Option NodeStatus → List CommitEvent → String → Option NodeStatus
announced o [] id = o
announced o (evt ∷ events) id =
    announced (if str_eq evt.node_id id then some evt.new_status else o) events id

announced-append :
    (o : Option NodeStatus) (events : List CommitEvent) (evt : CommitEvent) (id : String)
    → announced o (events ++ evt ∷ []) id
      ≡ (if str_eq evt.node_id id then some evt.new_status else announced o events id)
announced-append o [] evt id = refl
announced-append o (d ∷ events) evt id =
    announced-append (if str_eq d.node_id id then some d.new_status else o) events evt id

pub terminal_status-subscribe :
    (now : String) (j : Journal) (events : List CommitEvent) (id : String)
    → terminal_status (subscribe now j events).entries id
      ≡ announced (terminal_status j.entries id) events id
unfolding subscribe
terminal_status-subscribe now j [] id = refl
terminal_status-subscribe now j (evt ∷ events) id =
    terminal_status-subscribe now (record_event now j evt) events id
    ∙ ap (λ o. announced o events id) (terminal_status-record_event now j evt id)

get-insert :
    (id j : String) (s : NodeState) (sm : StatusMap)
    → get (insert id s sm) j ≡ (if str_eq id j then some s.status else get sm j)
unfolding get
get-insert id j s sm = ground (arith, lookup-insert id j s sm)

event_of-fields :
    (id : String) (t : NodeStatus) (r : Option ExecutionResult)
    → ((event_of id t r).node_id ≡ id) × ((event_of id t r).new_status ≡ t)
event_of-fields id t none = (refl, refl)
event_of-fields id t (some r) = (refl, refl)

-- What a publication that leaves room in the channel does.
publish-announced :
    (f : Engine) (id : String) (t : NodeStatus) (r : Option ExecutionResult)
    → length (publish f id t r).events < event_capacity
    → (length f.events < event_capacity)
      × ((publish f id t r).sm ≡ f.sm)
      × ((j : String)
          → announced none (publish f id t r).events j
            ≡ (if str_eq id j then some t else announced none f.events j))
unfolding publish
publish-announced f id t r room = elim (Bool-cases (ltb (length f.events) event_capacity)) [
  | inr full ↦ absurd (ground arith)
  | inl free ↦ (
    ground arith,
    ground arith,
    λ j. ground (arith, event_of-fields id t r, announced-append none f.events (event_of id t r) j),
  )
]

-- A write to the map that is announced.
write-announced :
    (e : Engine) (s : NodeState) (id : String) (t : NodeStatus) (r : Option ExecutionResult)
    → s.status ≡ t
    → length (publish (record e { sm = set_state e.sm id s }) id t r).events < event_capacity
    → (length e.events < event_capacity)
      × ((j : String)
          → announced none e.events j ≡ get e.sm j
          → announced none (publish (record e { sm = set_state e.sm id s }) id t r).events j
            ≡ get (publish (record e { sm = set_state e.sm id s }) id t r).sm j)
unfolding set_state
write-announced e s id t r same room =
    let (free, kept, told) = publish-announced (record e { sm = insert id s e.sm }) id t r room in
    (free, λ j old. told j ∙ ground (arith, get-insert id j s e.sm, ap (λ m. get m j) kept))

abbrev Agrees : Engine → Engine → Type 0
Agrees e f =
    (length e.events < event_capacity)
    × ((j : String)
        → announced none e.events j ≡ get e.sm j
        → announced none f.events j ≡ get f.sm j)

-- A commit that leaves room in the channel has announced every status that it wrote.
commit-announced :
    (e : Engine) (id : String) (t : NodeStatus) (r : Option ExecutionResult)
    → length (commit e id t r).0.events < event_capacity
    → Agrees e (commit e id t r).0
unfolding commit get_state
commit-announced e id t r =
    option_rule Room (lookup id e.sm)
      (λ missing. write-announced e (first_state t r) id t r (first_state-status t r))
      (λ s found.
        if_rule Room (is_terminal s.status) (λ _ room. (room, λ j old. old))
          (λ _.
            if_rule Room (is_valid_transition s.status t)
              (λ _. write-announced e (next_state s t r) id t r (next_state-status s t r))
              (λ _ room. (room, λ j old. old))))
  where
    Room : Engine × Option CommitError → Type 0
    Room c = length c.0.events < event_capacity → Agrees e c.0

-- As long as the channel of events is not full, the events announce the status of every node.
Writes-announced :
    {e : Engine}
    → Writes (new []) e
    → length e.events < event_capacity
    → (j : String) → announced none e.events j ≡ get e.sm j
unfolding new get lookup
Writes-announced done room j = refl
Writes-announced (write {f} id t r w) room j =
    let (before, keep) = commit-announced f id t r room in keep j (Writes-announced w before j)

-- If fewer events than the channel's capacity have waited since an empty status map, the map of last
-- statuses that is loaded from the journal of those events agrees with the kernel on every node.
pub subscribe-agrees :
    {e : Engine} (now : String) (id : String)
    → Writes (new []) e
    → length e.events < event_capacity
    → lookup id (load_terminals (subscribe now new_journal e.events).entries) ≡ get e.sm id
unfolding terminal_status
subscribe-agrees {e} now id w room =
    lookup-load_terminals (subscribe now new_journal e.events).entries id
    ∙ terminal_status-subscribe now new_journal e.events id
    ∙ Writes-announced w room id
