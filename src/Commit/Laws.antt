-- ===== src/Commit/Laws.antt =====
-- What holds of one call of `commit`, on every branch.
use ai_workstation_core.Base.{
  String, Option, none, some, true, false, ◌≡◌, ◌⊎◌, inl, inr, ◌↔◌, refl, arith, str_eq, eq_iff,
  Option-cases, Bool-cases, eq_refl, ap, if◌then◌else◌,
}
use ai_workstation_core.Base.Assoc.{lookup, insert, lookup-insert}
use ai_workstation_core.Types.Status.{
  NodeStatus, blocked, ready, running, success, failure, skipped, terminated, is_terminal,
  status_eq, status_eq_iff,
}
use ai_workstation_core.Types.StatusMap.{NodeState, ExecutionResult, get, StatusMap}
use ai_workstation_core.Commit.{
  Engine, CommitError, double_commit, invalid_transition, is_valid_transition, publish, commit,
  first_state, next_state,
}
use ai_workstation_core.Commit.Transitions.{◌⟶◌, edges, activate, Moves, stays, starts, steps}

-- The engine's table is the diagram.
pub is_valid_transition→⟶ : (s t : NodeStatus) → is_valid_transition s t ≡ true → s ⟶ t
unfolding is_valid_transition
is_valid_transition→⟶ blocked ready h = search edges
is_valid_transition→⟶ blocked skipped h = search edges
is_valid_transition→⟶ blocked terminated h = search edges
is_valid_transition→⟶ ready running h = search edges
is_valid_transition→⟶ ready terminated h = search edges
is_valid_transition→⟶ running success h = search edges
is_valid_transition→⟶ running failure h = search edges
is_valid_transition→⟶ running terminated h = search edges
is_valid_transition→⟶ s t h = absurd (ground arith)

pub ⟶→is_valid_transition : {s t : NodeStatus} → s ⟶ t → is_valid_transition s t ≡ true
unfolding is_valid_transition
⟶→is_valid_transition activate = refl
⟶→is_valid_transition _ = refl

publish-sm :
    (e : Engine) (id : String) (status : NodeStatus) (r : Option ExecutionResult)
    → (publish e id status r).sm ≡ e.sm
unfolding publish
publish-sm e id status r = ground arith

pub next_state-status :
    (s : NodeState) (t : NodeStatus) (r : Option ExecutionResult) → (next_state s t r).status ≡ t
unfolding next_state
next_state-status s t none = refl
next_state-status s t (some r) = refl

pub first_state-status :
    (t : NodeStatus) (r : Option ExecutionResult) → (first_state t r).status ≡ t
unfolding first_state
first_state-status t none = refl
first_state-status t (some r) = refl

-- The states after a commit, as a function of those before.
abbrev pub written : Option NodeState → NodeStatus → Option ExecutionResult → Option NodeState
written none t r = some (first_state t r)
written (some s) t r =
    if is_terminal s.status
    then some s
    else if is_valid_transition s.status t
    then some (next_state s t r)
    else some s

pub lookup-commit :
    (e : Engine) (id : String) (t : NodeStatus) (r : Option ExecutionResult) (j : String)
    → lookup j (commit e id t r).0.sm
      ≡ (if str_eq id j then written (lookup id e.sm) t r else lookup j e.sm)
unfolding commit
lookup-commit e id t r j = elim (Option-cases (lookup id e.sm)) [
  | inl missing ↦ ground (
    arith,
    lookup-insert id j (first_state t r) e.sm,
    eq_iff id j,
    publish-sm (record e { sm = insert id (first_state t r) e.sm }) id t r,
  )
  | inr (s, found) ↦ ground (
    arith,
    lookup-insert id j (next_state s t r) e.sm,
    eq_iff id j,
    publish-sm (record e { sm = insert id (next_state s t r) e.sm }) id t r,
  )
]

abbrev pub status_of : Option NodeState → Option NodeStatus
status_of none = none
status_of (some s) = some s.status

written-Moves :
    (o : Option NodeState) (t : NodeStatus) (r : Option ExecutionResult)
    → Moves (status_of o) (status_of (written o t r))
written-Moves none t r = starts
written-Moves (some s) t r = elim (Bool-cases (is_terminal s.status)) [
  | inl final ↦ rw final stays
  | inr open_ ↦ elim (Bool-cases (is_valid_transition s.status t)) [
    | inl valid ↦
        rw (open_, valid, next_state-status s t r) (steps (is_valid_transition→⟶ s.status t valid))
    | inr invalid ↦ rw (open_, invalid) stays
  ]
]

get-status_of : (sm : StatusMap) (id : String) → get sm id ≡ status_of (lookup id sm)
unfolding get
get-status_of sm id = ground arith

-- One call of `commit` moves the status of its node along at most one edge of the diagram (or
-- writes a missing node for the first time), and leaves every other node's status alone.
pub commit-Moves :
    (e : Engine) (id : String) (t : NodeStatus) (r : Option ExecutionResult) (j : String)
    → Moves (get e.sm j) (get (commit e id t r).0.sm j)
commit-Moves e id t r j =
    rw (get-status_of e.sm j, get-status_of (commit e id t r).0.sm j, lookup-commit e id t r j)
      (elim (Bool-cases (str_eq id j)) [
        | inr ne ↦ rw ne stays
        | inl q ↦ rw (q, ← (eq_iff id j).0 q) (written-Moves (lookup id e.sm) t r)
      ])

-- A node in a terminal state keeps its status, outputs and artifacts, whatever is committed.
pub commit_frozen :
    (e : Engine) (id : String) (t : NodeStatus) (r : Option ExecutionResult) (j : String)
    (s : NodeState)
    → lookup j e.sm ≡ some s
    → is_terminal s.status ≡ true
    → lookup j (commit e id t r).0.sm ≡ some s
commit_frozen e id t r j s h k = ground (arith, lookup-commit e id t r j, eq_iff id j)

-- What `commit` accepts at a node whose status, if it has one, is the first argument.
abbrev pub Accepts : Option NodeStatus → NodeStatus → Type 0
Accepts none t = Unit
Accepts (some s) t = (is_terminal s ≡ true) × (s ≡ t) ⊎ s ⟶ t

⟶-source : {s t : NodeStatus} → s ⟶ t → is_terminal s ≡ false
unfolding is_terminal
⟶-source activate = refl
⟶-source _ = refl

-- The error of a commit, as a function of the node's state.
abbrev refusal : Option NodeState → String → NodeStatus → Option CommitError
refusal none id t = none
refusal (some s) id t =
    if is_terminal s.status
    then (if status_eq s.status t then none else some (double_commit id s.status t))
    else if is_valid_transition s.status t
    then none
    else some (invalid_transition id s.status t)

commit-refusal :
    (e : Engine) (id : String) (t : NodeStatus) (r : Option ExecutionResult)
    → (commit e id t r).1 ≡ refusal (lookup id e.sm) id t
unfolding commit
commit-refusal e id t r = ground arith

refusal-Accepts :
    (o : Option NodeState) (id : String) (t : NodeStatus)
    → refusal o id t ≡ none
    → Accepts (status_of o) t
refusal-Accepts none id t h = tt
refusal-Accepts (some s) id t h = elim (Bool-cases (is_valid_transition s.status t)) [
  | inl valid ↦ inr (is_valid_transition→⟶ s.status t valid)
  | inr invalid ↦ inl (ground (arith, status_eq_iff s.status t))
]

Accepts-refusal :
    (o : Option NodeState) (id : String) (t : NodeStatus)
    → Accepts (status_of o) t
    → refusal o id t ≡ none
Accepts-refusal none id t h = refl
Accepts-refusal (some s) id t (inl (final, same)) = ground (arith, status_eq_iff s.status t)
Accepts-refusal (some s) id t (inr edge) = rw (⟶-source edge, ⟶→is_valid_transition edge)

-- `commit` returns no error exactly for a first write, for a repeated terminal status and for an
-- edge of the diagram.
pub commit-Accepts_iff :
    (e : Engine) (id : String) (t : NodeStatus) (r : Option ExecutionResult)
    → ((commit e id t r).1 ≡ none) ↔ Accepts (get e.sm id) t
commit-Accepts_iff e id t r =
    rw (get-status_of e.sm id, commit-refusal e id t r)
      (refusal-Accepts (lookup id e.sm) id t, Accepts-refusal (lookup id e.sm) id t)

-- After a commit without error the node has the status that was committed.
pub commit_writes :
    (e : Engine) (id : String) (t : NodeStatus) (r : Option ExecutionResult)
    → (commit e id t r).1 ≡ none
    → get (commit e id t r).0.sm id ≡ some t
commit_writes e id t r h =
    rw (get-status_of (commit e id t r).0.sm id, lookup-commit e id t r id, eq_refl id)
      (status_of-written (lookup id e.sm) (rw commit-refusal at h))
  where
    status_of-written :
        (o : Option NodeState) → refusal o id t ≡ none → status_of (written o t r) ≡ some t
    status_of-written none k = ap some (first_state-status t r)
    status_of-written (some s) k = ground (arith, next_state-status s t r, status_eq_iff s.status t)

-- A commit that reports an error leaves the engine as it was. The error names the node, its status
-- and the status that was refused; it is a double commit exactly if the node was terminal.
pub commit_refused :
    (e : Engine) (id : String) (t : NodeStatus) (r : Option ExecutionResult) (x : CommitError)
    → (commit e id t r).1 ≡ some x
    → ((commit e id t r).0 ≡ e)
      × (s : NodeState) × (lookup id e.sm ≡ some s)
      × ((is_terminal s.status ≡ true) × (x ≡ double_commit id s.status t)
          ⊎ (is_terminal s.status ≡ false) × (x ≡ invalid_transition id s.status t))
unfolding commit
commit_refused e id t r x h = elim (Option-cases (lookup id e.sm)) [
  | inl missing ↦ absurd (ground arith)
  | inr (s, found) ↦ (ground arith, s, found, ground arith)
]

-- After a commit a node has its old status or the committed one.
pub commit-status :
    (e : Engine) (id : String) (t : NodeStatus) (r : Option ExecutionResult)
    → (get (commit e id t r).0.sm id ≡ get e.sm id) ⊎ (get (commit e id t r).0.sm id ≡ some t)
commit-status e id t r =
    rw
      (
        get-status_of (commit e id t r).0.sm id,
        get-status_of e.sm id,
        lookup-commit e id t r id,
        eq_refl id,
      )
      (status_cases (lookup id e.sm))
  where
    status_cases :
        (o : Option NodeState)
        → (status_of (written o t r) ≡ status_of o) ⊎ (status_of (written o t r) ≡ some t)
    status_cases none = inr (ap some (first_state-status t r))
    status_cases (some s) = ground (arith, next_state-status s t r)

-- A commit leaves the status of every other node alone.
pub commit-others :
    (e : Engine) (id : String) (t : NodeStatus) (r : Option ExecutionResult) (j : String)
    → str_eq id j ≡ false
    → get (commit e id t r).0.sm j ≡ get e.sm j
commit-others e id t r j ne =
    rw (get-status_of (commit e id t r).0.sm j, get-status_of e.sm j, lookup-commit e id t r j, ne)
