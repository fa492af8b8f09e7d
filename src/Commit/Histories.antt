-- ===== src/Commit/Histories.antt =====
-- Sequences of commits: what holds of every state that the commit engine can bring about.
use ai_workstation_core.Base.{
  String, [], ◌∷◌, Option, none, some, ◌≤◌, true, ◌≡◌, arith, length, length-append, Option-cases,
  inl, inr,
}
use ai_workstation_core.Base.Assoc.{lookup}
use ai_workstation_core.Types.Status.{NodeStatus, is_terminal}
use ai_workstation_core.Types.StatusMap.{NodeState, ExecutionResult, get}
use ai_workstation_core.Commit.{Engine, event_of, publish, commit, event_capacity}
use ai_workstation_core.Commit.Transitions.{◌⟶◌, ◌⟶*◌, here, hop, Moves, stays, steps, rank, ⟶-rank}
use ai_workstation_core.Commit.Laws.{commit-Moves, commit_frozen}

-- The engines that are reached from `e` by calls of `commit` alone, whatever the calls return.
pub data Writes (e : Engine) : Engine → Type 0 where
  done : Writes e e
  write :
      {f : Engine} (id : String) (t : NodeStatus) (r : Option ExecutionResult)
      → Writes e f
      → Writes e (commit f id t r).0

pub Writes-trans : {e f g : Engine} → Writes e f → Writes f g → Writes e g
Writes-trans p done = p
Writes-trans p (write id t r q) = write id t r (Writes-trans p q)

pub Writes-commit :
    (e : Engine) (id : String) (t : NodeStatus) (r : Option ExecutionResult)
    → Writes e (commit e id t r).0
Writes-commit e id t r = write id t r done

⟶*-snoc : {s t u : NodeStatus} → s ⟶* t → t ⟶ u → s ⟶* u
⟶*-snoc here e = hop e here
⟶*-snoc (hop e p) f = hop e (⟶*-snoc p f)

-- A status, once present, is only ever followed along the diagram.
pub data Path* : Option NodeStatus → Option NodeStatus → Type 0 where
  absent : {o : Option NodeStatus} → Path* none o
  along : {s t : NodeStatus} → s ⟶* t → Path* (some s) (some t)

Path*-snoc : {a b c : Option NodeStatus} → Path* a b → Moves b c → Path* a c
Path*-snoc absent m = absent
Path*-snoc (along p) stays = along p
Path*-snoc (along p) (steps e) = along (⟶*-snoc p e)

Path*-refl : (o : Option NodeStatus) → Path* o o
Path*-refl none = absent
Path*-refl (some s) = along here

-- However commits are chained, the status of a node goes along the diagram, and a node that is
-- present stays present.
pub Writes-Path* : {e f : Engine} (j : String) → Writes e f → Path* (get e.sm j) (get f.sm j)
Writes-Path* {e} j done = Path*-refl (get e.sm j)
Writes-Path* j (write {f} id t r w) = Path*-snoc (Writes-Path* j w) (commit-Moves f id t r j)

-- However commits are chained, a node that is terminal keeps its whole state.
pub Writes-frozen :
    {e f : Engine} (j : String) (s : NodeState)
    → Writes e f
    → lookup j e.sm ≡ some s
    → is_terminal s.status ≡ true
    → lookup j f.sm ≡ some s
Writes-frozen j s done h k = h
Writes-frozen j s (write {f} id t r w) h k = commit_frozen f id t r j s (Writes-frozen j s w h k) k

-- The diagram has no cycle: the rank of a node's status never falls.
pub ⟶*-rank : {s t : NodeStatus} → s ⟶* t → rank s ≤ rank t
⟶*-rank here = omega arith
⟶*-rank (hop e p) = omega (arith, ⟶-rank e, ⟶*-rank p)

publish_bounded :
    (e : Engine) (id : String) (t : NodeStatus) (r : Option ExecutionResult)
    → length e.events ≤ event_capacity
    → length (publish e id t r).events ≤ event_capacity
unfolding publish
publish_bounded e id t r h = ground (arith, length-append e.events (event_of id t r ∷ []))

commit_bounded :
    (e : Engine) (id : String) (t : NodeStatus) (r : Option ExecutionResult)
    → length e.events ≤ event_capacity
    → length (commit e id t r).0.events ≤ event_capacity
unfolding commit
commit_bounded e id t r h = grind (arith, publish_bounded)

-- If the events that wait are within the capacity of the channel, they are after any sequence of
-- commits.
pub Writes-bounded :
    {e f : Engine}
    → Writes e f
    → length e.events ≤ event_capacity
    → length f.events ≤ event_capacity
Writes-bounded done h = h
Writes-bounded (write {f} id t r w) h = commit_bounded f id t r (Writes-bounded w h)

-- The same, of the status alone.
pub get_frozen :
    {e f : Engine} (j : String) (s : NodeStatus)
    → Writes e f
    → get e.sm j ≡ some s
    → is_terminal s ≡ true
    → get f.sm j ≡ some s
unfolding get
get_frozen {e} j s w h k = elim (Option-cases (lookup j e.sm)) [
  | inl missing ↦ absurd (ground arith)
  | inr (state, found) ↦ ground (arith, Writes-frozen j state w)
]
