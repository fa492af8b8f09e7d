-- ===== src/Replay/Laws.antt =====
-- When a replay matches.
use mathlib.Core.List.{foldl}
use ai_workstation_core.Base.{
  String, [], ◌∷◌, Option, none, some, Bool, true, false, ◌&&◌, ◌≡◌, ◌↔◌, refl, arith, ◌∙◌, ap, sym,
  all, and_intro,
}
use ai_workstation_core.Base.Assoc.{Assoc, lookup, has, IsMap, entries_iff}
use ai_workstation_core.Types.Status.{NodeStatus, status_eq, status_eq_iff}
use ai_workstation_core.Types.StatusMap.{NodeState, StatusMap, get}
use ai_workstation_core.Replay.{Report, compare_entry, compare_node, first_report, verify}

-- The replay has the journal's status for the node.
abbrev same : StatusMap → String → NodeStatus → Bool
same sm id s = elim (lookup id sm) [ none ↦ false | some state ↦ status_eq state.status s ]

entries-match :
    (sm : StatusMap) (r : Report) (journal : Assoc NodeStatus)
    → (foldl (compare_entry sm) r journal).is_match
      ≡ (r.is_match && all (λ e. same sm e.0 e.1) journal)
unfolding compare_entry
entries-match sm r [] = ground arith
entries-match sm r ((id, s) ∷ journal) =
    ground (arith, entries-match sm (compare_entry sm r (id, s)) journal)

nodes-match :
    (journal : Assoc NodeStatus) (r : Report) (sm : StatusMap)
    → (foldl (compare_node journal) r sm).is_match ≡ (r.is_match && all (λ e. has e.0 journal) sm)
unfolding compare_node
nodes-match journal r [] = ground arith
nodes-match journal r ((id, s) ∷ sm) =
    ground (arith, nodes-match journal (compare_node journal r (id, s)) sm)

verify-match :
    (journal : Assoc NodeStatus) (sm : StatusMap)
    → (verify journal sm).is_match
      ≡ (all (λ e. same sm e.0 e.1) journal && all (λ e. has e.0 journal) sm)
unfolding verify
verify-match journal sm =
    nodes-match journal (foldl (compare_entry sm) (first_report journal sm) journal) sm
    ∙ ap (λ b. b && all (λ e. has e.0 journal) sm)
        (entries-match sm (first_report journal sm) journal)

-- For two maps without repeated keys, a replay matches exactly if the journal and the second run
-- give every node the same status, or both none.
pub verify_iff :
    (journal : Assoc NodeStatus) (sm : StatusMap)
    → IsMap journal
    → IsMap sm
    → ((verify journal sm).is_match ≡ true) ↔ ((id : String) → lookup id journal ≡ get sm id)
unfolding get
verify_iff journal sm d f =
    let entries = entries_iff (same sm) journal d in
    let nodes = entries_iff (λ id state. has id journal) sm f in
    let result = verify-match journal sm in
    (
      λ h id.
          agree id (lookup id journal) (lookup id sm) (entries.0 (ground arith) id)
            (nodes.0 (ground arith) id),
      λ h.
          result
          ∙ and_intro _ _ (entries.1 (λ id s found. ground (arith, h id, status_eq_iff s s)))
              (nodes.1 (λ id state found. ground (arith, h id))),
    )
  where
    agree :
        (id : String) (o : Option NodeStatus) (q : Option NodeState)
        → ((s : NodeStatus)
            → o ≡ some s
            → elim q [ none ↦ false | some n ↦ status_eq n.status s ] ≡ true)
        → ((n : NodeState) → q ≡ some n → elim o [ none ↦ false | some _ ↦ true ] ≡ true)
        → o ≡ elim q [ none ↦ none | some n ↦ some n.status ]
    agree id none none p q = refl
    agree id none (some n) p q = absurd (ground (arith, q n refl))
    agree id (some s) none p q = absurd (ground (arith, p s refl))
    agree id (some s) (some n) p q = sym (ap some ((status_eq_iff n.status s).0 (p s refl)))
