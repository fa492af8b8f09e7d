-- ===== src/Consistency/Passing.antt =====
-- When `FullConsistencyCheck` passes: mek/internal/verify/verify.go.
use ai_workstation_core.Base.{
  String, List, [], some, ℕ, Bool, true, ◌&&◌, ◌≡◌, ◌↔◌, refl, sym, ap, ◌∙◌, arith, all, contains,
  and_intro,
}
use ai_workstation_core.Base.Assoc.{Assoc, lookup, has, IsMap, entries_iff}
use ai_workstation_core.Types.Status.{NodeStatus, status_eq_iff, is_terminal}
use ai_workstation_core.Types.StatusMap.{NodeState, StatusMap, get}
use ai_workstation_core.Types.Graph.{Ceg}
use ai_workstation_core.Journal.{new_journal, load_terminals}
use ai_workstation_core.Trace.{new_collector, collect, terminal_statuses}
use ai_workstation_core.Replay
use ai_workstation_core.Replay.Laws.{verify_iff}
use ai_workstation_core.Verify
use ai_workstation_core.Consistency.{
  events_of, same_status, status_at, Texts, check_journal, check_trace, check_replay,
  check_structural, journal_of, full_consistency_check,
}
use ai_workstation_core.Consistency.Laws.{
  check_journal-pass, check_trace-pass, journal_tells, trace_tells, terminal_statuses-IsMap,
  load-IsMap, collect-IsMap, subscribe-file,
}

-- Every entry of a map agrees with another that tells the same.
entries_agree :
    (m other : Assoc NodeStatus)
    → IsMap m
    → ((k : String) → lookup k m ≡ lookup k other)
    → all (λ e. same_status (lookup e.0 other) e.1) m ≡ true
entries_agree m other d agree =
    (entries_iff (λ k s. same_status (lookup k other) s) m d).1
      (λ k s found. ground (arith, agree k, status_eq_iff s s))

module _ (texts : Texts) (sm : StatusMap) (ids : List String) (now : String) (has_room : ℕ → Bool)
    (map : IsMap sm) (covered : (k : String) → has k sm ≡ true → contains ids k ≡ true)
    (ended : (k : String) (s : NodeState)
      → lookup k sm ≡ some s
      → is_terminal s.status ≡ true) where
  journal : Assoc NodeStatus
  journal = load_terminals (journal_of now ids sm).entries

  journal-IsMap : IsMap journal
  unfolding journal load_terminals
  journal-IsMap = load-IsMap (journal_of now ids sm).entries [] tt

  journal_agrees : (check_journal texts journal sm).pass ≡ true
  unfolding journal
  journal_agrees =
      check_journal-pass texts journal sm
      ∙ and_intro _ _
          ((entries_iff (λ k s. same_status (status_at sm k) s) journal journal-IsMap).1
            (λ k s found. ground (arith, journal_tells sm ids now covered k, status_eq_iff s s)))
          ((entries_iff (λ k s. same_status (lookup k journal) s.status) sm map).1 (λ k s found.
            ground (arith, journal_tells sm ids now covered k, status_eq_iff s.status s.status)))

  trace_agrees :
      (check_trace texts
        (terminal_statuses (collect has_room now new_collector (events_of sm ids)).traces)
        journal).pass
      ≡ true
  unfolding journal
  trace_agrees =
      let traces = (collect has_room now new_collector (events_of sm ids)).traces in
      check_trace-pass texts (terminal_statuses traces) journal
      ∙ entries_agree (terminal_statuses traces) journal
          (terminal_statuses-IsMap traces
            (collect-IsMap has_room now new_collector (events_of sm ids) tt))
          (λ k.
            trace_tells sm ids now covered ended has_room k
            ∙ sym (journal_tells sm ids now covered k))

  report-pass :
      (run : StatusMap) (ceg : Ceg)
      → (full_consistency_check texts has_room now ids sm (some run) (some ceg)).pass
        ≡ ((Replay.verify journal run).is_match && (Verify.structural ceg journal).pass)
  unfolding full_consistency_check journal check_replay check_structural
  report-pass run ceg =
      let file = subscribe-file now new_journal (events_of sm ids) refl in
      ground (
        arith,
        journal_agrees,
        trace_agrees,
        ap (λ l. (Replay.verify (load_terminals l) run).is_match) file,
        ap (λ l. (Verify.structural ceg (load_terminals l)).pass) file,
      )

  -- For a kernel run whose states are those of nodes of the graph, all terminal, without repeated
  -- keys, whichever trace events were dropped: if the second run and the graph could be read, the
  -- report passes exactly if the second run gives every node the same status as the first, or both
  -- none, and the structural rules hold of the statuses in the journal. The first two checks pass.
  pub full_consistency_check-pass_iff :
      (run : StatusMap) (ceg : Ceg)
      → IsMap run
      → ((full_consistency_check texts has_room now ids sm (some run) (some ceg)).pass ≡ true) ↔ (
          ((k : String) → get sm k ≡ get run k)
          × ((Verify.structural ceg (load_terminals (journal_of now ids sm).entries)).pass ≡ true))
  unfolding journal get
  full_consistency_check-pass_iff run ceg d =
      let same = verify_iff journal run journal-IsMap d in
      let told = journal_tells sm ids now covered in
      let value = report-pass run ceg in
      (
        λ h. (λ k. sym (told k) ∙ same.0 (ground (arith, value)) k, ground (arith, value)),
        λ h. ground (arith, value, same.1 (λ k. told k ∙ h.0 k)),
      )
