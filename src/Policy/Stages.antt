-- ===== src/Policy/Stages.antt =====
-- The verdict of a stage: runtime/policy/engine.go and decision_graph.go.
use mathlib.Core.List.{append_assoc, append-nil}
use ai_workstation_core.Base.{
  String, List, [], ◌∷◌, ◌++◌, Option, Bool, true, false, ◌&&◌, ◌||◌, not, ◌≡◌, refl, sym, ap, ◌∙◌,
  arith, if◌then◌else◌, str_eq, any, All, ap₂, if_rule,
}
use ai_workstation_core.Base.Perms.{any-Perm}
use ai_workstation_core.Policy.{
  is_deny, PolicyDecision, PolicyVerdict, RequestContext, ToolDef, PolicyRule, new_policy_engine,
  decision_of, log_decision, evaluate_rules, evaluate_stage, new_decision_graph, allowed,
  first_denial, denied_by,
}
use ai_workstation_core.Policy.Order.{new_policy_engine-Sorted, new_policy_engine-All}

abbrev has_denial : List PolicyDecision → Bool
has_denial chain = any (λ (d : PolicyDecision). is_deny d.decision) chain

-- What holds of a verdict and the context after it, when the chain before has no denial.
abbrev Told : RequestContext → List PolicyDecision → RequestContext × PolicyVerdict → Type 0
Told ctx chain r =
    (first_denial r.1.rule_chain ≡ (if is_deny r.1.decision then r.1.rule_id else ""))
    × (more : List PolicyDecision) × (r.1.rule_chain ≡ chain ++ more)
    × (r.0.policy_graph ≡ ctx.policy_graph ++ more)

first_denial-none :
    (chain : List PolicyDecision) → has_denial chain ≡ false → first_denial chain ≡ ""
unfolding first_denial
first_denial-none [] h = refl
first_denial-none (d ∷ chain) h = ground (arith, first_denial-none chain)

first_denial-snoc :
    (chain : List PolicyDecision) (d : PolicyDecision)
    → has_denial chain ≡ false
    → is_deny d.decision ≡ true
    → first_denial (chain ++ d ∷ []) ≡ d.rule_id
unfolding first_denial
first_denial-snoc [] d h now = ground arith
first_denial-snoc (c ∷ chain) d h now = ground (arith, first_denial-snoc chain d)

has_denial-snoc :
    (chain : List PolicyDecision) (d : PolicyDecision)
    → has_denial chain ≡ false
    → is_deny d.decision ≡ false
    → has_denial (chain ++ d ∷ []) ≡ false
has_denial-snoc [] d h now = ground arith
has_denial-snoc (c ∷ chain) d h now = ground (arith, has_denial-snoc chain d)

module _ (stage : String) (tool : Option ToolDef) where
  Told-later :
      (ctx : RequestContext) (chain : List PolicyDecision) (d : PolicyDecision)
      (r : RequestContext × PolicyVerdict)
      → Told (log_decision ctx d) (chain ++ d ∷ []) r
      → Told ctx chain r
  Told-later ctx chain d r (first, more, in_chain, in_graph) = (
    first,
    d ∷ more,
    in_chain ∙ append_assoc chain (d ∷ []) more,
    in_graph ∙ append_assoc ctx.policy_graph (d ∷ []) more,
  )

  evaluate_rules-Told :
      (rules : List PolicyRule) (ctx : RequestContext) (chain : List PolicyDecision)
      → has_denial chain ≡ false
      → Told ctx chain (evaluate_rules stage tool rules ctx chain)
  unfolding evaluate_rules
  evaluate_rules-Told [] ctx chain h =
      (first_denial-none chain h, [], sym (append-nil chain), sym (append-nil ctx.policy_graph))
  evaluate_rules-Told (rule ∷ rules) ctx chain h =
      let v = rule.evaluate ctx tool in
      let d = decision_of stage rule v in
      if_rule (Told ctx chain) (not (str_eq rule.stage stage))
        (λ other. evaluate_rules-Told rules ctx chain h)
        (λ ours.
          if_rule (Told ctx chain) (is_deny v.decision)
            (λ denies. (first_denial-snoc chain d h denies, d ∷ [], refl, refl))
            (λ allows.
              Told-later ctx chain d
                (evaluate_rules stage tool rules (log_decision ctx d) (chain ++ d ∷ []))
                (evaluate_rules-Told rules (log_decision ctx d) (chain ++ d ∷ [])
                  (has_denial-snoc chain d h allows))))

  -- The rules do not read the log of the decisions.
  abbrev pub IsBlind : PolicyRule → Type 0
  IsBlind rule =
      (ctx : RequestContext) (d : PolicyDecision)
      → rule.evaluate (log_decision ctx d) tool ≡ rule.evaluate ctx tool

  -- Would the rule deny at the stage?
  abbrev pub denies_at : RequestContext → PolicyRule → Bool
  denies_at ctx rule = str_eq rule.stage stage && is_deny (rule.evaluate ctx tool).decision

  denies_at-log :
      (rules : List PolicyRule) (ctx : RequestContext) (d : PolicyDecision)
      → All IsBlind rules
      → any (denies_at (log_decision ctx d)) rules ≡ any (denies_at ctx) rules
  denies_at-log [] ctx d h = refl
  denies_at-log (rule ∷ rules) ctx d h =
      ap₂ (λ (v : PolicyVerdict) b. (str_eq rule.stage stage && is_deny v.decision) || b)
        (h.0 ctx d) (denies_at-log rules ctx d h.1)

  evaluate_rules-deny :
      (rules : List PolicyRule) (ctx : RequestContext) (chain : List PolicyDecision)
      → All IsBlind rules
      → is_deny (evaluate_rules stage tool rules ctx chain).1.decision ≡ any (denies_at ctx) rules
  unfolding evaluate_rules
  evaluate_rules-deny [] ctx chain h = refl
  evaluate_rules-deny (rule ∷ rules) ctx chain h =
      let d = decision_of stage rule (rule.evaluate ctx tool) in
      ground (
        arith,
        evaluate_rules-deny rules ctx chain h.1,
        evaluate_rules-deny rules (log_decision ctx d) (chain ++ d ∷ []) h.1,
        denies_at-log rules ctx d h.1,
      )

  -- The decision graph of a stage's verdict names the rule that denied: the first denial in it is the
  -- rule of the verdict if the stage is denied, and none if it is allowed; and the decisions of the
  -- graph are what the context's policy graph gains.
  pub denied_by-evaluate_stage :
      (rules : List PolicyRule) (ctx : RequestContext)
      → let r = evaluate_stage rules stage ctx tool in
        let g = new_decision_graph r.1 in
        (denied_by g ≡ (if allowed g then "" else r.1.rule_id))
        × (r.0.policy_graph ≡ ctx.policy_graph ++ g.graph)
  unfolding evaluate_stage denied_by
  denied_by-evaluate_stage rules ctx =
      let (first, more, in_chain, in_graph) = evaluate_rules-Told rules ctx [] refl in
      (ground (arith, first), in_graph ∙ ap (λ l. ctx.policy_graph ++ l) (sym in_chain))

  -- An engine made of rules that do not read the log of the decisions denies a stage exactly if one
  -- of the rules it was given is of the stage and denies the request as it came; so neither the
  -- order nor the priorities of the rules matter for that.
  pub evaluate_stage-deny :
      (rules : List PolicyRule) (ctx : RequestContext)
      → All IsBlind rules
      → is_deny (evaluate_stage (new_policy_engine rules) stage ctx tool).1.decision
        ≡ any (denies_at ctx) rules
  unfolding evaluate_stage
  evaluate_stage-deny rules ctx h =
      evaluate_rules-deny (new_policy_engine rules) ctx [] (new_policy_engine-All IsBlind rules h)
      ∙ any-Perm (denies_at ctx) (new_policy_engine-Sorted rules).1
