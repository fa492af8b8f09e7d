-- ===== src/Ceg/Search/Cycles.antt =====
-- What the search for a cycle finds, against paths in the graph.
use mathlib.Core.WellFounded.{Acc}
use ai_workstation_core.Base.{
  String, List, [], ◌∷◌, none, some, ℕ, zero, suc, Bool, true, false, ◌≡◌, ◌⊎◌, inl, inr, refl,
  subst, arith, if◌then◌else◌, str_eq, eq_iff, contains, Option-cases, Bool-cases,
}
use ai_workstation_core.Base.Assoc.{Assoc, lookup, insert, has, lookup-insert}
use ai_workstation_core.Types.Graph.{CegNode, Ceg}
use ai_workstation_core.Ceg.Search.{
  Mark, visiting, finished, next_of, Search, visit_all, find_cycle, cycle_from, search_fuel,
  has_cycle,
}

abbrev pub Edge : Assoc CegNode → String → String → Type 0
Edge nodes u v = contains (next_of nodes u) v ≡ true

-- There is a path of one edge or more.
pub data Leads (nodes : Assoc CegNode) : String → String → Type 0 where
  direct : {u v : String} → Edge nodes u v → Leads nodes u v
  via : {u v w : String} → Edge nodes u w → Leads nodes w v → Leads nodes u v

-- Some node of the path lies on a cycle.
abbrev pub Cyclic : Assoc CegNode → Type 0
Cyclic nodes = (v : String) × Leads nodes v v

-- Every path from the node ends.
abbrev pub Grounded : Assoc CegNode → String → Type 0
Grounded nodes = Acc (λ v u. Edge nodes u v)

pub some-injective {ℓ} : {A : Type ℓ} {a b : A} → some a ≡ some b → a ≡ b
some-injective h = cc h

module _ (nodes : Assoc CegNode) where
  pub Leads-snoc : {u v w : String} → Leads nodes u v → Edge nodes v w → Leads nodes u w
  Leads-snoc (direct e) f = via e (direct f)
  Leads-snoc (via e p) f = via e (Leads-snoc p f)

  -- No cycle goes through a node from which every path ends.
  pub Grounded-acyclic : {u : String} → Grounded nodes u → Leads nodes u u → ⊥
  Grounded-acyclic (Acc.intro u below) (direct e) = Grounded-acyclic (below _ e) (direct e)
  Grounded-acyclic (Acc.intro u below) (via e p) = Grounded-acyclic (below _ e) (Leads-snoc p e)

  -- A node that is finished has been searched to the end of every path.
  abbrev Sound : Assoc Mark → Type 0
  Sound m = (v : String) → lookup v m ≡ some finished → Grounded nodes v

  -- What a search without a cycle does to the marks.
  abbrev Kept : Assoc Mark → Assoc Mark → Type 0
  Kept m m' =
      ((v : String) → lookup v m ≡ some finished → lookup v m' ≡ some finished)
      × ((v : String) → lookup v m' ≡ some visiting → lookup v m ≡ some visiting)

  abbrev Result : (String → Type 0) → Assoc Mark → Bool × Assoc Mark → Type 0
  Result P m r =
      (r.0 ≡ false) × Sound r.1 × Kept m r.1 × ((v : String) → P v → lookup v r.1 ≡ some finished)
      ⊎ (r.0 ≡ true) × Cyclic nodes

  -- The nodes that are being visited lead to this one.
  abbrev Above : String → Assoc Mark → Type 0
  Above id m = (v : String) → lookup v m ≡ some visiting → Leads nodes v id

  module _ (Pre : String → Assoc Mark → Type 0)
      (stable : (id : String) (m m' : Assoc Mark) → Kept m m' → Pre id m → Pre id m')
      (visit : Search)
      (one : (id : String) (m : Assoc Mark) (r : Bool × Assoc Mark)
        → Sound m
        → Pre id m
        → visit id m ≡ some r
        → Result (λ v. id ≡ v) m r) where
    visit_all-Result :
        (ids : List String) (m : Assoc Mark) (r : Bool × Assoc Mark)
        → Sound m
        → ((v : String) → contains ids v ≡ true → Pre v m)
        → visit_all visit ids m ≡ some r
        → Result (λ v. contains ids v ≡ true) m r
    unfolding visit_all
    visit_all-Result [] m r s p e =
        subst (Result (λ v. false ≡ true) m) (some-injective e)
          (inl (refl, s, ((λ v f. f), (λ v f. f)), λ v h. absurd (cc h)))
    visit_all-Result (id ∷ ids) m r s p e = elim (Option-cases (visit id m)) [
      | inl stuck ↦ absurd (ground arith)
      | inr (q, first) ↦ elim (one id m q s (p id (ground (arith, eq_iff id id))) first) [
        | inr (met, cycle) ↦ inr (ground arith, cycle)
        | inl (fine, s', k, done) ↦
            elim (visit_all-Result ids q.1 r s' (λ v h. stable v m q.1 k (p v (ground arith)))
              (ground arith)) [
                | inr cycle ↦ inr cycle
                | inl (fine', s'', k', all_done) ↦ inl (
                  fine',
                  s'',
                  ((λ v f. k'.0 v (k.0 v f)), (λ v f. k.1 v (k'.1 v f))),
                  λ v h. elim (Bool-cases (str_eq id v)) [
                    | inl is ↦ k'.0 v (done v ((eq_iff id v).0 is))
                    | inr other ↦ all_done v (ground arith)
                  ],
                )
              ]
      ]
    ]

  -- The marks with which the search goes below a node that is met for the first time.
  entered-Sound : (id : String) (m : Assoc Mark) → Sound m → Sound (insert id visiting m)
  entered-Sound id m s v done = s v (ground (arith, lookup-insert id v visiting m))

  entered-Above :
      (id : String) (m : Assoc Mark)
      → Above id m
      → (v : String) → Edge nodes id v
      → Above v (insert id visiting m)
  entered-Above id m above v e w now = elim (Bool-cases (str_eq id w)) [
    | inl is ↦ subst (λ u. Leads nodes u v) ((eq_iff id w).0 is) (direct e)
    | inr other ↦ Leads-snoc (above w (ground (arith, lookup-insert id w visiting m))) e
  ]

  -- What holds when the search leaves a node all of whose successors are finished.
  left-Result :
      (id : String) (m q : Assoc Mark)
      → lookup id m ≡ none
      → Sound q
      → Kept (insert id visiting m) q
      → ((v : String) → Edge nodes id v → lookup v q ≡ some finished)
      → Result (λ v. id ≡ v) m (false, insert id finished q)
  left-Result id m q new s k done = inl (
    refl,
    λ v now. elim (Bool-cases (str_eq id v)) [
      | inl is ↦ subst (Grounded nodes) ((eq_iff id v).0 is) (Acc.intro id (λ u e. s u (done u e)))
      | inr other ↦ s v (ground (arith, lookup-insert id v finished q))
    ],
    (
      λ v old.
          ground (
            arith,
            lookup-insert id v finished q,
            lookup-insert id v visiting m,
            k.0 v,
            eq_iff id v,
          ),
      λ v now.
          ground (
            arith,
            lookup-insert id v finished q,
            lookup-insert id v visiting m,
            k.1 v,
            eq_iff id v,
          ),
    ),
    λ v is. ground (arith, lookup-insert id v finished q, eq_iff id v),
  )

  find_cycle-Result :
      (fuel : ℕ) (id : String) (m : Assoc Mark) (r : Bool × Assoc Mark)
      → Sound m
      → Above id m
      → find_cycle fuel nodes id m ≡ some r
      → Result (λ v. id ≡ v) m r
  unfolding find_cycle
  find_cycle-Result zero id m r s above e = absurd (cc e)
  find_cycle-Result (suc fuel) id m r s above e = elim (Option-cases (lookup id m)) [
    | inr (visiting, known) ↦ inr (ground arith, (id, above id known))
    | inr (finished, known) ↦
        subst (Result (λ v. id ≡ v) m) (some-injective (ground arith))
          (inl (refl, s, ((λ v f. f), (λ v f. f)), λ v same. ground arith))
    | inl new ↦
        elim (Option-cases
          (visit_all (find_cycle fuel nodes) (next_of nodes id) (insert id visiting m))) [
            | inl stuck ↦ absurd (ground arith)
            | inr (q, below) ↦
                elim (visit_all-Result Above (λ v m1 m2 k a w now. a w (k.1 w now))
                  (find_cycle fuel nodes) (find_cycle-Result fuel) (next_of nodes id)
                  (insert id visiting m) q (entered-Sound id m s) (entered-Above id m above)
                  below) [
                    | inr (met, cycle) ↦ inr (ground arith, cycle)
                    | inl (fine, s', k, done) ↦
                        subst (Result (λ v. id ≡ v) m) (some-injective (ground arith))
                          (left-Result id m q.1 new s' k done)
                  ]
          ]
  ]

  -- A call of the loop over the nodes of the graph.
  top-Result :
      (fuel : ℕ) (id : String) (m : Assoc Mark) (r : Bool × Assoc Mark)
      → Sound m
      → ((w : String) → lookup w m ≡ some visiting → ⊥)
      → (if has id m then some (false, m) else find_cycle fuel nodes id m) ≡ some r
      → Result (λ v. id ≡ v) m r
  top-Result fuel id m r s none_open e = elim (Option-cases (lookup id m)) [
    | inl new ↦ find_cycle-Result fuel id m r s (λ v now. absurd (none_open v now)) (ground arith)
    | inr (visiting, known) ↦ absurd (none_open id known)
    | inr (finished, known) ↦
        subst (Result (λ v. id ≡ v) m) (some-injective (ground arith))
          (inl (refl, s, ((λ v f. f), (λ v f. f)), λ v same. ground arith))
  ]

-- Every path from a node of the graph ends; or there is a cycle.
abbrev pub Found : Ceg → Bool → Type 0
Found ceg found =
    (found ≡ false) × ((v : String) → contains ceg.order v ≡ true → Grounded ceg.node_map v)
    ⊎ (found ≡ true) × Cyclic ceg.node_map

-- Whatever the search answers is so: a cycle exists in the graph, or every path from a node of the
-- graph ends.
pub has_cycle-Found : (ceg : Ceg) (found : Bool) → has_cycle ceg ≡ some found → Found ceg found
unfolding has_cycle cycle_from lookup
has_cycle-Found ceg found h =
    let nodes = ceg.node_map in
    elim (Option-cases (cycle_from (search_fuel ceg) nodes ceg.order [])) [
      | inl stuck ↦ absurd (ground arith)
      | inr (r, e) ↦
          elim (visit_all-Result nodes (λ v m. (w : String) → lookup w m ≡ some visiting → ⊥)
            (λ v m1 m2 k none_open w now. none_open w (k.1 w now))
            (λ id m. if has id m then some (false, m) else find_cycle (search_fuel ceg) nodes id m)
            (top-Result nodes (search_fuel ceg)) ceg.order [] r (λ v done. absurd (cc done))
            (λ v is w now. cc now) e) [
              | inl (fine, s, k, done) ↦ inl (ground arith, λ v is. s v (done v is))
              | inr (met, cycle) ↦ inr (ground arith, cycle)
            ]
    ]
