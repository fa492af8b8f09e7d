-- ===== src/Ceg/Search/Reached.antt =====
-- What the search from the roots finds, against paths in the graph.
use ai_workstation_core.Base.{
  String, List, [], ◌∷◌, some, ℕ, zero, suc, Bool, true, false, ◌≡◌, ◌↔◌, ◌⊎◌, inl, inr, refl,
  subst, sym, arith, str_eq, eq_iff, contains, Option-cases, Bool-cases, ◌==◌,
}
use ai_workstation_core.Base.Assoc.{Assoc, lookup, insert, has, lookup_or}
use ai_workstation_core.Types.Graph.{CegNode, Ceg}
use ai_workstation_core.Ceg.Search.{next_of, search_fuel, Walk, walk_all, reach, reachable_set}
use ai_workstation_core.Ceg.Search.Ends.{has-insert}
use ai_workstation_core.Ceg.Search.Cycles.{Edge, Leads, direct, via, some-injective}

-- The nodes at the end of a path of no edge or more.
abbrev pub Comes : Assoc CegNode → String → String → Type 0
Comes nodes u v = (u ≡ v) ⊎ Leads nodes u v

module _ (nodes : Assoc CegNode) where
  -- A search from the identifiers of `P` takes the marks `m` to `r`.
  record Reaches (P : String → Type 0) (m r : Assoc Bool) : Type 0 where
    grows : (v : String) → has v m ≡ true → has v r ≡ true
    starts : (v : String) → P v → has v r ≡ true
    closed :
        (u : String)
        → has u r ≡ true
        → (has u m ≡ true) ⊎ ((w : String) → Edge nodes u w → has w r ≡ true)
    comes :
        (u : String) → has u r ≡ true → (has u m ≡ true) ⊎ ((v : String) × P v × Comes nodes v u)

  Reaches-refl :
      (P : String → Type 0) (m : Assoc Bool) → ((v : String) → P v → has v m ≡ true) → Reaches P m m
  Reaches-refl P m h = record {
    grows = λ v g. g;
    starts = h;
    closed = λ u g. inl g;
    comes = λ u g. inl g;
  }

  Reaches-same :
      {P Q : String → Type 0} (m r : Assoc Bool)
      → ((v : String) → P v → Q v)
      → ((v : String) → Q v → P v)
      → Reaches P m r
      → Reaches Q m r
  Reaches-same m r pq qp b = record {
    grows = b.grows;
    starts = λ v h. b.starts v (qp v h);
    closed = b.closed;
    comes = λ u g. elim (b.comes u g) [ inl old ↦ inl old | inr (v, p, c) ↦ inr (v, pq v p, c) ];
  }

  Reaches-trans :
      (P Q R : String → Type 0) (m q r : Assoc Bool)
      → ((v : String) → P v → R v)
      → ((v : String) → Q v → R v)
      → ((v : String) → R v → P v ⊎ Q v)
      → Reaches P m q
      → Reaches Q q r
      → Reaches R m r
  Reaches-trans P Q R m q r pr qr split a b = record {
    grows = λ v g. b.grows v (a.grows v g);
    starts = λ v h. elim (split v h) [ inl p ↦ b.grows v (a.starts v p) | inr s ↦ b.starts v s ];
    closed = λ u g. elim (b.closed u g) [
      | inr new ↦ inr new
      | inl old ↦ elim (a.closed u old) [
        | inl older ↦ inl older
        | inr new ↦ inr (λ w e. b.grows w (new w e))
      ]
    ];
    comes = λ u g. elim (b.comes u g) [
      | inr (v, p, c) ↦ inr (v, qr v p, c)
      | inl old ↦ elim (a.comes u old) [
        | inl older ↦ inl older
        | inr (v, p, c) ↦ inr (v, pr v p, c)
      ]
    ];
  }

  walk_all-Reaches :
      (Q : String → Type 0) (walk : Walk)
      → ((id : String) (m r : Assoc Bool) → walk id m ≡ some r → Reaches (λ v. (id ≡ v) × Q v) m r)
      → (ids : List String) (m r : Assoc Bool) → walk_all walk ids m ≡ some r
      → Reaches (λ v. (contains ids v ≡ true) × Q v) m r
  unfolding walk_all
  walk_all-Reaches Q walk one [] m r e =
      subst (Reaches (λ v. (false ≡ true) × Q v) m) (some-injective e)
        (Reaches-refl _ m (λ v p. absurd (cc p.0)))
  walk_all-Reaches Q walk one (id ∷ ids) m r e = elim (Option-cases (walk id m)) [
    | inl stuck ↦ absurd (ground arith)
    | inr (q, first) ↦
        Reaches-trans _ _ _ m q r (λ v p. (ground (arith, eq_iff id v), p.1))
          (λ v p. (ground arith, p.1))
          (λ v p. elim (Bool-cases (str_eq id v)) [
            | inl is ↦ inl ((eq_iff id v).0 is, p.1)
            | inr other ↦ inr (ground arith, p.1)
          ])
          (one id m q first) (walk_all-Reaches Q walk one ids q r (ground arith))
  ]

  -- The marks of a node that is met for the first time, and of what lies below it.
  reach-below :
      (id : String) (m r : Assoc Bool)
      → Reaches (λ v. (contains (next_of nodes id) v ≡ true) × Unit) (insert id true m) r
      → Reaches (λ v. (id ≡ v) × Unit) m r
  reach-below id m r b = record {
    grows = λ v g. b.grows v (ground (arith, has-insert id v true m));
    starts = λ v p. b.grows v (ground (arith, has-insert id v true m, eq_iff id v, p.0));
    closed = λ u g. elim (b.closed u g) [
      | inr new ↦ inr new
      | inl old ↦ elim (Bool-cases (str_eq id u)) [
        | inl is ↦
            subst (λ x. (has x m ≡ true) ⊎ ((w : String) → Edge nodes x w → has w r ≡ true))
              ((eq_iff id u).0 is) (inr (λ w e. b.starts w (e, tt)))
        | inr other ↦ inl (ground (arith, has-insert id u true m))
      ]
    ];
    comes = λ u g. elim (b.comes u g) [
      | inr (v, p, inl same) ↦ inr (id, (refl, tt), inr (subst (Leads nodes id) same (direct p.0)))
      | inr (v, p, inr leads) ↦ inr (id, (refl, tt), inr (via p.0 leads))
      | inl old ↦ elim (Bool-cases (str_eq id u)) [
        | inl is ↦ inr (id, (refl, tt), inl ((eq_iff id u).0 is))
        | inr other ↦ inl (ground (arith, has-insert id u true m))
      ]
    ];
  }

  reach-Reaches :
      (fuel : ℕ) (id : String) (m r : Assoc Bool)
      → reach fuel nodes id m ≡ some r
      → Reaches (λ v. (id ≡ v) × Unit) m r
  unfolding reach
  reach-Reaches zero id m r e = absurd (cc e)
  reach-Reaches (suc fuel) id m r e = elim (Bool-cases (has id m)) [
    | inl known ↦
        subst (Reaches (λ v. (id ≡ v) × Unit) m) (some-injective (ground arith))
          (Reaches-refl _ m (λ v p. subst (λ x. has x m ≡ true) p.0 known))
    | inr new ↦ reach-below id m r (
        walk_all-Reaches (λ v. Unit) (reach fuel nodes) (reach-Reaches fuel) (next_of nodes id)
          (insert id true m) r (ground arith))
  ]

abbrev pub IsRoot : Ceg → String → Type 0
IsRoot ceg v = (contains ceg.order v ≡ true) × ((lookup_or v ceg.in_degree 0 == 0) ≡ true)

abbrev none_reached : Assoc Bool
none_reached = []

-- The loop over the nodes of the graph searches from the roots alone.
reachable_set-Reaches :
    (ceg : Ceg) (m : Assoc Bool)
    → reachable_set ceg ≡ some m
    → Reaches ceg.node_map (IsRoot ceg) none_reached m
unfolding reachable_set
reachable_set-Reaches ceg m e =
    walk_all-Reaches nodes Root _
      (λ id q r step. elim (Bool-cases (lookup_or id ceg.in_degree 0 == 0)) [
        | inl root ↦
            Reaches-same nodes q r (λ v p. (p.0, subst Root p.0 root)) (λ v p. (p.0, tt))
              (reach-Reaches nodes (search_fuel ceg) id q r (ground arith))
        | inr inner ↦
            subst (Reaches nodes (λ v. (id ≡ v) × Root v) q) (some-injective (ground arith)) (
              Reaches-refl nodes (λ v. (id ≡ v) × Root v) q
                (λ v p. absurd (not_root id v inner p.0 p.1)))
      ])
      ceg.order none_reached m e
  where
    nodes : Assoc CegNode
    nodes = ceg.node_map

    Root : String → Type 0
    Root v = (lookup_or v ceg.in_degree 0 == 0) ≡ true

    not_root : (id v : String) → (lookup_or id ceg.in_degree 0 == 0) ≡ false → id ≡ v → Root v → ⊥
    not_root id v inner same root = cc (inner, subst Root (sym same) root)

-- Marks that are closed under the edges hold what lies at the end of a path.
closed-Leads :
    (nodes : Assoc CegNode) (m : Assoc Bool)
    → ((u w : String) → has u m ≡ true → Edge nodes u w → has w m ≡ true)
    → {u v : String} → Leads nodes u v
    → has u m ≡ true
    → has v m ≡ true
closed-Leads nodes m h (direct e) g = h _ _ g e
closed-Leads nodes m h (via e p) g = closed-Leads nodes m h p (h _ _ g e)

-- The set that is computed holds exactly the ends of the paths that begin at a root: a node of
-- in-degree 0.
pub reachable_set_iff :
    (ceg : Ceg) (m : Assoc Bool) (v : String)
    → reachable_set ceg ≡ some m
    → (has v m ≡ true) ↔ ((root : String) × IsRoot ceg root × Comes ceg.node_map root v)
unfolding lookup
reachable_set_iff ceg m v e = (
  λ g. elim (b.comes v g) [ inl old ↦ absurd (cc old) | inr found ↦ found ],
  λ (root, is, c). elim c [
    | inl same ↦ subst (λ x. has x m ≡ true) same (b.starts root is)
    | inr leads ↦
        closed-Leads ceg.node_map m
          (λ u w g edge. elim (b.closed u g) [ inl old ↦ absurd (cc old) | inr next ↦ next w edge ])
          leads (b.starts root is)
  ],
)
  where
    b : Reaches ceg.node_map (IsRoot ceg) none_reached m
    b = reachable_set-Reaches ceg m e
