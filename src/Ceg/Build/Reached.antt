-- ===== src/Ceg/Build/Reached.antt =====
-- What the check V-002 of mek/internal/ceg/builder.go gives: the paths from the roots.
use ai_workstation_core.Base.{
  String, List, [], ◌∷◌, some, ℕ, zero, suc, ◌+◌, ◌<◌, ◌≤◌, Bool, true, false, ◌≡◌, inl, inr, arith,
  subst, str_eq, eq_iff, contains, length, if_rule, Bool-cases, Option-cases,
}
use ai_workstation_core.Base.Assoc.{
  Assoc, lookup, insert, has, remove, lookup-remove, IsMap, insert-IsMap,
}
use ai_workstation_core.Types.Rir.{Rir}
use ai_workstation_core.Types.Graph.{CegNode, Ceg}
use ai_workstation_core.Ceg.Search.{next_of, Walk, walk_all, reach, reachable_set, search_fuel}
use ai_workstation_core.Ceg.Search.Cycles.{Edge, Leads, direct, via, some-injective}
use ai_workstation_core.Ceg.Search.Reached.{Comes, IsRoot, reachable_set_iff}
use ai_workstation_core.Ceg.Build.{built, build}
use ai_workstation_core.Ceg.Build.Laws.{build-WellBuilt}

-- The marks of a search are a map.
walk_all-IsMap :
    (walk : Walk)
    → ((id : String) (m r : Assoc Bool) → walk id m ≡ some r → IsMap m → IsMap r)
    → (ids : List String) (m r : Assoc Bool) → walk_all walk ids m ≡ some r
    → IsMap m
    → IsMap r
unfolding walk_all
walk_all-IsMap walk one [] m r e d = subst IsMap (some-injective e) d
walk_all-IsMap walk one (id ∷ ids) m r e d = elim (Option-cases (walk id m)) [
  | inl stuck ↦ absurd (ground arith)
  | inr (q, first) ↦ walk_all-IsMap walk one ids q r (ground arith) (one id m q first d)
]

reach-IsMap :
    (nodes : Assoc CegNode) (fuel : ℕ) (id : String) (m r : Assoc Bool)
    → reach fuel nodes id m ≡ some r
    → IsMap m
    → IsMap r
unfolding reach
reach-IsMap nodes zero id m r e d = absurd (cc e)
reach-IsMap nodes (suc fuel) id m r e d = elim (Bool-cases (has id m)) [
  | inl known ↦ subst IsMap (some-injective (ground arith)) d
  | inr new ↦
      walk_all-IsMap (reach fuel nodes) (reach-IsMap nodes fuel) (next_of nodes id)
        (insert id true m) r (ground arith) (insert-IsMap id true m d)
]

reachable_set-IsMap : (ceg : Ceg) (m : Assoc Bool) → reachable_set ceg ≡ some m → IsMap m
unfolding reachable_set
reachable_set-IsMap ceg m e =
    walk_all-IsMap _
      (λ id q r step d. ground (arith, reach-IsMap ceg.node_map (search_fuel ceg) id q r)) ceg.order
      [] m e tt

remove-missing : (x : String) (m : Assoc Bool) → has x m ≡ false → length (remove x m) ≡ length m
unfolding remove lookup
remove-missing x [] h = ground arith
remove-missing x ((k, v) ∷ m) h = ground (arith, remove-missing x m)

length-remove : (x : String) (m : Assoc Bool) → IsMap m → length m ≤ length (remove x m) + 1
unfolding remove
length-remove x [] d = ground arith
length-remove x ((k, v) ∷ m) d =
    ground (arith, length-remove x m d.1, remove-missing x m, eq_iff k x, d.0)

has-remove :
    (x y : String) (m : Assoc Bool)
    → has y (remove x m) ≡ true
    → (str_eq x y ≡ false) × (has y m ≡ true)
has-remove x y m h = ground (arith, lookup-remove x y m)

remove-IsMap : (x : String) (m : Assoc Bool) → IsMap m → IsMap (remove x m)
unfolding remove
remove-IsMap x [] d = tt
remove-IsMap x ((k, v) ∷ m) d =
    if_rule IsMap (str_eq k x) (λ _. remove-IsMap x m d.1)
      (λ _. (ground (arith, lookup-remove x k m, d.0), remove-IsMap x m d.1))

-- All the keys stand in the list.
abbrev Within : Assoc Bool → List String → Type 0
Within m ids = (v : String) → has v m ≡ true → contains ids v ≡ true

remove-Within :
    (x : String) (ids : List String) (m : Assoc Bool) → Within m (x ∷ ids) → Within (remove x m) ids
remove-Within x ids m h v g = let (differ, old) = has-remove x v m g in ground (arith, h v old)

-- Distinct keys of a list are not more than it has elements.
Within-length :
    (ids : List String) (m : Assoc Bool) → IsMap m → Within m ids → length m ≤ length ids
unfolding lookup
Within-length [] [] d h = ground arith
Within-length [] ((k, v) ∷ m) d h = absurd (ground (arith, h k, eq_iff k k))
Within-length (x ∷ ids) m d h = ground (
  arith,
  length-remove x m d,
  Within-length ids (remove x m) (remove-IsMap x m d) (remove-Within x ids m h),
)

-- They are fewer, if an element is no key.
missing-length :
    (ids : List String) (m : Assoc Bool) (v : String)
    → IsMap m
    → Within m ids
    → contains ids v ≡ true
    → has v m ≡ false
    → length m < length ids
missing-length [] m v d h is missing = absurd (cc is)
missing-length (x ∷ ids) m v d h is missing = elim (Bool-cases (str_eq x v)) [
  | inl same ↦
      let fits = Within-length ids m d (λ k g. ground (arith, h k g, eq_iff x v, eq_iff x k)) in
      ground arith
  | inr differ ↦ ground (
    arith,
    length-remove x m d,
    missing-length ids (remove x m) v (remove-IsMap x m d) (remove-Within x ids m h) (ground arith)
        (ground (arith, lookup-remove x v m)),
  )
]

-- Every edge leads to a node of the graph.
abbrev pub LeadsToNodes : Ceg → Type 0
LeadsToNodes ceg = (u w : String) → Edge ceg.node_map u w → contains ceg.order w ≡ true

Leads-is_node :
    (ceg : Ceg)
    → LeadsToNodes ceg
    → {u v : String} → Leads ceg.node_map u v
    → contains ceg.order v ≡ true
Leads-is_node ceg h (direct e) = h _ _ e
Leads-is_node ceg h (via e p) = Leads-is_node ceg h p

reached-Within :
    (ceg : Ceg) (m : Assoc Bool)
    → LeadsToNodes ceg
    → reachable_set ceg ≡ some m
    → Within m ceg.order
reached-Within ceg m h e v g =
    let (root, is, c) = (reachable_set_iff ceg m v e).0 g in
    elim c [
      | inl same ↦ subst (λ x. contains ceg.order x ≡ true) same is.0
      | inr leads ↦ Leads-is_node ceg h leads
    ]

-- If every edge of a graph that `Build` answers leads to a node of the graph, each of its nodes is a
-- root (a node of in-degree 0) or lies at the end of a path along the edges from one.
pub build-Reached :
    (rir : Rir) (g : Ceg)
    → build rir ≡ built g
    → LeadsToNodes g
    → (id : String) → contains g.order id ≡ true
    → (root : String) × IsRoot g root × Comes g.node_map root id
build-Reached rir g h leads id is =
    let (acyclic, degree, depth, m, found, all_reached) = build-WellBuilt rir g h in
    elim (Bool-cases (has id m)) [
      | inl reached ↦ (reachable_set_iff g m id found).0 reached
      | inr missed ↦
          let fewer =
            missing-length g.order m id (reachable_set-IsMap g m found)
              (reached-Within g m leads found) is missed in
          absurd (omega arith)
    ]
