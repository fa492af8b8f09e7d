-- ===== src/Scheduler/Waves/Partition.antt =====
-- The waves of a layer and the layer, as lists up to their order.
use mathlib.Core.List.{foldl, flatten, Perm, perm_middle, append-nil, append_assoc}
use mathlib.Core.List.Perm
use ai_workstation_core.Base.{
  String, List, [], ◌∷◌, ◌++◌, ℕ, zero, suc, ◌+◌, ◌≤◌, ◌<◌, ◌≡◌, refl, arith, map, length, ap,
  subst,
}
use ai_workstation_core.Base.Assoc.{Assoc, lookup}
use ai_workstation_core.Base.Sorting.{sort_strings, sort_strings-Perm}
use ai_workstation_core.Scheduler.Waves.{
  Conflicts, colour_all, colour_of, max_colour, append_at, blank, group, colour_graph,
}

colour-le-max : (colours : Assoc ℕ) (n : String) → colour_of colours n ≤ max_colour colours
unfolding max_colour lookup
colour-le-max [] n = omega arith
colour-le-max ((m, c) ∷ colours) n = ground (arith, colour-le-max colours n)

length-append_at :
    (ws : List (List String)) (i : ℕ) (n : String) → length (append_at ws i n) ≡ length ws
unfolding append_at
length-append_at [] i n = refl
length-append_at (w ∷ ws) zero n = refl
length-append_at (w ∷ ws) (suc i) n = ap suc (length-append_at ws i n)

length-blank : (k : ℕ) → length (blank k) ≡ k
length-blank zero = refl
length-blank (suc k) = ap suc (length-blank k)

flatten-blank : (k : ℕ) → flatten (blank k) ≡ []
unfolding flatten
flatten-blank zero = refl
flatten-blank (suc k) = flatten-blank k

append_at-Perm :
    (ws : List (List String)) (i : ℕ) (n : String)
    → i < length ws
    → Perm (flatten (append_at ws i n)) (n ∷ flatten ws)
unfolding append_at flatten
append_at-Perm [] i n h = absurd (omega arith)
append_at-Perm (w ∷ ws) zero n h = rw append_assoc (perm_middle w (flatten ws))
append_at-Perm (w ∷ ws) (suc i) n h =
    Perm.trans (Perm.append_left w (append_at-Perm ws i n (omega arith)))
      (perm_middle w (flatten ws))

group_from-Perm :
    (colours : Assoc ℕ) (ws : List (List String)) (nodes : List String)
    → max_colour colours < length ws
    → Perm
        (flatten (foldl (λ waves n. append_at waves (colour_of colours n) n) ws nodes))
        (flatten ws ++ nodes)
group_from-Perm colours ws [] h = rw append-nil (Perm.refl _)
group_from-Perm colours ws (n ∷ nodes) h =
    let ws' = append_at ws (colour_of colours n) n in
    Perm.trans
      (group_from-Perm colours ws' nodes
        (omega (arith, length-append_at ws (colour_of colours n) n)))
      (Perm.trans
        (Perm.append_right nodes
          (append_at-Perm ws (colour_of colours n) n (omega (arith, colour-le-max colours n))))
        (Perm.symm (perm_middle (flatten ws) nodes)))

group-Perm : (colours : Assoc ℕ) (nodes : List String) → Perm (flatten (group colours nodes)) nodes
unfolding group
group-Perm colours nodes =
    let k = max_colour colours + 1 in
    subst (λ (l : List String). Perm (flatten (group colours nodes)) (l ++ nodes)) (flatten-blank k)
      (group_from-Perm colours (blank k) nodes (omega (arith, length-blank k)))

flatten-sorted-Perm : (ws : List (List String)) → Perm (flatten (map sort_strings ws)) (flatten ws)
unfolding flatten
flatten-sorted-Perm [] = Perm.refl []
flatten-sorted-Perm (w ∷ ws) = Perm.append (sort_strings-Perm w) (flatten-sorted-Perm ws)

-- The waves of a layer hold every node of the layer, each as often as the layer does, and no other.
pub colour_graph-Perm :
    (nodes : List String) (conflicts : Conflicts)
    → Perm (flatten (colour_graph nodes conflicts)) nodes
unfolding colour_graph
colour_graph-Perm nodes conflicts =
    let sorted = sort_strings nodes in
    Perm.trans (flatten-sorted-Perm (group (colour_all conflicts [] sorted) sorted))
      (Perm.trans (group-Perm (colour_all conflicts [] sorted) sorted) (sort_strings-Perm nodes))
