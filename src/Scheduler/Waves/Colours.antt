-- ===== src/Scheduler/Waves/Colours.antt =====
-- The colouring of a list of nodes: the search for a free colour, and the colours of nodes in
-- conflict.
use ai_workstation_core.Base.{
  String, List, [], ◌∷◌, some, ℕ, zero, suc, ◌+◌, ◌≤◌, ◌<◌, true, false, ◌≡◌, ◌≢◌, refl, arith,
  if◌then◌else◌, leb, str_eq, contains, length, Bool-cases, inl, inr, subst, eq_iff,
}
use ai_workstation_core.Base.Assoc.{Assoc, has, lookup, lookup-insert}
use ai_workstation_core.Scheduler.Waves.{
  Conflicts, neighbours, used_colours, is_used, first_free, colour_node, colour_all,
}

-- How many used colours are at least `c`.
abbrev from : List ℕ → ℕ → ℕ
from [] c = 0
from (u ∷ used) c = if leb c u then suc (from used c) else from used c

from-suc : (used : List ℕ) (c : ℕ) → from used (c + 1) ≤ from used c
from-suc [] c = omega arith
from-suc (u ∷ used) c = ground (arith, from-suc used c)

from-used : (used : List ℕ) (c : ℕ) → is_used used c ≡ true → from used (c + 1) < from used c
from-used [] c h = cc
from-used (u ∷ used) c h = ground (arith, from-used used c, from-suc used c)

from-le-length : (used : List ℕ) (c : ℕ) → from used c ≤ length used
from-le-length [] c = omega arith
from-le-length (u ∷ used) c = ground (arith, from-le-length used c)

from_zero : (used : List ℕ) (c : ℕ) → from used c ≡ 0 → is_used used c ≡ false
from_zero [] c h = refl
from_zero (u ∷ used) c h = ground (arith, from_zero used c)

-- Fuel for the used colours from `c` on is enough.
first_free-unused_from :
    (fuel : ℕ) (used : List ℕ) (c : ℕ)
    → from used c ≤ fuel
    → is_used used (first_free fuel used c) ≡ false
unfolding first_free
first_free-unused_from zero used c h = from_zero used c (omega arith)
first_free-unused_from (suc fuel) used c h =
    ground (arith, from-used used c, first_free-unused_from fuel used (c + 1))

-- The search finds a colour that is not in use, within as many rounds as there are colours in use.
pub first_free-unused : (used : List ℕ) → is_used used (first_free (length used) used 0) ≡ false
first_free-unused used = first_free-unused_from (length used) used 0 (from-le-length used 0)

used_colours-has :
    (colours : Assoc ℕ) (ns : List String) (b : String) (c : ℕ)
    → contains ns b ≡ true
    → lookup b colours ≡ some c
    → is_used (used_colours colours ns) c ≡ true
unfolding used_colours
used_colours-has colours [] b c h found = cc
used_colours-has colours (n ∷ ns) b c h found =
    ground (arith, eq_iff n b, used_colours-has colours ns b c)

-- Conflicts go both ways, and no node is its own neighbour.
abbrev pub IsSymmetric : Conflicts → Type 0
IsSymmetric conflicts =
    (a b : String)
    → contains (neighbours conflicts a) b ≡ true
    → contains (neighbours conflicts b) a ≡ true

abbrev pub IsIrreflexive : Conflicts → Type 0
IsIrreflexive conflicts = (a : String) → contains (neighbours conflicts a) a ≡ false

-- Two different coloured nodes in conflict have different colours.
abbrev pub IsProper : Conflicts → Assoc ℕ → Type 0
IsProper conflicts colours =
    (a b : String) (c d : ℕ)
    → contains (neighbours conflicts a) b ≡ true
    → lookup a colours ≡ some c
    → lookup b colours ≡ some d
    → c ≢ d

module _ (conflicts : Conflicts) (symmetric : IsSymmetric conflicts)
    (loopless : IsIrreflexive conflicts) where
  colour_node-IsProper :
      (colours : Assoc ℕ) (n : String)
      → IsProper conflicts colours
      → IsProper conflicts (colour_node conflicts colours n)
  unfolding colour_node
  colour_node-IsProper colours n proper a b c d h la lb =
      let used = used_colours colours (neighbours conflicts n) in
      let k = first_free (length used) used 0 in
      ground (
        arith,
        lookup-insert n a k colours,
        lookup-insert n b k colours,
        eq_iff n a,
        eq_iff n b,
        loopless n,
        symmetric a b,
        proper a b c d,
        first_free-unused used,
        used_colours-has colours (neighbours conflicts n) a c,
        used_colours-has colours (neighbours conflicts n) b d,
      )

  pub colour_all-IsProper :
      (colours : Assoc ℕ) (nodes : List String)
      → IsProper conflicts colours
      → IsProper conflicts (colour_all conflicts colours nodes)
  unfolding colour_all
  colour_all-IsProper colours [] proper = proper
  colour_all-IsProper colours (n ∷ nodes) proper =
      colour_all-IsProper (colour_node conflicts colours n) nodes
        (colour_node-IsProper colours n proper)

-- A colour, once given, may change but is not taken away, and every node of the list gets one.
colour_node-keeps :
    (conflicts : Conflicts) (colours : Assoc ℕ) (n a : String)
    → has a colours ≡ true
    → has a (colour_node conflicts colours n) ≡ true
unfolding colour_node
colour_node-keeps conflicts colours n a h =
    let used = used_colours colours (neighbours conflicts n) in
    ground (arith, lookup-insert n a (first_free (length used) used 0) colours)

colour_node_self :
    (conflicts : Conflicts) (colours : Assoc ℕ) (n : String)
    → has n (colour_node conflicts colours n) ≡ true
unfolding colour_node
colour_node_self conflicts colours n =
    let used = used_colours colours (neighbours conflicts n) in
    ground (arith, lookup-insert n n (first_free (length used) used 0) colours, eq_iff n n)

colour_all-keeps :
    (conflicts : Conflicts) (colours : Assoc ℕ) (nodes : List String) (a : String)
    → has a colours ≡ true
    → has a (colour_all conflicts colours nodes) ≡ true
unfolding colour_all
colour_all-keeps conflicts colours [] a h = h
colour_all-keeps conflicts colours (n ∷ nodes) a h =
    colour_all-keeps conflicts (colour_node conflicts colours n) nodes a
      (colour_node-keeps conflicts colours n a h)

pub colour_all-covers :
    (conflicts : Conflicts) (colours : Assoc ℕ) (nodes : List String) (a : String)
    → contains nodes a ≡ true
    → has a (colour_all conflicts colours nodes) ≡ true
unfolding colour_all
colour_all-covers conflicts colours [] a h = cc
colour_all-covers conflicts colours (n ∷ nodes) a h = elim (Bool-cases (str_eq n a)) [
  | inl same ↦
      subst (λ x. has x (colour_all conflicts colours (n ∷ nodes)) ≡ true) ((eq_iff n a).0 same)
        (colour_all-keeps conflicts (colour_node conflicts colours n) nodes n
          (colour_node_self conflicts colours n))
  | inr ne ↦ colour_all-covers conflicts (colour_node conflicts colours n) nodes a (ground arith)
]
