-- ===== src/Scheduler/Waves/Grouping.antt =====
-- Which nodes stand in which wave, by their colours.
use mathlib.Core.List.{foldl, Permᴰ}
use mathlib.Core.Bool.{Bool-set}
use mathlib.Core.Logic.{∥∥₁_elim}
use ai_workstation_core.Base.{
  String, List, [], ◌∷◌, ◌++◌, ℕ, zero, suc, ◌+◌, Bool, true, false, ◌||◌, ◌≡◌, refl, arith, str_eq,
  any, contains, map, Bool-cases, inl, inr, eq_iff, ◌∙◌, subst,
}
use ai_workstation_core.Base.Assoc.{Assoc, lookup}
use ai_workstation_core.Base.Sorting.{sort_strings, sort_strings-Perm}
use ai_workstation_core.Scheduler.Waves.{
  Conflicts, neighbours, colour_all, colour_of, max_colour, append_at, blank, group, colour_graph,
}
use ai_workstation_core.Scheduler.Waves.Colours.{
  IsSymmetric, IsIrreflexive, IsProper, colour_all-IsProper, colour_all-covers,
}

any-Permᴰ : (p : String → Bool) {xs ys : List String} → Permᴰ xs ys → any p xs ≡ any p ys
any-Permᴰ p Permᴰ.nil = refl
any-Permᴰ p (Permᴰ.cons e q) = cc (any-Permᴰ p q)
any-Permᴰ p (Permᴰ.swap e f) = ground arith
any-Permᴰ p (Permᴰ.trans q r) = any-Permᴰ p q ∙ any-Permᴰ p r

contains-sort_strings :
    (xs : List String) (a : String) → contains (sort_strings xs) a ≡ contains xs a
contains-sort_strings xs a =
    ∥∥₁_elim (sort_strings-Perm xs) (Bool-set _ _) (any-Permᴰ (λ e. str_eq e a))

contains-append :
    (xs ys : List String) (a : String) → contains (xs ++ ys) a ≡ (contains xs a || contains ys a)
contains-append [] ys a = refl
contains-append (x ∷ xs) ys a = ground (arith, contains-append xs ys a)

-- A property of each wave and its index.
abbrev AllAt : (ℕ → List String → Type 0) → ℕ → List (List String) → Type 0
AllAt P i [] = Unit
AllAt P i (w ∷ ws) = P i w × AllAt P (i + 1) ws

module _ (nodes : List String) (colours : Assoc ℕ) where
  -- The nodes of wave `i` are nodes of colour `i`.
  abbrev Coloured : ℕ → List String → Type 0
  Coloured i w =
      (a : String) → contains w a ≡ true → (colour_of colours a ≡ i) × (contains nodes a ≡ true)

  blank-Coloured : (k i : ℕ) → AllAt Coloured i (blank k)
  blank-Coloured zero i = tt
  blank-Coloured (suc k) i = (λ a h. absurd (ground arith), blank-Coloured k (i + 1))

  Coloured-snoc :
      (w : List String) (i : ℕ) (n : String)
      → colour_of colours n ≡ i
      → contains nodes n ≡ true
      → Coloured i w
      → Coloured i (w ++ n ∷ [])
  Coloured-snoc w i n c m h a k = elim (Bool-cases (contains w a)) [
    | inl old ↦ h a old
    | inr new ↦
        subst (λ x. (colour_of colours x ≡ i) × (contains nodes x ≡ true))
          ((eq_iff n a).0 (ground (arith, contains-append w (n ∷ []) a))) (c, m)
  ]

  append_at-Coloured :
      (ws : List (List String)) (i k : ℕ) (n : String)
      → colour_of colours n ≡ i + k
      → contains nodes n ≡ true
      → AllAt Coloured i ws
      → AllAt Coloured i (append_at ws k n)
  unfolding append_at
  append_at-Coloured [] i k n c m h = tt
  append_at-Coloured (w ∷ ws) i zero n c m h = (Coloured-snoc w i n (omega arith) m h.0, h.1)
  append_at-Coloured (w ∷ ws) i (suc k) n c m h =
      (h.0, append_at-Coloured ws (i + 1) k n (omega arith) m h.1)

  group_from-Coloured :
      (ws : List (List String)) (more : List String)
      → ((a : String) → contains more a ≡ true → contains nodes a ≡ true)
      → AllAt Coloured 0 ws
      → AllAt Coloured 0 (foldl (λ waves n. append_at waves (colour_of colours n) n) ws more)
  group_from-Coloured ws [] sub h = h
  group_from-Coloured ws (n ∷ more) sub h =
      group_from-Coloured (append_at ws (colour_of colours n) n) more (λ a k. sub a (ground arith))
        (append_at-Coloured ws 0 (colour_of colours n) n (omega arith)
          (sub n (ground (arith, eq_iff n n))) h)

  group-Coloured : AllAt Coloured 0 (group colours nodes)
  unfolding group
  group-Coloured =
      group_from-Coloured (blank (max_colour colours + 1)) nodes (λ a h. h) (blank-Coloured _ 0)

-- No two nodes of the wave are in conflict.
abbrev pub ConflictFree : Conflicts → List String → Type 0
ConflictFree conflicts w =
    (a b : String)
    → contains w a ≡ true
    → contains w b ≡ true
    → contains (neighbours conflicts a) b ≡ false

abbrev pub AllWaves : (List String → Type 0) → List (List String) → Type 0
AllWaves P [] = Unit
AllWaves P (w ∷ ws) = P w × AllWaves P ws

sorted-ConflictFree :
    (conflicts : Conflicts) (w : List String)
    → ConflictFree conflicts w
    → ConflictFree conflicts (sort_strings w)
sorted-ConflictFree conflicts w free a b ha hb =
    free a b (rw (contains-sort_strings w a) at ha) (rw (contains-sort_strings w b) at hb)

module _ (conflicts : Conflicts) (nodes : List String) where
  abbrev final : Assoc ℕ
  final = colour_all conflicts [] nodes

  Coloured-ConflictFree :
      (i : ℕ) (w : List String)
      → IsProper conflicts final
      → Coloured nodes final i w
      → ConflictFree conflicts w
  Coloured-ConflictFree i w proper coloured a b ha hb = ground (
    arith,
    proper a b i i,
    coloured a,
    coloured b,
    colour_all-covers conflicts [] nodes a,
    colour_all-covers conflicts [] nodes b,
  )

  waves-ConflictFree :
      (i : ℕ) (ws : List (List String))
      → IsProper conflicts final
      → AllAt (Coloured nodes final) i ws
      → AllWaves (ConflictFree conflicts) (map sort_strings ws)
  waves-ConflictFree i [] proper h = tt
  waves-ConflictFree i (w ∷ ws) proper h = (
    sorted-ConflictFree conflicts w (Coloured-ConflictFree i w proper h.0),
    waves-ConflictFree (i + 1) ws proper h.1,
  )

no_colours-IsProper : (conflicts : Conflicts) → IsProper conflicts []
unfolding lookup
no_colours-IsProper conflicts a b c d h la lb = cc

-- No wave of the colouring holds two nodes in conflict, if the conflicts go both ways and no node is
-- in conflict with itself.
pub colour_graph-ConflictFree :
    (nodes : List String) (conflicts : Conflicts)
    → IsSymmetric conflicts
    → IsIrreflexive conflicts
    → AllWaves (ConflictFree conflicts) (colour_graph nodes conflicts)
unfolding colour_graph
colour_graph-ConflictFree nodes conflicts symmetric loopless =
    let sorted = sort_strings nodes in
    waves-ConflictFree conflicts sorted 0 (group (colour_all conflicts [] sorted) sorted)
      (colour_all-IsProper conflicts symmetric loopless [] sorted (no_colours-IsProper conflicts))
      (group-Coloured sorted (colour_all conflicts [] sorted))

waves-members :
    (nodes : List String) (colours : Assoc ℕ) (i : ℕ) (ws : List (List String))
    → AllAt (Coloured nodes colours) i ws
    → AllWaves
        (λ w. (a : String) → contains w a ≡ true → contains nodes a ≡ true)
        (map sort_strings ws)
waves-members nodes colours i [] h = tt
waves-members nodes colours i (w ∷ ws) h = (
  λ a k. (h.0 a (rw (contains-sort_strings w a) at k)).1,
  waves-members nodes colours (i + 1) ws h.1,
)

members_unsorted :
    (nodes : List String) (ws : List (List String))
    → AllWaves (λ w. (a : String) → contains w a ≡ true → contains (sort_strings nodes) a ≡ true) ws
    → AllWaves (λ w. (a : String) → contains w a ≡ true → contains nodes a ≡ true) ws
members_unsorted nodes [] h = tt
members_unsorted nodes (w ∷ ws) h =
    (λ a k. rw (contains-sort_strings nodes a) at (h.0 a k), members_unsorted nodes ws h.1)

pub colour_graph-members :
    (nodes : List String) (conflicts : Conflicts)
    → AllWaves
        (λ w. (a : String) → contains w a ≡ true → contains nodes a ≡ true)
        (colour_graph nodes conflicts)
unfolding colour_graph
colour_graph-members nodes conflicts =
    let sorted = sort_strings nodes in
    let colours = colour_all conflicts [] sorted in
    members_unsorted nodes _
      (waves-members sorted colours 0 (group colours sorted) (group-Coloured sorted colours))
