-- ===== src/Scheduler/Waves/Links.antt =====
-- `buildConflictGraph`: which pairs of nodes the double loop links.
use mathlib.Core.List.{foldl}
use ai_workstation_core.Base.{
  String, List, [], ◌∷◌, Bool, true, false, ◌&&◌, ◌||◌, ◌≡◌, refl, arith, str_eq, any, contains,
  eq_iff, if_rule,
}
use ai_workstation_core.Base.Assoc.{Assoc, keys, lookup, insert, lookup_or, lookup-insert}
use ai_workstation_core.Types.Rir.{Rir}
use ai_workstation_core.Scheduler.Waves.{
  Conflicts, neighbours, add_conflict, clash, link, link_all, build_conflict_graph,
}

-- Is the second node a neighbour of the first?
abbrev pub linked : Conflicts → String → String → Bool
linked c x y = contains (neighbours c x) y

keys-insert :
    (b y : String) (v : Bool) (m : Assoc Bool)
    → contains (keys (insert b v m)) y ≡ (str_eq b y || contains (keys m) y)
unfolding insert
keys-insert b y v [] = refl
keys-insert b y v ((j, w) ∷ m) =
    ground (arith, eq_iff j b, eq_iff b y, eq_iff j y, keys-insert b y v m)

linked-add_conflict :
    (a b x y : String) (c : Conflicts)
    → linked (add_conflict a b c) x y ≡ (str_eq a x && str_eq b y || linked c x y)
unfolding add_conflict
linked-add_conflict a b x y c = ground (
  arith,
  lookup-insert a x (insert b true (lookup_or a c [])) c,
  eq_iff a x,
  keys-insert b y true (lookup_or a c []),
)

abbrev is_pair : String → String → String → String → Bool
is_pair a b x y = str_eq a x && str_eq b y || str_eq b x && str_eq a y

linked-link :
    (rir : Rir) (c : Conflicts) (a b x y : String)
    → linked (link rir c a b) x y ≡ (clash rir a b && is_pair a b x y || linked c x y)
unfolding link
linked-link rir c a b x y =
    if_rule (λ (d : Conflicts). linked d x y ≡ (clash rir a b && is_pair a b x y || linked c x y))
      (clash rir a b)
      (λ yes_.
        rw (yes_, linked-add_conflict b a x y (add_conflict a b c), linked-add_conflict a b x y c)
          (regroup (str_eq a x && str_eq b y) (str_eq b x && str_eq a y) (linked c x y)))
      (λ no_. rw no_)
  where
    regroup : (p q r : Bool) → (q || (p || r)) ≡ ((p || q) || r)
    regroup p q r = ground arith

-- The pairs of a node with the later ones, and of all nodes of a layer.
abbrev pub pairs_with : Rir → String → List String → String → String → Bool
pairs_with rir a later x y = any (λ b. clash rir a b && is_pair a b x y) later

abbrev pub pairs : Rir → List String → String → String → Bool
pairs rir [] x y = false
pairs rir (a ∷ later) x y = pairs_with rir a later x y || pairs rir later x y

linked-row :
    (rir : Rir) (c : Conflicts) (a : String) (later : List String) (x y : String)
    → linked (foldl (λ d b. link rir d a b) c later) x y
      ≡ (pairs_with rir a later x y || linked c x y)
linked-row rir c a [] x y = refl
linked-row rir c a (b ∷ later) x y =
    rw (linked-row rir (link rir c a b) a later x y, linked-link rir c a b x y)
      (rotate (clash rir a b && is_pair a b x y) (pairs_with rir a later x y) (linked c x y))
  where
    rotate : (p q r : Bool) → (q || (p || r)) ≡ ((p || q) || r)
    rotate p q r = ground arith

linked-link_all :
    (rir : Rir) (c : Conflicts) (layer : List String) (x y : String)
    → linked (link_all rir c layer) x y ≡ (pairs rir layer x y || linked c x y)
unfolding link_all
linked-link_all rir c [] x y = refl
linked-link_all rir c (a ∷ later) x y =
    rw
      (
        linked-link_all rir (foldl (λ d b. link rir d a b) c later) later x y,
        linked-row rir c a later x y,
      )
      (turn (pairs_with rir a later x y) (pairs rir later x y) (linked c x y))
  where
    turn : (p q r : Bool) → (q || (p || r)) ≡ ((p || q) || r)
    turn p q r = ground arith

linked-blank :
    (c : Conflicts) (layer : List String) (x y : String)
    → linked c x y ≡ false
    → linked (foldl (λ d id. insert id [] d) c layer) x y ≡ false
linked-blank c [] x y h = h
linked-blank c (id ∷ layer) x y h =
    linked-blank (insert id [] c) layer x y (ground (arith, lookup-insert id x [] c))

-- The conflict graph links exactly the clashing pairs of the layer.
pub linked-build :
    (layer : List String) (rir : Rir) (x y : String)
    → linked (build_conflict_graph layer rir) x y ≡ pairs rir layer x y
unfolding build_conflict_graph lookup
linked-build layer rir x y =
    rw
      (
        linked-link_all rir (foldl (λ d id. insert id [] d) [] layer) layer x y,
        linked-blank [] layer x y refl,
      )
      (right_false (pairs rir layer x y))
  where
    right_false : (p : Bool) → (p || false) ≡ p
    right_false p = ground arith
