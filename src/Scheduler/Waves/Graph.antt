-- ===== src/Scheduler/Waves/Graph.antt =====
-- The conflict graph: which pairs it links, and what that makes of the waves of a layer.
use mathlib.Core.Bool.{false≢true}
use ai_workstation_core.Base.{
  String, List, [], ◌∷◌, Bool, true, false, ◌&&◌, ◌||◌, ◌≡◌, refl, arith, str_eq, contains,
  Bool-cases, inl, inr, eq_iff, ◌∙◌, subst, sym, eq_refl,
}
use ai_workstation_core.Types.Rir.{Rir}
use ai_workstation_core.Scheduler.Waves.{clash, build_conflict_graph, colour_graph}
use ai_workstation_core.Scheduler.Waves.Colours.{IsSymmetric, IsIrreflexive}
use ai_workstation_core.Scheduler.Waves.Grouping.{
  ConflictFree, AllWaves, colour_graph-ConflictFree, colour_graph-members,
}
use ai_workstation_core.Scheduler.Waves.Links.{pairs_with, pairs, linked-build}
use ai_workstation_core.Scheduler.Waves.Overlap.{clash_sym}

pairs_with-sym :
    (rir : Rir) (a : String) (later : List String) (x y : String)
    → pairs_with rir a later x y ≡ pairs_with rir a later y x
pairs_with-sym rir a [] x y = refl
pairs_with-sym rir a (b ∷ later) x y =
    rw (pairs_with-sym rir a later x y)
      (flip (clash rir a b) (str_eq a x) (str_eq b y) (str_eq b x) (str_eq a y) _)
  where
    flip :
        (c p q r s t : Bool) → ((c && (p && q || r && s)) || t) ≡ ((c && (s && r || q && p)) || t)
    flip c p q r s t = ground arith

pairs-sym :
    (rir : Rir) (layer : List String) (x y : String) → pairs rir layer x y ≡ pairs rir layer y x
pairs-sym rir [] x y = refl
pairs-sym rir (a ∷ later) x y = rw (pairs_with-sym rir a later x y, pairs-sym rir later x y)

-- Identifiers without a repetition.
abbrev pub IsDistinct : List String → Type 0
IsDistinct [] = Unit
IsDistinct (a ∷ l) = (contains l a ≡ false) × IsDistinct l

pairs_with_self :
    (rir : Rir) (a : String) (later : List String) (x : String)
    → contains later a ≡ false
    → pairs_with rir a later x x ≡ false
pairs_with_self rir a [] x h = refl
pairs_with_self rir a (b ∷ later) x h =
    ground (arith, pairs_with_self rir a later x, eq_iff a x, eq_iff b x, eq_iff b a)

pairs_self :
    (rir : Rir) (layer : List String) (x : String) → IsDistinct layer → pairs rir layer x x ≡ false
pairs_self rir [] x h = refl
pairs_self rir (a ∷ later) x h =
    ground (arith, pairs_with_self rir a later x h.0, pairs_self rir later x h.1)

pub build-IsSymmetric :
    (layer : List String) (rir : Rir) → IsSymmetric (build_conflict_graph layer rir)
build-IsSymmetric layer rir a b h =
    linked-build layer rir b a ∙ pairs-sym rir layer b a ∙ sym (linked-build layer rir a b) ∙ h

pub build-IsIrreflexive :
    (layer : List String) (rir : Rir)
    → IsDistinct layer
    → IsIrreflexive (build_conflict_graph layer rir)
build-IsIrreflexive layer rir h a = linked-build layer rir a a ∙ pairs_self rir layer a h

pairs_with-has :
    (rir : Rir) (a : String) (later : List String) (b : String)
    → contains later b ≡ true
    → clash rir a b ≡ true
    → pairs_with rir a later a b ≡ true
pairs_with-has rir a [] b h k = cc
pairs_with-has rir a (c ∷ later) b h k = elim (Bool-cases (str_eq c b)) [
  | inl same ↦
      subst (λ z. pairs_with rir a (z ∷ later) a b ≡ true) (sym ((eq_iff c b).0 same))
        (rw (k, eq_refl a, eq_refl b))
  | inr ne ↦ ground (arith, pairs_with-has rir a later b)
]

pairs-head :
    (rir : Rir) (c : String) (later : List String) (a b : String)
    → str_eq c a ≡ true
    → contains later b ≡ true
    → clash rir a b ≡ true
    → pairs rir (c ∷ later) a b ≡ true
pairs-head rir c later a b same hb k =
    subst (λ z. pairs rir (z ∷ later) a b ≡ true) (sym ((eq_iff c a).0 same))
      (ground (arith, pairs_with-has rir a later b))

pairs-has :
    (rir : Rir) (layer : List String) (a b : String)
    → contains layer a ≡ true
    → contains layer b ≡ true
    → str_eq a b ≡ false
    → clash rir a b ≡ true
    → pairs rir layer a b ≡ true
pairs-has rir [] a b ha hb ne k = cc
pairs-has rir (c ∷ later) a b ha hb ne k = elim (Bool-cases (str_eq c a)) [
  | inl is_a ↦ pairs-head rir c later a b is_a (ground (arith, eq_iff c a)) k
  | inr not_a ↦ elim (Bool-cases (str_eq c b)) [
    | inl is_b ↦
        pairs-sym rir (c ∷ later) a b
        ∙ pairs-head rir c later b a is_b (ground arith) (clash_sym rir b a ∙ k)
    | inr not_b ↦ ground (arith, pairs-has rir later a b)
  ]
]

-- No two different nodes of a wave clash.
abbrev pub ClashFree : Rir → List String → Type 0
ClashFree rir w =
    (a b : String)
    → contains w a ≡ true
    → contains w b ≡ true
    → str_eq a b ≡ false
    → clash rir a b ≡ false

waves-ClashFree :
    (rir : Rir) (layer : List String) (ws : List (List String))
    → AllWaves (λ w. (a : String) → contains w a ≡ true → contains layer a ≡ true) ws
    → AllWaves (ConflictFree (build_conflict_graph layer rir)) ws
    → AllWaves (ClashFree rir) ws
waves-ClashFree rir layer [] m h = tt
waves-ClashFree rir layer (w ∷ ws) m h = (one, waves-ClashFree rir layer ws m.1 h.1)
  where
    one : ClashFree rir w
    one a b ha hb ne = elim (Bool-cases (clash rir a b)) [
      | inr fine ↦ fine
      | inl bad ↦ absurd (
          false≢true (
            sym (h.0 a b ha hb)
            ∙ linked-build layer rir a b
            ∙ pairs-has rir layer a b (m.0 a ha) (m.0 b hb) ne bad))
    ]

-- In the waves of a layer whose identifiers are distinct, no two different nodes of one wave share
-- a surface (a unit that is in an isolation region with each of them) or a data contract of their
-- inputs.
pub layer_waves-ClashFree :
    (rir : Rir) (layer : List String)
    → IsDistinct layer
    → AllWaves (ClashFree rir) (colour_graph layer (build_conflict_graph layer rir))
layer_waves-ClashFree rir layer distinct =
    let conflicts = build_conflict_graph layer rir in
    waves-ClashFree rir layer (colour_graph layer conflicts) (colour_graph-members layer conflicts)
      (colour_graph-ConflictFree layer conflicts (build-IsSymmetric layer rir)
        (build-IsIrreflexive layer rir distinct))
