-- ===== src/Scheduler/Waves/Overlap.antt =====
-- The test of a pair of nodes and their order.
use ai_workstation_core.Base.{
  String, List, [], ◌∷◌, Bool, false, ◌||◌, ◌≡◌, refl, arith, str_eq, any, contains, eq_iff, ◌∙◌,
  sym, ap₂,
}
use ai_workstation_core.Types.Rir.{Rir}
use ai_workstation_core.Scheduler.Waves.{
  has_overlap, contracts_of, has_data_flow_conflict, surface_of, clash,
}

any-or : (p q : String → Bool) (l : List String) → any (λ x. p x || q x) l ≡ (any p l || any q l)
any-or p q [] = refl
any-or p q (x ∷ l) = ground (arith, any-or p q l)

any_none : (l : List String) → any (λ _. false) l ≡ false
any_none [] = refl
any_none (x ∷ l) = any_none l

str_eq_sym : (s t : String) → str_eq s t ≡ str_eq t s
str_eq_sym s t = ground (arith, eq_iff s t, eq_iff t s)

any_congr : (p q : String → Bool) (l : List String) → ((x : String) → p x ≡ q x) → any p l ≡ any q l
any_congr p q [] h = refl
any_congr p q (x ∷ l) h = ground (arith, h x, any_congr p q l h)

has_overlap_sym : (a b : List String) → has_overlap a b ≡ has_overlap b a
has_overlap_sym [] b = sym (any_none b)
has_overlap_sym (s ∷ a) b =
    ap₂ (λ p q. p || q) (any_congr _ _ b (str_eq_sym s)) (has_overlap_sym a b)
    ∙ sym (any-or (λ t. str_eq t s) (λ t. any (λ x. str_eq t x) a) b)

shared-has_overlap : (a b : List String) → any (λ k. contains b k) a ≡ has_overlap a b
shared-has_overlap a b = any_congr _ _ a (λ k. any_congr _ _ b (λ e. str_eq_sym e k))

pub clash_sym : (rir : Rir) (a b : String) → clash rir a b ≡ clash rir b a
unfolding clash has_data_flow_conflict
clash_sym rir a b =
    let contracts = λ (id : String). contracts_of id rir.units in
    ap₂ (λ p q. p || q) (has_overlap_sym (surface_of a rir) (surface_of b rir))
      (shared-has_overlap (contracts a) (contracts b)
        ∙ has_overlap_sym (contracts a) (contracts b)
        ∙ sym (shared-has_overlap (contracts b) (contracts a)))
