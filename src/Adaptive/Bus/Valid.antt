-- ===== src/Adaptive/Bus/Valid.antt =====
-- What `filterValid` keeps, in any order: mek/internal/adaptctl/actionbus/bus.go.
use mathlib.Core.Logic.{∥∥₁_elim}
use mathlib.Core.Bool.{Bool-set}
use mathlib.Core.List.{Perm, Permᴰ}
use ai_workstation_core.Base.{
  String, List, [], ◌∷◌, ℕ, ◌≤◌, Bool, true, false, ◌&&◌, ◌||◌, not, ◌≡◌, refl, ◌∙◌, arith, eq_iff,
  str_eq, contains, any, if_rule,
}
use ai_workstation_core.Base.Perms.{any-Perm}
use ai_workstation_core.Base.Assoc.{Assoc, has}
use ai_workstation_core.Adaptive.Feedback.{Action}
use ai_workstation_core.Adaptive.Bus.{is_expired, filter_valid}

-- Does an action of the list carry the identifier?
abbrev pub mentions : String → List Action → Bool
mentions k actions = any (λ (b : Action). str_eq b.id k) actions

-- No identifier of the list is delivered, and none stands twice.
abbrev pub clear : Assoc ℕ → List Action → Bool
clear delivered [] = true
clear delivered (a ∷ actions) =
    not (has a.id delivered) && (not (mentions a.id actions) && clear delivered actions)

module _ (delivered : Assoc ℕ) where
  filtered_unseen :
      (k : String) (seen : List String) (now : ℕ) (actions : List Action)
      → contains seen k ≡ true
      → mentions k (filter_valid delivered seen now actions) ≡ false
  unfolding filter_valid
  filtered_unseen k seen now [] s = refl
  filtered_unseen k seen now (a ∷ actions) s = ground (
    arith,
    eq_iff a.id k,
    filtered_unseen k seen now actions s,
    filtered_unseen k (a.id ∷ seen) now actions,
  )

  pub filter_valid-clear :
      (seen : List String) (now : ℕ) (actions : List Action)
      → clear delivered (filter_valid delivered seen now actions) ≡ true
  unfolding filter_valid
  filter_valid-clear seen now [] = refl
  filter_valid-clear seen now (a ∷ actions) = ground (
    arith,
    eq_iff a.id a.id,
    filtered_unseen a.id (a.id ∷ seen) now actions,
    filter_valid-clear seen now actions,
    filter_valid-clear (a.id ∷ seen) now actions,
  )

  clear-Permᴰ : {l m : List Action} → Permᴰ l m → clear delivered l ≡ clear delivered m
  clear-Permᴰ Permᴰ.nil = refl
  clear-Permᴰ (Permᴰ.cons {a} e d) =
      cc (e, clear-Permᴰ d, any-Perm (λ (x : Action). str_eq x.id a.id) ∣ d ∣₁)
  clear-Permᴰ (Permᴰ.swap {a} {b} {a'} {b'} {l} e f) =
      ground (arith, e, f, eq_iff a.id b.id, eq_iff b.id a.id)
  clear-Permᴰ (Permᴰ.trans c d) = clear-Permᴰ c ∙ clear-Permᴰ d

  pub clear-Perm : {l m : List Action} → Perm l m → clear delivered l ≡ clear delivered m
  clear-Perm p = ∥∥₁_elim p (Bool-set _ _) clear-Permᴰ

  pub mentions-Perm : {l m : List Action} → Perm l m → (k : String) → mentions k l ≡ mentions k m
  mentions-Perm p k = any-Perm (λ (b : Action). str_eq b.id k) p

-- If all that an earlier look at the batch kept is delivered since, a later look keeps nothing.
pub filter_valid-again :
    (before after : Assoc ℕ) (seen again : List String) (now later : ℕ) (actions : List Action)
    → now ≤ later
    → ((k : String) → has k before ≡ true → has k after ≡ true)
    → ((k : String) → contains seen k ≡ true → has k after ≡ true)
    → ((k : String) → mentions k (filter_valid before seen now actions) ≡ true → has k after ≡ true)
    → filter_valid after again later actions ≡ []
unfolding filter_valid
filter_valid-again before after seen again now later [] le old s kept = refl
filter_valid-again before after seen again now later (a ∷ actions) le old s kept =
    if_rule
      (λ l.
        ((k : String) → mentions k l ≡ true → has k after ≡ true)
        → filter_valid after again later (a ∷ actions) ≡ [])
      (is_expired a now || has a.id before || contains seen a.id)
      (λ skip kept. ground (
        arith,
        old a.id,
        s a.id,
        filter_valid-again before after seen again now later actions le old s kept,
      ))
      (λ take kept.
        let rest =
          filter_valid-again before after (a.id ∷ seen) again now later actions le old
            (λ k h. ground (arith, eq_iff a.id k, s k, kept k)) (λ k h. kept k (ground arith)) in
        ground (arith, eq_iff a.id a.id, kept a.id, rest))
      kept
