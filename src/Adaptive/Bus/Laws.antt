-- ===== src/Adaptive/Bus/Laws.antt =====
-- Counting and repeating `Publish`: mek/internal/adaptctl/actionbus/bus.go.
use mathlib.Core.List.{Perm}
use ai_workstation_core.Base.{
  String, List, [], ◌∷◌, none, some, ℕ, ◌+◌, ◌≤◌, Bool, true, false, ◌≡◌, refl, sym, ◌∙◌, ◌⊎◌, ap,
  subst, inl, inr, arith, eq_iff, ◌==◌, length, All, Bool-cases, Option-cases,
}
use ai_workstation_core.Base.Perms.{length-Perm}
use ai_workstation_core.Base.Assoc.{Assoc, lookup, insert, has, lookup-insert}
use ai_workstation_core.Adaptive.Feedback.{Action}
use ai_workstation_core.Adaptive.Bus.{
  Endpoint, Bus, Progress, Published, filter_valid, deliver_with_retry, deliver_action, deliver_all,
  start_of, finish, publish,
}
use ai_workstation_core.Adaptive.Bus.Valid.{
  mentions, clear, filter_valid-again, mentions-Perm, filter_valid-clear, clear-Perm,
}

length-insert :
    (k : String) (v : ℕ) (m : Assoc ℕ) → has k m ≡ false → length (insert k v m) ≡ length m + 1
unfolding insert lookup
length-insert k v [] h = refl
length-insert k v ((j, w) ∷ m) h = ground (arith, length-insert k v m)

clear-insert :
    (k : String) (v : ℕ) (m : Assoc ℕ) (actions : List Action)
    → mentions k actions ≡ false
    → clear (insert k v m) actions ≡ clear m actions
clear-insert k v m [] h = refl
clear-insert k v m (a ∷ actions) h =
    ground
      (arith, eq_iff k a.id, eq_iff a.id k, lookup-insert k a.id v m, clear-insert k v m actions)

module _ (E : Endpoint) (cancelled : String → ℕ → Bool) (stamp : String → ℕ) (max : ℕ) where
  step : Progress E → Action → Progress E
  step = deliver_action E cancelled stamp max

  -- One delivery either marks its action and counts it, or changes neither.
  deliver_action-cases :
      (p : Progress E) (a : Action)
      → (((step p a).delivered ≡ insert a.id (stamp a.id) p.delivered)
          × ((step p a).count ≡ p.count + 1))
        ⊎ (((step p a).delivered ≡ p.delivered) × ((step p a).count ≡ p.count))
  unfolding step deliver_action
  deliver_action-cases p a =
      elim (Option-cases (deliver_with_retry E (cancelled a.id) max p.state a).1) [
        | inl e ↦ inl (ground arith, ground arith)
        | inr (x, e) ↦ inr (ground arith, ground arith)
      ]

  deliver_all-counts :
      (p : Progress E) (actions : List Action)
      → clear p.delivered actions ≡ true
      → length (deliver_all E cancelled stamp max p actions).delivered + p.count
        ≡ length p.delivered + (deliver_all E cancelled stamp max p actions).count
  unfolding deliver_all step
  deliver_all-counts p [] h = refl
  deliver_all-counts p (a ∷ actions) h = elim (deliver_action-cases p a) [
    | inl (d, c) ↦
        let rest = deliver_all-counts (step p a) actions (
          ap (λ m. clear m actions) d
          ∙ clear-insert a.id (stamp a.id) p.delivered actions (ground arith)
          ∙ ground arith) in
        ground (arith, d, c, rest, length-insert a.id (stamp a.id) p.delivered)
    | inr (d, c) ↦
        let rest =
          deliver_all-counts (step p a) actions (ap (λ m. clear m actions) d ∙ ground arith) in
        ground (arith, d, c, rest)
  ]

  -- A delivered identifier stays so; and if the count grows by the number of the actions, each of
  -- them has become so.
  deliver_all-keeps :
      (p : Progress E) (actions : List Action) (k : String)
      → has k p.delivered ≡ true
      → has k (deliver_all E cancelled stamp max p actions).delivered ≡ true
  unfolding deliver_all step
  deliver_all-keeps p [] k h = h
  deliver_all-keeps p (a ∷ actions) k h =
      deliver_all-keeps (step p a) actions k (elim (deliver_action-cases p a) [
        | inl (d, c) ↦ ground (arith, d, lookup-insert a.id k (stamp a.id) p.delivered)
        | inr (d, c) ↦ ground (arith, d)
      ])

  deliver_all-bounded :
      (p : Progress E) (actions : List Action)
      → (deliver_all E cancelled stamp max p actions).count ≤ p.count + length actions
  unfolding deliver_all step
  deliver_all-bounded p [] = omega arith
  deliver_all-bounded p (a ∷ actions) = elim (deliver_action-cases p a) [
    | inl (d, c) ↦ omega (arith, c, deliver_all-bounded (step p a) actions)
    | inr (d, c) ↦ omega (arith, c, deliver_all-bounded (step p a) actions)
  ]

  deliver_all-marks :
      (p : Progress E) (actions : List Action)
      → (deliver_all E cancelled stamp max p actions).count ≡ p.count + length actions
      → All
          (λ (a : Action). has a.id (deliver_all E cancelled stamp max p actions).delivered ≡ true)
          actions
  unfolding deliver_all step
  deliver_all-marks p [] h = tt
  deliver_all-marks p (a ∷ actions) h = elim (deliver_action-cases p a) [
    | inl (d, c) ↦ (
      deliver_all-keeps (step p a) actions a.id
          (ground (arith, d, eq_iff a.id a.id, lookup-insert a.id a.id (stamp a.id) p.delivered)),
      deliver_all-marks (step p a) actions (ground (arith, c)),
    )
    | inr (d, c) ↦ absurd (omega (arith, c, h, deliver_all-bounded (step p a) actions))
  ]

All-mentions :
    (delivered : Assoc ℕ) (actions : List Action) (k : String)
    → All (λ (a : Action). has a.id delivered ≡ true) actions
    → mentions k actions ≡ true
    → has k delivered ≡ true
All-mentions delivered [] k h m = absurd (ground arith)
All-mentions delivered (a ∷ actions) k h m =
    ground (arith, eq_iff a.id k, h.0, All-mentions delivered actions k h.1)

length-empty : (l : List Action) → length l ≡ 0 → l ≡ []
length-empty [] h = refl
length-empty (a ∷ l) h = absurd (omega (arith, h))

module _ (E : Endpoint) (sort : List Action → List Action) (cancelled : String → ℕ → Bool)
    (stamp : String → ℕ) (sorts : (l : List Action) → Perm (sort l) l) where
  -- `Publish` counts truly: the delivered identifiers grow by the number that it answers, whatever
  -- the endpoint does, the identifiers of the batch are and the order of sorting is.
  pub publish-length :
      (now : ℕ) (bus : Bus E) (actions : List Action)
      → length (publish E sort cancelled stamp now bus actions).bus.delivered
        ≡ length bus.delivered + (publish E sort cancelled stamp now bus actions).count
  unfolding publish
  publish-length now bus actions = elim (Option-cases bus.endpoint) [
    | inl e ↦ ground (arith, e)
    | inr (s, e) ↦
        let valid = filter_valid bus.delivered [] now actions in
        let counts =
          deliver_all-counts E cancelled stamp bus.max_attempts (start_of E s bus) (sort valid) (
            clear-Perm bus.delivered (sorts valid)
            ∙ filter_valid-clear bus.delivered [] now actions) in
        ground (arith, e, counts)
  ]

  sort_nil : (l : List Action) → l ≡ [] → sort l ≡ []
  sort_nil l e = length-empty (sort l) (length-Perm (sorts l) ∙ ap length e)

  -- With nothing left to deliver, nothing changes.
  publish_idle :
      (now : ℕ) (bus : Bus E) (actions : List Action) (s : E.State)
      → bus.endpoint ≡ some s
      → filter_valid bus.delivered [] now actions ≡ []
      → publish E sort cancelled stamp now bus actions
        ≡ record { bus = bus; count = 0; error = none }
  unfolding publish deliver_all
  publish_idle now bus actions s e none_left =
      ground (arith, e, sort_nil (filter_valid bus.delivered [] now actions) none_left)

  publish-finish :
      (now : ℕ) (bus : Bus E) (actions : List Action) (s : E.State)
      → bus.endpoint ≡ some s
      → (length actions == 0) ≡ false
      → publish E sort cancelled stamp now bus actions
        ≡ finish E bus (
            deliver_all E cancelled stamp bus.max_attempts
              (start_of E s bus)
              (sort (filter_valid bus.delivered [] now actions)))
  unfolding publish
  publish-finish now bus actions s e some_left = ground (arith, e, some_left)

  delivered_again :
      (now later : ℕ) (bus : Bus E) (actions : List Action) (s : E.State)
      → now ≤ later
      → (deliver_all E cancelled stamp bus.max_attempts
          (start_of E s bus)
          (sort (filter_valid bus.delivered [] now actions))).count
        ≡ length (filter_valid bus.delivered [] now actions)
      → filter_valid
          (deliver_all E cancelled stamp bus.max_attempts
            (start_of E s bus)
            (sort (filter_valid bus.delivered [] now actions))).delivered
          []
          later
          actions
        ≡ []
  delivered_again now later bus actions s le c =
      let valid = filter_valid bus.delivered [] now actions in
      let p = deliver_all E cancelled stamp bus.max_attempts (start_of E s bus) (sort valid) in
      let all_marked =
        deliver_all-marks E cancelled stamp bus.max_attempts (start_of E s bus) (sort valid)
          (omega (arith, c, length-Perm (sorts valid))) in
      filter_valid-again bus.delivered p.delivered [] [] now later actions le
        (λ k h.
          deliver_all-keeps E cancelled stamp bus.max_attempts (start_of E s bus) (sort valid) k h)
        (λ k h. absurd (cc h))
        (λ k m.
          All-mentions p.delivered (sort valid) k all_marked (mentions-Perm [] (sorts valid) k ∙ m))

  -- If every action of a batch that is neither expired nor delivered before is delivered by a
  -- `Publish` of it, then a second `Publish` of the same batch, at no earlier time, changes neither
  -- the bus nor the endpoint, and answers the count 0 without an error.
  pub publish-again :
      (now later : ℕ) (bus : Bus E) (actions : List Action) (s : E.State)
      → now ≤ later
      → bus.endpoint ≡ some s
      → (publish E sort cancelled stamp now bus actions).count
        ≡ length (filter_valid bus.delivered [] now actions)
      → publish E sort cancelled stamp later
          (publish E sort cancelled stamp now bus actions).bus
          actions
        ≡ record {
          bus = (publish E sort cancelled stamp now bus actions).bus;
          count = 0;
          error = none;
        }
  unfolding publish
  publish-again now later bus actions s le e c = elim (Bool-cases (length actions == 0)) [
    | inl empty ↦ ground (arith, e, empty)
    | inr some_left ↦
        let valid = filter_valid bus.delivered [] now actions in
        let p = deliver_all E cancelled stamp bus.max_attempts (start_of E s bus) (sort valid) in
        let published = publish-finish now bus actions s e some_left in
        subst
          (λ (r : Published E).
            publish E sort cancelled stamp later r.bus actions
            ≡ record { bus = r.bus; count = 0; error = none })
          (sym published)
          (publish_idle later (finish E bus p).bus actions p.state refl (
            delivered_again now later bus actions s le
              (ap (λ (r : Published E). r.count) (sym published) ∙ c)))
  ]
