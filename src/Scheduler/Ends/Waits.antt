-- ===== src/Scheduler/Ends/Waits.antt =====
-- How long a wait polls: `WaitWave` of mek/internal/scheduler/scheduler.go.
use ai_workstation_core.Base.{
  String, List, Option, none, ℕ, zero, suc, ◌+◌, ◌<◌, ◌≤◌, ◌||◌, Bool, true, false, ◌≡◌, ◌≢◌, ◌↔◌,
  ◌⊎◌, inl, inr, refl, arith, ◌==◌, if_rule, Bool-cases, subst,
}
use ai_workstation_core.Types.StatusMap.{all_terminal}
use ai_workstation_core.Commit.{Engine}
use ai_workstation_core.Scheduler.Steps.{Signals, WaitError, wait_open, wait_timed, wait_wave}

module _ (s : Signals) (e : Engine) (wave : List String) where
  -- The loop ends in a round in which the context is done, if that is followed.
  wait_open-ends :
      (left round n : ℕ)
      → n < left
      → s.is_done (n + round) ≡ true
      → wait_open s left round e wave ≢ none
  unfolding wait_open
  wait_open-ends zero round n le fired h = omega arith
  wait_open-ends (suc left) round zero le fired h = ground arith
  wait_open-ends (suc left) round (suc n) le fired h = ground (
    arith,
    wait_open-ends left (round + 1) n (omega arith)
        (subst (λ k. s.is_done k ≡ true) (omega arith) fired),
  )

  wait_timed-ends :
      (timeout left round n : ℕ)
      → n < left
      → (s.is_done (n + round) || s.is_expired timeout (n + round)) ≡ true
      → wait_timed s timeout left round e wave ≢ none
  unfolding wait_timed
  wait_timed-ends timeout zero round n le fired h = omega arith
  wait_timed-ends timeout (suc left) round zero le fired h = ground arith
  wait_timed-ends timeout (suc left) round (suc n) le fired h = ground (
    arith,
    wait_timed-ends timeout left (round + 1) n (omega arith)
        (subst (λ k. (s.is_done k || s.is_expired timeout k) ≡ true) (omega arith) fired),
  )

  wait_open-polls :
      (left round : ℕ)
      → all_terminal e.sm wave ≡ false
      → ((n : ℕ) → s.is_done n ≡ false)
      → wait_open s left round e wave ≡ none
  unfolding wait_open
  wait_open-polls zero round active calm = refl
  wait_open-polls (suc left) round active calm =
      ground (arith, calm round, wait_open-polls left (round + 1) active calm)

  wait_timed-polls :
      (timeout left round : ℕ)
      → all_terminal e.sm wave ≡ false
      → ((n : ℕ) → s.is_done n ≡ false)
      → ((n : ℕ) → s.is_expired timeout n ≡ false)
      → wait_timed s timeout left round e wave ≡ none
  unfolding wait_timed
  wait_timed-polls timeout zero round active calm early = refl
  wait_timed-polls timeout (suc left) round active calm early =
      ground (
        arith,
        calm round,
        early round,
        wait_timed-polls timeout left (round + 1) active calm early,
      )

  -- The wait ends if, in a round that is followed, the context is done, or there is a deadline and
  -- its time is over.
  pub wait_wave-ends :
      (deadline n : ℕ)
      → n ≤ s.rounds deadline
      → (s.is_done n ≡ true) ⊎ (0 < deadline) × (s.is_expired deadline n ≡ true)
      → wait_wave s deadline e wave ≢ none
  unfolding wait_wave
  wait_wave-ends deadline n le fired =
      let here : (b : ℕ → Bool) → b n ≡ true → b (n + 0) ≡ true =
        λ b h. subst (λ k. b k ≡ true) (omega arith) h in
      if_rule (λ (r : Option (Engine × Option WaitError)). r ≢ none) (deadline == 0)
        (λ unlimited. wait_open-ends _ 0 n (ground arith) (here s.is_done (ground arith)))
        (λ timed.
          wait_timed-ends deadline _ 0 n (ground arith)
            (here (λ k. s.is_done k || s.is_expired deadline k) (ground arith)))

-- The same signals, with `k` polls followed.
abbrev pub following : Signals → ℕ → Signals
following s k = record s { rounds = λ _. k }

module _ (s : Signals) (deadline : ℕ) (e : Engine) (wave : List String) where
  abbrev Polls : Type 0
  Polls = (k : ℕ) → wait_wave (following s k) deadline e wave ≡ none

  Polls-active : Polls → all_terminal e.sm wave ≡ false
  unfolding wait_wave wait_open wait_timed
  Polls-active never = ground (arith, never 0)

  Polls-calm : Polls → (n : ℕ) → s.is_done n ≡ false
  Polls-calm never n = elim (Bool-cases (s.is_done n)) [
    | inr quiet ↦ quiet
    | inl fired ↦
        absurd
          (wait_wave-ends (following s n) e wave deadline n (omega arith) (inl fired) (never n))
  ]

  Polls-early : Polls → (deadline ≡ 0) ⊎ ((n : ℕ) → s.is_expired deadline n ≡ false)
  Polls-early never = elim (Bool-cases (deadline == 0)) [
    | inl unlimited ↦ inl (ground arith)
    | inr timed ↦ inr λ n. elim (Bool-cases (s.is_expired deadline n)) [
      | inr quiet ↦ quiet
      | inl fired ↦ absurd (
          wait_wave-ends (following s n) e wave deadline n (omega arith) (inr (ground arith, fired))
            (never n))
    ]
  ]

  wait_wave-Polls :
      all_terminal e.sm wave ≡ false
      → ((n : ℕ) → s.is_done n ≡ false)
      → (deadline ≡ 0) ⊎ ((n : ℕ) → s.is_expired deadline n ≡ false)
      → Polls
  unfolding wait_wave
  wait_wave-Polls active calm early k =
      if_rule (λ (r : Option (Engine × Option WaitError)). r ≡ none) (deadline == 0)
        (λ _. wait_open-polls (following s k) e wave (suc k) 0 active calm)
        (λ timed. elim early [
          | inl unlimited ↦ absurd (ground arith)
          | inr waits ↦ wait_timed-polls (following s k) e wave deadline (suc k) 0 active calm waits
        ])

-- Whatever number of polls is followed, a wait has not ended, exactly if some node of the wave is not
-- terminal, the context is never done, and either there is no deadline or its time is never over.
pub wait_wave-polls_iff :
    (s : Signals) (deadline : ℕ) (e : Engine) (wave : List String)
    → ((k : ℕ) → wait_wave (following s k) deadline e wave ≡ none) ↔ (
        (all_terminal e.sm wave ≡ false)
        × ((n : ℕ) → s.is_done n ≡ false)
        × ((deadline ≡ 0) ⊎ ((n : ℕ) → s.is_expired deadline n ≡ false)))
wait_wave-polls_iff s deadline e wave = (
  λ never. (
    Polls-active s deadline e wave never,
    Polls-calm s deadline e wave never,
    Polls-early s deadline e wave never,
  ),
  λ h. wait_wave-Polls s deadline e wave h.0 h.1 h.2,
)
