-- ===== src/FairQueue/Turns.antt =====
-- What a well formed fair queue is, and the sums of its sessions: runtime/queue/fair_queue.go.
use ai_workstation_core.Base.{
  String, List, [], ◌∷◌, ◌++◌, none, some, ℕ, zero, suc, ◌+◌, ◌-◌, ◌≤◌, ◌<◌, Bool, true, false,
  ◌&&◌, ◌||◌, not, ◌≡◌, refl, ap, ap₂, arith, eq_iff, if◌then◌else◌, str_eq, length, get_elem?,
  take, drop, contains,
}
use ai_workstation_core.Base.Assoc.{
  Assoc, lookup, insert, remove, has, lookup-insert, lookup-remove,
}
use ai_workstation_core.FairQueue.{Request, SessionEntry, FairQueue}

-- The requests that wait in a session.
abbrev pub waiting : Assoc SessionEntry → String → List Request
waiting sessions sid = elim (lookup sid sessions) [ none ↦ [] | some entry ↦ entry.requests ]

pub waiting-insert :
    (sid k : String) (entry : SessionEntry) (sessions : Assoc SessionEntry)
    → waiting (insert sid entry sessions) k
      ≡ (if str_eq sid k then entry.requests else waiting sessions k)
waiting-insert sid k entry sessions =
    ground (arith, eq_iff sid k, lookup-insert sid k entry sessions)

pub waiting-remove :
    (sid k : String) (sessions : Assoc SessionEntry)
    → waiting (remove sid sessions) k ≡ (if str_eq sid k then [] else waiting sessions k)
waiting-remove sid k sessions = ground (arith, eq_iff sid k, lookup-remove sid k sessions)

abbrev pub distinct : List String → Bool
distinct [] = true
distinct (k ∷ ks) = not (contains ks k) && distinct ks

abbrev pub waiting_sum : Assoc SessionEntry → List String → ℕ
waiting_sum sessions [] = 0
waiting_sum sessions (k ∷ ks) = length (waiting sessions k) + waiting_sum sessions ks

-- The sessions of the order are the keys of the map, once each, and none is empty; the position is
-- in range; the total is the number of the requests.
pub record IsWell (q : FairQueue) : Type 0 where
  pub known : (k : String) → has k q.sessions ≡ contains q.order k
  pub nonempty : (k : String) → contains q.order k ≡ true → 0 < length (waiting q.sessions k)
  pub once : distinct q.order ≡ true
  pub in_range : q.pos ≤ length q.order - 1
  pub counted : q.total ≡ waiting_sum q.sessions q.order
  pub bounded : q.total ≤ q.max_size

pub contains-append :
    (xs ys : List String) (k : String) → contains (xs ++ ys) k ≡ (contains xs k || contains ys k)
contains-append [] ys k = refl
contains-append (x ∷ xs) ys k = ground (arith, contains-append xs ys k)

pub waiting_sum-append :
    (sessions : Assoc SessionEntry) (xs ys : List String)
    → waiting_sum sessions (xs ++ ys) ≡ waiting_sum sessions xs + waiting_sum sessions ys
waiting_sum-append sessions [] ys = omega arith
waiting_sum-append sessions (x ∷ xs) ys = omega (arith, waiting_sum-append sessions xs ys)

-- A key in the middle of distinct keys stands nowhere else.
pub distinct-middle :
    (xs ys : List String) (k : String)
    → distinct (xs ++ k ∷ ys) ≡ true
    → (contains xs k ≡ false) × (contains ys k ≡ false) × (distinct (xs ++ ys) ≡ true)
distinct-middle [] ys k d = (refl, ground arith, ground arith)
distinct-middle (x ∷ xs) ys k d =
    let rest = distinct-middle xs ys k (ground arith) in
    ground
      (arith, rest, eq_iff x k, eq_iff k x, contains-append xs ys x, contains-append xs (k ∷ ys) x)

pub distinct-snoc :
    (xs : List String) (k : String)
    → distinct xs ≡ true
    → contains xs k ≡ false
    → distinct (xs ++ k ∷ []) ≡ true
distinct-snoc [] k d h = refl
distinct-snoc (x ∷ xs) k d h =
    ground (arith, distinct-snoc xs k, contains-append xs (k ∷ []) x, eq_iff x k, eq_iff k x)

-- What stands at a position, between the keys before and after.
pub split_at :
    (xs : List String) (n : ℕ) (k : String)
    → get_elem? xs n ≡ some k
    → xs ≡ take n xs ++ k ∷ drop (n + 1) xs
split_at [] n k h = absurd (ground arith)
split_at (x ∷ xs) zero k h = ground arith
split_at (x ∷ xs) (suc n) k h = ground (arith, split_at xs n k h)

pub get_elem?-in_range :
    (xs : List String) (n : ℕ) → n < length xs → (k : String) × (get_elem? xs n ≡ some k)
get_elem?-in_range [] n h = absurd (omega (arith, h))
get_elem?-in_range (x ∷ xs) zero h = (x, refl)
get_elem?-in_range (x ∷ xs) (suc n) h = get_elem?-in_range xs n (omega (arith, h))

pub length-take : (xs : List String) (n : ℕ) → n ≤ length xs → length (take n xs) ≡ n
length-take xs zero h = refl
length-take [] (suc n) h = omega arith
length-take (x ∷ xs) (suc n) h = omega (arith, length-take xs n)

-- Two maps that differ at most at one key.
module _ (before after : Assoc SessionEntry) (sid : String)
    (others : (k : String) → str_eq sid k ≡ false → waiting after k ≡ waiting before k) where
  pub waiting_sum-unchanged :
      (ks : List String) → contains ks sid ≡ false → waiting_sum after ks ≡ waiting_sum before ks
  waiting_sum-unchanged [] h = refl
  waiting_sum-unchanged (k ∷ ks) h =
      ap₂ (λ m n. m + n) (ap length (others k (ground (arith, eq_iff k sid, eq_iff sid k))))
        (waiting_sum-unchanged ks (ground arith))

  same_length :
      (k : String) → str_eq sid k ≡ false → length (waiting after k) ≡ length (waiting before k)
  same_length k h = ap length (others k h)

  pub waiting_sum-changed :
      (ks : List String)
      → distinct ks ≡ true
      → contains ks sid ≡ true
      → waiting_sum after ks + length (waiting before sid)
        ≡ waiting_sum before ks + length (waiting after sid)
  waiting_sum-changed [] d h = absurd (ground arith)
  waiting_sum-changed (k ∷ ks) d h = ground (
    arith,
    eq_iff k sid,
    eq_iff sid k,
    same_length k,
    waiting_sum-unchanged ks,
    waiting_sum-changed ks,
  )
