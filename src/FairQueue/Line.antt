-- ===== src/FairQueue/Line.antt =====
-- The line of turns when the session in front is served: runtime/queue/fair_queue.go.
use mathlib.Core.List.{append_assoc, append-nil}
use native.Mathlib.Nat.{mod-eq_of_lt, mod_self}
use ai_workstation_core.Base.{
  String, List, [], ◌∷◌, ◌++◌, ℕ, ◌+◌, ◌%◌, ◌≡◌, refl, sym, ap, ap₂, ◌∙◌, arith, if◌then◌else◌, leb,
  length, length-append, take, drop,
}
use ai_workstation_core.FairQueue.{FairQueue}

abbrev pub line_at : ℕ → List String → List String
line_at pos order = drop pos order ++ take pos order

-- The sessions in the order of their turns, from the position around.
abbrev pub line : FairQueue → List String
line q = line_at q.pos q.order

drop-append : (xs ys : List String) → drop (length xs) (xs ++ ys) ≡ ys
drop-append [] ys = refl
drop-append (x ∷ xs) ys = drop-append xs ys

take-append : (xs ys : List String) → take (length xs) (xs ++ ys) ≡ xs
take-append [] ys = refl
take-append (x ∷ xs) ys = ap (λ l. x ∷ l) (take-append xs ys)

pub line_at-append : (xs ys : List String) → line_at (length xs) (xs ++ ys) ≡ ys ++ xs
line_at-append xs ys = ap₂ (λ (a b : List String). a ++ b) (drop-append xs ys) (take-append xs ys)

-- The session stays and the position goes on.
pub line_at-next :
    (xs ys : List String) (k : String)
    → line_at ((length xs + 1) % length (xs ++ k ∷ ys)) (xs ++ k ∷ ys) ≡ (ys ++ xs) ++ k ∷ []
line_at-next xs [] k =
    let around : (length xs + 1) % length (xs ++ k ∷ []) ≡ 0 =
      ap (λ n. n % length (xs ++ k ∷ [])) (sym (length-append xs (k ∷ [])))
      ∙ mod_self (length (xs ++ k ∷ [])) in
    ap (λ n. line_at n (xs ++ k ∷ [])) around ∙ append-nil (xs ++ k ∷ [])
line_at-next xs (y ∷ ys) k =
    let on : (length xs + 1) % length (xs ++ k ∷ y ∷ ys) ≡ length (xs ++ k ∷ []) =
      mod-eq_of_lt (omega (arith, length-append xs (k ∷ y ∷ ys)))
      ∙ sym (length-append xs (k ∷ [])) in
    ap₂ line_at on (sym (append_assoc xs (k ∷ []) (y ∷ ys)))
    ∙ line_at-append (xs ++ k ∷ []) (y ∷ ys)
    ∙ sym (append_assoc (y ∷ ys) xs (k ∷ []))

-- The session goes and the position stays, or turns to the front.
pub line_at-removed :
    (xs ys : List String)
    → line_at (if leb (length (xs ++ ys)) (length xs) then 0 else length xs) (xs ++ ys) ≡ ys ++ xs
line_at-removed xs [] =
    let front : (if leb (length (xs ++ [])) (length xs) then 0 else length xs) ≡ 0 =
      ground (arith, length-append xs []) in
    ap (λ n. line_at n (xs ++ [])) front ∙ append-nil (xs ++ []) ∙ append-nil xs
line_at-removed xs (y ∷ ys) =
    let stays : (if leb (length (xs ++ y ∷ ys)) (length xs) then 0 else length xs) ≡ length xs =
      ground (arith, length-append xs (y ∷ ys)) in
    ap (λ n. line_at n (xs ++ y ∷ ys)) stays ∙ line_at-append xs (y ∷ ys)
