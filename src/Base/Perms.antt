-- ===== src/Base/Perms.antt =====
-- Lists in another order: their lengths and Boolean searches.
use mathlib.Core.Logic.{∥∥₁_elim}
use mathlib.Core.Bool.{Bool, Bool-set}
use mathlib.Core.Path.{◌≡◌, refl, ap, ◌∙◌}
use mathlib.Core.List.{List, [], ◌∷◌, Perm, Permᴰ}
use Prim.Native.Nat.{ℕ, ◌+◌}
use native.Mathlib.Nat.{ℕ_set}
use native.Mathlib.Omega.{arith}
use ai_workstation_core.Base.Lists.{any, length}
use ai_workstation_core.Base.Tests.{if◌then◌else◌}

module _ {ℓ} {A : Type ℓ} where
  any-Permᴰ : (p : A → Bool) {l m : List A} → Permᴰ l m → any p l ≡ any p m
  any-Permᴰ p Permᴰ.nil = refl
  any-Permᴰ p (Permᴰ.cons e d) = cc (e, any-Permᴰ p d)
  any-Permᴰ p (Permᴰ.swap {a} {b} {a'} {b'} {l} e f) = ground (arith, e, f)
  any-Permᴰ p (Permᴰ.trans c d) = any-Permᴰ p c ∙ any-Permᴰ p d

  length-Permᴰ : {l m : List A} → Permᴰ l m → length l ≡ length m
  length-Permᴰ Permᴰ.nil = refl
  length-Permᴰ (Permᴰ.cons e d) = omega (arith, length-Permᴰ d)
  length-Permᴰ (Permᴰ.swap e f) = refl
  length-Permᴰ (Permᴰ.trans c d) = length-Permᴰ c ∙ length-Permᴰ d

  -- How many elements pass a test.
  abbrev pub count_by : (A → Bool) → List A → ℕ
  count_by p [] = 0
  count_by p (x ∷ xs) = let rest = count_by p xs in if p x then rest + 1 else rest

  count_by-Permᴰ : (p : A → Bool) {l m : List A} → Permᴰ l m → count_by p l ≡ count_by p m
  count_by-Permᴰ p Permᴰ.nil = refl
  count_by-Permᴰ p (Permᴰ.cons e d) = cc (e, count_by-Permᴰ p d)
  count_by-Permᴰ p (Permᴰ.swap {a} {b} {a'} {b'} {l} e f) = ground (arith, ap p e, ap p f)
  count_by-Permᴰ p (Permᴰ.trans c d) = count_by-Permᴰ p c ∙ count_by-Permᴰ p d

  pub count_by-Perm : (p : A → Bool) {l m : List A} → Perm l m → count_by p l ≡ count_by p m
  count_by-Perm p d = ∥∥₁_elim d (ℕ_set _ _) (count_by-Permᴰ p)

  pub any-Perm : (p : A → Bool) {l m : List A} → Perm l m → any p l ≡ any p m
  any-Perm p d = ∥∥₁_elim d (Bool-set _ _) (any-Permᴰ p)

  pub length-Perm : {l m : List A} → Perm l m → length l ≡ length m
  length-Perm d = ∥∥₁_elim d (ℕ_set _ _) length-Permᴰ
