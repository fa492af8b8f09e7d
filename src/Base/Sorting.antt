-- ===== src/Base/Sorting.antt =====
-- `sort.Strings` as an insertion sort; any sorting of strings gives the same list.
use Prim.Native.String.{String}
use Prim.Native.Char.{IsScalar}
use Prim.Native.Nat.{ℕ, suc}
use mathlib.Core.Path.{◌≡◌, refl, ◌∙◌, ap₂}
use text.Mathlib.TextEquality.{IsScalar-prop}
use mathlib.Core.Logic.{∥∥₁_elim}
use mathlib.Core.HLevel.{prop→set}
use mathlib.Core.List.{List, [], ◌∷◌, Perm, Permᴰ, is_set}
use mathlib.Core.List.Perm
use native.Mathlib.Omega.{arith}
use ai_workstation_core.Base.Lists.{length}
use ai_workstation_core.Base.Tests.{if◌then◌else◌}
use ai_workstation_core.Base.Text.{str_leb, str_leb_total, str_leb_trans, str_leb_antisymm}

unfoldable pub insert_sorted : String → List String → List String
insert_sorted a [] = a ∷ []
insert_sorted a (x ∷ xs) = if str_leb a x then a ∷ x ∷ xs else x ∷ insert_sorted a xs

unfoldable pub sort_strings : List String → List String
unfolding insert_sorted
sort_strings [] = []
sort_strings (x ∷ xs) = insert_sorted x (sort_strings xs)

insert_sorted_comm :
    (a b : String) (xs : List String)
    → insert_sorted a (insert_sorted b xs) ≡ insert_sorted b (insert_sorted a xs)
unfolding insert_sorted
insert_sorted_comm a b [] =
    ground (arith, str_leb_total a b, str_leb_total b a, str_leb_antisymm a b)
insert_sorted_comm a b (x ∷ xs) = ground (
  arith,
  insert_sorted_comm a b xs,
  str_leb_total a b,
  str_leb_total a x,
  str_leb_total b x,
  str_leb_antisymm a b,
  str_leb_trans a b x,
  str_leb_trans b a x,
)

IsScalar-set : (n : ℕ) → IsSet (IsScalar n)
IsScalar-set n = prop→set (IsScalar-prop n)

String-set : IsSet String
String-set = hlevel IsScalar-set

sort_strings-Permᴰ : {xs ys : List String} → Permᴰ xs ys → sort_strings xs ≡ sort_strings ys
unfolding sort_strings
sort_strings-Permᴰ Permᴰ.nil = refl
sort_strings-Permᴰ (Permᴰ.cons e p) = cc (sort_strings-Permᴰ p)
sort_strings-Permᴰ (Permᴰ.swap {a} {b} {l = l} e f) =
    insert_sorted_comm a b (sort_strings l)
    ∙ ap₂ (λ x y. insert_sorted x (insert_sorted y (sort_strings l))) f e
sort_strings-Permᴰ (Permᴰ.trans p q) = sort_strings-Permᴰ p ∙ sort_strings-Permᴰ q

-- The sorted list depends on the elements only, not on the order in which they came.
pub sort_strings-eq_of_perm : {xs ys : List String} → Perm xs ys → sort_strings xs ≡ sort_strings ys
sort_strings-eq_of_perm p = ∥∥₁_elim p (is_set String-set _ _) sort_strings-Permᴰ

pub insert_sorted-Perm : (a : String) (xs : List String) → Perm (insert_sorted a xs) (a ∷ xs)
unfolding insert_sorted
insert_sorted-Perm a [] = Perm.refl _
insert_sorted-Perm a (x ∷ xs) = ground (
  arith,
  Perm.refl (a ∷ x ∷ xs),
  Perm.trans (Perm.cons x (insert_sorted-Perm a xs)) (Perm.swap a x xs),
)

pub sort_strings-Perm : (xs : List String) → Perm (sort_strings xs) xs
unfolding sort_strings
sort_strings-Perm [] = Perm.refl _
sort_strings-Perm (x ∷ xs) =
    Perm.trans (insert_sorted-Perm x (sort_strings xs)) (Perm.cons x (sort_strings-Perm xs))

length-insert_sorted :
    (a : String) (xs : List String) → length (insert_sorted a xs) ≡ suc (length xs)
unfolding insert_sorted
length-insert_sorted a [] = refl
length-insert_sorted a (x ∷ xs) = ground (arith, length-insert_sorted a xs)

pub length-sort_strings : (xs : List String) → length (sort_strings xs) ≡ length xs
unfolding sort_strings
length-sort_strings [] = refl
length-sort_strings (x ∷ xs) =
    omega (arith, length-insert_sorted x (sort_strings xs), length-sort_strings xs)
