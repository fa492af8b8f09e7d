-- ===== src/Base/Text.antt =====
-- The order in which `sort.Strings` sorts: by bytes, which for UTF-8 is by code points.
use Prim.Native.String.{String, compare}
use Prim.Native.String.compare
use mathlib.Core.Path.{◌≡◌, refl}
use mathlib.Core.Bool.{Bool, true, false}
use native.Mathlib.Omega.{arith}
use text.Mathlib.Text.{is_le}
use text.Mathlib.TextEquality.{path_by_compare}

abbrev pub str_leb : String → String → Bool
str_leb s t = is_le (compare s t)

pub str_leb_total : (s t : String) → str_leb s t ≡ false → str_leb t s ≡ true
str_leb_total String.[] String.[] h = refl
str_leb_total String.[] (String.◌∷◌ d t) h = ground (arith, compare.nil-cons d t)
str_leb_total (String.◌∷◌ c s) String.[] h = ground (arith, compare.nil-cons c s)
str_leb_total (String.◌∷◌ c s) (String.◌∷◌ d t) h =
    ground (arith, compare.cons-cons c d s t, compare.cons-cons d c t s, str_leb_total s t)

pub str_leb_trans : (s t u : String) → str_leb s t ≡ true → str_leb t u ≡ true → str_leb s u ≡ true
str_leb_trans String.[] t String.[] h k = refl
str_leb_trans String.[] t (String.◌∷◌ e u) h k = ground (arith, compare.nil-cons e u)
str_leb_trans (String.◌∷◌ c s) String.[] u h k = ground (arith, compare.cons-nil c s)
str_leb_trans (String.◌∷◌ c s) (String.◌∷◌ d t) String.[] h k = ground (arith, compare.cons-nil d t)
str_leb_trans (String.◌∷◌ c s) (String.◌∷◌ d t) (String.◌∷◌ e u) h k = ground (
  arith,
  compare.cons-cons c d s t,
  compare.cons-cons d e t u,
  compare.cons-cons c e s u,
  str_leb_trans s t u,
)

pub str_leb_antisymm : (s t : String) → str_leb s t ≡ true → str_leb t s ≡ true → s ≡ t
str_leb_antisymm s t h k = path_by_compare s t (both s t h k)
  where
    both :
        (s t : String)
        → str_leb s t ≡ true
        → str_leb t s ≡ true
        → compare s t ≡ Prim.Native.Nat.Ordering.eq
    both String.[] String.[] h k = refl
    both String.[] (String.◌∷◌ d t) h k = ground (arith, compare.cons-nil d t)
    both (String.◌∷◌ c s) String.[] h k = ground (arith, compare.cons-nil c s)
    both (String.◌∷◌ c s) (String.◌∷◌ d t) h k =
        ground (arith, compare.cons-cons c d s t, compare.cons-cons d c t s, both s t)
