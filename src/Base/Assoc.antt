-- ===== src/Base/Assoc.antt =====
-- A Go map with string keys, as an association list without repeated keys.
use Prim.Native.String.{String}
use mathlib.Core.Path.{◌≡◌, refl, sym, ap, ◌∙◌}
use mathlib.Core.Logic.{◌↔◌}
use mathlib.Core.Bool.{Bool, true, false}
use mathlib.Core.Option.{Option, none, some}
use mathlib.Core.List.{List, [], ◌∷◌, map}
use native.Mathlib.Omega.{arith}
use text.Mathlib.Text.{◌==◌ as str_eq}
use text.Mathlib.TextEquality.{eq_iff}
use ai_workstation_core.Base.Tests.{if◌then◌else◌, if_rule}
use ai_workstation_core.Base.Lists.{all}

abbrev pub Assoc {ℓ} : Type ℓ → Type ℓ
Assoc V = List (String × V)

abbrev pub keys {ℓ} : {V : Type ℓ} → Assoc V → List String
keys m = map (λ e. e.0) m

module _ {ℓ} {V : Type ℓ} where
  -- `v, ok := m[k]`
  unfoldable pub lookup : String → Assoc V → Option V
  lookup key [] = none
  lookup key ((id, value) ∷ entries) =
      let later = lookup key entries in if str_eq id key then some value else later

  -- `_, ok := m[k]`
  abbrev pub has : String → Assoc V → Bool
  has key entries = elim (lookup key entries) [ none ↦ false | some _ ↦ true ]

  -- `m[k]`, with the zero value for a missing key
  abbrev pub lookup_or : String → Assoc V → V → V
  lookup_or key entries zero_value = elim (lookup key entries) [
    | none ↦ zero_value
    | some value ↦ value
  ]

  -- `m[k] = v`
  unfoldable pub insert : String → V → Assoc V → Assoc V
  insert key value [] = (key, value) ∷ []
  insert key value ((id, old) ∷ entries) =
      let changed = insert key value entries in
      if str_eq id key then (key, value) ∷ entries else (id, old) ∷ changed

  -- `delete(m, k)`
  unfoldable pub remove : String → Assoc V → Assoc V
  remove key [] = []
  remove key ((id, value) ∷ entries) =
      let rest = remove key entries in if str_eq id key then rest else (id, value) ∷ rest

  -- What a look-up finds after a deletion.
  pub lookup-remove :
      (key asked : String) (entries : Assoc V)
      → lookup asked (remove key entries)
        ≡ (if str_eq key asked then none else lookup asked entries)
  unfolding remove lookup
  lookup-remove key asked [] = ground arith
  lookup-remove key asked ((id, old) ∷ entries) =
      ground
        (arith, lookup-remove key asked entries, eq_iff id asked, eq_iff id key, eq_iff key asked)

  -- What a look-up finds after a write.
  pub lookup-insert :
      (key asked : String) (value : V) (entries : Assoc V)
      → lookup asked (insert key value entries)
        ≡ (if str_eq key asked then some value else lookup asked entries)
  unfolding insert lookup
  lookup-insert key asked value [] = refl
  lookup-insert key asked value ((id, old) ∷ entries) = ground (
    arith,
    lookup-insert key asked value entries,
    eq_iff id asked,
    eq_iff id key,
    eq_iff key asked,
  )

  -- No key stands twice.
  abbrev pub IsMap : Assoc V → Type 0
  IsMap [] = Unit
  IsMap ((k, v) ∷ m) = (has k m ≡ false) × IsMap m

  has-insert :
      (k j : String) (v : V) (m : Assoc V) → str_eq k j ≡ false → has j (insert k v m) ≡ has j m
  has-insert k j v m h = ground (arith, lookup-insert k j v m)

  pub insert-IsMap : (k : String) (v : V) (m : Assoc V) → IsMap m → IsMap (insert k v m)
  unfolding insert lookup
  insert-IsMap k v [] d = (refl, tt)
  insert-IsMap k v ((j, w) ∷ m) d =
      if_rule IsMap (str_eq j k)
        (λ same. (ap (λ i. has i m) (sym ((eq_iff j k).0 same)) ∙ d.0, d.1))
        (λ differ. (
          has-insert k j v m (ground (arith, eq_iff j k, eq_iff k j)) ∙ d.0,
          insert-IsMap k v m d.1,
        ))

  -- A loop over the entries of a map sees what its look-ups find.
  pub entries_iff :
      (P : String → V → Bool) (m : Assoc V)
      → IsMap m
      → (all (λ e. P e.0 e.1) m ≡ true)
        ↔ ((k : String) (v : V) → lookup k m ≡ some v → P k v ≡ true)
  unfolding lookup
  entries_iff P [] d = (λ h k v found. absurd (cc found), λ h. refl)
  entries_iff P ((j, w) ∷ m) d = (
    λ h k v found. ground (arith, eq_iff j k, (entries_iff P m d.1).0 (ground arith) k v),
    λ h. ground (
      arith,
      eq_iff j j,
      h j w,
      (entries_iff P m d.1).1 (λ k v found. ground (arith, eq_iff j k, h k v)),
    ),
  )
