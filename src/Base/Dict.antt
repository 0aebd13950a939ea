-- ===== src/Base/Dict.antt =====
-- Go maps as association lists: the order of the entries stands for one order of iteration.
use mathlib.Core.Path.{◌≡◌, refl}
use mathlib.Core.List.{List, [], ◌∷◌}
use mathlib.Core.Option.{Option, none, some}
use native.Mathlib.Omega.{arith}
use securetunnel.Base.Tests.{if◌then◌else◌}
use securetunnel.Base.Keys.{KeyEq, ◌==◌, ==_refl}

module _ {ℓ κ} {K : Type ℓ} {V : Type κ} ⦃e : KeyEq K⦄ where
  unfoldable pub lookup : K → List (K × V) → Option V
  lookup key [] = none
  lookup key ((other, value) ∷ rest) = if other == key then some value else lookup key rest

  unfoldable pub insert : K → V → List (K × V) → List (K × V)
  insert key value [] = (key, value) ∷ []
  insert key value ((other, old) ∷ rest) =
      if other == key then (key, value) ∷ rest else (other, old) ∷ insert key value rest

  unfoldable pub erase : K → List (K × V) → List (K × V)
  erase key [] = []
  erase key ((other, old) ∷ rest) =
      if other == key then erase key rest else (other, old) ∷ erase key rest

  pub lookup-insert :
      (key asked : K) (value : V) (map : List (K × V))
      → lookup asked (insert key value map)
        ≡ (if key == asked then some value else lookup asked map)
  unfolding lookup insert
  lookup-insert key asked value [] = refl
  lookup-insert key asked value ((other, old) ∷ rest) = ground (
    arith,
    e.is_same_iff key asked,
    e.is_same_iff other key,
    e.is_same_iff other asked,
    lookup-insert key asked value rest,
  )

  pub lookup-erase :
      (key asked : K) (map : List (K × V))
      → lookup asked (erase key map) ≡ (if key == asked then none else lookup asked map)
  unfolding lookup erase
  lookup-erase key asked [] = ground arith
  lookup-erase key asked ((other, old) ∷ rest) = ground (
    arith,
    e.is_same_iff key asked,
    e.is_same_iff other key,
    e.is_same_iff other asked,
    lookup-erase key asked rest,
  )

  pub lookup-insert_self : (k : K) (v : V) (m : List (K × V)) → lookup k (insert k v m) ≡ some v
  lookup-insert_self k v m = ground (arith, lookup-insert k k v m, ==_refl k)

  pub lookup-erase_self : (k : K) (m : List (K × V)) → lookup k (erase k m) ≡ none
  lookup-erase_self k m = ground (arith, lookup-erase k k m, ==_refl k)
