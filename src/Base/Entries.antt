-- ===== src/Base/Entries.antt =====
-- Predicates on every entry of a dictionary, and what the operations keep of them.
use mathlib.Core.Path.{◌≡◌, subst}
use mathlib.Core.Logic.{inl, inr}
use mathlib.Core.List.{List, [], ◌∷◌}
use mathlib.Core.Option.{some}
use native.Mathlib.Omega.{arith}
use securetunnel.Base.Tests.{Bool-cases}
use securetunnel.Base.Lists.{All}
use securetunnel.Base.Keys.{KeyEq, ◌==◌}
use securetunnel.Base.Dict.{lookup, insert, erase}

module _ {ℓ κ} {K : Type ℓ} {V : Type κ} where
  abbrev pub AllEntries {μ} : (K → V → Type μ) → List (K × V) → Type μ
  AllEntries P m = All (λ e. P e.0 e.1) m

  pub AllEntries-imp {μ} :
      (P Q : K → V → Type μ) (m : List (K × V))
      → ((k : K) (v : V) → P k v → Q k v)
      → AllEntries P m
      → AllEntries Q m
  AllEntries-imp P Q [] f h = h
  AllEntries-imp P Q ((k, v) ∷ m) f h = (f k v h.0, AllEntries-imp P Q m f h.1)

module _ {ℓ κ μ} {K : Type ℓ} {V : Type κ} ⦃e : KeyEq K⦄ (P : K → V → Type μ) where
  pub AllEntries-lookup :
      (key : K) (v : V) (m : List (K × V)) → AllEntries P m → lookup key m ≡ some v → P key v
  unfolding lookup
  AllEntries-lookup key v [] h q = absurd (ground arith)
  AllEntries-lookup key v ((k, w) ∷ m) h q = elim (Bool-cases (k == key)) [
    | inl same ↦
        let at : k ≡ key = (e.is_same_iff k key).0 same in
        let is : w ≡ v = ground arith in subst (λ x. P x v) at (subst (λ x. P k x) is h.0)
    | inr other ↦ AllEntries-lookup key v m h.1 (ground arith)
  ]

  pub AllEntries-insert :
      (key : K) (v : V) (m : List (K × V))
      → AllEntries P m
      → P key v
      → AllEntries P (insert key v m)
  unfolding insert
  AllEntries-insert key v [] h p = (p, tt)
  AllEntries-insert key v ((k, w) ∷ m) h p = elim (Bool-cases (k == key)) [
    | inl same ↦ rw same (p, h.1)
    | inr other ↦ rw other (h.0, AllEntries-insert key v m h.1 p)
  ]

  pub AllEntries-erase : (key : K) (m : List (K × V)) → AllEntries P m → AllEntries P (erase key m)
  unfolding erase
  AllEntries-erase key [] h = h
  AllEntries-erase key ((k, w) ∷ m) h = elim (Bool-cases (k == key)) [
    | inl same ↦ rw same (AllEntries-erase key m h.1)
    | inr other ↦ rw other (h.0, AllEntries-erase key m h.1)
  ]
