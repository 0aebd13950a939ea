-- ===== src/Base/Keys.antt =====
-- Keys with a Boolean equality, and texts as lists of code points.
use Prim.Native.Nat.{ℕ}
use Prim.Native.Char.{code}
use Prim.Native.String.{String}
use mathlib.Core.Path.{◌≡◌, refl}
use mathlib.Core.Logic.{◌↔◌}
use mathlib.Core.Bool.{Bool, true, false, ◌&&◌}
use mathlib.Core.List.{List, [], ◌∷◌}
use native.Mathlib.Omega.{arith}
use securetunnel.Base.Tests.{eqb, eqb_iff}

-- A type whose values can be keys of a Go map.
pub record KeyEq {ℓ} (K : Type ℓ) : Type ℓ where
  pub is_same : K → K → Bool
  pub is_same_iff : (i j : K) → (is_same i j ≡ true) ↔ (i ≡ j)

instance abbrev pub nat_eq : KeyEq ℕ
nat_eq = record { is_same = eqb; is_same_iff = eqb_iff }

infix 50 ◌==◌
abbrev pub ◌==◌ {ℓ} : {K : Type ℓ} ⦃keys : KeyEq K⦄ → K → K → Bool
◌==◌ ⦃keys⦄ = keys.is_same

pub ==_refl {ℓ} : {K : Type ℓ} ⦃keys : KeyEq K⦄ (k : K) → (k == k) ≡ true
==_refl ⦃keys⦄ k = (keys.is_same_iff k k).1 refl

-- A Go string that holds valid UTF-8, as its code points.
abbrev pub Text : Type 0
Text = List ℕ

abbrev pub codes : String → Text
codes String.[] = []
codes (String.◌∷◌ c s) = code c ∷ codes s

unfoldable pub text_eqb : Text → Text → Bool
text_eqb [] [] = true
text_eqb [] (d ∷ t) = false
text_eqb (c ∷ s) [] = false
text_eqb (c ∷ s) (d ∷ t) = eqb c d && text_eqb s t

pub text_eqb_iff : (s t : Text) → (text_eqb s t ≡ true) ↔ (s ≡ t)
unfolding text_eqb
text_eqb_iff [] [] = ground arith
text_eqb_iff [] (d ∷ t) = ground arith
text_eqb_iff (c ∷ s) [] = ground arith
text_eqb_iff (c ∷ s) (d ∷ t) = ground (arith, text_eqb_iff s t)

instance abbrev pub text_eq : KeyEq Text
text_eq = record { is_same = text_eqb; is_same_iff = text_eqb_iff }
