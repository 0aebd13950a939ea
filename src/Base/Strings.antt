-- ===== src/Base/Strings.antt =====
-- `strings.Split` and `strings.TrimSpace` of Go's standard library, over code points.
use mathlib.Core.List.{reverse, reverse-cons, reverse-reverse}
use securetunnel.Base.{
  ℕ, zero, suc, ◌≡◌, ◌≢◌, refl, sym, Bool, true, false, ◌&&◌, ◌||◌, List, [], ◌∷◌, ◌++◌,
  append_assoc, append-nil, arith, eqb, leb, Text, length, All, All-append, codes, if◌then◌else◌,
  ap, ◌-◌, ◌∙◌,
}

unfoldable pub is_prefix : Text → Text → Bool
is_prefix [] s = true
is_prefix (p ∷ ps) [] = false
is_prefix (p ∷ ps) (c ∷ s) = eqb p c && is_prefix ps s

-- The parts between the occurrences of `sep`, from the left. `skip` counts the code points of an
-- occurrence that are still to be passed over, and `cur` is the part so far.
unfoldable pub split_from : Text → ℕ → Text → Text → List Text
unfolding is_prefix
split_from sep skip cur [] = cur ∷ []
split_from sep (suc skip) cur (c ∷ s) = split_from sep skip cur s
split_from sep zero cur (c ∷ s) = elim (is_prefix sep (c ∷ s)) [
  | true ↦ cur ∷ split_from sep (length sep - 1) [] s
  | false ↦ split_from sep zero (cur ++ c ∷ []) s
]

-- `strings.Split(s, sep)` for a `sep` that is not empty.
unfoldable pub split : Text → Text → List Text
unfolding split_from
split s sep = split_from sep zero [] s

-- `unicode.IsSpace`.
unfoldable pub is_space : ℕ → Bool
is_space c =
    (leb 0x09 c && leb c 0x0d)
    || eqb c 0x20
    || eqb c 0x85
    || eqb c 0xa0
    || eqb c 0x1680
    || (leb 0x2000 c && leb c 0x200a)
    || eqb c 0x2028
    || eqb c 0x2029
    || eqb c 0x202f
    || eqb c 0x205f
    || eqb c 0x3000

unfoldable pub trim_left : Text → Text
unfolding is_space
trim_left [] = []
trim_left (c ∷ s) = if is_space c then trim_left s else c ∷ s

unfoldable pub trim_space : Text → Text
unfolding trim_left
trim_space s = reverse (trim_left (reverse (trim_left s)))

-- A text without a given code point.
abbrev pub Lacks : ℕ → Text → Type 0
Lacks b = All (λ c. c ≢ b)

-- What stands before the first code point of the separator goes to the current part.
pub split_from-head :
    (b : ℕ) (bs s rest cur : Text)
    → Lacks b s
    → split_from (b ∷ bs) zero cur (s ++ rest) ≡ split_from (b ∷ bs) zero (cur ++ s) rest
unfolding split_from
split_from-head b bs [] rest cur h = rw append-nil
split_from-head b bs (c ∷ s) rest cur h =
    ground (arith, split_from-head b bs s rest (cur ++ c ∷ []) h.1, append_assoc cur (c ∷ []) s)

split_from-sep :
    (b : ℕ) (s cur : Text)
    → split_from (b ∷ []) zero cur (b ∷ s) ≡ cur ∷ split_from (b ∷ []) zero [] s
unfolding split_from
split_from-sep b s cur = ground arith

-- A part without the separator, then the separator: that part comes first.
pub split-sep :
    (b : ℕ) (s rest : Text) → Lacks b s → split (s ++ b ∷ rest) (b ∷ []) ≡ s ∷ split rest (b ∷ [])
unfolding split
split-sep b s rest h = rw (split_from-head b [] s (b ∷ rest) [] h) (split_from-sep b rest s)

pub split-Lacks : (b : ℕ) (bs s : Text) → Lacks b s → split s (b ∷ bs) ≡ s ∷ []
unfolding split split_from
split-Lacks b bs s h =
    rw (ap (λ x. split_from (b ∷ bs) zero [] x) (sym (append-nil s)))
      (split_from-head b bs s [] [] h)

split_tests :
    (split (codes "a://b://") (codes "://") ≡ codes "a" ∷ codes "b" ∷ [] ∷ [])
    × (trim_space (codes "  x y ") ≡ codes "x y")
unfolding split trim_space
split_tests = (refl, refl)

-- A text without white space.
abbrev pub Spaceless : Text → Type 0
Spaceless = All (λ c. is_space c ≡ false)

trim_left-Spaceless : (s : Text) → Spaceless s → trim_left s ≡ s
unfolding trim_left
trim_left-Spaceless [] h = refl
trim_left-Spaceless (c ∷ s) h = rw h.0 refl

reverse-Spaceless : (s : Text) → Spaceless s → Spaceless (reverse s)
reverse-Spaceless [] h = tt
reverse-Spaceless (c ∷ s) h =
    rw (reverse-cons c s) (
      All-append (λ x. is_space x ≡ false) (reverse s) (c ∷ []) (reverse-Spaceless s h.1) (h.0, tt))

pub trim_space-Spaceless : (s : Text) → Spaceless s → trim_space s ≡ s
unfolding trim_space
trim_space-Spaceless s h =
    ap (λ x. reverse (trim_left (reverse x))) (trim_left-Spaceless s h)
    ∙ ap reverse (trim_left-Spaceless (reverse s) (reverse-Spaceless s h))
    ∙ reverse-reverse s
