-- ===== src/Server/Store/Table.antt =====
-- The generic `dataTable` of misc/server/store_memory.go.
use securetunnel.Base.{
  ℕ, ◌+◌, ◌%◌, ◌^◌, Bool, List, [], ◌∷◌, Option, none, some, KeyEq, eqb, if◌then◌else◌,
}
use securetunnel.Base.Dict.{lookup, insert, erase}

pub record Operator (K V : Type 0) : Type 0 where
  pub get_key : V → K
  pub get_rev : V → ℕ
  pub set_rev : V → ℕ → V

pub data Error : Type 0 where
  already_existed not_found update_conflict : Error

pub data Result {ℓ} (A : Type ℓ) : Type ℓ where
  ok : A → Result A
  err : Error → Result A

-- A revision is a Go `uint` of 64 bits.
abbrev pub next_rev : ℕ → ℕ
next_rev rev = (rev + 1) % 2 ^ 64

-- The entries in one order of iteration.
abbrev pub DataMap : Type 0 → Type 0 → Type 0
DataMap K V = List (K × V)

module _ {K V : Type 0} ⦃e : KeyEq K⦄ where
  unfoldable pub get_with_key : K → DataMap K V → Option V
  get_with_key key table = lookup key table

  unfoldable pub list : (V → Bool) → DataMap K V → List V
  list predicate [] = []
  list predicate ((k, v) ∷ table) =
      let rest = list predicate table in if predicate v then v ∷ rest else rest

  unfoldable pub add : Operator K V → V → DataMap K V → Result (DataMap K V)
  add op value table = elim (lookup (op.get_key value) table) [
    | some _ ↦ err already_existed
    | none ↦ ok (insert (op.get_key value) value table)
  ]

  unfoldable pub update : Operator K V → V → DataMap K V → Result (DataMap K V)
  update op value table = elim (lookup (op.get_key value) table) [
    | none ↦ err not_found
    | some target ↦
        if eqb (op.get_rev target) (op.get_rev value)
        then ok (insert (op.get_key value) (op.set_rev value (next_rev (op.get_rev target))) table)
        else err update_conflict
  ]

  unfoldable pub delete : K → DataMap K V → DataMap K V
  delete key table = erase key table
