-- ===== src/Server/Store/Revisions.antt =====
-- `dataTable` against a partial map: what each operation does on every branch, and what the revision
-- numbers guarantee.
use mathlib.Core.Path.{fun_ext}
use securetunnel.Base.{
  ℕ, ◌≡◌, ◌≢◌, refl, sym, ap, ◌∙◌, inl, inr, List, [], ◌∷◌, Option, none, some, arith, KeyEq, ◌==◌,
  eqb, if◌then◌else◌, Option-cases, Bool-cases,
}
use securetunnel.Base.Dict.{lookup, insert, erase, lookup-insert, lookup-erase, lookup-insert_self}
use securetunnel.Server.Store.Table.{
  Operator, Error, already_existed, not_found, update_conflict, Result, ok, err, next_rev, DataMap,
  get_with_key, add, update, delete,
}

-- What `SetRev` of an operator leaves alone and what it sets.
pub record OperatorLaws {K V : Type 0} (op : Operator K V) : Type 0 where
  pub key_kept : (v : V) (rev : ℕ) → op.get_key (op.set_rev v rev) ≡ op.get_key v
  pub rev_set : (v : V) (rev : ℕ) → op.get_rev (op.set_rev v rev) ≡ rev

next_rev-ne : (rev : ℕ) → next_rev rev ≢ rev
next_rev-ne rev = omega arith

pub data Command (K V : Type 0) : Type 0 where
  adds updates : V → Command K V
  deletes : K → Command K V

-- The contract: a table is a partial map.
abbrev pub View : Type 0 → Type 0 → Type 0
View K V = K → Option V

module _ {K V : Type 0} ⦃e : KeyEq K⦄ where
  abbrev pub view : DataMap K V → View K V
  view table key = get_with_key key table

  abbrev pub set_view : K → Option V → View K V → View K V
  set_view key o m j = if key == j then o else m j

  -- A command on the partial map: the error, if one is returned, and the map after it.
  unfoldable pub specified : Operator K V → Command K V → View K V → Option Error × View K V
  specified op (adds v) m = elim (m (op.get_key v)) [
    | some _ ↦ (some already_existed, m)
    | none ↦ (none, set_view (op.get_key v) (some v) m)
  ]
  specified op (updates v) m = elim (m (op.get_key v)) [
    | none ↦ (some not_found, m)
    | some target ↦
        if eqb (op.get_rev target) (op.get_rev v)
        then (none, set_view (op.get_key v) (some (op.set_rev v (next_rev (op.get_rev target)))) m)
        else (some update_conflict, m)
  ]
  specified op (deletes key) m = (none, set_view key none m)

  abbrev after : DataMap K V → Result (DataMap K V) → Option Error × DataMap K V
  after table (ok t) = (none, t)
  after table (err x) = (some x, table)

  -- The same command on the table.
  unfoldable pub execute : Operator K V → Command K V → DataMap K V → Option Error × DataMap K V
  execute op (adds v) table = after table (add op v table)
  execute op (updates v) table = after table (update op v table)
  execute op (deletes key) table = (none, delete key table)

  view-insert :
      (k : K) (v : V) (t : DataMap K V) → view (insert k v t) ≡ set_view k (some v) (view t)
  unfolding get_with_key
  view-insert k v t = fun_ext λ j. lookup-insert k j v t

  view-erase : (k : K) (t : DataMap K V) → view (erase k t) ≡ set_view k none (view t)
  unfolding get_with_key
  view-erase k t = fun_ext λ j. lookup-erase k j t

  abbrev pub viewed : Option Error × DataMap K V → Option Error × View K V
  viewed (x, t) = (x, view t)

  -- One command on a table does to the partial map what the contract says, errors included.
  pub execute-specified :
      (op : Operator K V) (c : Command K V) (t : DataMap K V)
      → viewed (execute op c t) ≡ specified op c (view t)
  unfolding execute specified add update delete get_with_key
  execute-specified op (adds v) t = elim (Option-cases (lookup (op.get_key v) t)) [
    | inl q ↦ rw (q, add, specified) (rw (view-insert (op.get_key v) v t))
    | inr (w, q) ↦ rw (q, add, specified)
  ]
  execute-specified op (updates v) t = elim (Option-cases (lookup (op.get_key v) t)) [
    | inl q ↦ rw (q, update, specified)
    | inr (w, q) ↦ elim (Bool-cases (eqb (op.get_rev w) (op.get_rev v))) [
      | inl same ↦
          rw (q, update, specified, same) (ap (λ x. (none, x)) (view-insert (op.get_key v) _ t))
      | inr differs ↦ rw (q, update, specified, differs)
    ]
  ]
  execute-specified op (deletes key) t = ap (λ x. (none, x)) (view-erase key t)

  unfoldable pub execute_all :
      Operator K V → List (Command K V) → DataMap K V → List (Option Error) × DataMap K V
  execute_all op [] t = ([], t)
  execute_all op (c ∷ cs) t =
      let (x, t') = execute op c t in let (xs, t'') = execute_all op cs t' in (x ∷ xs, t'')

  unfoldable pub specified_all :
      Operator K V → List (Command K V) → View K V → List (Option Error) × View K V
  specified_all op [] m = ([], m)
  specified_all op (c ∷ cs) m =
      let (x, m') = specified op c m in let (xs, m'') = specified_all op cs m' in (x ∷ xs, m'')

  -- After any list of adds, updates and deletes, the errors returned and the partial map that the
  -- table stands for are those of the contract, a partial map whose updates are accepted at the
  -- stored revision only.
  pub execute_all-specified_all :
      (op : Operator K V) (cs : List (Command K V)) (t : DataMap K V)
      → ((execute_all op cs t).0 ≡ (specified_all op cs (view t)).0)
        × (view (execute_all op cs t).1 ≡ (specified_all op cs (view t)).1)
  unfolding execute_all specified_all
  execute_all-specified_all op [] t = (refl, refl)
  execute_all-specified_all op (c ∷ cs) t =
      let one = execute-specified op c t in
      let (xs, m) = execute_all-specified_all op cs (execute op c t).1 in
      rw (← one) (ap (◌∷◌ (execute op c t).0) xs, m)

  -- A successful update found the entry at the revision that the new value carries.
  pub update-ok :
      (op : Operator K V) (v : V) (t t' : DataMap K V)
      → update op v t ≡ ok t'
      → (target : V) × (lookup (op.get_key v) t ≡ some target)
        × (op.get_rev target ≡ op.get_rev v)
        × (t' ≡ insert (op.get_key v) (op.set_rev v (next_rev (op.get_rev target))) t)
  unfolding update
  update-ok op v t t' u = elim (Option-cases (lookup (op.get_key v) t)) [
    | inl q ↦ absurd (ground arith)
    | inr (target, q) ↦ (target, q, ground arith, ground arith)
  ]

  update-conflict :
      (op : Operator K V) (v target : V) (t : DataMap K V)
      → lookup (op.get_key v) t ≡ some target
      → op.get_rev target ≢ op.get_rev v
      → update op v t ≡ err update_conflict
  unfolding update
  update-conflict op v target t q h = ground arith

  -- If the operator keeps its laws, then of two updates of one key made from one revision, the
  -- second is refused as a conflict once the first has succeeded.
  pub second_update_conflicts :
      (op : Operator K V)
      → OperatorLaws op
      → (v w : V) (t t' : DataMap K V) → op.get_key v ≡ op.get_key w
      → op.get_rev v ≡ op.get_rev w
      → update op v t ≡ ok t'
      → update op w t' ≡ err update_conflict
  second_update_conflicts op laws v w t t' k r u =
      let (target, q, same, e') = update-ok op v t t' u in
      let rev : ℕ = next_rev (op.get_rev target) in
      let found : lookup (op.get_key w) t' ≡ some (op.set_rev v rev) =
        rw (e', ← k) (lookup-insert_self (op.get_key v) (op.set_rev v rev) t) in
      update-conflict op w (op.set_rev v rev) t' found
        (λ x. next_rev-ne (op.get_rev target) (sym (laws.rev_set v rev) ∙ x ∙ sym r ∙ sym same))
