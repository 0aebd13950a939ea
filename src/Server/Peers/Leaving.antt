-- ===== src/Server/Peers/Leaving.antt =====
-- The second critical section of `connect` keeps the two ends of a tunnel associated.
use securetunnel.Base.{
  ◌≡◌, refl, sym, ◌∙◌, ap, subst, eqb_iff, inl, inr, true, false, Option, none, some, arith,
  Bool-cases, if◌then◌else◌,
}
use securetunnel.Base.Dict.{lookup, erase, lookup-erase}
use securetunnel.Server.Api.Connect.{is_named}
use securetunnel.Server.Peers.{
  Key, key_eqb, key_eqb_iff, key_eq, other_key, ConRef, left, Manager, set_con, associate,
  dissociate, is_ref, leave,
}
use securetunnel.Server.Peers.Entry.{Inv, Same-Inv, other_key-ne, other_key_twice, is_ref-owner}

-- What the second critical section does for a connection that is still in the map.
record Left (m : Manager) (k : Key) (p : Option ConRef) (n : Manager) : Type 0 where
  map_is : n.peer_con_map ≡ erase k m.peer_con_map
  next_is : n.next ≡ m.next
  keys : (i : ConRef) → (n.con i).key ≡ (m.con i).key
  associations :
      (i : ConRef)
      → (n.con i).associated_con ≡ (if is_ref p i then none else (m.con i).associated_con)

dissociate-Left :
    (m : Manager) (k : Key) (q : ConRef) (p : Option ConRef)
    → Left m k p (
        dissociate p (record (set_con q (record (m.con q) { phase = left }) m) {
          peer_con_map = erase k m.peer_con_map;
        }))
unfolding associate
dissociate-Left m k q none = record {
  map_is = refl;
  next_is = refl;
  keys = λ i. ground arith;
  associations = λ i. ground arith;
}
dissociate-Left m k q (some o) = record {
  map_is = refl;
  next_is = refl;
  keys = λ i. ground arith;
  associations = λ i. ground arith;
}

module _ (m n : Manager) (k : Key) (named : is_named k.mode ≡ true) (inv : Inv m)
    (f : Left m k (lookup (other_key k) (erase k m.peer_con_map)) n) where
  left_lookup :
      (x : Key) → lookup x n.peer_con_map ≡ (if key_eqb k x then none else lookup x m.peer_con_map)
  left_lookup x = ap (lookup x) f.map_is ∙ lookup-erase k x m.peer_con_map

  other_lookup : lookup (other_key k) (erase k m.peer_con_map) ≡ lookup (other_key k) m.peer_con_map
  other_lookup = ground (arith, lookup-erase k (other_key k) m.peer_con_map, other_key-ne k named)

  Left-partner :
      (j : Key) (r : ConRef)
      → key_eqb k j ≡ false
      → lookup j m.peer_con_map ≡ some r
      → (n.con r).associated_con ≡ lookup (other_key j) n.peer_con_map
  Left-partner j r differs e =
      let entry = inv j r e in
      elim (Bool-cases (key_eqb k (other_key j))) [
        | inl pair ↦
            let eq : k ≡ other_key j = (key_eqb_iff k (other_key j)).0 pair in
            let back : other_key k ≡ j = ap other_key eq ∙ other_key_twice j entry.named in
            let at : lookup (other_key k) (erase k m.peer_con_map) ≡ some r =
              other_lookup ∙ ap (λ x. lookup x m.peer_con_map) back ∙ e in
            ground (arith, f.associations r, at, left_lookup (other_key j))
        | inr apart ↦ elim (Bool-cases (is_ref (lookup (other_key k) (erase k m.peer_con_map)) r)) [
          | inl hit ↦
              let there : is_ref (lookup (other_key k) m.peer_con_map) r ≡ true =
                ap (λ o. is_ref o r) (sym other_lookup) ∙ hit in
              let back : other_key k ≡ j = is_ref-owner m (other_key k) j r inv e there in
              let eq : k ≡ other_key j = sym (other_key_twice k named) ∙ ap other_key back in
              absurd (ground (arith, key_eqb_iff k (other_key j)))
          | inr miss ↦ ground (arith, f.associations r, entry.partner, left_lookup (other_key j))
        ]
      ]

  Left-Inv : Inv n
  Left-Inv j r e = elim (Bool-cases (key_eqb k j)) [
    | inl here ↦ absurd (ground (arith, left_lookup j))
    | inr there ↦
        let stays : lookup j m.peer_con_map ≡ some r = ground (arith, left_lookup j) in
        let entry = inv j r stays in
        record {
          created = omega (arith, entry.created, f.next_is);
          own_key = f.keys r ∙ entry.own_key;
          named = entry.named;
          partner = Left-partner j r there stays;
        }
  ]

pub leave-Inv : (q : ConRef) (m : Manager) → Inv m → Inv (leave q m)
unfolding leave
leave-Inv q m inv =
    let k : Key = (m.con q).key in
    elim (Bool-cases (is_ref (lookup k m.peer_con_map) q)) [
      | inl current ↦
          let at : lookup k m.peer_con_map ≡ some q = ground arith in
          rw (current, leave)
            (Left-Inv m _ k (inv k q at).named inv
              (dissociate-Left m k q (lookup (other_key k) (erase k m.peer_con_map))))
      | inr stale ↦
          rw (stale, leave)
            (Same-Inv
              (record {
                map_kept = refl;
                next_kept = refl;
                key_kept = λ i. ground arith;
                associated_kept = λ i. ground arith;
              })
              inv)
    ]

leave-map_own :
    (q : ConRef) (m : Manager)
    → lookup (m.con q).key m.peer_con_map ≡ some q
    → (leave q m).peer_con_map ≡ erase (m.con q).key m.peer_con_map
unfolding leave
leave-map_own q m at =
    let k : Key = (m.con q).key in
    let current : is_ref (lookup k m.peer_con_map) q ≡ true =
      ap (λ o. is_ref o q) at ∙ (eqb_iff q q).1 refl in
    rw (current, leave)
      (dissociate-Left m k q (lookup (other_key k) (erase k m.peer_con_map))).map_is

-- What is in the map when the current connection of a key has left.
pub leave-map :
    (q : ConRef) (k : Key) (m : Manager)
    → Inv m
    → lookup k m.peer_con_map ≡ some q
    → (leave q m).peer_con_map ≡ erase k m.peer_con_map
leave-map q k m inv at =
    subst
      (λ x. lookup x m.peer_con_map ≡ some q → (leave q m).peer_con_map ≡ erase x m.peer_con_map)
      (inv k q at).own_key (leave-map_own q m) at
