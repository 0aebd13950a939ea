-- ===== src/Server/Peers/Entering.antt =====
-- The first critical section of `connect` keeps the two ends of a tunnel associated.
use securetunnel.Base.{
  suc, ◌≡◌, ◌≢◌, refl, sym, subst, ◌∙◌, ap, inl, inr, Bool, true, false, List, Option, none, some,
  arith, Text, Bool-cases, if◌then◌else◌,
}
use securetunnel.Base.Dict.{lookup, insert, lookup-insert}
use securetunnel.Server.Api.Connect.{is_named}
use securetunnel.Server.Peers.{
  Key, key_eqb, key_eqb_iff, key_eq, other_key, ConRef, PeerConnection, Manager, set_con, associate,
  new_peer_connection, close_existing, associate_peers, enter, is_ref,
}
use securetunnel.Server.Peers.Entry.{
  Entry, Inv, Same, close-Same, other_key-ne, other_key_twice, is_ref-owner,
}

-- What the first critical section does to the map, the keys and the associations.
record Entered (m : Manager) (k : Key) (p : Option ConRef) (n : Manager) : Type 0 where
  map_is : n.peer_con_map ≡ insert k m.next m.peer_con_map
  next_is : n.next ≡ suc m.next
  new_key : (n.con m.next).key ≡ k
  new_associated : (n.con m.next).associated_con ≡ p
  old_key : (i : ConRef) → i ≢ m.next → (n.con i).key ≡ (m.con i).key
  old_associated :
      (i : ConRef)
      → i ≢ m.next
      → (n.con i).associated_con ≡ (if is_ref p i then some m.next else (m.con i).associated_con)

close_existing-Same :
    (write_ok : Bool) (o : Option ConRef) (m : Manager) → Same m (close_existing write_ok o m)
close_existing-Same write_ok none m = record {
  map_kept = refl;
  next_kept = refl;
  key_kept = λ i. refl;
  associated_kept = λ i. refl;
}
close_existing-Same write_ok (some r) m = close-Same write_ok r _ _ m

associate_peers-Entered :
    (m m2 : Manager) (k : Key) (c : PeerConnection) (p : Option ConRef)
    → c.key ≡ k
    → p ≢ some m.next
    → Same (record (set_con m.next c m) { next = suc m.next }) m2
    → Entered m k p (record (associate_peers m.next p m2) {
      peer_con_map = insert k m.next (associate_peers m.next p m2).peer_con_map;
    })
unfolding associate
associate_peers-Entered m m2 k c none ck old same = record {
  map_is = ap (insert k m.next) same.map_kept;
  next_is = same.next_kept;
  new_key = ground (arith, same.key_kept m.next);
  new_associated = ground arith;
  old_key = λ i h. ground (arith, same.key_kept i);
  old_associated = λ i h. ground (arith, same.associated_kept i);
}
associate_peers-Entered m m2 k c (some o) ck old same = record {
  map_is = ap (insert k m.next) same.map_kept;
  next_is = same.next_kept;
  new_key = ground (arith, same.key_kept m.next);
  new_associated = ground arith;
  old_key = λ i h. ground (arith, same.key_kept i);
  old_associated = λ i h. ground (arith, same.associated_kept i);
}

enter-Entered :
    (write_ok : Bool) (k : Key) (services : List Text) (m : Manager)
    → lookup (other_key k) m.peer_con_map ≢ some m.next
    → Entered m k (lookup (other_key k) m.peer_con_map) (enter write_ok k services m)
unfolding enter
enter-Entered write_ok k services m old =
    let r = m.next in
    let m1 = record (set_con r (new_peer_connection k services) m) { next = suc r } in
    let same = close_existing-Same write_ok (lookup k m.peer_con_map) m1 in
    let m2 = close_existing write_ok (lookup k m.peer_con_map) m1 in
    rw same.map_kept (
      associate_peers-Entered m m2 k (new_peer_connection k services)
        (lookup (other_key k) m.peer_con_map) refl old same)

module _ (m n : Manager) (k : Key) (named : is_named k.mode ≡ true) (inv : Inv m)
    (f : Entered m k (lookup (other_key k) m.peer_con_map) n) where
  entered_lookup :
      (x : Key)
      → lookup x n.peer_con_map ≡ (if key_eqb k x then some m.next else lookup x m.peer_con_map)
  entered_lookup x = ap (lookup x) f.map_is ∙ lookup-insert k x m.next m.peer_con_map

  Entered-new : Entry n k m.next
  Entered-new = record {
    created = omega (arith, f.next_is);
    own_key = f.new_key;
    named = named;
    partner = ground (arith, f.new_associated, entered_lookup (other_key k), other_key-ne k named);
  }

  Entered-partner :
      (j : Key) (r : ConRef)
      → key_eqb k j ≡ false
      → lookup j m.peer_con_map ≡ some r
      → (n.con r).associated_con ≡ lookup (other_key j) n.peer_con_map
  Entered-partner j r differs e =
      let entry = inv j r e in
      let changed = f.old_associated r (λ q. absurd (omega (arith, entry.created))) in
      elim (Bool-cases (key_eqb k (other_key j))) [
        | inl pair ↦
            let eq : k ≡ other_key j = (key_eqb_iff k (other_key j)).0 pair in
            let back : other_key k ≡ j = ap other_key eq ∙ other_key_twice j entry.named in
            let at : lookup (other_key k) m.peer_con_map ≡ some r =
              ap (λ x. lookup x m.peer_con_map) back ∙ e in
            ground (arith, changed, at, entered_lookup (other_key j))
        | inr apart ↦ elim (Bool-cases (is_ref (lookup (other_key k) m.peer_con_map) r)) [
          | inl hit ↦
              let back : other_key k ≡ j = is_ref-owner m (other_key k) j r inv e hit in
              let eq : k ≡ other_key j = sym (other_key_twice k named) ∙ ap other_key back in
              absurd (ground (arith, key_eqb_iff k (other_key j)))
          | inr miss ↦ ground (arith, changed, entry.partner, entered_lookup (other_key j))
        ]
      ]

  Entered-old :
      (j : Key) (r : ConRef) → key_eqb k j ≡ false → lookup j m.peer_con_map ≡ some r → Entry n j r
  Entered-old j r differs e =
      let entry = inv j r e in
      record {
        created = omega (arith, entry.created, f.next_is);
        own_key = f.old_key r (λ q. absurd (omega (arith, entry.created))) ∙ entry.own_key;
        named = entry.named;
        partner = Entered-partner j r differs e;
      }

  Entered-Inv : Inv n
  Entered-Inv j r e = elim (Bool-cases (key_eqb k j)) [
    | inl here ↦
        let at : k ≡ j = (key_eqb_iff k j).0 here in
        let ref : m.next ≡ r = ground (arith, entered_lookup j) in
        subst (λ x. Entry n x r) at (subst (Entry n k) ref Entered-new)
    | inr there ↦ Entered-old j r there (ground (arith, entered_lookup j))
  ]

pub enter-Inv :
    (write_ok : Bool) (k : Key) (services : List Text) (m : Manager)
    → is_named k.mode ≡ true
    → Inv m
    → Inv (enter write_ok k services m)
enter-Inv write_ok k services m named inv =
    let f =
      enter-Entered write_ok k services m
        (λ e. absurd (omega (arith, (inv (other_key k) m.next e).created))) in
    Entered-Inv m (enter write_ok k services m) k named inv f
