-- ===== src/Server/Peers/Entry.antt =====
-- The invariant of the map of connections, and the steps that leave it alone.
use securetunnel.Base.{
  ℕ, ◌<◌, ◌≡◌, ◌≢◌, refl, sym, ◌∙◌, ap, inl, inr, Bool, true, false, some, arith, Text,
  Option-cases,
}
use securetunnel.Base.Dict.{lookup}
use securetunnel.Aws.{Mode, source, destination, other, other_mode}
use securetunnel.Server.Api.Connect.{is_named}
use securetunnel.Server.Peers.{
  Key, key_eqb, key_eqb_iff, key_eq, other_key, ConRef, Manager, close, end_run, is_ref,
}

-- What holds of an entry of the map.
pub record Entry (m : Manager) (k : Key) (r : ConRef) : Type 0 where
  pub created : r < m.next
  pub own_key : (m.con r).key ≡ k
  pub named : is_named k.mode ≡ true
  pub partner : (m.con r).associated_con ≡ lookup (other_key k) m.peer_con_map

abbrev pub Inv : Manager → Type 0
Inv m = (k : Key) (r : ConRef) → lookup k m.peer_con_map ≡ some r → Entry m k r

-- A step that changes neither the map nor the keys and associations of the connections.
pub record Same (m n : Manager) : Type 0 where
  pub map_kept : n.peer_con_map ≡ m.peer_con_map
  pub next_kept : n.next ≡ m.next
  pub key_kept : (r : ConRef) → (n.con r).key ≡ (m.con r).key
  pub associated_kept : (r : ConRef) → (n.con r).associated_con ≡ (m.con r).associated_con

pub Same-Inv : {m n : Manager} → Same m n → Inv m → Inv n
Same-Inv {m} {n} same inv k r e =
    let entry = inv k r (rw (← same.map_kept) e) in
    record {
      created = omega (arith, entry.created, same.next_kept);
      own_key = same.key_kept r ∙ entry.own_key;
      named = entry.named;
      partner =
          same.associated_kept r ∙ entry.partner ∙ ap (lookup (other_key k)) (sym same.map_kept);
    }

pub close-Same :
    (write_ok : Bool) (r : ConRef) (code : ℕ) (text : Text) (m : Manager)
    → Same m (close write_ok r code text m)
unfolding close
close-Same write_ok r code text m = record {
  map_kept = refl;
  next_kept = refl;
  key_kept = λ i. ground arith;
  associated_kept = λ i. ground arith;
}

pub named-ne : (m : Mode) → is_named m ≡ true → other_mode m ≢ m
unfolding other_mode
named-ne source h e = absurd (ground arith)
named-ne destination h e = absurd (ground arith)
named-ne (other s) h e = absurd (ground arith)

pub named_twice :
    (m : Mode)
    → is_named m ≡ true
    → (other_mode (other_mode m) ≡ m) × (is_named (other_mode m) ≡ true)
unfolding other_mode
named_twice source h = (refl, refl)
named_twice destination h = (refl, refl)
named_twice (other s) h = absurd (ground arith)

pub other_key-ne : (k : Key) → is_named k.mode ≡ true → key_eqb k (other_key k) ≡ false
other_key-ne k h = ground (arith, key_eqb_iff k (other_key k), named-ne k.mode h)

pub other_key_twice : (k : Key) → is_named k.mode ≡ true → other_key (other_key k) ≡ k
other_key_twice k h = ground (arith, named_twice k.mode h)

-- A connection stands in the map under one key.
pub is_ref-owner :
    (m : Manager) (x j : Key) (r : ConRef)
    → Inv m
    → lookup j m.peer_con_map ≡ some r
    → is_ref (lookup x m.peer_con_map) r ≡ true
    → x ≡ j
is_ref-owner m x j r inv e h = elim (Option-cases (lookup x m.peer_con_map)) [
  | inl q ↦ absurd (ground arith)
  | inr (o, q) ↦
      let same : o ≡ r = ground arith in
      sym (inv x o q).own_key ∙ ap (λ i. (m.con i).key) same ∙ (inv j r e).own_key
]

pub end_run-Same :
    (write_ok announced : Bool) (r : ConRef) (m : Manager) → Same m (end_run write_ok announced r m)
unfolding end_run
end_run-Same write_ok announced r m = record {
  map_kept = ground arith;
  next_kept = ground arith;
  key_kept = λ i. ground arith;
  associated_kept = λ i. ground arith;
}
