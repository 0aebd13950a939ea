-- ===== src/Server/Service/WellFormed.antt =====
-- What holds of the store and the heap of peers between two steps of a handler, and what the
-- operations of the store keep of it.
use securetunnel.Base.{
  ℕ, zero, suc, ◌≡◌, refl, sym, subst, inl, inr, List, [], ◌∷◌, ◌++◌, Option, some, arith, Text,
  text_eq, Option-cases,
}
use securetunnel.Base.Dict.{lookup, insert}
use securetunnel.Base.Entries.{
  AllEntries, AllEntries-imp, AllEntries-lookup, AllEntries-insert, AllEntries-erase,
}
use securetunnel.Base.Strings.{Lacks}
use securetunnel.Server.Id.{tunnel_id}
use securetunnel.Server.Tunnel.{Tunnel, Connection, Peer, PeerRef}
use securetunnel.Server.Store.{
  MemoryStore, map_result, tunnel_operator, connection_operator, get_tunnel, add_tunnel,
  update_tunnel, delete_tunnel, get_connection, add_connection, update_connection,
}
use securetunnel.Server.Store.Table.{
  Operator, Result, ok, err, DataMap, add, update, delete, get_with_key, next_rev,
}
use securetunnel.Server.Store.Revisions.{update-ok}
use securetunnel.Server.World.{World, get_elem?, set}

-- A pointer to a peer of the heap.
abbrev pub Points : List Peer → Option PeerRef → Type 0
Points peers o = (i : PeerRef) × (p : Peer) × (o ≡ some i) × (get_elem? peers i ≡ some p)

-- A tunnel that is stored under an id.
pub record GoodTunnel (peers : List Peer) (k : Text) (t : Tunnel) : Type 0 where
  pub own_key : t.id ≡ k
  pub no_separator : Lacks b'_' k
  pub source_id : tunnel_id t.source_token ≡ k
  pub destination_id : tunnel_id t.destination_token ≡ k
  pub source_at : Points peers t.source_peer
  pub destination_at : Points peers t.destination_peer

pub record GoodConnection (k : Text) (c : Connection) : Type 0 where
  pub own_key : c.id ≡ k
  pub own_tunnel : tunnel_id k ≡ c.tunnel_id

pub record WellFormed (w : World) : Type 0 where
  pub tunnels : AllEntries (GoodTunnel w.peers) w.store.tunnel_table
  pub connections : AllEntries GoodConnection w.store.connection_table

-- Peers are only added and assigned to.
abbrev pub Keeps : List Peer → List Peer → Type 0
Keeps ps qs = (o : Option PeerRef) → Points ps o → Points qs o

get_elem?-append :
    (ps qs : List Peer) (i : PeerRef) (p : Peer)
    → get_elem? ps i ≡ some p
    → get_elem? (ps ++ qs) i ≡ some p
get_elem?-append [] qs i p e = absurd (ground arith)
get_elem?-append (x ∷ ps) qs zero p e = e
get_elem?-append (x ∷ ps) qs (suc i) p e = get_elem?-append ps qs i p e

pub Keeps-append : (ps qs : List Peer) → Keeps ps (ps ++ qs)
Keeps-append ps qs o (i, p, e, h) = (i, p, e, get_elem?-append ps qs i p h)

set_keeps :
    (ps : List Peer) (j i : PeerRef) (q p : Peer)
    → get_elem? ps i ≡ some p
    → (p' : Peer) × (get_elem? (set ps j q) i ≡ some p')
set_keeps [] j i q p e = absurd (ground arith)
set_keeps (x ∷ ps) zero zero q p e = (q, refl)
set_keeps (x ∷ ps) zero (suc i) q p e = (p, e)
set_keeps (x ∷ ps) (suc j) zero q p e = (p, e)
set_keeps (x ∷ ps) (suc j) (suc i) q p e = set_keeps ps j i q p e

pub Keeps-set : (ps : List Peer) (j : PeerRef) (q : Peer) → Keeps ps (set ps j q)
Keeps-set ps j q o (i, p, e, h) = let (p', h') = set_keeps ps j i q p h in (i, p', e, h')

pub GoodTunnel-Keeps :
    {ps qs : List Peer}
    → Keeps ps qs
    → (k : Text) (t : Tunnel) → GoodTunnel ps k t
    → GoodTunnel qs k t
GoodTunnel-Keeps kept k t g = record {
  own_key = g.own_key;
  no_separator = g.no_separator;
  source_id = g.source_id;
  destination_id = g.destination_id;
  source_at = kept t.source_peer g.source_at;
  destination_at = kept t.destination_peer g.destination_at;
}

-- The heap changes, and the draws.
pub WellFormed-Keeps :
    (w : World) (peers : List Peer) (draw : ℕ)
    → Keeps w.peers peers
    → WellFormed w
    → WellFormed (record w { peers = peers; draw = draw })
WellFormed-Keeps w peers draw kept f = record {
  tunnels =
      AllEntries-imp (GoodTunnel w.peers) (GoodTunnel peers) w.store.tunnel_table
        (GoodTunnel-Keeps kept) f.tunnels;
  connections = f.connections;
}

-- A table keeps a predicate on its entries, if the value that is put into it satisfies it.
module _ {V : Type 0} (op : Operator Text V) (P : Text → V → Type 0) (v : V)
    (t t' : DataMap Text V) where
  add-AllEntries : AllEntries P t → P (op.get_key v) v → add op v t ≡ ok t' → AllEntries P t'
  unfolding add
  add-AllEntries h p e = elim (Option-cases (lookup (op.get_key v) t)) [
    | inl q ↦
        let is : insert (op.get_key v) v t ≡ t' = ground arith in
        subst (λ m. AllEntries P m) is (AllEntries-insert P (op.get_key v) v t h p)
    | inr (x, q) ↦ absurd (ground arith)
  ]

  update-AllEntries :
      AllEntries P t
      → ((rev : ℕ) → P (op.get_key v) (op.set_rev v rev))
      → update op v t ≡ ok t'
      → AllEntries P t'
  update-AllEntries h p e =
      let (target, q, r, is) = update-ok op v t t' e in
      subst (λ m. AllEntries P m) (sym is)
        (AllEntries-insert P (op.get_key v) (op.set_rev v (next_rev (op.get_rev target))) t h
          (p (next_rev (op.get_rev target))))

map_result-ok :
    {A B : Type 0} (f : A → B) (r : Result A) (b : B)
    → map_result f r ≡ ok b
    → (a : A) × (r ≡ ok a) × (f a ≡ b)
map_result-ok f (ok a) b e = (a, refl, ground arith)
map_result-ok f (err x) b e = absurd (ground arith)

module _ (w : World) (f : WellFormed w) where
  pub get_tunnel-Good :
      (id : Text) (t : Tunnel) → get_tunnel id w.store ≡ some t → GoodTunnel w.peers id t
  unfolding get_tunnel get_with_key
  get_tunnel-Good id t e =
      AllEntries-lookup (GoodTunnel w.peers) id t w.store.tunnel_table f.tunnels e

  pub get_connection-Good :
      (id : Text) (c : Connection) → get_connection id w.store ≡ some c → GoodConnection id c
  unfolding get_connection get_with_key
  get_connection-Good id c e =
      AllEntries-lookup GoodConnection id c w.store.connection_table f.connections e

  pub add_tunnel-WellFormed :
      (t : Tunnel) (s : MemoryStore)
      → GoodTunnel w.peers t.id t
      → add_tunnel t w.store ≡ ok s
      → WellFormed (record w { store = s })
  unfolding add_tunnel
  add_tunnel-WellFormed t s g e =
      let (table, added, is) = map_result-ok _ (add tunnel_operator t w.store.tunnel_table) s e in
      subst (λ x. WellFormed (record w { store = x })) is
        (record {
          tunnels = add-AllEntries tunnel_operator (GoodTunnel w.peers) t _ table f.tunnels g added;
          connections = f.connections;
        })

  pub update_tunnel-WellFormed :
      (t : Tunnel) (s : MemoryStore)
      → ((rev : ℕ) → GoodTunnel w.peers t.id (record t { rev = rev }))
      → update_tunnel t w.store ≡ ok s
      → WellFormed (record w { store = s })
  unfolding update_tunnel
  update_tunnel-WellFormed t s g e =
      let (table, updated, is) =
        map_result-ok _ (update tunnel_operator t w.store.tunnel_table) s e in
      subst (λ x. WellFormed (record w { store = x })) is
        (record {
          tunnels =
              update-AllEntries tunnel_operator (GoodTunnel w.peers) t _ table f.tunnels g updated;
          connections = f.connections;
        })

  pub delete_tunnel-WellFormed :
      (id : Text) → WellFormed (record w { store = delete_tunnel id w.store })
  unfolding delete_tunnel delete
  delete_tunnel-WellFormed id = record {
    tunnels = AllEntries-erase (GoodTunnel w.peers) id w.store.tunnel_table f.tunnels;
    connections = f.connections;
  }

  pub add_connection-WellFormed :
      (c : Connection) (s : MemoryStore)
      → GoodConnection c.id c
      → add_connection c w.store ≡ ok s
      → WellFormed (record w { store = s })
  unfolding add_connection
  add_connection-WellFormed c s g e =
      let (table, added, is) =
        map_result-ok _ (add connection_operator c w.store.connection_table) s e in
      subst (λ x. WellFormed (record w { store = x })) is
        (record {
          tunnels = f.tunnels;
          connections =
              add-AllEntries connection_operator GoodConnection c _ table f.connections g added;
        })

  pub update_connection-WellFormed :
      (c : Connection) (s : MemoryStore)
      → ((rev : ℕ) → GoodConnection c.id (record c { rev = rev }))
      → update_connection c w.store ≡ ok s
      → WellFormed (record w { store = s })
  unfolding update_connection
  update_connection-WellFormed c s g e =
      let (table, updated, is) =
        map_result-ok _ (update connection_operator c w.store.connection_table) s e in
      subst (λ x. WellFormed (record w { store = x })) is
        (record {
          tunnels = f.tunnels;
          connections =
              update-AllEntries connection_operator GoodConnection c _ table f.connections g
                updated;
        })
