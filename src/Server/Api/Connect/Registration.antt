-- ===== src/Server/Api/Connect/Registration.antt =====
-- What `TunnelConnect` leaves in the store and in the shared peer.
use securetunnel.Base.{
  ℕ, ◌+◌, ◌≡◌, ◌≢◌, refl, List, [], ◌∷◌, none, some, arith, Text, text_eq, zero, suc,
}
use securetunnel.Base.Dict.{insert, lookup-insert_self}
use securetunnel.Server.Id.{tunnel_id, new_connection_id}
use securetunnel.Server.Tunnel.{Tunnel, Connection, Peer, PeerRef, Time, disconnected}
use securetunnel.Server.Store.{
  get_tunnel, get_connection, add_connection, update_connection, update_tunnel,
}
use securetunnel.Server.Store.Table.{add, update, next_rev, get_with_key}
use securetunnel.Server.World.{
  Services, World, go, refuse, get_elem?, set, status_internal_server_error,
  failed_to_update_tunnel,
}
use securetunnel.Server.Api.Connect.{TunnelConnectArgs, new_connection, register, on_disconnect}

get_elem?-set :
    (ps : List Peer) (i : PeerRef) (p q : Peer)
    → get_elem? ps i ≡ some p
    → get_elem? (set ps i q) i ≡ some q
get_elem?-set [] i p q e = absurd (ground arith)
get_elem?-set (x ∷ ps) zero p q e = refl
get_elem?-set (x ∷ ps) (suc i) p q e = get_elem?-set ps i p q e

-- The peer after the three assignments.
abbrev pub taken_by : TunnelConnectArgs → Text → Peer → Peer
taken_by args id p = record {
  connection_id = id;
  client_token = args.client_token;
  num_of_conn = p.num_of_conn + 1;
}

-- A request that passed the checks: its new connection id, and the pointer's target.
module _ (svc : Services) (args : TunnelConnectArgs) (now : Time) (t : Tunnel) (ref : PeerRef)
    (w : World) (id : Text) (n : ℕ) (p : Peer)
    (drawn : new_connection_id svc.id_token_gen (tunnel_id args.access_token) svc.draws w.draw
      ≡ some (id, n))
    (fresh : get_connection id w.store ≡ none) (pointed : get_elem? w.peers ref ≡ some p) where
  abbrev assigned : World
  assigned = record {
    store = record w.store {
      connection_table = insert id (new_connection svc args id now) w.store.connection_table;
    };
    peers = set w.peers ref (taken_by args id p);
    draw = n;
  }

  -- If the connection id can be drawn and is free, the peer exists and the tunnel is still stored
  -- as it was read, then the connection is stored as connected, the tunnel goes to its next
  -- revision, and the peer has the connection's id, the client's token and one connection more.
  pub register-go :
      get_tunnel t.id w.store ≡ some t
      → (w' : World) × (register svc args now t ref w ≡ (go id, w'))
        × (get_connection id w'.store ≡ some (new_connection svc args id now))
        × (get_tunnel t.id w'.store ≡ some (record t { rev = next_rev t.rev }))
        × (get_elem? w'.peers ref ≡ some (taken_by args id p))
  unfolding register get_connection get_tunnel add_connection update_tunnel add update get_with_key
  register-go stored = (
    record assigned {
      store = record assigned.store {
        tunnel_table = insert t.id (record t { rev = next_rev t.rev }) w.store.tunnel_table;
      };
    },
    ground arith,
    lookup-insert_self id (new_connection svc args id now) w.store.connection_table,
    lookup-insert_self t.id (record t { rev = next_rev t.rev }) w.store.tunnel_table,
    get_elem?-set w.peers ref p (taken_by args id p) pointed,
  )

  -- If the connection id can be drawn and is free, the peer exists and the tunnel was updated
  -- since it was read, then the request is refused, and yet the connection stays stored as
  -- connected and the peer stays taken over.
  pub register-conflict :
      (t' : Tunnel)
      → get_tunnel t.id w.store ≡ some t'
      → t'.rev ≢ t.rev
      → (w' : World) × (register svc args now t ref w
          ≡ (refuse status_internal_server_error failed_to_update_tunnel, w'))
        × (get_connection id w'.store ≡ some (new_connection svc args id now))
        × (get_tunnel t.id w'.store ≡ some t')
        × (get_elem? w'.peers ref ≡ some (taken_by args id p))
  unfolding register get_connection get_tunnel add_connection update_tunnel add update get_with_key
  register-conflict t' stored newer = (
    assigned,
    ground arith,
    lookup-insert_self id (new_connection svc args id now) w.store.connection_table,
    stored,
    get_elem?-set w.peers ref p (taken_by args id p) pointed,
  )

-- If the connection is stored under its id, the deferred function of `TunnelConnect` marks it as
-- disconnected at that time, on its next revision, and leaves the tunnels and the peers, with their
-- counts, alone.
pub on_disconnect-disconnected :
    (id : Text) (now : Time) (w : World) (c : Connection)
    → get_connection id w.store ≡ some c
    → c.id ≡ id
    → (get_connection id (on_disconnect id now w).store
        ≡ some (record c { status = disconnected; last_updated_at = now; rev = next_rev c.rev }))
      × ((on_disconnect id now w).store.tunnel_table ≡ w.store.tunnel_table)
      × ((on_disconnect id now w).peers ≡ w.peers)
unfolding on_disconnect get_connection update_connection update get_with_key
on_disconnect-disconnected id now w c stored same =
    let c' : Connection = record c {
      status = disconnected;
      last_updated_at = now;
      rev = next_rev c.rev;
    } in
    ground (arith, lookup-insert_self id c' w.store.connection_table)
