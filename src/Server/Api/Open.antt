-- ===== src/Server/Api/Open.antt =====
-- services_opentunnel.go, services_closetunnel.go, services_describetunnel.go and
-- services_listtunnels.go. Decoding the request and encoding the answer are gin's work.
pub mod Lifetime
use securetunnel.Base.{
  ℕ, ◌+◌, ◌-◌, ◌*◌, ◌%◌, ◌^◌, Bool, List, [], ◌∷◌, ◌++◌, map, Option, none, some, Text, codes,
  length, eqb, ltb, if◌then◌else◌,
}
use securetunnel.Server.Id.{IdTokens, new_id_tokens}
use securetunnel.Server.Tunnel.{
  Tunnel, TunnelStatus, ConnStatus, Connection, Peer, Time, status, disconnected,
}
use securetunnel.Server.Store.{
  MemoryStore, get_tunnel, get_tunnels, add_tunnel, update_tunnel, delete_tunnel, get_connection,
}
use securetunnel.Server.World.{
  Services, World, Reason, failed_to_generate_id, failed_to_store_tunnel, failed_to_notify,
  tunnel_not_found, failed_to_update_tunnel, status_bad_request, status_internal_server_error,
  Reply, go, refuse, M, ◌>>=◌, ◌>>◌, pure, guard, or_refuse, commit, generated, deref,
}

pub record OpenTunnelRequest : Type 0 where
  pub services : List Text
  pub thing_name : Text
  pub timeout_minutes : ℕ
  pub payload : Text

pub record OpenTunnelResponse : Type 0 where
  pub tunnel_id : Text
  pub destination_token : Text
  pub source_token : Text

-- `time.Duration(minutes) * time.Minute`, an int64 of nanoseconds as its bit pattern.
abbrev pub minutes_duration : ℕ → ℕ
minutes_duration minutes = minutes * 60_000_000_000 % 2 ^ 64

-- `now.Add(d)`: a pattern from 2 ^ 63 on is negative.
abbrev pub add_duration : Time → ℕ → Time
add_duration now d = if ltb d (2 ^ 63) then now + d else now + d - 2 ^ 64

abbrev pub default_timeout : ℕ → ℕ
default_timeout minutes = if eqb minutes 0 then 720 else minutes

abbrev pub new_peer : Peer
new_peer = record { connection_id = codes ""; client_token = codes ""; num_of_conn = 0 }

-- The two `&Peer{}` are new entries at the end of the heap.
unfoldable pub new_tunnel : OpenTunnelRequest → IdTokens → Time → ℕ → Tunnel
new_tunnel args ids now heap_size =
    let minutes = default_timeout args.timeout_minutes in
    record {
      id = ids.tunnel_id;
      rev = 1;
      source_token = ids.source_token;
      source_peer = some heap_size;
      destination_token = ids.destination_token;
      destination_peer = some (heap_size + 1);
      services = args.services;
      thing_name = args.thing_name;
      timeout_minutes = minutes;
      payload = args.payload;
      lifetime_at = add_duration now (minutes_duration minutes);
      created_at = now;
      last_updated_at = now;
    }

abbrev pub alloc_tunnel : OpenTunnelRequest → IdTokens → Time → M Tunnel
alloc_tunnel args ids now w = (
  go (new_tunnel args ids now (length w.peers)),
  record w { peers = w.peers ++ (new_peer ∷ new_peer ∷ []) },
)

abbrev pub notify_or_delete : Services → Tunnel → M (Unit {0})
notify_or_delete svc tunnel w = elim (svc.notify tunnel) [
  | none ↦ (go tt, w)
  | some _ ↦ (
    refuse status_internal_server_error failed_to_notify,
    record w { store = delete_tunnel tunnel.id w.store },
  )
]

unfoldable pub open_tunnel : Services → OpenTunnelRequest → Time → M OpenTunnelResponse
unfolding new_tunnel
open_tunnel svc args now = do
  ids ← λ w.
      generated (new_id_tokens svc.id_token_gen svc.draws w.draw) status_internal_server_error
        failed_to_generate_id w
  tunnel ← alloc_tunnel args ids now
  λ w. commit (add_tunnel tunnel w.store) status_internal_server_error failed_to_store_tunnel w
  notify_or_delete svc tunnel
  pure (record {
    tunnel_id = tunnel.id;
    destination_token = tunnel.destination_token;
    source_token = tunnel.source_token;
  })

pub record CloseTunnelRequest : Type 0 where
  pub delete : Bool
  pub tunnel_id : Text

abbrev pub delete_if : Bool → Text → M (Unit {0})
delete_if b id w = (go tt, if b then record w { store = delete_tunnel id w.store } else w)

-- `CloseTunnel` behind `GetTunnel`. The tunnel may have been updated since it was read.
abbrev pub close_found : Tunnel → CloseTunnelRequest → Time → M (Unit {0})
close_found tunnel args now = do
  λ w.
      commit (update_tunnel (record tunnel { lifetime_at = now; last_updated_at = now }) w.store)
        status_internal_server_error failed_to_update_tunnel w
  delete_if args.delete args.tunnel_id

unfoldable pub close_tunnel : CloseTunnelRequest → Time → M (Unit {0})
close_tunnel args now = do
  tunnel ← λ w. or_refuse (get_tunnel args.tunnel_id w.store) status_bad_request tunnel_not_found w
  close_found tunnel args now

pub record ConnectionState : Type 0 where
  pub status : ConnStatus
  pub last_updated_at : Time

pub record DescribeTunnelResponse : Type 0 where
  pub tunnel_id : Text
  pub thing_name : Text
  pub timeout_minutes : ℕ
  pub payload : Text
  pub status : TunnelStatus
  pub dst_conn_state : ConnectionState
  pub src_conn_state : ConnectionState
  pub last_updated_at : Time
  pub created_at : Time

unfoldable pub connection_state : Option Connection → ConnectionState
connection_state none = record { status = disconnected; last_updated_at = 0 }
connection_state (some c) = record { status = c.status; last_updated_at = c.last_updated_at }

unfoldable pub describe_tunnel : Text → Time → M DescribeTunnelResponse
unfolding connection_state
describe_tunnel id now = do
  tunnel ← λ w. or_refuse (get_tunnel id w.store) status_bad_request tunnel_not_found w
  dst ← deref tunnel.destination_peer
  dst_conn_state ← λ w. (go (connection_state (get_connection dst.1.connection_id w.store)), w)
  src ← deref tunnel.source_peer
  src_conn_state ← λ w. (go (connection_state (get_connection src.1.connection_id w.store)), w)
  pure (record {
    tunnel_id = tunnel.id;
    thing_name = tunnel.thing_name;
    timeout_minutes = tunnel.timeout_minutes;
    payload = tunnel.payload;
    status = status tunnel now;
    dst_conn_state = dst_conn_state;
    src_conn_state = src_conn_state;
    last_updated_at = tunnel.last_updated_at;
    created_at = tunnel.created_at;
  })

pub record ListTunnelsTunnel : Type 0 where
  pub id : Text
  pub status : TunnelStatus
  pub thing_name : Text
  pub last_updated_at : Time

unfoldable pub list_tunnels : Time → World → List ListTunnelsTunnel
list_tunnels now w =
    map
      (λ t. record {
        id = t.id;
        status = status t now;
        thing_name = t.thing_name;
        last_updated_at = t.last_updated_at;
      })
      (get_tunnels w.store)
