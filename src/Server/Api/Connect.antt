-- ===== src/Server/Api/Connect.antt =====
-- services_connect.go: the checks of `TunnelConnect`, the registration of a connection, and the
-- deferred update when it ends. The WebSocket in between is Server/Peers.
pub mod Checks
pub mod Registration
pub mod Again
use securetunnel.Base.{
  ℕ, ◌+◌, Bool, true, false, not, ◌||◌, List, [], ◌∷◌, Option, none, some, Text, ◌==◌, text_eq, eqb,
  ltb, any, if◌then◌else◌,
}
use securetunnel.Aws.{Mode, source, destination, other, other_mode}
use securetunnel.Aws.Const.{sub_protocol_v2}
use securetunnel.Server.Id.{tunnel_id, new_connection_id}
use securetunnel.Server.Tunnel.{
  Tunnel, Connection, Peer, PeerRef, Time, peer, token, is_open, connected, disconnected,
}
use securetunnel.Server.Store.{
  get_tunnel, update_tunnel, get_connection, add_connection, update_connection,
}
use securetunnel.Server.Store.Table.{ok, err}
use securetunnel.Server.World.{
  Services, World, Reason, failed_to_generate_id, failed_to_update_tunnel,
  failed_to_update_connection, failed_to_upgrade, invalid_access_token, token_for_other_mode,
  invalid_client_token, tunnel_is_closed, tunnel_not_found, invalid_mode, invalid_subprotocol,
  status_bad_request, status_internal_server_error, Reply, go, refuse, M, ◌>>=◌, ◌>>◌, pure, guard,
  or_refuse, commit, generated, deref, set,
}

pub record TunnelConnectArgs : Type 0 where
  pub mode : Mode
  pub subprotocols : List Text
  pub access_token : Text
  pub client_token : Text

abbrev pub is_named : Mode → Bool
is_named destination = true
is_named source = true
is_named (other s) = false

-- `Validate`, which `PreProcess` calls before the handler: `none` is success.
unfoldable pub validate : TunnelConnectArgs → Option Reason
validate args =
    if is_named args.mode
    then if any (λ p. p == sub_protocol_v2) args.subprotocols
      then none
      else some invalid_subprotocol
    else some invalid_mode

abbrev pub preprocess : TunnelConnectArgs → M (Unit {0})
preprocess args w = elim (validate args) [
  | none ↦ (go tt, w)
  | some why ↦ (refuse status_bad_request why, w)
]

-- Of the two answers to a token that is not the mode's, which one.
abbrev pub token_reason : Tunnel → TunnelConnectArgs → Reason
token_reason tunnel args =
    if args.access_token == token tunnel (other_mode args.mode)
    then token_for_other_mode
    else invalid_access_token

-- From `GetTunnel` to the check that the tunnel is open: the tunnel as it was read, and its peer.
unfoldable pub check : TunnelConnectArgs → Time → M (Tunnel × PeerRef)
check args now = do
  tunnel ← λ w.
      or_refuse (get_tunnel (tunnel_id args.access_token) w.store) status_bad_request
        tunnel_not_found w
  guard (args.access_token == token tunnel args.mode) status_bad_request (token_reason tunnel args)
  found ← deref (peer tunnel args.mode)
  guard (not (ltb 0 found.1.num_of_conn) || found.1.client_token == args.client_token)
      status_bad_request invalid_client_token
  guard (is_open tunnel now) status_bad_request tunnel_is_closed
  pure (tunnel, found.0)

abbrev pub new_connection : Services → TunnelConnectArgs → Text → Time → Connection
new_connection svc args id now = record {
  id = id;
  rev = 1;
  tunnel_id = tunnel_id args.access_token;
  mode = args.mode;
  status = connected;
  inter_server_network = svc.inter_server_network;
  inter_server_address = svc.inter_server_address;
  last_updated_at = now;
}

abbrev pub put_peer : PeerRef → Peer → M (Unit {0})
put_peer i p w = (go tt, record w { peers = set w.peers i p })

-- The three assignments through `peer`.
abbrev pub assign_peer : PeerRef → Text → TunnelConnectArgs → M (Unit {0})
assign_peer ref id args = do
  found ← deref (some ref)
  put_peer found.0 (record {
    connection_id = id;
    client_token = args.client_token;
    num_of_conn = found.1.num_of_conn + 1;
  })

-- From the new connection's id to `UpdateTunnel`, which is given the tunnel as it was read before.
unfoldable pub register : Services → TunnelConnectArgs → Time → Tunnel → PeerRef → M Text
register svc args now tunnel ref = do
  id ← λ w.
      generated (new_connection_id svc.id_token_gen (tunnel_id args.access_token) svc.draws w.draw)
        status_internal_server_error failed_to_generate_id w
  λ w.
      commit (add_connection (new_connection svc args id now) w.store) status_internal_server_error
        failed_to_update_connection w
  assign_peer ref id args
  λ w. commit (update_tunnel tunnel w.store) status_internal_server_error failed_to_update_tunnel w
  pure id

-- The deferred function: errors are logged, and leave the store alone.
unfoldable pub on_disconnect : Text → Time → World → World
on_disconnect id now w = elim (get_connection id w.store) [
  | none ↦ w
  | some c ↦
      elim (update_connection (record c { status = disconnected; last_updated_at = now }) w.store) [
        | ok s ↦ record w { store = s }
        | err x ↦ w
      ]
]

-- `TunnelConnect` behind `PreProcess`, up to `Upgrade`.
unfoldable pub admit : Services → TunnelConnectArgs → Time → M Text
admit svc args now = do
  preprocess args
  found ← check args now
  register svc args now found.0 found.1

-- `Upgrade`, which may fail: then the deferred function runs at once. Otherwise it runs when the
-- connection has ended.
unfoldable pub upgrade : Bool → Text → Time → M Text
upgrade true id later w = (go id, w)
upgrade false id later w =
    (refuse status_internal_server_error failed_to_upgrade, on_disconnect id later w)

unfoldable pub tunnel_connect : Services → TunnelConnectArgs → Time → Time → Bool → M Text
unfolding upgrade
tunnel_connect svc args now later upgraded = do id ← admit svc args now; upgrade upgraded id later
