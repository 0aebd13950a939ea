-- ===== src/Server/Api/Debug.antt =====
-- services_debuglist.go and services_debugsend.go. `sort.Slice` is an argument.
use securetunnel.Base.{ℕ, Bool, List, map, Text, ltb}
use securetunnel.Aws.{Mode, Message, MessageType, StreamId}
use securetunnel.Server.Tunnel.{Tunnel, Connection}
use securetunnel.Server.Store.{get_tunnels, get_connections}
use securetunnel.Server.World.{World}
use securetunnel.Server.Peers.{
  Manager, Sending, delivered, dropped, blocked, send_on_closed_channel, not_found, send_to_peer,
}

pub record DebugListTunnel : Type 0 where
  pub tunnel : Tunnel
  pub connections : List Connection

-- `CreatedAt.Before`.
abbrev pub created_before : DebugListTunnel → DebugListTunnel → Bool
created_before x y = ltb x.tunnel.created_at y.tunnel.created_at

unfoldable pub debug_list_tunnels :
    ((DebugListTunnel → DebugListTunnel → Bool) → List DebugListTunnel → List DebugListTunnel)
    → World
    → List DebugListTunnel
debug_list_tunnels sort w = sort created_before (
    map (λ t. record { tunnel = t; connections = get_connections t.id w.store })
      (get_tunnels w.store))

pub record DebugSendRequest : Type 0 where
  pub tunnel_id : Text
  pub mode : Mode
  pub stream_id : StreamId
  pub type : MessageType
  pub ignorable : Bool
  pub service_id : Text
  pub available_service_ids : List Text
  pub payload : List ℕ

-- How the handler ends: status 200, status 400, a panic, or not yet.
pub data DebugSent : Type 0 where
  sent refused_send panicked waiting : DebugSent

unfoldable pub debug_sent : Sending → DebugSent
debug_sent delivered = sent
debug_sent dropped = sent
debug_sent blocked = waiting
debug_sent send_on_closed_channel = panicked
debug_sent not_found = refused_send

abbrev debug_message : DebugSendRequest → Message
debug_message args = record {
  stream_id = args.stream_id;
  type = args.type;
  ignorable = args.ignorable;
  payload = args.payload;
  service_id = args.service_id;
  available_service_ids = args.available_service_ids;
}

unfoldable pub debug_send_to_peer : DebugSendRequest → Manager → DebugSent × Manager
unfolding debug_sent
debug_send_to_peer args m =
    let (sending, n) =
      send_to_peer (record { tunnel_id = args.tunnel_id; mode = args.mode }) (debug_message args)
        m in
    (debug_sent sending, n)
