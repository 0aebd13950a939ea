-- ===== src/Server/Tunnel.antt =====
-- misc/server/tunnel.go. A time is a number of nanoseconds since the zero time of Go.
use securetunnel.Base.{
  ℕ, Option, none, Text, codes, List, [], Bool, true, false, ltb, if◌then◌else◌,
}
use securetunnel.Aws.{Mode, source, destination, other}

pub data TunnelStatus : Type 0 where
  open_status closed_status : TunnelStatus

pub data ConnStatus : Type 0 where
  unknown connected disconnected : ConnStatus

abbrev pub Time : Type 0
Time = ℕ

-- A `*Peer`: an index into the heap of peers that `World` holds.
abbrev pub PeerRef : Type 0
PeerRef = ℕ

pub record Peer : Type 0 where
  pub connection_id : Text
  pub client_token : Text
  pub num_of_conn : ℕ

pub record Tunnel : Type 0 where
  pub id : Text
  pub rev : ℕ
  pub source_token : Text
  pub source_peer : Option PeerRef
  pub destination_token : Text
  pub destination_peer : Option PeerRef
  pub services : List Text
  pub thing_name : Text
  pub timeout_minutes : ℕ
  pub payload : Text
  pub lifetime_at : Time
  pub created_at : Time
  pub last_updated_at : Time

pub record Connection : Type 0 where
  pub id : Text
  pub rev : ℕ
  pub tunnel_id : Text
  pub mode : Mode
  pub status : ConnStatus
  pub inter_server_network : Text
  pub inter_server_address : Text
  pub last_updated_at : Time

-- `Tunnel.Peer`.
unfoldable pub peer : Tunnel → Mode → Option PeerRef
peer t destination = t.destination_peer
peer t source = t.source_peer
peer t (other s) = none

-- `Tunnel.Token`.
unfoldable pub token : Tunnel → Mode → Text
token t destination = t.destination_token
token t source = t.source_token
token t (other s) = codes ""

-- `Tunnel.Status`, at the time `now`.
unfoldable pub status : Tunnel → Time → TunnelStatus
status t now = if ltb t.lifetime_at now then closed_status else open_status

-- `Tunnel.Open`.
abbrev is_open_status : TunnelStatus → Bool
is_open_status open_status = true
is_open_status closed_status = false

unfoldable pub is_open : Tunnel → Time → Bool
unfolding status
is_open t now = is_open_status (status t now)

-- `Tunnel{}`.
abbrev pub zero_tunnel : Tunnel
zero_tunnel = record {
  id = codes "";
  rev = 0;
  source_token = codes "";
  source_peer = none;
  destination_token = codes "";
  destination_peer = none;
  services = [];
  thing_name = codes "";
  timeout_minutes = 0;
  payload = codes "";
  lifetime_at = 0;
  created_at = 0;
  last_updated_at = 0;
}
