-- ===== src/Tests/Admission.antt =====
-- `TunnelConnect` of misc/server on a store with one open tunnel.
use native.Mathlib.Omega.{arith}
use securetunnel.Base.{
  ◌≡◌, ◌≢◌, refl, ◌↔◌, inr, [], ◌∷◌, true, none, some, Text, text_eq, text_eqb, codes,
}
use securetunnel.Base.Dict.{lookup}
use securetunnel.Base.Strings.{split, split_from, is_prefix}
use securetunnel.Aws.{destination, other_mode}
use securetunnel.Server.Id.{tunnel_id, new_connection_id, generate_id, draw_char}
use securetunnel.Server.Tunnel.{
  Tunnel, Peer, Connection, connected, disconnected, is_open, status, token, peer,
}
use securetunnel.Server.Store.{get_tunnel, get_connection}
use securetunnel.Server.Store.Table.{next_rev, get_with_key}
use securetunnel.Server.World.{
  World, Reason, go, refuse, get_elem?, token_for_other_mode, invalid_client_token,
  tunnel_is_closed, status_bad_request, status_internal_server_error, failed_to_update_tunnel,
}
use securetunnel.Server.Api.Connect.{
  TunnelConnectArgs, check, new_connection, register, on_disconnect,
}
use securetunnel.Server.Api.Connect.Checks.{
  Admissible, check-Admissible, Admissible-check, check-wrong_token, check-other_client,
  check-closed,
}
use securetunnel.Server.Api.Connect.Registration.{
  register-go, register-conflict, on_disconnect-disconnected,
}
use securetunnel.Tests.Tunnels.{services}

abbrev pub tunnel_1 : Tunnel
tunnel_1 = record {
  id = codes "01";
  rev = 1;
  source_token = codes "01_23";
  source_peer = some 0;
  destination_token = codes "01_45";
  destination_peer = some 1;
  services = [];
  thing_name = codes "door";
  timeout_minutes = 5;
  payload = codes "";
  lifetime_at = 9000;
  created_at = 1000;
  last_updated_at = 1000;
}

-- One connection of the destination was made before.
abbrev used_peer : Peer
used_peer = record { connection_id = codes "01_00"; client_token = codes "c1"; num_of_conn = 1 }

abbrev pub new_peer : Peer
new_peer = record { connection_id = codes ""; client_token = codes ""; num_of_conn = 0 }

abbrev pub world : World
world = record {
  store = record { tunnel_table = (codes "01", tunnel_1) ∷ []; connection_table = [] };
  peers = new_peer ∷ used_peer ∷ [];
  draw = 6;
}

abbrev args_of : Text → Text → TunnelConnectArgs
args_of access client = record {
  mode = destination;
  subprotocols = codes "aws.iot.securetunneling-2.0" ∷ [];
  access_token = access;
  client_token = client;
}

abbrev args : TunnelConnectArgs
args = args_of (codes "01_45") (codes "c1")

stored : get_tunnel (tunnel_id (codes "01_45")) world.store ≡ some tunnel_1
unfolding get_tunnel get_with_key lookup text_eqb tunnel_id split split_from is_prefix
stored = refl

pub stored_source : get_tunnel (tunnel_id (codes "01_23")) world.store ≡ some tunnel_1
unfolding get_tunnel get_with_key lookup text_eqb tunnel_id split split_from is_prefix
stored_source = refl

has_token : codes "01_45" ≡ token tunnel_1 destination
unfolding token
has_token = refl

pointer : peer tunnel_1 destination ≡ some 1
unfolding peer
pointer = refl

opened : is_open tunnel_1 2000 ≡ true
unfolding is_open status
opened = refl

admissible : Admissible args 2000 world tunnel_1 1
admissible = record {
  found = used_peer;
  stored = stored;
  has_token = has_token;
  pointer = pointer;
  pointed = refl;
  same_client = inr refl;
  is_opened = opened;
}

check-Admissible_example : check args 2000 world ≡ (go (tunnel_1, 1), world)
check-Admissible_example = check-Admissible args 2000 world tunnel_1 1 admissible

check_run : check args 2000 world ≡ (go (tunnel_1, 1), world)
unfolding check get_tunnel get_with_key lookup text_eqb tunnel_id split split_from is_prefix token
    peer is_open status
check_run = refl

Admissible-check_example : Admissible args 2000 world tunnel_1 1
Admissible-check_example = Admissible-check args 2000 world world tunnel_1 1 check_run

wrong_token : codes "01_23" ≢ token tunnel_1 destination
unfolding token
wrong_token e = absurd (ground arith)

check-wrong_token_example :
    (why : Reason) × (check (args_of (codes "01_23") (codes "c1")) 2000 world
      ≡ (refuse status_bad_request why, world))
    × ((why ≡ token_for_other_mode) ↔ (codes "01_23" ≡ token tunnel_1 (other_mode destination)))
check-wrong_token_example =
    check-wrong_token (args_of (codes "01_23") (codes "c1")) 2000 world tunnel_1 stored_source
      wrong_token

other_client : codes "c1" ≢ codes "c2"
other_client e = absurd (ground arith)

check-other_client_example :
    check (args_of (codes "01_45") (codes "c2")) 2000 world
    ≡ (refuse status_bad_request invalid_client_token, world)
check-other_client_example =
    check-other_client (args_of (codes "01_45") (codes "c2")) 2000 world tunnel_1 1 used_peer stored
      has_token pointer refl (omega arith) other_client

check-closed_example : check args 9001 world ≡ (refuse status_bad_request tunnel_is_closed, world)
check-closed_example =
    check-closed args 9001 world tunnel_1 1 used_peer stored has_token pointer refl (inr refl)
      (omega arith)

tunnel_id_1 : tunnel_id (codes "01_45") ≡ codes "01"
unfolding tunnel_id split split_from is_prefix
tunnel_id_1 = refl

pub drawn :
    new_connection_id services.id_token_gen (tunnel_id args.access_token) services.draws world.draw
    ≡ some (codes "01_67", 8)
unfolding new_connection_id generate_id draw_char tunnel_id split split_from is_prefix
drawn = refl

pub fresh : get_connection (codes "01_67") world.store ≡ none
unfolding get_connection get_with_key lookup
fresh = refl

stored_id : get_tunnel (codes "01") world.store ≡ some tunnel_1
unfolding get_tunnel get_with_key lookup text_eqb
stored_id = refl

register-go_example :
    (w' : World) × (register services args 2000 tunnel_1 1 world ≡ (go (codes "01_67"), w'))
    × (get_connection (codes "01_67") w'.store
        ≡ some (new_connection services args (codes "01_67") 2000))
    × (get_tunnel (codes "01") w'.store ≡ some (record tunnel_1 { rev = 2 }))
    × (get_elem? w'.peers 1
        ≡ some
            (record { connection_id = codes "01_67"; client_token = codes "c1"; num_of_conn = 2 }))
register-go_example =
    register-go services args 2000 tunnel_1 1 world (codes "01_67") 8 used_peer drawn fresh refl
      stored_id

-- The tunnel as it was read before another request updated it.
abbrev stale : Tunnel
stale = record tunnel_1 { rev = 0 }

changed : tunnel_1.rev ≢ stale.rev
changed e = absurd (ground arith)

register-conflict_example :
    (w' : World) × (register services args 2000 stale 1 world
      ≡ (refuse status_internal_server_error failed_to_update_tunnel, w'))
    × (get_connection (codes "01_67") w'.store
        ≡ some (new_connection services args (codes "01_67") 2000))
    × (get_tunnel (codes "01") w'.store ≡ some tunnel_1)
    × (get_elem? w'.peers 1
        ≡ some
            (record { connection_id = codes "01_67"; client_token = codes "c1"; num_of_conn = 2 }))
register-conflict_example =
    register-conflict services args 2000 stale 1 world (codes "01_67") 8 used_peer drawn fresh refl
      tunnel_1 stored_id changed

abbrev connection_1 : Connection
connection_1 = record {
  id = codes "01_67";
  rev = 1;
  tunnel_id = codes "01";
  mode = destination;
  status = connected;
  inter_server_network = codes "tcp";
  inter_server_address = codes "localhost:80";
  last_updated_at = 2000;
}

abbrev connected_world : World
connected_world = record world {
  store = record world.store { connection_table = (codes "01_67", connection_1) ∷ [] };
}

stored_connection : get_connection (codes "01_67") connected_world.store ≡ some connection_1
unfolding get_connection get_with_key lookup text_eqb
stored_connection = refl

on_disconnect-disconnected_example :
    (get_connection (codes "01_67") (on_disconnect (codes "01_67") 3000 connected_world).store
      ≡ some
          (record connection_1 { status = disconnected; last_updated_at = 3000; rev = next_rev 1 }))
    × ((on_disconnect (codes "01_67") 3000 connected_world).store.tunnel_table
        ≡ connected_world.store.tunnel_table)
    × ((on_disconnect (codes "01_67") 3000 connected_world).peers ≡ connected_world.peers)
on_disconnect-disconnected_example =
    on_disconnect-disconnected (codes "01_67") 3000 connected_world connection_1 stored_connection
      refl
