-- ===== src/Tests/Tunnels.antt =====
-- One tunnel of misc/server from `OpenTunnel` to `CloseTunnel`.
use native.Mathlib.Omega.{arith}
use securetunnel.Base.{
  ◌≤◌, ◌≡◌, refl, ◌↔◌, inr, List, [], ◌∷◌, false, Option, none, some, Text, text_eq, text_eqb,
  length, codes, eqb, if◌then◌else◌,
}
use securetunnel.Base.Dict.{lookup, insert}
use securetunnel.Base.Strings.{Lacks}
use securetunnel.Aws.{destination}
use securetunnel.Server.Id.{
  IdTokens, IdTokenGen, tunnel_id, new_id_tokens, new_tunnel_id, new_token, generate_id, draw_char,
  new_connection_id,
}
use securetunnel.Server.Id.Token.{tunnel_id-new_id_tokens, tunnel_id-new_connection_id}
use securetunnel.Server.Tunnel.{Tunnel, open_status, closed_status, status, token, PeerRef}
use securetunnel.Server.Store.{tunnel_operator, get_tunnel, update_tunnel}
use securetunnel.Server.Store.Table.{update_conflict, ok, err, update, next_rev, get_with_key}
use securetunnel.Server.Store.Revisions.{
  OperatorLaws, Command, adds, updates, deletes, execute_all, specified_all, view,
  execute_all-specified_all, second_update_conflicts,
}
use securetunnel.Server.World.{
  Services, World, go, refuse, failed_to_notify, failed_to_update_tunnel,
  status_internal_server_error,
}
use securetunnel.Server.Api.Open.{
  OpenTunnelRequest, CloseTunnelRequest, new_tunnel, new_peer, open_tunnel, close_found,
  close_tunnel,
}
use securetunnel.Server.Api.Open.Lifetime.{
  new_tunnel-lifetime, new_tunnel-overflow, open_tunnel-go, open_tunnel-notify, open_tunnel-check,
  close_found-closed,
}
use securetunnel.Server.Api.Connect.{TunnelConnectArgs, check}

abbrev pub id_token_gen : IdTokenGen
id_token_gen = record { tunnel_id_digit = 2; token_digit = 2; connection_id_digit = 2 }

abbrev notify_one : Option Text → Services
notify_one answer = record {
  id_token_gen = id_token_gen;
  need_auth = false;
  inter_server_network = codes "tcp";
  inter_server_address = codes "localhost:80";
  draws = λ n. some n;
  notify = λ t. answer;
}

abbrev pub services : Services
services = notify_one none

abbrev silent_services : Services
silent_services = notify_one (some (codes "no device"))

abbrev pub request : OpenTunnelRequest
request = record {
  services = codes "ssh" ∷ [];
  thing_name = codes "door";
  timeout_minutes = 5;
  payload = codes "";
}

abbrev pub ids : IdTokens
ids = record {
  tunnel_id = codes "01";
  source_token = codes "01_23";
  destination_token = codes "01_45";
}

abbrev empty_world : World
empty_world = record {
  store = record { tunnel_table = []; connection_table = [] };
  peers = [];
  draw = 0;
}

abbrev pub tunnel_1 : Tunnel
tunnel_1 = new_tunnel request ids 1000 0

drawn_ids : new_id_tokens id_token_gen (λ n. some n) 0 ≡ some (ids, 6)
unfolding new_id_tokens new_tunnel_id new_token generate_id draw_char
drawn_ids = refl

tunnel_id-new_id_tokens_example :
    (length ids.tunnel_id ≡ 2)
    × Lacks b'_' (codes "01")
    × (tunnel_id (codes "01_23") ≡ codes "01")
    × (tunnel_id (codes "01_45") ≡ codes "01")
tunnel_id-new_id_tokens_example =
    tunnel_id-new_id_tokens id_token_gen (λ n. some n) 0 ids 6 drawn_ids

drawn_connection :
    new_connection_id id_token_gen (codes "01") (λ n. some n) 6 ≡ some (codes "01_67", 8)
unfolding new_connection_id generate_id draw_char
drawn_connection = refl

tunnel_id-new_connection_id_example : tunnel_id (codes "01_67") ≡ codes "01"
tunnel_id-new_connection_id_example =
    tunnel_id-new_connection_id id_token_gen (codes "01") (λ n. some n) 6 (codes "01_67") 8
      (omega arith, (omega arith, tt)) drawn_connection

new_tunnel-lifetime_example :
    (status tunnel_1 300_000_001_001 ≡ open_status) ↔ (300_000_001_001 ≤ 300_000_001_000)
new_tunnel-lifetime_example = new_tunnel-lifetime request ids 1000 300_000_001_001 0 (omega arith)

abbrev long_request : OpenTunnelRequest
long_request = record request { timeout_minutes = 160_000_000 }

new_tunnel-overflow_example : status (new_tunnel long_request ids 1000 0) 1000 ≡ closed_status
new_tunnel-overflow_example =
    new_tunnel-overflow long_request ids 1000 1000 0 (omega arith) (omega arith) (omega arith)
      (omega arith)

no_tunnel : get_tunnel (codes "01") empty_world.store ≡ none
unfolding get_tunnel get_with_key lookup
no_tunnel = refl

open_tunnel-go_example :
    (w' : World) × (open_tunnel services request 1000 empty_world ≡ (
      go (record {
        tunnel_id = codes "01";
        destination_token = codes "01_45";
        source_token = codes "01_23";
      }),
      w',
    ))
    × (get_tunnel (codes "01") w'.store ≡ some tunnel_1)
    × (w'.peers ≡ new_peer ∷ new_peer ∷ [])
open_tunnel-go_example =
    open_tunnel-go services request 1000 empty_world ids 6 drawn_ids no_tunnel refl

open_tunnel-notify_example :
    ((open_tunnel silent_services request 1000 empty_world).0
      ≡ refuse status_internal_server_error failed_to_notify)
    × (get_tunnel (codes "01") (open_tunnel silent_services request 1000 empty_world).1.store
        ≡ none)
open_tunnel-notify_example =
    open_tunnel-notify silent_services request 1000 empty_world ids 6 drawn_ids no_tunnel
      (codes "no device") refl

abbrev connect_args : TunnelConnectArgs
connect_args = record {
  mode = destination;
  subprotocols = codes "aws.iot.securetunneling-2.0" ∷ [];
  access_token = codes "01_45";
  client_token = codes "c1";
}

destination_token_1 : connect_args.access_token ≡ token tunnel_1 destination
unfolding token new_tunnel
destination_token_1 = refl

in_time : 2000 ≤ tunnel_1.lifetime_at
unfolding new_tunnel
in_time = omega arith

open_tunnel-check_example :
    (ref : PeerRef) × (check connect_args 2000 (open_tunnel services request 1000 empty_world).1
      ≡ (go (tunnel_1, ref), (open_tunnel services request 1000 empty_world).1))
open_tunnel-check_example =
    open_tunnel-check services request 1000 empty_world ids 6 drawn_ids no_tunnel connect_args 2000
      refl (inr refl) destination_token_1 in_time

abbrev closing : CloseTunnelRequest
closing = record { delete = false; tunnel_id = codes "01" }

abbrev one_tunnel : World
one_tunnel = record {
  store = record { tunnel_table = (codes "01", tunnel_1) ∷ []; connection_table = [] };
  peers = new_peer ∷ new_peer ∷ [];
  draw = 6;
}

abbrev closed_1 : Tunnel
closed_1 = record tunnel_1 { lifetime_at = 1500; last_updated_at = 1500; rev = 2 }

stored_1 : get_tunnel (codes "01") one_tunnel.store ≡ some tunnel_1
unfolding get_tunnel get_with_key lookup text_eqb
stored_1 = refl

id_1 : tunnel_1.id ≡ codes "01"
unfolding new_tunnel
id_1 = refl

test_close_tunnel :
    get_tunnel (codes "01") (close_tunnel closing 1500 one_tunnel).1.store ≡ some closed_1
unfolding close_tunnel get_tunnel update_tunnel update get_with_key lookup insert text_eqb
    new_tunnel
test_close_tunnel = refl

close_found-closed_example :
    (t' : Tunnel) × (status t' 1501 ≡ closed_status)
    × (t'.rev ≡ next_rev tunnel_1.rev)
    × ((close_found tunnel_1 closing 1500 one_tunnel).0 ≡ (
        if eqb tunnel_1.rev tunnel_1.rev
        then go tt
        else refuse status_internal_server_error failed_to_update_tunnel))
    × (get_tunnel (codes "01") (close_found tunnel_1 closing 1500 one_tunnel).1.store ≡ (
        if eqb tunnel_1.rev tunnel_1.rev
        then if closing.delete then none else some t'
        else some tunnel_1))
close_found-closed_example =
    close_found-closed closing 1500 1501 one_tunnel tunnel_1 tunnel_1 stored_1 id_1 (omega arith)

abbrev named_tunnel : Text → Tunnel
named_tunnel name = record closed_1 { thing_name = name }

abbrev history : List (Command Text Tunnel)
history = adds tunnel_1 ∷ updates tunnel_1 ∷ updates tunnel_1 ∷ deletes (codes "02") ∷ []

execute_all-specified_all_example :
    ((execute_all tunnel_operator history []).0
      ≡ (specified_all tunnel_operator history (view [])).0)
    × (view (execute_all tunnel_operator history []).1
        ≡ (specified_all tunnel_operator history (view [])).1)
execute_all-specified_all_example = execute_all-specified_all tunnel_operator history []

tunnel_laws : OperatorLaws tunnel_operator
tunnel_laws = record { key_kept = λ v rev. refl; rev_set = λ v rev. refl }

abbrev table_1 : List (Text × Tunnel)
table_1 = (codes "01", tunnel_1) ∷ []

abbrev table_2 : List (Text × Tunnel)
table_2 = (codes "01", record tunnel_1 { rev = 2 }) ∷ []

first_update : update tunnel_operator tunnel_1 table_1 ≡ ok table_2
unfolding update lookup insert text_eqb new_tunnel
first_update = refl

second_update_conflicts_example :
    update tunnel_operator (record tunnel_1 { thing_name = codes "gate" }) table_2
    ≡ err update_conflict
second_update_conflicts_example =
    second_update_conflicts tunnel_operator tunnel_laws tunnel_1
      (record tunnel_1 { thing_name = codes "gate" }) table_1 table_2 refl refl first_update
