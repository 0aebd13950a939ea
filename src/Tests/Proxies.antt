-- ===== src/Tests/Proxies.antt =====
-- Ids, service configurations and local connections of proxy.
use native.Mathlib.Omega.{arith}
use securetunnel.Base.{
  ℕ, ◌/◌, ◌%◌, ◌^◌, ◌≤◌, ◌<◌, ◌≡◌, ◌≢◌, refl, ◌↔◌, [], ◌∷◌, ◌++◌, map, true, false, none, some,
  Text, text_eq, text_eqb, nat_eq, codes,
}
use securetunnel.Base.Dict.{lookup}
use securetunnel.Base.Strings.{split, trim_space, trim_left, is_space}
use securetunnel.Aws.{source, Message, service_ids, stream_start}
use securetunnel.Proxy.IdGen.{max_counter, next_counter, generate, generate_all}
use securetunnel.Proxy.IdGen.Unique.{generate_range, generate_all-distinct}
use securetunnel.Proxy.Config.{
  ServiceConfig, ok, digits_value, parse_uint16, parse_url, parse_service, parse_service_config,
}
use securetunnel.Proxy.Config.Parsing.{
  parse_url-full, parse_url-host, parse_url-port, parse_url-unix, parse_url-ok,
}
use securetunnel.Proxy.Config.Services.{parse_service_config-ok, parse_service-named}
use securetunnel.Proxy.Sockets.{
  LocalSocket, send_stream_reset, Sockets, done, start_socket, write, stop_socket, stop_all,
}
use securetunnel.Proxy.Sockets.Stopping.{
  IsStopped, stop_all-empty, stop_all-IsStopped, stop_socket_twice, stop_socket-reset,
  write-start_socket,
}
use securetunnel.Proxy.Listener.{
  LocalProxy, TcpServer, stream_exists, on_stream_start, on_service_ids, available_services, accept,
}
use securetunnel.Proxy.Listener.Connections.{on_stream_start-exists, accept-exists}
use securetunnel.Proxy.Listener.Servers.{on_service_ids-server, after}

generate_range_example :
    (0 < (generate 235_959 2147).1)
    × ((generate 235_959 2147).1 < 2 ^ 31)
    × ((generate 235_959 2147).1 / 1_000_000 ≡ (generate 235_959 2147).0)
    × ((generate 235_959 2147).1 % 1_000_000 ≡ 235_959)
    × (1 ≤ (generate 235_959 2147).0)
    × ((generate 235_959 2147).0 ≤ max_counter)
generate_range_example = generate_range 235_959 2147 (omega arith) (omega arith)

generate_run : generate_all (120_000 ∷ 120_000 ∷ []) 2147 ≡ 1_120_000 ∷ 2_120_000 ∷ []
unfolding generate_all generate next_counter
generate_run = refl

abbrev first_id : ℕ
first_id = 1_120_000

abbrev second_id : ℕ
second_id = 2_120_000

generate_all-distinct_example : first_id ≢ second_id
unfolding generate_all generate next_counter
generate_all-distinct_example =
    generate_all-distinct (120_000 ∷ 120_000 ∷ []) 2147 0 1 first_id second_id
      (omega arith, (omega arith, tt)) (omega arith) (omega arith) (omega arith) refl refl

port_22 : parse_uint16 (codes "22") ≡ some 22
unfolding parse_uint16 digits_value
port_22 = refl

trim_22 : trim_space (codes "22") ≡ codes "22"
unfolding trim_space trim_left is_space
trim_22 = refl

trim_h : trim_space (codes "h") ≡ codes "h"
unfolding trim_space trim_left is_space
trim_h = refl

trim_tcp : trim_space (codes "tcp") ≡ codes "tcp"
unfolding trim_space trim_left is_space
trim_tcp = refl

not_unix : codes "tcp" ≢ codes "unix"
not_unix e = absurd (ground arith)

parse_url-full_example : parse_url (codes "tcp://h:22") ≡ ok (codes "tcp", codes "h:22")
parse_url-full_example =
    parse_url-full (codes "tcp") (codes "h") (codes "22") 22
      (omega arith, (omega arith, (omega arith, tt))) (omega arith, tt)
      (omega arith, (omega arith, tt)) trim_tcp trim_h trim_22 not_unix port_22

parse_url-host_example : parse_url (codes "h:22") ≡ ok (codes "tcp", codes "h:22")
parse_url-host_example =
    parse_url-host (codes "h") (codes "22") 22 (omega arith, tt) (omega arith, (omega arith, tt))
      trim_h trim_22 port_22

parse_url-port_example : parse_url (codes "22") ≡ ok (codes "tcp", codes "localhost:22")
parse_url-port_example =
    parse_url-port (codes "22") 22 (omega arith, (omega arith, tt)) trim_22 port_22

parse_url-unix_example : parse_url (codes "unix:///s") ≡ ok (codes "unix", codes "/s")
parse_url-unix_example = parse_url-unix (codes "/s") (omega arith, (omega arith, tt))

parse_url-ok_example :
    (host : Text) × (port : Text) × (n : ℕ) × (codes "h:22" ≡ host ++ (b':' ∷ port))
    × (parse_uint16 port ≡ some n)
    × (n ≤ 65535)
parse_url-ok_example =
    parse_url-ok (codes "tcp://h:22") (codes "tcp") (codes "h:22") parse_url-full_example not_unix

abbrev ssh_config : ServiceConfig
ssh_config = record {
  service_id = codes "h";
  network = codes "tcp";
  address = codes "localhost:22";
}

parse_service-named_example : parse_service (codes "h=22") ≡ ok ssh_config
parse_service-named_example =
    parse_service-named (codes "h") (codes "22") 22 (omega arith, tt)
      (omega arith, (omega arith, tt)) (omega arith, (omega arith, tt)) trim_h trim_22 port_22

parse_service_config-ok_example :
    (parse_service_config (codes "h=22") ≡ ok (ssh_config ∷ []))
    ↔ (map parse_service (split (codes "h=22") (codes ",")) ≡ map ok (ssh_config ∷ []))
parse_service_config-ok_example = parse_service_config-ok (codes "h=22") (ssh_config ∷ [])

abbrev socket_7 : LocalSocket
socket_7 = record { stream_id = 7; service_id = codes "h"; con = 0 }

-- The connection 0 is being read for the stream 7.
abbrev sockets : Sockets
sockets = record {
  socket_map = (7, socket_7) ∷ [];
  con = λ c. record { closed = false; reading = true; received = [] };
  sent = [];
}

stored_7 : lookup 7 sockets.socket_map ≡ some socket_7
unfolding lookup
stored_7 = refl

stop_all-empty_example : lookup 7 (stop_all sockets).socket_map ≡ none
stop_all-empty_example = stop_all-empty sockets 7

stop_all-IsStopped_example : IsStopped (stop_all sockets) 0
stop_all-IsStopped_example = stop_all-IsStopped sockets 7 socket_7 stored_7

stop_socket_twice_example : stop_socket 7 (stop_socket 7 sockets) ≡ stop_socket 7 sockets
stop_socket_twice_example = stop_socket_twice sockets 7

stop_socket-reset_example : (stop_socket 7 sockets).sent ≡ send_stream_reset 7 (codes "h") ∷ []
stop_socket-reset_example = stop_socket-reset sockets 7 socket_7 stored_7 refl

abbrev started : Sockets
started = (start_socket 8 (codes "h") 1 sockets).1

is_started : start_socket 8 (codes "h") 1 sockets ≡ (done, started)
unfolding start_socket lookup
is_started = refl

write-start_socket_example :
    ((write true 8 (1 ∷ 2 ∷ []) started).0 ≡ done)
    × (((write true 8 (1 ∷ 2 ∷ []) started).1.con 1).received ≡ (1 ∷ 2 ∷ []) ∷ [])
write-start_socket_example =
    write-start_socket sockets started 8 (codes "h") 1 (1 ∷ 2 ∷ []) refl is_started

abbrev server_h : TcpServer
server_h = record { name = codes "h"; started = false }

abbrev proxy : LocalProxy
proxy = record {
  mode = source;
  sockets = record sockets { socket_map = (1_120_000, socket_7) ∷ [] };
  service_map = (codes "h", ssh_config) ∷ [];
  server_map = (codes "h", server_h) ∷ [];
  id_counter = 0;
}

abbrev start_message : Message
start_message = record {
  type = stream_start;
  stream_id = 1_120_000;
  ignorable = false;
  payload = [];
  service_id = codes "h";
  available_service_ids = [];
}

known_service : lookup (codes "h") proxy.service_map ≡ some ssh_config
unfolding lookup text_eqb
known_service = refl

used_stream : lookup 1_120_000 proxy.sockets.socket_map ≡ some socket_7
unfolding lookup
used_stream = refl

on_stream_start-exists_example :
    on_stream_start (λ c. some 1) start_message proxy ≡ (some stream_exists, proxy)
on_stream_start-exists_example =
    on_stream_start-exists (λ c. some 1) start_message proxy ssh_config 1 socket_7 known_service
      refl used_stream

used_id : lookup (generate 120_000 0).1 proxy.sockets.socket_map ≡ some socket_7
unfolding lookup generate next_counter
used_id = refl

accept-exists_example : ((accept true 120_000 (codes "h") 1 proxy).sockets.con 1).closed ≡ true
accept-exists_example = accept-exists 120_000 (codes "h") 1 proxy socket_7 used_id

abbrev ids_message : Message
ids_message = record start_message {
  type = service_ids;
  available_service_ids = codes "g" ∷ codes "h" ∷ [];
}

on_service_ids-server_example :
    lookup (codes "h") (on_service_ids ids_message proxy).server_map
    ≡ after (available_services (codes "g" ∷ codes "h" ∷ [])) (lookup (codes "h") proxy.server_map)
on_service_ids-server_example = on_service_ids-server ids_message proxy (codes "h") refl
