-- ===== src/Proxy/Launch.antt =====
-- `NewTCPServer` of proxy/localserver.go and `NewLocalProxy` of proxy/localproxy.go. What the operating
-- system allows is an argument: which files can be removed, and where one can listen.
pub mod Opened
use securetunnel.Base.{
  ℕ, Bool, true, false, ◌||◌, ◌&&◌, not, List, [], ◌∷◌, ◌++◌, Option, none, some, Text, text_eq,
  ◌==◌, codes, any, if◌then◌else◌,
}
use securetunnel.Base.Dict.{insert}
use securetunnel.Aws.{Mode, source, destination, other}
use securetunnel.Proxy.Config.{ServiceConfig}
use securetunnel.Proxy.Sockets.{Sockets}
use securetunnel.Proxy.Listener.{LocalProxyOptions, OptionError, validate, TcpServer, LocalProxy}

-- The files that stand in the way of a domain socket, and the networks and addresses listened at.
pub record Os : Type 0 where
  pub files : List Text
  pub listening : List (Text × Text)

pub record Allows : Type 0 where
  pub remove_ok : Text → Bool
  pub listen_ok : Text → Text → Os → Bool

pub data ServerError : Type 0 where
  failed_to_delete failed_to_listen : ServerError

pub data Result (A : Type 0) : Type 0 where
  ok : A → Result A
  invalid_options : OptionError → Result A
  no_server : ServerError → Result A

-- `net.ResolveUnixAddr` knows these networks.
abbrev pub is_unix : Text → Bool
is_unix network =
    (network == codes "unix") || (network == codes "unixgram") || (network == codes "unixpacket")

abbrev without : Text → List Text → List Text
without f [] = []
without f (g ∷ gs) = if g == f then without f gs else g ∷ without f gs

unfoldable pub listen : Allows → Text → Text → Text → Os → Result TcpServer × Os
listen allows name network address os =
    if allows.listen_ok network address os
    then (
      ok (record { name = name; started = false }),
      record os { listening = os.listening ++ ((network, address) ∷ []) },
    )
    else (no_server failed_to_listen, os)

unfoldable pub new_tcp_server : Allows → Text → Text → Text → Os → Result TcpServer × Os
unfolding listen
new_tcp_server allows name network address os =
    if is_unix network && any (λ f. f == address) os.files
    then if allows.remove_ok address
      then listen allows name network address (record os { files = without address os.files })
      else (no_server failed_to_delete, os)
    else listen allows name network address os

-- The two maps that `NewLocalProxy` fills.
pub record Maps : Type 0 where
  pub service_map : List (Text × ServiceConfig)
  pub server_map : List (Text × TcpServer)

abbrev pub is_source : Mode → Bool
is_source source = true
is_source destination = false
is_source (other s) = false

abbrev pub with_service : ServiceConfig → Maps → Maps
with_service c m = record m { service_map = insert c.service_id c m.service_map }

abbrev pub with_server : ServiceConfig → TcpServer → Maps → Maps
with_server c server m = record (with_service c m) {
  server_map = insert c.service_id server m.server_map;
}

-- The loop over the configurations.
unfoldable pub fill_maps : Allows → Bool → List ServiceConfig → Maps → Os → Result Maps × Os
fill_maps allows listens [] m os = (ok m, os)
fill_maps allows true (c ∷ cs) m os =
    let r = new_tcp_server allows c.service_id c.network c.address os in
    elim r.0 [
      | ok server ↦ fill_maps allows true cs (with_server c server m) r.1
      | invalid_options e ↦ (invalid_options e, r.1)
      | no_server e ↦ (no_server e, r.1)
    ]
fill_maps allows false (c ∷ cs) m os = fill_maps allows false cs (with_service c m) os

-- A proxy without any stream.
abbrev pub fresh_proxy : Mode → Maps → LocalProxy
fresh_proxy mode m = record {
  mode = mode;
  sockets = record {
    socket_map = [];
    con = λ c. record { closed = false; reading = false; received = [] };
    sent = [];
  };
  service_map = m.service_map;
  server_map = m.server_map;
  id_counter = 0;
}

abbrev pub finish : Mode → Result Maps × Os → Result LocalProxy × Os
finish mode (ok m, os) = (ok (fresh_proxy mode m), os)
finish mode (invalid_options e, os) = (invalid_options e, os)
finish mode (no_server e, os) = (no_server e, os)

unfoldable pub new_local_proxy : Allows → LocalProxyOptions → Os → Result LocalProxy × Os
unfolding fill_maps
new_local_proxy allows options os = elim (validate options) [
  | some e ↦ (invalid_options e, os)
  | none ↦ finish options.mode (
      fill_maps allows (is_source options.mode) options.service_configs
        (record { service_map = []; server_map = [] }) os)
]
