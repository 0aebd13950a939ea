-- ===== src/Proxy/Listener.antt =====
-- proxy/localproxy.go: the options, the maps of a `LocalProxy`, and the handlers of `eventLisnter`.
-- `net.DialTimeout` and the client's answers are arguments; starting an accept loop is a flag.
pub mod Connections
pub mod Servers
use securetunnel.Base.{
  ℕ, Bool, true, false, not, List, [], ◌∷◌, ◌++◌, Option, none, some, Text, text_eq, ◌==◌, codes,
  any, if◌then◌else◌,
}
use securetunnel.Base.Dict.{lookup, insert}
use securetunnel.Aws.{Mode, source, destination, other, StreamId, Message}
use securetunnel.Proxy.Config.{ServiceConfig}
use securetunnel.Proxy.IdGen.{generate}
use securetunnel.Proxy.Sockets.{
  ConId, Sockets, Result, done, already_exists, unknown_stream, Outgoing, send_stream_start, send,
  close, start_socket, stop_socket, stop_all, write,
}

-- The endpoint is its scheme, or nil; of the TLS configuration, if there is one, it is
-- `InsecureSkipVerify`. Durations are in nanoseconds.
pub record LocalProxyOptions : Type 0 where
  pub mode : Mode
  pub service_configs : List ServiceConfig
  pub endpoint_scheme : Option Text
  pub token : Text
  pub insecure_skip_verify : Option Bool
  pub endpoint_dial_timeout : ℕ
  pub local_dial_timeout : ℕ
  pub endpoint_reconnect_interval : ℕ
  pub ping_interval : ℕ

pub data OptionError : Type 0 where
  invalid_mode endpoint_is_nil invalid_scheme no_service_configs token_is_empty : OptionError

abbrev is_valid_mode : Mode → Bool
is_valid_mode destination = true
is_valid_mode source = true
is_valid_mode (other s) = false

abbrev pub is_valid_scheme : Text → Bool
is_valid_scheme scheme = if scheme == codes "ws" then true else scheme == codes "wss"

abbrev pub is_empty {ℓ} : {A : Type ℓ} → List A → Bool
is_empty [] = true
is_empty (x ∷ xs) = false

-- `Validate`: `none` is success.
unfoldable pub validate : LocalProxyOptions → Option OptionError
validate options =
    if not (is_valid_mode options.mode) then some invalid_mode else elim options.endpoint_scheme [
      | none ↦ some endpoint_is_nil
      | some scheme ↦
          if not (is_valid_scheme scheme)
          then some invalid_scheme
          else if is_empty options.service_configs
          then some no_service_configs
          else if options.token == codes ""
          then some token_is_empty
          else none
    ]

-- A `TCPServer`: whether it listens is decided by `Start`, which works once.
pub record TcpServer : Type 0 where
  pub name : Text
  pub started : Bool

unfoldable pub start : TcpServer → TcpServer
start server = if server.started then server else record server { started = true }

pub record LocalProxy : Type 0 where
  pub mode : Mode
  pub sockets : Sockets
  pub service_map : List (Text × ServiceConfig)
  pub server_map : List (Text × TcpServer)
  pub id_counter : ℕ

-- The loop of `NewLocalProxy` over the configurations, where listening succeeds.
unfoldable pub service_map_of :
    List ServiceConfig → List (Text × ServiceConfig) → List (Text × ServiceConfig)
service_map_of [] m = m
service_map_of (c ∷ cs) m = service_map_of cs (insert c.service_id c m)

-- `OnStreamStart`; `dial` is the connection to the service's address, if one can be made.
pub data StartError : Type 0 where
  unknown_service failed_to_connect stream_exists : StartError

abbrev started_or : Result × Sockets → LocalProxy → Option StartError × LocalProxy
started_or (done, s) p = (none, record p { sockets = s })
started_or (_, s) p = (some stream_exists, record p { sockets = s })

unfoldable pub on_stream_start :
    (ServiceConfig → Option ConId) → Message → LocalProxy → Option StartError × LocalProxy
on_stream_start dial message p = elim (lookup message.service_id p.service_map) [
  | none ↦ (some unknown_service, p)
  | some config ↦ elim (dial config) [
    | none ↦ (some failed_to_connect, p)
    | some c ↦ started_or (start_socket message.stream_id message.service_id c p.sockets) p
  ]
]

unfoldable pub on_stream_reset : Message → LocalProxy → LocalProxy
on_stream_reset message p = record p { sockets = stop_socket message.stream_id p.sockets }

unfoldable pub on_session_reset : LocalProxy → LocalProxy
on_session_reset p = record p { sockets = stop_all p.sockets }

-- `OnConnected`, which the client runs after each connect.
unfoldable pub on_connected : LocalProxy → LocalProxy
on_connected p = record p { sockets = stop_all p.sockets }

unfoldable pub on_data : Bool → Message → LocalProxy → Result × LocalProxy
on_data write_ok message p =
    let (result, s) = write write_ok message.stream_id message.payload p.sockets in
    (result, record p { sockets = s })

-- The list of services that `OnServiceIDs` goes by.
abbrev pub available_services : List Text → List Text
available_services [] = codes "" ∷ []
available_services (s ∷ ss) = s ∷ ss

-- The loop over the servers.
unfoldable pub start_available : List Text → List (Text × TcpServer) → List (Text × TcpServer)
unfolding start
start_available available [] = []
start_available available ((id, server) ∷ servers) =
    (id, if any (λ s. s == server.name) available then start server else server)
    ∷ start_available available servers

unfoldable pub on_service_ids : Message → LocalProxy → LocalProxy
unfolding start_available
on_service_ids message p = elim p.mode [
  | source ↦ record p {
    server_map = start_available (available_services message.available_service_ids) p.server_map;
  }
  | destination ↦ p
  | other _ ↦ p
]

abbrev closed_unless : ConId → Result × Sockets → Sockets
closed_unless c (done, s) = s
closed_unless c (_, s) = close c s

-- `onConnectedHandler`: a client connected to the local server of a service at a time of day.
unfoldable pub accept : Bool → ℕ → Text → ConId → LocalProxy → LocalProxy
accept send_ok time service c p =
    let (counter, stream) = generate time p.id_counter in
    let s = send (send_stream_start stream service) p.sockets in
    record p {
      id_counter = counter;
      sockets =
          if send_ok then closed_unless c (start_socket stream service c s) else close c p.sockets;
    }
