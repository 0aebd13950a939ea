-- ===== src/Proxy/Listener/Servers.antt =====
-- Which local servers accept connections after `OnServiceIDs` of proxy/localproxy.go.
use native.Mathlib.Omega.{arith}
use securetunnel.Base.{
  ◌≡◌, refl, inl, inr, Bool, true, List, [], ◌∷◌, Option, none, some, Text, text_eq, ◌==◌, any,
  if◌then◌else◌, Bool-cases,
}
use securetunnel.Base.Dict.{lookup}
use securetunnel.Aws.{source, Message}
use securetunnel.Proxy.Listener.{
  TcpServer, LocalProxy, start, start_available, on_service_ids, available_services,
}

abbrev is_available : List Text → TcpServer → Bool
is_available available server = any (λ s. s == server.name) available

-- What is to become of the server of a service.
abbrev pub after : List Text → Option TcpServer → Option TcpServer
after available none = none
after available (some server) =
    some
      (record server { started = if is_available available server then true else server.started })

start_available-server :
    (b : Bool) (server : TcpServer)
    → (if b then start server else server)
      ≡ record server { started = if b then true else server.started }
unfolding start
start_available-server b server = ground arith

pub lookup-start_available :
    (available : List Text) (id : Text) (servers : List (Text × TcpServer))
    → lookup id (start_available available servers) ≡ after available (lookup id servers)
unfolding start_available lookup
lookup-start_available available id [] = refl
lookup-start_available available id ((j, server) ∷ servers) = elim (Bool-cases (j == id)) [
  | inl e ↦ rw (e, start_available-server (is_available available server) server) refl
  | inr e ↦ rw e (lookup-start_available available id servers)
]

-- In source mode, the server of a service accepts after `OnServiceIDs` if it did before or if its
-- name is among the services announced, where no service at all stands for the one without a name;
-- no server is added or removed.
pub on_service_ids-server :
    (message : Message) (p : LocalProxy) (id : Text)
    → p.mode ≡ source
    → lookup id (on_service_ids message p).server_map
      ≡ after (available_services message.available_service_ids) (lookup id p.server_map)
unfolding on_service_ids
on_service_ids-server message p id in_source =
    rw in_source
      (lookup-start_available (available_services message.available_service_ids) id p.server_map)
