-- ===== src/Proxy/Listener/Connections.antt =====
-- What the handlers of proxy/localproxy.go do with the connections that they are given or dial.
use native.Mathlib.Omega.{arith}
use securetunnel.Base.{ℕ, true, nat_eq, text_eq, Option, some, Text, ◌≡◌, refl}
use securetunnel.Base.Dict.{lookup}
use securetunnel.Aws.{Message}
use securetunnel.Proxy.Config.{ServiceConfig}
use securetunnel.Proxy.IdGen.{generate}
use securetunnel.Proxy.Sockets.{ConId, LocalSocket, close, start_socket}
use securetunnel.Proxy.Listener.{LocalProxy, stream_exists, on_stream_start, accept}

-- If the service is known, its connection can be made and the stream is in use, `OnStreamStart`
-- returns an error and changes nothing: the new connection is neither closed nor kept.
pub on_stream_start-exists :
    (dial : ServiceConfig → Option ConId) (message : Message) (p : LocalProxy)
    (config : ServiceConfig) (c : ConId) (socket : LocalSocket)
    → lookup message.service_id p.service_map ≡ some config
    → dial config ≡ some c
    → lookup message.stream_id p.sockets.socket_map ≡ some socket
    → on_stream_start dial message p ≡ (some stream_exists, p)
unfolding on_stream_start start_socket
on_stream_start-exists dial message p config c socket known dialled used =
    rw (known, on_stream_start, dialled, start_socket, used) refl

-- A client whose new stream is in use already has its connection closed.
pub accept-exists :
    (time : ℕ) (service : Text) (c : ConId) (p : LocalProxy) (socket : LocalSocket)
    → lookup (generate time p.id_counter).1 p.sockets.socket_map ≡ some socket
    → ((accept true time service c p).sockets.con c).closed ≡ true
unfolding accept start_socket close
accept-exists time service c p socket used = ground arith
