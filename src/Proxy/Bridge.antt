-- ===== src/Proxy/Bridge.antt =====
-- The client of client/awsclient.go with the listener of proxy/localproxy.go: the calls that a step of
-- the client makes change the proxy, and what the sockets send goes out through the client.
pub mod Delivered
pub mod Left
use securetunnel.Base.{
  ℕ, Bool, true, false, List, [], ◌∷◌, ◌++◌, Option, none, some, Text, length, drop,
}
use securetunnel.Aws.{Message, StreamId}
use securetunnel.Client.{
  Client, Listener, Event, WorkerRef, run_next, read_message, finish_stop,
  on_stream_start as stream_started, on_stream_reset as stream_was_reset,
  on_session_reset as session_was_reset, on_data as data_came, on_service_ids as services_came,
  send_stream_start as client_send_stream_start, send_stream_reset as client_send_stream_reset,
  send_data as client_send_data,
}
use securetunnel.Proxy.Config.{ServiceConfig}
use securetunnel.Proxy.IdGen.{generate}
use securetunnel.Proxy.Sockets.{
  ConId, LocalSocket, Sockets, Outgoing, send_stream_start, send_stream_reset, send_data, Result,
  done, read_data, read_error,
}
use securetunnel.Proxy.Listener.{
  LocalProxy, StartError, on_stream_start, on_stream_reset, on_session_reset, on_data,
  on_service_ids, accept,
}

-- What is up to the network in a step: the connection that is dialed, whether a local connection
-- takes a write, and whether the WebSocket does.
pub record Net : Type 0 where
  pub dial : ServiceConfig → Option ConId
  pub write_ok : Bool
  pub send_ok : Bool

pub record System : Type 0 where
  pub client : Client
  pub proxy : LocalProxy

abbrev succeeded : Option StartError → Bool
succeeded none = true
succeeded (some e) = false

abbrev is_done : Result → Bool
is_done done = true
is_done _ = false

-- The answers of the `eventLisnter`.
abbrev pub listener_of : Net → LocalProxy → Listener
listener_of net p = record {
  start_ok = λ message. succeeded (on_stream_start net.dial message p).0;
  data_ok = λ message. is_done (on_data net.write_ok message p).0;
}

-- What a call of it changes.
unfoldable pub react : Net → Event → LocalProxy → LocalProxy
react net (stream_started message) p = (on_stream_start net.dial message p).1
react net (stream_was_reset message) p = on_stream_reset message p
react net (session_was_reset message) p = on_session_reset p
react net (data_came message) p = (on_data net.write_ok message p).1
react net (services_came message) p = on_service_ids message p

unfoldable pub react_all : Net → List Event → LocalProxy → LocalProxy
unfolding react
react_all net [] p = p
react_all net (event ∷ events) p = react_all net events (react net event p)

-- `OnReadData`, `OnReadError` and `onConnectedHandler` hand their messages to the client.
unfoldable pub forward : Bool → Outgoing → Client → Client
forward send_ok (send_stream_start stream service) c =
    (client_send_stream_start send_ok stream service c).1
forward send_ok (send_stream_reset stream service) c =
    (client_send_stream_reset send_ok stream service c).1
forward send_ok (send_data stream service payload) c =
    (client_send_data send_ok stream service payload c).1

unfoldable pub forward_all : Bool → List Outgoing → Client → Client
unfolding forward
forward_all send_ok [] c = c
forward_all send_ok (o ∷ os) c = forward_all send_ok os (forward send_ok o c)

-- The proxy has changed, and the client sends what is new.
unfoldable pub send_new : Bool → LocalProxy → LocalProxy → Client → System
unfolding forward_all
send_new send_ok before p c = record {
  client = forward_all send_ok (drop (length before.sockets.sent) p.sockets.sent) c;
  proxy = p;
}

-- The client has taken a step, and the proxy reacts to the calls that it made.
unfoldable pub absorb : Net → Client → System → System
unfolding react_all send_new
absorb net c s =
    send_new net.send_ok s.proxy (react_all net (drop (length s.client.events) c.events) s.proxy) c

-- The steps of a localproxy: a message from the service, a round of a worker, the goroutine of a
-- `stop`, which stands between others, and bytes or an error of a local connection.
unfoldable pub read_service : Net → Message → System → System
unfolding absorb
read_service net message s =
    absorb net (read_message (listener_of net s.proxy) net.send_ok message s.client).1 s

unfoldable pub run_worker : Net → WorkerRef → System → System
unfolding absorb
run_worker net r s = absorb net (run_next (listener_of net s.proxy) net.send_ok r s.client) s

unfoldable pub end_worker : List StreamId → List StreamId → StreamId → System → System
end_worker before after stream s = record s {
  client = finish_stop stream (record s.client { stopping = before ++ after });
}

unfoldable pub read_local : Net → LocalSocket → List ℕ → System → System
unfolding send_new
read_local net socket bytes s =
    send_new net.send_ok s.proxy
      (record s.proxy { sockets = read_data net.send_ok socket bytes s.proxy.sockets }) s.client

unfoldable pub fail_local : Net → LocalSocket → System → System
unfolding send_new
fail_local net socket s =
    send_new net.send_ok s.proxy (record s.proxy { sockets = read_error socket s.proxy.sockets })
      s.client

-- A local client connects, in source mode.
unfoldable pub accept_local : Net → ℕ → Text → ConId → System → System
accept_local net time service c s = record {
  client =
      (client_send_stream_start net.send_ok (generate time s.proxy.id_counter).1 service
        s.client).1;
  proxy = accept net.send_ok time service c s.proxy;
}
