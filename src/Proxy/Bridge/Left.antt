-- ===== src/Proxy/Bridge/Left.antt =====
-- What is left of a stream when its local connection ends first.
use securetunnel.Base.{
  ◌≡◌, refl, inl, inr, Bool, true, List, none, some, arith, eqb_iff, nat_eq, Option-cases,
  Bool-cases,
}
use securetunnel.Base.Dict.{lookup, lookup-erase_self}
use securetunnel.Aws.{StreamId, Message, stream_reset}
use securetunnel.Client.{Client, Listener, finish_stop, read_message, invoke_event, exec}
use securetunnel.Proxy.Sockets.{LocalSocket, read_error, end_reading}
use securetunnel.Proxy.Bridge.{
  Net, System, listener_of, react_all, send_new, absorb, read_service, end_worker, fail_local,
}
use securetunnel.Proxy.Bridge.Delivered.{drop-all}

finish_stop-absent : (k : StreamId) (c : Client) → lookup k (finish_stop k c).worker_map ≡ none
unfolding finish_stop
finish_stop-absent k c = elim (Option-cases (lookup k c.worker_map)) [
  | inl e ↦ rw (e, finish_stop) e
  | inr (r, e) ↦ rw (e, finish_stop) (lookup-erase_self k c.worker_map)
]

read_message-absent :
    (listener : Listener) (send_ok : Bool) (message : Message) (c : Client)
    → message.type ≡ stream_reset
    → lookup message.stream_id c.worker_map ≡ none
    → (read_message listener send_ok message c).1 ≡ c
unfolding read_message invoke_event exec
read_message-absent listener send_ok message c type gone = elim (Bool-cases message.ignorable) [
  | inl e ↦ rw (e, read_message) refl
  | inr e ↦ rw (e, read_message, type, invoke_event, gone, exec) refl
]

-- A reset for a stream without a worker does nothing.
read_service-absent :
    (net : Net) (message : Message) (s : System)
    → message.type ≡ stream_reset
    → lookup message.stream_id s.client.worker_map ≡ none
    → (read_service net message s).proxy ≡ s.proxy
unfolding read_service absorb react_all send_new
read_service-absent net message s type gone =
    rw
      (
        read_message-absent (listener_of net s.proxy) net.send_ok message s.client type gone,
        drop-all s.client.events,
      )
      refl

fail_local-stored :
    (net : Net) (socket : LocalSocket) (s : System)
    → (s.proxy.sockets.con socket.con).reading ≡ true
    → ((fail_local net socket s).proxy.sockets.socket_map ≡ s.proxy.sockets.socket_map)
      × (((fail_local net socket s).proxy.sockets.con socket.con).closed ≡ true)
unfolding fail_local send_new read_error end_reading
fail_local-stored net socket s reads =
    rw reads (refl, ground (arith, eqb_iff socket.con socket.con))

-- The local connection of a stream fails, then the goroutine of `stop` runs for it, and then a message
-- comes from the service.
abbrev pub ended_locally :
    Net → Net → LocalSocket → Message → List StreamId → List StreamId → System → System
ended_locally net later socket message before after s =
    read_service later message (end_worker before after message.stream_id (fail_local net socket s))

-- If the local connection of a stream fails, and the goroutine that stops its worker has run, then
-- a reset of the stream from the service leaves its entry in the map, with the connection closed.
pub fail_local-left :
    (net later : Net) (socket : LocalSocket) (message : Message) (before after : List StreamId)
    (s : System)
    → lookup message.stream_id s.proxy.sockets.socket_map ≡ some socket
    → (s.proxy.sockets.con socket.con).reading ≡ true
    → message.type ≡ stream_reset
    → (lookup message.stream_id
          (ended_locally net later socket message before after s).proxy.sockets.socket_map
        ≡ some socket)
      × (((ended_locally net later socket message before after s).proxy.sockets.con
            socket.con).closed
          ≡ true)
unfolding end_worker
fail_local-left net later socket message before after s stored reads type =
    let u = end_worker before after message.stream_id (fail_local net socket s) in
    let same = read_service-absent later message u type (finish_stop-absent message.stream_id _) in
    let (map, closed) = fail_local-stored net socket s reads in rw (same, map) (stored, closed)
