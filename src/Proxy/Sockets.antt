-- ===== src/Proxy/Sockets.antt =====
-- proxy/socket.go and proxy/socket_manager.go. The local connections stand in a heap. `Stop` waits for
-- the reading goroutine, which ends with the read error that closing the connection causes.
-- What the network answers is an argument: whether a write arrives, whether a message could be sent.
pub mod Stopping
use securetunnel.Base.{
  ℕ, Bool, true, false, List, [], ◌∷◌, ◌++◌, Option, none, some, Text, nat_eq, eqb, if◌then◌else◌,
  ◌&&◌, not,
}
use securetunnel.Base.Dict.{lookup, insert, erase}
use securetunnel.Aws.{StreamId}

abbrev pub ConId : Type 0
ConId = ℕ

-- A local connection: whether it was closed, whether a goroutine reads it, and what was written to it.
pub record Con : Type 0 where
  pub closed : Bool
  pub reading : Bool
  pub received : List (List ℕ)

pub record LocalSocket : Type 0 where
  pub stream_id : StreamId
  pub service_id : Text
  pub con : ConId

-- A message handed to the client for the service.
pub data Outgoing : Type 0 where
  send_stream_start send_stream_reset : StreamId → Text → Outgoing
  send_data : StreamId → Text → List ℕ → Outgoing

pub record Sockets : Type 0 where
  pub socket_map : List (StreamId × LocalSocket)
  pub con : ConId → Con
  pub sent : List Outgoing

pub data Result : Type 0 where
  done already_exists unknown_stream failed_to_write : Result

abbrev pub set_con : ConId → Con → Sockets → Sockets
set_con c k s = record s { con = λ i. if eqb c i then k else s.con i }

abbrev pub send : Outgoing → Sockets → Sockets
send o s = record s { sent = s.sent ++ (o ∷ []) }

-- `close`: a second call only logs the error.
unfoldable pub close : ConId → Sockets → Sockets
close c s = set_con c (record (s.con c) { closed = true }) s

-- `StartSocket`, with `localSocket.Start`.
unfoldable pub start_socket : StreamId → Text → ConId → Sockets → Result × Sockets
start_socket stream service c s = elim (lookup stream s.socket_map) [
  | some _ ↦ (already_exists, s)
  | none ↦ (
    done,
    set_con c (record (s.con c) { reading = true })
        (record s {
          socket_map =
              insert stream (record { stream_id = stream; service_id = service; con = c })
                s.socket_map;
        }),
  )
]

-- `Write` of the manager: a closed connection refuses it, and so may the network.
unfoldable pub write : Bool → StreamId → List ℕ → Sockets → Result × Sockets
write write_ok stream bytes s = elim (lookup stream s.socket_map) [
  | none ↦ (unknown_stream, s)
  | some socket ↦
      let c = s.con socket.con in
      if write_ok && not c.closed
      then (done, set_con socket.con (record c { received = c.received ++ (bytes ∷ []) }) s)
      else (failed_to_write, s)
]

-- The goroutine ends: the deferred `close`.
unfoldable pub end_reading : ConId → Sockets → Sockets
end_reading c s = set_con c (record (s.con c) { closed = true; reading = false }) s

-- A round of `suck` that reads bytes: `OnReadData` sends them, and an error of it ends the goroutine.
unfoldable pub read_data : Bool → LocalSocket → List ℕ → Sockets → Sockets
unfolding end_reading
read_data send_ok socket bytes s =
    if (s.con socket.con).reading
    then if send_ok
      then send (send_data socket.stream_id socket.service_id bytes) s
      else end_reading socket.con s
    else s

-- A round of `suck` in which the read fails: `OnReadError` sends a reset, and the goroutine ends.
unfoldable pub read_error : LocalSocket → Sockets → Sockets
unfolding end_reading
read_error socket s =
    if (s.con socket.con).reading
    then end_reading socket.con (send (send_stream_reset socket.stream_id socket.service_id) s)
    else s

-- `localSocket.Stop`.
unfoldable pub stop : LocalSocket → Sockets → Sockets
unfolding close read_error
stop socket s = read_error socket (close socket.con s)

-- `StopSocket`.
unfoldable pub stop_socket : StreamId → Sockets → Sockets
unfolding stop
stop_socket stream s = elim (lookup stream s.socket_map) [
  | none ↦ s
  | some socket ↦ let t = stop socket s in record t { socket_map = erase stream t.socket_map }
]

-- The loop of `StopAll` over the entries of the map, in one order of iteration.
unfoldable pub stop_entries : List (StreamId × LocalSocket) → Sockets → Sockets
unfolding stop
stop_entries [] s = s
stop_entries ((stream, socket) ∷ entries) s =
    let t = stop socket s in
    stop_entries entries (record t { socket_map = erase stream t.socket_map })

-- `StopAll`.
unfoldable pub stop_all : Sockets → Sockets
unfolding stop_entries
stop_all s = stop_entries s.socket_map s
