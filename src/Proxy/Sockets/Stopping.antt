-- ===== src/Proxy/Sockets/Stopping.antt =====
-- What is left of a local connection once it is stopped.
use securetunnel.Base.{
  ℕ, ◌≡◌, subst, inl, inr, true, false, List, [], ◌∷◌, ◌++◌, none, some, arith, Text, eqb, nat_eq,
  Option-cases, Bool-cases,
}
use securetunnel.Base.Dict.{lookup, lookup-erase, lookup-erase_self, lookup-insert_self}
use securetunnel.Aws.{StreamId}
use securetunnel.Proxy.Sockets.{
  ConId, LocalSocket, send_stream_reset, Sockets, done, start_socket, write, stop, stop_socket,
  stop_entries, stop_all,
}

-- Stopped: closed, and no goroutine reads it.
pub record IsStopped (s : Sockets) (c : ConId) : Type 0 where
  pub is_closed : (s.con c).closed ≡ true
  pub not_reading : (s.con c).reading ≡ false

stop-IsStopped : (socket : LocalSocket) (s : Sockets) → IsStopped (stop socket s) socket.con
unfolding stop
stop-IsStopped socket s = ground arith

stop_keeps :
    (socket : LocalSocket) (s : Sockets) (c : ConId) → IsStopped s c → IsStopped (stop socket s) c
unfolding stop
stop_keeps socket s c h = ground arith

stop-map : (socket : LocalSocket) (s : Sockets) → (stop socket s).socket_map ≡ s.socket_map
unfolding stop
stop-map socket s = ground arith

stop_entries_keeps :
    (entries : List (StreamId × LocalSocket)) (s : Sockets) (c : ConId)
    → IsStopped s c
    → IsStopped (stop_entries entries s) c
unfolding stop_entries
stop_entries_keeps [] s c h = h
stop_entries_keeps ((stream, socket) ∷ entries) s c h = stop_entries_keeps entries _ c (record {
  is_closed = (stop_keeps socket s c h).is_closed;
  not_reading = (stop_keeps socket s c h).not_reading;
})

stop_entries-IsStopped :
    (entries : List (StreamId × LocalSocket)) (s : Sockets) (stream : StreamId)
    (socket : LocalSocket)
    → lookup stream entries ≡ some socket
    → IsStopped (stop_entries entries s) socket.con
unfolding stop_entries lookup
stop_entries-IsStopped [] s stream socket e = absurd (ground arith)
stop_entries-IsStopped ((other, first) ∷ entries) s stream socket e =
    elim (Bool-cases (eqb other stream)) [
      | inl here ↦
          let same : first ≡ socket = ground arith in
          let h = subst (λ x. IsStopped (stop first s) x.con) same (stop-IsStopped first s) in
          stop_entries_keeps entries _ socket.con
            (record { is_closed = h.is_closed; not_reading = h.not_reading })
      | inr there ↦ stop_entries-IsStopped entries _ stream socket (ground arith)
    ]

stop_entries-lookup :
    (entries : List (StreamId × LocalSocket)) (s : Sockets) (stream : StreamId)
    → lookup stream s.socket_map ≡ none
    → lookup stream (stop_entries entries s).socket_map ≡ none
unfolding stop_entries
stop_entries-lookup [] s stream e = e
stop_entries-lookup ((other, first) ∷ entries) s stream e =
    stop_entries-lookup entries _ stream
      (ground (arith, stop-map first s, lookup-erase other stream s.socket_map))

stop_entries-erased :
    (entries : List (StreamId × LocalSocket)) (s : Sockets) (stream : StreamId)
    (socket : LocalSocket)
    → lookup stream entries ≡ some socket
    → lookup stream (stop_entries entries s).socket_map ≡ none
unfolding stop_entries lookup
stop_entries-erased [] s stream socket e = absurd (ground arith)
stop_entries-erased ((other, first) ∷ entries) s stream socket e =
    elim (Bool-cases (eqb other stream)) [
      | inl here ↦
          stop_entries-lookup entries _ stream
            (ground (arith, lookup-erase other stream (stop first s).socket_map))
      | inr there ↦ stop_entries-erased entries _ stream socket (ground arith)
    ]

-- In whatever order the map is iterated, `StopAll` leaves no entry in it.
pub stop_all-empty :
    (s : Sockets) (stream : StreamId) → lookup stream (stop_all s).socket_map ≡ none
unfolding stop_all
stop_all-empty s stream = elim (Option-cases (lookup stream s.socket_map)) [
  | inl e ↦ stop_entries-lookup s.socket_map s stream e
  | inr (socket, e) ↦ stop_entries-erased s.socket_map s stream socket e
]

-- `StopAll` closes the connection of every stream in the map and ends the goroutine that reads it.
pub stop_all-IsStopped :
    (s : Sockets) (stream : StreamId) (socket : LocalSocket)
    → lookup stream s.socket_map ≡ some socket
    → IsStopped (stop_all s) socket.con
unfolding stop_all
stop_all-IsStopped s stream socket e = stop_entries-IsStopped s.socket_map s stream socket e

stop_socket-none :
    (s : Sockets) (stream : StreamId) → lookup stream s.socket_map ≡ none → stop_socket stream s ≡ s
unfolding stop_socket
stop_socket-none s stream e = rw (e, stop_socket)

lookup-stop_socket :
    (s : Sockets) (stream : StreamId) → lookup stream (stop_socket stream s).socket_map ≡ none
unfolding stop_socket
lookup-stop_socket s stream = elim (Option-cases (lookup stream s.socket_map)) [
  | inl e ↦ rw (e, stop_socket) e
  | inr (socket, e) ↦ rw (e, stop_socket) (lookup-erase_self stream (stop socket s).socket_map)
]

-- `StopSocket` may be called again for a stream: the second call does nothing.
pub stop_socket_twice :
    (s : Sockets) (stream : StreamId)
    → stop_socket stream (stop_socket stream s) ≡ stop_socket stream s
stop_socket_twice s stream =
    stop_socket-none (stop_socket stream s) stream (lookup-stop_socket s stream)

-- Stopping a stream whose connection is being read sends one reset for the stream, and nothing
-- else.
pub stop_socket-reset :
    (s : Sockets) (stream : StreamId) (socket : LocalSocket)
    → lookup stream s.socket_map ≡ some socket
    → (s.con socket.con).reading ≡ true
    → (stop_socket stream s).sent
      ≡ s.sent ++ (send_stream_reset socket.stream_id socket.service_id ∷ [])
unfolding stop_socket stop
stop_socket-reset s stream socket e reading = ground arith

-- Bytes written to a stream that was just started on an open connection arrive at that connection,
-- behind what it has received.
pub write-start_socket :
    (s s' : Sockets) (stream : StreamId) (service : Text) (c : ConId) (bytes : List ℕ)
    → (s.con c).closed ≡ false
    → start_socket stream service c s ≡ (done, s')
    → ((write true stream bytes s').0 ≡ done)
      × (((write true stream bytes s').1.con c).received ≡ (s.con c).received ++ (bytes ∷ []))
unfolding start_socket write
write-start_socket s s' stream service c bytes live e = ground (
  arith,
  lookup-insert_self stream (record { stream_id = stream; service_id = service; con = c })
      s.socket_map,
)
