-- ===== src/Proxy/Bridge/Delivered.antt =====
-- A worker passes the bytes of a stream on to its local connection, in order.
use securetunnel.Base.{
  ℕ, ◌≡◌, refl, sym, ap, subst, ◌∙◌, true, false, List, [], ◌∷◌, ◌++◌, append-nil, append_assoc,
  map, some, arith, length, drop, drop-length-append, eqb_iff, nat_eq, All,
}
use securetunnel.Base.Dict.{lookup}
use securetunnel.Aws.{StreamId, Message}
use securetunnel.Client.{Client, Job, data_job, WorkerRef, run_next, on_data as data_came}
use securetunnel.Client.Draining.{run_next-worker, run_next-events}
use securetunnel.Proxy.Sockets.{LocalSocket, write, set_con, done}
use securetunnel.Proxy.Listener.{LocalProxy, on_data}
use securetunnel.Proxy.Bridge.{
  Net, System, listener_of, react, react_all, forward_all, send_new, absorb, run_worker,
}

pub drop-all {ℓ} : {A : Type ℓ} (xs : List A) → drop (length xs) xs ≡ []
drop-all [] = refl
drop-all (x ∷ xs) = drop-all xs

unfoldable pub run_worker_rounds : WorkerRef → List Net → System → System
run_worker_rounds r [] s = s
run_worker_rounds r (net ∷ nets) s = run_worker_rounds r nets (run_worker net r s)

-- The stream's socket stands in the map, and its connection takes writes.
pub record Connected (k : StreamId) (socket : LocalSocket) (p : LocalProxy) : Type 0 where
  pub stored : lookup k p.sockets.socket_map ≡ some socket
  pub unclosed : (p.sockets.con socket.con).closed ≡ false

abbrev received : LocalSocket → LocalProxy → List (List ℕ)
received socket p = (p.sockets.con socket.con).received

-- The bytes stand behind what the connection has received, and nothing else has changed.
abbrev with_bytes : LocalSocket → List ℕ → LocalProxy → LocalProxy
with_bytes socket bytes p = record p {
  sockets =
      set_con socket.con
        (record (p.sockets.con socket.con) { received = received socket p ++ (bytes ∷ []) })
        p.sockets;
}

with_bytes-received :
    (socket : LocalSocket) (bytes : List ℕ) (p : LocalProxy)
    → received socket (with_bytes socket bytes p) ≡ received socket p ++ (bytes ∷ [])
with_bytes-received socket bytes p = ground (arith, eqb_iff socket.con socket.con)

with_bytes-Connected :
    (k : StreamId) (socket : LocalSocket) (bytes : List ℕ) (p : LocalProxy)
    → Connected k socket p
    → Connected k socket (with_bytes socket bytes p)
with_bytes-Connected k socket bytes p h = record {
  stored = h.stored;
  unclosed = ground (arith, eqb_iff socket.con socket.con, h.unclosed);
}

on_data-with_bytes :
    (message : Message) (socket : LocalSocket) (p : LocalProxy)
    → Connected message.stream_id socket p
    → on_data true message p ≡ (done, with_bytes socket message.payload p)
unfolding on_data write
on_data-with_bytes message socket p h = rw (h.stored, on_data, write, h.unclosed) refl

module _ (net : Net) (message : Message) (s : System) (takes : net.write_ok ≡ true)
    (socket : LocalSocket) (h : Connected message.stream_id socket s.proxy) where
  react-with_bytes :
      react net (data_came message) s.proxy ≡ with_bytes socket message.payload s.proxy
  unfolding react
  react-with_bytes =
      ap (λ b. (on_data b message s.proxy).1) takes
      ∙ ap (λ x. x.1) (on_data-with_bytes message socket s.proxy h)

  -- The client has called `OnData`.
  absorb-with_bytes :
      (c : Client)
      → c.events ≡ s.client.events ++ (data_came message ∷ [])
      → absorb net c s ≡ record { client = c; proxy = with_bytes socket message.payload s.proxy }
  unfolding absorb react_all send_new forward_all
  absorb-with_bytes c e =
      rw (e, drop-length-append s.client.events, react-with_bytes, drop-all s.proxy.sockets.sent)
        refl

  -- One round of a worker whose next function handles data.
  run_worker-with_bytes :
      (r : WorkerRef) (queue : List Job)
      → (s.client.worker r).stopped ≡ false
      → (s.client.worker r).queue ≡ data_job message ∷ queue
      → run_worker net r s ≡ record {
        client = run_next (listener_of net s.proxy) net.send_ok r s.client;
        proxy = with_bytes socket message.payload s.proxy;
      }
  unfolding run_worker
  run_worker-with_bytes r queue running e = absorb-with_bytes _ (
      run_next-events (listener_of net s.proxy) net.send_ok r (data_job message) queue s.client
        running e)

-- A worker without functions, and a connection that has received the payloads.
pub record Delivered (r : WorkerRef) (socket : LocalSocket) (payloads : List (List ℕ))
    (s t : System) : Type 0 where
  pub queue_empty : (t.client.worker r).queue ≡ []
  pub arrived : received socket t.proxy ≡ received socket s.proxy ++ payloads

-- If a worker that is not stopped has only data of one stream in its channel, and the stream has an
-- open local connection that takes every write, then after as many rounds as there are messages its
-- channel is empty and the connection has received their payloads, in their order.
pub run_worker_rounds-Delivered :
    (k : StreamId) (socket : LocalSocket) (r : WorkerRef) (messages : List Message)
    (nets : List Net) (s : System)
    → All (λ m. m.stream_id ≡ k) messages
    → All (λ net. net.write_ok ≡ true) nets
    → length nets ≡ length messages
    → (s.client.worker r).queue ≡ map data_job messages
    → (s.client.worker r).stopped ≡ false
    → Connected k socket s.proxy
    → Delivered r socket (map (λ m. m.payload) messages) s (run_worker_rounds r nets s)
unfolding run_worker_rounds
run_worker_rounds-Delivered k socket r [] [] s own take n e running h = record {
  queue_empty = e;
  arrived = sym (append-nil (received socket s.proxy));
}
run_worker_rounds-Delivered k socket r [] (net ∷ nets) s own take n e running h =
    absurd (omega arith)
run_worker_rounds-Delivered k socket r (m ∷ ms) [] s own take n e running h = absurd (omega arith)
run_worker_rounds-Delivered k socket r (m ∷ ms) (net ∷ nets) s own take n e running h =
    let at : Connected m.stream_id socket s.proxy =
      subst (λ x. Connected x socket s.proxy) (sym own.0) h in
    let is = run_worker-with_bytes net m s take.0 socket at r (map data_job ms) running e in
    let w =
      run_next-worker (listener_of net s.proxy) net.send_ok r (data_job m) (map data_job ms)
        s.client running e in
    let d : System = record {
      client = run_next (listener_of net s.proxy) net.send_ok r s.client;
      proxy = with_bytes socket m.payload s.proxy;
    } in
    let rest =
      run_worker_rounds-Delivered k socket r ms nets d own.1 take.1 (omega arith)
        (ap (λ x. x.queue) w) (ap (λ x. x.stopped) w ∙ running)
        (with_bytes-Connected k socket m.payload s.proxy h) in
    subst (λ x. Delivered r socket (map (λ m. m.payload) (m ∷ ms)) s (run_worker_rounds r nets x))
      (sym is)
      (record {
        queue_empty = rest.queue_empty;
        arrived =
            rest.arrived
            ∙ rw (with_bytes-received socket m.payload s.proxy)
                (append_assoc (received socket s.proxy) (m.payload ∷ []) (map (λ m. m.payload) ms));
      })
