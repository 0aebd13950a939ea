-- ===== src/Client.antt =====
-- client/awsclient.go, workermanager.go and worker.go: the workers, one for each stream, and what the
-- client does with a message. A worker runs one function at a time; a run of it is one step here.
-- Whether a message can be serialized and written to the WebSocket is an argument of each send.
pub mod Order
pub mod Workers
pub mod Delivery
pub mod Retry
pub mod Dial
pub mod Draining
pub mod Session
pub mod Rounds
use securetunnel.Base.{
  ℕ, suc, ◌<◌, ◌≡◌, Bool, true, false, List, [], ◌∷◌, ◌++◌, Option, none, some, Text, nat_eq, eqb,
  ltb, length, if◌then◌else◌,
}
use securetunnel.Base.Dict.{lookup, insert, erase}
use securetunnel.Aws.{
  StreamId, Message, MessageType, unknown, message_data, stream_start, stream_reset, session_reset,
  service_ids, unnamed,
}

-- The two functions that `invokeEvent` hands to a worker.
pub data Job : Type 0 where
  data_job reset_job : Message → Job

abbrev pub WorkerRef : Type 0
WorkerRef = ℕ

-- `queue` is `chExec`. `done` is what the goroutine has run, the oldest first: the code does not keep it.
pub record Worker : Type 0 where
  pub queue : List Job
  pub done : List Job
  pub stopped : Bool

-- The calls of a listener, and the messages sent.
pub data Event : Type 0 where
  on_stream_start on_stream_reset on_session_reset on_data on_service_ids : Message → Event

pub record Outgoing : Type 0 where
  pub stream_id : StreamId
  pub service_id : Text
  pub type : MessageType
  pub payload : List ℕ

-- `stopping` holds the streams for which a goroutine of `stop` has yet to run.
pub record Client : Type 0 where
  pub worker_map : List (StreamId × WorkerRef)
  pub worker : WorkerRef → Worker
  pub next : WorkerRef
  pub stopping : List StreamId
  pub events : List Event
  pub sent : List Outgoing

-- An `AWSMessageListener`: which calls return no error.
pub record Listener : Type 0 where
  pub start_ok : Message → Bool
  pub data_ok : Message → Bool

abbrev pub channel_buf_size : ℕ
channel_buf_size = 10

abbrev pub set_worker : WorkerRef → Worker → Client → Client
set_worker r w c = record c { worker = λ i. if eqb r i then w else c.worker i }

abbrev pub fire : Event → Client → Client
fire event c = record c { events = c.events ++ (event ∷ []) }

abbrev pub new_worker : Worker
new_worker = record { queue = []; done = []; stopped = false }

-- `workerManager.start`, which does not look for a worker that the stream has already.
unfoldable pub start : StreamId → Client → Client
start stream c = record (set_worker c.next new_worker c) {
  next = suc c.next;
  worker_map = insert stream c.next c.worker_map;
}

-- `exec`; a full channel blocks the caller.
pub data Exec : Type 0 where
  executed absent blocked : Exec

abbrev pub exec_on : WorkerRef → Job → Client → Exec × Client
exec_on r job c =
    if ltb (length (c.worker r).queue) channel_buf_size
    then (
      executed,
      set_worker r (record (c.worker r) { queue = (c.worker r).queue ++ (job ∷ []) }) c,
    )
    else (blocked, c)

unfoldable pub exec : StreamId → Job → Client → Exec × Client
exec stream job c = elim (lookup stream c.worker_map) [
  | none ↦ (absent, c)
  | some r ↦ exec_on r job c
]

-- `Worker.Stop`, which does nothing the second time.
abbrev pub stop_worker : WorkerRef → Client → Client
stop_worker r c = set_worker r (record (c.worker r) { stopped = true }) c

-- `stop` starts a goroutine, and this is it.
unfoldable pub stop : StreamId → Client → Client
stop stream c = record c { stopping = c.stopping ++ (stream ∷ []) }

unfoldable pub finish_stop : StreamId → Client → Client
finish_stop stream c = elim (lookup stream c.worker_map) [
  | none ↦ c
  | some r ↦ record (stop_worker r c) { worker_map = erase stream c.worker_map }
]

-- `stopAll`, at the end of each connection: the map keeps its entries.
unfoldable pub stop_workers : List (StreamId × WorkerRef) → Client → Client
stop_workers [] c = c
stop_workers ((stream, r) ∷ entries) c = stop_workers entries (stop_worker r c)

unfoldable pub stop_all : Client → Client
unfolding stop_workers
stop_all c = stop_workers c.worker_map c

-- `sendMessage`, and the three messages that a localproxy sends. The Boolean says whether it failed.
unfoldable pub send_message : Bool → Outgoing → Client → Bool × Client
send_message true outgoing c = (true, record c { sent = c.sent ++ (outgoing ∷ []) })
send_message false outgoing c = (false, c)

abbrev outgoing_of : StreamId → Text → MessageType → List ℕ → Outgoing
outgoing_of stream service type payload = record {
  stream_id = stream;
  service_id = service;
  type = type;
  payload = payload;
}

unfoldable pub send_stream_start : Bool → StreamId → Text → Client → Bool × Client
unfolding start stop send_message
send_stream_start send_ok stream service c =
    let (sent, c1) =
      send_message send_ok (outgoing_of stream service stream_start []) (start stream c) in
    if sent then (true, c1) else (false, stop stream c1)

unfoldable pub send_stream_reset : Bool → StreamId → Text → Client → Bool × Client
unfolding stop send_message
send_stream_reset send_ok stream service c =
    send_message send_ok (outgoing_of stream service stream_reset []) (stop stream c)

unfoldable pub send_data : Bool → StreamId → Text → List ℕ → Client → Bool × Client
unfolding send_message
send_data send_ok stream service payload c =
    send_message send_ok (outgoing_of stream service message_data payload) c

-- What `invokeEvent` does on an error of the listener.
abbrev pub reset_unless : Bool → Bool → Message → Client → Client
reset_unless true send_ok message c = c
reset_unless false send_ok message c =
    (send_stream_reset send_ok message.stream_id message.service_id c).1

-- A function that a worker runs.
unfoldable pub run_job : Listener → Bool → Job → Client → Client
unfolding send_stream_reset stop
run_job listener send_ok (data_job message) c =
    reset_unless (listener.data_ok message) send_ok message (fire (on_data message) c)
run_job listener send_ok (reset_job message) c =
    stop message.stream_id (fire (on_stream_reset message) c)

abbrev pub take_job : Listener → Bool → WorkerRef → List Job → Client → Client
take_job listener send_ok r [] c = c
take_job listener send_ok r (job ∷ rest) c =
    run_job listener send_ok job (
      set_worker r (record (c.worker r) { queue = rest; done = (c.worker r).done ++ (job ∷ []) }) c)

-- One round of the loop of `Worker.Start`.
unfoldable pub run_next : Listener → Bool → WorkerRef → Client → Client
unfolding run_job
run_next listener send_ok r c =
    if (c.worker r).stopped then c else take_job listener send_ok r (c.worker r).queue c

-- `invokeEvent`. An event that blocks has not returned.
unfoldable pub invoke_event : Listener → Bool → Message → Client → Exec × Client
unfolding start exec send_stream_reset
invoke_event listener send_ok message c = elim message.type [
  | stream_start ↦ (
    executed,
    reset_unless (listener.start_ok message) send_ok message
        (fire (on_stream_start message) (start message.stream_id c)),
  )
  | message_data ↦ exec message.stream_id (data_job message) c
  | stream_reset ↦ exec message.stream_id (reset_job message) c
  | session_reset ↦ (executed, fire (on_session_reset message) c)
  | service_ids ↦ (executed, fire (on_service_ids message) c)
  | unknown ↦ (absent, c)
  | unnamed _ ↦ (absent, c)
]

-- One round of `keepReadingMessages` that reads a message.
unfoldable pub read_message : Listener → Bool → Message → Client → Exec × Client
unfolding invoke_event
read_message listener send_ok message c =
    if message.ignorable then (executed, c) else invoke_event listener send_ok message c

-- The steps of the client's goroutines, in any order. A worker's goroutine exists once it is started.
pub data Step (listener : Listener) (c : Client) : Client → Type 0 where
  reads :
      (send_ok : Bool) (message : Message)
      → Step listener c (read_message listener send_ok message c).1
  runs :
      (send_ok : Bool) (r : WorkerRef)
      → r < c.next
      → Step listener c (run_next listener send_ok r c)
  sends_start :
      (send_ok : Bool) (stream : StreamId) (service : Text)
      → Step listener c (send_stream_start send_ok stream service c).1
  sends_reset :
      (send_ok : Bool) (stream : StreamId) (service : Text)
      → Step listener c (send_stream_reset send_ok stream service c).1
  sends_data :
      (send_ok : Bool) (stream : StreamId) (service : Text) (payload : List ℕ)
      → Step listener c (send_data send_ok stream service payload c).1
  stops :
      (before after : List StreamId) (stream : StreamId)
      → c.stopping ≡ before ++ (stream ∷ after)
      → Step listener c (finish_stop stream (record c { stopping = before ++ after }))
  loses_connection : Step listener c (stop_all c)
