-- ===== src/Client/Workers.antt =====
-- No step of client takes a worker away.
use native.Mathlib.Omega.{arith}
use securetunnel.Base.{◌≤◌, ◌≡◌, refl, Bool, true, false, List, [], ◌∷◌, nat_eq}
use securetunnel.Aws.{
  StreamId, Message, MessageType, unknown, message_data, stream_start, stream_reset, session_reset,
  service_ids, unnamed,
}
use securetunnel.Client.{
  Job, data_job, reset_job, WorkerRef, Client, Listener, Outgoing, take_job, start, exec, stop,
  finish_stop, stop_worker, stop_workers, stop_all, send_message, send_stream_start,
  send_stream_reset, send_data, run_job, run_next, invoke_event, read_message, Step, reads, runs,
  sends_start, sends_reset, sends_data, stops, loses_connection, reset_unless, fire,
  on_stream_start,
}

send_message-next :
    (send_ok : Bool) (o : Outgoing) (c : Client) → (send_message send_ok o c).1.next ≡ c.next
unfolding send_message
send_message-next true o c = refl
send_message-next false o c = refl

reset_unless-next :
    (b send_ok : Bool) (message : Message) (c : Client)
    → (reset_unless b send_ok message c).next ≡ c.next
unfolding send_stream_reset stop
reset_unless-next true send_ok message c = refl
reset_unless-next false send_ok message c = send_message-next send_ok _ _

pub exec-next : (stream : StreamId) (job : Job) (c : Client) → (exec stream job c).1.next ≡ c.next
unfolding exec
exec-next stream job c = ground arith

invoke_type-next :
    (listener : Listener) (send_ok : Bool) (message : Message) (type : MessageType) (c : Client)
    → message.type ≡ type
    → c.next ≤ (invoke_event listener send_ok message c).1.next
unfolding invoke_event start
invoke_type-next listener send_ok message stream_start c e =
    rw (e, invoke_event)
      (omega (
        arith,
        reset_unless-next (listener.start_ok message) send_ok message
            (fire (on_stream_start message) (start message.stream_id c)),
      ))
invoke_type-next listener send_ok message message_data c e =
    rw (e, invoke_event) (omega (arith, exec-next message.stream_id (data_job message) c))
invoke_type-next listener send_ok message stream_reset c e =
    rw (e, invoke_event) (omega (arith, exec-next message.stream_id (reset_job message) c))
invoke_type-next listener send_ok message session_reset c e = rw (e, invoke_event) (omega arith)
invoke_type-next listener send_ok message service_ids c e = rw (e, invoke_event) (omega arith)
invoke_type-next listener send_ok message unknown c e = rw (e, invoke_event) (omega arith)
invoke_type-next listener send_ok message (unnamed n) c e = rw (e, invoke_event) (omega arith)

run_job-next :
    (listener : Listener) (send_ok : Bool) (job : Job) (c : Client)
    → (run_job listener send_ok job c).next ≡ c.next
unfolding run_job stop
run_job-next listener send_ok (data_job message) c =
    reset_unless-next (listener.data_ok message) send_ok message _
run_job-next listener send_ok (reset_job message) c = refl

take_job-next :
    (listener : Listener) (send_ok : Bool) (r : WorkerRef) (q : List Job) (c : Client)
    → (take_job listener send_ok r q c).next ≡ c.next
take_job-next listener send_ok r [] c = refl
take_job-next listener send_ok r (job ∷ rest) c = run_job-next listener send_ok job _

stop_workers-next :
    (entries : List (StreamId × WorkerRef)) (c : Client) → (stop_workers entries c).next ≡ c.next
unfolding stop_workers
stop_workers-next [] c = refl
stop_workers-next ((s, o) ∷ entries) c = stop_workers-next entries (stop_worker o c)

-- No step takes a worker away.
pub Step-next : {listener : Listener} {c d : Client} → Step listener c d → c.next ≤ d.next
unfolding read_message run_next send_stream_start send_stream_reset send_data send_message start
    stop finish_stop stop_all
Step-next {listener} {c} (reads send_ok message) =
    ground (arith, invoke_type-next listener send_ok message message.type c refl)
Step-next {listener} {c} (runs send_ok o lt) =
    ground (arith, take_job-next listener send_ok o (c.worker o).queue c)
Step-next {listener} {c} (sends_start send_ok stream service) = ground arith
Step-next {listener} {c} (sends_reset send_ok stream service) = ground arith
Step-next {listener} {c} (sends_data send_ok stream service payload) = ground arith
Step-next {listener} {c} (stops before after stream e) = ground arith
Step-next {listener} {c} loses_connection = omega (arith, stop_workers-next c.worker_map c)
