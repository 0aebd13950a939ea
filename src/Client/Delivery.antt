-- ===== src/Client/Delivery.antt =====
-- What the workers of client run over any run of its goroutines, and behind a lost connection.
use native.Mathlib.Omega.{arith}
use securetunnel.Base.{
  ◌<◌, ◌≤◌, ◌≡◌, ◌≢◌, refl, ap, ◌∙◌, inl, inr, Bool, true, false, List, [], ◌∷◌, ◌++◌, append-nil,
  some, eqb, eqb_iff, if◌then◌else◌, Option-cases, Bool-cases, nat_eq,
}
use securetunnel.Base.Dict.{lookup}
use securetunnel.Aws.{
  StreamId, Message, MessageType, unknown, message_data, stream_start, stream_reset, session_reset,
  service_ids, unnamed,
}
use securetunnel.Client.{
  Job, data_job, reset_job, WorkerRef, Worker, Client, Listener, Exec, executed, absent, exec, stop,
  finish_stop, stop_worker, stop_workers, stop_all, send_stream_reset, send_data, invoke_event,
  read_message, Step, reads, runs, sends_start, sends_reset, sends_data, stops, loses_connection,
}
use securetunnel.Client.Order.{
  Advances, Advances-refl, Advances-trans, exec-Advances, stop_worker-Advances,
  stop_workers-Advances, start-worker, send_message-worker, send_stream_start-worker,
  reset_unless-worker, run_next-Advances,
}
use securetunnel.Client.Workers.{Step-next, exec-next}

Advances-same : {w w' : Worker} → w' ≡ w → Advances w w'
Advances-same {w} e = rw e (Advances-refl w)

-- The type of the message decides.
invoke_type-Advances :
    (listener : Listener) (send_ok : Bool) (message : Message) (type : MessageType) (c : Client)
    (r : WorkerRef)
    → message.type ≡ type
    → r < c.next
    → Advances (c.worker r) ((invoke_event listener send_ok message c).1.worker r)
unfolding invoke_event
invoke_type-Advances listener send_ok message stream_start c r e h =
    rw (e, invoke_event)
      (Advances-same (
        ap (λ f. f r) (reset_unless-worker (listener.start_ok message) send_ok message _)
        ∙ start-worker message.stream_id c r h))
invoke_type-Advances listener send_ok message message_data c r e h =
    rw (e, invoke_event) (exec-Advances message.stream_id (data_job message) c r)
invoke_type-Advances listener send_ok message stream_reset c r e h =
    rw (e, invoke_event) (exec-Advances message.stream_id (reset_job message) c r)
invoke_type-Advances listener send_ok message session_reset c r e h =
    rw (e, invoke_event) (Advances-refl (c.worker r))
invoke_type-Advances listener send_ok message service_ids c r e h =
    rw (e, invoke_event) (Advances-refl (c.worker r))
invoke_type-Advances listener send_ok message unknown c r e h =
    rw (e, invoke_event) (Advances-refl (c.worker r))
invoke_type-Advances listener send_ok message (unnamed n) c r e h =
    rw (e, invoke_event) (Advances-refl (c.worker r))

if-Advances :
    (b : Bool) (x y : Exec × Client) (w : Worker) (r : WorkerRef)
    → Advances w (x.1.worker r)
    → Advances w (y.1.worker r)
    → Advances w ((if b then x else y).1.worker r)
if-Advances true x y w r hx hy = hx
if-Advances false x y w r hx hy = hy

read_message-Advances :
    (listener : Listener) (send_ok : Bool) (message : Message) (c : Client) (r : WorkerRef)
    → r < c.next
    → Advances (c.worker r) ((read_message listener send_ok message c).1.worker r)
unfolding read_message
read_message-Advances listener send_ok message c r h =
    if-Advances message.ignorable (executed, c) (invoke_event listener send_ok message c)
      (c.worker r) r (Advances-refl (c.worker r))
      (invoke_type-Advances listener send_ok message message.type c r refl h)

finish_stop-Advances :
    (stream : StreamId) (c : Client) (r : WorkerRef)
    → Advances (c.worker r) ((finish_stop stream c).worker r)
unfolding finish_stop
finish_stop-Advances stream c r = elim (Option-cases (lookup stream c.worker_map)) [
  | inl e ↦ rw (e, finish_stop) (Advances-refl (c.worker r))
  | inr (o, e) ↦ rw (e, finish_stop) (stop_worker-Advances o c r)
]

-- In every step of the client's goroutines, a worker that was started before runs functions only
-- from the front of what it has been given, each once; it is given functions only behind those that
-- it has; and once it is stopped it runs nothing and stays stopped.
pub Step-Advances :
    {listener : Listener} {c d : Client}
    → Step listener c d
    → (r : WorkerRef) → r < c.next
    → Advances (c.worker r) (d.worker r)
unfolding stop_all send_stream_reset send_data stop
Step-Advances {listener} {c} (reads send_ok message) r h =
    read_message-Advances listener send_ok message c r h
Step-Advances {listener} {c} (runs send_ok o lt) r h = run_next-Advances listener send_ok o c r
Step-Advances {listener} {c} (sends_start send_ok stream service) r h =
    Advances-same (send_stream_start-worker send_ok stream service c r h)
Step-Advances {listener} {c} (sends_reset send_ok stream service) r h =
    Advances-same (ap (λ f. f r) (send_message-worker send_ok _ _))
Step-Advances {listener} {c} (sends_data send_ok stream service payload) r h =
    Advances-same (ap (λ f. f r) (send_message-worker send_ok _ _))
Step-Advances {listener} {c} (stops before after stream e) r h =
    finish_stop-Advances stream (record c { stopping = before ++ after }) r
Step-Advances {listener} {c} loses_connection r h = stop_workers-Advances c.worker_map c r

-- Any number of steps.
pub data Steps (listener : Listener) (c : Client) : Client → Type 0 where
  stays : Steps listener c c
  then_step : {d e : Client} → Steps listener c d → Step listener d e → Steps listener c e

Steps-next : {listener : Listener} {c d : Client} → Steps listener c d → c.next ≤ d.next
Steps-next stays = omega arith
Steps-next (then_step steps step) = omega (arith, Steps-next steps, Step-next step)

-- Over any number of steps of the client's goroutines, a worker that was started before runs its
-- functions in the order in which it was given them, each once, and none if it was stopped before.
pub Steps-Advances :
    {listener : Listener} {c d : Client}
    → Steps listener c d
    → (r : WorkerRef) → r < c.next
    → Advances (c.worker r) (d.worker r)
Steps-Advances {listener} {c} stays r h = Advances-refl (c.worker r)
Steps-Advances (then_step steps step) r h =
    Advances-trans (Steps-Advances steps r h)
      (Step-Advances step r (omega (arith, h, Steps-next steps)))

stop_workers-stopped :
    (entries : List (StreamId × WorkerRef)) (c : Client) (stream : StreamId) (r : WorkerRef)
    → lookup stream entries ≡ some r
    → (((stop_workers entries c).worker r).stopped ≡ true)
unfolding stop_workers lookup
stop_workers-stopped [] c stream r e = absurd (ground arith)
stop_workers-stopped ((s, o) ∷ entries) c stream r e = elim (Bool-cases (eqb s stream)) [
  | inl same ↦
      let at : o ≡ r = ground arith in
      ((stop_workers-Advances entries (stop_worker o c) r).not_if_stopped
        (ground (arith, eqb_iff o r))).1
  | inr other ↦ stop_workers-stopped entries (stop_worker o c) stream r (ground arith)
]

stop_workers-kept :
    (entries : List (StreamId × WorkerRef)) (c : Client) (r : WorkerRef)
    → (((stop_workers entries c).worker r).queue ≡ (c.worker r).queue)
      × (((stop_workers entries c).worker r).done ≡ (c.worker r).done)
      × ((stop_workers entries c).worker_map ≡ c.worker_map)
      × ((stop_workers entries c).next ≡ c.next)
unfolding stop_workers
stop_workers-kept [] c r = (refl, refl, refl, refl)
stop_workers-kept ((s, o) ∷ entries) c r =
    let (q, d, m, n) = stop_workers-kept entries (stop_worker o c) r in
    (q ∙ ground arith, d ∙ ground arith, m, n)

-- If a stream has a worker when the connection is lost, `exec` for that stream does not report that
-- there is none; but whatever steps follow, the worker runs nothing more.
pub exec-stop_all :
    {listener : Listener} (c : Client) (stream : StreamId) (job : Job) (r : WorkerRef)
    → lookup stream c.worker_map ≡ some r
    → r < c.next
    → {e : Client} → Steps listener (exec stream job (stop_all c)).1 e
    → ((exec stream job (stop_all c)).0 ≢ absent) × ((e.worker r).done ≡ (c.worker r).done)
unfolding stop_all exec
exec-stop_all c stream job r found lt {e} steps =
    let lost : Client = stop_workers c.worker_map c in
    let (q, d, m, n) = stop_workers-kept c.worker_map c r in
    let given_one = exec-Advances stream job lost r in
    let later = Steps-Advances steps r (omega (arith, exec-next stream job lost, n, lt)) in
    let both = Advances-trans given_one later in
    let (no_run, still) =
      both.not_if_stopped (stop_workers-stopped c.worker_map c stream r found) in
    (ground (arith, m, found), both.ran_more ∙ rw no_run (append-nil (lost.worker r).done) ∙ d)
