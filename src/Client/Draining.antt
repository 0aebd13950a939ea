-- ===== src/Client/Draining.antt =====
-- The loop of `Worker.Start` with nothing else in between: how far it gets, and what it calls.
use securetunnel.Base.{
  ◌≡◌, refl, sym, ap, ◌∙◌, Bool, true, false, List, [], ◌∷◌, ◌++◌, append-nil, append_assoc, map,
  length, eqb_iff, nat_eq, arith,
}
use securetunnel.Aws.{Message}
use securetunnel.Client.{
  Job, data_job, reset_job, WorkerRef, Client, Listener, Event, on_data, on_stream_reset, run_next,
  run_job, reset_unless, send_stream_reset, send_message, stop, Outgoing,
}
use securetunnel.Client.Order.{run_job-worker, given}

-- As many rounds as answers of the network to the resets that they may send.
unfoldable pub run_rounds : Listener → WorkerRef → List Bool → Client → Client
run_rounds listener r [] c = c
run_rounds listener r (send_ok ∷ rest) c =
    run_rounds listener r rest (run_next listener send_ok r c)

-- The call of the listener that a function makes.
abbrev pub call_of : Job → Event
call_of (data_job message) = on_data message
call_of (reset_job message) = on_stream_reset message

send_message-events :
    (send_ok : Bool) (o : Outgoing) (c : Client) → (send_message send_ok o c).1.events ≡ c.events
unfolding send_message
send_message-events true o c = refl
send_message-events false o c = refl

reset_unless-events :
    (b send_ok : Bool) (message : Message) (c : Client)
    → (reset_unless b send_ok message c).events ≡ c.events
unfolding send_stream_reset stop
reset_unless-events true send_ok message c = refl
reset_unless-events false send_ok message c = send_message-events send_ok _ _

run_job-events :
    (listener : Listener) (send_ok : Bool) (job : Job) (c : Client)
    → (run_job listener send_ok job c).events ≡ c.events ++ (call_of job ∷ [])
unfolding run_job stop
run_job-events listener send_ok (data_job message) c =
    reset_unless-events (listener.data_ok message) send_ok message _
run_job-events listener send_ok (reset_job message) c = refl

-- A worker with nothing left, and the calls made.
pub record Drained (r : WorkerRef) (c d : Client) : Type 0 where
  pub queue_empty : (d.worker r).queue ≡ []
  pub ran_all : (d.worker r).done ≡ given (c.worker r)
  pub running : (d.worker r).stopped ≡ false
  pub calls : d.events ≡ c.events ++ map call_of (c.worker r).queue

-- One round of a worker that runs and has something to do.
module _ (listener : Listener) (send_ok : Bool) (r : WorkerRef) (job : Job) (queue : List Job)
    (c : Client) (running : (c.worker r).stopped ≡ false)
    (e : (c.worker r).queue ≡ job ∷ queue) where
  pub run_next-worker :
      (run_next listener send_ok r c).worker r
      ≡ record (c.worker r) { queue = queue; done = (c.worker r).done ++ (job ∷ []) }
  unfolding run_next
  run_next-worker =
      rw (running, run_next, e, run_job-worker listener send_ok job) (ground (arith, eqb_iff r r))

  pub run_next-events : (run_next listener send_ok r c).events ≡ c.events ++ (call_of job ∷ [])
  unfolding run_next
  run_next-events = rw (running, run_next, e) (run_job-events listener send_ok job _)

Drained-next :
    (r : WorkerRef) (job : Job) (queue : List Job) (c d f : Client)
    → (c.worker r).queue ≡ job ∷ queue
    → d.worker r ≡ record (c.worker r) { queue = queue; done = (c.worker r).done ++ (job ∷ []) }
    → d.events ≡ c.events ++ (call_of job ∷ [])
    → Drained r d f
    → Drained r c f
Drained-next r job queue c d f e w h rest = record {
  queue_empty = rest.queue_empty;
  ran_all = rest.ran_all ∙ rw (w, e) (append_assoc (c.worker r).done (job ∷ []) queue);
  running = rest.running;
  calls = rest.calls ∙ rw (w, e, h) (append_assoc c.events (call_of job ∷ []) (map call_of queue));
}

Drained-from :
    (listener : Listener) (r : WorkerRef) (oks : List Bool) (queue : List Job) (c : Client)
    → (c.worker r).queue ≡ queue
    → (c.worker r).stopped ≡ false
    → length oks ≡ length queue
    → Drained r c (run_rounds listener r oks c)
unfolding run_rounds
Drained-from listener r [] [] c e running n = record {
  queue_empty = e;
  ran_all = rw e (sym (append-nil (c.worker r).done));
  running = running;
  calls = rw e (sym (append-nil c.events));
}
Drained-from listener r [] (job ∷ queue) c e running n = absurd (omega arith)
Drained-from listener r (ok ∷ oks) [] c e running n = absurd (omega arith)
Drained-from listener r (ok ∷ oks) (job ∷ queue) c e running n =
    let d = run_next listener ok r c in
    let w = run_next-worker listener ok r job queue c running e in
    Drained-next r job queue c d _ e w (run_next-events listener ok r job queue c running e) (
      Drained-from listener r oks queue d (ap (λ x. x.queue) w) (ap (λ x. x.stopped) w ∙ running)
        (omega arith))

-- A worker that is not stopped, left to itself for as many rounds as it has functions, has run them
-- all, is still running, and has made the calls of the listener that they stand for, in their
-- order.
pub run_rounds-Drained :
    (listener : Listener) (r : WorkerRef) (oks : List Bool) (c : Client)
    → (c.worker r).stopped ≡ false
    → length oks ≡ length (c.worker r).queue
    → Drained r c (run_rounds listener r oks c)
run_rounds-Drained listener r oks c running n =
    Drained-from listener r oks (c.worker r).queue c refl running n
