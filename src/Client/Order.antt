-- ===== src/Client/Order.antt =====
-- The order in which a worker runs its functions.
use native.Mathlib.Omega.{arith}
use securetunnel.Base.{
  ◌<◌, ◌≡◌, refl, sym, ◌∙◌, inl, inr, Bool, true, false, List, [], ◌∷◌, ◌++◌, append-nil,
  append_assoc, Text, eqb, eqb_iff, ltb, length, Option-cases, Bool-cases, nat_eq,
}
use securetunnel.Base.Dict.{lookup}
use securetunnel.Aws.{StreamId, Message}
use securetunnel.Client.{
  Job, data_job, reset_job, WorkerRef, Worker, Client, Listener, start, exec, exec_on, stop,
  stop_worker, stop_workers, send_message, send_stream_start, send_stream_reset, run_job, run_next,
  channel_buf_size, reset_unless, take_job, Outgoing,
}

-- What a worker was given, the oldest first.
abbrev pub given : Worker → List Job
given w = w.done ++ w.queue

-- How a step may change a worker: it is given functions behind those that it has, and runs a
-- function only if it is not stopped, and then the next one.
pub record Advances (w w' : Worker) : Type 0 where
  pub new : List Job
  pub ran : List Job
  pub given_more : given w' ≡ given w ++ new
  pub ran_more : w'.done ≡ w.done ++ ran
  pub not_if_stopped : w.stopped ≡ true → (ran ≡ []) × (w'.stopped ≡ true)

pub Advances-refl : (w : Worker) → Advances w w
Advances-refl w = record {
  new = [];
  ran = [];
  given_more = sym (append-nil (given w));
  ran_more = sym (append-nil w.done);
  not_if_stopped = λ e. (refl, e);
}

Advances-stopped :
    (w w' : Worker)
    → w'.queue ≡ w.queue
    → w'.done ≡ w.done
    → (w.stopped ≡ true → w'.stopped ≡ true)
    → Advances w w'
Advances-stopped w w' q d s = record {
  new = [];
  ran = [];
  given_more = rw (q, d) (sym (append-nil (given w)));
  ran_more = d ∙ sym (append-nil w.done);
  not_if_stopped = λ e. (refl, s e);
}

Advances-given :
    (w w' : Worker) (job : Job)
    → w'.queue ≡ w.queue ++ (job ∷ [])
    → w'.done ≡ w.done
    → (w.stopped ≡ true → w'.stopped ≡ true)
    → Advances w w'
Advances-given w w' job q d s = record {
  new = job ∷ [];
  ran = [];
  given_more = rw (q, d) (sym (append_assoc w.done w.queue (job ∷ [])));
  ran_more = d ∙ sym (append-nil w.done);
  not_if_stopped = λ e. (refl, s e);
}

Advances-ran :
    (w w' : Worker) (job : Job)
    → w.stopped ≡ false
    → w.queue ≡ job ∷ w'.queue
    → w'.done ≡ w.done ++ (job ∷ [])
    → Advances w w'
Advances-ran w w' job running q d = record {
  new = [];
  ran = job ∷ [];
  given_more =
      rw (q, d)
        (append_assoc w.done (job ∷ []) w'.queue ∙ sym (append-nil (w.done ++ (job ∷ w'.queue))));
  ran_more = d;
  not_if_stopped = λ e. absurd (ground (arith, e, running));
}

exec_on-Advances :
    (o : WorkerRef) (job : Job) (c : Client) (r : WorkerRef)
    → Advances (c.worker r) ((exec_on o job c).1.worker r)
exec_on-Advances o job c r = elim (Bool-cases (ltb (length (c.worker o).queue) channel_buf_size)) [
  | inr full ↦ rw full (Advances-refl (c.worker r))
  | inl room ↦ elim (Bool-cases (eqb o r)) [
    | inr other ↦ rw (room, other) (Advances-refl (c.worker r))
    | inl same ↦
        Advances-given (c.worker r) _ job (ground (arith, same, room)) (ground (arith, same, room))
          (ground (arith, same, room))
  ]
]

pub exec-Advances :
    (stream : StreamId) (job : Job) (c : Client) (r : WorkerRef)
    → Advances (c.worker r) ((exec stream job c).1.worker r)
unfolding exec
exec-Advances stream job c r = elim (Option-cases (lookup stream c.worker_map)) [
  | inl e ↦ rw (e, exec) (Advances-refl (c.worker r))
  | inr (o, e) ↦ rw (e, exec) (exec_on-Advances o job c r)
]

pub stop_worker-Advances :
    (o : WorkerRef) (c : Client) (r : WorkerRef)
    → Advances (c.worker r) ((stop_worker o c).worker r)
stop_worker-Advances o c r =
    Advances-stopped (c.worker r) _ (ground arith) (ground arith) (ground arith)

pub Advances-trans : {u v w : Worker} → Advances u v → Advances v w → Advances u w
Advances-trans {u} {v} {w} a b = record {
  new = a.new ++ b.new;
  ran = a.ran ++ b.ran;
  given_more = b.given_more ∙ rw (a.given_more) (append_assoc (given u) a.new b.new);
  ran_more = b.ran_more ∙ rw (a.ran_more) (append_assoc u.done a.ran b.ran);
  not_if_stopped = λ e.
      let (none_ran, still) = a.not_if_stopped e in
      let (none_after, end) = b.not_if_stopped still in (rw (none_ran, none_after) refl, end);
}

pub stop_workers-Advances :
    (entries : List (StreamId × WorkerRef)) (c : Client) (r : WorkerRef)
    → Advances (c.worker r) ((stop_workers entries c).worker r)
unfolding stop_workers
stop_workers-Advances [] c r = Advances-refl (c.worker r)
stop_workers-Advances ((stream, o) ∷ entries) c r =
    Advances-trans (stop_worker-Advances o c r) (stop_workers-Advances entries (stop_worker o c) r)

pub start-worker :
    (stream : StreamId) (c : Client) (r : WorkerRef)
    → r < c.next
    → (start stream c).worker r ≡ c.worker r
unfolding start
start-worker stream c r h = ground (arith, eqb_iff c.next r)

pub send_message-worker :
    (send_ok : Bool) (o : Outgoing) (c : Client) → (send_message send_ok o c).1.worker ≡ c.worker
unfolding send_message
send_message-worker true o c = refl
send_message-worker false o c = refl

pub send_stream_start-worker :
    (send_ok : Bool) (stream : StreamId) (service : Text) (c : Client) (r : WorkerRef)
    → r < c.next
    → (send_stream_start send_ok stream service c).1.worker r ≡ c.worker r
unfolding send_stream_start stop send_message
send_stream_start-worker true stream service c r h = start-worker stream c r h
send_stream_start-worker false stream service c r h = start-worker stream c r h

pub reset_unless-worker :
    (b send_ok : Bool) (message : Message) (c : Client)
    → (reset_unless b send_ok message c).worker ≡ c.worker
unfolding send_stream_reset stop
reset_unless-worker true send_ok message c = refl
reset_unless-worker false send_ok message c = send_message-worker send_ok _ _

pub run_job-worker :
    (listener : Listener) (send_ok : Bool) (job : Job) (c : Client)
    → (run_job listener send_ok job c).worker ≡ c.worker
unfolding run_job stop
run_job-worker listener send_ok (data_job message) c =
    reset_unless-worker (listener.data_ok message) send_ok message _
run_job-worker listener send_ok (reset_job message) c = refl

take_job-Advances :
    (listener : Listener) (send_ok : Bool) (o : WorkerRef) (q : List Job) (c : Client)
    (r : WorkerRef)
    → (c.worker o).stopped ≡ false
    → (c.worker o).queue ≡ q
    → Advances (c.worker r) ((take_job listener send_ok o q c).worker r)
take_job-Advances listener send_ok o [] c r running e = Advances-refl (c.worker r)
take_job-Advances listener send_ok o (job ∷ rest) c r running e =
    rw (run_job-worker listener send_ok job _) (elim (Bool-cases (eqb o r)) [
      | inr other ↦ rw other (Advances-refl (c.worker r))
      | inl same ↦
          let at : o ≡ r = (eqb_iff o r).0 same in
          rw (same, ← at) (Advances-ran (c.worker o) _ job running e refl)
    ])

pub run_next-Advances :
    (listener : Listener) (send_ok : Bool) (o : WorkerRef) (c : Client) (r : WorkerRef)
    → Advances (c.worker r) ((run_next listener send_ok o c).worker r)
unfolding run_next
run_next-Advances listener send_ok o c r = elim (Bool-cases (c.worker o).stopped) [
  | inl e ↦ rw e (Advances-refl (c.worker r))
  | inr e ↦ rw e (take_job-Advances listener send_ok o (c.worker o).queue c r e refl)
]
