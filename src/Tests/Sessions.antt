-- ===== src/Tests/Sessions.antt =====
-- A worker's loop, and one connection of client, from its start to its end.
use securetunnel.Base.{
  ◌≤◌, ◌≡◌, refl, inl, inr, ◌≢◌, arith, true, false, [], ◌∷◌, none, some, codes,
}
use securetunnel.Aws.{Message, message_data, stream_reset}
use securetunnel.Client.{data_job, reset_job, Client, Listener}
use securetunnel.Client.Draining.{run_rounds, Drained, run_rounds-Drained}
use securetunnel.Client.Retry.{context_canceled, reading_failed}
use securetunnel.Client.Session.{
  Session, connected, reading, blocked, sent, waiting_reader, waiting_pinger, stopping_workers,
  returned, close, inner_error, Local, Reach, starts, acts, reacts, checks, fails, stops_pinging,
  closes_on_context, takes_result, stops_workers, returns, finishes_context, Locals, stays, goes,
  Runs, rests, runs,
}
use securetunnel.Client.Session.Invariant.{HasCause, IsDone}
use securetunnel.Client.Session.Returning.{session_returns, IsReturned, returned_after}
use securetunnel.Client.Session.Hanging.{close-Hangs, Hangs}

abbrev listener : Listener
listener = record { start_ok = λ m. true; data_ok = λ m. false }

abbrev data_message : Message
data_message = record {
  type = message_data;
  stream_id = 7;
  ignorable = false;
  payload = 1 ∷ [];
  service_id = codes "ssh";
  available_service_ids = [];
}

-- Data and then a reset.
abbrev client : Client
client = record {
  worker_map = (7, 0) ∷ [];
  worker = λ r. record {
    queue = data_job data_message ∷ reset_job (record data_message { type = stream_reset }) ∷ [];
    done = [];
    stopped = false;
  };
  next = 1;
  stopping = [];
  events = [];
  sent = [];
}

run_rounds-Drained_example : Drained 0 client (run_rounds listener 0 (true ∷ false ∷ []) client)
run_rounds-Drained_example = run_rounds-Drained listener 0 (true ∷ false ∷ []) client refl refl

-- The reader is in `Next` when the caller's context is done.
abbrev at_read : Session
at_read = record connected { reader = reading }

no_error : inner_error connected ≡ none
unfolding inner_error
no_error = refl

abbrev cancelled_session : Session
cancelled_session = record at_read { context_error = some context_canceled }

Reach-cancelled : Reach cancelled_session
Reach-cancelled =
    reacts (acts starts (checks refl no_error)) (finishes_context context_canceled (inl refl) refl)

abbrev closed_session : Session
closed_session = record cancelled_session { con_closed = true; caller = waiting_reader }

step_closed : Local cancelled_session closed_session
unfolding close
step_closed = closes_on_context context_canceled true refl refl

Reach-closed : Reach closed_session
Reach-closed = acts Reach-cancelled step_closed

abbrev failed_session : Session
failed_session = record closed_session { reader = sent; result = some reading_failed }

one_run : Runs 1 closed_session failed_session
one_run = runs (fails refl refl refl) rests

unblocked : reading ≢ blocked
unblocked e = absurd (ground arith)

session_returns_example : (1 ≤ 9) × ((u : Session) × Locals failed_session u × IsReturned u)
session_returns_example =
    session_returns closed_session failed_session 1 Reach-closed (refl, unblocked, refl) one_run

has_error : inner_error failed_session ≡ some context_canceled
unfolding inner_error
has_error = refl

abbrev quiet_session : Session
quiet_session = record failed_session { pinging = false }

abbrev taken_session : Session
taken_session = record quiet_session { caller = waiting_pinger context_canceled; result = none }

abbrev stopping_session : Session
stopping_session = record taken_session { caller = stopping_workers context_canceled }

abbrev pub returned_session : Session
returned_session = record taken_session { caller = returned context_canceled }

pub Reach-returned : Reach returned_session
Reach-returned =
    acts
      (acts
        (acts
          (acts (acts Reach-closed (fails refl refl refl))
            (stops_pinging context_canceled refl has_error))
          (takes_result context_canceled reading_failed refl refl refl))
        (stops_workers context_canceled refl refl))
      (returns context_canceled refl refl)

returned_after_example :
    IsDone sent × HasCause returned_session context_canceled × (returned_session.pinging ≡ false)
returned_after_example = returned_after returned_session context_canceled Reach-returned refl

-- The close frame cannot be written.
abbrev hanging_session : Session
hanging_session = record (close false cancelled_session) { caller = waiting_reader }

hanging_error : inner_error hanging_session ≡ some context_canceled
unfolding inner_error close
hanging_error = refl

abbrev quiet_hanging : Session
quiet_hanging = record hanging_session { pinging = false }

hanging_run : Locals hanging_session quiet_hanging
unfolding close
hanging_run = goes (stops_pinging context_canceled refl hanging_error) stays

close-Hangs_example : Hangs quiet_hanging
close-Hangs_example =
    close-Hangs cancelled_session quiet_hanging context_canceled false Reach-cancelled refl refl
      (inr (refl, refl, refl)) hanging_run
