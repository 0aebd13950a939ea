-- ===== src/Tests/Clients.antt =====
-- Workers and reconnecting of client.
use native.Mathlib.Omega.{arith}
use securetunnel.Base.{
  ◌<◌, ◌≡◌, ◌≢◌, refl, inr, true, false, List, [], ◌∷◌, ◌++◌, some, text_eqb, codes, All, nat_eq,
}
use securetunnel.Base.Dict.{lookup}
use securetunnel.Aws.{Message, message_data}
use securetunnel.Aws.Const.{status_reason_tunnel_closed}
use securetunnel.Client.{
  data_job, Client, Listener, absent, exec, stop_all, stop_workers, read_message, run_next, Step,
  reads, runs, loses_connection,
}
use securetunnel.Client.Order.{Advances}
use securetunnel.Client.Delivery.{
  Step-Advances, Steps, stays, then_step, Steps-Advances, exec-stop_all,
}
use securetunnel.Client.Retry.{
  Response, connect_error, reading_failed, Attempt, err_tunnel_closed, result_of, tunnel_closed,
  retryable, run,
}
use securetunnel.Client.Retry.Ends.{
  Retried, after_connecting, after_reading, Ends, says_closed, run-Ends, Ends-run,
}

abbrev listener : Listener
listener = record { start_ok = λ m. true; data_ok = λ m. true }

abbrev data_message : Message
data_message = record {
  type = message_data;
  stream_id = 7;
  ignorable = false;
  payload = 1 ∷ [];
  service_id = codes "ssh";
  available_service_ids = [];
}

-- One stream, with one function in its channel.
abbrev client : Client
client = record {
  worker_map = (7, 0) ∷ [];
  worker = λ r. record { queue = data_job data_message ∷ []; done = []; stopped = false };
  next = 1;
  stopping = [];
  events = [];
  sent = [];
}

abbrev after_run : Client
after_run = run_next listener true 0 client

one_run : Step listener client after_run
one_run = runs true 0 (omega arith)

Step-Advances_example : Advances (client.worker 0) (after_run.worker 0)
Step-Advances_example = Step-Advances one_run 0 (omega arith)

abbrev after_read : Client
after_read = (read_message listener true data_message client).1

read_then_lost : Steps listener client (stop_all after_read)
read_then_lost = then_step (then_step stays (reads true data_message)) loses_connection

Steps-Advances_example : Advances (client.worker 0) ((stop_all after_read).worker 0)
Steps-Advances_example = Steps-Advances read_then_lost 0 (omega arith)

stored_worker : lookup 7 client.worker_map ≡ some 0
unfolding lookup
stored_worker = refl

abbrev after_exec : Client
after_exec = (exec 7 (data_job data_message) (stop_all client)).1

next_exec : 0 < after_exec.next
unfolding exec stop_all stop_workers lookup
next_exec = omega arith

one_more : Steps listener after_exec (run_next listener true 0 after_exec)
one_more = then_step stays (runs true 0 next_exec)

exec-stop_all_example :
    ((exec 7 (data_job data_message) (stop_all client)).0 ≢ absent)
    × (((run_next listener true 0 after_exec).worker 0).done ≡ [])
exec-stop_all_example =
    exec-stop_all client 7 (data_job data_message) 0 stored_worker (omega arith) one_more

-- The server is down, then reading fails, and then the tunnel is closed.
abbrev unavailable : Response
unavailable = record { status_code = 503; status_reason = codes "" }

abbrev closing : Response
closing = record { status_code = 400; status_reason = status_reason_tunnel_closed }

abbrev down : Attempt
down = record { error = connect_error (some unavailable); done = false }

abbrev broken : Attempt
broken = record { error = reading_failed; done = false }

abbrev closed : Attempt
closed = record { error = connect_error (some closing); done = false }

no_closing : codes "" ≢ status_reason_tunnel_closed
no_closing e = absurd (ground arith)

both-Retried : All Retried (down ∷ broken ∷ [])
both-Retried =
    (after_connecting (some unavailable) (no_closing, inr (omega arith)), (after_reading, tt))

run-Ends_example : run (down ∷ broken ∷ closed ∷ []) ≡ some err_tunnel_closed
run-Ends_example =
    run-Ends (down ∷ broken ∷ []) [] closed err_tunnel_closed both-Retried
      (says_closed closing false refl)

run_closed : run (down ∷ broken ∷ closed ∷ []) ≡ some err_tunnel_closed
unfolding run result_of tunnel_closed retryable text_eqb
run_closed = refl

Ends-run_example :
    (before : List Attempt) × (a : Attempt) × (after : List Attempt) × (down ∷ broken ∷ closed ∷ []
      ≡ before ++ (a ∷ after))
    × All Retried before
    × Ends a err_tunnel_closed
Ends-run_example = Ends-run (down ∷ broken ∷ closed ∷ []) err_tunnel_closed run_closed
