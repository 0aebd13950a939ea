-- ===== src/Tests/Rounds.antt =====
-- Rounds of `Run`: a connection that breaks, then an answer that the tunnel is closed.
use securetunnel.Base.{◌≡◌, refl, true, false, List, [], ◌∷◌, ◌++◌, none, some, codes, text_eqb}
use securetunnel.Client.Retry.{
  Response, connect_error, context_canceled, reading_failed, Attempt, nil, err_tunnel_closed, run,
  result_of, tunnel_closed, retryable,
}
use securetunnel.Client.Retry.Ends.{after_reading}
use securetunnel.Client.Session.{
  Session, connected, inner_error, close, checks, cancels, stops_pinging, closes_on_result,
  stops_workers, returns, breaks, Reach, starts, acts, reacts, returned, reading, sent, ended,
  waiting_pinger,
}
use securetunnel.Client.Rounds.{Start, not_connected, disconnected, Answers, run-Live}
use securetunnel.Base.{nat_eq}
use securetunnel.Base.Dict.{lookup}
use securetunnel.Proxy.Listener.{LocalProxy}
use securetunnel.Proxy.Sockets.Stopping.{IsStopped}
use securetunnel.Proxy.Running.{run_proxy, run_proxy-IsStopped}
use securetunnel.Tests.Launching.{proxy, socket_7, stored_7}
use securetunnel.Tests.Sessions.{returned_session, Reach-returned}

abbrev reading_session : Session
reading_session = record connected { reader = reading }

no_error : inner_error connected ≡ none
unfolding inner_error
no_error = refl

abbrev broken_session : Session
broken_session = record reading_session { reader = sent; result = some reading_failed }

abbrev cancelled_session : Session
cancelled_session = record broken_session { reader = ended; cancelled = true }

abbrev closed_session : Session
closed_session = record cancelled_session {
  con_closed = true;
  caller = waiting_pinger reading_failed;
  result = none;
}

cancelled_error : inner_error closed_session ≡ some context_canceled
unfolding inner_error
cancelled_error = refl

abbrev lost_session : Session
lost_session = record closed_session { pinging = false; caller = returned reading_failed }

Reach-closed : Reach closed_session
unfolding close
Reach-closed =
    acts (acts (reacts (acts starts (checks refl no_error)) (breaks refl)) (cancels refl))
      (closes_on_result reading_failed true refl refl)

Reach-lost : Reach lost_session
Reach-lost =
    acts
      (acts (acts Reach-closed (stops_pinging context_canceled refl cancelled_error))
        (stops_workers reading_failed refl refl))
      (returns reading_failed refl refl)

abbrev closing : Response
closing = record { status_code = 400; status_reason = codes "Tunnel is closed" }

abbrev rounds : List Attempt
rounds =
    record { error = reading_failed; done = false }
    ∷ record { error = connect_error (some closing); done = false }
    ∷ []

lost : Start none reading_failed
lost = disconnected lost_session reading_failed Reach-lost refl

runs_to_closed : run rounds ≡ some err_tunnel_closed
unfolding run result_of tunnel_closed retryable text_eqb
runs_to_closed = refl

run-Live_example :
    (before : List Attempt) × (a : Attempt) × (after : List Attempt) × (response : Response)
    × (rounds ≡ before ++ (a ∷ after))
    × (a.error ≡ connect_error (some response))
    × Answers response err_tunnel_closed
run-Live_example =
    run-Live rounds err_tunnel_closed
      ((lost, refl), ((not_connected none (some closing), refl), tt)) runs_to_closed

run_proxy-IsStopped_example :
    (q : LocalProxy) × (run_proxy
        (record { error = reading_failed; done = false }
          ∷ record { error = context_canceled; done = true }
          ∷ [])
        proxy
      ≡ some (nil, q))
    × (lookup 7 q.sockets.socket_map ≡ none)
    × IsStopped q.sockets socket_7.con
run_proxy-IsStopped_example =
    run_proxy-IsStopped (record { error = reading_failed; done = false } ∷ []) [] returned_session
      context_canceled context_canceled proxy 7 socket_7 (after_reading, tt) Reach-returned refl
      refl stored_7
