-- ===== src/Proxy/Running.antt =====
-- `Run` of proxy/localproxy.go, over the rounds of the client's `Run`.
use securetunnel.Base.{◌≡◌, refl, true, List, ◌∷◌, ◌++◌, Option, none, some, nat_eq, All}
use securetunnel.Base.Dict.{lookup}
use securetunnel.Aws.{StreamId}
use securetunnel.Client.Retry.{StartError, Attempt, RunResult, nil, run}
use securetunnel.Client.Retry.Ends.{Retried}
use securetunnel.Client.Session.{Session, Reach, returned}
use securetunnel.Client.Rounds.{run-done}
use securetunnel.Proxy.Sockets.{LocalSocket, stop_all}
use securetunnel.Proxy.Sockets.Stopping.{IsStopped, stop_all-empty, stop_all-IsStopped}
use securetunnel.Proxy.Listener.{LocalProxy}

-- `p` is the proxy when the client's `Run` has returned; `none` is still running.
unfoldable pub run_proxy : List Attempt → LocalProxy → Option (RunResult × LocalProxy)
run_proxy attempts p = elim (run attempts) [
  | none ↦ none
  | some result ↦ some (result, record p { sockets = stop_all p.sockets })
]

-- If every round of the client up to one is retried, and `start` returns from a connection of that
-- one while the caller's context is done, then `Run` of the proxy returns without an error, and a
-- local connection that stood in the map of sockets is closed, no longer read, and out of the map.
pub run_proxy-IsStopped :
    (before after : List Attempt) (s : Session) (x e : StartError) (p : LocalProxy)
    (stream : StreamId) (socket : LocalSocket)
    → All Retried before
    → Reach s
    → s.caller ≡ returned e
    → s.context_error ≡ some x
    → lookup stream p.sockets.socket_map ≡ some socket
    → (q : LocalProxy) × (run_proxy (before ++ (record { error = e; done = true } ∷ after)) p
        ≡ some (nil, q))
      × (lookup stream q.sockets.socket_map ≡ none)
      × IsStopped q.sockets socket.con
unfolding run_proxy
run_proxy-IsStopped before after s x e p stream socket retried reach at context stored = (
  record p { sockets = stop_all p.sockets },
  rw (run-done before after s x e retried reach at context, run_proxy) refl,
  stop_all-empty p.sockets stream,
  stop_all-IsStopped p.sockets stream socket stored,
)
