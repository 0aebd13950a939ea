-- ===== src/Proxy/Accepting/Stopped.antt =====
-- What happens after a call of `Stop` of proxy/localserver.go.
use securetunnel.Base.{◌≡◌, ◌≢◌, ◌⊎◌, true, [], ◌∷◌, ◌++◌}
use securetunnel.Proxy.Sockets.{ConId}
use securetunnel.Proxy.Accepting.{in_accept, not_called, returned, Server, Steps}

-- `Stop` was called, and `chStop` is closed.
pub record Stopping (s : Server) : Type 0 where
  pub called : s.stopper ≢ not_called
  pub told : s.stopping ≡ true

abbrev Sound : Server → Type 0
Sound s = (s.stopper ≡ not_called) ⊎ Stopping s

-- At most the connection which the loop was waiting for on an open listener came in.
abbrev pub AtMostOne : Server → Server → Type 0
AtMostOne s t =
    (t.accepted ≡ s.accepted)
    ⊎ ((s.loop ≡ in_accept)
        × (s.listening ≡ true)
        × ((c : ConId) × (t.accepted ≡ s.accepted ++ (c ∷ []))))

-- `Stop` has returned, and no connection came in.
abbrev pub Returns : Server → Type 0
Returns s = (t : Server) × Steps s t × (t.stopper ≡ returned) × (t.accepted ≡ s.accepted)
