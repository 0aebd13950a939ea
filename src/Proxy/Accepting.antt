-- ===== src/Proxy/Accepting.antt =====
-- The accept loop of `TCPServer.Start` and `Stop`, in proxy/localserver.go, with the goroutines of the
-- handlers, in any order. What a handler does is Listener's `accept`.
pub mod Stopped
use securetunnel.Base.{ℕ, suc, ◌≡◌, ◌⊎◌, Bool, true, false, List, [], ◌∷◌, ◌++◌}
use securetunnel.Proxy.Sockets.{ConId}

-- No goroutine yet, at the top of the loop, in `Accept`, or behind the loop.
pub data Loop : Type 0 where
  absent at_top in_accept over : Loop

-- A call of `Stop`: before it, behind the close of `chStop`, behind that of the listener, and back.
pub data Stopper : Type 0 where
  not_called closing_listener waiting returned : Stopper

-- `stopping` says that `chStop` is closed, and `handlers` counts the goroutines of handlers.
pub record Server : Type 0 where
  pub started : Bool
  pub stopping : Bool
  pub listening : Bool
  pub loop : Loop
  pub handlers : ℕ
  pub accepted : List ConId
  pub stopper : Stopper

-- What `NewTCPServer` returns.
abbrev pub new_server : Server
new_server = record {
  started = false;
  stopping = false;
  listening = true;
  loop = absent;
  handlers = 0;
  accepted = [];
  stopper = not_called;
}

-- `Accept` of a closed listener fails. `Stop` waits for the loop and for all handlers.
pub data Step (s : Server) : Server → Type 0 where
  starts : s.started ≡ false → Step s (record s { started = true; loop = at_top })
  sees_stop : s.loop ≡ at_top → s.stopping ≡ true → Step s (record s { loop = over })
  goes_on : s.loop ≡ at_top → s.stopping ≡ false → Step s (record s { loop = in_accept })
  accepts :
      (c : ConId)
      → s.loop ≡ in_accept
      → s.listening ≡ true
      → Step s
          (record s { loop = at_top; handlers = suc s.handlers; accepted = s.accepted ++ (c ∷ []) })
  fails : s.loop ≡ in_accept → Step s (record s { loop = at_top })
  ends_handler : (n : ℕ) → s.handlers ≡ suc n → Step s (record s { handlers = n })
  stops : s.stopper ≡ not_called → Step s (record s { stopping = true; stopper = closing_listener })
  closes_listener :
      s.stopper ≡ closing_listener → Step s (record s { listening = false; stopper = waiting })
  stop_returns :
      s.stopper ≡ waiting
      → s.handlers ≡ 0
      → (s.loop ≡ absent) ⊎ (s.loop ≡ over)
      → Step s (record s { stopper = returned })

pub data Steps : Server → Server → Type 0 where
  stays : {s : Server} → Steps s s
  goes : {s t u : Server} → Step s t → Steps t u → Steps s u
