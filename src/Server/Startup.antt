-- ===== src/Server/Startup.antt =====
-- misc/server/cmd/mitra_tunneld/main.go up to `Run` of its engine, with the plug-ins of auth.go,
-- notify.go and store_memory.go that it starts, and `Start` of services.go. The goroutine that `Start`
-- leaves behind makes the steps `expires` of Peers.
use securetunnel.Base.{
  ℕ, ◌≡◌, refl, ap, Bool, true, false, List, [], ◌∷◌, ◌++◌, Option, none, some, Text, codes, arith,
  All, map,
}
use securetunnel.Cmd.Logger.{Logs, LoggerError, debug, setup_logger, setup_logger-on}
use securetunnel.Server.Id.{Draws, IdTokenGen}
use securetunnel.Server.Tunnel.{Tunnel}
use securetunnel.Server.Store.{MemoryStore}
use securetunnel.Server.Peers.{Manager}
use securetunnel.Server.Peers
use securetunnel.Server.World.{Services, World, status_ok}
use securetunnel.Server.Routes.{Route, routes}

-- `Authorizer`, over the type of requests: the error of `Init`, the codes of `Login` and `Logout`, and
-- the error of `HasAuth`.
pub record Authorizer (R : Type 0) : Type 0 where
  pub init : Option Text
  pub login : R → ℕ
  pub logout : R → ℕ
  pub has_auth : R → Option Text

unfoldable pub nil_authorizer : {R : Type 0} → Authorizer R
nil_authorizer = record {
  init = none;
  login = λ r. status_ok;
  logout = λ r. status_ok;
  has_auth = λ r. none;
}

pub record Notifier : Type 0 where
  pub init : Option Text
  pub notify : Tunnel → Option Text

unfoldable pub nil_notifier : Notifier
nil_notifier = record { init = none; notify = λ t. none }

-- `Init` of `MemoryStore`: its error, and the store.
unfoldable pub init_store : Option Text × MemoryStore
init_store = (none, record { tunnel_table = []; connection_table = [] })

-- The loop over the plug-ins, by the names of their types: the first that fails, with its error.
unfoldable pub init_all : List (Text × Option Text) → Option (Text × Text)
init_all [] = none
init_all ((name, error) ∷ rest) = elim error [ some e ↦ some (name, e) | none ↦ init_all rest ]

-- The variables at the top of the file.
abbrev pub config_digits : IdTokenGen
config_digits = record { tunnel_id_digit = 3; token_digit = 3; connection_id_digit = 3 }

abbrev pub need_auth : Bool
need_auth = false

abbrev pub debug_mode : Bool
debug_mode = true

abbrev pub log_level : Text
log_level = codes "debug"

-- `svc`. The draws are those of crypto/rand.
unfoldable pub services_of : Notifier → Draws → Services
services_of notifier draws = record {
  id_token_gen = config_digits;
  need_auth = need_auth;
  inter_server_network = codes "tcp";
  inter_server_address = codes "0.0.0.0:18081";
  draws = draws;
  notify = notifier.notify;
}

-- `Start` of `Services`, which has no error.
unfoldable pub start : Services → Option Text × Manager
start svc = (none, Peers.start)

-- The process exits with status 1, or its engine runs.
pub data Outcome : Type 0 where
  exit_logger : LoggerError → Outcome
  exit_plugin : Text → Text → Outcome
  exit_start : Text → Outcome
  serves : Services → World → Manager → List Route → Outcome

abbrev pub plugins : {R : Type 0} → Authorizer R → Notifier → List (Text × Option Text)
unfolding init_store
plugins authorizer notifier =
    (codes "*server.NilAuthorizer", authorizer.init)
    ∷ (codes "*server.MemoryStore", init_store.0)
    ∷ (codes "*server.NilNotifier", notifier.init)
    ∷ []

unfoldable pub start_services : Services → Outcome
unfolding init_store start
start_services svc = elim (start svc).0 [
  | some e ↦ exit_start e
  | none ↦
      serves svc (record { store = init_store.1; peers = []; draw = 0 }) (start svc).1
        (routes debug_mode)
]

-- `main`, with the plug-ins as parameters.
unfoldable pub launch :
    {R : Type 0} → (ℕ → ℕ) → Bool → Authorizer R → Notifier → Draws → Logs → Outcome
unfolding init_all services_of start_services
launch to_lower build_ok authorizer notifier draws logs =
    elim (setup_logger to_lower build_ok log_level logs).0 [
      | some e ↦ exit_logger e
      | none ↦ elim (init_all (plugins authorizer notifier)) [
        | some (name, e) ↦ exit_plugin name e
        | none ↦ start_services (services_of notifier draws)
      ]
    ]

-- The loop stops at a plug-in exactly if it fails and those before it do not.
pub init_all-first :
    (ps : List (Text × Option Text)) (name e : Text)
    → init_all ps ≡ some (name, e)
    → (before after : List (Text × Option Text)) × (ps ≡ before ++ ((name, some e) ∷ after))
      × All (λ p. p.1 ≡ none) before
unfolding init_all
init_all-first [] name e h = absurd (ground arith)
init_all-first ((n, some x) ∷ ps) name e h = ([], ps, ground arith, tt)
init_all-first ((n, none) ∷ ps) name e h =
    let (before, after, split, quiet) = init_all-first ps name e h in
    ((n, none) ∷ before, after, ap (◌∷◌ (n, none)) split, (refl, quiet))

abbrev pub first_world : World
first_world = record {
  store = record { tunnel_table = []; connection_table = [] };
  peers = [];
  draw = 0;
}

-- With the plug-ins that it has, the process serves with an empty store and no connection, whatever
-- the draws are, if the logger can be built and lower case leaves the name of the level alone.
pub launch-nil :
    (R : Type 0) (to_lower : ℕ → ℕ) (draws : Draws) (logs : Logs)
    → map to_lower log_level ≡ log_level
    → launch to_lower true (nil_authorizer {R = R}) nil_notifier draws logs
      ≡ serves (services_of nil_notifier draws) first_world Peers.start (routes true)
unfolding launch nil_authorizer nil_notifier
launch-nil R to_lower draws logs same =
    rw ((setup_logger-on to_lower log_level debug debug logs same).0, launch) refl
