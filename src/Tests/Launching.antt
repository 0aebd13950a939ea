-- ===== src/Tests/Launching.antt =====
-- A localproxy that is made, and its client together with its listener.
use securetunnel.Base.{
  ◌≡◌, refl, true, false, not, [], ◌∷◌, none, some, Text, text_eq, nat_eq, codes, ◌==◌,
}
use securetunnel.Base.Dict.{lookup}
use securetunnel.Aws.{source, Message, message_data, stream_reset}
use securetunnel.Client.{data_job, Client}
use securetunnel.Proxy.Config.{ServiceConfig}
use securetunnel.Proxy.Sockets.{LocalSocket}
use securetunnel.Proxy.Listener.{LocalProxyOptions, LocalProxy}
use securetunnel.Proxy.Launch.{Os, Allows, new_local_proxy}
use securetunnel.Proxy.Launch.Opened.{Launched, new_local_proxy-Launched}
use securetunnel.Proxy.Bridge.{Net, System}
use securetunnel.Proxy.Bridge.Delivered.{run_worker_rounds, Delivered, run_worker_rounds-Delivered}
use securetunnel.Proxy.Bridge.Left.{ended_locally, fail_local-left}
use securetunnel.Proxy.Accepting.{Server, new_server, at_top, in_accept, closing_listener, waiting}

abbrev config_at : Text → Text → ServiceConfig
config_at id address = record { service_id = id; network = codes "tcp"; address = address }

-- Two services, and the second address is in use.
abbrev options : LocalProxyOptions
options = record {
  mode = source;
  service_configs = config_at (codes "a") (codes "h:1") ∷ config_at (codes "b") (codes "h:2") ∷ [];
  endpoint_scheme = some (codes "wss");
  token = codes "t";
  insecure_skip_verify = some false;
  endpoint_dial_timeout = 1;
  local_dial_timeout = 1;
  endpoint_reconnect_interval = 1;
  ping_interval = 1;
}

abbrev allows : Allows
allows = record {
  remove_ok = λ file. true;
  listen_ok = λ network address os. not (address == codes "h:2");
}

abbrev os : Os
os = record { files = []; listening = [] }

new_local_proxy-Launched_example : Launched options os (new_local_proxy allows options os)
new_local_proxy-Launched_example = new_local_proxy-Launched allows options os refl

abbrev pub socket_7 : LocalSocket
socket_7 = record { stream_id = 7; service_id = codes "a"; con = 0 }

abbrev pub proxy : LocalProxy
proxy = record {
  mode = source;
  sockets = record {
    socket_map = (7, socket_7) ∷ [];
    con = λ c. record { closed = false; reading = true; received = [] };
    sent = [];
  };
  service_map = [];
  server_map = [];
  id_counter = 0;
}

abbrev message_1 : Message
message_1 = record {
  type = message_data;
  stream_id = 7;
  ignorable = false;
  payload = 1 ∷ 2 ∷ [];
  service_id = codes "a";
  available_service_ids = [];
}

abbrev message_2 : Message
message_2 = record message_1 { payload = 3 ∷ [] }

abbrev client : Client
client = record {
  worker_map = (7, 0) ∷ [];
  worker = λ r. record {
    queue = data_job message_1 ∷ data_job message_2 ∷ [];
    done = [];
    stopped = false;
  };
  next = 1;
  stopping = [];
  events = [];
  sent = [];
}

abbrev net : Net
net = record { dial = λ config. none; write_ok = true; send_ok = true }

abbrev system : System
system = record { client = client; proxy = proxy }

pub stored_7 : lookup 7 proxy.sockets.socket_map ≡ some socket_7
unfolding lookup
stored_7 = refl

run_worker_rounds-Delivered_example :
    Delivered 0 socket_7
      ((1 ∷ 2 ∷ []) ∷ (3 ∷ []) ∷ [])
      system
      (run_worker_rounds 0 (net ∷ net ∷ []) system)
run_worker_rounds-Delivered_example =
    run_worker_rounds-Delivered 7 socket_7 0 (message_1 ∷ message_2 ∷ []) (net ∷ net ∷ []) system
      (refl, (refl, tt)) (refl, (refl, tt)) refl refl refl
      (record { stored = stored_7; unclosed = refl })

abbrev reset_7 : Message
reset_7 = record message_1 { type = stream_reset }

fail_local-left_example :
    (lookup 7 (ended_locally net net socket_7 reset_7 [] [] system).proxy.sockets.socket_map
      ≡ some socket_7)
    × (((ended_locally net net socket_7 reset_7 [] [] system).proxy.sockets.con 0).closed ≡ true)
fail_local-left_example = fail_local-left net net socket_7 reset_7 [] [] system stored_7 refl refl

-- A server in `Accept` with one connection, and a call of `Stop`.
abbrev accepting : Server
accepting = record new_server { started = true; loop = in_accept; handlers = 1; accepted = 5 ∷ [] }

abbrev stopping : Server
stopping = record accepting { stopping = true; stopper = closing_listener }

-- One connection is accepted before the listener is closed.
abbrev late_comer : Server
late_comer = record stopping {
  loop = at_top;
  handlers = 2;
  accepted = 5 ∷ 6 ∷ [];
  listening = false;
  stopper = waiting;
}
