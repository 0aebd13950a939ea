-- ===== src/Server/Service.antt =====
-- The handlers of misc/server over one store, for requests that come in any order. `TunnelConnect` is
-- three steps, between which other requests run: the checks, the registration with the tunnel as it
-- was read, and the deferred function at the end of the connection. `CloseTunnel` is two: it reads the
-- tunnel, and then updates it, or deletes it directly behind that.
pub mod Contract
pub mod WellFormed
pub mod Handlers
pub mod Connecting
pub mod Safety
pub mod Listing
use securetunnel.Base.{
  ℕ, zero, suc, Bool, true, false, some, ◌≡◌, List, [], ◌∷◌, ◌++◌, Option, none, Text,
}
use securetunnel.Server.Tunnel.{Tunnel, PeerRef, Time}
use securetunnel.Server.Store.{get_tunnel}
use securetunnel.Server.World.{Services, World, Reply, go, refuse, panic, ◌>>◌}
use securetunnel.Server.Api.Open.{
  OpenTunnelRequest, CloseTunnelRequest, open_tunnel, close_found, close_tunnel, describe_tunnel,
}
use securetunnel.Server.Api.Connect.{
  TunnelConnectArgs, validate, preprocess, check, register, on_disconnect,
}

-- A request whose checks passed, with the tunnel that it read and its peer.
pub record Pending : Type 0 where
  pub args : TunnelConnectArgs
  pub tunnel : Tunnel
  pub peer_ref : PeerRef

-- A call of `CloseTunnel` with the tunnel that it read.
pub record Closing : Type 0 where
  pub args : CloseTunnelRequest
  pub tunnel : Tunnel

-- `closing` are the calls of `CloseTunnel` that have read a tunnel. `connected` are the connections whose deferred function has not run.
pub record State : Type 0 where
  pub world : World
  pub pending : List Pending
  pub closing : List Closing
  pub connected : List Text

-- What the registration of a request leaves.
abbrev pub registered : List Closing → List Pending → List Text → Reply Text × World → State
registered closing rest ids (go id, w) = record {
  world = w;
  pending = rest;
  closing = closing;
  connected = id ∷ ids;
}
registered closing rest ids (refuse code why, w) = record {
  world = w;
  pending = rest;
  closing = closing;
  connected = ids;
}
registered closing rest ids (panic, w) = record {
  world = w;
  pending = rest;
  closing = closing;
  connected = ids;
}

pub data Step (svc : Services) (s : State) : State → Type 0 where
  opens :
      (args : OpenTunnelRequest) (now : Time)
      → Step svc s (record s { world = (open_tunnel svc args now s.world).1 })
  reads_to_close :
      (args : CloseTunnelRequest) (t : Tunnel)
      → get_tunnel args.tunnel_id s.world.store ≡ some t
      → Step svc s (record s { closing = s.closing ++ (record { args = args; tunnel = t } ∷ []) })
  closes :
      (before after : List Closing) (c : Closing) (now : Time)
      → s.closing ≡ before ++ (c ∷ after)
      → Step svc s (record s {
        world = (close_found c.tunnel c.args now s.world).1;
        closing = before ++ after;
      })
  checks :
      (args : TunnelConnectArgs) (now : Time) (t : Tunnel) (ref : PeerRef) (w : World)
      → validate args ≡ none
      → check args now s.world ≡ (go (t, ref), w)
      → Step svc s (record s {
        world = w;
        pending = s.pending ++ (record { args = args; tunnel = t; peer_ref = ref } ∷ []);
      })
  registers :
      (before after : List Pending) (p : Pending) (now : Time)
      → s.pending ≡ before ++ (p ∷ after)
      → Step svc s (
          registered s.closing
            (before ++ after)
            s.connected
            (register svc p.args now p.tunnel p.peer_ref s.world))
  disconnects :
      (before after : List Text) (id : Text) (now : Time)
      → s.connected ≡ before ++ (id ∷ after)
      → Step svc s (record s { world = on_disconnect id now s.world; connected = before ++ after })

-- A store that `Init` has just made.
abbrev pub start : State
start = record {
  world = record {
    store = record { tunnel_table = []; connection_table = [] };
    peers = [];
    draw = 0;
  };
  pending = [];
  closing = [];
  connected = [];
}

pub data Reach (svc : Services) : State → Type 0 where
  starts : Reach svc start
  later : {s t : State} → Reach svc s → Step svc s t → Reach svc t

-- A request, or the registration of the pending request at a place.
pub data Request : Type 0 where
  open_request : OpenTunnelRequest → Request
  close_request : CloseTunnelRequest → Request
  describe_request : Text → Request
  connect_request : TunnelConnectArgs → Request
  register_request : ℕ → Request

abbrev pub is_panic : {A : Type 0} → Reply A → Bool
is_panic (go a) = false
is_panic (refuse code why) = false
is_panic panic = true

abbrev pub pending_at : ℕ → List Pending → Option Pending
pending_at n [] = none
pending_at zero (p ∷ ps) = some p
pending_at (suc n) (p ∷ ps) = pending_at n ps

-- Whether a handler dereferences a nil pointer. `PreProcess` validates the request for a connection.
unfoldable pub panics : Services → Request → Time → State → Bool
panics svc (open_request args) now s = is_panic (open_tunnel svc args now s.world).0
panics svc (close_request args) now s = is_panic (close_tunnel args now s.world).0
panics svc (describe_request id) now s = is_panic (describe_tunnel id now s.world).0
panics svc (connect_request args) now s = is_panic ((preprocess args >> check args now) s.world).0
panics svc (register_request n) now s = elim (pending_at n s.pending) [
  | none ↦ false
  | some p ↦ is_panic (register svc p.args now p.tunnel p.peer_ref s.world).0
]
