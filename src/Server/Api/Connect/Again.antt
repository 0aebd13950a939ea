-- ===== src/Server/Api/Connect/Again.antt =====
-- Who is let in behind a client that was let in.
use securetunnel.Base.{ℕ, ◌≡◌, ◌≢◌, refl, sym, subst, inr, true, none, some, Text, arith}
use securetunnel.Server.Id.{tunnel_id, new_connection_id}
use securetunnel.Server.Tunnel.{Tunnel, PeerRef, Time, peer, token, is_open, status}
use securetunnel.Server.Store.{get_tunnel, get_connection}
use securetunnel.Server.Store.Table.{next_rev}
use securetunnel.Server.World.{
  Services, World, go, refuse, invalid_client_token, status_bad_request,
}
use securetunnel.Server.Api.Connect.{TunnelConnectArgs, validate, check, register, admit}
use securetunnel.Server.Api.Connect.Checks.{Admissible, check-Admissible, check-other_client}
use securetunnel.Server.Api.Connect.Registration.{taken_by, register-go}

pub admit-go :
    (svc : Services) (args : TunnelConnectArgs) (now : Time) (w w' : World) (t : Tunnel)
    (ref : PeerRef) (id : Text)
    → validate args ≡ none
    → check args now w ≡ (go (t, ref), w)
    → register svc args now t ref w ≡ (go id, w')
    → admit svc args now w ≡ (go id, w')
unfolding admit
admit-go svc args now w w' t ref id valid e f = ground arith

-- If a request meets the conditions of `TunnelConnect`, the connection id can be drawn and is free,
-- and the tunnel stands under the id of the token, then the request is let in; and as long as the
-- tunnel is open, the same request passes the checks again, and one that differs in its client
-- token is refused for that.
pub admit-again :
    (svc : Services) (args : TunnelConnectArgs) (now later : Time) (w : World) (t : Tunnel)
    (ref : PeerRef) (id : Text) (n : ℕ) (stranger : Text)
    → validate args ≡ none
    → Admissible args now w t ref
    → new_connection_id svc.id_token_gen (tunnel_id args.access_token) svc.draws w.draw
      ≡ some (id, n)
    → get_connection id w.store ≡ none
    → t.id ≡ tunnel_id args.access_token
    → is_open t later ≡ true
    → args.client_token ≢ stranger
    → (w' : World) × (admit svc args now w ≡ (go id, w'))
      × (check args later w' ≡ (go (record t { rev = next_rev t.rev }, ref), w'))
      × (check (record args { client_token = stranger }) later w'
          ≡ (refuse status_bad_request invalid_client_token, w'))
unfolding is_open status token peer
admit-again svc args now later w t ref id n stranger valid met drawn fresh own still differs =
    let (w', goes, connection, stored, taken) =
      register-go svc args now t ref w id n met.found drawn fresh met.pointed
        (subst (λ i. get_tunnel i w.store ≡ some t) (sym own) met.stored) in
    let t' : Tunnel = record t { rev = next_rev t.rev } in
    let found : get_tunnel (tunnel_id args.access_token) w'.store ≡ some t' =
      subst (λ i. get_tunnel i w'.store ≡ some t') own stored in
    (
      w',
      admit-go svc args now w w' t ref id valid (check-Admissible args now w t ref met) goes,
      check-Admissible args later w' t' ref (record {
        found = taken_by args id met.found;
        stored = found;
        has_token = met.has_token;
        pointer = met.pointer;
        pointed = taken;
        same_client = inr refl;
        is_opened = still;
      }),
      check-other_client (record args { client_token = stranger }) later w' t' ref
          (taken_by args id met.found) found met.has_token met.pointer taken (omega arith) differs,
    )
