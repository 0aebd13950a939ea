-- ===== src/Handshake/Opened.antt =====
-- From the start of mitra_tunneld to a client that is connected.
use securetunnel.Base.{
  ℕ, ◌≡◌, refl, sym, ap, subst, ◌∙◌, ◌≤◌, ◌⊎◌, List, Option, none, some, Text, arith,
}
use securetunnel.Base.Dict.{lookup}
use securetunnel.Aws.{Mode, source, destination, other}
use securetunnel.Client.Dial.{
  connected, Url, Con, AwsClientOptions, AwsClient, client_token, new_aws_client, connect,
}
use securetunnel.Server.Id.{Draws, IdTokens, tunnel_id, new_id_tokens, new_connection_id}
use securetunnel.Server.Id.Token.{tunnel_id-new_id_tokens}
use securetunnel.Server.Tunnel.{Time, token}
use securetunnel.Server.Store.{get_tunnel, get_connection, add_tunnel, delete_tunnel}
use securetunnel.Server.Store.Table.{get_with_key}
use securetunnel.Server.World.{Services, World, go}
use securetunnel.Server.Api.Open.{OpenTunnelRequest, new_tunnel, open_tunnel}
use securetunnel.Server.Api.Open.Lifetime.{open_tunnel-go, open_tunnel-check}
use securetunnel.Server.Api.Connect.Checks.{Admissible-check}
use securetunnel.Server.Startup.{nil_notifier, services_of, config_digits, first_world}
use securetunnel.Handshake.{Wire, IsReady, dial_to}
use securetunnel.Handshake.Bound.{args_of}
use securetunnel.Handshake.Outcome.{connect-Admissible}

open_tunnel-connection :
    (svc : Services) (args : OpenTunnelRequest) (now : Time) (w : World) (id : Text)
    → get_connection id (open_tunnel svc args now w).1.store ≡ get_connection id w.store
unfolding open_tunnel add_tunnel delete_tunnel get_connection
open_tunnel-connection svc args now w id = ground arith

open_tunnel-draw :
    (svc : Services) (args : OpenTunnelRequest) (now : Time) (w : World) (ids : IdTokens) (n : ℕ)
    → new_id_tokens svc.id_token_gen svc.draws w.draw ≡ some (ids, n)
    → (open_tunnel svc args now w).1.draw ≡ n
unfolding open_tunnel
open_tunnel-draw svc args now w ids n drawn = ground arith

token-tunnel_id :
    (svc : Services) (args : OpenTunnelRequest) (now : Time) (heap start : ℕ) (ids : IdTokens)
    (n : ℕ) (mode : Mode)
    → new_id_tokens svc.id_token_gen svc.draws start ≡ some (ids, n)
    → (mode ≡ source) ⊎ (mode ≡ destination)
    → tunnel_id (token (new_tunnel args ids now heap) mode) ≡ ids.tunnel_id
unfolding token new_tunnel
token-tunnel_id svc args now heap start ids n source drawn named =
    (tunnel_id-new_id_tokens svc.id_token_gen svc.draws start ids n drawn).2
token-tunnel_id svc args now heap start ids n destination drawn named =
    (tunnel_id-new_id_tokens svc.id_token_gen svc.draws start ids n drawn).3
token-tunnel_id svc args now heap start ids n (other s) drawn named = absurd (ground arith)

new_tunnel-id :
    (args : OpenTunnelRequest) (ids : IdTokens) (now : Time) (heap : ℕ)
    → (new_tunnel args ids now heap).id ≡ ids.tunnel_id
unfolding new_tunnel
new_tunnel-id args ids now heap = refl

no_tunnel : (id : Text) → get_tunnel id first_world.store ≡ none
unfolding get_tunnel get_with_key lookup
no_tunnel id = refl

no_connection : (id : Text) → get_connection id first_world.store ≡ none
unfolding get_connection get_with_key lookup
no_connection id = refl

-- A mitra_tunneld that has just started opens a tunnel, if the ids can be drawn; and a client that
-- is ready and has the token of its mode connects up to the end of the tunnel's lifetime, if the id
-- of the connection can be drawn and `Upgrade` succeeds.
pub opened-connect :
    {R L H : Type 0} (wire : Wire R) (options : AwsClientOptions L H) (reparse : Url → Option Url)
    (sha256 : Text → List ℕ) (hostname : Option Text) (endpoint : Url) (c : AwsClient L H)
    (draws : Draws) (args : OpenTunnelRequest) (now later : Time) (ids : IdTokens) (n m : ℕ)
    (id quoted : Text) (con : Con)
    → IsReady wire options reparse sha256 endpoint
    → new_aws_client reparse sha256 hostname options ≡ some c
    → new_id_tokens config_digits draws 0 ≡ some (ids, n)
    → options.token ≡ token (new_tunnel args ids now 0) options.mode
    → later ≤ (new_tunnel args ids now 0).lifetime_at
    → new_connection_id config_digits ids.tunnel_id draws n ≡ some (id, m)
    → let svc = services_of nil_notifier draws in
      let opened = open_tunnel svc args now first_world in
      (opened.0
        ≡ go (record {
          tunnel_id = ids.tunnel_id;
          destination_token = ids.destination_token;
          source_token = ids.source_token;
        }))
      × (connect (dial_to wire svc later opened.1 quoted options.mode (connected con)) c
          ≡ (none, record c { con = some (record con { read_limit = some 131_076 }) }))
unfolding services_of nil_notifier
opened-connect wire options reparse sha256 hostname endpoint c draws args now later ids n m id
      quoted con ready made drawn own early numbered =
    let svc = services_of nil_notifier draws in
    let w = (open_tunnel svc args now first_world).1 in
    let request = args_of options (client_token sha256 hostname options.token) in
    let t = new_tunnel args ids now 0 in
    let of : tunnel_id options.token ≡ ids.tunnel_id =
      ap tunnel_id own ∙ token-tunnel_id svc args now 0 0 ids n options.mode drawn ready.named in
    let (ref, passes) =
      open_tunnel-check svc args now first_world ids n drawn (no_tunnel ids.tunnel_id) request later
        refl ready.named own early in
    let (w', answer, stored, grown) =
      open_tunnel-go svc args now first_world ids n drawn (no_tunnel ids.tunnel_id) refl in
    (
      ap (λ r. r.0) answer,
      connect-Admissible wire options reparse sha256 hostname endpoint c ready made svc later w
          quoted con t ref id m (Admissible-check request later w w t ref passes)
          (subst (λ x. new_connection_id config_digits x draws w.draw ≡ some (id, m)) (sym of)
            (subst (λ k. new_connection_id config_digits ids.tunnel_id draws k ≡ some (id, m))
              (sym (open_tunnel-draw svc args now first_world ids n drawn)) numbered))
          (open_tunnel-connection svc args now first_world id ∙ no_connection id)
          (new_tunnel-id args ids now 0 ∙ sym of),
    )
