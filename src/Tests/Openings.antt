-- ===== src/Tests/Openings.antt =====
-- A server that has just started, a tunnel, and the client of its source.
use securetunnel.Base.{ℕ, ◌≤◌, true, ◌≡◌, refl, inl, [], none, some, codes, arith}
use securetunnel.Base.Dict.{lookup}
use securetunnel.Base.Strings.{trim_space, trim_left, is_space}
use securetunnel.Aws.{source}
use securetunnel.Client.Dial.{
  connected, AwsClientOptions, AwsClient, hex, client_token, client_of, new_aws_client, connect,
}
use securetunnel.Server.Id.{
  Draws, IdTokens, new_id_tokens, new_tunnel_id, new_token, generate_id, draw_char,
  new_connection_id,
}
use securetunnel.Server.Tunnel.{token}
use securetunnel.Server.Peers
use securetunnel.Server.World.{go}
use securetunnel.Server.Routes.{routes}
use securetunnel.Server.Api.Open.{OpenTunnelRequest, new_tunnel, open_tunnel}
use securetunnel.Server.Startup.{
  nil_authorizer, nil_notifier, services_of, config_digits, first_world, launch, serves, launch-nil,
}
use securetunnel.Cmd.Logger.{silent}
use securetunnel.Handshake.{IsReady, dial_to}
use securetunnel.Handshake.Opened.{opened-connect}
use securetunnel.Tests.Handshakes.{wire, faithful, endpoint, options_with, sha256, con}

abbrev draws : Draws
draws n = some n

launch-nil_example :
    launch (λ c. c) true (nil_authorizer {R = Unit {0}}) nil_notifier draws silent
    ≡ serves (services_of nil_notifier draws) first_world Peers.start (routes true)
launch-nil_example = launch-nil (Unit {0}) (λ c. c) draws silent refl

abbrev request : OpenTunnelRequest
request = record { services = []; thing_name = codes "door"; timeout_minutes = 5; payload = [] }

abbrev ids : IdTokens
ids = record {
  tunnel_id = codes "012";
  source_token = codes "012_345";
  destination_token = codes "012_678";
}

drawn : new_id_tokens config_digits draws 0 ≡ some (ids, 9)
unfolding new_id_tokens new_tunnel_id new_token generate_id draw_char
drawn = refl

numbered : new_connection_id config_digits (codes "012") draws 9 ≡ some (codes "012_9ab", 12)
unfolding new_connection_id generate_id draw_char
numbered = refl

abbrev options : AwsClientOptions ℕ ℕ
options = options_with (codes "012_345")

abbrev client : AwsClient ℕ ℕ
client = client_of options (codes "0aff") endpoint

made : new_aws_client some sha256 none options ≡ some client
unfolding new_aws_client client_token hex client_of
made = refl

ready : IsReady wire options some sha256 endpoint
unfolding trim_space trim_left is_space lookup
ready = record {
  faithful = faithful;
  copied = refl;
  named = inl refl;
  names_no_mode = refl;
  token_ok = (refl, ground arith);
  returns_bytes = λ s. (omega arith, (omega arith, tt));
}

own : codes "012_345" ≡ token (new_tunnel request ids 1000 0) source
unfolding token new_tunnel
own = refl

early : 2000 ≤ (new_tunnel request ids 1000 0).lifetime_at
unfolding new_tunnel
early = omega arith

opened-connect_example :
    let svc = services_of nil_notifier draws in
    let opened = open_tunnel svc request 1000 first_world in
    (opened.0
      ≡ go (record {
        tunnel_id = codes "012";
        destination_token = codes "012_678";
        source_token = codes "012_345";
      }))
    × (connect (dial_to wire svc 2000 opened.1 [] source (connected con)) client
        ≡ (none, record client { con = some (record { read_limit = some 131_076 }) }))
opened-connect_example =
    opened-connect wire options some sha256 none endpoint client draws request 1000 2000 ids 9 12
      (codes "012_9ab") [] con ready made drawn own early numbered
