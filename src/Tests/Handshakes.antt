-- ===== src/Tests/Handshakes.antt =====
-- A client of a source at a server that has its tunnel.
use securetunnel.Base.{
  ◌≢◌, ℕ, ◌≡◌, refl, inl, true, false, List, [], ◌∷◌, none, some, Text, codes, text_eq, text_eqb,
  ◌==◌, arith, if◌then◌else◌,
}
use securetunnel.Base.Dict.{lookup, insert}
use securetunnel.Base.Strings.{split, split_from, is_prefix, trim_space, trim_left, is_space}
use securetunnel.Aws.{source}
use securetunnel.Client.Retry.{Response, connect_error, err_tunnel_closed, run}
use securetunnel.Client.Dial.{
  connected, Values, Url, Con, AwsClientOptions, AwsClient, add_value, hex, client_token, client_of,
  new_aws_client, connect,
}
use securetunnel.Server.Id.{tunnel_id, generate_id, draw_char, new_connection_id}
use securetunnel.Server.Tunnel.{token, peer, is_open, status}
use securetunnel.Server.Store.{get_tunnel}
use securetunnel.Server.Store.Table.{get_with_key}
use securetunnel.Server.World.{
  World, go, refuse, tunnel_is_closed, invalid_client_token, status_bad_request,
}
use securetunnel.Server.Api.Connect.{admit, check, validate}
use securetunnel.Server.Api.Connect.Checks.{Admissible}
use securetunnel.Server.Api.Connect.Again.{admit-again}
use securetunnel.Server.Binding.{header_key_protocol}
use securetunnel.Handshake.{Wire, IsFaithful, IsReady, values_of, dial_to}
use securetunnel.Handshake.Bound.{args_of}
use securetunnel.Handshake.Answered.{Verdict}
use securetunnel.Handshake.Outcome.{connect-refused, run-closed, connect-Admissible}
use securetunnel.Tests.Tunnels.{services}
use securetunnel.Tests.Admission.{tunnel_1, world, new_peer, stored_source, fresh}

-- A request as it is sent.
pub record Sent : Type 0 where
  url : Url
  fields : Values
  protocols : List Text

abbrev pub wire : Wire Sent
wire = record {
  gin = record {
    form_ok = λ r. true;
    form = λ key r. values_of key r.url.query;
    header = λ key r. if key == header_key_protocol then r.protocols else values_of key r.fields;
  };
  present = λ url fields protocols. record { url = url; fields = fields; protocols = protocols };
}

pub faithful : IsFaithful wire
unfolding lookup text_eqb
faithful = record {
  parsed = λ url h ps. refl;
  query_kept = λ url h ps key. refl;
  access_token_kept = λ url t c ps ok. refl;
  client_token_kept = λ url t c ps ok. refl;
  no_mode = λ url t c ps. refl;
  protocol_kept = λ url h p. refl;
}

abbrev pub endpoint : Url
endpoint = record {
  scheme = codes "ws";
  host = codes "localhost:18080";
  path = codes "/tunnel";
  query = [];
}

abbrev pub options_with : Text → AwsClientOptions ℕ ℕ
options_with token = record {
  mode = source;
  endpoint = endpoint;
  token = token;
  tls_config = none;
  dial_timeout = 10;
  reconnect_interval = 5;
  ping_interval = 30;
  message_listeners = [];
  connect_handlers = [];
}

abbrev options : AwsClientOptions ℕ ℕ
options = options_with (codes "01_23")

abbrev pub sha256 : Text → List ℕ
sha256 s = 10 ∷ 255 ∷ []

abbrev client : AwsClient ℕ ℕ
client = client_of options (codes "0aff") endpoint

token_text : client_token sha256 (some (codes "h")) (codes "01_23") ≡ codes "0aff"
unfolding client_token hex
token_text = refl

made : new_aws_client some sha256 (some (codes "h")) options ≡ some client
unfolding new_aws_client client_token hex client_of
made = refl

query_of_client : client.endpoint.query ≡ (codes "local-proxy-mode", codes "source" ∷ []) ∷ []
unfolding client_of add_value lookup insert
query_of_client = refl

ready : IsReady wire options some sha256 endpoint
unfolding trim_space trim_left is_space lookup
ready = record {
  faithful = faithful;
  copied = refl;
  named = inl refl;
  names_no_mode = refl;
  token_ok = (refl, ground arith);
  returns_bytes = λ s. (omega arith, (omega arith, tt));
}

abbrev pub con : Con
con = record { read_limit = none }

own : codes "01_23" ≡ token tunnel_1 source
unfolding token
own = refl

pointer : peer tunnel_1 source ≡ some 0
unfolding peer
pointer = refl

opened : is_open tunnel_1 2000 ≡ true
unfolding is_open status
opened = refl

refused :
    admit services
      (args_of options (client_token sha256 (some (codes "h")) (codes "01_23")))
      9001
      world
    ≡ (refuse 400 tunnel_is_closed, world)
unfolding admit validate check text_eqb get_tunnel get_with_key lookup tunnel_id split split_from
    is_prefix token peer is_open status client_token
refused = refl

connect-refused_example :
    (response : Response) × (connect
        (dial_to wire services 9001 world [] source (connected con))
        client
      ≡ (some (some response), client))
    × Verdict response 400 tunnel_is_closed
connect-refused_example =
    connect-refused wire options some sha256 (some (codes "h")) endpoint client ready made services
      9001 world [] con world 400 tunnel_is_closed refused

run-closed_example :
    (response : Response) × (connect
        (dial_to wire services 9001 world [] source (connected con))
        client
      ≡ (some (some response), client))
    × (run (record { error = connect_error (some response); done = false } ∷ [])
        ≡ some err_tunnel_closed)
run-closed_example =
    run-closed wire options some sha256 (some (codes "h")) endpoint client ready made services 9001
      world [] con tunnel_1 0 new_peer false [] stored_source own pointer refl (inl refl)
      (omega arith)

admissible :
    Admissible
      (args_of options (client_token sha256 (some (codes "h")) (codes "01_23")))
      2000
      world
      tunnel_1
      0
admissible = record {
  found = new_peer;
  stored = stored_source;
  has_token = own;
  pointer = pointer;
  pointed = refl;
  same_client = inl refl;
  is_opened = opened;
}

drawn :
    new_connection_id services.id_token_gen (tunnel_id (codes "01_23")) services.draws 6
    ≡ some (codes "01_67", 8)
unfolding new_connection_id generate_id draw_char tunnel_id split split_from is_prefix
drawn = refl

own_id : codes "01" ≡ tunnel_id (codes "01_23")
unfolding tunnel_id split split_from is_prefix
own_id = refl

connect-Admissible_example :
    connect (dial_to wire services 2000 world [] source (connected con)) client
    ≡ (none, record client { con = some (record { read_limit = some 131_076 }) })
connect-Admissible_example =
    connect-Admissible wire options some sha256 (some (codes "h")) endpoint client ready made
      services 2000 world [] con tunnel_1 0 (codes "01_67") 8 admissible drawn fresh own_id

valid : validate (args_of options (client_token sha256 (some (codes "h")) (codes "01_23"))) ≡ none
unfolding validate text_eqb
valid = refl

stranger : client_token sha256 (some (codes "h")) (codes "01_23") ≢ codes "c2"
unfolding client_token hex
stranger e = absurd (ground arith)

admit-again_example :
    let args = args_of options (client_token sha256 (some (codes "h")) (codes "01_23")) in
    (w' : World) × (admit services args 2000 world ≡ (go (codes "01_67"), w'))
    × (check args 2000 w' ≡ (go (record tunnel_1 { rev = 2 }, 0), w'))
    × (check (record args { client_token = codes "c2" }) 2000 w'
        ≡ (refuse status_bad_request invalid_client_token, w'))
admit-again_example =
    admit-again services (args_of options (client_token sha256 (some (codes "h")) (codes "01_23")))
      2000 2000 world tunnel_1 0 (codes "01_67") 8 (codes "c2") valid admissible drawn fresh own_id
      opened stranger
