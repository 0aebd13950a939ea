-- ===== src/Client/Dial.antt =====
-- `NewAWSClient`, `clientToken` and `connect` of client/awsclient.go: the request for a connection, and
-- what an attempt to connect leaves. Parameters are sha256, the host's name, the copy of a url through
-- its text, and `dial`, which is `DialContext` under the timeout.
use securetunnel.Base.{
  ℕ, ◌+◌, ◌/◌, ◌%◌, ltb, ◌-◌, Bool, false, List, [], ◌∷◌, ◌++◌, Option, none, some, Text, text_eq,
  codes, if◌then◌else◌,
}
use securetunnel.Base.Dict.{lookup, insert}
use securetunnel.Aws.{Mode, mode_text}
use securetunnel.Aws.Const.{
  query_key_proxy_mode, header_key_access_token, header_key_client_token, sub_protocols,
  max_web_socket_frame_size,
}
use securetunnel.Client.Retry.{Response}

-- `url.Values` and `http.Header`.
abbrev pub Values : Type 0
Values = List (Text × List Text)

pub record Url : Type 0 where
  pub scheme : Text
  pub host : Text
  pub path : Text
  pub query : Values

-- `Add` of `url.Values`: behind the values that the key has.
unfoldable pub add_value : Text → Text → Values → Values
add_value key value values = elim (lookup key values) [
  | none ↦ insert key (value ∷ []) values
  | some old ↦ insert key (old ++ value ∷ []) values
]

-- A `tls.Config`, by `InsecureSkipVerify`.
pub record Dialer : Type 0 where
  pub insecure_skip_verify : Bool
  pub subprotocols : List Text

-- Listeners and handlers of the caller's.
pub record AwsClientOptions (L H : Type 0) : Type 0 where
  pub mode : Mode
  pub endpoint : Url
  pub token : Text
  pub tls_config : Option Bool
  pub dial_timeout : ℕ
  pub reconnect_interval : ℕ
  pub ping_interval : ℕ
  pub message_listeners : List L
  pub connect_handlers : List H

-- What the code sets of a `websocket.Conn`. Its close handler only logs.
pub record Con : Type 0 where
  pub read_limit : Option ℕ

-- The workers are Client's.
pub record AwsClient (L H : Type 0) : Type 0 where
  pub mode : Mode
  pub endpoint : Url
  pub token : Text
  pub dial_timeout : ℕ
  pub reconnect_interval : ℕ
  pub ping_interval : ℕ
  pub message_listeners : List L
  pub connect_handlers : List H
  pub dialer : Dialer
  pub request_header : Values
  pub con : Option Con

abbrev pub hex_digit : ℕ → ℕ
hex_digit n = if ltb n 10 then b'0' + n else b'a' + n - 10

-- `%x` of bytes.
unfoldable pub hex : List ℕ → Text
hex [] = []
hex (b ∷ bytes) = hex_digit (b / 16) ∷ hex_digit (b % 16) ∷ hex bytes

-- `clientToken`. Without a name of the host, the name is empty.
unfoldable pub client_token : (Text → List ℕ) → Option Text → Text → Text
client_token sha256 hostname token = elim hostname [
  | none ↦ hex (sha256 (token ++ codes ":"))
  | some name ↦ hex (sha256 (token ++ codes ":" ++ name))
]

abbrev pub or_default : Option Bool → Bool
or_default none = false
or_default (some insecure) = insecure

abbrev pub request_header_of : Text → Text → Values
request_header_of token client_token =
    (header_key_access_token, token ∷ []) ∷ (header_key_client_token, client_token ∷ []) ∷ []

-- `NewAWSClient`, given its client token and the copy of the endpoint.
unfoldable pub client_of : {L H : Type 0} → AwsClientOptions L H → Text → Url → AwsClient L H
unfolding add_value
client_of options client_token endpoint = record {
  mode = options.mode;
  endpoint = record endpoint {
    query = add_value query_key_proxy_mode (mode_text options.mode) endpoint.query;
  };
  token = options.token;
  dial_timeout = options.dial_timeout;
  reconnect_interval = options.reconnect_interval;
  ping_interval = options.ping_interval;
  message_listeners = options.message_listeners;
  connect_handlers = options.connect_handlers;
  dialer = record {
    insecure_skip_verify = or_default options.tls_config;
    subprotocols = sub_protocols;
  };
  request_header = request_header_of options.token client_token;
  con = none;
}

-- `NewAWSClient`. An error of `url.Parse` is ignored: then there is no url, and `none` is the panic.
unfoldable pub new_aws_client :
    {L H : Type 0}
    → (Url → Option Url)
    → (Text → List ℕ)
    → Option Text
    → AwsClientOptions L H
    → Option (AwsClient L H)
unfolding client_token client_of
new_aws_client reparse sha256 hostname options = elim (reparse options.endpoint) [
  | none ↦ none
  | some endpoint ↦ some (client_of options (client_token sha256 hostname options.token) endpoint)
]

-- What `DialContext` returns: a connection, or an error, with the answer if there is one.
pub data Dialed : Type 0 where
  connected : Con → Dialed
  refused : Option Response → Dialed

-- `connect`: the response of its `connectError`, if it fails. Then the client keeps the last
-- connection.
unfoldable pub connect :
    {L H : Type 0}
    → (Url → Values → Dialer → Dialed)
    → AwsClient L H
    → Option (Option Response) × AwsClient L H
connect dial client = elim (dial client.endpoint client.request_header client.dialer) [
  | refused response ↦ (some response, client)
  | connected con ↦ (
    none,
    record client { con = some (record con { read_limit = some max_web_socket_frame_size }) },
  )
]
