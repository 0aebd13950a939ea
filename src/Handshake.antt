-- ===== src/Handshake.antt =====
-- The request of client/awsclient.go at the route of `TunnelConnect` of misc/server, and the server's
-- answer at the client. The WebSocket library and gin stand in between: a `Wire`.
pub mod Bound
pub mod Answered
pub mod Outcome
pub mod Opened
use securetunnel.Base.{
  ℕ, ◌⊎◌, ◌≡◌, ◌≤◌, ◌<◌, true, List, [], ◌∷◌, ◌++◌, Option, none, some, Text, text_eq, codes, All,
}
use securetunnel.Base.Dict.{lookup}
use securetunnel.Base.Strings.{trim_space}
use securetunnel.Aws.{Mode, source, destination, mode_text, other_mode}
use securetunnel.Aws.Const.{
  status_reason_tunnel_closed, header_key_access_token, header_key_client_token,
  query_key_proxy_mode,
}
use securetunnel.Client.Retry.{Response}
use securetunnel.Client.Dial.{
  AwsClientOptions, Values, Url, Dialer, Con, Dialed, refused, request_header_of,
}
use securetunnel.Server.Tunnel.{Time}
use securetunnel.Server.Binding.{Gin, header_key_protocol, connect_route}
use securetunnel.Server.World.{
  Services, World, Reason, tunnel_not_found, invalid_access_token, token_for_other_mode,
  invalid_client_token, tunnel_is_closed, failed_to_update_connection, failed_to_update_tunnel,
  Reply, go, refuse, panic, status_internal_server_error,
}

-- `present` is the request that arrives for what `DialContext` is given.
pub record Wire (R : Type 0) : Type 0 where
  pub gin : Gin R
  pub present : Url → Values → List Text → R

-- A header's value that HTTP carries as it is.
abbrev pub IsHeaderValue : Text → Type 0
IsHeaderValue value = (trim_space value ≡ value) × All (λ c. (32 ≤ c) × (c < 127)) value

abbrev pub values_of : Text → Values → List Text
values_of key values = elim (lookup key values) [ none ↦ [] | some found ↦ found ]

-- What the libraries do with the client's requests: the query and the two headers arrive, no header
-- `Mode` is added, and one subprotocol is one value of its header.
pub record IsFaithful {R : Type 0} (wire : Wire R) : Type 0 where
  pub parsed :
      (url : Url) (h : Values) (ps : List Text) → wire.gin.form_ok (wire.present url h ps) ≡ true
  pub query_kept :
      (url : Url) (h : Values) (ps : List Text) (key : Text)
      → wire.gin.form key (wire.present url h ps) ≡ values_of key url.query
  pub access_token_kept :
      (url : Url) (token client : Text) (ps : List Text)
      → IsHeaderValue token
      → wire.gin.header header_key_access_token
          (wire.present url (request_header_of token client) ps)
        ≡ token ∷ []
  pub client_token_kept :
      (url : Url) (token client : Text) (ps : List Text)
      → IsHeaderValue client
      → wire.gin.header header_key_client_token
          (wire.present url (request_header_of token client) ps)
        ≡ client ∷ []
  pub no_mode :
      (url : Url) (token client : Text) (ps : List Text)
      → wire.gin.header (codes "Mode") (wire.present url (request_header_of token client) ps) ≡ []
  pub protocol_kept :
      (url : Url) (h : Values) (p : Text)
      → wire.gin.header header_key_protocol (wire.present url h (p ∷ [])) ≡ p ∷ []

-- The header `X-Status-Reason` of an answer of `TunnelConnect`, empty where none is set. `quoted` is
-- the error that some of them quote.
unfoldable pub status_reason : Text → Mode → Reason → Text
status_reason quoted mode tunnel_not_found = codes "invalid access-token: " ++ quoted
status_reason quoted mode token_for_other_mode =
    codes "access-token for "
    ++ mode_text (other_mode mode)
    ++ codes " mode was specified for the connection in "
    ++ mode_text mode
    ++ codes " mode"
status_reason quoted mode invalid_access_token = codes "invalid access-token"
status_reason quoted mode invalid_client_token = codes "invalid client-token"
status_reason quoted mode tunnel_is_closed = status_reason_tunnel_closed
status_reason quoted mode failed_to_update_connection =
    codes "failed to update Connection: " ++ quoted
status_reason quoted mode failed_to_update_tunnel = codes "failed to update Tunnel"
status_reason quoted mode _ = []

abbrev pub response_of : Text → Mode → ℕ → Reason → Response
response_of quoted mode code why = record {
  status_code = code;
  status_reason = status_reason quoted mode why;
}

-- What the dialer returns for an answer: that of `Upgrade`, a connection or a refusal, if the request is
-- admitted. The engine, `gin.Default()`, answers a panic with 500.
abbrev pub answered : Text → Mode → Dialed → Reply Text → Dialed
answered quoted mode upgraded (go id) = upgraded
answered quoted mode upgraded (refuse code why) = refused (some (response_of quoted mode code why))
answered quoted mode upgraded panic =
    refused (some (record { status_code = status_internal_server_error; status_reason = [] }))

-- Dialing a server in a state, if the network is up.
abbrev pub dial_to :
    {R : Type 0}
    → Wire R
    → Services
    → Time
    → World
    → Text
    → Mode
    → Dialed
    → Url
    → Values
    → Dialer
    → Dialed
dial_to wire svc now w quoted mode upgraded url header dialer =
    answered quoted mode upgraded
      (connect_route wire.gin svc now (wire.present url header dialer.subprotocols) w).0

-- A client whose requests arrive as they are meant: its mode is one of the two, its endpoint does not
-- name a mode already and is copied, and its token is a header's value.
pub record IsReady {R L H : Type 0} (wire : Wire R) (options : AwsClientOptions L H)
    (reparse : Url → Option Url) (sha256 : Text → List ℕ) (endpoint : Url) : Type 0 where
  pub faithful : IsFaithful wire
  pub copied : reparse options.endpoint ≡ some endpoint
  pub named : (options.mode ≡ source) ⊎ (options.mode ≡ destination)
  pub names_no_mode : lookup query_key_proxy_mode endpoint.query ≡ none
  pub token_ok : IsHeaderValue options.token
  pub returns_bytes : (s : Text) → All (λ b. b < 256) (sha256 s)
