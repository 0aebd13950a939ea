-- ===== src/Handshake/Bound.antt =====
-- What the server binds of a client's request.
use securetunnel.Base.{
  ℕ, ◌/◌, ◌%◌, ◌≡◌, refl, ap, ◌∙◌, ◌≤◌, ◌<◌, ◌⊎◌, inl, inr, true, List, [], ◌∷◌, ◌++◌, Option, none,
  some, Text, text_eq, All, codes, text_eqb, false, arith,
}
use securetunnel.Base.Dict.{lookup, lookup-insert_self}
use securetunnel.Base.Strings.{Spaceless, trim_space-Spaceless, is_space}
use securetunnel.Aws.{Mode, source, destination, other, mode_text, mode_of_text}
use securetunnel.Aws.Const.{
  query_key_proxy_mode, sub_protocols, sub_protocol_v2, header_key_access_token,
  header_key_client_token,
}
use securetunnel.Client.Dial.{
  Values, Url, AwsClientOptions, add_value, hex_digit, hex, client_of, client_token,
  request_header_of,
}
use securetunnel.Server.Tunnel.{Time}
use securetunnel.Server.Api.Connect.{TunnelConnectArgs, admit}
use securetunnel.Server.Binding.{
  Gin, header_key_protocol, set_text, set_texts, bind, bind_header, connect_route, pre_process,
}
use securetunnel.Server.World.{Services, World}
use securetunnel.Handshake.{Wire, IsHeaderValue, values_of, IsFaithful}

abbrev pub IsNamed : Mode → Type 0
IsNamed mode = (mode ≡ source) ⊎ (mode ≡ destination)

mode_of_text-mode_text : (mode : Mode) → IsNamed mode → mode_of_text (mode_text mode) ≡ mode
unfolding mode_of_text text_eqb
mode_of_text-mode_text source named = refl
mode_of_text-mode_text destination named = refl
mode_of_text-mode_text (other s) (inl e) = absurd (ground arith)
mode_of_text-mode_text (other s) (inr e) = absurd (ground arith)

add_value-fresh :
    (key value : Text) (q : Values)
    → lookup key q ≡ none
    → values_of key (add_value key value q) ≡ value ∷ []
unfolding add_value
add_value-fresh key value q e =
    rw (e, add_value) (rw (lookup-insert_self key (value ∷ []) q, values_of) refl)

bind-mode :
    {R : Type 0} (gin : Gin R) (r : R) (value : Text)
    → gin.form_ok r ≡ true
    → gin.form query_key_proxy_mode r ≡ value ∷ []
    → (args : TunnelConnectArgs) × (bind gin r ≡ some args) × (args.mode ≡ mode_of_text value)
unfolding bind
bind-mode gin r value good e = (
  record {
    mode = mode_of_text value;
    subprotocols = set_texts (gin.form (codes "Subprotocols") r) [];
    access_token = set_text (gin.form (codes "AccessToken") r) [];
    client_token = set_text (gin.form (codes "ClientToken") r) [];
  },
  rw (good, e) refl,
  refl,
)

bind_header-all :
    {R : Type 0} (gin : Gin R) (r : R) (args : TunnelConnectArgs) (p token client : Text)
    → gin.header (codes "Mode") r ≡ []
    → gin.header header_key_protocol r ≡ p ∷ []
    → gin.header header_key_access_token r ≡ token ∷ []
    → gin.header header_key_client_token r ≡ client ∷ []
    → bind_header gin r args
      ≡ some (record {
        mode = mode_of_text (mode_text args.mode);
        subprotocols = p ∷ [];
        access_token = token;
        client_token = client;
      })
unfolding bind_header
bind_header-all gin r args p token client a b c d = rw (a, b, c, d) refl

-- A request is handled by what is bound of it.
connect_route-admit :
    {R : Type 0} (gin : Gin R) (svc : Services) (now : Time) (r : R)
    (first args : TunnelConnectArgs) (w : World)
    → bind gin r ≡ some first
    → bind_header gin r first ≡ some args
    → connect_route gin svc now r w ≡ admit svc args now w
unfolding connect_route pre_process admit
connect_route-admit gin svc now r first args w a b = ground arith

abbrev IsByte : ℕ → Type 0
IsByte b = b < 256

hex_digit-Spaceless : (n : ℕ) → n < 16 → is_space (hex_digit n) ≡ false
unfolding is_space
hex_digit-Spaceless n h = ground arith

hex_digit-bounds : (n : ℕ) → n < 16 → (32 ≤ hex_digit n) × (hex_digit n < 127)
hex_digit-bounds n h = ground arith

hex-Spaceless : (bytes : List ℕ) → All IsByte bytes → Spaceless (hex bytes)
unfolding hex
hex-Spaceless [] h = tt
hex-Spaceless (b ∷ bytes) h = (
  hex_digit-Spaceless (b / 16) (omega (arith, h.0)),
  (hex_digit-Spaceless (b % 16) (omega arith), hex-Spaceless bytes h.1),
)

hex-bounds : (bytes : List ℕ) → All IsByte bytes → All (λ c. (32 ≤ c) × (c < 127)) (hex bytes)
unfolding hex
hex-bounds [] h = tt
hex-bounds (b ∷ bytes) h = (
  hex_digit-bounds (b / 16) (omega (arith, h.0)),
  (hex_digit-bounds (b % 16) (omega arith), hex-bounds bytes h.1),
)

-- A client token is a header's value, if sha256 returns bytes.
pub client_token-IsHeaderValue :
    (sha256 : Text → List ℕ) (hostname : Option Text) (token : Text)
    → ((s : Text) → All IsByte (sha256 s))
    → IsHeaderValue (client_token sha256 hostname token)
unfolding client_token
client_token-IsHeaderValue sha256 none token bytes =
    let all = bytes (token ++ codes ":") in
    (trim_space-Spaceless _ (hex-Spaceless _ all), hex-bounds _ all)
client_token-IsHeaderValue sha256 (some name) token bytes =
    let all = bytes (token ++ codes ":" ++ name) in
    (trim_space-Spaceless _ (hex-Spaceless _ all), hex-bounds _ all)

-- What a client's request says.
abbrev pub args_of : {L H : Type 0} → AwsClientOptions L H → Text → TunnelConnectArgs
args_of options client = record {
  mode = options.mode;
  subprotocols = sub_protocols;
  access_token = options.token;
  client_token = client;
}

module _ {R : Type 0} (wire : Wire R) (faithful : IsFaithful wire) {L H : Type 0}
    (options : AwsClientOptions L H) (client : Text) (endpoint : Url) (named : IsNamed options.mode)
    (no_mode : lookup query_key_proxy_mode endpoint.query ≡ none)
    (token_ok : IsHeaderValue options.token) (client_ok : IsHeaderValue client) where
  -- The request of the client that `NewAWSClient` makes is handled as one with the client's mode,
  -- its token, its client token and the one subprotocol.
  pub connect_route-client :
      (svc : Services) (now : Time) (w : World)
      → let c = client_of options client endpoint in
        connect_route wire.gin svc now
          (wire.present c.endpoint c.request_header c.dialer.subprotocols)
          w
        ≡ admit svc (args_of options client) now w
  unfolding client_of
  connect_route-client svc now w =
      let value = mode_text options.mode in
      let url = record endpoint { query = add_value query_key_proxy_mode value endpoint.query } in
      let h = request_header_of options.token client in
      let r = wire.present url h sub_protocols in
      let (first, parsed, of_query) =
        bind-mode wire.gin r value (faithful.parsed url h sub_protocols) (
          faithful.query_kept url h sub_protocols query_key_proxy_mode
          ∙ add_value-fresh query_key_proxy_mode value endpoint.query no_mode) in
      let all =
        bind_header-all wire.gin r first sub_protocol_v2 options.token client
          (faithful.no_mode url options.token client sub_protocols)
          (faithful.protocol_kept url h sub_protocol_v2)
          (faithful.access_token_kept url options.token client sub_protocols token_ok)
          (faithful.client_token_kept url options.token client sub_protocols client_ok) in
      let same : mode_of_text (mode_text first.mode) ≡ options.mode =
        ap (λ m. mode_of_text (mode_text m)) (of_query ∙ mode_of_text-mode_text options.mode named)
        ∙ mode_of_text-mode_text options.mode named in
      connect_route-admit wire.gin svc now r first (args_of options client) w parsed
        (all ∙ ap (λ m. some (record (args_of options client) { mode = m })) same)
