-- ===== src/Server/Binding.antt =====
-- `PreProcess` of misc/server/services.go, and what it binds for `TunnelConnect` by the tags of
-- `TunnelConnectArgs`. How gin reads a request is an argument.
use securetunnel.Base.{Option, none, some, List, [], ◌∷◌, Bool, Text, codes, if◌then◌else◌}
use securetunnel.Aws.{mode_text, mode_of_text}
use securetunnel.Aws.Const.{query_key_proxy_mode, header_key_access_token, header_key_client_token}
use securetunnel.Server.Tunnel.{Time}
use securetunnel.Server.World.{
  Services, Reason, failed_to_parse_request, failed_to_parse_header, go, refuse, status_bad_request,
  M, ◌>>=◌, ◌>>◌, or_refuse,
}
use securetunnel.Server.Api.Connect.{TunnelConnectArgs, validate, check, register}

-- `Validate` of the arguments, if their type has one.
abbrev pub validated : {T : Type 0} → Option (T → Option Reason) → T → M (Unit {0})
validated none args w = (go tt, w)
validated (some validate) args w = elim (validate args) [
  | none ↦ (go tt, w)
  | some why ↦ (refuse status_bad_request why, w)
]

-- `bind` and `bind_header` are gin's `Bind` and `BindHeader` at the type of the arguments.
unfoldable pub pre_process :
    {R T A : Type 0}
    → (R → Option T)
    → (R → T → Option T)
    → Option (T → Option Reason)
    → (T → M A)
    → R
    → M A
pre_process bind bind_header validate handler request = do
  parsed ← λ w. or_refuse (bind request) status_bad_request failed_to_parse_request w
  args ← λ w. or_refuse (bind_header request parsed) status_bad_request failed_to_parse_header w
  validated validate args
  handler args

-- The values that gin finds in a request, in the query and in the headers: none if there is no such
-- parameter or header. A query can be malformed.
pub record Gin (R : Type 0) : Type 0 where
  pub form_ok : R → Bool
  pub form : Text → R → List Text
  pub header : Text → R → List Text

-- A field is set to the first value, a field with a list to all; without a value it is left alone.
abbrev pub set_text : List Text → Text → Text
set_text [] old = old
set_text (value ∷ values) old = value

abbrev pub set_texts : List Text → List Text → List Text
set_texts [] old = old
set_texts (value ∷ values) old = value ∷ values

abbrev pub header_key_protocol : Text
header_key_protocol = codes "Sec-WebSocket-Protocol"

module _ {R : Type 0} (gin : Gin R) where
  -- `Bind` of a request with GET. A field without the tag goes by its own name.
  unfoldable pub bind : R → Option TunnelConnectArgs
  bind request =
      if gin.form_ok request
      then some (record {
        mode = mode_of_text (set_text (gin.form query_key_proxy_mode request) []);
        subprotocols = set_texts (gin.form (codes "Subprotocols") request) [];
        access_token = set_text (gin.form (codes "AccessToken") request) [];
        client_token = set_text (gin.form (codes "ClientToken") request) [];
      })
      else none

  -- `BindHeader`.
  unfoldable pub bind_header : R → TunnelConnectArgs → Option TunnelConnectArgs
  bind_header request args = some (record {
    mode = mode_of_text (set_text (gin.header (codes "Mode") request) (mode_text args.mode));
    subprotocols = set_texts (gin.header header_key_protocol request) args.subprotocols;
    access_token = set_text (gin.header header_key_access_token request) args.access_token;
    client_token = set_text (gin.header header_key_client_token request) args.client_token;
  })

  -- The route of `TunnelConnect`, up to `Upgrade`.
  unfoldable pub connect_route : Services → Time → R → M Text
  unfolding pre_process bind bind_header
  connect_route svc now =
      pre_process bind bind_header (some validate)
        λ args. do found ← check args now; register svc args now found.0 found.1
