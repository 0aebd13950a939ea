-- ===== src/Cmd/Options.antt =====
-- cmd/mitra_localproxy/cli.go and main.go, up to `NewLocalProxy`. What pflag reads of the command
-- line, `url.Parse` and `strconv.ParseBool` are arguments.
use securetunnel.Base.{
  ℕ, ◌*◌, Bool, false, not, ◌&&◌, List, Option, none, some, Text, text_eq, codes, if◌then◌else◌,
}
use securetunnel.Aws.{Mode, source, destination}
use securetunnel.Proxy.Config.{ServiceConfig, parse_service_config, ok, err}
use securetunnel.Proxy.Config
use securetunnel.Proxy.Listener.{LocalProxyOptions, OptionError, validate, is_empty}
use securetunnel.Cmd.Logger.{Logs, LoggerError, setup_logger}

pub record Arguments : Type 0 where
  pub endpoint : Text
  pub source_services : Text
  pub destination_services : Text
  pub token : Text
  pub skip_ssl_verify : Bool
  pub log_level : Text

-- The flags that stand on the command line, with their values.
pub record Flags : Type 0 where
  pub endpoint : Option Text
  pub source_services : Option Text
  pub destination_services : Option Text
  pub token : Option Text
  pub skip_ssl_verify : Option Bool
  pub log_level : Option Text

-- A flag keeps its default if it does not stand on the command line.
abbrev pub get_or {ℓ} : {A : Type ℓ} → A → Option A → A
get_or default none = default
get_or default (some a) = a

-- `env` is `os.Getenv`, empty if a variable is not set.
unfoldable pub setup_cli : (Text → Text) → (Text → Option Bool) → Flags → Arguments
setup_cli env parse_bool flags = record {
  endpoint = get_or (env (codes "MITRA_LOCALPROXY_ENDPOINT")) flags.endpoint;
  source_services = get_or (env (codes "MITRA_LOCALPROXY_SOURCE_SERVICES")) flags.source_services;
  destination_services =
      get_or (env (codes "MITRA_LOCALPROXY_DESTINATION_SERVICES")) flags.destination_services;
  token = get_or (env (codes "MITRA_LOCALPROXY_TOKEN")) flags.token;
  skip_ssl_verify =
      get_or (get_or false (parse_bool (env (codes "MITRA_LOCALPROXY_SKIP_SSL_VERIFY"))))
        flags.skip_ssl_verify;
  log_level = get_or (codes "info") flags.log_level;
}

pub data CreateError : Type 0 where
  endpoint_is_required endpoint_is_invalid token_is_required specify_only_one : CreateError
  invalid_services : Config.Error → CreateError

pub data Created {ℓ} (A : Type ℓ) : Type ℓ where
  created : A → Created A
  rejected : CreateError → Created A

infixl 5 ◌>>=◌
abbrev pub ◌>>=◌ {ℓ κ} : {A : Type ℓ} {B : Type κ} → Created A → (A → Created B) → Created B
created a >>= f = f a
rejected e >>= f = rejected e

-- Nanoseconds.
abbrev pub seconds : ℕ → ℕ
seconds n = n * 1_000_000_000

-- The scheme of the endpoint's url.
unfoldable pub endpoint_of : (Text → Option Text) → Text → Created Text
endpoint_of parse_url endpoint =
    if is_empty endpoint then rejected endpoint_is_required else elim (parse_url endpoint) [
      | none ↦ rejected endpoint_is_invalid
      | some scheme ↦ created scheme
    ]

unfoldable pub token_of : Text → Created Text
token_of token = if is_empty token then rejected token_is_required else created token

abbrev pub in_mode : Mode → Config.Result (List ServiceConfig) → Created (Mode × List ServiceConfig)
in_mode mode (ok configs) = created (mode, configs)
in_mode mode (err e) = rejected (invalid_services e)

-- The mode, which is that of the services given, and the services.
unfoldable pub services_of : Text → Text → Created (Mode × List ServiceConfig)
services_of source_services destination_services =
    if is_empty source_services && is_empty destination_services
    then rejected specify_only_one
    else if not (is_empty source_services) && not (is_empty destination_services)
    then rejected specify_only_one
    else if not (is_empty source_services)
    then in_mode source (parse_service_config source_services)
    else in_mode destination (parse_service_config destination_services)

-- The options, with the constants of `main`.
unfoldable pub options_of : Arguments → Text → Text → Mode × List ServiceConfig → LocalProxyOptions
options_of args scheme token services = record {
  mode = services.0;
  service_configs = services.1;
  endpoint_scheme = some scheme;
  token = token;
  insecure_skip_verify = some args.skip_ssl_verify;
  endpoint_dial_timeout = seconds 10;
  local_dial_timeout = seconds 5;
  endpoint_reconnect_interval = seconds 5;
  ping_interval = seconds 30;
}

unfoldable pub create_proxy_options : (Text → Option Text) → Arguments → Created LocalProxyOptions
create_proxy_options parse_url args = do
  scheme ← endpoint_of parse_url args.endpoint
  token ← token_of args.token
  services ← services_of args.source_services args.destination_services
  created (options_of args scheme token services)

-- `main` up to `NewLocalProxy`: the process exits with an error, or has options.
pub data Startup : Type 0 where
  exit_logger : LoggerError → Startup
  exit_create : CreateError → Startup
  exit_options : OptionError → Startup
  starts : LocalProxyOptions → Startup

abbrev pub validated : Created LocalProxyOptions → Startup
validated (rejected e) = exit_create e
validated (created options) = elim (validate options) [
  | none ↦ starts options
  | some e ↦ exit_options e
]

unfoldable pub start_up : (ℕ → ℕ) → Bool → (Text → Option Text) → Arguments → Logs → Startup
start_up to_lower build_ok parse_url args logs =
    elim (setup_logger to_lower build_ok args.log_level logs).0 [
      | some e ↦ exit_logger e
      | none ↦ validated (create_proxy_options parse_url args)
    ]
