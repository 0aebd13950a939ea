-- ===== src/Tests/Commands.antt =====
-- mitra_localproxy started on a command line.
use securetunnel.Base.{
  ℕ, ◌≡◌, refl, true, false, [], ◌∷◌, Option, none, some, Text, text_eq, text_eqb, codes,
}
use securetunnel.Base.Dict.{lookup}
use securetunnel.Base.Strings.{split, split_from, is_prefix, trim_space, trim_left, is_space}
use securetunnel.Aws.{source}
use securetunnel.Proxy.Config.{
  parse_service_config, parse_services, parse_service, service_parts, parse_url, url_parts,
  parse_address, address_parts, check_port, parse_uint16, digits_value,
}
use securetunnel.Proxy.Listener.{LocalProxyOptions, validate, is_valid_scheme}
use securetunnel.Cmd.Logger.{silent, info, warn, is_on, setup_logger, replace_logs, setup_logger-on}
use securetunnel.Cmd.Options.{
  Arguments, Flags, setup_cli, rejected, specify_only_one, create_proxy_options, endpoint_of,
  token_of, services_of, options_of, start_up, starts,
}
use securetunnel.Cmd.Modes.{OneMode}
use securetunnel.Cmd.Accepted.{start_up-starts, both_given}

-- `unicode.ToLower` on small letters.
abbrev to_lower : ℕ → ℕ
to_lower c = c

setup_logger-on_example :
    ((setup_logger to_lower true (codes "warn") silent).0 ≡ none)
    × (is_on info (setup_logger to_lower true (codes "warn") silent).1 ≡ false)
setup_logger-on_example = setup_logger-on to_lower (codes "warn") warn info silent refl

abbrev parse_url_with : Text → Option Text
parse_url_with url = some (codes "wss")

abbrev arguments : Arguments
arguments = record {
  endpoint = codes "wss://h";
  source_services = codes "h=22";
  destination_services = codes "";
  token = codes "t";
  skip_ssl_verify = false;
  log_level = codes "info";
}

abbrev options : LocalProxyOptions
options = record {
  mode = source;
  service_configs =
      record { service_id = codes "h"; network = codes "tcp"; address = codes "localhost:22" } ∷ [];
  endpoint_scheme = some (codes "wss");
  token = codes "t";
  insecure_skip_verify = some false;
  endpoint_dial_timeout = 10_000_000_000;
  local_dial_timeout = 5_000_000_000;
  endpoint_reconnect_interval = 5_000_000_000;
  ping_interval = 30_000_000_000;
}

started : start_up to_lower true parse_url_with arguments silent ≡ starts options
unfolding start_up setup_logger replace_logs lookup text_eqb create_proxy_options endpoint_of
    token_of services_of options_of validate split split_from is_prefix trim_space trim_left
    is_space parse_service_config parse_services parse_service service_parts parse_url url_parts
    parse_address address_parts check_port parse_uint16 digits_value
started = refl

start_up-starts_example :
    ((setup_logger to_lower true (codes "info") silent).0 ≡ none)
    × OneMode arguments source options.service_configs
    × (codes "t" ≡ codes "t")
    × ((scheme : Text) × (parse_url_with (codes "wss://h") ≡ some scheme)
        × (is_valid_scheme scheme ≡ true))
start_up-starts_example =
    start_up-starts to_lower true parse_url_with arguments silent options started

-- The environment names services of one mode, and the command line those of the other.
abbrev env : Text → Text
env name = codes "22"

abbrev flags : Flags
flags = record {
  endpoint = some (codes "wss://h");
  source_services = some (codes "10022");
  destination_services = none;
  token = none;
  skip_ssl_verify = none;
  log_level = none;
}

both_given_example :
    create_proxy_options parse_url_with (setup_cli env (λ text. none) flags)
    ≡ rejected specify_only_one
unfolding setup_cli
both_given_example =
    both_given parse_url_with (setup_cli env (λ text. none) flags) (codes "wss") refl refl refl refl
