-- ===== src/Aws/Const.antt =====
-- aws/const.go.
use securetunnel.Base.{ℕ, Text, codes, List, [], ◌∷◌}

abbrev pub status_reason_tunnel_closed : Text
status_reason_tunnel_closed = codes "Tunnel is closed"

abbrev pub sub_protocol_v2 : Text
sub_protocol_v2 = codes "aws.iot.securetunneling-2.0"

abbrev pub size_of_message_size : ℕ
size_of_message_size = 2

abbrev pub sub_protocols : List Text
sub_protocols = sub_protocol_v2 ∷ []

abbrev pub query_key_proxy_mode : Text
query_key_proxy_mode = codes "local-proxy-mode"

abbrev pub header_key_access_token : Text
header_key_access_token = codes "access-token"

abbrev pub header_key_client_token : Text
header_key_client_token = codes "client-token"

abbrev pub max_web_socket_frame_size : ℕ
max_web_socket_frame_size = 131_076
