-- ===== src/Tests/Services.antt =====
-- Requests to misc/server, from an empty store on.
use native.Mathlib.Omega.{arith}
use securetunnel.Base.{
  ◌≡◌, ◌≢◌, refl, ◌⊎◌, List, [], ◌∷◌, true, false, some, All, text_eq, codes, map,
}
use securetunnel.Base.Dict.{lookup, insert}
use securetunnel.Aws.{destination}
use securetunnel.Server.Id.{new_id_tokens, new_tunnel_id, new_token, generate_id, draw_char}
use securetunnel.Server.Store.{get_tunnels, add_tunnel}
use securetunnel.Server.Store.Table.{add, list}
use securetunnel.Server.World.{Services, M, go, refuse, status_unauthorized, unauthorized}
use securetunnel.Server.Api.Open.{open_tunnel, new_tunnel}
use securetunnel.Server.Api.Connect.{TunnelConnectArgs}
use securetunnel.Server.Api.Debug.{debug_list_tunnels}
use securetunnel.Server.Routes.{
  Route, route_to as to, login, logout, open_tunnel as open_route, list_tunnels, describe_tunnel,
  close_tunnel, tunnel_connect, serve, IsPublic, serve-unauthorized,
}
use securetunnel.Server.Service.{State, start, Reach, starts, later, opens, connect_request, panics}
use securetunnel.Server.Service.Safety.{Sound, Reach-Sound, Reach-panics}
use securetunnel.Server.Service.Listing.{connections_of, debug_list_tunnels-connections}
use securetunnel.Tests.Tunnels.{services, request}

abbrev opened : State
opened = record start { world = (open_tunnel services request 1000 start.world).1 }

Reach-opened : Reach services opened
Reach-opened = later starts (opens request 1000)

Reach-Sound_example : Sound opened
Reach-Sound_example = Reach-Sound services opened Reach-opened

abbrev connect_args : TunnelConnectArgs
connect_args = record {
  mode = destination;
  subprotocols = codes "aws.iot.securetunneling-2.0" ∷ [];
  access_token = codes "01_45";
  client_token = codes "c1";
}

Reach-panics_example : panics services (connect_request connect_args) 2000 opened ≡ false
Reach-panics_example = Reach-panics services opened (connect_request connect_args) 2000 Reach-opened

has_id : codes "01" ≢ []
has_id e = absurd (ground arith)

all_have_ids : All (λ t. t.id ≢ []) (get_tunnels opened.world.store)
unfolding open_tunnel new_id_tokens new_tunnel_id new_token generate_id draw_char add_tunnel add
    lookup insert get_tunnels list new_tunnel
all_have_ids = (has_id, tt)

debug_list_tunnels-connections_example :
    debug_list_tunnels (λ before xs. xs) opened.world
    ≡ map
        (λ t. record {
          tunnel = t;
          connections = connections_of t.id opened.world.store.connection_table;
        })
        (get_tunnels opened.world.store)
debug_list_tunnels-connections_example =
    debug_list_tunnels-connections services opened (λ before xs. xs) Reach-opened all_have_ids

abbrev guarded_services : Services
guarded_services = record services { need_auth = true }

abbrev list_route : Route
list_route = record {
  method = codes "GET";
  path = codes "/tunnel/list";
  endpoint = list_tunnels;
  need_auth = true;
}

-- The routes before it and behind it.
abbrev earlier : List Route
earlier =
    to (codes "POST") (codes "/login") login false
    ∷ to (codes "POST") (codes "/logout") logout true
    ∷ to (codes "POST") (codes "/tunnel/open") open_route true
    ∷ []

abbrev later_routes : List Route
later_routes =
    to (codes "GET") (codes "/tunnel/describe") describe_tunnel true
    ∷ to (codes "PUT") (codes "/tunnel/close") close_tunnel true
    ∷ to (codes "GET") (codes "/tunnel") tunnel_connect false
    ∷ []

abbrev empty_answer : M (Unit {0})
empty_answer w = (go tt, w)

serve-unauthorized_example :
    IsPublic list_route
    ⊎ (serve guarded_services (some (codes "no token")) list_route empty_answer opened.world
        ≡ (refuse status_unauthorized unauthorized, opened.world))
serve-unauthorized_example =
    serve-unauthorized guarded_services (codes "no token") false earlier later_routes list_route
      empty_answer opened.world refl refl
