-- ===== src/Server/Routes.antt =====
-- The routes of misc/server/cmd/mitra_tunneld/main.go and the filter of misc/server/services_auth.go.
-- What `Authorizer.HasAuth` answers is an argument. Which route a request takes is up to gin.
use securetunnel.Base.{
  ◌≡◌, refl, subst, ◌⊎◌, All, All-without, inl, inr, Bool, true, false, not, ◌++◌, List, [], ◌∷◌,
  Option, none, some, Text, text_eq, codes, if◌then◌else◌,
}
use securetunnel.Server.World.{
  Services, World, M, ◌>>◌, guard, unauthorized, refuse, status_unauthorized,
}

pub data Endpoint : Type 0 where
  login logout open_tunnel list_tunnels describe_tunnel close_tunnel : Endpoint
  debug_list_tunnels debug_send_to_peer tunnel_connect : Endpoint

pub record Route : Type 0 where
  pub method : Text
  pub path : Text
  pub endpoint : Endpoint
  pub need_auth : Bool

abbrev pub route_to : Text → Text → Endpoint → Bool → Route
route_to method path endpoint need_auth = record {
  method = method;
  path = path;
  endpoint = endpoint;
  need_auth = need_auth;
}

abbrev debug_routes : Bool → List Route
debug_routes true =
    route_to (codes "GET") (codes "/debug/tunnel/list") debug_list_tunnels true
    ∷ route_to (codes "POST") (codes "/debug/tunnel/send") debug_send_to_peer true
    ∷ []
debug_routes false = []

-- `needAuthGroup` is the group with the filter.
abbrev pub routes : Bool → List Route
routes debug_mode =
    (route_to (codes "POST") (codes "/login") login false
      ∷ route_to (codes "POST") (codes "/logout") logout true
      ∷ route_to (codes "POST") (codes "/tunnel/open") open_tunnel true
      ∷ route_to (codes "GET") (codes "/tunnel/list") list_tunnels true
      ∷ route_to (codes "GET") (codes "/tunnel/describe") describe_tunnel true
      ∷ route_to (codes "PUT") (codes "/tunnel/close") close_tunnel true
      ∷ debug_routes debug_mode)
    ++ (route_to (codes "GET") (codes "/tunnel") tunnel_connect false ∷ [])

unfoldable pub auth_filter : Services → Option Text → M (Unit {0})
auth_filter svc auth_error w = elim auth_error [
  | none ↦ guard true status_unauthorized unauthorized w
  | some message ↦ guard (not svc.need_auth) status_unauthorized unauthorized w
]

-- A route's handler, behind the filter if it stands in the group.
unfoldable pub serve : {A : Type 0} → Services → Option Text → Route → M A → M A
unfolding auth_filter
serve svc auth_error r handler =
    if r.need_auth then (auth_filter svc auth_error >> handler) else handler

-- The routes that a request reaches without the filter.
abbrev pub IsPublic : Route → Type 0
IsPublic r = (r.endpoint ≡ login) ⊎ (r.endpoint ≡ tunnel_connect)

routes-guarded : (b : Bool) → All (λ r. (r.need_auth ≡ true) ⊎ IsPublic r) (routes b)
routes-guarded true = (
  inr (inl refl),
  (
    inl refl,
    (inl refl, (inl refl, (inl refl, (inl refl, (inl refl, (inl refl, (inr (inr refl), tt))))))),
  ),
)
routes-guarded false = (
  inr (inl refl),
  (inl refl, (inl refl, (inl refl, (inl refl, (inl refl, (inr (inr refl), tt)))))),
)

-- If authentication is needed and `HasAuth` returns an error, then every route but those of the
-- login and of `TunnelConnect` answers 401 and changes nothing, whatever its handler is.
pub serve-unauthorized :
    {A : Type 0} (svc : Services) (message : Text) (debug_mode : Bool) (before rest : List Route)
    (r : Route) (handler : M A) (w : World)
    → svc.need_auth ≡ true
    → routes debug_mode ≡ before ++ (r ∷ rest)
    → IsPublic r
      ⊎ (serve svc (some message) r handler w ≡ (refuse status_unauthorized unauthorized, w))
unfolding serve auth_filter
serve-unauthorized svc message debug_mode before rest r handler w need listed =
    let guarded =
      subst (λ rs. All (λ q. (q.need_auth ≡ true) ⊎ IsPublic q) rs) listed
        (routes-guarded debug_mode) in
    elim (All-without (λ q. (q.need_auth ≡ true) ⊎ IsPublic q) before rest r guarded).0 [
      | inr public ↦ inl public
      | inl needs ↦ inr (rw (needs, serve, need) refl)
    ]
