-- ===== src/Server/Api/Connect/Checks.antt =====
-- Who is let in: the checks of `TunnelConnect` against a list of conditions.
use securetunnel.Base.{
  ◌≡◌, ◌≢◌, ◌↔◌, ◌<◌, ◌⊎◌, inl, inr, true, some, arith, text_eqb, text_eqb_iff, text_eq,
  Option-cases, Bool-cases,
}
use securetunnel.Aws.{other_mode}
use securetunnel.Server.Id.{tunnel_id}
use securetunnel.Server.Tunnel.{Tunnel, Peer, PeerRef, Time, peer, token, is_open}
use securetunnel.Server.Store.{get_tunnel}
use securetunnel.Server.World.{
  World, Reason, go, refuse, tunnel_is_closed, token_for_other_mode, invalid_client_token,
  get_elem?, status_bad_request,
}
use securetunnel.Server.Api.Connect.{TunnelConnectArgs, token_reason, check}

-- The conditions, with the tunnel, the pointer and the peer that they are about.
pub record Admissible (args : TunnelConnectArgs) (now : Time) (w : World) (t : Tunnel)
    (ref : PeerRef) : Type 0 where
  pub found : Peer
  pub stored : get_tunnel (tunnel_id args.access_token) w.store ≡ some t
  pub has_token : args.access_token ≡ token t args.mode
  pub pointer : peer t args.mode ≡ some ref
  pub pointed : get_elem? w.peers ref ≡ some found
  pub same_client : (found.num_of_conn ≡ 0) ⊎ (found.client_token ≡ args.client_token)
  pub is_opened : is_open t now ≡ true

-- The checks change nothing, whatever they answer.
pub check_keeps : (args : TunnelConnectArgs) (now : Time) (w : World) → (check args now w).1 ≡ w
unfolding check
check_keeps args now w = ground arith

-- The checks of `TunnelConnect` answer a request that meets all the conditions with the stored
-- tunnel and the peer, and change nothing.
pub check-Admissible :
    (args : TunnelConnectArgs) (now : Time) (w : World) (t : Tunnel) (ref : PeerRef)
    → Admissible args now w t ref
    → check args now w ≡ (go (t, ref), w)
unfolding check
check-Admissible args now w t ref a = ground (
  arith,
  text_eqb_iff args.access_token (token t args.mode),
  text_eqb_iff a.found.client_token args.client_token,
)

-- A request that passes the checks of `TunnelConnect` carries a token whose tunnel is stored, the
-- token is the tunnel's for the request's mode, the client token is that of the peer if the peer
-- has connected before, and the tunnel is open.
pub Admissible-check :
    (args : TunnelConnectArgs) (now : Time) (w w' : World) (t : Tunnel) (ref : PeerRef)
    → check args now w ≡ (go (t, ref), w')
    → Admissible args now w t ref
unfolding check
Admissible-check args now w w' t ref e = elim (Option-cases (get_elem? w.peers ref)) [
  | inl q ↦ absurd (ground arith)
  | inr (p, q) ↦ record {
    found = p;
    stored = ground arith;
    has_token = ground (arith, text_eqb_iff args.access_token (token t args.mode));
    pointer = ground arith;
    pointed = q;
    same_client = elim (Bool-cases (text_eqb p.client_token args.client_token)) [
      | inl same ↦ inr ((text_eqb_iff p.client_token args.client_token).0 same)
      | inr differs ↦ inl (ground arith)
    ];
    is_opened = ground arith;
  }
]

-- If the token's tunnel is stored and the token is not that of the request's mode, the request is
-- refused, and the reason says so exactly if it is the token of the other mode.
pub check-wrong_token :
    (args : TunnelConnectArgs) (now : Time) (w : World) (t : Tunnel)
    → get_tunnel (tunnel_id args.access_token) w.store ≡ some t
    → args.access_token ≢ token t args.mode
    → (why : Reason) × (check args now w ≡ (refuse status_bad_request why, w))
      × ((why ≡ token_for_other_mode) ↔ (args.access_token ≡ token t (other_mode args.mode)))
unfolding check
check-wrong_token args now w t q ne = (
  token_reason t args,
  ground (arith, text_eqb_iff args.access_token (token t args.mode)),
  (
    ground (arith, text_eqb_iff args.access_token (token t (other_mode args.mode))),
    ground (arith, text_eqb_iff args.access_token (token t (other_mode args.mode))),
  ),
)

-- A tunnel in use is refused to a client with another client token.
pub check-other_client :
    (args : TunnelConnectArgs) (now : Time) (w : World) (t : Tunnel) (ref : PeerRef) (p : Peer)
    → get_tunnel (tunnel_id args.access_token) w.store ≡ some t
    → args.access_token ≡ token t args.mode
    → peer t args.mode ≡ some ref
    → get_elem? w.peers ref ≡ some p
    → 0 < p.num_of_conn
    → p.client_token ≢ args.client_token
    → check args now w ≡ (refuse status_bad_request invalid_client_token, w)
unfolding check
check-other_client args now w t ref p q has e f used other = ground (
  arith,
  text_eqb_iff args.access_token (token t args.mode),
  text_eqb_iff p.client_token args.client_token,
)

-- With everything else in order, a closed tunnel is refused as closed.
pub check-closed :
    (args : TunnelConnectArgs) (now : Time) (w : World) (t : Tunnel) (ref : PeerRef) (p : Peer)
    → get_tunnel (tunnel_id args.access_token) w.store ≡ some t
    → args.access_token ≡ token t args.mode
    → peer t args.mode ≡ some ref
    → get_elem? w.peers ref ≡ some p
    → (p.num_of_conn ≡ 0) ⊎ (p.client_token ≡ args.client_token)
    → t.lifetime_at < now
    → check args now w ≡ (refuse status_bad_request tunnel_is_closed, w)
unfolding check is_open
check-closed args now w t ref p q has e f client closed = ground (
  arith,
  text_eqb_iff args.access_token (token t args.mode),
  text_eqb_iff p.client_token args.client_token,
)
