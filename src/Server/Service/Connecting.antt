-- ===== src/Server/Service/Connecting.antt =====
-- The three steps of `TunnelConnect` keep the store well formed, and do not panic.
use securetunnel.Base.{
  ℕ, ◌+◌, ◌≡◌, refl, sym, ap, subst, ◌∙◌, ◌⊎◌, inl, inr, List, not, ◌||◌, none, some, arith, Text,
  text_eq, ◌==◌, ltb, Option-cases,
}
use securetunnel.Base.Strings.{Lacks}
use securetunnel.Aws.{Mode, source, destination, other}
use securetunnel.Server.Id.{tunnel_id, new_connection_id}
use securetunnel.Server.Id.Token.{tunnel_id-new_connection_id}
use securetunnel.Server.Tunnel.{
  Tunnel, Connection, Peer, PeerRef, Time, peer, token, is_open, disconnected,
}
use securetunnel.Server.Store.{
  MemoryStore, get_tunnel, get_connection, add_connection, update_connection, update_tunnel,
}
use securetunnel.Server.Store.Table.{Result, ok, err}
use securetunnel.Server.World.{Services, World, go, set}
use securetunnel.Server.Api.Connect.{
  TunnelConnectArgs, validate, check, new_connection, assign_peer, register, on_disconnect,
}
use securetunnel.Server.Api.Connect.Checks.{Admissible-check}
use securetunnel.Server.Service.{Pending}
use securetunnel.Server.Service.Contract.{
  Ensures, Ensures-bind, Ensures-guard, Ensures-or_refuse, Ensures-commit, Ensures-generated,
}
use securetunnel.Server.Service.WellFormed.{
  Points, GoodTunnel, GoodConnection, WellFormed, Keeps, Keeps-set, GoodTunnel-Keeps,
  WellFormed-Keeps, get_tunnel-Good, get_connection-Good, update_tunnel-WellFormed,
  add_connection-WellFormed, update_connection-WellFormed,
}
use securetunnel.Server.Service.Handlers.{After, After-refl, Points-deref}

-- What holds of a request that passed the checks, also later, when the heap has grown.
pub record GoodPending (peers : List Peer) (p : Pending) : Type 0 where
  pub tunnel : GoodTunnel peers p.tunnel.id p.tunnel
  pub key : tunnel_id p.args.access_token ≡ p.tunnel.id
  pub found : Points peers (some p.peer_ref)

pub GoodPending-Keeps :
    {ps qs : List Peer} → Keeps ps qs → (p : Pending) → GoodPending ps p → GoodPending qs p
GoodPending-Keeps kept p g = record {
  tunnel = GoodTunnel-Keeps kept p.tunnel.id p.tunnel g.tunnel;
  key = g.key;
  found = kept (some p.peer_ref) g.found;
}

named_lem :
    (args : TunnelConnectArgs)
    → validate args ≡ none
    → (args.mode ≡ source) ⊎ (args.mode ≡ destination)
unfolding validate
named_lem args h = of_mode args.mode refl
  where
    of_mode : (m : Mode) → args.mode ≡ m → (args.mode ≡ source) ⊎ (args.mode ≡ destination)
    of_mode source e = inl e
    of_mode destination e = inr e
    of_mode (other s) e = absurd (ground arith)

peer-Points :
    (w : World) (k : Text) (t : Tunnel) (m : Mode)
    → (m ≡ source) ⊎ (m ≡ destination)
    → GoodTunnel w.peers k t
    → Points w.peers (peer t m)
unfolding peer
peer-Points w k t m (inl e) g = rw e g.source_at
peer-Points w k t m (inr e) g = rw e g.destination_at

-- The checks of a request that passed `Validate` do not panic, and change nothing.
pub check-Ensures :
    (args : TunnelConnectArgs) (now : Time) (w : World)
    → WellFormed w
    → validate args ≡ none
    → Ensures (λ _ w'. w' ≡ w) (λ w'. w' ≡ w) (check args now w)
unfolding check
check-Ensures args now w f valid =
    Ensures-or_refuse (λ _ w'. w' ≡ w) (λ w'. w' ≡ w) _ _ w refl
      (get_tunnel (tunnel_id args.access_token) w.store) _
      λ t found.
        let g = get_tunnel-Good w f (tunnel_id args.access_token) t found in
        let at = peer-Points w (tunnel_id args.access_token) t args.mode (named_lem args valid) g in
        let (x, is) = Points-deref (peer t args.mode) w at in
        Ensures-guard (λ _ w'. w' ≡ w) (λ w'. w' ≡ w) _ _ w refl
          (args.access_token == token t args.mode) _
          λ same. rw is (
            Ensures-guard (λ _ w'. w' ≡ w) (λ w'. w' ≡ w) _ _ w refl
              (not (ltb 0 x.1.num_of_conn) || x.1.client_token == args.client_token) _
              λ client.
                Ensures-guard (λ _ w'. w' ≡ w) (λ w'. w' ≡ w) _ _ w refl (is_open t now) _
                  λ opened. refl)

-- A request that passes the checks has read a stored tunnel and one of its two peers.
pub check-GoodPending :
    (args : TunnelConnectArgs) (now : Time) (w w' : World) (t : Tunnel) (ref : PeerRef)
    → WellFormed w
    → check args now w ≡ (go (t, ref), w')
    → GoodPending w.peers (record { args = args; tunnel = t; peer_ref = ref })
check-GoodPending args now w w' t ref f e =
    let a = Admissible-check args now w w' t ref e in
    let g = get_tunnel-Good w f (tunnel_id args.access_token) t a.stored in
    record {
      tunnel = subst (λ k. GoodTunnel w.peers k t) (sym g.own_key) g;
      key = sym g.own_key;
      found = (ref, a.found, refl, a.pointed);
    }

assign-Ensures :
    (ref : PeerRef) (id : Text) (args : TunnelConnectArgs) (w v : World)
    → Points v.peers (some ref)
    → After w v
    → Ensures (λ _ w'. After w w') (After w) (assign_peer ref id args v)
assign-Ensures ref id args w v at (f, kept) =
    let (x, is) = Points-deref (some ref) v at in
    let q : Peer = record {
      connection_id = id;
      client_token = args.client_token;
      num_of_conn = x.1.num_of_conn + 1;
    } in
    let assigned : Keeps v.peers (set v.peers x.0 q) = Keeps-set v.peers x.0 q in
    rw is (WellFormed-Keeps v (set v.peers x.0 q) v.draw assigned f, λ o h. assigned o (kept o h))

revised-Good :
    (peers : List Peer) (t : Tunnel) (rev : ℕ)
    → GoodTunnel peers t.id t
    → GoodTunnel peers t.id (record t { rev = rev })
revised-Good peers t rev g = record {
  own_key = refl;
  no_separator = g.no_separator;
  source_id = g.source_id;
  destination_id = g.destination_id;
  source_at = g.source_at;
  destination_at = g.destination_at;
}

-- The registration of a request that passed the checks, at whatever time.
pub register-Ensures :
    (svc : Services) (p : Pending) (now : Time) (w : World)
    → WellFormed w
    → GoodPending w.peers p
    → Ensures (λ _ w'. After w w') (After w) (register svc p.args now p.tunnel p.peer_ref w)
unfolding register
register-Ensures svc p now w f g =
    Ensures-generated (λ _ w'. After w w') (After w) _ _ w (After-refl w f)
      (new_connection_id svc.id_token_gen (tunnel_id p.args.access_token) svc.draws w.draw) _
      λ id n drawn.
        let c : Connection = new_connection svc p.args id now in
        let w1 : World = record w { draw = n } in
        let f1 : WellFormed w1 = WellFormed-Keeps w w.peers n (λ o h. h) f in
        let lacks : Lacks b'_' (tunnel_id p.args.access_token) =
          subst (λ x. Lacks b'_' x) (sym g.key) g.tunnel.no_separator in
        let own : tunnel_id id ≡ tunnel_id p.args.access_token =
          tunnel_id-new_connection_id svc.id_token_gen (tunnel_id p.args.access_token) svc.draws
            w.draw id n lacks drawn in
        Ensures-commit (λ _ w'. After w w') (After w) _ _ w1 (f1, λ o h. h)
          (add_connection c w.store) _
          λ s added.
            let w2 : World = record w1 { store = s } in
            let f2 : WellFormed w2 =
              add_connection-WellFormed w1 f1 c s (record { own_key = refl; own_tunnel = own })
                added in
            Ensures-bind (λ _ w'. After w w') (λ _ w'. After w w') (After w)
              (assign_peer p.peer_ref id p.args w2) _
              (assign-Ensures p.peer_ref id p.args w w2 g.found (f2, λ o h. h))
              λ _ w3 after.
                let good = GoodTunnel-Keeps after.1 p.tunnel.id p.tunnel g.tunnel in
                Ensures-commit (λ _ w'. After w w') (After w) _ _ w3 after
                  (update_tunnel p.tunnel w3.store) _
                  λ s3 updated. (
                    update_tunnel-WellFormed w3 after.0 p.tunnel s3
                        (λ rev. revised-Good w3.peers p.tunnel rev good) updated,
                    after.1,
                  )

disconnected-Good :
    (id : Text) (c : Connection) (now : Time) (rev : ℕ)
    → GoodConnection id c
    → GoodConnection c.id (record c { status = disconnected; last_updated_at = now; rev = rev })
disconnected-Good id c now rev g = record {
  own_key = refl;
  own_tunnel = ap tunnel_id g.own_key ∙ g.own_tunnel;
}

updated-After :
    (w : World)
    → WellFormed w
    → (c : Connection) (r : Result MemoryStore) → update_connection c w.store ≡ r
    → ((rev : ℕ) → GoodConnection c.id (record c { rev = rev }))
    → After w (elim r as (λ _. World) [ ok s ↦ record w { store = s } | err x ↦ w ])
updated-After w f c (ok s) e g = (update_connection-WellFormed w f c s g e, λ o h. h)
updated-After w f c (err x) e g = After-refl w f

-- The deferred function, for whatever connection.
pub on_disconnect-After :
    (id : Text) (now : Time) (w : World) → WellFormed w → After w (on_disconnect id now w)
unfolding on_disconnect
on_disconnect-After id now w f = elim (Option-cases (get_connection id w.store)) [
  | inl e ↦ rw (e, on_disconnect) (After-refl w f)
  | inr (c, e) ↦
      let g = get_connection-Good w f id c e in
      rw (e, on_disconnect)
        (updated-After w f (record c { status = disconnected; last_updated_at = now })
          (update_connection (record c { status = disconnected; last_updated_at = now }) w.store)
          refl (λ rev. disconnected-Good id c now rev g))
]
