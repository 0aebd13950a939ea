-- ===== src/Server/Service/Handlers.antt =====
-- Each handler of misc/server keeps the store well formed, on every branch, and none panics.
use securetunnel.Base.{
  ℕ, ◌+◌, ◌≡◌, refl, sym, ap, subst, ◌∙◌, inl, inr, List, [], ◌∷◌, ◌++◌, Bool, true, false, Option,
  arith, Text, text_eq, length, Option-cases,
}
use securetunnel.Base.Strings.{Lacks}
use securetunnel.Server.Id.{IdTokens, tunnel_id, new_id_tokens}
use securetunnel.Server.Id.Token.{tunnel_id-new_id_tokens}
use securetunnel.Server.Tunnel.{Tunnel, Peer, PeerRef, Time}
use securetunnel.Server.Store.{get_tunnel, add_tunnel, update_tunnel}
use securetunnel.Server.World.{Services, World, go, get_elem?, deref}
use securetunnel.Server.Api.Open.{
  OpenTunnelRequest, CloseTunnelRequest, open_tunnel, close_found, close_tunnel, describe_tunnel,
  new_tunnel, notify_or_delete, delete_if, new_peer,
}
use securetunnel.Server.Api.Open.Lifetime.{get_elem?-append}
use securetunnel.Server.Service.Contract.{
  Ensures, Ensures-bind, Ensures-or_refuse, Ensures-commit, Ensures-generated,
}
use securetunnel.Server.Service.WellFormed.{
  Points, GoodTunnel, WellFormed, Keeps, Keeps-append, WellFormed-Keeps, get_tunnel-Good,
  add_tunnel-WellFormed, update_tunnel-WellFormed, delete_tunnel-WellFormed,
}

-- The world is well formed, and every pointer into an earlier heap still points.
abbrev pub After : World → World → Type 0
After v w = WellFormed w × Keeps v.peers w.peers

pub After-refl : (w : World) → WellFormed w → After w w
After-refl w f = (f, λ o h. h)

new_tunnel-Good :
    (args : OpenTunnelRequest) (ids : IdTokens) (now : Time) (peers : List Peer)
    → Lacks b'_' ids.tunnel_id
    → tunnel_id ids.source_token ≡ ids.tunnel_id
    → tunnel_id ids.destination_token ≡ ids.tunnel_id
    → GoodTunnel
        (peers ++ (new_peer ∷ new_peer ∷ []))
        ids.tunnel_id
        (new_tunnel args ids now (length peers))
unfolding new_tunnel
new_tunnel-Good args ids now peers lacks s d =
    let (first, second) = get_elem?-append peers new_peer new_peer in
    record {
      own_key = refl;
      no_separator = lacks;
      source_id = s;
      destination_id = d;
      source_at = (length peers, new_peer, refl, first);
      destination_at = (
        length peers + 1,
        new_peer,
        refl,
        ap (get_elem? (peers ++ (new_peer ∷ new_peer ∷ []))) (omega arith) ∙ second,
      );
    }

module _ (svc : Services) (args : OpenTunnelRequest) (now : Time) (w : World)
    (f : WellFormed w) where
  notify-Ensures :
      (t : Tunnel) (v : World)
      → After w v
      → Ensures (λ _ w'. After w w') (After w) (notify_or_delete svc t v)
  notify-Ensures t v (g, kept) = elim (Option-cases (svc.notify t)) [
    | inl e ↦ rw (e, notify_or_delete) (g, kept)
    | inr (why, e) ↦ rw (e, notify_or_delete) (delete_tunnel-WellFormed v g t.id, kept)
  ]

  pub open_tunnel-Ensures : Ensures (λ _ w'. After w w') (After w) (open_tunnel svc args now w)
  unfolding open_tunnel
  open_tunnel-Ensures =
      Ensures-generated (λ _ w'. After w w') (After w) _ _ w (After-refl w f)
        (new_id_tokens svc.id_token_gen svc.draws w.draw) _
        λ ids n drawn.
          let (len, lacks, source_id, destination_id) =
            tunnel_id-new_id_tokens svc.id_token_gen svc.draws w.draw ids n drawn in
          let peers : List Peer = w.peers ++ (new_peer ∷ new_peer ∷ []) in
          let t : Tunnel = new_tunnel args ids now (length w.peers) in
          let w2 : World = record w { peers = peers; draw = n } in
          let kept : Keeps w.peers peers = Keeps-append w.peers (new_peer ∷ new_peer ∷ []) in
          let g : WellFormed w2 = WellFormed-Keeps w peers n kept f in
          Ensures-commit (λ _ w'. After w w') (After w) _ _ w2 (g, kept) (add_tunnel t w.store) _
            λ s added.
              let w3 : World = record w2 { store = s } in
              let good = new_tunnel-Good args ids now w.peers lacks source_id destination_id in
              Ensures-bind (λ _ w'. After w w') (λ _ w'. After w w') (After w)
                (notify_or_delete svc t w3) _
                (notify-Ensures t w3 (add_tunnel-WellFormed w2 g t s good added, kept))
                (λ _ w4 h. h)

delete_if-After :
    (b : Bool) (id : Text) (w v : World)
    → After w v
    → Ensures (λ _ w'. After w w') (After w) (delete_if b id v)
delete_if-After true id w v (g, kept) = (delete_tunnel-WellFormed v g id, kept)
delete_if-After false id w v h = h

closed-Good :
    (peers : List Peer) (k : Text) (t : Tunnel) (now : Time) (rev : ℕ)
    → GoodTunnel peers k t
    → GoodTunnel peers t.id (record t { lifetime_at = now; last_updated_at = now; rev = rev })
closed-Good peers k t now rev g = record {
  own_key = refl;
  no_separator = subst (λ x. Lacks b'_' x) (sym g.own_key) g.no_separator;
  source_id = g.source_id ∙ sym g.own_key;
  destination_id = g.destination_id ∙ sym g.own_key;
  source_at = g.source_at;
  destination_at = g.destination_at;
}

pub close_found-Ensures :
    (t : Tunnel) (args : CloseTunnelRequest) (now : Time) (w : World)
    → WellFormed w
    → GoodTunnel w.peers args.tunnel_id t
    → Ensures (λ _ w'. After w w') (After w) (close_found t args now w)
close_found-Ensures t args now w f g =
    let closed : Tunnel = record t { lifetime_at = now; last_updated_at = now } in
    Ensures-commit (λ _ w'. After w w') (After w) _ _ w (After-refl w f)
      (update_tunnel closed w.store) _
      λ s updated.
        delete_if-After args.delete args.tunnel_id w (record w { store = s })
          (
            update_tunnel-WellFormed w f closed s
                (λ rev. closed-Good w.peers args.tunnel_id t now rev g) updated,
            λ o h. h,
          )

pub close_tunnel-Ensures :
    (args : CloseTunnelRequest) (now : Time) (w : World)
    → WellFormed w
    → Ensures (λ _ w'. After w w') (After w) (close_tunnel args now w)
unfolding close_tunnel
close_tunnel-Ensures args now w f =
    Ensures-or_refuse (λ _ w'. After w w') (After w) _ _ w (After-refl w f)
      (get_tunnel args.tunnel_id w.store) _
      λ t found. close_found-Ensures t args now w f (get_tunnel-Good w f args.tunnel_id t found)

pub Points-deref :
    (o : Option PeerRef) (w : World)
    → Points w.peers o
    → (x : PeerRef × Peer) × (deref o w ≡ (go x, w))
Points-deref o w (i, p, at, there) = ((i, p), ground (arith, at, there))

-- Reading changes nothing.
pub describe_tunnel-Ensures :
    (id : Text) (now : Time) (w : World)
    → WellFormed w
    → Ensures (λ _ w'. w' ≡ w) (λ w'. w' ≡ w) (describe_tunnel id now w)
unfolding describe_tunnel
describe_tunnel-Ensures id now w f =
    Ensures-or_refuse (λ _ w'. w' ≡ w) (λ w'. w' ≡ w) _ _ w refl (get_tunnel id w.store) _
      λ t found.
        let g = get_tunnel-Good w f id t found in
        let (dst, dst_is) = Points-deref t.destination_peer w g.destination_at in
        let (src, src_is) = Points-deref t.source_peer w g.source_at in rw (dst_is, src_is) refl
