-- ===== src/Server/Api/Open/Lifetime.antt =====
-- From `OpenTunnel` to `CloseTunnel`: who is let in, and until when.
use securetunnel.Base.{
  ℕ, ◌+◌, ◌*◌, ◌^◌, ◌≤◌, ◌<◌, ◌≡◌, refl, ◌⊎◌, ◌↔◌, inl, List, [], ◌∷◌, ◌++◌, none, some, arith,
  Text, text_eq, length, suc, eqb, if◌then◌else◌,
}
use securetunnel.Base.Dict.{insert, lookup-insert_self, lookup-erase_self}
use securetunnel.Aws.{Mode, source, destination, other}
use securetunnel.Server.Id.{tunnel_id, IdTokens, new_id_tokens}
use securetunnel.Server.Id.Token.{tunnel_id-new_id_tokens}
use securetunnel.Server.Tunnel.{
  Tunnel, Peer, PeerRef, Time, closed_status, open_status, status, is_open, peer, token,
}
use securetunnel.Server.Store.{get_tunnel, add_tunnel, update_tunnel, delete_tunnel}
use securetunnel.Server.Store.Table.{add, update, delete, next_rev, get_with_key}
use securetunnel.Server.World.{
  Services, World, go, refuse, get_elem?, failed_to_notify, failed_to_update_tunnel,
  status_internal_server_error,
}
use securetunnel.Server.Api.Open.{
  OpenTunnelRequest, CloseTunnelRequest, new_tunnel, new_peer, open_tunnel, close_found,
  default_timeout,
}
use securetunnel.Server.Api.Connect.{TunnelConnectArgs, check}
use securetunnel.Server.Api.Connect.Checks.{check-Admissible}

-- A tunnel whose timeout, 720 minutes if none is given, fits an int64 of nanoseconds is open up to
-- the end of its timeout, and no longer.
pub new_tunnel-lifetime :
    (args : OpenTunnelRequest) (ids : IdTokens) (now later : Time) (n : ℕ)
    → default_timeout args.timeout_minutes * 60_000_000_000 < 2 ^ 63
    → (status (new_tunnel args ids now n) later ≡ open_status)
      ↔ (later ≤ now + default_timeout args.timeout_minutes * 60_000_000_000)
unfolding new_tunnel status
new_tunnel-lifetime args ids now later n fits = (ground arith, ground arith)

-- A tunnel made at a time after zero with a timeout of 2 ^ 63 nanoseconds or more, and less than 2
-- ^ 64, is closed from the start.
pub new_tunnel-overflow :
    (args : OpenTunnelRequest) (ids : IdTokens) (now later : Time) (n : ℕ)
    → 0 < now
    → 2 ^ 63 ≤ default_timeout args.timeout_minutes * 60_000_000_000
    → default_timeout args.timeout_minutes * 60_000_000_000 < 2 ^ 64
    → now ≤ later
    → status (new_tunnel args ids now n) later ≡ closed_status
unfolding new_tunnel status
new_tunnel-overflow args ids now later n h large fits le = ground arith

pub get_elem?-append :
    (ps : List Peer) (p q : Peer)
    → (get_elem? (ps ++ (p ∷ q ∷ [])) (length ps) ≡ some p)
      × (get_elem? (ps ++ (p ∷ q ∷ [])) (suc (length ps)) ≡ some q)
get_elem?-append [] p q = (refl, refl)
get_elem?-append (x ∷ ps) p q = get_elem?-append ps p q

module _ (svc : Services) (args : OpenTunnelRequest) (now : Time) (w : World) (ids : IdTokens)
    (n : ℕ) (drawn : new_id_tokens svc.id_token_gen svc.draws w.draw ≡ some (ids, n))
    (fresh : get_tunnel ids.tunnel_id w.store ≡ none) where
  abbrev pub opened : Tunnel
  opened = new_tunnel args ids now (length w.peers)

  -- If the ids can be drawn, the new id is free and the device is notified, `OpenTunnel` answers
  -- with the id and the tokens of the tunnel that it stores, with two new peers.
  pub open_tunnel-go :
      svc.notify opened ≡ none
      → (w' : World) × (open_tunnel svc args now w ≡ (
        go (record {
          tunnel_id = ids.tunnel_id;
          destination_token = ids.destination_token;
          source_token = ids.source_token;
        }),
        w',
      ))
        × (get_tunnel ids.tunnel_id w'.store ≡ some opened)
        × (w'.peers ≡ w.peers ++ (new_peer ∷ new_peer ∷ []))
  unfolding open_tunnel new_tunnel get_tunnel add_tunnel add get_with_key
  open_tunnel-go quiet = (
    record {
      store = record w.store { tunnel_table = insert ids.tunnel_id opened w.store.tunnel_table };
      peers = w.peers ++ (new_peer ∷ new_peer ∷ []);
      draw = n;
    },
    ground arith,
    lookup-insert_self ids.tunnel_id opened w.store.tunnel_table,
    refl,
  )

  -- If the ids can be drawn, the new id is free and the device cannot be notified, `OpenTunnel`
  -- answers with an error and leaves no tunnel under the new id.
  pub open_tunnel-notify :
      (why : Text)
      → svc.notify opened ≡ some why
      → ((open_tunnel svc args now w).0 ≡ refuse status_internal_server_error failed_to_notify)
        × (get_tunnel ids.tunnel_id (open_tunnel svc args now w).1.store ≡ none)
  unfolding open_tunnel new_tunnel get_tunnel add_tunnel delete_tunnel add delete get_with_key
  open_tunnel-notify why failed =
      let table = insert ids.tunnel_id opened w.store.tunnel_table in
      (ground arith, ground (arith, lookup-erase_self ids.tunnel_id table))

  peer_of :
      (m : Mode)
      → (m ≡ source) ⊎ (m ≡ destination)
      → (ref : PeerRef) × (peer opened m ≡ some ref)
        × (get_elem? (w.peers ++ (new_peer ∷ new_peer ∷ [])) ref ≡ some new_peer)
        × (tunnel_id (token opened m) ≡ ids.tunnel_id)
  unfolding peer token new_tunnel
  peer_of source named =
      let ids_of = tunnel_id-new_id_tokens svc.id_token_gen svc.draws w.draw ids n drawn in
      (length w.peers, refl, (get_elem?-append w.peers new_peer new_peer).0, ids_of.2)
  peer_of destination named =
      let ids_of = tunnel_id-new_id_tokens svc.id_token_gen svc.draws w.draw ids n drawn in
      let next : length w.peers + 1 ≡ suc (length w.peers) = omega arith in
      (length w.peers + 1, refl, rw next ((get_elem?-append w.peers new_peer new_peer).1), ids_of.3)
  peer_of (other s) named = absurd (ground arith)

  -- If the ids can be drawn, the new id is free and the device is notified, then either token of
  -- the tunnel just opened passes the checks of `TunnelConnect` in its mode, under any client
  -- token, up to the end of the tunnel's lifetime.
  pub open_tunnel-check :
      (c : TunnelConnectArgs) (later : Time)
      → svc.notify opened ≡ none
      → (c.mode ≡ source) ⊎ (c.mode ≡ destination)
      → c.access_token ≡ token opened c.mode
      → later ≤ opened.lifetime_at
      → (ref : PeerRef) × (check c later (open_tunnel svc args now w).1
          ≡ (go (opened, ref), (open_tunnel svc args now w).1))
  unfolding is_open status
  open_tunnel-check c later quiet named has early =
      let (w', e, stored, grown) = open_tunnel-go quiet in
      let (ref, at, new, of) = peer_of c.mode named in
      (
        ref,
        rw e (
            check-Admissible c later w' opened ref (record {
              found = new_peer;
              stored = rw (has, of) stored;
              has_token = has;
              pointer = at;
              pointed = rw grown new;
              same_client = inl refl;
              is_opened = ground arith;
            })),
      )

-- If `CloseTunnel` has read a tunnel that is stored under the id at its update, possibly changed
-- since, then it succeeds exactly if the revision is still the one that it read. Then the tunnel is
-- gone if its deletion was asked for, and otherwise on the next revision and closed at every time
-- after the call. If not, the answer is that the update failed, and what is stored stays.
pub close_found-closed :
    (args : CloseTunnelRequest) (now later : Time) (w : World) (t stored : Tunnel)
    → get_tunnel args.tunnel_id w.store ≡ some stored
    → t.id ≡ args.tunnel_id
    → now < later
    → (t' : Tunnel) × (status t' later ≡ closed_status)
      × (t'.rev ≡ next_rev t.rev)
      × ((close_found t args now w).0 ≡ (
          if eqb stored.rev t.rev
          then go tt
          else refuse status_internal_server_error failed_to_update_tunnel))
      × (get_tunnel args.tunnel_id (close_found t args now w).1.store
          ≡ (if eqb stored.rev t.rev then if args.delete then none else some t' else some stored))
unfolding get_tunnel update_tunnel update delete_tunnel delete status get_with_key
close_found-closed args now later w t stored at same h =
    let t1 : Tunnel = record t { lifetime_at = now; last_updated_at = now; rev = next_rev t.rev } in
    (
      t1,
      ground arith,
      refl,
      ground arith,
      ground (
        arith,
        lookup-insert_self args.tunnel_id t1 w.store.tunnel_table,
        lookup-erase_self args.tunnel_id (insert args.tunnel_id t1 w.store.tunnel_table),
      ),
    )
