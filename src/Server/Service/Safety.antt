-- ===== src/Server/Service/Safety.antt =====
-- The store of every reachable state is well formed, and no request finds a nil peer in it.
use securetunnel.Base.{
  ℕ, zero, suc, inl, inr, false, Option-cases, ◌≡◌, refl, ap, subst, ◌∙◌, List, [], ◌∷◌, ◌++◌, none,
  some, Text, All, All-append, All-without, All-imp, arith,
}
use securetunnel.Server.Tunnel.{Peer, Time}
use securetunnel.Server.World.{
  Services, World, Reply, go, refuse, panic, M, ◌>>◌, Reason, status_bad_request,
}
use securetunnel.Server.Api.Open.{open_tunnel, close_found}
use securetunnel.Server.Api.Connect.{TunnelConnectArgs, validate, preprocess, check, on_disconnect}
use securetunnel.Server.Service.{
  Request, open_request, close_request, describe_request, connect_request, register_request,
  is_panic, pending_at, panics, Pending, Closing, State, registered, Step, opens, reads_to_close,
  closes, checks, registers, disconnects, Reach, starts, later,
}
use securetunnel.Server.Service.Contract.{Ensures}
use securetunnel.Server.Service.WellFormed.{
  GoodTunnel, GoodTunnel-Keeps, WellFormed, Keeps, get_tunnel-Good,
}
use securetunnel.Server.Service.Handlers.{
  After, open_tunnel-Ensures, close_found-Ensures, close_tunnel-Ensures, describe_tunnel-Ensures,
}
use securetunnel.Server.Service.Connecting.{
  GoodPending, GoodPending-Keeps, check-Ensures, check-GoodPending, register-Ensures,
  on_disconnect-After,
}

-- A tunnel that was read to be closed is one that stood under the id.
abbrev pub GoodClosing : List Peer → Closing → Type 0
GoodClosing peers c = GoodTunnel peers c.args.tunnel_id c.tunnel

pub record Sound (s : State) : Type 0 where
  pub store : WellFormed s.world
  pub pending : All (GoodPending s.world.peers) s.pending
  pub closing : All (GoodClosing s.world.peers) s.closing

All-at :
    (peers : List Peer) (n : ℕ) (ps : List Pending) (p : Pending)
    → All (GoodPending peers) ps
    → pending_at n ps ≡ some p
    → GoodPending peers p
All-at peers n [] p h e = absurd (ground arith)
All-at peers zero (q ∷ ps) p h e = let is : q ≡ p = ground arith in subst (GoodPending peers) is h.0
All-at peers (suc n) (q ∷ ps) p h e = All-at peers n ps p h.1 e

is_panic-Ensures :
    {A : Type 0} (Q : A → World → Type 0) (E : World → Type 0) (r : Reply A × World)
    → Ensures Q E r
    → is_panic r.0 ≡ false
is_panic-Ensures Q E (go a, w) h = refl
is_panic-Ensures Q E (refuse code why, w) h = refl
is_panic-Ensures Q E (panic, w) h = absurd h

preprocessed :
    {A : Type 0} (args : TunnelConnectArgs) (m : M A) (w : World)
    → validate args ≡ none
    → (preprocess args >> m) w ≡ m w
preprocessed args m w v = rw (v, preprocess) refl

turned_down :
    {A : Type 0} (args : TunnelConnectArgs) (m : M A) (w : World) (why : Reason)
    → validate args ≡ some why
    → (preprocess args >> m) w ≡ (refuse status_bad_request why, w)
turned_down args m w why v = rw (v, preprocess) refl

-- Whatever the answer, the world after a handler.
after :
    {A : Type 0} (w : World) (r : Reply A × World)
    → Ensures (λ _ w'. After w w') (After w) r
    → After w r.1
after w (go a, w') h = h
after w (refuse code why, w') h = h
after w (panic, w') h = absurd h

pending-Keeps :
    (w w' : World) (ps : List Pending)
    → Keeps w.peers w'.peers
    → All (GoodPending w.peers) ps
    → All (GoodPending w'.peers) ps
pending-Keeps w w' ps kept =
    All-imp (GoodPending w.peers) (GoodPending w'.peers) (GoodPending-Keeps kept) ps

closing-Keeps :
    (w w' : World) (cs : List Closing)
    → Keeps w.peers w'.peers
    → All (GoodClosing w.peers) cs
    → All (GoodClosing w'.peers) cs
closing-Keeps w w' cs kept =
    All-imp (GoodClosing w.peers) (GoodClosing w'.peers)
      (λ c. GoodTunnel-Keeps kept c.args.tunnel_id c.tunnel) cs

registered-Sound :
    (w : World) (cs : List Closing) (rest : List Pending) (ids : List Text) (r : Reply Text × World)
    → Ensures (λ _ w'. After w w') (After w) r
    → All (GoodPending w.peers) rest
    → All (GoodClosing w.peers) cs
    → Sound (registered cs rest ids r)
registered-Sound w cs rest ids (go id, w') h g k = record {
  store = h.0;
  pending = pending-Keeps w w' rest h.1 g;
  closing = closing-Keeps w w' cs h.1 k;
}
registered-Sound w cs rest ids (refuse code why, w') h g k = record {
  store = h.0;
  pending = pending-Keeps w w' rest h.1 g;
  closing = closing-Keeps w w' cs h.1 k;
}
registered-Sound w cs rest ids (panic, w') h g k = absurd h

module _ (svc : Services) where
  Step-Sound : (s t : State) → Sound s → Step svc s t → Sound t
  Step-Sound s _ i (opens args now) =
      let w = (open_tunnel svc args now s.world).1 in
      let (f, kept) = after s.world _ (open_tunnel-Ensures svc args now s.world i.store) in
      record {
        store = f;
        pending = pending-Keeps s.world w s.pending kept i.pending;
        closing = closing-Keeps s.world w s.closing kept i.closing;
      }
  Step-Sound s _ i (reads_to_close args t found) = record {
    store = i.store;
    pending = i.pending;
    closing =
        All-append (GoodClosing s.world.peers) s.closing (record { args = args; tunnel = t } ∷ [])
          i.closing (get_tunnel-Good s.world i.store args.tunnel_id t found, tt);
  }
  Step-Sound s _ i (closes before rest c now e) =
      let (own, others) =
        All-without (GoodClosing s.world.peers) before rest c
          (subst (λ cs. All (GoodClosing s.world.peers) cs) e i.closing) in
      let w = (close_found c.tunnel c.args now s.world).1 in
      let (f, kept) =
        after s.world _ (close_found-Ensures c.tunnel c.args now s.world i.store own) in
      record {
        store = f;
        pending = pending-Keeps s.world w s.pending kept i.pending;
        closing = closing-Keeps s.world w (before ++ rest) kept others;
      }
  Step-Sound s _ i (checks args now t ref w valid e) =
      let same : w ≡ s.world =
        subst (λ r. Ensures (λ _ w'. w' ≡ s.world) (λ w'. w' ≡ s.world) r) e
          (check-Ensures args now s.world i.store valid) in
      let p : Pending = record { args = args; tunnel = t; peer_ref = ref } in
      let good : GoodPending s.world.peers p =
        check-GoodPending args now s.world w t ref i.store e in
      rw same (record {
        store = i.store;
        pending = All-append (GoodPending s.world.peers) s.pending (p ∷ []) i.pending (good, tt);
        closing = i.closing;
      })
  Step-Sound s _ i (registers before rest p now e) =
      let (own, others) =
        All-without (GoodPending s.world.peers) before rest p
          (subst (λ ps. All (GoodPending s.world.peers) ps) e i.pending) in
      registered-Sound s.world s.closing (before ++ rest) s.connected _
        (register-Ensures svc p now s.world i.store own) others i.closing
  Step-Sound s _ i (disconnects before rest id now e) =
      let w = on_disconnect id now s.world in
      let (f, kept) = on_disconnect-After id now s.world i.store in
      record {
        store = f;
        pending = pending-Keeps s.world w s.pending kept i.pending;
        closing = closing-Keeps s.world w s.closing kept i.closing;
      }

  -- In every state that the requests can reach, in any order and with those for a connection or
  -- for closing a tunnel split, each stored tunnel stands under its own id, which has no
  -- separator and which both of its tokens give, and has two peers that exist; each stored
  -- connection stands under its own id and names the tunnel that its id gives; and so do the
  -- tunnels that the pending requests have read.
  pub Reach-Sound : (s : State) → Reach svc s → Sound s
  Reach-Sound _ starts = record {
    store = record { tunnels = tt; connections = tt };
    pending = tt;
    closing = tt;
  }
  Reach-Sound _ (later {s} {t} r st) = Step-Sound s t (Reach-Sound s r) st

  -- In every state that the requests can reach, opening, closing and describing a tunnel, the
  -- checks of `TunnelConnect` behind its validation, and the registration of a pending request
  -- dereference no nil peer.
  pub Reach-panics :
      (s : State) (request : Request) (now : Time) → Reach svc s → panics svc request now s ≡ false
  unfolding panics
  Reach-panics s (open_request args) now r =
      let i = Reach-Sound s r in
      is_panic-Ensures _ _ _ (open_tunnel-Ensures svc args now s.world i.store)
  Reach-panics s (close_request args) now r =
      let i = Reach-Sound s r in
      is_panic-Ensures _ _ _ (close_tunnel-Ensures args now s.world i.store)
  Reach-panics s (describe_request id) now r =
      let i = Reach-Sound s r in
      is_panic-Ensures _ _ _ (describe_tunnel-Ensures id now s.world i.store)
  Reach-panics s (connect_request args) now r = elim (Option-cases (validate args)) [
    | inl v ↦
        let i = Reach-Sound s r in
        ap (λ r. is_panic r.0) (preprocessed args (check args now) s.world v)
        ∙ is_panic-Ensures _ _ _ (check-Ensures args now s.world i.store v)
    | inr (why, v) ↦ ap (λ r. is_panic r.0) (turned_down args (check args now) s.world why v)
  ]
  Reach-panics s (register_request n) now r = elim (Option-cases (pending_at n s.pending)) [
    | inl e ↦ rw (e, panics) refl
    | inr (p, e) ↦
        let i = Reach-Sound s r in
        rw (e, panics)
          (is_panic-Ensures _ _ _ (
            register-Ensures svc p now s.world i.store
              (All-at s.world.peers n s.pending p i.pending e)))
  ]
