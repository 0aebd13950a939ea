-- ===== src/Server/Service/Listing.antt =====
-- The debug list groups the connections by the tunnel that they name themselves.
use securetunnel.Base.{
  ◌≡◌, ◌≢◌, refl, ap, inl, inr, Bool, List, [], ◌∷◌, map, Text, text_eq, text_eqb, ◌==◌, Bool-cases,
  All,
}
use securetunnel.Base.Entries.{AllEntries}
use securetunnel.Server.Tunnel.{Connection}
use securetunnel.Server.Store.{get_tunnels, get_connections, connection_matches}
use securetunnel.Server.Store.Table.{DataMap, list}
use securetunnel.Server.World.{Services}
use securetunnel.Server.Api.Debug.{DebugListTunnel, debug_list_tunnels, created_before}
use securetunnel.Server.Service.{State, Reach}
use securetunnel.Server.Service.WellFormed.{GoodConnection}
use securetunnel.Server.Service.Safety.{Reach-Sound}

-- The connections of a table whose field names the tunnel.
abbrev pub connections_of : Text → DataMap Text Connection → List Connection
connections_of id = list (λ c. c.tunnel_id == id)

matches_own :
    (id k : Text) (c : Connection)
    → id ≢ []
    → GoodConnection k c
    → connection_matches id c ≡ (c.tunnel_id == id)
unfolding connection_matches text_eqb
matches_own [] k c ne g = absurd (ne refl)
matches_own (x ∷ id) k c ne g =
    rw (g.own_key, g.own_tunnel)
      (elim (Bool-cases (c.tunnel_id == (x ∷ id))) [ inl e ↦ rw e refl | inr e ↦ rw e refl ])

list_own :
    (id : Text) (table : DataMap Text Connection)
    → id ≢ []
    → AllEntries GoodConnection table
    → list (connection_matches id) table ≡ connections_of id table
unfolding list
list_own id [] ne h = refl
list_own id ((k, c) ∷ table) ne h = rw (matches_own id k c ne h.0, list_own id table ne h.1) refl

map-All :
    {A B : Type 0} (P : A → Type 0) (f g : A → B)
    → ((a : A) → P a → f a ≡ g a)
    → (xs : List A) → All P xs
    → map f xs ≡ map g xs
map-All P f g h [] all = refl
map-All P f g h (x ∷ xs) all = rw (h x all.0, map-All P f g h xs all.1) refl

-- In a reachable state whose tunnels have ids that are not empty, the debug list holds for each
-- tunnel the connections whose own field names it, although the store looks for them by their ids.
pub debug_list_tunnels-connections :
    (svc : Services) (s : State)
    (sort : (DebugListTunnel → DebugListTunnel → Bool)
      → List DebugListTunnel
      → List DebugListTunnel)
    → Reach svc s
    → All (λ t. t.id ≢ []) (get_tunnels s.world.store)
    → debug_list_tunnels sort s.world
      ≡ sort created_before (
          map
            (λ t. record {
              tunnel = t;
              connections = connections_of t.id s.world.store.connection_table;
            })
            (get_tunnels s.world.store))
unfolding debug_list_tunnels get_connections
debug_list_tunnels-connections svc s sort r named =
    let sound = Reach-Sound svc s r in
    ap (sort created_before) (
      map-All (λ t. t.id ≢ []) _ _
        (λ t ne.
          ap (λ cs. record { tunnel = t; connections = cs })
            (list_own t.id s.world.store.connection_table ne sound.store.connections))
        (get_tunnels s.world.store) named)
