-- ===== src/Proxy/Launch/Opened.antt =====
-- Which listeners are open behind `NewLocalProxy`, and which servers it knows.
use securetunnel.Base.{
  ◌≡◌, refl, sym, ap, ◌∙◌, inl, inr, true, false, List, [], ◌∷◌, ◌++◌, append-nil, append_assoc,
  map, Option, none, some, Text, text_eq, text_eqb_iff, ◌==◌, Bool-cases, Option-cases, any, ◌&&◌,
}
use securetunnel.Base.Dict.{lookup, lookup-insert}
use securetunnel.Aws.{source}
use securetunnel.Proxy.Config.{ServiceConfig}
use securetunnel.Proxy.Listener.{LocalProxyOptions, validate, TcpServer, LocalProxy}
use securetunnel.Proxy.Launch.{
  Os, Allows, Result, ok, invalid_options, no_server, listen, new_tcp_server, Maps, with_server,
  fill_maps, finish, new_local_proxy, is_source, is_unix,
}

abbrev pub address_of : ServiceConfig → Text × Text
address_of c = (c.network, c.address)

abbrev pub new_server : Text → TcpServer
new_server name = record { name = name; started = false }

-- What a call of `NewTCPServer` may do.
abbrev Tried : Text → Text × Text → Os → Result TcpServer × Os → Type 0
Tried name at os (ok server, after) =
    (server ≡ new_server name) × (after.listening ≡ os.listening ++ (at ∷ []))
Tried name at os (invalid_options e, after) = ⊥
Tried name at os (no_server e, after) = after.listening ≡ os.listening

listen-Tried :
    (allows : Allows) (name network address : Text) (before os : Os)
    → os.listening ≡ before.listening
    → Tried name (network, address) before (listen allows name network address os)
unfolding listen
listen-Tried allows name network address before os same =
    elim (Bool-cases (allows.listen_ok network address os)) [
      | inl e ↦ rw (e, listen) (refl, ap (λ l. l ++ ((network, address) ∷ [])) same)
      | inr e ↦ rw (e, listen) same
    ]

new_tcp_server-Tried :
    (allows : Allows) (name network address : Text) (os : Os)
    → Tried name (network, address) os (new_tcp_server allows name network address os)
unfolding new_tcp_server
new_tcp_server-Tried allows name network address os =
    elim (Bool-cases (is_unix network && any (λ f. f == address) os.files)) [
      | inr e ↦ rw (e, new_tcp_server) (listen-Tried allows name network address os os refl)
      | inl e ↦ elim (Bool-cases (allows.remove_ok address)) [
        | inl r ↦ rw (e, new_tcp_server, r) (listen-Tried allows name network address os _ refl)
        | inr r ↦ rw (e, new_tcp_server, r) refl
      ]
    ]

-- Each service has a server of its name that does not accept yet, and there is no other server.
abbrev pub Matched : Maps → Type 0
Matched m =
    (id : Text)
    → lookup id m.server_map ≡ elim (lookup id m.service_map) as (λ _. Option TcpServer) [
      | none ↦ none
      | some c ↦ some (new_server id)
    ]

with_server-Matched :
    (c : ServiceConfig) (m : Maps) → Matched m → Matched (with_server c (new_server c.service_id) m)
with_server-Matched c m h id = elim (Bool-cases (c.service_id == id)) [
  | inl e ↦
      let at : c.service_id ≡ id = (text_eqb_iff c.service_id id).0 e in
      rw
        (
          lookup-insert c.service_id id (new_server c.service_id) m.server_map,
          lookup-insert c.service_id id c m.service_map,
          e,
        )
        (ap (λ n. some (new_server n)) at)
  | inr e ↦
      rw
        (
          lookup-insert c.service_id id (new_server c.service_id) m.server_map,
          lookup-insert c.service_id id c m.service_map,
          e,
        )
        (h id)
]

-- What filling the maps may do.
abbrev Filled : List ServiceConfig → Os → Result Maps × Os → Type 0
Filled cs os (ok m, after) = Matched m × (after.listening ≡ os.listening ++ map address_of cs)
Filled cs os (invalid_options e, after) = ⊥
Filled cs os (no_server e, after) =
    (before : List ServiceConfig) × (c : ServiceConfig) × (rest : List ServiceConfig) × (cs
      ≡ before ++ (c ∷ rest))
    × (after.listening ≡ os.listening ++ map address_of before)

Filled-next :
    (c : ServiceConfig) (cs : List ServiceConfig) (os os1 : Os) (r : Result Maps × Os)
    → os1.listening ≡ os.listening ++ (address_of c ∷ [])
    → Filled cs os1 r
    → Filled (c ∷ cs) os r
Filled-next c cs os os1 (ok m, after) e (h, l) =
    (h, l ∙ rw e (append_assoc os.listening (address_of c ∷ []) (map address_of cs)))
Filled-next c cs os os1 (invalid_options x, after) e h = h
Filled-next c cs os os1 (no_server x, after) e (before, failed, rest, is, l) = (
  c ∷ before,
  failed,
  rest,
  ap (λ xs. c ∷ xs) is,
  l ∙ rw e (append_assoc os.listening (address_of c ∷ []) (map address_of before)),
)

fill_after :
    (allows : Allows) (c : ServiceConfig) (cs : List ServiceConfig) (m : Maps) (os : Os)
    (r : Result TcpServer) (after : Os)
    → (new_tcp_server allows c.service_id c.network c.address os).0 ≡ r
    → (new_tcp_server allows c.service_id c.network c.address os).1 ≡ after
    → Tried c.service_id (address_of c) os (r, after)
    → Matched m
    → ((m' : Maps) → Matched m' → Filled cs after (fill_maps allows true cs m' after))
    → Filled (c ∷ cs) os (fill_maps allows true (c ∷ cs) m os)
unfolding fill_maps
fill_after allows c cs m os (ok server) after e a (is, l) h rest =
    rw (e, fill_maps, a, is)
      (Filled-next c cs os after _ l
        (rest (with_server c (new_server c.service_id) m) (with_server-Matched c m h)))
fill_after allows c cs m os (invalid_options x) after e a t h rest = absurd t
fill_after allows c cs m os (no_server x) after e a t h rest =
    rw (e, fill_maps, a) ([], c, cs, refl, t ∙ sym (append-nil os.listening))

fill_maps-Filled :
    (allows : Allows) (cs : List ServiceConfig) (m : Maps) (os : Os)
    → Matched m
    → Filled cs os (fill_maps allows true cs m os)
unfolding fill_maps
fill_maps-Filled allows [] m os h = (h, sym (append-nil os.listening))
fill_maps-Filled allows (c ∷ cs) m os h =
    let r = new_tcp_server allows c.service_id c.network c.address os in
    fill_after allows c cs m os r.0 r.1 refl refl
      (new_tcp_server-Tried allows c.service_id c.network c.address os) h
      (λ m' h'. fill_maps-Filled allows cs m' r.1 h')

-- A proxy in source mode that was made, or the first service that could not be listened for.
abbrev pub Launched : LocalProxyOptions → Os → Result LocalProxy × Os → Type 0
Launched options os (ok p, after) =
    Matched (record { service_map = p.service_map; server_map = p.server_map })
    × (after.listening ≡ os.listening ++ map address_of options.service_configs)
Launched options os (invalid_options e, after) = (validate options ≡ some e) × (after ≡ os)
Launched options os (no_server e, after) =
    (before : List ServiceConfig) × (c : ServiceConfig) × (rest : List ServiceConfig)
    × (options.service_configs ≡ before ++ (c ∷ rest))
    × (after.listening ≡ os.listening ++ map address_of before)

finish-Launched :
    (options : LocalProxyOptions) (os : Os) (r : Result Maps × Os)
    → Filled options.service_configs os r
    → Launched options os (finish options.mode r)
finish-Launched options os (ok m, after) h = h
finish-Launched options os (invalid_options e, after) h = absurd h
finish-Launched options os (no_server e, after) h = h

-- In source mode, `NewLocalProxy` refuses invalid options and leaves the system alone; or it
-- listens at the address of each service, in their order, and each service of its map, and no other
-- id, has a server of that name that does not accept yet; or it fails, and the listeners of the
-- services before the one that failed stay open.
pub new_local_proxy-Launched :
    (allows : Allows) (options : LocalProxyOptions) (os : Os)
    → options.mode ≡ source
    → Launched options os (new_local_proxy allows options os)
unfolding new_local_proxy lookup
new_local_proxy-Launched allows options os at = elim (Option-cases (validate options)) [
  | inr (e, v) ↦ rw (v, new_local_proxy) (v, refl)
  | inl v ↦
      rw (v, new_local_proxy, ap is_source at)
        (finish-Launched options os _ (
          fill_maps-Filled allows options.service_configs
            (record { service_map = []; server_map = [] }) os (λ id. refl)))
]
