-- ===== src/Proxy/Config/Services.antt =====
-- `ParseServiceConfig` is `ParseURL` and the service id for each part between commas.
use securetunnel.Base.{
  ℕ, some, ◌≡◌, ◌↔◌, refl, ap, ◌∙◌, List, [], ◌∷◌, map, Text, codes, arith, ◌++◌,
}
use securetunnel.Base.Strings.{split, split-sep, split-Lacks, Lacks}
use securetunnel.Proxy.Config.Parsing.{parse_url-port, IsTrim}
use securetunnel.Proxy.Config.{
  parse_uint16, ServiceConfig, ok, parse_service, parse_services, parse_service_config,
}

-- `ok` at a list of services, in their order, means `ok` at each.
pub parse_services-ok :
    (ss : List Text) (cs : List ServiceConfig)
    → (parse_services ss ≡ ok cs) ↔ (map parse_service ss ≡ map ok cs)
unfolding parse_services
parse_services-ok [] [] = (λ _. refl, λ _. refl)
parse_services-ok [] (c ∷ cs) = (λ e. absurd (ground arith), λ e. absurd (ground arith))
parse_services-ok (s ∷ ss) [] = (λ e. absurd (ground arith), λ e. absurd (ground arith))
parse_services-ok (s ∷ ss) (c ∷ cs) =
    let (to, back) = parse_services-ok ss cs in (λ e. ground arith, λ e. ground arith)

-- A list of services is accepted exactly if each part between commas is, with one configuration for
-- each part, in their order.
pub parse_service_config-ok :
    (s : Text) (cs : List ServiceConfig)
    → (parse_service_config s ≡ ok cs) ↔ (map parse_service (split s (codes ",")) ≡ map ok cs)
unfolding parse_service_config
parse_service_config-ok s cs = parse_services-ok (split s (codes ",")) cs

-- `id=port`, with a trimmed id and port, no second equals sign and no colon in the port, and a port
-- number below 65536, stands for the service `id` at that port of localhost.
pub parse_service-named :
    (id port : Text) (n : ℕ)
    → Lacks b'=' id
    → Lacks b'=' port
    → Lacks b':' port
    → IsTrim id
    → IsTrim port
    → parse_uint16 port ≡ some n
    → parse_service (id ++ (b'=' ∷ port))
      ≡ ok (record {
        service_id = id;
        network = codes "tcp";
        address = codes "localhost" ++ (b':' ∷ port);
      })
unfolding parse_service
parse_service-named id port n li le lc ti tp number =
    let parts = split-sep b'=' id port li ∙ ap (◌∷◌ id) (split-Lacks b'=' [] port le) in
    rw (parts, tp, parse_url-port port n lc tp number, ti)
