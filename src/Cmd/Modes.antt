-- ===== src/Cmd/Modes.antt =====
-- The mode of mitra_localproxy is that of the services given, and its services are not empty.
use securetunnel.Base.{
  ℕ, zero, suc, ◌≡◌, refl, ◌⊎◌, inl, inr, true, false, List, [], ◌∷◌, Text, text_eq, codes, arith,
  Bool-cases, ◌++◌,
}
use securetunnel.Base.Strings.{split, split_from, is_prefix}
use securetunnel.Aws.{Mode, source, destination}
use securetunnel.Proxy.Config.{
  ServiceConfig, parse_service_config, parse_services, parse_service, ok, err,
}
use securetunnel.Proxy.Config
use securetunnel.Proxy.Config.Services.{parse_services-ok}
use securetunnel.Proxy.Listener.{is_empty}
use securetunnel.Cmd.Options.{Arguments, created, services_of, in_mode}

split_from-cons :
    (sep : Text) (skip : ℕ) (cur s : Text) → is_empty (split_from sep skip cur s) ≡ false
unfolding split_from
split_from-cons sep skip cur [] = refl
split_from-cons sep (suc skip) cur (c ∷ s) = split_from-cons sep skip cur s
split_from-cons sep zero cur (c ∷ s) = elim (Bool-cases (is_prefix sep (c ∷ s))) [
  | inl e ↦ rw (split_from, e) refl
  | inr e ↦ rw (split_from, e) (split_from-cons sep zero (cur ++ c ∷ []) s)
]

parse_services-cons :
    (ss : List Text) (cs : List ServiceConfig)
    → is_empty ss ≡ false
    → parse_services ss ≡ ok cs
    → is_empty cs ≡ false
parse_services-cons [] cs h e = absurd (ground arith)
parse_services-cons (s ∷ ss) [] h e =
    let m = (parse_services-ok (s ∷ ss) []).0 e in absurd (ground arith)
parse_services-cons (s ∷ ss) (c ∷ cs) h e = refl

-- No accepted list of services is empty.
pub parse_service_config-cons :
    (s : Text) (cs : List ServiceConfig) → parse_service_config s ≡ ok cs → is_empty cs ≡ false
unfolding parse_service_config split
parse_service_config-cons s cs e =
    parse_services-cons (split s (codes ",")) cs (split_from-cons (codes ",") zero [] s) e

is_empty-nil {ℓ} : {A : Type ℓ} (xs : List A) → is_empty xs ≡ true → xs ≡ []
is_empty-nil [] e = refl
is_empty-nil (x ∷ xs) e = absurd (ground arith)

in_mode-created :
    (mode : Mode) (r : Config.Result (List ServiceConfig)) (found : Mode × List ServiceConfig)
    → in_mode mode r ≡ created found
    → (found.0 ≡ mode) × (r ≡ ok found.1)
in_mode-created mode (ok cs) found e = ground arith
in_mode-created mode (err x) found e = absurd (ground arith)

-- The services of one mode are given, and those of the other mode are not.
abbrev pub OneMode : Arguments → Mode → List ServiceConfig → Type 0
OneMode args mode configs =
    ((mode ≡ source)
      × (args.destination_services ≡ [])
      × (parse_service_config args.source_services ≡ ok configs))
    ⊎ ((mode ≡ destination)
        × (args.source_services ≡ [])
        × (parse_service_config args.destination_services ≡ ok configs))

pub services_of-created :
    (args : Arguments) (found : Mode × List ServiceConfig)
    → services_of args.source_services args.destination_services ≡ created found
    → OneMode args found.0 found.1
unfolding services_of
services_of-created args found e = elim (Bool-cases (is_empty args.source_services)) [
  | inl s ↦
      let (m, c) =
        in_mode-created destination (parse_service_config args.destination_services) found
          (ground (arith, s)) in
      inr (m, is_empty-nil args.source_services s, c)
  | inr s ↦ elim (Bool-cases (is_empty args.destination_services)) [
    | inl d ↦
        let (m, c) =
          in_mode-created source (parse_service_config args.source_services) found
            (ground (arith, s, d)) in
        inl (m, is_empty-nil args.destination_services d, c)
    | inr d ↦ absurd (ground (arith, s, d))
  ]
]

pub OneMode-cons :
    (args : Arguments) (mode : Mode) (configs : List ServiceConfig)
    → OneMode args mode configs
    → ((mode ≡ source) ⊎ (mode ≡ destination)) × (is_empty configs ≡ false)
OneMode-cons args mode configs (inl (m, none_given, parsed)) =
    (inl m, parse_service_config-cons args.source_services configs parsed)
OneMode-cons args mode configs (inr (m, none_given, parsed)) =
    (inr m, parse_service_config-cons args.destination_services configs parsed)
