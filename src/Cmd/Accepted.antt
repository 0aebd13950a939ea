-- ===== src/Cmd/Accepted.antt =====
-- Which arguments of mitra_localproxy give options, and what those options satisfy.
use securetunnel.Base.{
  ℕ, ◌≡◌, refl, sym, ap, subst, ◌∙◌, ◌⊎◌, inl, inr, Bool, true, false, not, List, [], ◌∷◌, Option,
  none, some, Text, text_eq, text_eqb, codes, if◌then◌else◌, arith, Bool-cases, Option-cases, ◌==◌,
}
use securetunnel.Aws.{Mode, source, destination}
use securetunnel.Proxy.Config.{ServiceConfig}
use securetunnel.Proxy.Listener.{
  LocalProxyOptions, invalid_scheme, token_is_empty, validate, is_empty, is_valid_scheme,
}
use securetunnel.Cmd.Logger.{Logs, setup_logger}
use securetunnel.Cmd.Options.{
  Arguments, created, rejected, Created, specify_only_one, endpoint_of, token_of, services_of,
  create_proxy_options, options_of, ◌>>=◌, validated, starts, start_up,
}
use securetunnel.Cmd.Modes.{OneMode, OneMode-cons, services_of-created}

bind-created :
    {A B : Type 0} (r : Created A) (f : A → Created B) (b : B)
    → r >>= f ≡ created b
    → (a : A) × (r ≡ created a) × (f a ≡ created b)
bind-created (created a) f b e = (a, refl, e)
bind-created (rejected x) f b e = absurd (ground arith)

endpoint_of-created :
    (parse_url : Text → Option Text) (endpoint scheme : Text)
    → endpoint_of parse_url endpoint ≡ created scheme
    → parse_url endpoint ≡ some scheme
unfolding endpoint_of
endpoint_of-created parse_url endpoint scheme e = elim (Option-cases (parse_url endpoint)) [
  | inl n ↦ absurd (ground (arith, n))
  | inr (s, n) ↦ ground (arith, n)
]

token_of-created :
    (token found : Text)
    → token_of token ≡ created found
    → (found ≡ token) × (is_empty token ≡ false)
unfolding token_of
token_of-created token found e = ground arith

text_empty : (t : Text) → (t == codes "") ≡ is_empty t
unfolding text_eqb
text_empty [] = refl
text_empty (c ∷ t) = refl

last_tests :
    (b : Bool)
    → (if not b then some invalid_scheme else if false then some token_is_empty else none)
      ≡ (if b then none else some invalid_scheme)
last_tests true = refl
last_tests false = refl

validate-lem :
    (o : LocalProxyOptions) (scheme : Text)
    → (o.mode ≡ source) ⊎ (o.mode ≡ destination)
    → o.endpoint_scheme ≡ some scheme
    → is_empty o.service_configs ≡ false
    → is_empty o.token ≡ false
    → validate o ≡ (if is_valid_scheme scheme then none else some invalid_scheme)
unfolding validate
validate-lem o scheme (inl m) e c t =
    rw (m, validate, e, c, text_empty o.token, t) (last_tests (is_valid_scheme scheme))
validate-lem o scheme (inr m) e c t =
    rw (m, validate, e, c, text_empty o.token, t) (last_tests (is_valid_scheme scheme))

created-inj : {A : Type 0} (a b : A) → created a ≡ created b → a ≡ b
created-inj a b e = ground arith

options_of-validate :
    (args : Arguments) (scheme token : Text) (found : Mode × List ServiceConfig)
    → OneMode args found.0 found.1
    → is_empty token ≡ false
    → validate (options_of args scheme token found)
      ≡ (if is_valid_scheme scheme then none else some invalid_scheme)
unfolding options_of
options_of-validate args scheme token found one t =
    let (m, c) = OneMode-cons args found.0 found.1 one in
    validate-lem (options_of args scheme token found) scheme m refl c t

-- What the options are for which arguments.
abbrev pub Accepts : (Text → Option Text) → Arguments → LocalProxyOptions → Type 0
Accepts parse_url args o =
    OneMode args o.mode o.service_configs
    × (o.token ≡ args.token)
    × ((scheme : Text) × (parse_url args.endpoint ≡ some scheme)
        × (validate o ≡ (if is_valid_scheme scheme then none else some invalid_scheme)))

pub create_proxy_options-validate :
    (parse_url : Text → Option Text) (args : Arguments) (o : LocalProxyOptions)
    → create_proxy_options parse_url args ≡ created o
    → Accepts parse_url args o
unfolding create_proxy_options options_of
create_proxy_options-validate parse_url args o e =
    let (scheme, from_url, e1) = bind-created (endpoint_of parse_url args.endpoint) _ o e in
    let (token, from_token, e2) = bind-created (token_of args.token) _ o e1 in
    let (found, from_services, e3) =
      bind-created (services_of args.source_services args.destination_services) _ o e2 in
    let is = created-inj (options_of args scheme token found) o e3 in
    let (same, given) = token_of-created args.token token from_token in
    let one = services_of-created args found from_services in
    subst (λ p. Accepts parse_url args p) is
      (
        one,
        same,
        (
          scheme,
          endpoint_of-created parse_url args.endpoint scheme from_url,
          options_of-validate args scheme token found one (ap is_empty same ∙ given),
        ),
      )

-- Services of both modes, or of neither.
pub both_given :
    (parse_url : Text → Option Text) (args : Arguments) (scheme : Text)
    → is_empty args.endpoint ≡ false
    → parse_url args.endpoint ≡ some scheme
    → is_empty args.token ≡ false
    → is_empty args.source_services ≡ is_empty args.destination_services
    → create_proxy_options parse_url args ≡ rejected specify_only_one
unfolding create_proxy_options endpoint_of token_of services_of
both_given parse_url args scheme e u t same =
    rw (e, u, t, same)
      (elim (Bool-cases (is_empty args.destination_services)) [
        | inl d ↦ rw d refl
        | inr d ↦ rw d refl
      ])

validated-starts :
    (r : Created LocalProxyOptions) (o : LocalProxyOptions)
    → validated r ≡ starts o
    → (r ≡ created o) × (validate o ≡ none)
validated-starts (rejected x) o e = absurd (ground arith)
validated-starts (created p) o e = elim (Option-cases (validate p)) [
  | inl n ↦ let is : p ≡ o = ground (arith, n) in (ap created is, ap validate (sym is) ∙ n)
  | inr (x, n) ↦ absurd (ground (arith, n))
]

scheme_tests : (b : Bool) → none ≡ (if b then none else some invalid_scheme) → b ≡ true
scheme_tests true e = refl
scheme_tests false e = absurd (ground arith)

-- If mitra_localproxy gets to `NewLocalProxy`, its log level was accepted, the scheme of its
-- endpoint is ws or wss, its token is the one given, its mode is that of the services given, those
-- of the other mode are not given, and its services are what `ParseServiceConfig` makes of them.
pub start_up-starts :
    (to_lower : ℕ → ℕ) (build_ok : Bool) (parse_url : Text → Option Text) (args : Arguments)
    (logs : Logs) (o : LocalProxyOptions)
    → start_up to_lower build_ok parse_url args logs ≡ starts o
    → ((setup_logger to_lower build_ok args.log_level logs).0 ≡ none)
      × OneMode args o.mode o.service_configs
      × (o.token ≡ args.token)
      × ((scheme : Text) × (parse_url args.endpoint ≡ some scheme)
          × (is_valid_scheme scheme ≡ true))
unfolding start_up
start_up-starts to_lower build_ok parse_url args logs o e =
    elim (Option-cases (setup_logger to_lower build_ok args.log_level logs).0) [
      | inr (x, failed) ↦ absurd (ground (arith, failed))
      | inl set ↦
          let (made, valid) =
            validated-starts (create_proxy_options parse_url args) o (ground (arith, set)) in
          let (one, same, (scheme, url, checked)) =
            create_proxy_options-validate parse_url args o made in
          (
            set,
            one,
            same,
            (scheme, url, scheme_tests (is_valid_scheme scheme) (sym valid ∙ checked)),
          )
    ]
