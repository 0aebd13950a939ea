-- ===== src/Proxy/Config.antt =====
-- proxy/serviceconfig.go.
pub mod Parsing
pub mod Services
use securetunnel.Base.{
  ℕ, ◌+◌, ◌-◌, ◌*◌, Bool, true, false, ◌&&◌, List, [], ◌∷◌, ◌++◌, Option, none, some, Text, text_eq,
  codes, ◌==◌, leb, if◌then◌else◌,
}
use securetunnel.Base.Strings.{split, trim_space}

pub record ServiceConfig : Type 0 where
  pub service_id : Text
  pub network : Text
  pub address : Text

pub data Error : Type 0 where
  invalid_address_format invalid_port_number invalid_service_format : Error

pub data Result {ℓ} (A : Type ℓ) : Type ℓ where
  ok : A → Result A
  err : Error → Result A

infixl 5 ◌>>=◌
abbrev pub ◌>>=◌ {ℓ κ} : {A : Type ℓ} {B : Type κ} → Result A → (A → Result B) → Result B
ok a >>= f = f a
err e >>= f = err e

abbrev pub is_digit : ℕ → Bool
is_digit c = leb b'0' c && leb c b'9'

-- The value of digits behind `n`, with no bound; `none` at anything else.
unfoldable pub digits_value : Text → ℕ → Option ℕ
digits_value [] n = some n
digits_value (c ∷ s) n =
    let rest = digits_value s (n * 10 + (c - b'0')) in if is_digit c then rest else none

abbrev pub fits_uint16 : ℕ → Option ℕ
fits_uint16 n = if leb n 65535 then some n else none

-- `strconv.ParseUint(s, 10, 16)`.
unfoldable pub parse_uint16 : Text → Option ℕ
unfolding digits_value
parse_uint16 [] = none
parse_uint16 (c ∷ s) = elim (digits_value (c ∷ s) 0) [ none ↦ none | some n ↦ fits_uint16 n ]

-- The first `switch` of `ParseURL`: network and address.
unfoldable pub url_parts : List Text → Result (Text × Text)
url_parts (address ∷ []) = ok (codes "tcp", address)
url_parts (network ∷ address ∷ []) = ok (network, address)
url_parts _ = err invalid_address_format

-- The second: host and port.
unfoldable pub address_parts : List Text → Result (Text × Text)
address_parts (port ∷ []) = ok (codes "localhost", port)
address_parts (host ∷ port ∷ []) = ok (host, port)
address_parts _ = err invalid_address_format

-- `ParseURL` once the address is split.
unfoldable pub check_port : Text → Text × Text → Result (Text × Text)
check_port network (host, port) = elim (parse_uint16 (trim_space port)) [
  | none ↦ err invalid_port_number
  | some _ ↦ ok (network, trim_space host ++ (b':' ∷ trim_space port))
]

unfoldable pub parse_address : Text → Text → Result (Text × Text)
unfolding address_parts
parse_address network address =
    if network == codes "unix"
    then ok (network, address)
    else address_parts (split address (codes ":")) >>= check_port network

unfoldable pub parse_url : Text → Result (Text × Text)
unfolding url_parts
parse_url url = do
  parts ← url_parts (split url (codes "://"))
  parse_address (trim_space parts.0) parts.1

-- The `switch` of `ParseServiceConfig`: service id and url.
unfoldable pub service_parts : List Text → Result (Text × Text)
service_parts (url ∷ []) = ok ([], url)
service_parts (service_id ∷ url ∷ []) = ok (service_id, url)
service_parts _ = err invalid_service_format

-- One round of its loop.
unfoldable pub parse_service : Text → Result ServiceConfig
unfolding service_parts
parse_service service = do
  parts ← service_parts (split service (codes "="))
  found ← parse_url (trim_space parts.1)
  ok (record { service_id = trim_space parts.0; network = found.0; address = found.1 })

-- The loop: the first service that is refused refuses them all.
unfoldable pub parse_services : List Text → Result (List ServiceConfig)
parse_services [] = ok []
parse_services (service ∷ services) = do
  config ← parse_service service
  configs ← parse_services services
  ok (config ∷ configs)

unfoldable pub parse_service_config : Text → Result (List ServiceConfig)
parse_service_config service_str = parse_services (split service_str (codes ","))
