-- ===== src/Proxy/Config/Parsing.antt =====
-- What `ParseURL` accepts, and what it returns.
use securetunnel.Base.{
  ℕ, zero, ◌≤◌, ◌≡◌, ◌≢◌, refl, ap, sym, ◌∙◌, inl, inr, true, false, [], ◌∷◌, ◌++◌, append_assoc,
  append-nil, some, arith, Text, codes, text_eq, text_eqb, text_eqb_iff, Option-cases, Bool-cases,
}
use securetunnel.Base.Strings.{
  is_prefix, split, split_from, split_from-head, split-sep, split-Lacks, Lacks, trim_space,
}
use securetunnel.Proxy.Config.{
  Result, ok, err, ◌>>=◌, digits_value, parse_uint16, url_parts, address_parts, check_port,
  parse_address, parse_url,
}

abbrev scheme_sep : Text
scheme_sep = codes "://"

split_url :
    (network address : Text)
    → Lacks b':' network
    → split (network ++ (scheme_sep ++ address)) scheme_sep ≡ network ∷ split address scheme_sep
unfolding split split_from
split_url network address h = split_from-head b':' (codes "//") network (scheme_sep ++ address) [] h

-- A colon that two slashes do not follow is no separator.
split_address :
    (host port : Text)
    → Lacks b':' host
    → Lacks b':' port
    → is_prefix (codes "//") port ≡ false
    → split (host ++ (b':' ∷ port)) scheme_sep ≡ (host ++ (b':' ∷ port)) ∷ []
unfolding split
split_address host port lh lp h =
    split_from-head b':' (codes "//") host (b':' ∷ port) [] lh
    ∙ split_colon
    ∙ ap (λ x. split_from scheme_sep zero (host ++ (b':' ∷ [])) x) (sym (append-nil port))
    ∙ split_from-head b':' (codes "//") port [] (host ++ (b':' ∷ [])) lp
    ∙ ap (λ x. x ∷ []) (append_assoc host (b':' ∷ []) port)
  where
    split_colon :
        split_from scheme_sep zero host (b':' ∷ port)
        ≡ split_from scheme_sep zero (host ++ (b':' ∷ [])) port
    split_colon = rw h

not_slashes :
    (port : Text) (n : ℕ) → parse_uint16 port ≡ some n → is_prefix (codes "//") port ≡ false
unfolding parse_uint16 is_prefix
not_slashes [] n e = refl
not_slashes (c ∷ s) n e = ground arith

-- A text that is trimmed already.
abbrev pub IsTrim : Text → Type 0
IsTrim s = trim_space s ≡ s

-- A url of a network other than unix, a host and a port, each trimmed and without a colon, the port
-- a number below 65536, is split into the network and `host:port`.
pub parse_url-full :
    (network host port : Text) (n : ℕ)
    → Lacks b':' network
    → Lacks b':' host
    → Lacks b':' port
    → IsTrim network
    → IsTrim host
    → IsTrim port
    → network ≢ codes "unix"
    → parse_uint16 port ≡ some n
    → parse_url (network ++ (codes "://" ++ (host ++ (b':' ∷ port))))
      ≡ ok (network, host ++ (b':' ∷ port))
unfolding parse_url parse_address check_port
parse_url-full network host port n ln lh lp tn th tp tcp number =
    let address = host ++ (b':' ∷ port) in
    let parts =
      split_url network address ln
      ∙ ap (◌∷◌ network) (split_address host port lh lp (not_slashes port n number)) in
    let two = split-sep b':' host port lh ∙ ap (◌∷◌ host) (split-Lacks b':' [] port lp) in
    let not_unix : text_eqb network (codes "unix") ≡ false =
      ground (arith, text_eqb_iff network (codes "unix")) in
    rw (parts, tn, not_unix, two, ◌>>=◌, check_port, tp, number, th, tp, tn)

-- Without a network it is tcp.
pub parse_url-host :
    (host port : Text) (n : ℕ)
    → Lacks b':' host
    → Lacks b':' port
    → IsTrim host
    → IsTrim port
    → parse_uint16 port ≡ some n
    → parse_url (host ++ (b':' ∷ port)) ≡ ok (codes "tcp", host ++ (b':' ∷ port))
unfolding parse_url parse_address check_port
parse_url-host host port n lh lp th tp number =
    let parts = split_address host port lh lp (not_slashes port n number) in
    let two = split-sep b':' host port lh ∙ ap (◌∷◌ host) (split-Lacks b':' [] port lp) in
    rw (parts, tcp_trim, not_unix, two, ◌>>=◌, check_port, tp, number, th, tp, tcp_trim)
  where
    tcp_trim : IsTrim (codes "tcp")
    tcp_trim = unfold trim_space in refl

    not_unix : text_eqb (codes "tcp") (codes "unix") ≡ false
    not_unix = unfold text_eqb in refl

-- Without a host either, it is localhost.
pub parse_url-port :
    (port : Text) (n : ℕ)
    → Lacks b':' port
    → IsTrim port
    → parse_uint16 port ≡ some n
    → parse_url port ≡ ok (codes "tcp", codes "localhost" ++ (b':' ∷ port))
unfolding parse_url parse_address check_port
parse_url-port port n lp tp number =
    let whole = split-Lacks b':' (codes "//") port lp in
    let one = split-Lacks b':' [] port lp in
    rw (whole, tcp_trim, not_unix, one, ◌>>=◌, check_port, tp, number, localhost_trim, tp, tcp_trim)
  where
    tcp_trim : IsTrim (codes "tcp")
    tcp_trim = unfold trim_space in refl

    localhost_trim : IsTrim (codes "localhost")
    localhost_trim = unfold trim_space in refl

    not_unix : text_eqb (codes "tcp") (codes "unix") ≡ false
    not_unix = unfold text_eqb in refl

-- A unix url keeps its path as it is.
pub parse_url-unix :
    (path : Text)
    → Lacks b':' path
    → parse_url (codes "unix" ++ (codes "://" ++ path)) ≡ ok (codes "unix", path)
unfolding parse_url parse_address
parse_url-unix path lp =
    let parts =
      split_url (codes "unix") path (omega arith)
      ∙ ap (◌∷◌ (codes "unix")) (split-Lacks b':' (codes "//") path lp) in
    rw (parts, unix_trim, is_unix)
  where
    unix_trim : IsTrim (codes "unix")
    unix_trim = unfold trim_space in refl

    is_unix : text_eqb (codes "unix") (codes "unix") ≡ true
    is_unix = unfold text_eqb in refl

bind-ok {ℓ κ} :
    {A : Type ℓ} {B : Type κ} (r : Result A) (f : A → Result B) {b : B}
    → (r >>= f) ≡ ok b
    → (a : A) × (r ≡ ok a) × (f a ≡ ok b)
bind-ok (ok a) f e = (a, refl, e)
bind-ok (err x) f e = cc

parse_uint16-le : (s : Text) (n : ℕ) → parse_uint16 s ≡ some n → n ≤ 65535
unfolding parse_uint16
parse_uint16-le [] n e = absurd (ground arith)
parse_uint16-le (c ∷ s) n e = elim (Option-cases (digits_value (c ∷ s) 0)) [
  | inl q ↦ absurd (ground arith)
  | inr (v, q) ↦ ground arith
]

abbrev HasPort : Text → Type 0
HasPort address =
    (host : Text) × (port : Text) × (n : ℕ) × (address ≡ host ++ (b':' ∷ port))
    × (parse_uint16 port ≡ some n)
    × (n ≤ 65535)

check_port-ok :
    (net network address host port : Text)
    → check_port net (host, port) ≡ ok (network, address)
    → HasPort address
unfolding check_port
check_port-ok net network address host port e =
    elim (Option-cases (parse_uint16 (trim_space port))) [
      | inl q ↦ absurd (ground arith)
      | inr (n, q) ↦ (
        trim_space host,
        trim_space port,
        n,
        ground arith,
        q,
        parse_uint16-le (trim_space port) n q,
      )
    ]

parse_address-ok :
    (net a network address : Text)
    → parse_address net a ≡ ok (network, address)
    → network ≢ codes "unix"
    → HasPort address
unfolding parse_address
parse_address-ok net a network address e tcp = elim (Bool-cases (text_eqb net (codes "unix"))) [
  | inl unix ↦ absurd (tcp (ground (arith, text_eqb_iff net (codes "unix"))))
  | inr other ↦
      let chain : (address_parts (split a (codes ":")) >>= check_port net) ≡ ok (network, address) =
        ground arith in
      let ((host, port), e1, r1) =
        bind-ok (address_parts (split a (codes ":"))) (check_port net) chain in
      check_port-ok net network address host port r1
]

-- An accepted address of any network but unix is a host, a colon and a port number that fits 16
-- bits.
pub parse_url-ok :
    (url network address : Text)
    → parse_url url ≡ ok (network, address)
    → network ≢ codes "unix"
    → (host : Text) × (port : Text) × (n : ℕ) × (address ≡ host ++ (b':' ∷ port))
      × (parse_uint16 port ≡ some n)
      × (n ≤ 65535)
unfolding parse_url
parse_url-ok url network address e tcp =
    let (parts, e1, r1) = bind-ok (url_parts (split url (codes "://"))) _ e in
    parse_address-ok (trim_space parts.0) parts.1 network address r1 tcp
