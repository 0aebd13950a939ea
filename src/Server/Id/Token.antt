-- ===== src/Server/Id/Token.antt =====
-- The tunnel's id can be read back from every token and connection id that is generated for it.
use securetunnel.Base.{
  ℕ, zero, suc, ◌≡◌, ◌≢◌, refl, ap, inl, inr, [], ◌∷◌, ◌++◌, Option, none, some, arith, Text,
  length, Option-cases,
}
use securetunnel.Base.Strings.{split-sep, Lacks}
use securetunnel.Server.Id.{
  separator, available_chars, Draws, bind, get_elem?, draw_char, generate_id, IdTokenGen,
  new_tunnel_id, new_token, new_connection_id, IdTokens, new_id_tokens, first_part, tunnel_id,
}

-- A character that ids are made of is not the separator.
get_elem?-ne : (s : Text) (i c : ℕ) → Lacks b'_' s → get_elem? s i ≡ some c → c ≢ b'_'
get_elem?-ne [] i c h e = absurd (ground arith)
get_elem?-ne (x ∷ s) zero c h e = ground arith
get_elem?-ne (x ∷ s) (suc i) c h e = get_elem?-ne s i c h.1 e

draw_char-ne : (draws : Draws) (n c n' : ℕ) → draw_char draws n ≡ some (c, n') → c ≢ b'_'
unfolding draw_char
draw_char-ne draws n c n' e = elim (Option-cases (draws n)) [
  | inl q ↦ absurd (ground arith)
  | inr (i, q) ↦ elim (Option-cases (get_elem? available_chars i)) [
    | inl r ↦ absurd (ground arith)
    | inr (d, r) ↦ get_elem?-ne available_chars i c (omega arith) (ground arith)
  ]
]

bind-some :
    {A B : Type 0} (m : Option (A × ℕ)) (f : A → ℕ → Option (B × ℕ)) (r : B × ℕ)
    → bind m f ≡ some r
    → (a : A) × (n : ℕ) × (m ≡ some (a, n)) × (f a n ≡ some r)
bind-some none f r e = absurd (ground arith)
bind-some (some (a, n)) f r e = (a, n, refl, e)

-- A generated id has the number of characters asked for, and none of them is the separator.
pub generate_id-Lacks :
    (digit : ℕ) (draws : Draws) (n : ℕ) (id : Text) (n' : ℕ)
    → generate_id digit draws n ≡ some (id, n')
    → Lacks b'_' id × (length id ≡ digit)
unfolding generate_id
generate_id-Lacks zero draws n id n' e = let empty : id ≡ [] = ground arith in rw empty (tt, refl)
generate_id-Lacks (suc digit) draws n id n' e =
    let (c, n1, e1, r1) = bind-some (draw_char draws n) _ (id, n') e in
    let (s, n2, e2, r2) = bind-some (generate_id digit draws n1) _ (id, n') r1 in
    let (lacks, len) = generate_id-Lacks digit draws n1 s n2 e2 in
    let cons : id ≡ c ∷ s = ground arith in
    rw cons ((draw_char-ne draws n c n1 e1, lacks), ap suc len)

tunnel_id-of : (t id : Text) → Lacks b'_' t → tunnel_id (t ++ (separator ++ id)) ≡ t
unfolding tunnel_id
tunnel_id-of t id h = ap first_part (split-sep b'_' t id h)

pub tunnel_id-new_token :
    (g : IdTokenGen) (t : Text) (draws : Draws) (n : ℕ) (token : Text) (n' : ℕ)
    → Lacks b'_' t
    → new_token g t draws n ≡ some (token, n')
    → tunnel_id token ≡ t
unfolding new_token
tunnel_id-new_token g t draws n token n' h e =
    let (id, n1, e1, r1) = bind-some (generate_id g.token_digit draws n) _ (token, n') e in
    let shape : token ≡ t ++ (separator ++ id) = ground arith in rw shape (tunnel_id-of t id h)

-- `TunnelID` of a connection id that was generated for a tunnel id without the separator is that
-- tunnel id.
pub tunnel_id-new_connection_id :
    (g : IdTokenGen) (t : Text) (draws : Draws) (n : ℕ) (id : Text) (n' : ℕ)
    → Lacks b'_' t
    → new_connection_id g t draws n ≡ some (id, n')
    → tunnel_id id ≡ t
unfolding new_connection_id
tunnel_id-new_connection_id g t draws n id n' h e =
    let (s, n1, e1, r1) = bind-some (generate_id g.connection_id_digit draws n) _ (id, n') e in
    let shape : id ≡ t ++ (separator ++ s) = ground arith in rw shape (tunnel_id-of t s h)

-- Whatever is drawn: if the ids and tokens of a new tunnel are generated, the tunnel id has the
-- configured length and no separator, and `TunnelID` of each of the two tokens is that tunnel id.
pub tunnel_id-new_id_tokens :
    (g : IdTokenGen) (draws : Draws) (n : ℕ) (ids : IdTokens) (n' : ℕ)
    → new_id_tokens g draws n ≡ some (ids, n')
    → (length ids.tunnel_id ≡ g.tunnel_id_digit)
      × Lacks b'_' ids.tunnel_id
      × (tunnel_id ids.source_token ≡ ids.tunnel_id)
      × (tunnel_id ids.destination_token ≡ ids.tunnel_id)
unfolding new_id_tokens
tunnel_id-new_id_tokens g draws n ids n' e =
    let (t, n1, e1, r1) = bind-some (new_tunnel_id g draws n) _ (ids, n') e in
    let (s, n2, e2, r2) = bind-some (new_token g t draws n1) _ (ids, n') r1 in
    let (d, n3, e3, r3) = bind-some (new_token g t draws n2) _ (ids, n') r2 in
    let shape : ids ≡ record { tunnel_id = t; source_token = s; destination_token = d } =
      ground arith in
    let (lacks, len) = generate_id-Lacks g.tunnel_id_digit draws n t n1 e1 in
    rw shape (
      len,
      lacks,
      tunnel_id-new_token g t draws n1 s n2 lacks e2,
      tunnel_id-new_token g t draws n2 d n3 lacks e3,
    )
