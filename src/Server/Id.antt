-- ===== src/Server/Id.antt =====
-- misc/server/id.go. The cryptographic source of randomness is a parameter: its draws, each a number
-- or an error.
pub mod Token
use mathlib.Core.Option
use securetunnel.Base.{ℕ, zero, suc, ◌+◌, List, [], ◌∷◌, ◌++◌, Option, none, some, Text, codes}
use securetunnel.Base.Strings.{split}

abbrev pub separator : Text
separator = codes "_"

abbrev pub available_chars : Text
available_chars = codes "0123456789abcdefghijklmnopqrstuvwxyzABCDEFGHIJKLMNOPQRSTUVWXYZ"

-- `rand.Int(rand.Reader, len)`, by the number of the call.
abbrev pub Draws : Type 0
Draws = ℕ → Option ℕ

-- A computation that makes draws: `none` is an error, and otherwise the number of the next call.
abbrev pub Gen : Type 0 → Type 0
Gen A = Draws → ℕ → Option (A × ℕ)

abbrev pub bind : {A B : Type 0} → Option (A × ℕ) → (A → ℕ → Option (B × ℕ)) → Option (B × ℕ)
bind none f = none
bind (some (a, n)) f = f a n

infixl 5 ◌>>=◌
abbrev pub ◌>>=◌ : {A B : Type 0} → Gen A → (A → Gen B) → Gen B
◌>>=◌ m f draws n = bind (m draws n) (λ a n'. f a draws n')

abbrev pub pure : {A : Type 0} → A → Gen A
pure a draws n = some (a, n)

abbrev pub get_elem? : Text → ℕ → Option ℕ
get_elem? [] i = none
get_elem? (c ∷ s) zero = some c
get_elem? (c ∷ s) (suc i) = get_elem? s i

-- One round of the loop. A draw past the end of the characters, which would panic, is no draw of
-- `rand.Int`; here it is an error.
unfoldable pub draw_char : Gen ℕ
draw_char draws n = elim (draws n) [
  | none ↦ none
  | some i ↦ Option.map (λ c. (c, suc n)) (get_elem? available_chars i)
]

unfoldable pub generate_id : ℕ → Gen Text
unfolding draw_char
generate_id zero = pure []
generate_id (suc digit) = do c ← draw_char; id ← generate_id digit; pure (c ∷ id)

pub record IdTokenGen : Type 0 where
  pub tunnel_id_digit : ℕ
  pub token_digit : ℕ
  pub connection_id_digit : ℕ

unfoldable pub new_tunnel_id : IdTokenGen → Gen Text
unfolding generate_id
new_tunnel_id g = generate_id g.tunnel_id_digit

unfoldable pub new_token : IdTokenGen → Text → Gen Text
unfolding generate_id
new_token g tunnel_id = do id ← generate_id g.token_digit; pure (tunnel_id ++ (separator ++ id))

unfoldable pub new_connection_id : IdTokenGen → Text → Gen Text
unfolding generate_id
new_connection_id g tunnel_id = do
  id ← generate_id g.connection_id_digit
  pure (tunnel_id ++ (separator ++ id))

pub record IdTokens : Type 0 where
  pub tunnel_id : Text
  pub source_token : Text
  pub destination_token : Text

unfoldable pub new_id_tokens : IdTokenGen → Gen IdTokens
unfolding new_tunnel_id new_token
new_id_tokens g = do
  tunnel_id ← new_tunnel_id g
  source_token ← new_token g tunnel_id
  destination_token ← new_token g tunnel_id
  pure (record {
    tunnel_id = tunnel_id;
    source_token = source_token;
    destination_token = destination_token;
  })

-- `parts[0]`; `Split` returns at least one part.
abbrev pub first_part : List Text → Text
first_part [] = []
first_part (p ∷ ps) = p

-- `AccessToken.TunnelID` and `ConnectionID.TunnelID`, which are one code twice.
unfoldable pub tunnel_id : Text → Text
unfolding split
tunnel_id s = first_part (split s separator)
