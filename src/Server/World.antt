-- ===== src/Server/World.antt =====
-- The state that the handlers of misc/server share, and the ways in which a handler ends.
-- A `Peer` is reached through a pointer, also from the copies of a tunnel that the store hands out:
-- the peers stand in a heap of their own, and an assignment through `peer` changes every copy.
use securetunnel.Base.{ℕ, zero, suc, Bool, true, false, List, [], ◌∷◌, Option, none, some, Text}
use securetunnel.Server.Id.{Draws, IdTokenGen}
use securetunnel.Server.Tunnel.{Tunnel, Peer, PeerRef}
use securetunnel.Server.Store.{MemoryStore}
use securetunnel.Server.Store.Table.{Result, ok, err}

-- The parts of `Services` that do not change, and what the handlers ask of code elsewhere: the
-- randomness, and the error, if any, of `Notifier.Notify` and `Authorizer.HasAuth`.
pub record Services : Type 0 where
  pub id_token_gen : IdTokenGen
  pub need_auth : Bool
  pub inter_server_network : Text
  pub inter_server_address : Text
  pub draws : Draws
  pub notify : Tunnel → Option Text

-- `draw` is the number of draws made so far.
pub record World : Type 0 where
  pub store : MemoryStore
  pub peers : List Peer
  pub draw : ℕ

-- The message of an answer that is not a success, without the texts of the errors that it quotes.
pub data Reason : Type 0 where
  failed_to_generate_id failed_to_store_tunnel failed_to_notify : Reason
  tunnel_not_found failed_to_update_tunnel : Reason
  invalid_access_token token_for_other_mode invalid_client_token tunnel_is_closed : Reason
  failed_to_update_connection failed_to_upgrade : Reason
  invalid_mode invalid_subprotocol unauthorized : Reason
  failed_to_parse_request failed_to_parse_header : Reason

-- HTTP status codes.
abbrev pub status_ok : ℕ
status_ok = 200

abbrev pub status_bad_request : ℕ
status_bad_request = 400

abbrev pub status_unauthorized : ℕ
status_unauthorized = 401

abbrev pub status_internal_server_error : ℕ
status_internal_server_error = 500

-- A handler goes on with a value, has answered with an error, or has dereferenced a nil pointer.
pub data Reply (A : Type 0) : Type 0 where
  go : A → Reply A
  refuse : ℕ → Reason → Reply A
  panic : Reply A

abbrev pub M : Type 0 → Type 0
M A = World → Reply A × World

abbrev pub bind : {A B : Type 0} → Reply A → World → (A → M B) → Reply B × World
bind (go a) w f = f a w
bind (refuse code why) w f = (refuse code why, w)
bind panic w f = (panic, w)

infixl 5 ◌>>=◌ ◌>>◌
abbrev pub ◌>>=◌ : {A B : Type 0} → M A → (A → M B) → M B
◌>>=◌ m f w = bind (m w).0 (m w).1 f

abbrev pub ◌>>◌ : {B : Type 0} → M (Unit {0}) → M B → M B
m >> k = m >>= λ _. k

abbrev pub pure : {A : Type 0} → A → M A
pure a w = (go a, w)

abbrev pub guard : Bool → ℕ → Reason → M (Unit {0})
guard true code why w = (go tt, w)
guard false code why w = (refuse code why, w)

-- A read of the store that may find nothing.
abbrev pub or_refuse : {A : Type 0} → Option A → ℕ → Reason → M A
or_refuse none code why w = (refuse code why, w)
or_refuse (some a) code why w = (go a, w)

-- A write to the store that may fail.
abbrev pub commit : Result MemoryStore → ℕ → Reason → M (Unit {0})
commit (ok s) code why w = (go tt, record w { store = s })
commit (err x) code why w = (refuse code why, w)

abbrev pub generated : {A : Type 0} → Option (A × ℕ) → ℕ → Reason → M A
generated none code why w = (refuse code why, w)
generated (some (a, n)) code why w = (go a, record w { draw = n })

-- The heap of peers.
abbrev pub get_elem? : List Peer → PeerRef → Option Peer
get_elem? [] i = none
get_elem? (p ∷ ps) zero = some p
get_elem? (p ∷ ps) (suc i) = get_elem? ps i

abbrev pub set : List Peer → PeerRef → Peer → List Peer
set [] i q = []
set (p ∷ ps) zero q = q ∷ ps
set (p ∷ ps) (suc i) q = p ∷ set ps i q

-- `*peer`, through a pointer that may be nil.
abbrev pub deref : Option PeerRef → M (PeerRef × Peer)
deref none w = (panic, w)
deref (some i) w = elim (get_elem? w.peers i) [ none ↦ (panic, w) | some p ↦ (go (i, p), w) ]
