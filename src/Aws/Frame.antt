-- ===== src/Aws/Frame.antt =====
-- aws/messagerw.go: messages behind a two-byte length, cut out of WebSocket messages.
-- `Unmarshal` and `Marshal` of the protobuf library are parameters; the bytes of a message are
-- numbers below 256. `blocked` says that the connection has delivered nothing more yet.
pub mod Stream
pub mod RoundTrip
pub mod Faults
use securetunnel.Base.{
  ℕ, zero, suc, ◌+◌, ◌*◌, ◌/◌, ◌%◌, ◌^◌, List, [], ◌∷◌, ◌++◌, true, false, Option, none, some,
  length, take, drop, ltb, if◌then◌else◌,
}
use securetunnel.Aws.Const.{size_of_message_size}

pub data WsMessageType : Type 0 where
  text_message binary_message : WsMessageType

-- What one call of `ReadMessage` returns.
pub data WsRead : Type 0 where
  received : WsMessageType → List ℕ → WsRead
  read_failed : WsRead

pub data Error : Type 0 where
  ws_failed only_binary invalid_protobuf : Error

pub data Outcome {ℓ} (A : Type ℓ) : Type ℓ where
  ok : A → Outcome A
  err : Error → Outcome A
  panic : Outcome A
  blocked : Outcome A

-- `messageReaderImpl`, with the reads that its connection will return.
pub record MessageReader : Type 0 where
  pub message_size : ℕ
  pub message_bin : List ℕ
  pub input : List WsRead

abbrev pub M : Type 0 → Type 0
M A = MessageReader → Outcome A × MessageReader

abbrev pub bind : {A B : Type 0} → Outcome A → MessageReader → (A → M B) → Outcome B × MessageReader
bind (ok a) r f = f a r
bind (err e) r f = (err e, r)
bind panic r f = (panic, r)
bind blocked r f = (blocked, r)

infixl 5 ◌>>=◌ ◌>>◌
abbrev pub ◌>>=◌ : {A B : Type 0} → M A → (A → M B) → M B
◌>>=◌ m f r = bind (m r).0 (m r).1 f

abbrev pub ◌>>◌ : {B : Type 0} → M (Unit {0}) → M B → M B
m >> k = m >>= λ _. k

abbrev pub pure : {A : Type 0} → A → M A
pure a r = (ok a, r)

-- `binaryReaderWSAdapter.Read`, on what `ReadMessage` returned.
unfoldable pub read : WsRead → Outcome (List ℕ)
read read_failed = err ws_failed
read (received text_message b) = err only_binary
read (received binary_message b) = ok b

-- The loop of `readAtLeast`; each round takes one WebSocket message.
unfoldable pub fill : ℕ → ℕ → List ℕ → List WsRead → Outcome (Unit {0}) × MessageReader
fill least size bin [] =
    let r : MessageReader = record { message_size = size; message_bin = bin; input = [] } in
    if ltb (length bin) least then (blocked, r) else (ok tt, r)
fill least size bin (x ∷ xs) = elim (ltb (length bin) least) [
  | false ↦ (ok tt, record { message_size = size; message_bin = bin; input = x ∷ xs })
  | true ↦ elim (read x) [
    | ok b ↦ fill least size (bin ++ b) xs
    | err e ↦ (err e, record { message_size = size; message_bin = bin; input = xs })
    | panic ↦ (panic, record { message_size = size; message_bin = bin; input = xs })
    | blocked ↦ (blocked, record { message_size = size; message_bin = bin; input = xs })
  ]
]

unfoldable pub read_at_least : ℕ → M (Unit {0})
unfolding fill
read_at_least least r = fill least r.message_size r.message_bin r.input

-- `binary.BigEndian.Uint16` and `PutUint16`.
abbrev pub uint16 : List ℕ → ℕ
uint16 (hi ∷ lo ∷ _) = hi * 256 + lo
uint16 _ = 0

abbrev pub put_uint16 : ℕ → List ℕ
put_uint16 v = (v / 256 % 256) ∷ (v % 256) ∷ []

-- The sum is a uint16.
abbrev pub end_of_message : ℕ → ℕ
end_of_message size = (size_of_message_size + size) % 2 ^ 16

-- `messageBin[2:end]` and `messageBin[end:]`; a slice that ends before it begins panics.
unfoldable pub cut_message : ℕ → M (List ℕ)
cut_message end r = if ltb end size_of_message_size then (panic, r) else (
  ok (drop size_of_message_size (take end r.message_bin)),
  record r { message_size = 0; message_bin = drop end r.message_bin },
)

unfoldable pub read_size : M ℕ
read_size r =
    let size = uint16 (take size_of_message_size r.message_bin) in
    (ok size, record r { message_size = size })

module _ {A : Type 0} where
  unfoldable pub decode : (List ℕ → Option A) → List ℕ → M A
  decode unmarshal body r = elim (unmarshal body) [
    | none ↦ (err invalid_protobuf, r)
    | some m ↦ (ok m, r)
  ]

  -- `Next` once the size is known.
  unfoldable pub next_body : (List ℕ → Option A) → ℕ → M A
  next_body unmarshal end = do read_at_least end; body ← cut_message end; decode unmarshal body

  -- `Next`.
  unfoldable pub next : (List ℕ → Option A) → M A
  next unmarshal = do
    read_at_least size_of_message_size
    size ← read_size
    next_body unmarshal (end_of_message size)

  -- `SerializeMessage`: the length is cut to a uint16.
  unfoldable pub serialize_message : (A → Option (List ℕ)) → A → Option (List ℕ)
  serialize_message marshal m = elim (marshal m) [
    | none ↦ none
    | some body ↦ some (put_uint16 (length body % 2 ^ 16) ++ body)
  ]

  -- The first `n` calls of `Next`.
  unfoldable pub next_messages : (List ℕ → Option A) → ℕ → M (List A)
  next_messages unmarshal zero = pure []
  next_messages unmarshal (suc n) = do
    m ← next unmarshal
    ms ← next_messages unmarshal n
    pure (m ∷ ms)
