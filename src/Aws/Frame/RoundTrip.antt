-- ===== src/Aws/Frame/RoundTrip.antt =====
-- `Next` against `SerializeMessage`, for every way in which the bytes are cut into WebSocket messages.
use securetunnel.Base.{
  ℕ, ◌+◌, ◌*◌, ◌/◌, ◌%◌, ◌^◌, ◌≤◌, ◌<◌, ◌≡◌, refl, sym, ap, ◌∙◌, List, [], ◌∷◌, ◌++◌, append_assoc,
  Option, some, arith, length, length-append, take, drop, take-append, drop-append,
  take-length-append, drop-length-append, inl, inr, Option-cases, All,
}
use securetunnel.Aws.Frame.{
  MessageReader, Outcome, ok, bind, cut_message, read_size, decode, next_body, next, next_messages,
  serialize_message, uint16, put_uint16, end_of_message,
}
use securetunnel.Aws.Frame.Stream.{pending, flat, AllBinary, Filled, read_at_least-Filled}

abbrev pub framed : ℕ → ℕ → List ℕ → List ℕ → List ℕ
framed hi lo body rest = (hi ∷ lo ∷ body) ++ rest

pub size_lem :
    (hi lo : ℕ) (x : List ℕ) (size : ℕ) (r : MessageReader)
    → Filled 2 size (hi ∷ lo ∷ x) r
    → uint16 (take 2 r.message_bin) ≡ hi * 256 + lo
size_lem hi lo x size r f =
    ap uint16 (sym (take-append 2 r.message_bin (flat r.input) f.enough) ∙ ap (take 2) f.same)

-- With the whole message in the buffer, the slices are its body and what follows it.
cut_lem :
    (hi lo size : ℕ) (body rest : List ℕ) (r : MessageReader)
    → Filled (length (hi ∷ lo ∷ body)) size (framed hi lo body rest) r
    → (r' : MessageReader) × (cut_message (length (hi ∷ lo ∷ body)) r ≡ (ok body, r'))
      × (pending r' ≡ rest)
      × AllBinary r'.input
unfolding cut_message
cut_lem hi lo size body rest r f =
    let end : ℕ = length (hi ∷ lo ∷ body) in
    let bin : List ℕ = r.message_bin in
    let front : take end bin ≡ hi ∷ lo ∷ body =
      sym (take-append end bin (flat r.input) f.enough)
      ∙ ap (take end) f.same
      ∙ take-length-append (hi ∷ lo ∷ body) rest in
    let back : drop end bin ++ flat r.input ≡ rest =
      sym (drop-append end bin (flat r.input) f.enough)
      ∙ ap (drop end) f.same
      ∙ drop-length-append (hi ∷ lo ∷ body) rest in
    (record r { message_size = 0; message_bin = drop end bin }, ground arith, back, f.binary)

-- The message and the stream that is left.
pub record Took {A : Type 0} (m : A) (rest : List ℕ) (o : Outcome A × MessageReader) : Type 0 where
  pub after : MessageReader
  pub result : o ≡ (ok m, after)
  pub left : pending after ≡ rest
  pub binary : AllBinary after.input

module _ {A : Type 0} (unmarshal : List ℕ → Option A) where
  Took-body :
      (hi lo : ℕ) (body rest : List ℕ) (m : A) (r : MessageReader)
      → AllBinary r.input
      → pending r ≡ framed hi lo body rest
      → unmarshal body ≡ some m
      → Took m rest (next_body unmarshal (length (hi ∷ lo ∷ body)) r)
  unfolding next_body decode
  Took-body hi lo body rest m r all e um =
      let end : ℕ = length (hi ∷ lo ∷ body) in
      let fits : end ≤ length (framed hi lo body rest) = omega (arith, length-append body rest) in
      let (r1, e1, f) = read_at_least-Filled end r (framed hi lo body rest) all e fits in
      let (r2, e2, left, binary) = cut_lem hi lo r.message_size body rest r1 f in
      record { after = r2; result = rw (e1, e2, bind, um, decode); left = left; binary = binary }

  -- `Next` cuts the first message off the stream, however the stream is cut into WebSocket messages.
  pub Took-frame :
      (hi lo : ℕ) (body rest : List ℕ) (m : A) (r : MessageReader)
      → AllBinary r.input
      → pending r ≡ framed hi lo body rest
      → length body ≡ hi * 256 + lo
      → length body < 65534
      → unmarshal body ≡ some m
      → Took m rest (next unmarshal r)
  unfolding next read_size
  Took-frame hi lo body rest m r all e size small um =
      let (r1, e1, f) = read_at_least-Filled 2 r (framed hi lo body rest) all e (omega arith) in
      let got : uint16 (take 2 r1.message_bin) ≡ hi * 256 + lo =
        size_lem hi lo (body ++ rest) r.message_size r1 f in
      let end : end_of_message (uint16 (take 2 r1.message_bin)) ≡ length (hi ∷ lo ∷ body) =
        omega arith in
      rw (e1, end)
        (Took-body hi lo body rest m (record r1 { message_size = uint16 (take 2 r1.message_bin) })
          f.binary f.same um)

module _ {A : Type 0} (marshal : A → Option (List ℕ)) where
  -- What a sender writes for a sequence of messages, each through `SerializeMessage`.
  pub data Sent : List A → List ℕ → Type 0 where
    nothing : Sent [] []
    message :
        {m : A} {ms : List A} {frame rest stream : List ℕ}
        → serialize_message marshal m ≡ some frame
        → Sent ms rest
        → stream ≡ frame ++ rest
        → Sent (m ∷ ms) stream

  -- The protobuf encoding of the message leaves its length and the size field below 2 ^ 16.
  abbrev pub IsShort : A → Type 0
  IsShort m = (body : List ℕ) → marshal m ≡ some body → length body < 65534

  pub serialize_inv :
      (m : A) (frame : List ℕ)
      → serialize_message marshal m ≡ some frame
      → (body : List ℕ) × (marshal m ≡ some body)
        × (put_uint16 (length body % 2 ^ 16) ++ body ≡ frame)
  unfolding serialize_message
  serialize_inv m frame e = elim (Option-cases (marshal m)) [
    | inl q ↦ absurd (ground arith)
    | inr (body, q) ↦ (body, q, ground arith)
  ]

module _ {A : Type 0} (marshal : A → Option (List ℕ)) (unmarshal : List ℕ → Option A)
    (unmarshal-marshal : (m : A) (body : List ℕ)
      → marshal m ≡ some body
      → unmarshal body ≡ some m) where
  Took-message :
      (m : A) (frame rest : List ℕ) (r : MessageReader)
      → IsShort marshal m
      → serialize_message marshal m ≡ some frame
      → AllBinary r.input
      → pending r ≡ frame ++ rest
      → Took m rest (next unmarshal r)
  Took-message m frame rest r short e all p =
      let (body, q, f) = serialize_inv marshal m frame e in
      let small : length body < 65534 = short body q in
      let size : ℕ = length body % 2 ^ 16 in
      Took-frame unmarshal (size / 256 % 256) (size % 256) body rest m r all
        (p ∙ ap (λ x. x ++ rest) (sym f)) (omega arith) small (unmarshal-marshal m body q)

  -- If `unmarshal` reads back what `marshal` writes and every encoding is shorter than 65534
  -- bytes, a sequence of messages sent through `SerializeMessage` comes back in order from as
  -- many calls of `Next`, however its bytes are cut into binary WebSocket messages, and the bytes
  -- behind the sequence are left unread.
  pub next_messages-Sent :
      (ms : List A) (stream rest : List ℕ) (r : MessageReader)
      → All (IsShort marshal) ms
      → Sent marshal ms stream
      → AllBinary r.input
      → pending r ≡ stream ++ rest
      → Took ms rest (next_messages unmarshal (length ms) r)
  unfolding next_messages
  next_messages-Sent [] stream rest r short nothing all p = record {
    after = r;
    result = refl;
    left = p;
    binary = all;
  }
  next_messages-Sent (m ∷ ms) stream rest r short (message {frame} {rest = more} e sent q) all p =
      let t =
        Took-message m frame (more ++ rest) r short.0 e all
          (p ∙ ap (λ x. x ++ rest) q ∙ append_assoc frame more rest) in
      let u = next_messages-Sent ms more rest t.after short.1 sent t.binary t.left in
      record { after = u.after; result = rw (t.result, u.result); left = u.left; binary = u.binary }
