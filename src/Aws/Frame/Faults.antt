-- ===== src/Aws/Frame/Faults.antt =====
-- `Next` and `SerializeMessage` on errors of the connection and at the edge of the uint16 size.
use securetunnel.Base.{
  ℕ, ◌+◌, ◌*◌, ◌/◌, ◌%◌, ◌^◌, ◌≤◌, ◌<◌, ◌≡◌, refl, sym, ap, ◌∙◌, List, [], ◌∷◌, ◌++◌, append_assoc,
  append-nil, Option, some, arith, length, length-append, take, true, ltb, lt→ltb,
}
use securetunnel.Aws.Frame.{
  binary_message, text_message, WsRead, received, read_failed, Error, MessageReader, err, panic,
  read, fill, cut_message, read_size, next_body, next, serialize_message, uint16, put_uint16,
  end_of_message,
}
use securetunnel.Aws.Frame.Stream.{pending, flat, AllBinary, read_at_least-Filled}
use securetunnel.Aws.Frame.RoundTrip.{size_lem}

cut_message-panic : (end : ℕ) (r : MessageReader) → end < 2 → cut_message end r ≡ (panic, r)
unfolding cut_message
cut_message-panic end r h = rw (lt→ltb end 2 h)

module _ {A : Type 0} (unmarshal : List ℕ → Option A) where
  next_body-panic :
      (end : ℕ) (r : MessageReader)
      → AllBinary r.input
      → end < 2
      → end ≤ length (pending r)
      → (next_body unmarshal end r).0 ≡ panic
  unfolding next_body
  next_body-panic end r all small h =
      let (r1, e1, f) = read_at_least-Filled end r (pending r) all refl h in
      rw (e1, cut_message-panic end r1 small)

  -- If binary messages deliver a size field of 65534 or 65535, `Next` panics, as the end of the
  -- message wraps around.
  pub next-panic :
      (hi lo : ℕ) (rest : List ℕ) (r : MessageReader)
      → AllBinary r.input
      → pending r ≡ hi ∷ lo ∷ rest
      → 65534 ≤ hi * 256 + lo
      → hi * 256 + lo < 65536
      → (next unmarshal r).0 ≡ panic
  unfolding next read_size
  next-panic hi lo rest r all e large fits =
      let (r1, e1, f) = read_at_least-Filled 2 r (hi ∷ lo ∷ rest) all e (omega arith) in
      let size : ℕ = uint16 (take 2 r1.message_bin) in
      let got : size ≡ hi * 256 + lo = size_lem hi lo rest r.message_size r1 f in
      rw e1 (
        next_body-panic (end_of_message size) (record r1 { message_size = size }) f.binary
          (omega arith) (omega (arith, ap length f.same)))

module _ {A : Type 0} (marshal : A → Option (List ℕ)) (unmarshal : List ℕ → Option A) where
  -- A message whose encoding is 65534 or 65535 bytes longer than a multiple of 2 ^ 16 is serialized
  -- without an error, and the reader that receives it panics.
  pub next-serialize_panic :
      (m : A) (body frame rest : List ℕ) (r : MessageReader)
      → marshal m ≡ some body
      → 65534 ≤ length body % 2 ^ 16
      → serialize_message marshal m ≡ some frame
      → AllBinary r.input
      → pending r ≡ frame ++ rest
      → (next unmarshal r).0 ≡ panic
  unfolding serialize_message
  next-serialize_panic m body frame rest r q large e all p =
      let size : ℕ = length body % 2 ^ 16 in
      let f : put_uint16 size ++ body ≡ frame = ground arith in
      next-panic unmarshal (size / 256 % 256) (size % 256) (body ++ rest) r all
        (p ∙ ap (λ x. x ++ rest) (sym f)) (omega arith) (omega arith)

-- If a read fails before enough bytes have come, the bytes of the binary messages before it stay in
-- the buffer, the error is returned, and what comes behind it is not read.
pub fill-err :
    (least size : ℕ) (bin : List ℕ) (before after : List WsRead) (x : WsRead) (why : Error)
    → AllBinary before
    → read x ≡ err why
    → length (bin ++ flat before) < least
    → fill least size bin (before ++ x ∷ after)
      ≡ (err why, record { message_size = size; message_bin = bin ++ flat before; input = after })
unfolding fill read
fill-err least size bin [] after x why all e h =
    let same : bin ++ [] ≡ bin = append-nil bin in
    let short : ltb (length bin) least ≡ true = ground (arith, ap length same) in
    rw (same, short, e, fill)
fill-err least size bin (received binary_message b ∷ xs) after x why all e h =
    let same : (bin ++ b) ++ flat xs ≡ bin ++ (b ++ flat xs) = append_assoc bin b (flat xs) in
    let short : ltb (length bin) least ≡ true = ground (arith, length-append bin (b ++ flat xs)) in
    rw (short, fill, ← same) (fill-err least size (bin ++ b) xs after x why all.1 e (rw same h))
fill-err least size bin (received text_message b ∷ xs) after x why all e h = absurd all.0
fill-err least size bin (read_failed ∷ xs) after x why all e h = absurd all.0
