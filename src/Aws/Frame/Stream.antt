-- ===== src/Aws/Frame/Stream.antt =====
-- The reader sees the WebSocket messages as one stream of bytes.
use securetunnel.Base.{
  ℕ, ◌≤◌, ◌≡◌, refl, ap, inl, inr, List, [], ◌∷◌, ◌++◌, append_assoc, append-nil, arith, length,
  ltb, Bool-cases,
}
use securetunnel.Aws.Frame.{
  text_message, binary_message, WsRead, received, read_failed, MessageReader, ok, fill, read,
  read_at_least,
}

-- The bytes that are still to come, if only binary messages come.
abbrev pub flat : List WsRead → List ℕ
flat [] = []
flat (received binary_message b ∷ xs) = b ++ flat xs
flat (x ∷ xs) = flat xs

abbrev pub IsBinary : WsRead → Type 0
IsBinary (received binary_message b) = Unit {0}
IsBinary _ = ⊥

abbrev pub AllBinary : List WsRead → Type 0
AllBinary [] = Unit {0}
AllBinary (x ∷ xs) = IsBinary x × AllBinary xs

abbrev pub pending : MessageReader → List ℕ
pending r = r.message_bin ++ flat r.input

-- A successful fill: no byte is lost or moved, and enough of them are in the buffer.
pub record Filled (least : ℕ) (size : ℕ) (stream : List ℕ) (r : MessageReader) : Type 0 where
  pub same : pending r ≡ stream
  pub enough : least ≤ length r.message_bin
  pub binary : AllBinary r.input
  pub kept : r.message_size ≡ size

pub fill-Filled :
    (least size : ℕ) (bin : List ℕ) (xs : List WsRead)
    → AllBinary xs
    → least ≤ length (bin ++ flat xs)
    → (r : MessageReader) × (fill least size bin xs ≡ (ok tt, r))
      × Filled least size (bin ++ flat xs) r
unfolding fill read
fill-Filled least size bin [] all h =
    let r : MessageReader = record { message_size = size; message_bin = bin; input = [] } in
    let enough : least ≤ length bin = omega (arith, ap length (append-nil bin)) in
    (r, ground arith, record { same = refl; enough = enough; binary = tt; kept = refl })
fill-Filled least size bin (received text_message b ∷ xs) all h = absurd all.0
fill-Filled least size bin (read_failed ∷ xs) all h = absurd all.0
fill-Filled least size bin (received binary_message b ∷ xs) all h =
    elim (Bool-cases (ltb (length bin) least)) [
      | inl short ↦
          let same : (bin ++ b) ++ flat xs ≡ bin ++ (b ++ flat xs) = append_assoc bin b (flat xs) in
          let (r, e, f) = fill-Filled least size (bin ++ b) xs all.1 (rw same h) in
          (r, rw (short, fill) e, rw same at f)
      | inr long ↦ (
        record { message_size = size; message_bin = bin; input = received binary_message b ∷ xs },
        rw (long, fill),
        record { same = refl; enough = ground arith; binary = all; kept = refl },
      )
    ]

pub read_at_least-Filled :
    (least : ℕ) (r : MessageReader) (stream : List ℕ)
    → AllBinary r.input
    → pending r ≡ stream
    → least ≤ length stream
    → (r' : MessageReader) × (read_at_least least r ≡ (ok tt, r'))
      × Filled least r.message_size stream r'
unfolding read_at_least
read_at_least-Filled least r stream all e h =
    rw (← e) (fill-Filled least r.message_size r.message_bin r.input all (rw e h))
