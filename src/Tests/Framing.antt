-- ===== src/Tests/Framing.antt =====
-- Frames of aws/messagerw.go, with a message that is a number of zero bytes on the wire.
use native.Mathlib.Omega.{arith}
use mathlib.Core.Option.{some-injective}
use securetunnel.Base.{
  ℕ, zero, suc, ◌%◌, ◌^◌, ◌≡◌, refl, sym, ap, List, [], ◌∷◌, ◌++◌, Option, some, length,
}
use securetunnel.Aws.Frame.{
  binary_message, text_message, received, read_failed, MessageReader, ok, err, panic, only_binary,
  fill, read, read_at_least, read_size, next_body, cut_message, decode, next, next_messages,
  serialize_message, put_uint16,
}
use securetunnel.Aws.Frame.RoundTrip.{Took, Sent, nothing, message, next_messages-Sent}
use securetunnel.Aws.Frame.Faults.{next-panic, next-serialize_panic, fill-err}

-- Two messages, of three bytes and of one.
abbrev encode : List ℕ → Option (List ℕ)
encode m = some m

abbrev two_messages : List (List ℕ)
two_messages = (7 ∷ 8 ∷ 9 ∷ []) ∷ (5 ∷ []) ∷ []

abbrev wire : List ℕ
wire = 0 ∷ 3 ∷ 7 ∷ 8 ∷ 9 ∷ 0 ∷ 1 ∷ 5 ∷ []

abbrev reader : MessageReader
reader = record {
  message_size = 0;
  message_bin = [];
  input =
      received binary_message (0 ∷ [])
      ∷ received binary_message (3 ∷ 7 ∷ 8 ∷ [])
      ∷ received binary_message (9 ∷ 0 ∷ 1 ∷ 5 ∷ 4 ∷ [])
      ∷ [];
}

frames_of : Sent encode two_messages wire
unfolding serialize_message
frames_of = message refl (message refl nothing refl) refl

next_messages-Sent_example : Took two_messages (4 ∷ []) (next_messages encode 2 reader)
next_messages-Sent_example =
    next_messages-Sent encode encode (λ m body e. sym e) two_messages wire (4 ∷ []) reader
      (
        λ body e. omega (arith, ap length (some-injective _ _ e)),
        (λ body e. omega (arith, ap length (some-injective _ _ e)), tt),
      )
      frames_of (tt, (tt, (tt, tt))) refl

next_messages_run : (next_messages encode 2 reader).0 ≡ ok two_messages
unfolding next_messages next read_at_least read read_size next_body cut_message decode
next_messages_run = refl

abbrev large_size : MessageReader
large_size = record {
  message_size = 0;
  message_bin = 255 ∷ [];
  input = received binary_message (254 ∷ 1 ∷ []) ∷ [];
}

next-panic_example : (next encode large_size).0 ≡ panic
next-panic_example =
    next-panic encode 255 254 (1 ∷ []) large_size (tt, tt) refl (omega arith) (omega arith)

-- A message that is nothing but its size.
unfoldable zeros : ℕ → List ℕ
zeros zero = []
zeros (suc n) = 0 ∷ zeros n

length-zeros : (n : ℕ) → length (zeros n) ≡ n
unfolding zeros
length-zeros zero = refl
length-zeros (suc n) = ap suc (length-zeros n)

abbrev encode_zeros : ℕ → Option (List ℕ)
encode_zeros n = some (zeros n)

abbrev decode_zeros : List ℕ → Option ℕ
decode_zeros body = some (length body)

abbrev frame_of : ℕ → List ℕ
frame_of n = put_uint16 (length (zeros n) % 2 ^ 16) ++ zeros n

abbrev reader_of : ℕ → MessageReader
reader_of n = record {
  message_size = 0;
  message_bin = [];
  input = received binary_message (frame_of n) ∷ [];
}

serialize_zeros : (n : ℕ) → serialize_message encode_zeros n ≡ some (frame_of n)
unfolding serialize_message
serialize_zeros n = refl

next-serialize_panic_example : (next decode_zeros (reader_of 65535)).0 ≡ panic
next-serialize_panic_example =
    next-serialize_panic encode_zeros decode_zeros 65535 (zeros 65535) (frame_of 65535) []
      (reader_of 65535) refl (omega (arith, length-zeros 65535)) (serialize_zeros 65535) (tt, tt)
      refl

fill-err_example :
    fill 4 0
      (1 ∷ [])
      (received binary_message (2 ∷ []) ∷ received text_message (3 ∷ []) ∷ read_failed ∷ [])
    ≡ (
      err only_binary,
      record { message_size = 0; message_bin = 1 ∷ 2 ∷ []; input = read_failed ∷ [] },
    )
unfolding read
fill-err_example =
    fill-err 4 0 (1 ∷ []) (received binary_message (2 ∷ []) ∷ []) (read_failed ∷ [])
      (received text_message (3 ∷ [])) only_binary (tt, tt) refl (omega arith)
