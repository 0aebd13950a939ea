-- ===== src/Aws.antt =====
-- aws/mode.go, and the message type of aws/Message.pb.go.
pub mod Const
pub mod Frame
use securetunnel.Base.{
  ℕ, ◌≡◌, ◌↔◌, Bool, true, false, List, [], arith, KeyEq, Text, codes, text_eq, text_eqb,
  text_eqb_iff, ◌==◌, if◌then◌else◌,
}

-- `type Mode string`: the two modes that have a name of their own, and any other string.
pub data Mode : Type 0 where
  source destination : Mode
  other : Text → Mode

pattern abbrev pub mode_unknown : Mode
mode_unknown = other []

unfoldable pub other_mode : Mode → Mode
other_mode destination = source
other_mode source = destination
other_mode (other s) = mode_unknown

unfoldable pub mode_eqb : Mode → Mode → Bool
mode_eqb source source = true
mode_eqb destination destination = true
mode_eqb (other s) (other t) = text_eqb s t
mode_eqb _ _ = false

pub mode_eqb_iff : (a b : Mode) → (mode_eqb a b ≡ true) ↔ (a ≡ b)
unfolding mode_eqb
mode_eqb_iff source source = ground arith
mode_eqb_iff destination destination = ground arith
mode_eqb_iff (other s) (other t) = ground (arith, text_eqb_iff s t)
mode_eqb_iff source b = ground arith
mode_eqb_iff destination b = ground arith
mode_eqb_iff (other s) b = ground arith

instance abbrev pub mode_eq : KeyEq Mode
mode_eq = record { is_same = mode_eqb; is_same_iff = mode_eqb_iff }

-- The string that the mode is in the source.
abbrev pub mode_text : Mode → Text
mode_text source = codes "source"
mode_text destination = codes "destination"
mode_text (other s) = s

unfoldable pub mode_of_text : Text → Mode
mode_of_text s =
    if s == codes "source"
    then source
    else if s == codes "destination"
    then destination
    else other s

-- The enum is open: a number without a name can arrive.
pub data MessageType : Type 0 where
  unknown message_data stream_start stream_reset session_reset service_ids : MessageType
  unnamed : ℕ → MessageType

-- An int32 is kept as its bit pattern, a number below 2 ^ 32.
abbrev pub StreamId : Type 0
StreamId = ℕ

pub record Message : Type 0 where
  pub type : MessageType
  pub stream_id : StreamId
  pub ignorable : Bool
  pub payload : List ℕ
  pub service_id : Text
  pub available_service_ids : List Text
