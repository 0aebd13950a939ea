-- ===== src/Server/Peers.antt =====
-- misc/server/peerconmanager.go and peerconnection.go. The connections stand in a heap; each function
-- is one critical section, or one step of a goroutine, and `Step` interleaves them in any order.
-- Whether a message or a close frame can be written is up to the network, an argument of the steps.
pub mod Sections
pub mod Entry
pub mod Entering
pub mod Leaving
pub mod Association
pub mod Delivery
pub mod Order
pub mod Written
pub mod Forwarded
pub mod Relay
use securetunnel.Base.{
  ℕ, suc, ◌<◌, ◌≡◌, ◌↔◌, Bool, true, false, ◌&&◌, List, [], ◌∷◌, ◌++◌, Option, none, some, arith,
  KeyEq, ◌==◌, text_eq, eqb, ltb, if◌then◌else◌, Text, text_eqb, text_eqb_iff, codes, length,
}
use securetunnel.Base.Dict.{lookup, insert, erase}
use securetunnel.Aws.{Mode, other_mode, mode_eqb, mode_eqb_iff, Message}
use securetunnel.Aws.Const.{status_reason_tunnel_closed}

-- `peerConnectionKey`.
pub record Key : Type 0 where
  pub tunnel_id : Text
  pub mode : Mode

unfoldable pub key_eqb : Key → Key → Bool
key_eqb a b = text_eqb a.tunnel_id b.tunnel_id && mode_eqb a.mode b.mode

pub key_eqb_iff : (a b : Key) → (key_eqb a b ≡ true) ↔ (a ≡ b)
unfolding key_eqb
key_eqb_iff a b = ground (arith, text_eqb_iff a.tunnel_id b.tunnel_id, mode_eqb_iff a.mode b.mode)

instance abbrev pub key_eq : KeyEq Key
key_eq = record { is_same = key_eqb; is_same_iff = key_eqb_iff }

abbrev pub other_key : Key → Key
other_key k = record k { mode = other_mode k.mode }

abbrev pub ConRef : Type 0
ConRef = ℕ

-- Where the goroutine of a connection stands: in `run`, behind it, or behind the second critical
-- section of `connect`.
pub data Phase : Type 0 where
  running ended left : Phase

-- `associated_con` is `none` for a `nilConWriter`. `taken` is what the writer took out of the channel,
-- and `written` what it wrote to the WebSocket, behind the ServiceIDs message of `run`.
pub record PeerConnection : Type 0 where
  pub key : Key
  pub service_ids : List Text
  pub associated_con : Option ConRef
  pub closed : Bool
  pub close_frame : Option (ℕ × Text)
  pub ws_closed : Bool
  pub channel_closed : Bool
  pub ch_message : List Message
  pub taken : List Message
  pub written : List Message
  pub write_failed : Bool
  pub phase : Phase

pub record Manager : Type 0 where
  pub peer_con_map : List (Key × ConRef)
  pub con : ℕ → PeerConnection
  pub next : ConRef

-- The capacity of `chMessage`.
abbrev pub channel_capacity : ℕ
channel_capacity = 10

abbrev pub set_con : ConRef → PeerConnection → Manager → Manager
set_con r c m = record m { con = λ i. if eqb r i then c else m.con i }

-- `associate`.
unfoldable pub associate : ConRef → Option ConRef → Manager → Manager
associate r w m = set_con r (record (m.con r) { associated_con = w }) m

-- `close`: only the first call sends a frame, and the socket is closed only if that succeeds.
unfoldable pub closed_con : Bool → ℕ → Text → PeerConnection → PeerConnection
closed_con write_ok code text c =
    if c.closed
    then c
    else if write_ok
    then record c { closed = true; close_frame = some (code, text); ws_closed = true }
    else record c { closed = true }

unfoldable pub close : Bool → ConRef → ℕ → Text → Manager → Manager
unfolding closed_con
close write_ok r code text m = set_con r (closed_con write_ok code text (m.con r)) m

-- RFC 6455's codes.
abbrev pub close_normal_closure : ℕ
close_normal_closure = 1000

abbrev pub close_protocol_error : ℕ
close_protocol_error = 1002

unfoldable pub new_peer_connection : Key → List Text → PeerConnection
new_peer_connection k services = record {
  key = k;
  service_ids = services;
  associated_con = none;
  closed = false;
  close_frame = none;
  ws_closed = false;
  channel_closed = false;
  ch_message = [];
  taken = [];
  written = [];
  write_failed = false;
  phase = running;
}

abbrev pub close_existing : Bool → Option ConRef → Manager → Manager
close_existing write_ok none m = m
close_existing write_ok (some r) m =
    close write_ok r close_protocol_error (codes "overwritten by other connection") m

abbrev pub associate_peers : ConRef → Option ConRef → Manager → Manager
associate_peers r none m = associate r none m
associate_peers r (some o) m = associate o (some r) (associate r (some o) m)

-- `newPeerConnection` and the first critical section of `connect`.
unfoldable pub enter : Bool → Key → List Text → Manager → Manager
unfolding new_peer_connection close associate
enter write_ok k services m =
    let r = m.next in
    let m1 = record (set_con r (new_peer_connection k services) m) { next = suc r } in
    let m2 = close_existing write_ok (lookup k m1.peer_con_map) m1 in
    let m3 = associate_peers r (lookup (other_key k) m2.peer_con_map) m2 in
    record m3 { peer_con_map = insert k r m3.peer_con_map }

-- The end of `run`: the deferred functions close the connection and then its channel. If the
-- ServiceIDs message could not be sent, they have not been deferred.
unfoldable pub end_run : Bool → Bool → ConRef → Manager → Manager
unfolding close
end_run write_ok announced r m =
    let m1 =
      if announced then close write_ok r close_normal_closure (codes "normal closure") m else m in
    set_con r
      (record (m1.con r) {
        channel_closed = if announced then true else (m1.con r).channel_closed;
        phase = ended;
      })
      m1

abbrev pub dissociate : Option ConRef → Manager → Manager
dissociate none m = m
dissociate (some o) m = associate o none m

abbrev pub is_ref : Option ConRef → ConRef → Bool
is_ref none r = false
is_ref (some q) r = eqb q r

abbrev pub remove_entry : Key → Manager → Manager
remove_entry k m =
    dissociate (lookup (other_key k) (erase k m.peer_con_map))
      (record m { peer_con_map = erase k m.peer_con_map })

-- The second critical section of `connect`.
unfoldable pub leave : ConRef → Manager → Manager
unfolding associate
leave r m =
    let k = (m.con r).key in
    let m1 = set_con r (record (m.con r) { phase = left }) m in
    if is_ref (lookup k m.peer_con_map) r then remove_entry k m1 else m1

pub data Sending : Type 0 where
  delivered dropped blocked send_on_closed_channel not_found : Sending

-- `asyncWrite` of a connection: `chMessage <- message`.
unfoldable pub async_write : ConRef → Message → Manager → Sending × Manager
async_write r message m =
    let c = m.con r in
    if c.channel_closed
    then (send_on_closed_channel, m)
    else if ltb (length c.ch_message) channel_capacity
    then (delivered, set_con r (record c { ch_message = c.ch_message ++ (message ∷ []) }) m)
    else (blocked, m)

-- `writeToAssociated`, which each message read from the WebSocket goes through.
unfoldable pub write_to_associated : ConRef → Message → Manager → Sending × Manager
unfolding async_write
write_to_associated r message m = elim (m.con r).associated_con [
  | none ↦ (dropped, m)
  | some o ↦ async_write o message m
]

-- `sendToPeer`.
unfoldable pub send_to_peer : Key → Message → Manager → Sending × Manager
unfolding async_write
send_to_peer k message m = elim (lookup k m.peer_con_map) [
  | none ↦ (not_found, m)
  | some r ↦ async_write r message m
]

abbrev pub written_next : Bool → PeerConnection → List Message → PeerConnection
written_next write_ok c [] = c
written_next true c (message ∷ rest) = record c {
  ch_message = rest;
  taken = c.taken ++ (message ∷ []);
  written = c.written ++ (message ∷ []);
}
written_next false c (message ∷ rest) = record c {
  ch_message = rest;
  taken = c.taken ++ (message ∷ []);
  write_failed = true;
}

-- One round of `startWritingMessage` that takes a message. If the message cannot be serialized or
-- written, the goroutine ends.
unfoldable pub write_next : Bool → ConRef → Manager → Manager
write_next write_ok r m =
    if (m.con r).write_failed
    then m
    else set_con r (written_next write_ok (m.con r) (m.con r).ch_message) m

-- `run`, when the writing goroutine has ended with an error.
unfoldable pub end_writing : Bool → ConRef → Manager → Manager
unfolding close
end_writing write_ok r m = close write_ok r close_normal_closure (codes "normal closure") m

-- `closeExpiredConnection`, with `Open` of the tunnel that the store has under an id, or of `Tunnel{}`.
unfoldable pub close_expired : Bool → (Text → Bool) → List (Key × ConRef) → Manager → Manager
unfolding close
close_expired write_ok is_open [] m = m
close_expired write_ok is_open ((k, r) ∷ entries) m = close_expired write_ok is_open entries (
    if is_open k.tunnel_id
    then m
    else close write_ok r close_normal_closure status_reason_tunnel_closed m)

unfoldable pub close_expired_connection : Bool → (Text → Bool) → Manager → Manager
unfolding close_expired
close_expired_connection write_ok is_open m = close_expired write_ok is_open m.peer_con_map m

-- No connection yet.
abbrev pub start : Manager
start = record {
  peer_con_map = [];
  con = λ r. new_peer_connection (record { tunnel_id = []; mode = Mode.source }) [];
  next = 0;
}
