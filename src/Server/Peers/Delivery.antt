-- ===== src/Server/Peers/Delivery.antt =====
-- Where a message goes that was read from a WebSocket, and in which order messages are written.
use securetunnel.Base.{◌≡◌, ◌∙◌, none, some}
use securetunnel.Base.Dict.{lookup}
use securetunnel.Aws.{Message}
use securetunnel.Server.Peers.{
  Key, key_eq, other_key, ConRef, Manager, dropped, write_to_associated, send_to_peer,
}
use securetunnel.Server.Peers.Sections.{Reach}
use securetunnel.Server.Peers.Association.{Reach-Inv}

-- In a reachable state where both modes of a tunnel are connected, a message forwarded by the
-- current connection of one mode does what `sendToPeer` does for the other mode.
pub write_to_associated-send_to_peer :
    {m : Manager}
    → Reach m
    → (k : Key) (r o : ConRef) (message : Message) → lookup k m.peer_con_map ≡ some r
    → lookup (other_key k) m.peer_con_map ≡ some o
    → write_to_associated r message m ≡ send_to_peer (other_key k) message m
unfolding write_to_associated send_to_peer
write_to_associated-send_to_peer {m} reach k r o message e f =
    let entry = Reach-Inv reach k r e in
    let to : (m.con r).associated_con ≡ some o = entry.partner ∙ f in
    rw (to, f, write_to_associated, send_to_peer)

-- In a reachable state where the other mode of the tunnel is not connected, a message of the
-- current connection of a mode is dropped and nothing changes.
pub write_to_associated-dropped :
    {m : Manager}
    → Reach m
    → (k : Key) (r : ConRef) (message : Message) → lookup k m.peer_con_map ≡ some r
    → lookup (other_key k) m.peer_con_map ≡ none
    → write_to_associated r message m ≡ (dropped, m)
unfolding write_to_associated
write_to_associated-dropped {m} reach k r message e f =
    let entry = Reach-Inv reach k r e in
    let to : (m.con r).associated_con ≡ none = entry.partner ∙ f in rw (to, write_to_associated)
