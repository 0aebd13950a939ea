-- ===== src/Server/Peers/Forwarded.antt =====
-- From the WebSocket of one end of a tunnel to that of the other.
use securetunnel.Base.{
  ℕ, zero, suc, ◌≡◌, refl, sym, ap, ◌∙◌, true, false, List, [], ◌∷◌, ◌++◌, some, arith, length,
  append-nil, append_assoc,
}
use securetunnel.Base.Dict.{lookup}
use securetunnel.Aws.{Message}
use securetunnel.Server.Peers.{
  Key, key_eq, other_key, ConRef, Manager, delivered, async_write, write_to_associated, write_next,
}
use securetunnel.Server.Peers.Sections.{Reach}
use securetunnel.Server.Peers.Association.{Reach-Inv}

-- Rounds of `startWritingMessage` of one connection, if the network takes each write.
unfoldable pub write_rounds : ℕ → ConRef → Manager → Manager
unfolding write_next
write_rounds zero r m = m
write_rounds (suc n) r m = write_rounds n r (write_next true r m)

write_next-con :
    (r : ConRef) (m : Manager) (message : Message) (rest : List Message)
    → (m.con r).write_failed ≡ false
    → (m.con r).ch_message ≡ message ∷ rest
    → ((write_next true r m).con r).write_failed ≡ false
      × (((write_next true r m).con r).ch_message ≡ rest)
      × (((write_next true r m).con r).written ≡ (m.con r).written ++ (message ∷ []))
unfolding write_next
write_next-con r m message rest running q = (ground arith, ground arith, ground arith)

-- A connection whose writer has not failed, left to itself for as many rounds as its channel has
-- messages, has written them all, in their order.
pub write_rounds-written :
    (q : List Message) (r : ConRef) (m : Manager)
    → (m.con r).write_failed ≡ false
    → (m.con r).ch_message ≡ q
    → (((write_rounds (length q) r m).con r).written ≡ (m.con r).written ++ q)
      × (((write_rounds (length q) r m).con r).ch_message ≡ [])
unfolding write_rounds
write_rounds-written [] r m running e = (sym (append-nil (m.con r).written), e)
write_rounds-written (message ∷ q) r m running e =
    let (running', rest, wrote) = write_next-con r m message q running e in
    let (all, empty) = write_rounds-written q r (write_next true r m) running' rest in
    (all ∙ ap (λ x. x ++ q) wrote ∙ append_assoc (m.con r).written (message ∷ []) q, empty)

async_write-con :
    (o : ConRef) (message : Message) (m : Manager)
    → (async_write o message m).0 ≡ delivered
    → (((async_write o message m).1.con o).ch_message ≡ (m.con o).ch_message ++ (message ∷ []))
      × (((async_write o message m).1.con o).written ≡ (m.con o).written)
      × (((async_write o message m).1.con o).write_failed ≡ (m.con o).write_failed)
unfolding async_write
async_write-con o message m e = (ground arith, ground arith, ground arith)

-- In a reachable state where both modes of a tunnel are connected, if a message that the current
-- connection of one mode forwards is accepted, and the writer of the other mode's connection has
-- not failed, then after as many rounds of that writer as there are messages in its channel it has
-- written what was in the channel before and then the message.
pub forwarded-written :
    {m : Manager}
    → Reach m
    → (k : Key) (r o : ConRef) (message : Message) → lookup k m.peer_con_map ≡ some r
    → lookup (other_key k) m.peer_con_map ≡ some o
    → (m.con o).write_failed ≡ false
    → (write_to_associated r message m).0 ≡ delivered
    → let waiting = (m.con o).ch_message ++ (message ∷ []) in
      ((write_rounds (length waiting) o (write_to_associated r message m).1).con o).written
      ≡ (m.con o).written ++ waiting
unfolding write_to_associated
forwarded-written {m} reach k r o message e f running taken =
    let entry = Reach-Inv reach k r e in
    let to : (m.con r).associated_con ≡ some o = entry.partner ∙ f in
    let same : write_to_associated r message m ≡ async_write o message m =
      rw (to, write_to_associated) refl in
    let waiting = (m.con o).ch_message ++ (message ∷ []) in
    let (queued, kept, live) = async_write-con o message m (sym (ap (λ x. x.0) same) ∙ taken) in
    ap (λ x. ((write_rounds (length waiting) o x.1).con o).written) same
    ∙ (write_rounds-written waiting o (async_write o message m).1 (live ∙ running) queued).0
    ∙ ap (λ x. x ++ waiting) kept
