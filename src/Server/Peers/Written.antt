-- ===== src/Server/Peers/Written.antt =====
-- Which of the messages that the writing goroutine of a connection takes it has written.
use securetunnel.Base.{
  ◌++◌, suc, ◌≡◌, refl, sym, ap, subst, ◌∙◌, ◌⊎◌, inl, inr, Bool, true, false, List, [], ◌∷◌, arith,
  Text, eqb, eqb_iff, Option-cases, Bool-cases, if◌then◌else◌,
}
use securetunnel.Base.Dict.{lookup}
use securetunnel.Aws.{Message}
use securetunnel.Server.Peers.{
  Key, key_eq, other_key, ConRef, PeerConnection, Manager, set_con, new_peer_connection,
  close_existing, enter, written_next, async_write, write_to_associated, send_to_peer, write_next,
  end_writing, close_expired_connection,
}
use securetunnel.Server.Peers.Sections.{
  Step, enters, ends, leaves, forwards, sends, writes, ends_writing, expires, Reach, starts, later,
}
use securetunnel.Server.Peers.Order.{
  writer, close-view, close_existing-view, associate_peers-view, leave-view, end_run-view,
  close_expired-view,
}

-- All messages taken are written, in their order, or all but the last one, at which the writer failed.
abbrev pub Recorded : List Message → List Message → Bool → Type 0
Recorded taken written failed =
    ((failed ≡ false) × (written ≡ taken))
    ⊎ ((failed ≡ true) × ((lost : Message) × (taken ≡ written ++ (lost ∷ []))))

abbrev pub IsRecorded : List Message × List Message × Bool → Type 0
IsRecorded (taken, written, failed) = Recorded taken written failed

written_next-Recorded :
    (write_ok : Bool) (c : PeerConnection) (q : List Message)
    → c.write_failed ≡ false
    → Recorded c.taken c.written c.write_failed
    → Recorded
        (written_next write_ok c q).taken
        (written_next write_ok c q).written
        (written_next write_ok c q).write_failed
written_next-Recorded write_ok c [] running h = h
written_next-Recorded true c (message ∷ rest) running (inl (f, e)) =
    inl (f, ap (λ x. x ++ (message ∷ [])) e)
written_next-Recorded true c (message ∷ rest) running (inr (f, lost)) = absurd (ground arith)
written_next-Recorded false c (message ∷ rest) running (inl (f, e)) =
    inr (refl, (message, ap (λ x. x ++ (message ∷ [])) (sym e)))
written_next-Recorded false c (message ∷ rest) running (inr (f, lost)) = absurd (ground arith)

abbrev record_of : PeerConnection → List Message × List Message × Bool
record_of c = (c.taken, c.written, c.write_failed)

either-Recorded :
    (b : Bool) (c d : PeerConnection)
    → (b ≡ true → IsRecorded (record_of c))
    → IsRecorded (record_of d)
    → IsRecorded (record_of (if b then c else d))
either-Recorded true c d f h = f refl
either-Recorded false c d f h = h

unless_failed-Recorded :
    (b write_ok : Bool) (o : ConRef) (m : Manager) (r : ConRef)
    → (m.con o).write_failed ≡ b
    → IsRecorded (writer m r)
    → IsRecorded (
        writer
          (if b then m else set_con o (written_next write_ok (m.con o) (m.con o).ch_message) m)
          r)
unless_failed-Recorded true write_ok o m r e h = h
unless_failed-Recorded false write_ok o m r e h =
    either-Recorded (eqb o r) (written_next write_ok (m.con o) (m.con o).ch_message) (m.con r)
      (λ same.
        written_next-Recorded write_ok (m.con o) (m.con o).ch_message e
          (subst (λ x. IsRecorded (writer m x)) (sym ((eqb_iff o r).0 same)) h))
      h

write_next-Recorded :
    (write_ok : Bool) (o : ConRef) (m : Manager) (r : ConRef)
    → IsRecorded (writer m r)
    → IsRecorded (writer (write_next write_ok o m) r)
unfolding write_next
write_next-Recorded write_ok o m r h =
    unless_failed-Recorded (m.con o).write_failed write_ok o m r refl h

enter-writer :
    (write_ok : Bool) (k : Key) (services : List Text) (m : Manager) (r : ConRef)
    → writer (enter write_ok k services m) r
      ≡ (if eqb m.next r then ([], [], false) else writer m r)
unfolding enter new_peer_connection
enter-writer write_ok k services m r =
    let m1 = record (set_con m.next (new_peer_connection k services) m) { next = suc m.next } in
    let m2 = close_existing write_ok (lookup k m1.peer_con_map) m1 in
    ap (λ v. v.0)
      (associate_peers-view m.next (lookup (other_key k) m2.peer_con_map) m2 r
        ∙ close_existing-view write_ok (lookup k m1.peer_con_map) m1 r)
    ∙ ground arith

async_write-writer :
    (o : ConRef) (message : Message) (m : Manager) (r : ConRef)
    → writer (async_write o message m).1 r ≡ writer m r
unfolding async_write
async_write-writer o message m r = ground arith

kept : (a b : List Message × List Message × Bool) → b ≡ a → IsRecorded a → IsRecorded b
kept a b e h = subst (λ x. IsRecorded x) (sym e) h

Step-Recorded :
    {m n : Manager} → Step m n → (r : ConRef) → IsRecorded (writer m r) → IsRecorded (writer n r)
unfolding end_writing close_expired_connection write_to_associated send_to_peer
Step-Recorded {m} (enters write_ok k services named) r h = elim (Bool-cases (eqb m.next r)) [
  | inl new ↦
      kept ([], [], false) _ (enter-writer write_ok k services m r ∙ rw new refl) (inl (refl, refl))
  | inr old ↦ kept (writer m r) _ (enter-writer write_ok k services m r ∙ rw old refl) h
]
Step-Recorded {m} (ends write_ok announced q lt p) r h =
    kept (writer m r) _ (ap (λ v. v.0) (end_run-view write_ok announced q m r)) h
Step-Recorded {m} (leaves q lt p) r h = kept (writer m r) _ (ap (λ v. v.0) (leave-view q m r)) h
Step-Recorded {m} (forwards q message lt p) r h = elim (Option-cases (m.con q).associated_con) [
  | inl e ↦ rw (e, write_to_associated) h
  | inr (o, e) ↦
      rw (e, write_to_associated) (kept (writer m r) _ (async_write-writer o message m r) h)
]
Step-Recorded {m} (sends k message) r h = elim (Option-cases (lookup k m.peer_con_map)) [
  | inl e ↦ rw (e, send_to_peer) h
  | inr (o, e) ↦ rw (e, send_to_peer) (kept (writer m r) _ (async_write-writer o message m r) h)
]
Step-Recorded {m} (writes write_ok q lt p) r h = write_next-Recorded write_ok q m r h
Step-Recorded {m} (ends_writing write_ok q lt p f) r h =
    kept (writer m r) _ (ap (λ v. v.0) (close-view write_ok q _ _ m r)) h
Step-Recorded {m} (expires write_ok is_open) r h =
    kept (writer m r) _ (ap (λ v. v.0) (close_expired-view write_ok is_open m.peer_con_map m r)) h

-- In every state that the goroutines of the service can reach, the messages that the writer of a
-- connection has written, behind the ServiceIDs message, are those that it took out of the channel, in their order; all
-- of them if no write has failed, and otherwise all but the last one.
pub Reach-Recorded :
    {m : Manager}
    → Reach m
    → (r : ConRef) → Recorded (m.con r).taken (m.con r).written (m.con r).write_failed
unfolding new_peer_connection
Reach-Recorded starts r = inl (refl, refl)
Reach-Recorded (later reach step) r = Step-Recorded step r (Reach-Recorded reach r)
