-- ===== src/Server/Peers/Relay.antt =====
-- The two connected ends of a tunnel as two bounded queues, of which nothing is lost or reordered.
use securetunnel.Base.{
  ◌≡◌, ◌≢◌, refl, sym, ap, ◌∙◌, true, false, List, [], ◌∷◌, ◌++◌, some, arith, length, ltb,
  if◌then◌else◌,
}
use securetunnel.Base.Dict.{lookup}
use securetunnel.Aws.{Message}
use securetunnel.Server.Peers.{
  Key, key_eq, other_key, ConRef, Manager, Sending, delivered, blocked, channel_capacity,
  async_write, write_to_associated, write_next,
}
use securetunnel.Server.Peers.Sections.{Reach}
use securetunnel.Server.Peers.Entry.{Entry, named-ne, other_key_twice}
use securetunnel.Server.Peers.Association.{Reach-Inv}

-- What the goroutines of a pair do: one side forwards a message that it reads, or writes the next
-- message of its channel, which the network takes.
pub data Command : Type 0 where
  first_forwards second_forwards : Message → Command
  first_writes second_writes : Command

-- The messages on the way to each side, and those that the side has been sent.
pub record Pipes : Type 0 where
  pub to_first : List Message
  pub to_second : List Message
  pub at_first : List Message
  pub at_second : List Message

-- A queue of at most ten messages.
unfoldable pub enqueue : Message → List Message → Sending × List Message
enqueue message q =
    if ltb (length q) channel_capacity then (delivered, q ++ (message ∷ [])) else (blocked, q)

-- What is left of a queue, and what has come out of it.
abbrev pub dequeue : List Message → List Message → List Message × List Message
dequeue [] out = ([], out)
dequeue (message ∷ rest) out = (rest, out ++ (message ∷ []))

-- The contract: a queue for each direction.
unfoldable pub piped : Command → Pipes → Sending × Pipes
unfolding enqueue
piped (first_forwards message) p =
    let (answer, q) = enqueue message p.to_second in (answer, record p { to_second = q })
piped (second_forwards message) p =
    let (answer, q) = enqueue message p.to_first in (answer, record p { to_first = q })
piped first_writes p =
    let (q, out) = dequeue p.to_first p.at_first in
    (delivered, record p { to_first = q; at_first = out })
piped second_writes p =
    let (q, out) = dequeue p.to_second p.at_second in
    (delivered, record p { to_second = q; at_second = out })

unfoldable pub piped_all : List Command → Pipes → List Sending × Pipes
unfolding piped
piped_all [] p = ([], p)
piped_all (c ∷ cs) p =
    let (answer, p1) = piped c p in let (answers, p2) = piped_all cs p1 in (answer ∷ answers, p2)

-- A round of the writer of one connection, and another connection.
write_next-con :
    (i j : ConRef) (q : List Message) (m : Manager)
    → i ≢ j
    → (m.con i).write_failed ≡ false
    → (m.con i).ch_message ≡ q
    → (((write_next true i m).con i).ch_message ≡ (dequeue q (m.con i).written).0)
      × (((write_next true i m).con i).written ≡ (dequeue q (m.con i).written).1)
      × (((write_next true i m).con i).associated_con ≡ (m.con i).associated_con)
      × (((write_next true i m).con i).channel_closed ≡ (m.con i).channel_closed)
      × (((write_next true i m).con i).write_failed ≡ false)
      × ((write_next true i m).con j ≡ m.con j)
unfolding write_next
write_next-con i j [] m apart runs e =
    (ground arith, ground arith, ground arith, ground arith, ground arith, ground arith)
write_next-con i j (message ∷ q) m apart runs e =
    (ground arith, ground arith, ground arith, ground arith, ground arith, ground arith)

-- The two connections.
module _ (r o : ConRef) where
  unfoldable pub relay : Command → Manager → Sending × Manager
  unfolding write_to_associated write_next
  relay (first_forwards message) m = write_to_associated r message m
  relay (second_forwards message) m = write_to_associated o message m
  relay first_writes m = (delivered, write_next true r m)
  relay second_writes m = (delivered, write_next true o m)

  unfoldable pub relay_all : List Command → Manager → List Sending × Manager
  unfolding relay
  relay_all [] m = ([], m)
  relay_all (c ∷ cs) m =
      let (answer, m1) = relay c m in let (answers, m2) = relay_all cs m1 in (answer ∷ answers, m2)

  abbrev pub view : Manager → Pipes
  view m = record {
    to_first = (m.con r).ch_message;
    to_second = (m.con o).ch_message;
    at_first = (m.con r).written;
    at_second = (m.con o).written;
  }

  pub record Paired (m : Manager) : Type 0 where
    pub to_o : (m.con r).associated_con ≡ some o
    pub to_r : (m.con o).associated_con ≡ some r
    pub r_open : (m.con r).channel_closed ≡ false
    pub o_open : (m.con o).channel_closed ≡ false
    pub r_runs : (m.con r).write_failed ≡ false
    pub o_runs : (m.con o).write_failed ≡ false

  abbrev Follows : Command → Manager → Type 0
  Follows c m =
      ((relay c m).0 ≡ (piped c (view m)).0)
      × (view (relay c m).1 ≡ (piped c (view m)).1)
      × Paired (relay c m).1

  relay-piped : (c : Command) (m : Manager) → r ≢ o → Paired m → Follows c m
  unfolding relay piped async_write
  relay-piped (first_forwards message) m apart p =
      rw (p.to_o, write_to_associated) (ground (arith, apart))
  relay-piped (second_forwards message) m apart p =
      rw (p.to_r, write_to_associated) (ground (arith, apart))
  relay-piped first_writes m apart p =
      ground (arith, write_next-con r o (m.con r).ch_message m apart p.r_runs refl)
  relay-piped second_writes m apart p =
      ground (arith, write_next-con o r (m.con o).ch_message m (λ e. apart (sym e)) p.o_runs refl)

  relay_all-pipes :
      (cs : List Command) (m : Manager)
      → r ≢ o
      → Paired m
      → ((relay_all cs m).0 ≡ (piped_all cs (view m)).0)
        × (view (relay_all cs m).1 ≡ (piped_all cs (view m)).1)
  unfolding relay_all piped_all
  relay_all-pipes [] m apart p = (refl, refl)
  relay_all-pipes (c ∷ cs) m apart p =
      let (answer, seen, after) = relay-piped c m apart p in
      let (answers, last) = relay_all-pipes cs (relay c m).1 apart after in
      (
        ap (λ a. a ∷ (relay_all cs (relay c m).1).0) answer
            ∙ ap (◌∷◌ ((piped c (view m)).0)) (answers ∙ ap (λ q. (piped_all cs q).0) seen),
        last ∙ ap (λ q. (piped_all cs q).1) seen,
      )

-- A connection that has neither closed its channel nor failed to write.
abbrev pub IsHealthy : Manager → ConRef → Type 0
IsHealthy m r = ((m.con r).channel_closed ≡ false) × ((m.con r).write_failed ≡ false)

apart : {m : Manager} (k : Key) (r o : ConRef) → Entry m k r → Entry m (other_key k) o → r ≢ o
apart {m} k r o here there same =
    let keys : k ≡ other_key k = sym here.own_key ∙ ap (λ i. (m.con i).key) same ∙ there.own_key in
    named-ne k.mode here.named (sym (ap (λ x. x.mode) keys))

-- In a reachable state where both modes of a tunnel are connected, with open channels and writers
-- that have not failed: whatever messages the two sides forward and whatever rounds their writers
-- make from then on, each message is accepted exactly if the channel of the other side holds less
-- than ten, and the messages in the channels and those written are what two queues of at most ten
-- messages give.
pub relay_all-piped_all :
    {m : Manager}
    → Reach m
    → (k : Key) (r o : ConRef) (cs : List Command) → lookup k m.peer_con_map ≡ some r
    → lookup (other_key k) m.peer_con_map ≡ some o
    → IsHealthy m r
    → IsHealthy m o
    → ((relay_all r o cs m).0 ≡ (piped_all cs (view r o m)).0)
      × (view r o (relay_all r o cs m).1 ≡ (piped_all cs (view r o m)).1)
relay_all-piped_all {m} reach k r o cs e f well_r well_o =
    let here = Reach-Inv reach k r e in
    let there = Reach-Inv reach (other_key k) o f in
    relay_all-pipes r o cs m (apart k r o here there) (record {
      to_o = here.partner ∙ f;
      to_r = there.partner ∙ ap (λ x. lookup x m.peer_con_map) (other_key_twice k here.named) ∙ e;
      r_open = well_r.0;
      o_open = well_o.0;
      r_runs = well_r.1;
      o_runs = well_o.1;
    })
