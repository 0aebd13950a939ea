-- ===== src/Server/Peers/Sections.antt =====
-- The steps that the goroutines of the service can make, in any order.
use securetunnel.Base.{◌<◌, ◌≡◌, Bool, true, List, Text}
use securetunnel.Aws.{Message}
use securetunnel.Server.Api.Connect.{is_named}
use securetunnel.Server.Peers.{
  Key, ConRef, running, ended, Manager, enter, end_run, leave, write_to_associated, send_to_peer,
  write_next, end_writing, close_expired_connection, start,
}

-- `connect` is called behind `Validate`: the mode is one of the two named modes. A goroutine runs
-- through the sections of `connect` in their order.
pub data Step (m : Manager) : Manager → Type 0 where
  enters :
      (write_ok : Bool) (k : Key) (services : List Text)
      → is_named k.mode ≡ true
      → Step m (enter write_ok k services m)
  ends :
      (write_ok announced : Bool) (r : ConRef)
      → r < m.next
      → (m.con r).phase ≡ running
      → Step m (end_run write_ok announced r m)
  leaves : (r : ConRef) → r < m.next → (m.con r).phase ≡ ended → Step m (leave r m)
  forwards :
      (r : ConRef) (message : Message)
      → r < m.next
      → (m.con r).phase ≡ running
      → Step m (write_to_associated r message m).1
  sends : (k : Key) (message : Message) → Step m (send_to_peer k message m).1
  writes :
      (write_ok : Bool) (r : ConRef)
      → r < m.next
      → (m.con r).phase ≡ running
      → Step m (write_next write_ok r m)
  ends_writing :
      (write_ok : Bool) (r : ConRef)
      → r < m.next
      → (m.con r).phase ≡ running
      → (m.con r).write_failed ≡ true
      → Step m (end_writing write_ok r m)
  expires :
      (write_ok : Bool) (is_open : Text → Bool)
      → Step m (close_expired_connection write_ok is_open m)

pub data Reach : Manager → Type 0 where
  starts : Reach start
  later : {m n : Manager} → Reach m → Step m n → Reach n
