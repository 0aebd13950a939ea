-- ===== src/Server/Peers/Association.antt =====
-- The two ends of a tunnel that are connected are associated with each other, at every moment.
use securetunnel.Base.{refl, inl, inr, Bool, List, [], ◌∷◌, arith, Text, Option-cases, Bool-cases}
use securetunnel.Base.Dict.{lookup}
use securetunnel.Aws.{Message}
use securetunnel.Server.Peers.{
  Key, key_eq, ConRef, Manager, async_write, write_to_associated, send_to_peer, write_next,
  end_writing, close_expired, close_expired_connection,
}
use securetunnel.Server.Peers.Sections.{
  Step, enters, ends, leaves, forwards, sends, writes, ends_writing, expires, Reach, starts, later,
}
use securetunnel.Server.Peers.Entry.{Inv, Same, Same-Inv, close-Same, end_run-Same}
use securetunnel.Server.Peers.Entering.{enter-Inv}
use securetunnel.Server.Peers.Leaving.{leave-Inv}

Same-refl : (m : Manager) → Same m m
Same-refl m = record {
  map_kept = refl;
  next_kept = refl;
  key_kept = λ i. refl;
  associated_kept = λ i. refl;
}

async_write-Same :
    (r : ConRef) (message : Message) (m : Manager) → Same m (async_write r message m).1
unfolding async_write
async_write-Same r message m = record {
  map_kept = ground arith;
  next_kept = ground arith;
  key_kept = λ i. ground arith;
  associated_kept = λ i. ground arith;
}

write_to_associated-Same :
    (r : ConRef) (message : Message) (m : Manager) → Same m (write_to_associated r message m).1
unfolding write_to_associated
write_to_associated-Same r message m = elim (Option-cases (m.con r).associated_con) [
  | inl q ↦ rw (q, write_to_associated) (Same-refl m)
  | inr (o, q) ↦ rw (q, write_to_associated) (async_write-Same o message m)
]

send_to_peer-Same :
    (k : Key) (message : Message) (m : Manager) → Same m (send_to_peer k message m).1
unfolding send_to_peer
send_to_peer-Same k message m = elim (Option-cases (lookup k m.peer_con_map)) [
  | inl q ↦ rw (q, send_to_peer) (Same-refl m)
  | inr (o, q) ↦ rw (q, send_to_peer) (async_write-Same o message m)
]

write_next-Same : (write_ok : Bool) (r : ConRef) (m : Manager) → Same m (write_next write_ok r m)
unfolding write_next
write_next-Same write_ok r m = record {
  map_kept = ground arith;
  next_kept = ground arith;
  key_kept = λ i. ground arith;
  associated_kept = λ i. ground arith;
}

close_expired-Inv :
    (write_ok : Bool) (is_open : Text → Bool) (entries : List (Key × ConRef)) (m : Manager)
    → Inv m
    → Inv (close_expired write_ok is_open entries m)
unfolding close_expired
close_expired-Inv write_ok is_open [] m inv = inv
close_expired-Inv write_ok is_open ((k, r) ∷ entries) m inv =
    elim (Bool-cases (is_open k.tunnel_id)) [
      | inl live ↦ rw (live, close_expired) (close_expired-Inv write_ok is_open entries m inv)
      | inr expired ↦
          rw (expired, close_expired)
            (close_expired-Inv write_ok is_open entries _
              (Same-Inv (close-Same write_ok r _ _ m) inv))
    ]

-- Every step of every goroutine keeps the invariant.
pub Step-Inv : {m n : Manager} → Step m n → Inv m → Inv n
unfolding close_expired_connection end_writing
Step-Inv {m} (enters write_ok k services named) inv = enter-Inv write_ok k services m named inv
Step-Inv {m} (ends write_ok announced r h p) inv =
    Same-Inv (end_run-Same write_ok announced r m) inv
Step-Inv {m} (leaves r h p) inv = leave-Inv r m inv
Step-Inv {m} (forwards r message h p) inv = Same-Inv (write_to_associated-Same r message m) inv
Step-Inv {m} (sends k message) inv = Same-Inv (send_to_peer-Same k message m) inv
Step-Inv {m} (writes write_ok r h p) inv = Same-Inv (write_next-Same write_ok r m) inv
Step-Inv {m} (ends_writing write_ok r h p f) inv = Same-Inv (close-Same write_ok r _ _ m) inv
Step-Inv {m} (expires write_ok is_open) inv =
    close_expired-Inv write_ok is_open m.peer_con_map m inv

-- In every state that the goroutines of the service can reach, each connection in the map stands
-- under its own key, of a named mode, and is associated with the connection that the map holds for
-- the other mode of its tunnel, or with none if the map holds none.
pub Reach-Inv : {m : Manager} → Reach m → Inv m
unfolding lookup
Reach-Inv starts = λ k r e. absurd (ground arith)
Reach-Inv (later reach step) = Step-Inv step (Reach-Inv reach)
