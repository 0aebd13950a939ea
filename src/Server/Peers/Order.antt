-- ===== src/Server/Peers/Order.antt =====
-- The order in which a connection's messages are written.
use securetunnel.Base.{
  not, ◌||◌, ltb, length, append-nil, append_assoc, ◌++◌, ℕ, suc, ◌<◌, ◌≡◌, refl, sym, ◌∙◌, ap, inl,
  inr, Bool, true, false, List, [], ◌∷◌, Option, none, some, arith, Text, eqb, Option-cases,
  Bool-cases,
}
use securetunnel.Base.Dict.{lookup, erase}
use securetunnel.Aws.{Message}
use securetunnel.Server.Peers.{
  Key, key_eq, other_key, ConRef, left, PeerConnection, Manager, set_con, associate, close,
  new_peer_connection, close_existing, associate_peers, enter, end_run, dissociate,
  channel_capacity, written_next, leave, async_write, write_to_associated, send_to_peer, write_next,
  end_writing, close_expired, close_expired_connection,
}
use securetunnel.Server.Peers.Sections.{
  Step, enters, ends, leaves, forwards, sends, writes, ends_writing, expires,
}

-- All that was ever put into a connection's channel, the oldest first.
abbrev pub stream : Manager → ConRef → List Message
stream m r = (m.con r).taken ++ (m.con r).ch_message

-- What the writing goroutine of a connection has done.
abbrev pub writer : Manager → ConRef → List Message × List Message × Bool
writer m r = ((m.con r).taken, (m.con r).written, (m.con r).write_failed)

-- The writer and its channel.
abbrev pub view : Manager → ConRef → (List Message × List Message × Bool) × List Message
view m r = (writer m r, (m.con r).ch_message)

abbrev pub Grows : List Message → List Message → Type 0
Grows before after = (new : List Message) × (after ≡ before ++ new)

Grows-refl : (before : List Message) → Grows before before
Grows-refl before = ([], sym (append-nil before))

async_write-Grows :
    (o : ConRef) (message : Message) (m : Manager) (r : ConRef)
    → Grows (stream m r) (stream (async_write o message m).1 r)
unfolding async_write
async_write-Grows o message m r =
    elim (Bool-cases (
      (m.con o).channel_closed
      || not (ltb (length (m.con o).ch_message) channel_capacity)
      || not (eqb o r))) [
        | inl kept ↦ ([], ground (arith, append-nil (stream m r)))
        | inr taken ↦ (
          message ∷ [],
          ground (arith, append_assoc (m.con r).taken (m.con r).ch_message (message ∷ [])),
        )
      ]

written_next-stream :
    (write_ok : Bool) (c : PeerConnection) (q : List Message)
    → c.ch_message ≡ q
    → (written_next write_ok c q).taken ++ (written_next write_ok c q).ch_message
      ≡ c.taken ++ c.ch_message
written_next-stream write_ok c [] e = refl
written_next-stream true c (message ∷ rest) e =
    append_assoc c.taken (message ∷ []) rest ∙ ap (◌++◌ c.taken) (sym e)
written_next-stream false c (message ∷ rest) e =
    append_assoc c.taken (message ∷ []) rest ∙ ap (◌++◌ c.taken) (sym e)

write_next-stream :
    (write_ok : Bool) (o : ConRef) (m : Manager) (r : ConRef)
    → stream (write_next write_ok o m) r ≡ stream m r
unfolding write_next
write_next-stream write_ok o m r =
    ground (arith, written_next-stream write_ok (m.con o) (m.con o).ch_message refl)

pub close-view :
    (write_ok : Bool) (o : ConRef) (code : ℕ) (text : Text) (m : Manager) (r : ConRef)
    → view (close write_ok o code text m) r ≡ view m r
unfolding close
close-view write_ok o code text m r = ground arith

pub close_existing-view :
    (write_ok : Bool) (o : Option ConRef) (m : Manager) (r : ConRef)
    → view (close_existing write_ok o m) r ≡ view m r
close_existing-view write_ok none m r = refl
close_existing-view write_ok (some o) m r = close-view write_ok o _ _ m r

pub associate_peers-view :
    (q : ConRef) (o : Option ConRef) (m : Manager) (r : ConRef)
    → view (associate_peers q o m) r ≡ view m r
unfolding associate
associate_peers-view q none m r = ground arith
associate_peers-view q (some o) m r = ground arith

dissociate-view :
    (o : Option ConRef) (m : Manager) (r : ConRef) → view (dissociate o m) r ≡ view m r
unfolding associate
dissociate-view none m r = refl
dissociate-view (some o) m r = ground arith

enter-view :
    (write_ok : Bool) (k : Key) (services : List Text) (m : Manager) (r : ConRef)
    → r < m.next
    → view (enter write_ok k services m) r ≡ view m r
unfolding enter
enter-view write_ok k services m r old =
    let m1 = record (set_con m.next (new_peer_connection k services) m) { next = suc m.next } in
    let m2 = close_existing write_ok (lookup k m1.peer_con_map) m1 in
    associate_peers-view m.next (lookup (other_key k) m2.peer_con_map) m2 r
    ∙ close_existing-view write_ok (lookup k m1.peer_con_map) m1 r
    ∙ ground arith

pub leave-view : (q : ConRef) (m : Manager) (r : ConRef) → view (leave q m) r ≡ view m r
unfolding leave
leave-view q m r =
    let k : Key = (m.con q).key in
    let m1 = record (set_con q (record (m.con q) { phase = left }) m) {
      peer_con_map = erase k m.peer_con_map;
    } in
    ground (arith, dissociate-view (lookup (other_key k) (erase k m.peer_con_map)) m1 r)

pub end_run-view :
    (write_ok announced : Bool) (q : ConRef) (m : Manager) (r : ConRef)
    → view (end_run write_ok announced q m) r ≡ view m r
unfolding end_run
end_run-view write_ok announced q m r = ground arith

pub close_expired-view :
    (write_ok : Bool) (is_open : Text → Bool) (entries : List (Key × ConRef)) (m : Manager)
    (r : ConRef)
    → view (close_expired write_ok is_open entries m) r ≡ view m r
unfolding close_expired
close_expired-view write_ok is_open [] m r = refl
close_expired-view write_ok is_open ((k, o) ∷ entries) m r =
    elim (Bool-cases (is_open k.tunnel_id)) [
      | inl live ↦ rw (live, close_expired) (close_expired-view write_ok is_open entries m r)
      | inr expired ↦
          rw (expired, close_expired)
            (close_expired-view write_ok is_open entries _ r ∙ close-view write_ok o _ _ m r)
    ]

-- The writer and its channel are as before.
Grows-view :
    {before after : (List Message × List Message × Bool) × List Message}
    → after ≡ before
    → Grows (before.0.0 ++ before.1) (after.0.0 ++ after.1)
Grows-view {before} e = ([], ap (λ v. v.0.0 ++ v.1) e ∙ sym (append-nil (before.0.0 ++ before.1)))

Grows-same : {before after : List Message} → after ≡ before → Grows before after
Grows-same {before} e = ([], e ∙ sym (append-nil before))

-- Every step of the service's goroutines leaves the messages that a connection's writer has taken
-- or that are in its channel alone, in their order, or puts new ones behind them.
pub Step-Grows :
    {m n : Manager} → Step m n → (r : ConRef) → r < m.next → Grows (stream m r) (stream n r)
unfolding end_writing close_expired_connection write_to_associated send_to_peer
Step-Grows {m} (enters write_ok k services named) r h =
    Grows-view (enter-view write_ok k services m r h)
Step-Grows {m} (ends write_ok announced q lt p) r h =
    Grows-view (end_run-view write_ok announced q m r)
Step-Grows {m} (leaves q lt p) r h = Grows-view (leave-view q m r)
Step-Grows {m} (forwards q message lt p) r h = elim (Option-cases (m.con q).associated_con) [
  | inl e ↦ rw (e, write_to_associated) (Grows-refl (stream m r))
  | inr (o, e) ↦ rw (e, write_to_associated) (async_write-Grows o message m r)
]
Step-Grows {m} (sends k message) r h = elim (Option-cases (lookup k m.peer_con_map)) [
  | inl e ↦ rw (e, send_to_peer) (Grows-refl (stream m r))
  | inr (o, e) ↦ rw (e, send_to_peer) (async_write-Grows o message m r)
]
Step-Grows {m} (writes write_ok q lt p) r h = Grows-same (write_next-stream write_ok q m r)
Step-Grows {m} (ends_writing write_ok q lt p f) r h = Grows-view (close-view write_ok q _ _ m r)
Step-Grows {m} (expires write_ok is_open) r h =
    Grows-view (close_expired-view write_ok is_open m.peer_con_map m r)
