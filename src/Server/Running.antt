-- ===== src/Server/Running.antt =====
-- `run` of misc/server/peerconnection.go behind the ServiceIDs message: its goroutine, the reader of
-- `startReadingMessage` and the writer of `startWritingMessage`. What the messages do to the other
-- connection is Peers; here they are only counted, and the other connection may block the reader.
pub mod Returning
pub mod Hanging
use securetunnel.Base.{ℕ, zero, suc, ◌≡◌, ◌⊎◌, ◌+◌, Bool, true, false, if◌then◌else◌, ◌||◌}

-- In `Next`, in `writeToAssociated`, there at a send to a full channel, at the send to `chReadErr`, or
-- behind it. The test of the context comes before the first message only.
pub data Reader : Type 0 where
  reading forwarding blocked failing ended : Reader

-- In `select`, in the write of a message, at the send to `chWriteErr`, or behind it.
pub data Writer : Type 0 where
  selecting writing failing ended : Writer

-- In `select`, at `<-chWriteErr`, in `close`, at `<-chReadErr` behind it, or past them.
pub data Caller : Type 0 where
  selecting waiting_writer in_close waiting_reader finished : Caller

-- `queued` counts the messages in `chMessage`, and `buffered` those that have arrived, but that `Next`
-- has not returned yet.
pub record Run : Type 0 where
  pub cancelled : Bool
  pub closed : Bool
  pub con_closed : Bool
  pub queued : ℕ
  pub buffered : ℕ
  pub reader : Reader
  pub writer : Writer
  pub caller : Caller

abbrev pub announced : Run
announced = record {
  cancelled = false;
  closed = false;
  con_closed = false;
  queued = 0;
  buffered = 0;
  reader = reading;
  writer = Writer.selecting;
  caller = Caller.selecting;
}

-- `close`, by whether the close frame can be written: without one, the connection stays open, and a
-- second call does nothing.
abbrev pub close_run : Bool → Run → Run
close_run write_ok s = record s {
  closed = true;
  con_closed = if s.closed then s.con_closed else write_ok || s.con_closed;
}

-- The reader holds the lock of the connection for reading, which `close` waits for.
abbrev pub IsForwarding : Reader → Type 0
IsForwarding r = (r ≡ forwarding) ⊎ (r ≡ blocked)

-- The steps that no one else is needed for. `Next` returns what has arrived, or fails if that is no
-- message, before it reads again, and a read or a write of a closed connection fails. The lock of
-- `close` is held for reading while a message is forwarded.
pub data Local (s : Run) : Run → Type 0 where
  reads :
      (n : ℕ)
      → s.reader ≡ reading
      → s.buffered ≡ suc n
      → Local s (record s { reader = forwarding; buffered = n })
  rejects :
      (n : ℕ)
      → s.reader ≡ reading
      → s.buffered ≡ suc n
      → Local s (record s { reader = Reader.failing })
  forwards : s.reader ≡ forwarding → Local s (record s { reader = reading })
  read_fails :
      s.reader ≡ reading
      → s.buffered ≡ 0
      → s.con_closed ≡ true
      → Local s (record s { reader = Reader.failing })
  takes :
      (n : ℕ)
      → s.writer ≡ Writer.selecting
      → s.queued ≡ suc n
      → Local s (record s { writer = writing; queued = n })
  serialize_fails : s.writer ≡ writing → Local s (record s { writer = Writer.failing })
  write_fails :
      s.writer ≡ writing → s.con_closed ≡ true → Local s (record s { writer = Writer.failing })
  stops_writing :
      s.writer ≡ Writer.selecting
      → s.cancelled ≡ true
      → Local s (record s { writer = Writer.failing })
  takes_read_error :
      s.caller ≡ Caller.selecting
      → s.reader ≡ Reader.failing
      → Local s (record s { reader = Reader.ended; cancelled = true; caller = waiting_writer })
  takes_write_error :
      s.caller ≡ Caller.selecting
      → s.writer ≡ Writer.failing
      → Local s (record s { writer = Writer.ended; cancelled = true; caller = in_close })
  closes_run :
      (write_ok : Bool)
      → s.caller ≡ in_close
      → ¬ IsForwarding s.reader
      → Local s (record (close_run write_ok s) { caller = waiting_reader })
  waits_for_writer :
      s.caller ≡ waiting_writer
      → s.writer ≡ Writer.failing
      → Local s (record s { writer = Writer.ended; caller = finished })
  waits_for_reader :
      s.caller ≡ waiting_reader
      → s.reader ≡ Reader.failing
      → Local s (record s { reader = Reader.ended; caller = finished })

-- The steps of the network, of the other connections, and of `connect` or `closeExpiredConnection`,
-- which close a connection from outside. A message of the WebSocket may complete several messages.
pub data Outside (s : Run) : Run → Type 0 where
  receives :
      (n : ℕ)
      → s.reader ≡ reading
      → s.con_closed ≡ false
      → Outside s (record s { buffered = n + s.buffered })
  loses : s.reader ≡ reading → Outside s (record s { reader = Reader.failing })
  blocks : s.reader ≡ forwarding → Outside s (record s { reader = blocked })
  unblocks : s.reader ≡ blocked → Outside s (record s { reader = reading })
  queues : Outside s (record s { queued = suc s.queued })
  wrote : s.writer ≡ writing → Outside s (record s { writer = Writer.selecting })
  write_lost : s.writer ≡ writing → Outside s (record s { writer = Writer.failing })
  closes : (write_ok : Bool) → ¬ IsForwarding s.reader → Outside s (close_run write_ok s)

pub data Reach : Run → Type 0 where
  starts : Reach announced
  acts : {s t : Run} → Reach s → Local s t → Reach t
  reacts : {s t : Run} → Reach s → Outside s t → Reach t

-- A number of steps of the goroutines.
pub data Runs : ℕ → Run → Run → Type 0 where
  rests : {s : Run} → Runs zero s s
  runs : {n : ℕ} {s t u : Run} → Local s t → Runs n t u → Runs (suc n) s u
