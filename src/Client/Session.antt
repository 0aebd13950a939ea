-- ===== src/Client/Session.antt =====
-- `start` of client/awsclient.go behind a successful `connect`: the caller's goroutine, the reader of
-- `keepReadingMessages` and the one of `keepSendingPing`. What a message causes is Client's
-- `read_message`; here messages are only counted, and the reader may be held up in the handlers, by a
-- worker whose channel is full or by the network.
pub mod Invariant
pub mod Returning
pub mod Hanging
use securetunnel.Base.{
  ℕ, zero, suc, ◌+◌, ◌≡◌, ◌⊎◌, Bool, true, false, ◌||◌, Option, none, some, if◌then◌else◌,
}
use securetunnel.Client.Retry.{
  StartError, context_canceled, context_deadline_exceeded, reading_failed,
}

-- At the top of the loop, in `Next`, in the handlers of a message, held up there, behind the send to `chReadMessageResult`, or behind `cancel`.
pub data Reader : Type 0 where
  checking reading handling blocked sent ended : Reader

-- In `select`, at the receive that follows a context that is done, at `<-chSendPingTerminate`, in
-- `stopAll`, or back, with the error.
pub data Caller : Type 0 where
  selecting waiting_reader : Caller
  waiting_pinger stopping_workers returned : StartError → Caller

-- `context_error` is the error of the caller's context, if that is done; `cancelled` is the inner
-- one's own. `result` is what stands in `chReadMessageResult`. `buffered` counts the messages that have
-- arrived, but that `Next` has not returned yet, and `busy` the workers that are in a function.
pub record Session : Type 0 where
  pub context_error : Option StartError
  pub cancelled : Bool
  pub con_closed : Bool
  pub buffered : ℕ
  pub busy : ℕ
  pub reader : Reader
  pub result : Option StartError
  pub pinging : Bool
  pub caller : Caller

abbrev pub connected : Session
connected = record {
  context_error = none;
  cancelled = false;
  con_closed = false;
  buffered = 0;
  busy = 0;
  reader = checking;
  result = none;
  pinging = true;
  caller = selecting;
}

-- The error of the inner context.
unfoldable pub inner_error : Session → Option StartError
inner_error s = elim s.context_error [
  | some e ↦ some e
  | none ↦ if s.cancelled then some context_canceled else none
]

-- `close`: without a close frame, the connection is not closed either.
unfoldable pub close : Bool → Session → Session
close write_ok s = record s { con_closed = if write_ok then true else s.con_closed }

-- The steps that no one else is needed for. `Next` returns what has arrived, or fails if that is no
-- message, before it reads again, and a read of a closed connection fails. `stopAll` waits for the
-- functions that workers are in.
pub data Local (s : Session) : Session → Type 0 where
  checks : s.reader ≡ checking → inner_error s ≡ none → Local s (record s { reader = reading })
  gives_up :
      (e : StartError)
      → s.reader ≡ checking
      → inner_error s ≡ some e
      → Local s (record s { reader = sent; result = some e })
  reads :
      (n : ℕ)
      → s.reader ≡ reading
      → s.buffered ≡ suc n
      → Local s (record s { reader = handling; buffered = n })
  rejects :
      (n : ℕ)
      → s.reader ≡ reading
      → s.buffered ≡ suc n
      → Local s (record s { reader = sent; result = some reading_failed })
  handles : s.reader ≡ handling → Local s (record s { reader = checking })
  fails :
      s.reader ≡ reading
      → s.buffered ≡ 0
      → s.con_closed ≡ true
      → Local s (record s { reader = sent; result = some reading_failed })
  cancels : s.reader ≡ sent → Local s (record s { reader = ended; cancelled = true })
  stops_pinging :
      (e : StartError)
      → s.pinging ≡ true
      → inner_error s ≡ some e
      → Local s (record s { pinging = false })
  closes_on_context :
      (e : StartError) (write_ok : Bool)
      → s.caller ≡ selecting
      → s.context_error ≡ some e
      → Local s (record (close write_ok s) { caller = waiting_reader })
  closes_on_result :
      (e : StartError) (write_ok : Bool)
      → s.caller ≡ selecting
      → s.result ≡ some e
      → Local s (record (close write_ok s) { caller = waiting_pinger e; result = none })
  takes_result :
      (e r : StartError)
      → s.caller ≡ waiting_reader
      → s.context_error ≡ some e
      → s.result ≡ some r
      → Local s (record s { caller = waiting_pinger e; result = none })
  stops_workers :
      (e : StartError)
      → s.caller ≡ waiting_pinger e
      → s.pinging ≡ false
      → Local s (record s { caller = stopping_workers e })
  returns :
      (e : StartError)
      → s.caller ≡ stopping_workers e
      → s.busy ≡ 0
      → Local s (record s { caller = returned e })

-- The steps of the network, which delivers messages or loses the connection, of the workers, and of
-- the owner of the context. A message of the WebSocket may complete several messages.
pub data Outside (s : Session) : Session → Type 0 where
  receives :
      (n : ℕ)
      → s.reader ≡ reading
      → s.con_closed ≡ false
      → Outside s (record s { buffered = n + s.buffered })
  blocks : s.reader ≡ handling → Outside s (record s { reader = blocked })
  unblocks : s.reader ≡ blocked → Outside s (record s { reader = handling })
  takes_job : Outside s (record s { busy = suc s.busy })
  ends_job : (n : ℕ) → s.busy ≡ suc n → Outside s (record s { busy = n })
  breaks : s.reader ≡ reading → Outside s (record s { reader = sent; result = some reading_failed })
  finishes_context :
      (e : StartError)
      → (e ≡ context_canceled) ⊎ (e ≡ context_deadline_exceeded)
      → s.context_error ≡ none
      → Outside s (record s { context_error = some e })

pub data Reach : Session → Type 0 where
  starts : Reach connected
  acts : {s t : Session} → Reach s → Local s t → Reach t
  reacts : {s t : Session} → Reach s → Outside s t → Reach t

pub data Locals : Session → Session → Type 0 where
  stays : {s : Session} → Locals s s
  goes : {s t u : Session} → Local s t → Locals t u → Locals s u

-- A number of steps of the goroutines.
pub data Runs : ℕ → Session → Session → Type 0 where
  rests : {s : Session} → Runs zero s s
  runs : {n : ℕ} {s t u : Session} → Local s t → Runs n t u → Runs (suc n) s u
