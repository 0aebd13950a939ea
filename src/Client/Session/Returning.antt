-- ===== src/Client/Session/Returning.antt =====
-- When `start` of client/awsclient.go returns, and when it does not.
use securetunnel.Base.{
  ℕ, zero, suc, ◌+◌, ◌*◌, ◌≤◌, ◌<◌, ◌≡◌, ◌≢◌, refl, subst, ◌∙◌, zero_or_suc, ◌⊎◌, inl, inr, Bool,
  true, false, none, some, arith, Bool-cases, Option-cases,
}
use securetunnel.Client.Retry.{StartError, context_canceled, reading_failed}
use securetunnel.Client.Session.{
  Reader, checking, reading, handling, blocked, sent, ended, Caller, selecting, waiting_reader,
  waiting_pinger, returned, Session, inner_error, close, Local, checks, gives_up, fails, cancels,
  stops_pinging, closes_on_context, closes_on_result, takes_result, stops_workers, rejects, returns,
  reads, handles, stopping_workers, Reach, acts, Locals, stays, goes, Runs, rests, runs,
}
use securetunnel.Client.Session.Invariant.{
  HasCause, ReaderOk, IsDone, CallerOk, Consistent, Reach-Consistent,
}

abbrev reader_left : Reader → ℕ
reader_left handling = 4
reader_left blocked = 4
reader_left checking = 3
reader_left reading = 2
reader_left sent = 1
reader_left ended = 0

abbrev pinger_left : Bool → ℕ
pinger_left true = 1
pinger_left false = 0

abbrev caller_left : Caller → ℕ
caller_left selecting = 4
caller_left waiting_reader = 3
caller_left (waiting_pinger e) = 2
caller_left (stopping_workers e) = 1
caller_left (returned e) = 0

-- A bound on the steps that the goroutines can still take by themselves.
abbrev pub left : Session → ℕ
left s = 3 * s.buffered + reader_left s.reader + pinger_left s.pinging + caller_left s.caller

pub Local-left : (s t : Session) → Local s t → left t < left s
unfolding close
Local-left s _ (checks at inner) = rw at (omega arith)
Local-left s _ (gives_up e at inner) = rw at (omega arith)
Local-left s _ (reads n at some_left) = rw (at, some_left) (omega arith)
Local-left s _ (rejects n at some_left) = rw at (omega arith)
Local-left s _ (handles at) = rw at (omega arith)
Local-left s _ (stops_workers e at off) = rw at (omega arith)
Local-left s _ (fails at none_left closed) = rw at (omega arith)
Local-left s _ (cancels at) = rw at (omega arith)
Local-left s _ (stops_pinging e on inner) = rw on (omega arith)
Local-left s _ (closes_on_context e true at done) = rw at (omega arith)
Local-left s _ (closes_on_context e false at done) = rw at (omega arith)
Local-left s _ (closes_on_result e true at result) = rw at (omega arith)
Local-left s _ (closes_on_result e false at result) = rw at (omega arith)
Local-left s _ (takes_result e r at ctx result) = rw at (omega arith)
Local-left s _ (returns e at off) = rw at (omega arith)

abbrev pub IsReturned : Session → Type 0
IsReturned s = (e : StartError) × (s.caller ≡ returned e)

abbrev Moves : Session → Type 0
Moves s = (t : Session) × Local s t

inner_cases : (s : Session) → (inner_error s ≡ none) ⊎ ((e : StartError) × (inner_error s ≡ some e))
inner_cases s = Option-cases (inner_error s)

-- The connection is closed, the reader is not held up, and no worker is in a function.
abbrev pub Closing : Session → Type 0
Closing s = (s.con_closed ≡ true) × (s.reader ≢ blocked) × (s.busy ≡ 0)

-- The reader of a closed connection gets to its end.
reader-Moves : (s : Session) (r : Reader) → s.reader ≡ r → Closing s → Moves s ⊎ (s.reader ≡ ended)
reader-Moves s blocked at (closed, free, idle) = absurd (free at)
reader-Moves s handling at closed = inl (record s { reader = checking }, handles at)
reader-Moves s checking at closed = elim (inner_cases s) [
  | inl n ↦ inl (record s { reader = reading }, checks at n)
  | inr (e, n) ↦ inl (record s { reader = sent; result = some e }, gives_up e at n)
]
reader-Moves s reading at (closed, free, idle) = elim (zero_or_suc s.buffered) [
  | inl none_left ↦
      inl (record s { reader = sent; result = some reading_failed }, fails at none_left closed)
  | inr (n, some_left) ↦ inl (record s { reader = handling; buffered = n }, reads n at some_left)
]
reader-Moves s sent at closed = inl (record s { reader = ended; cancelled = true }, cancels at)
reader-Moves s ended at closed = inr at

cancelled_inner : (s : Session) → s.cancelled ≡ true → (e : StartError) × (inner_error s ≡ some e)
unfolding inner_error
cancelled_inner s c = elim (Option-cases s.context_error) [
  | inl n ↦ (context_canceled, rw (n, c))
  | inr (e, n) ↦ (e, rw n)
]

caller-Moves :
    (s : Session) (c : Caller)
    → s.caller ≡ c
    → Closing s
    → Consistent s
    → s.reader ≡ ended
    → Moves s ⊎ IsReturned s
caller-Moves s selecting at (closed, free, idle) i end =
    let (unclosed, h) = subst (λ c. CallerOk c s) at i.caller_ok in absurd (ground arith)
caller-Moves s waiting_reader at closed i end =
    let ((e, ctx), h) = subst (λ c. CallerOk c s) at i.caller_ok in
    let (r, is) = h (inr end) in
    inl (record s { caller = waiting_pinger e; result = none }, takes_result e r at ctx is)
caller-Moves s (waiting_pinger e) at closed i end = elim (Bool-cases s.pinging) [
  | inl on ↦
      let (x, inner) = cancelled_inner s (subst (λ r. ReaderOk r s) end i.reader_ok) in
      inl (record s { pinging = false }, stops_pinging x on inner)
  | inr off ↦ inl (record s { caller = stopping_workers e }, stops_workers e at off)
]
caller-Moves s (stopping_workers e) at (closed, free, idle) i end =
    inl (record s { caller = returned e }, returns e at idle)
caller-Moves s (returned e) at closed i end = inr (e, at)

pub moves : (s : Session) → Closing s → Consistent s → Moves s ⊎ IsReturned s
moves s closed i = elim (reader-Moves s s.reader refl closed) [
  | inl m ↦ inl m
  | inr end ↦ caller-Moves s s.caller refl closed i end
]

Local-closed : (s t : Session) → Local s t → s.con_closed ≡ true → t.con_closed ≡ true
unfolding close
Local-closed s _ (checks at inner) h = h
Local-closed s _ (gives_up e at inner) h = h
Local-closed s _ (reads n at some_left) h = h
Local-closed s _ (rejects n at some_left) h = h
Local-closed s _ (handles at) h = h
Local-closed s _ (stops_workers e at off) h = h
Local-closed s _ (fails at none_left closed) h = h
Local-closed s _ (cancels at) h = h
Local-closed s _ (stops_pinging e on inner) h = h
Local-closed s _ (closes_on_context e true at done) h = refl
Local-closed s _ (closes_on_context e false at done) h = h
Local-closed s _ (closes_on_result e true at result) h = refl
Local-closed s _ (closes_on_result e false at result) h = h
Local-closed s _ (takes_result e r at ctx result) h = h
Local-closed s _ (returns e at off) h = h

Local-free : (s t : Session) → Local s t → s.reader ≢ blocked → t.reader ≢ blocked
unfolding close
Local-free s _ (checks at inner) h = λ e. absurd (ground arith)
Local-free s _ (gives_up e at inner) h = λ e. absurd (ground arith)
Local-free s _ (reads n at some_left) h = λ e. absurd (ground arith)
Local-free s _ (rejects n at some_left) h = λ e. absurd (ground arith)
Local-free s _ (handles at) h = λ e. absurd (ground arith)
Local-free s _ (stops_workers e at off) h = h
Local-free s _ (fails at none_left closed) h = λ e. absurd (ground arith)
Local-free s _ (cancels at) h = λ e. absurd (ground arith)
Local-free s _ (stops_pinging e on inner) h = h
Local-free s _ (closes_on_context e ok at done) h = h
Local-free s _ (closes_on_result e ok at result) h = h
Local-free s _ (takes_result e r at ctx result) h = h
Local-free s _ (returns e at off) h = h

Local-busy : (s t : Session) → Local s t → t.busy ≡ s.busy
unfolding close
Local-busy s _ (checks at inner) = refl
Local-busy s _ (gives_up e at inner) = refl
Local-busy s _ (reads n at some_left) = refl
Local-busy s _ (rejects n at some_left) = refl
Local-busy s _ (handles at) = refl
Local-busy s _ (fails at none_left closed) = refl
Local-busy s _ (cancels at) = refl
Local-busy s _ (stops_pinging e on inner) = refl
Local-busy s _ (closes_on_context e ok at done) = refl
Local-busy s _ (closes_on_result e ok at result) = refl
Local-busy s _ (takes_result e r at ctx result) = refl
Local-busy s _ (stops_workers e at off) = refl
Local-busy s _ (returns e at idle) = refl

Local-Closing : (s t : Session) → Local s t → Closing s → Closing t
Local-Closing s t step (closed, free, idle) =
    (Local-closed s t step closed, Local-free s t step free, Local-busy s t step ∙ idle)

returns_within :
    (fuel : ℕ) (s : Session)
    → left s < fuel
    → Reach s
    → Closing s
    → (t : Session) × Locals s t × IsReturned t
returns_within zero s lt reach closed = absurd (omega arith)
returns_within (suc fuel) s lt reach closed = elim (moves s closed (Reach-Consistent s reach)) [
  | inr done ↦ (s, stays, done)
  | inl (t, step) ↦
      let smaller = Local-left s t step in
      let (u, rest, done) =
        returns_within fuel t (omega arith) (acts reach step) (Local-Closing s t step closed) in
      (u, goes step rest, done)
]

reader_left-le : (r : Reader) → reader_left r ≤ 4
reader_left-le blocked = omega arith
reader_left-le handling = omega arith
reader_left-le checking = omega arith
reader_left-le reading = omega arith
reader_left-le sent = omega arith
reader_left-le ended = omega arith

pinger_left-le : (b : Bool) → pinger_left b ≤ 1
pinger_left-le true = omega arith
pinger_left-le false = omega arith

caller_left-le : (c : Caller) → caller_left c ≤ 4
caller_left-le selecting = omega arith
caller_left-le waiting_reader = omega arith
caller_left-le (waiting_pinger e) = omega arith
caller_left-le (stopping_workers e) = omega arith
caller_left-le (returned e) = omega arith

Runs-left : (n : ℕ) (s t : Session) → Runs n s t → n + left t ≤ left s
Runs-left _ s _ rests = omega arith
Runs-left _ _ _ (runs {n} {s} {t} {u} step rest) =
    omega (arith, Local-left s t step, Runs-left n t u rest)

Runs-Reach : (n : ℕ) (s t : Session) → Runs n s t → Reach s → Closing s → Reach t × Closing t
Runs-Reach _ s _ rests reach closed = (reach, closed)
Runs-Reach _ _ _ (runs {n} {s} {t} {u} step rest) reach closed =
    Runs-Reach n t u rest (acts reach step) (Local-Closing s t step closed)

-- In a reachable state of one connection of the client whose WebSocket is closed, whose reader is
-- not held up in the handlers, and none of whose workers is in a function, however its goroutines
-- are scheduled, they take at most nine steps by themselves and three for each message that has
-- arrived and is not yet read, and from wherever they stand they can go on until `start` has
-- stopped the workers and returned.
pub session_returns :
    (s t : Session) (n : ℕ)
    → Reach s
    → Closing s
    → Runs n s t
    → (n ≤ 9 + 3 * s.buffered) × ((u : Session) × Locals t u × IsReturned u)
session_returns s t n reach closed run =
    let (reach_t, closed_t) = Runs-Reach n s t run reach closed in
    (
      omega (
        arith,
        Runs-left n s t run,
        reader_left-le s.reader,
        pinger_left-le s.pinging,
        caller_left-le s.caller,
      ),
      returns_within (suc (left t)) t (omega arith) reach_t closed_t,
    )

-- In every reachable state in which `start` has returned an error, its reader reads no more and its
-- pings have ended, and the error is that of the reader or of the caller's context.
pub returned_after :
    (s : Session) (e : StartError)
    → Reach s
    → s.caller ≡ returned e
    → IsDone s.reader × HasCause s e × (s.pinging ≡ false)
returned_after s e reach at = subst (λ c. CallerOk c s) at (Reach-Consistent s reach).caller_ok
