-- ===== src/Client/Session/Hanging.antt =====
-- When `start` of client/awsclient.go goes on waiting for its reader.
use securetunnel.Base.{
  ◌≡◌, ◌≢◌, refl, sym, ◌∙◌, subst, ◌⊎◌, inl, inr, Bool, false, none, some, arith,
}
use securetunnel.Client.Retry.{StartError}
use securetunnel.Client.Session.{
  Reader, checking, sent, reading, handling, blocked, selecting, waiting_reader, Session, close,
  Local, checks, gives_up, fails, cancels, stops_pinging, closes_on_context, closes_on_result,
  takes_result, stops_workers, returns, reads, rejects, handles, Reach, Locals, stays, goes,
}
use securetunnel.Client.Session.Invariant.{ReaderOk, CallerOk, Consistent, Reach-Consistent}

-- The reader is held up in the handlers, or reads from a connection that is still open.
abbrev pub IsStuck : Session → Type 0
IsStuck s =
    (s.reader ≡ blocked) ⊎ ((s.reader ≡ reading) × (s.con_closed ≡ false) × (s.buffered ≡ 0))

-- The caller waits for a reader that is stuck.
pub record Hangs (s : Session) : Type 0 where
  pub caller_waits : s.caller ≡ waiting_reader
  pub stuck : IsStuck s
  pub no_result : s.result ≡ none

moved-Stuck :
    {A : Type 0} (s : Session) (r : Reader)
    → s.reader ≡ r
    → r ≢ blocked
    → r ≢ reading
    → IsStuck s
    → A
moved-Stuck s r at h n (inl e) = absurd (h (sym at ∙ e))
moved-Stuck s r at h n (inr (e, unclosed, empty)) = absurd (n (sym at ∙ e))

Local-Hangs : (s t : Session) → Local s t → Hangs s → Hangs t
Local-Hangs s _ (checks at inner) h =
    moved-Stuck s checking at (λ e. absurd (ground arith)) (λ e. absurd (ground arith)) h.stuck
Local-Hangs s _ (gives_up e at inner) h =
    moved-Stuck s checking at (λ e. absurd (ground arith)) (λ e. absurd (ground arith)) h.stuck
Local-Hangs s _ (reads n at some_left) h = elim h.stuck [
  | inl e ↦ absurd (ground (arith, e))
  | inr (e, unclosed, empty) ↦ absurd (ground (arith, empty))
]
Local-Hangs s _ (rejects n at some_left) h = elim h.stuck [
  | inl e ↦ absurd (ground (arith, e))
  | inr (e, unclosed, empty) ↦ absurd (ground (arith, empty))
]
Local-Hangs s _ (handles at) h =
    moved-Stuck s handling at (λ e. absurd (ground arith)) (λ e. absurd (ground arith)) h.stuck
Local-Hangs s _ (fails at none_left closed) h = elim h.stuck [
  | inl e ↦ absurd (ground (arith, e))
  | inr (e, unclosed, empty) ↦ absurd (ground (arith, unclosed))
]
Local-Hangs s _ (stops_workers e at off) h = absurd (ground (arith, h.caller_waits))
Local-Hangs s _ (cancels at) h =
    moved-Stuck s sent at (λ e. absurd (ground arith)) (λ e. absurd (ground arith)) h.stuck
Local-Hangs s _ (stops_pinging e on inner) h = record {
  caller_waits = h.caller_waits;
  stuck = h.stuck;
  no_result = h.no_result;
}
Local-Hangs s _ (closes_on_context e ok at done) h = absurd (ground (arith, h.caller_waits))
Local-Hangs s _ (closes_on_result e ok at result) h = absurd (ground (arith, h.caller_waits))
Local-Hangs s _ (takes_result e r at ctx result) h = absurd (ground (arith, h.no_result))
Local-Hangs s _ (returns e at off) h = absurd (ground (arith, h.caller_waits))

Locals-Hangs : (s t : Session) → Locals s t → Hangs s → Hangs t
Locals-Hangs s _ stays h = h
Locals-Hangs _ _ (goes {s} {t} {u} step rest) h = Locals-Hangs t u rest (Local-Hangs s t step h)

-- The reader is held up in the handlers, or it is in `Next` with nothing to return, and the
-- close frame cannot be written.
abbrev pub IsOutOfReach : Session → Bool → Type 0
IsOutOfReach s write_ok =
    (s.reader ≡ blocked) ⊎ ((s.reader ≡ reading) × (s.buffered ≡ 0) × (write_ok ≡ false))

close-IsStuck :
    (s : Session) (write_ok : Bool)
    → s.con_closed ≡ false
    → Consistent s
    → IsOutOfReach s write_ok
    → IsStuck (record (close write_ok s) { caller = waiting_reader }) × (s.result ≡ none)
unfolding close
close-IsStuck s write_ok unclosed i (inl e) =
    let (running, empty) = subst (λ r. ReaderOk r s) e i.reader_ok in (inl e, empty)
close-IsStuck s write_ok unclosed i (inr (e, empty_buffer, failed)) =
    let (running, empty) = subst (λ r. ReaderOk r s) e i.reader_ok in
    (inr (e, rw failed unclosed, empty_buffer), empty)

-- If the caller's context is done while the reader is held up in the handlers, by a worker or the
-- network, or while it waits in `Next` for a message and the close frame cannot be written, then
-- whatever steps the goroutines of `start` take by themselves, `start` goes on waiting for the
-- reader.
pub close-Hangs :
    (s t : Session) (e : StartError) (write_ok : Bool)
    → Reach s
    → s.caller ≡ selecting
    → s.context_error ≡ some e
    → IsOutOfReach s write_ok
    → Locals (record (close write_ok s) { caller = waiting_reader }) t
    → Hangs t
unfolding close
close-Hangs s t e write_ok reach at ctx beyond run =
    let i = Reach-Consistent s reach in
    let (unclosed, h) = subst (λ c. CallerOk c s) at i.caller_ok in
    let (stuck, empty) = close-IsStuck s write_ok unclosed i beyond in
    Locals-Hangs (record (close write_ok s) { caller = waiting_reader }) t run
      (record { caller_waits = refl; stuck = stuck; no_result = empty })
