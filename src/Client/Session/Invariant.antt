-- ===== src/Client/Session/Invariant.antt =====
-- What holds of the goroutines of `start` at any time.
use securetunnel.Base.{
  ℕ, suc, ◌+◌, ◌≡◌, refl, subst, ◌∙◌, ◌⊎◌, inl, inr, Bool, true, false, Option, none, some, arith,
  if◌then◌else◌,
}
use securetunnel.Client.Retry.{StartError, reading_failed}
use securetunnel.Client.Session.{
  Reader, checking, reading, handling, blocked, sent, ended, Caller, selecting, waiting_reader,
  waiting_pinger, returned, Session, inner_error, close, Local, checks, gives_up, fails, cancels,
  stops_pinging, closes_on_context, closes_on_result, takes_result, stops_workers, rejects, returns,
  reads, handles, stopping_workers, Outside, receives, blocks, unblocks, takes_job, ends_job,
  breaks, finishes_context, Reach, starts, acts, reacts,
}

-- The error is the reader's, or that of the caller's context.
abbrev pub HasCause : Session → StartError → Type 0
HasCause s e = (e ≡ reading_failed) ⊎ (s.context_error ≡ some e)

abbrev IsFresh : Reader → Type 0
IsFresh r = (r ≡ checking) ⊎ (r ≡ reading) ⊎ (r ≡ handling) ⊎ (r ≡ blocked)

-- What the place of each goroutine says of the rest.
abbrev pub ReaderOk : Reader → Session → Type 0
ReaderOk checking s = (s.cancelled ≡ false) × (s.result ≡ none)
ReaderOk reading s = (s.cancelled ≡ false) × (s.result ≡ none)
ReaderOk handling s = (s.cancelled ≡ false) × (s.result ≡ none)
ReaderOk blocked s = (s.cancelled ≡ false) × (s.result ≡ none)
ReaderOk sent s = s.cancelled ≡ false
ReaderOk ended s = s.cancelled ≡ true

abbrev pub IsDone : Reader → Type 0
IsDone r = (r ≡ sent) ⊎ (r ≡ ended)

abbrev pub CallerOk : Caller → Session → Type 0
CallerOk selecting s =
    (s.con_closed ≡ false) × (IsDone s.reader → (e : StartError) × (s.result ≡ some e))
CallerOk waiting_reader s =
    ((e : StartError) × (s.context_error ≡ some e))
    × (IsDone s.reader → (e : StartError) × (s.result ≡ some e))
CallerOk (waiting_pinger e) s = IsDone s.reader × HasCause s e
CallerOk (stopping_workers e) s = IsDone s.reader × HasCause s e × (s.pinging ≡ false)
CallerOk (returned e) s = IsDone s.reader × HasCause s e × (s.pinging ≡ false)

pub record Consistent (s : Session) : Type 0 where
  pub reader_ok : ReaderOk s.reader s
  pub caller_ok : CallerOk s.caller s
  pub cause : (e : StartError) → s.result ≡ some e → HasCause s e

fresh-ne_done : {A : Type 0} (r : Reader) → IsFresh r → IsDone r → A
fresh-ne_done r (inl e) (inl f) = absurd (ground arith)
fresh-ne_done r (inl e) (inr f) = absurd (ground arith)
fresh-ne_done r (inr (inl e)) (inl f) = absurd (ground arith)
fresh-ne_done r (inr (inl e)) (inr f) = absurd (ground arith)
fresh-ne_done r (inr (inr (inl e))) (inl f) = absurd (ground arith)
fresh-ne_done r (inr (inr (inl e))) (inr f) = absurd (ground arith)
fresh-ne_done r (inr (inr (inr e))) (inl f) = absurd (ground arith)
fresh-ne_done r (inr (inr (inr e))) (inr f) = absurd (ground arith)

-- The reader comes from the loop to another place.
moved :
    (c : Caller) (s : Session) (r : Reader) (result : Option StartError) (n : ℕ)
    → IsFresh s.reader
    → (IsDone r → (e : StartError) × (result ≡ some e))
    → CallerOk c s
    → CallerOk c (record s { reader = r; result = result; buffered = n })
moved selecting s r result n fresh h (unclosed, old) = (unclosed, h)
moved waiting_reader s r result n fresh h (done, old) = (done, h)
moved (waiting_pinger e) s r result n fresh h (done, cause) = fresh-ne_done s.reader fresh done
moved (stopping_workers e) s r result n fresh h (done, cause, off) =
    fresh-ne_done s.reader fresh done
moved (returned e) s r result n fresh h (done, cause, off) = fresh-ne_done s.reader fresh done

-- What is counted plays no part.
uncounted :
    (c : Caller) (s : Session) (n b : ℕ)
    → CallerOk c s
    → CallerOk c (record s { buffered = n; busy = b })
uncounted selecting s n b h = h
uncounted waiting_reader s n b h = h
uncounted (waiting_pinger e) s n b h = h
uncounted (stopping_workers e) s n b h = h
uncounted (returned e) s n b h = h

cancelled_caller :
    (c : Caller) (s : Session)
    → s.reader ≡ sent
    → CallerOk c s
    → CallerOk c (record s { reader = ended; cancelled = true })
cancelled_caller selecting s at (unclosed, h) = (unclosed, λ _. h (inl at))
cancelled_caller waiting_reader s at (done, h) = (done, λ _. h (inl at))
cancelled_caller (waiting_pinger e) s at (done, cause) = (inr refl, cause)
cancelled_caller (stopping_workers e) s at (done, cause, off) = (inr refl, cause, off)
cancelled_caller (returned e) s at (done, cause, off) = (inr refl, cause, off)

silenced : (c : Caller) (s : Session) → CallerOk c s → CallerOk c (record s { pinging = false })
silenced selecting s h = h
silenced waiting_reader s h = h
silenced (waiting_pinger e) s h = h
silenced (stopping_workers e) s (done, cause, off) = (done, cause, refl)
silenced (returned e) s (done, cause, off) = (done, cause, refl)

reader_kept :
    (r : Reader) (s t : Session)
    → t.cancelled ≡ s.cancelled
    → t.result ≡ s.result
    → ReaderOk r s
    → ReaderOk r t
reader_kept checking s t c e (a, b) = (c ∙ a, e ∙ b)
reader_kept reading s t c e (a, b) = (c ∙ a, e ∙ b)
reader_kept handling s t c e (a, b) = (c ∙ a, e ∙ b)
reader_kept blocked s t c e (a, b) = (c ∙ a, e ∙ b)
reader_kept sent s t c e a = c ∙ a
reader_kept ended s t c e a = c ∙ a

-- A result is there only behind the loop.
taken :
    (r : Reader) (s t : Session) (e : StartError)
    → t.cancelled ≡ s.cancelled
    → s.result ≡ some e
    → ReaderOk r s
    → ReaderOk r t × IsDone r
taken checking s t e c h (a, b) = absurd (ground arith)
taken reading s t e c h (a, b) = absurd (ground arith)
taken handling s t e c h (a, b) = absurd (ground arith)
taken blocked s t e c h (a, b) = absurd (ground arith)
taken sent s t e c h a = (c ∙ a, inl refl)
taken ended s t e c h a = (c ∙ a, inr refl)

inner_error-cause :
    (s : Session) (e : StartError)
    → s.cancelled ≡ false
    → inner_error s ≡ some e
    → s.context_error ≡ some e
unfolding inner_error
inner_error-cause s e c h = ground arith

-- The reader puts a result into the channel.
sent-Consistent :
    (s : Session) (e : StartError)
    → IsFresh s.reader
    → s.cancelled ≡ false
    → HasCause s e
    → Consistent s
    → Consistent (record s { reader = sent; result = some e })
sent-Consistent s e fresh running cause i = record {
  reader_ok = running;
  caller_ok = moved s.caller s sent (some e) s.buffered fresh (λ _. (e, refl)) i.caller_ok;
  cause = λ x is. let same : e ≡ x = ground arith in subst (HasCause s) same cause;
}

closed-Consistent :
    (write_ok : Bool) (s : Session) (c : Caller) (result : Option StartError)
    → ReaderOk s.reader (record s { caller = c; result = result })
    → ((b : Bool) → CallerOk c (record s { caller = c; result = result; con_closed = b }))
    → ((e : StartError) → result ≡ some e → HasCause s e)
    → Consistent (record (close write_ok s) { caller = c; result = result })
unfolding close
closed-Consistent write_ok s c result r k h = record {
  reader_ok = reader_kept s.reader (record s { caller = c; result = result }) _ refl refl r;
  caller_ok = k (if write_ok then true else s.con_closed);
  cause = h;
}

running_of :
    (r : Reader) (s : Session)
    → IsFresh r
    → ReaderOk r s
    → (s.cancelled ≡ false) × (s.result ≡ none)
running_of checking s fresh h = h
running_of reading s fresh h = h
running_of handling s fresh h = h
running_of blocked s fresh h = h
running_of sent s fresh h = fresh-ne_done sent fresh (inl refl)
running_of ended s fresh h = fresh-ne_done ended fresh (inr refl)

Local-Consistent : (s t : Session) → Local s t → Consistent s → Consistent t
unfolding close
Local-Consistent s _ (checks at inner) i = record {
  reader_ok = running_of s.reader s (inl at) i.reader_ok;
  caller_ok =
      moved s.caller s reading s.result s.buffered (inl at)
        (λ d. fresh-ne_done reading (inr (inl refl)) d) i.caller_ok;
  cause = i.cause;
}
Local-Consistent s _ (gives_up e at inner) i =
    let (running, empty) = running_of s.reader s (inl at) i.reader_ok in
    sent-Consistent s e (inl at) running (inr (inner_error-cause s e running inner)) i
Local-Consistent s _ (reads n at some_left) i = record {
  reader_ok = running_of s.reader s (inr (inl at)) i.reader_ok;
  caller_ok =
      moved s.caller s handling s.result n (inr (inl at))
        (λ d. fresh-ne_done handling (inr (inr (inl refl))) d) i.caller_ok;
  cause = i.cause;
}
Local-Consistent s _ (rejects n at some_left) i =
    let (running, empty) = running_of s.reader s (inr (inl at)) i.reader_ok in
    sent-Consistent s reading_failed (inr (inl at)) running (inl refl) i
Local-Consistent s _ (handles at) i = record {
  reader_ok = running_of s.reader s (inr (inr (inl at))) i.reader_ok;
  caller_ok =
      moved s.caller s checking s.result s.buffered (inr (inr (inl at)))
        (λ d. fresh-ne_done checking (inl refl) d) i.caller_ok;
  cause = i.cause;
}
Local-Consistent s _ (fails at none_left closed) i =
    let (running, empty) = running_of s.reader s (inr (inl at)) i.reader_ok in
    sent-Consistent s reading_failed (inr (inl at)) running (inl refl) i
Local-Consistent s _ (cancels at) i = record {
  reader_ok = refl;
  caller_ok = cancelled_caller s.caller s at i.caller_ok;
  cause = i.cause;
}
Local-Consistent s _ (stops_pinging e on inner) i = record {
  reader_ok = reader_kept s.reader s _ refl refl i.reader_ok;
  caller_ok = silenced s.caller s i.caller_ok;
  cause = i.cause;
}
Local-Consistent s _ (closes_on_context e write_ok at done) i =
    let (unclosed, has) = subst (λ c. CallerOk c s) at i.caller_ok in
    closed-Consistent write_ok s waiting_reader s.result
      (reader_kept s.reader s _ refl refl i.reader_ok) (λ b. ((e, done), has)) i.cause
Local-Consistent s _ (closes_on_result e write_ok at result) i =
    let (kept, done) =
      taken s.reader s (record s { caller = waiting_pinger e; result = none }) e refl result
        i.reader_ok in
    closed-Consistent write_ok s (waiting_pinger e) none kept (λ b. (done, i.cause e result))
      (λ x h. absurd (ground arith))
Local-Consistent s _ (takes_result e r at ctx result) i =
    let (kept, done) =
      taken s.reader s (record s { caller = waiting_pinger e; result = none }) r refl result
        i.reader_ok in
    record { reader_ok = kept; caller_ok = (done, inr ctx); cause = λ x h. absurd (ground arith) }
Local-Consistent s _ (returns e at free) i = record {
  reader_ok = reader_kept s.reader s _ refl refl i.reader_ok;
  caller_ok = subst (λ c. CallerOk c s) at i.caller_ok;
  cause = i.cause;
}
Local-Consistent s _ (stops_workers e at off) i =
    let (done, cause) = subst (λ c. CallerOk c s) at i.caller_ok in
    record {
      reader_ok = reader_kept s.reader s _ refl refl i.reader_ok;
      caller_ok = (done, cause, off);
      cause = i.cause;
    }

cause_kept :
    (s : Session) (e x : StartError)
    → s.context_error ≡ none
    → HasCause s x
    → HasCause (record s { context_error = some e }) x
cause_kept s e x n (inl h) = inl h
cause_kept s e x n (inr h) = absurd (ground arith)

caller_kept :
    (c : Caller) (s : Session) (e : StartError)
    → s.context_error ≡ none
    → CallerOk c s
    → CallerOk c (record s { context_error = some e })
caller_kept selecting s e n h = h
caller_kept waiting_reader s e n (done, h) = ((e, refl), h)
caller_kept (waiting_pinger x) s e n (done, cause) = (done, cause_kept s e x n cause)
caller_kept (stopping_workers x) s e n (done, cause, off) = (done, cause_kept s e x n cause, off)
caller_kept (returned x) s e n (done, cause, off) = (done, cause_kept s e x n cause, off)

Outside-Consistent : (s t : Session) → Outside s t → Consistent s → Consistent t
Outside-Consistent s _ (receives n at unclosed) i = record {
  reader_ok = reader_kept s.reader s _ refl refl i.reader_ok;
  caller_ok = uncounted s.caller s (n + s.buffered) s.busy i.caller_ok;
  cause = i.cause;
}
Outside-Consistent s _ (blocks at) i = record {
  reader_ok = running_of s.reader s (inr (inr (inl at))) i.reader_ok;
  caller_ok =
      moved s.caller s blocked s.result s.buffered (inr (inr (inl at)))
        (λ d. fresh-ne_done blocked (inr (inr (inr refl))) d) i.caller_ok;
  cause = i.cause;
}
Outside-Consistent s _ (unblocks at) i = record {
  reader_ok = running_of s.reader s (inr (inr (inr at))) i.reader_ok;
  caller_ok =
      moved s.caller s handling s.result s.buffered (inr (inr (inr at)))
        (λ d. fresh-ne_done handling (inr (inr (inl refl))) d) i.caller_ok;
  cause = i.cause;
}
Outside-Consistent s _ takes_job i = record {
  reader_ok = reader_kept s.reader s _ refl refl i.reader_ok;
  caller_ok = uncounted s.caller s s.buffered (suc s.busy) i.caller_ok;
  cause = i.cause;
}
Outside-Consistent s _ (ends_job n is) i = record {
  reader_ok = reader_kept s.reader s _ refl refl i.reader_ok;
  caller_ok = uncounted s.caller s s.buffered n i.caller_ok;
  cause = i.cause;
}
Outside-Consistent s _ (breaks at) i =
    let (running, empty) = running_of s.reader s (inr (inl at)) i.reader_ok in
    sent-Consistent s reading_failed (inr (inl at)) running (inl refl) i
Outside-Consistent s _ (finishes_context e kind n) i = record {
  reader_ok = reader_kept s.reader s _ refl refl i.reader_ok;
  caller_ok = caller_kept s.caller s e n i.caller_ok;
  cause = λ x h. cause_kept s e x n (i.cause x h);
}

pub Reach-Consistent : (s : Session) → Reach s → Consistent s
Reach-Consistent _ starts = record {
  reader_ok = (refl, refl);
  caller_ok = (refl, λ d. fresh-ne_done checking (inl refl) d);
  cause = λ e h. absurd (ground arith);
}
Reach-Consistent _ (acts {s} {t} r l) = Local-Consistent s t l (Reach-Consistent s r)
Reach-Consistent _ (reacts {s} {t} r o) = Outside-Consistent s t o (Reach-Consistent s r)
