-- ===== src/Server/Running/Returning.antt =====
-- `run` comes to its end once the connection is closed.
use securetunnel.Base.{
  zero_or_suc, ℕ, zero, suc, ◌+◌, ◌*◌, ◌≤◌, ◌<◌, ◌≡◌, ◌≢◌, refl, ap, subst, ◌∙◌, ◌⊎◌, inl, inr,
  Bool, true, arith,
}
use securetunnel.Server.Running.{
  Reader, reading, forwarding, blocked, Writer, writing, Caller, waiting_writer, waiting_reader,
  finished, Run, in_close, close_run, IsForwarding, Local, reads, rejects, forwards,
  serialize_fails, read_fails, takes, write_fails, stops_writing, takes_read_error,
  takes_write_error, closes_run, waits_for_writer, waits_for_reader, Outside, receives, loses,
  blocks, unblocks, queues, wrote, write_lost, closes, Reach, starts, acts, reacts, Runs, rests,
  runs,
}

-- What the place of the caller says of the other two.
abbrev CallerOk : Caller → Run → Type 0
CallerOk Caller.selecting s = (s.reader ≢ Reader.ended) × (s.writer ≢ Writer.ended)
CallerOk waiting_writer s = (s.cancelled ≡ true) × (s.writer ≢ Writer.ended)
CallerOk in_close s = s.reader ≢ Reader.ended
CallerOk waiting_reader s = s.reader ≢ Reader.ended
CallerOk finished s = Unit {0}

abbrev IsOk : Run → Type 0
IsOk s = CallerOk s.caller s

-- A step that changes the reader or the writer, but ends neither, and cancels nothing.
kept :
    (c : Caller) (s t : Run)
    → (t.cancelled ≡ s.cancelled)
    → (s.reader ≢ Reader.ended → t.reader ≢ Reader.ended)
    → (s.writer ≢ Writer.ended → t.writer ≢ Writer.ended)
    → CallerOk c s
    → CallerOk c t
kept Caller.selecting s t e f g (h, k) = (f h, g k)
kept waiting_writer s t e f g (h, k) = (e ∙ h, g k)
kept in_close s t e f g h = f h
kept waiting_reader s t e f g h = f h
kept finished s t e f g h = tt

close_run-con_closed :
    (ok : Bool) (s : Run) → s.con_closed ≡ true → (close_run ok s).con_closed ≡ true
close_run-con_closed ok s h = ground arith

Local-IsOk : {s t : Run} → Local s t → IsOk s → IsOk t
Local-IsOk {s} (reads n at some_left) h =
    kept s.caller s (record s { reader = forwarding; buffered = n }) refl
      (λ _ e. absurd (ground arith)) (λ k. k) h
Local-IsOk {s} (rejects n at some_left) h =
    kept s.caller s (record s { reader = Reader.failing }) refl (λ _ e. absurd (ground arith))
      (λ k. k) h
Local-IsOk {s} (serialize_fails at) h =
    kept s.caller s (record s { writer = Writer.failing }) refl (λ k. k)
      (λ _ e. absurd (ground arith)) h
Local-IsOk {s} (forwards at) h =
    kept s.caller s (record s { reader = reading }) refl (λ _ e. absurd (ground arith)) (λ k. k) h
Local-IsOk {s} (read_fails at none_left closed) h =
    kept s.caller s (record s { reader = Reader.failing }) refl (λ _ e. absurd (ground arith))
      (λ k. k) h
Local-IsOk {s} (takes n at waiting) h =
    kept s.caller s (record s { writer = writing; queued = n }) refl (λ k. k)
      (λ _ e. absurd (ground arith)) h
Local-IsOk {s} (write_fails at closed) h =
    kept s.caller s (record s { writer = Writer.failing }) refl (λ k. k)
      (λ _ e. absurd (ground arith)) h
Local-IsOk {s} (stops_writing at c) h =
    kept s.caller s (record s { writer = Writer.failing }) refl (λ k. k)
      (λ _ e. absurd (ground arith)) h
Local-IsOk {s} (takes_read_error at failing) h = (refl, (subst (λ c. CallerOk c s) at h).1)
Local-IsOk {s} (takes_write_error at failing) h = (subst (λ c. CallerOk c s) at h).0
Local-IsOk {s} (closes_run ok at free) h = subst (λ c. CallerOk c s) at h
Local-IsOk (waits_for_writer at failing) h = tt
Local-IsOk (waits_for_reader at failing) h = tt

Outside-IsOk : {s t : Run} → Outside s t → IsOk s → IsOk t
Outside-IsOk {s} (receives n at c) h =
    kept s.caller s (record s { buffered = n + s.buffered }) refl (λ k. k) (λ k. k) h
Outside-IsOk {s} (loses at) h =
    kept s.caller s (record s { reader = Reader.failing }) refl (λ _ e. absurd (ground arith))
      (λ k. k) h
Outside-IsOk {s} (blocks at) h =
    kept s.caller s (record s { reader = blocked }) refl (λ _ e. absurd (ground arith)) (λ k. k) h
Outside-IsOk {s} (unblocks at) h =
    kept s.caller s (record s { reader = reading }) refl (λ _ e. absurd (ground arith)) (λ k. k) h
Outside-IsOk {s} queues h =
    kept s.caller s (record s { queued = suc s.queued }) refl (λ k. k) (λ k. k) h
Outside-IsOk {s} (wrote at) h =
    kept s.caller s (record s { writer = Writer.selecting }) refl (λ k. k)
      (λ _ e. absurd (ground arith)) h
Outside-IsOk {s} (write_lost at) h =
    kept s.caller s (record s { writer = Writer.failing }) refl (λ k. k)
      (λ _ e. absurd (ground arith)) h
Outside-IsOk {s} (closes ok free) h = kept s.caller s (close_run ok s) refl (λ k. k) (λ k. k) h

Reach-IsOk : {s : Run} → Reach s → IsOk s
Reach-IsOk starts = (λ e. absurd (ground arith), λ e. absurd (ground arith))
Reach-IsOk (acts r step) = Local-IsOk step (Reach-IsOk r)
Reach-IsOk (reacts r step) = Outside-IsOk step (Reach-IsOk r)

-- The steps that each goroutine has left at most.
abbrev reader_left : Reader → ℕ
reader_left reading = 1
reader_left forwarding = 2
reader_left _ = 0

abbrev writer_left : Writer → ℕ
writer_left Writer.selecting = 2
writer_left writing = 1
writer_left _ = 0

abbrev caller_left : Caller → ℕ
caller_left Caller.selecting = 3
caller_left in_close = 2
caller_left finished = 0
caller_left _ = 1

left : Run → ℕ
left s = 2 * s.buffered + reader_left s.reader + writer_left s.writer + caller_left s.caller

Local-left : {s t : Run} → Local s t → left t < left s
unfolding left
Local-left {s} (reads n at some_left) = omega (arith, ap reader_left at)
Local-left {s} (rejects n at some_left) = omega (arith, ap reader_left at)
Local-left {s} (serialize_fails at) = omega (arith, ap writer_left at)
Local-left {s} (forwards at) = omega (arith, ap reader_left at)
Local-left {s} (takes n at waiting) = omega (arith, ap writer_left at)
Local-left {s} (read_fails at none_left closed) = omega (arith, ap reader_left at)
Local-left {s} (write_fails at closed) = omega (arith, ap writer_left at)
Local-left {s} (stops_writing at c) = omega (arith, ap writer_left at)
Local-left {s} (takes_read_error at failing) =
    omega (arith, ap caller_left at, ap reader_left failing)
Local-left {s} (takes_write_error at failing) =
    omega (arith, ap caller_left at, ap writer_left failing)
Local-left {s} (closes_run ok at free) = omega (arith, ap caller_left at)
Local-left {s} (waits_for_writer at failing) =
    omega (arith, ap caller_left at, ap writer_left failing)
Local-left {s} (waits_for_reader at failing) =
    omega (arith, ap caller_left at, ap reader_left failing)

-- Closed, and the reader is not stuck at the full channel of another connection.
abbrev pub IsClosing : Run → Type 0
IsClosing s = (s.con_closed ≡ true) × (s.reader ≢ blocked)

Local-IsClosing : {s t : Run} → Local s t → IsClosing s → IsClosing t
Local-IsClosing (reads n at some_left) h = (h.0, λ e. absurd (ground arith))
Local-IsClosing (rejects n at some_left) h = (h.0, λ e. absurd (ground arith))
Local-IsClosing (serialize_fails at) h = h
Local-IsClosing (forwards at) h = (h.0, λ e. absurd (ground arith))
Local-IsClosing (takes n at waiting) h = h
Local-IsClosing (read_fails at none_left closed) h = (h.0, λ e. absurd (ground arith))
Local-IsClosing (write_fails at closed) h = h
Local-IsClosing (stops_writing at c) h = h
Local-IsClosing (takes_read_error at failing) h = (h.0, λ e. absurd (ground arith))
Local-IsClosing (takes_write_error at failing) h = h
Local-IsClosing {s} (closes_run ok at free) h = (close_run-con_closed ok s h.0, h.1)
Local-IsClosing (waits_for_writer at failing) h = h
Local-IsClosing (waits_for_reader at failing) h = (h.0, λ e. absurd (ground arith))

reader_cases : (r : Reader) → (r ≡ forwarding) ⊎ (r ≡ blocked) ⊎ (¬ IsForwarding r)
reader_cases reading = inr (inr (λ e. absurd (ground arith)))
reader_cases forwarding = inl refl
reader_cases blocked = inr (inl refl)
reader_cases Reader.failing = inr (inr (λ e. absurd (ground arith)))
reader_cases Reader.ended = inr (inr (λ e. absurd (ground arith)))

abbrev CanMove : Run → Type 0
CanMove s = (t : Run) × Local s t

reader-CanMove :
    (s : Run) (r : Reader)
    → s.reader ≡ r
    → s.reader ≢ Reader.ended
    → IsClosing s
    → (s.reader ≡ Reader.failing) ⊎ CanMove s
reader-CanMove s reading e on h = elim (zero_or_suc s.buffered) [
  | inl none_left ↦ inr (record s { reader = Reader.failing }, read_fails e none_left h.0)
  | inr (n, some_left) ↦ inr (record s { reader = forwarding; buffered = n }, reads n e some_left)
]
reader-CanMove s forwarding e on h = inr (record s { reader = reading }, forwards e)
reader-CanMove s blocked e on h = absurd (h.1 e)
reader-CanMove s Reader.failing e on h = inl e
reader-CanMove s Reader.ended e on h = absurd (on e)

writer-CanMove :
    (s : Run) (w : Writer)
    → s.writer ≡ w
    → s.writer ≢ Writer.ended
    → s.cancelled ≡ true
    → IsClosing s
    → (s.writer ≡ Writer.failing) ⊎ CanMove s
writer-CanMove s Writer.selecting e on c h =
    inr (record s { writer = Writer.failing }, stops_writing e c)
writer-CanMove s writing e on c h = inr (record s { writer = Writer.failing }, write_fails e h.0)
writer-CanMove s Writer.failing e on c h = inl e
writer-CanMove s Writer.ended e on c h = absurd (on e)

caller-CanMove :
    (s : Run) (c : Caller)
    → s.caller ≡ c
    → CallerOk c s
    → IsClosing s
    → (s.caller ≡ finished) ⊎ CanMove s
caller-CanMove s Caller.selecting e ok h = elim (reader-CanMove s s.reader refl ok.0 h) [
  | inl failing ↦ inr (
    record s { reader = Reader.ended; cancelled = true; caller = waiting_writer },
    takes_read_error e failing,
  )
  | inr move ↦ inr move
]
caller-CanMove s waiting_writer e ok h = elim (writer-CanMove s s.writer refl ok.1 ok.0 h) [
  | inl failing ↦
      inr (record s { writer = Writer.ended; caller = finished }, waits_for_writer e failing)
  | inr move ↦ inr move
]
caller-CanMove s in_close e ok h = elim (reader_cases s.reader) [
  | inl at ↦ inr (record s { reader = reading }, forwards at)
  | inr (inl at) ↦ absurd (h.1 at)
  | inr (inr free) ↦
      inr (record (close_run true s) { caller = waiting_reader }, closes_run true e free)
]
caller-CanMove s waiting_reader e ok h = elim (reader-CanMove s s.reader refl ok h) [
  | inl failing ↦
      inr (record s { reader = Reader.ended; caller = finished }, waits_for_reader e failing)
  | inr move ↦ inr move
]
caller-CanMove s finished e ok h = inl e

abbrev pub CanFinish : Run → Type 0
CanFinish s = (k : ℕ) × (u : Run) × Runs k s u × (u.caller ≡ finished)

finishes_within : (n : ℕ) (s : Run) → left s < n → Reach s → IsClosing s → CanFinish s
finishes_within zero s h reach closing = absurd (omega arith)
finishes_within (suc n) s h reach closing =
    elim (caller-CanMove s s.caller refl (Reach-IsOk reach) closing) [
      | inl over ↦ (0, s, rests, over)
      | inr (t, step) ↦
          let (k, u, rest, over) =
            finishes_within n t (omega (arith, Local-left step)) (acts reach step)
              (Local-IsClosing step closing) in
          (suc k, u, runs step rest, over)
    ]

Runs-left : {n : ℕ} {s t : Run} → Runs n s t → n + left t ≤ left s
Runs-left rests = omega arith
Runs-left (runs step rest) = omega (arith, Local-left step, Runs-left rest)

Runs-IsClosing : {n : ℕ} {s t : Run} → Runs n s t → Reach s → IsClosing s → Reach t × IsClosing t
Runs-IsClosing rests reach closing = (reach, closing)
Runs-IsClosing (runs step rest) reach closing =
    Runs-IsClosing rest (acts reach step) (Local-IsClosing step closing)

reader_left-le : (r : Reader) → reader_left r ≤ 2
reader_left-le reading = omega arith
reader_left-le forwarding = omega arith
reader_left-le _ = omega arith

writer_left-le : (w : Writer) → writer_left w ≤ 2
writer_left-le Writer.selecting = omega arith
writer_left-le writing = omega arith
writer_left-le _ = omega arith

caller_left-le : (c : Caller) → caller_left c ≤ 3
caller_left-le Caller.selecting = omega arith
caller_left-le finished = omega arith
caller_left-le _ = omega arith

-- In a reachable state of a connection of the server that is closed and whose reader is not blocked
-- by the full channel of the other connection, however its goroutines are scheduled, they take at
-- most seven steps by themselves and two for each message that has arrived and is not yet read, and
-- from wherever they stand they can go on until `run` is past its `select`.
pub run-CanFinish :
    {n : ℕ} {s t : Run}
    → Reach s
    → IsClosing s
    → Runs n s t
    → (n ≤ 7 + 2 * s.buffered) × CanFinish t
unfolding left
run-CanFinish {n} {s} {t} reach closing steps =
    let (reach_t, closing_t) = Runs-IsClosing steps reach closing in
    (
      omega (
        arith,
        Runs-left steps,
        reader_left-le s.reader,
        writer_left-le s.writer,
        caller_left-le s.caller,
      ),
      finishes_within (suc (left t)) t (omega arith) reach_t closing_t,
    )
