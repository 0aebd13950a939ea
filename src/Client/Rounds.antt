-- ===== src/Client/Rounds.antt =====
-- `Run` of client/awsclient.go over its calls of `start`: one that does not connect, or one whose
-- connection went through the steps of Session.
use securetunnel.Base.{
  ◌≡◌, ◌≢◌, refl, sym, subst, ◌∙◌, ◌≤◌, ◌<◌, ◌⊎◌, inl, inr, true, false, List, ◌∷◌, ◌++◌, Option,
  none, some, arith, All, All-without,
}
use securetunnel.Aws.Const.{status_reason_tunnel_closed}
use securetunnel.Client.Retry.{
  Response, StartError, connect_error, context_canceled, context_deadline_exceeded, reading_failed,
  Attempt, RunResult, nil, err_tunnel_closed, err_connect, run,
}
use securetunnel.Client.Retry.Ends.{
  Retried, Ends, says_closed, blames_client, canceled, too_late, done_after_connecting,
  done_after_reading, run-Ends, Ends-run,
}
use securetunnel.Client.Session.{
  Session, close, Local, checks, gives_up, fails, cancels, stops_pinging, closes_on_context,
  closes_on_result, takes_result, stops_workers, returns, reads, rejects, handles, receives, blocks,
  unblocks, takes_job, ends_job, breaks, finishes_context, Reach, starts, acts, reacts, returned,
}
use securetunnel.Client.Session.Returning.{returned_after}

-- `start`: the error of the caller's context when it returns, and what it returns.
pub data Start : Option StartError → StartError → Type 0 where
  not_connected :
      (context : Option StartError) (response : Option Response)
      → Start context (connect_error response)
  disconnected :
      (s : Session) (e : StartError) → Reach s → s.caller ≡ returned e → Start s.context_error e

-- A round in which the caller's context is not done, nor before the interval is over.
abbrev pub Live : Attempt → Type 0
Live a = Start none a.error × (a.done ≡ false)

-- What a server's answer makes `Run` return.
abbrev pub Answers : Response → RunResult → Type 0
Answers response result =
    ((response.status_reason ≡ status_reason_tunnel_closed) × (result ≡ err_tunnel_closed))
    ⊎ ((400 ≤ response.status_code)
        × (response.status_code < 500)
        × (result ≡ err_connect (some response)))

Start-live :
    {context : Option StartError} {e : StartError}
    → Start context e
    → context ≡ none
    → ((response : Option Response) × (e ≡ connect_error response)) ⊎ (e ≡ reading_failed)
Start-live (not_connected context response) n = inl (response, refl)
Start-live (disconnected s e reach at) n = elim (returned_after s e reach at).1 [
  | inl lost ↦ inr lost
  | inr done ↦ absurd (ground arith)
]

no_context :
    (e : StartError)
    → ((response : Option Response) × (e ≡ connect_error response)) ⊎ (e ≡ reading_failed)
    → (e ≢ context_canceled) × (e ≢ context_deadline_exceeded)
no_context e (inl (response, q)) = (λ h. absurd (ground arith), λ h. absurd (ground arith))
no_context e (inr q) = (λ h. absurd (ground arith), λ h. absurd (ground arith))

Ends-Live :
    {a : Attempt} {result : RunResult}
    → Ends a result
    → Live a
    → (response : Response) × (a.error ≡ connect_error (some response)) × Answers response result
Ends-Live (says_closed response done h) on = (response, refl, inl (h, refl))
Ends-Live (blames_client response done h low high) on = (response, refl, inr (low, high, refl))
Ends-Live (canceled done) on = absurd ((no_context _ (Start-live on.0 refl)).0 refl)
Ends-Live (too_late done) on = absurd ((no_context _ (Start-live on.0 refl)).1 refl)
Ends-Live (done_after_connecting response h) on = absurd (ground (arith, on.1))
Ends-Live done_after_reading on = absurd (ground (arith, on.1))

-- As long as the caller's context is not done, `Run` returns only behind an attempt to connect that
-- the server has answered: either the answer says that the tunnel is closed, and so does the
-- result, or its status is from 400 to 499, and the result holds it.
pub run-Live :
    (attempts : List Attempt) (result : RunResult)
    → All Live attempts
    → run attempts ≡ some result
    → (before : List Attempt) × (a : Attempt) × (after : List Attempt) × (response : Response)
      × (attempts ≡ before ++ (a ∷ after))
      × (a.error ≡ connect_error (some response))
      × Answers response result
run-Live attempts result on e =
    let (before, a, after, split, retried, ends) = Ends-run attempts result e in
    let (own, others) = All-without Live before after a (subst (λ xs. All Live xs) split on) in
    let (response, refused, answers) = Ends-Live ends own in
    (before, a, after, response, split, refused, answers)

abbrev IsContextError : StartError → Type 0
IsContextError x = (x ≡ context_canceled) ⊎ (x ≡ context_deadline_exceeded)

Local-context : {s t : Session} → Local s t → t.context_error ≡ s.context_error
unfolding close
Local-context (checks at n) = refl
Local-context (gives_up e at n) = refl
Local-context (reads n at h) = refl
Local-context (rejects n at h) = refl
Local-context (handles at) = refl
Local-context (stops_workers e at n) = refl
Local-context (fails at n h) = refl
Local-context (cancels at) = refl
Local-context (stops_pinging e at n) = refl
Local-context (closes_on_context e write_ok at n) = refl
Local-context (closes_on_result e write_ok at n) = refl
Local-context (takes_result e r at n m) = refl
Local-context (returns e at n) = refl

Reach-IsContextError :
    {s : Session} → Reach s → (x : StartError) → s.context_error ≡ some x → IsContextError x
Reach-IsContextError starts x e = absurd (ground arith)
Reach-IsContextError (acts r step) x e = Reach-IsContextError r x (sym (Local-context step) ∙ e)
Reach-IsContextError (reacts r (receives n at h)) x e = Reach-IsContextError r x e
Reach-IsContextError (reacts r (blocks at)) x e = Reach-IsContextError r x e
Reach-IsContextError (reacts r (unblocks at)) x e = Reach-IsContextError r x e
Reach-IsContextError (reacts r takes_job) x e = Reach-IsContextError r x e
Reach-IsContextError (reacts r (ends_job n is)) x e = Reach-IsContextError r x e
Reach-IsContextError (reacts r (breaks at)) x e = Reach-IsContextError r x e
Reach-IsContextError (reacts r (finishes_context y kind n)) x e =
    let same : y ≡ x = ground arith in subst (λ z. IsContextError z) same kind

context-Ends :
    (x e : StartError) → IsContextError x → e ≡ x → Ends (record { error = e; done = true }) nil
context-Ends x e (inl c) q =
    subst (λ y. Ends (record { error = y; done = true }) nil) (sym (q ∙ c)) (canceled true)
context-Ends x e (inr c) q =
    subst (λ y. Ends (record { error = y; done = true }) nil) (sym (q ∙ c)) (too_late true)

-- If every round up to one is retried, and `start` returns from a connection of that one while the
-- caller's context is done, then `Run` returns without an error, whatever `start` returned and
-- whatever rounds would follow.
pub run-done :
    (before after : List Attempt) (s : Session) (x e : StartError)
    → All Retried before
    → Reach s
    → s.caller ≡ returned e
    → s.context_error ≡ some x
    → run (before ++ (record { error = e; done = true } ∷ after)) ≡ some nil
run-done before after s x e retried reach at context =
    run-Ends before after (record { error = e; done = true }) nil retried
      (elim (returned_after s e reach at).1 [
        | inl lost ↦
            subst (λ y. Ends (record { error = y; done = true }) nil) (sym lost) done_after_reading
        | inr same ↦ context-Ends x e (Reach-IsContextError reach x context) (ground arith)
      ])
