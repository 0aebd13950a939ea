-- ===== src/Client/Retry/Ends.antt =====
-- When `Run` of client/awsclient.go returns, and with what.
use native.Mathlib.Omega.{arith}
use securetunnel.Base.{
  ◌<◌, ◌≤◌, ◌≡◌, ◌≢◌, refl, sym, subst, ap, ◌∙◌, ◌⊎◌, inl, inr, Bool, true, false, ◌&&◌, List, [],
  ◌∷◌, ◌++◌, Option, none, some, text_eq, text_eqb, text_eqb_iff, leb, ltb, All, Bool-cases,
}
use securetunnel.Aws.Const.{status_reason_tunnel_closed}
use securetunnel.Client.Retry.{
  Response, StartError, connect_error, context_canceled, context_deadline_exceeded, reading_failed,
  tunnel_closed, retryable, Attempt, RunResult, nil, err_tunnel_closed, err_connect, result_of, run,
}

-- An answer behind which the endpoint is tried again: none at all, or one that neither says that the
-- tunnel is closed nor blames the client.
abbrev pub Recoverable : Option Response → Type 0
Recoverable none = Unit
Recoverable (some response) =
    (response.status_reason ≢ status_reason_tunnel_closed)
    × ((response.status_code < 400) ⊎ (500 ≤ response.status_code))

-- A round that is followed by another.
pub data Retried : Attempt → Type 0 where
  after_connecting :
      (response : Option Response)
      → Recoverable response
      → Retried (record { error = connect_error response; done = false })
  after_reading : Retried (record { error = reading_failed; done = false })

run-Retried_one : (a : Attempt) (rest : List Attempt) → Retried a → run (a ∷ rest) ≡ run rest
unfolding run result_of tunnel_closed retryable
run-Retried_one _ rest (after_connecting none h) = refl
run-Retried_one _ rest (after_connecting (some response) (no_closing, status)) =
    ground
      (arith, text_eqb_iff response.status_reason status_reason_tunnel_closed, no_closing, status)
run-Retried_one _ rest after_reading = refl

-- A round that ends the loop, with what it returns.
pub data Ends : Attempt → RunResult → Type 0 where
  says_closed :
      (response : Response) (done : Bool)
      → response.status_reason ≡ status_reason_tunnel_closed
      → Ends (record { error = connect_error (some response); done = done }) err_tunnel_closed
  blames_client :
      (response : Response) (done : Bool)
      → response.status_reason ≢ status_reason_tunnel_closed
      → 400 ≤ response.status_code
      → response.status_code < 500
      → Ends
          (record { error = connect_error (some response); done = done })
          (err_connect (some response))
  canceled : (done : Bool) → Ends (record { error = context_canceled; done = done }) nil
  too_late : (done : Bool) → Ends (record { error = context_deadline_exceeded; done = done }) nil
  done_after_connecting :
      (response : Option Response)
      → Recoverable response
      → Ends (record { error = connect_error response; done = true }) nil
  done_after_reading : Ends (record { error = reading_failed; done = true }) nil

run-Ends_one :
    (a : Attempt) (result : RunResult) (rest : List Attempt)
    → Ends a result
    → run (a ∷ rest) ≡ some result
unfolding run result_of tunnel_closed retryable
run-Ends_one _ _ rest (says_closed response done h) =
    ground (arith, text_eqb_iff response.status_reason status_reason_tunnel_closed, h)
run-Ends_one _ _ rest (blames_client response done h low high) =
    ground (arith, text_eqb_iff response.status_reason status_reason_tunnel_closed, h, low, high)
run-Ends_one _ _ rest (canceled done) = refl
run-Ends_one _ _ rest (too_late done) = refl
run-Ends_one _ _ rest (done_after_connecting none h) = refl
run-Ends_one _ _ rest (done_after_connecting (some response) (no_closing, status)) =
    ground
      (arith, text_eqb_iff response.status_reason status_reason_tunnel_closed, no_closing, status)
run-Ends_one _ _ rest done_after_reading = refl

-- If every round up to one is retried and that one ends the loop, `Run` returns its result,
-- whatever rounds would follow.
pub run-Ends :
    (before after : List Attempt) (a : Attempt) (result : RunResult)
    → All Retried before
    → Ends a result
    → run (before ++ (a ∷ after)) ≡ some result
run-Ends [] after a result all ends = run-Ends_one a result after ends
run-Ends (b ∷ before) after a result all ends =
    run-Retried_one b (before ++ (a ∷ after)) all.0 ∙ run-Ends before after a result all.1 ends

abbrev Classified : Attempt → Type 0
Classified a = Retried a ⊎ ((result : RunResult) × Ends a result)

recoverable_lem :
    (response : Option Response) (done : Bool)
    → Recoverable response
    → Classified (record { error = connect_error response; done = done })
recoverable_lem response true h = inr (nil, done_after_connecting response h)
recoverable_lem response false h = inl (after_connecting response h)

Classified-response :
    (response : Response) (done : Bool)
    → Classified (record { error = connect_error (some response); done = done })
Classified-response response done =
    elim (Bool-cases (text_eqb response.status_reason status_reason_tunnel_closed)) [
      | inl e ↦ inr (
        err_tunnel_closed,
        says_closed response done
            ((text_eqb_iff response.status_reason status_reason_tunnel_closed).0 e),
      )
      | inr e ↦
          let no_closing : response.status_reason ≢ status_reason_tunnel_closed = λ q. absurd (
            ground
              (arith, e, (text_eqb_iff response.status_reason status_reason_tunnel_closed).1 q)) in
          elim (Bool-cases (leb 400 response.status_code && ltb response.status_code 500)) [
            | inl in_range ↦ inr (
              err_connect (some response),
              blames_client response done no_closing (ground (arith, in_range))
                  (ground (arith, in_range)),
            )
            | inr out ↦ recoverable_lem (some response) done (no_closing, ground (arith, out))
          ]
    ]

Classified-error :
    (error : StartError) (done : Bool) → Classified (record { error = error; done = done })
Classified-error (connect_error none) done = recoverable_lem none done tt
Classified-error (connect_error (some response)) done = Classified-response response done
Classified-error context_canceled done = inr (nil, canceled done)
Classified-error context_deadline_exceeded done = inr (nil, too_late done)
Classified-error reading_failed true = inr (nil, done_after_reading)
Classified-error reading_failed false = inl after_reading

-- `Run` returns only if every round up to one is retried and that one ends the loop with the
-- result: a closed tunnel, a status from 400 to 499, or a context that is done.
pub Ends-run :
    (attempts : List Attempt) (result : RunResult)
    → run attempts ≡ some result
    → (before : List Attempt) × (a : Attempt) × (after : List Attempt) × (attempts
        ≡ before ++ (a ∷ after))
      × All Retried before
      × Ends a result
unfolding run
Ends-run [] result e = absurd (ground arith)
Ends-run (a ∷ attempts) result e = elim (Classified-error a.error a.done) [
  | inl retried ↦
      let (before, b, after, q, all, ends) =
        Ends-run attempts result (sym (run-Retried_one a attempts retried) ∙ e) in
      (a ∷ before, b, after, ap (◌∷◌ a) q, (retried, all), ends)
  | inr (r, ends) ↦
      let same : r ≡ result = ground (arith, run-Ends_one a r attempts ends, e) in
      ([], a, attempts, refl, tt, subst (λ x. Ends a x) same ends)
]
