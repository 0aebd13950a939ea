-- ===== src/Client/Retry.antt =====
-- `Run` of client/awsclient.go: which failed connections end it. The results of its calls of `start`
-- are an argument; the loop has no other exit than those below.
pub mod Ends
use securetunnel.Base.{
  ℕ, Bool, true, false, not, ◌&&◌, List, [], ◌∷◌, Option, none, some, Text, text_eq, ◌==◌, leb, ltb,
  if◌then◌else◌,
}
use securetunnel.Aws.Const.{status_reason_tunnel_closed}

-- What the code reads of an `http.Response`: the status, and the header of the reason, which is
-- empty if it is not set.
pub record Response : Type 0 where
  pub status_code : ℕ
  pub status_reason : Text

-- The error of `start`: a `connectError`, an error of the context, or an error of the reader.
pub data StartError : Type 0 where
  connect_error : Option Response → StartError
  context_canceled context_deadline_exceeded : StartError
  reading_failed : StartError

unfoldable pub tunnel_closed : Option Response → Bool
tunnel_closed none = false
tunnel_closed (some response) = response.status_reason == status_reason_tunnel_closed

unfoldable pub retryable : Option Response → Bool
retryable none = true
retryable (some response) = not (leb 400 response.status_code && ltb response.status_code 500)

-- One round: the error of `start`, and whether the context is done before the interval is over.
pub record Attempt : Type 0 where
  pub error : StartError
  pub done : Bool

pub data RunResult : Type 0 where
  nil err_tunnel_closed : RunResult
  err_connect : Option Response → RunResult

-- What the tests of a round return, if they return. `errors.Is` looks for no cause in a `connectError`.
unfoldable pub result_of : StartError → Option RunResult
unfolding tunnel_closed retryable
result_of (connect_error response) =
    if tunnel_closed response
    then some err_tunnel_closed
    else if not (retryable response)
    then some (err_connect response)
    else none
result_of context_canceled = some nil
result_of context_deadline_exceeded = some nil
result_of reading_failed = none

-- The loop, as far as the attempts go: `none` is still running.
unfoldable pub run : List Attempt → Option RunResult
unfolding result_of
run [] = none
run (attempt ∷ attempts) = elim (result_of attempt.error) [
  | some result ↦ some result
  | none ↦ elim attempt.done [ true ↦ some nil | false ↦ run attempts ]
]
