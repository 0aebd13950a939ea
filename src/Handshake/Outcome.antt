-- ===== src/Handshake/Outcome.antt =====
-- `connect` of a client at a server in any state, and what `Run` does about it.
use securetunnel.Base.{
  ℕ, ◌≡◌, refl, sym, ap, subst, ◌∙◌, ◌<◌, ◌⊎◌, inl, inr, Bool, List, ◌∷◌, Option, none, some, Text,
  text_eq, text_eqb, arith,
}
use securetunnel.Client.Retry.{
  Response, StartError, connect_error, Attempt, RunResult, err_tunnel_closed, result_of, run,
}
use securetunnel.Client.Dial.{
  connected, Values, Url, Dialer, Con, Dialed, AwsClientOptions, AwsClient, client_token, client_of,
  new_aws_client, connect,
}
use securetunnel.Server.Id.{tunnel_id, new_connection_id}
use securetunnel.Server.Tunnel.{Time, Tunnel, Peer, PeerRef, peer, token}
use securetunnel.Server.Store.{get_tunnel, get_connection}
use securetunnel.Server.World.{
  Services, World, Reason, Reply, go, refuse, get_elem?, tunnel_is_closed,
}
use securetunnel.Server.Api.Connect.{TunnelConnectArgs, admit, check, validate}
use securetunnel.Server.Api.Connect.Checks.{Admissible, check-Admissible, check-closed}
use securetunnel.Server.Api.Connect.Registration.{register-go}
use securetunnel.Server.Api.Connect.Again.{admit-go}
use securetunnel.Handshake.{Wire, IsReady, response_of, answered, dial_to}
use securetunnel.Handshake.Bound.{
  IsNamed, args_of, connect_route-client, client_token-IsHeaderValue,
}
use securetunnel.Handshake.Answered.{Verdict, admit-Refuses, response_of-Verdict, closed-Verdict}

validate-args_of :
    {L H : Type 0} (options : AwsClientOptions L H) (client : Text)
    → IsNamed options.mode
    → validate (args_of options client) ≡ none
unfolding validate text_eqb
validate-args_of options client (inl e) = rw e refl
validate-args_of options client (inr e) = rw e refl

admit-check :
    (svc : Services) (args : TunnelConnectArgs) (now : Time) (w : World) (code : ℕ) (why : Reason)
    → validate args ≡ none
    → check args now w ≡ (refuse code why, w)
    → admit svc args now w ≡ (refuse code why, w)
unfolding admit
admit-check svc args now w code why valid e = ground arith

connect-same :
    {L H : Type 0} (f g : Url → Values → Dialer → Dialed) (c : AwsClient L H)
    → f c.endpoint c.request_header c.dialer ≡ g c.endpoint c.request_header c.dialer
    → connect f c ≡ connect g c
unfolding connect
connect-same f g c e = rw (e, connect) refl

run-result :
    (error : StartError) (result : RunResult) (done : Bool) (rest : List Attempt)
    → result_of error ≡ some result
    → run (record { error = error; done = done } ∷ rest) ≡ some result
unfolding run
run-result error result done rest e = rw (e, run) refl

-- A client that is ready, and the state of the server when its request arrives.
module _ {R L H : Type 0} (wire : Wire R) (options : AwsClientOptions L H)
    (reparse : Url → Option Url) (sha256 : Text → List ℕ) (hostname : Option Text) (endpoint : Url)
    (c : AwsClient L H) (ready : IsReady wire options reparse sha256 endpoint)
    (made : new_aws_client reparse sha256 hostname options ≡ some c) (svc : Services) (now : Time)
    (w : World) (quoted : Text) (con : Con) where
  abbrev pub request : TunnelConnectArgs
  request = args_of options (client_token sha256 hostname options.token)

  abbrev pub dial : Url → Values → Dialer → Dialed
  dial = dial_to wire svc now w quoted options.mode (connected con)

  made-client_of : c ≡ client_of options (client_token sha256 hostname options.token) endpoint
  unfolding new_aws_client
  made-client_of = ground (arith, ready.copied)

  dial-client :
      dial c.endpoint c.request_header c.dialer
      ≡ answered quoted options.mode (connected con) (admit svc request now w).0
  dial-client =
      subst
        (λ x.
          dial x.endpoint x.request_header x.dialer
          ≡ answered quoted options.mode (connected con) (admit svc request now w).0)
        (sym made-client_of)
        (ap (λ r. answered quoted options.mode (connected con) r.0)
          (connect_route-client wire ready.faithful options
            (client_token sha256 hostname options.token) endpoint ready.named ready.names_no_mode
            ready.token_ok
            (client_token-IsHeaderValue sha256 hostname options.token ready.returns_bytes) svc now
            w))

  connect-dial :
      (r : Reply Text)
      → (admit svc request now w).0 ≡ r
      → connect dial c ≡ connect (λ _ _ _. answered quoted options.mode (connected con) r) c
  connect-dial r e =
      connect-same dial (λ _ _ _. answered quoted options.mode (connected con) r) c
        (dial-client ∙ ap (answered quoted options.mode (connected con)) e)

  -- If the server refuses the request of a client that is ready, `connect` fails with the answer
  -- and leaves the client as it was; and by the answer `Run` returns that the tunnel is closed,
  -- if that is the reason, or the answer, if the status is another 400, or tries again, if it is
  -- 500.
  pub connect-refused :
      (w' : World) (code : ℕ) (why : Reason)
      → admit svc request now w ≡ (refuse code why, w')
      → (response : Response) × (connect dial c ≡ (some (some response), c))
        × Verdict response code why
  unfolding connect
  connect-refused w' code why e = (
    response_of quoted options.mode code why,
    connect-dial (refuse code why) (ap (λ r. r.0) e),
    response_of-Verdict quoted options.mode code why
        (admit-Refuses svc request now w w' code why e),
  )

  -- If the tunnel of the client's token is stored, the token is that of its mode, and the peer is
  -- free or the client's, but the lifetime of the tunnel is over, then `Run` returns that the tunnel
  -- is closed, whatever would follow.
  pub run-closed :
      (t : Tunnel) (ref : PeerRef) (p : Peer) (done : Bool) (rest : List Attempt)
      → get_tunnel (tunnel_id options.token) w.store ≡ some t
      → options.token ≡ token t options.mode
      → peer t options.mode ≡ some ref
      → get_elem? w.peers ref ≡ some p
      → (p.num_of_conn ≡ 0) ⊎ (p.client_token ≡ request.client_token)
      → t.lifetime_at < now
      → (response : Response) × (connect dial c ≡ (some (some response), c))
        × (run (record { error = connect_error (some response); done = done } ∷ rest)
            ≡ some err_tunnel_closed)
  run-closed t ref p done rest stored own to pointed free over =
      let refused =
        admit-check svc request now w 400 tunnel_is_closed
          (validate-args_of options (client_token sha256 hostname options.token) ready.named)
          (check-closed request now w t ref p stored own to pointed free over) in
      let (response, fails, verdict) = connect-refused w 400 tunnel_is_closed refused in
      (
        response,
        fails,
        run-result (connect_error (some response)) err_tunnel_closed done rest
            (closed-Verdict response verdict),
      )

  -- If the conditions of `TunnelConnect` are met, the connection id can be drawn and is free, and
  -- the tunnel is stored as it was read, then `connect` succeeds, and the client has a connection
  -- which reads at most 131076 bytes of a message.
  pub connect-Admissible :
      (t : Tunnel) (ref : PeerRef) (id : Text) (n : ℕ)
      → Admissible request now w t ref
      → new_connection_id svc.id_token_gen (tunnel_id options.token) svc.draws w.draw ≡ some (id, n)
      → get_connection id w.store ≡ none
      → t.id ≡ tunnel_id options.token
      → connect dial c ≡ (none, record c { con = some (record con { read_limit = some 131_076 }) })
  unfolding connect
  connect-Admissible t ref id n met drawn fresh own =
      let (w', goes, stored, tunnel, taken) =
        register-go svc request now t ref w id n met.found drawn fresh met.pointed
          (subst (λ i. get_tunnel i w.store ≡ some t) (sym own) met.stored) in
      let admitted =
        admit-go svc request now w w' t ref id
          (validate-args_of options (client_token sha256 hostname options.token) ready.named)
          (check-Admissible request now w t ref met) goes in
      connect-dial (go id) (ap (λ r. r.0) admitted)
