-- ===== src/Handshake/Answered.antt =====
-- What the answers of `TunnelConnect` make of `Run`.
use securetunnel.Base.{
  ℕ, ◌≡◌, ◌≢◌, refl, ap, ◌⊎◌, ◌↔◌, inl, inr, none, some, Text, text_eq, arith, Bool-cases, ==_refl,
  text_eqb, text_eqb_iff,
}
use securetunnel.Aws.{Mode}
use securetunnel.Aws.Const.{status_reason_tunnel_closed}
use securetunnel.Client.Retry.{
  Response, connect_error, err_tunnel_closed, err_connect, result_of, tunnel_closed, retryable,
}
use securetunnel.Server.World.{
  Services, World, Reason, Reply, go, refuse, panic, bind, tunnel_is_closed, M, ◌>>=◌,
}
use securetunnel.Server.Tunnel.{Time, Tunnel, PeerRef}
use securetunnel.Server.Api.Connect.{
  TunnelConnectArgs, preprocess, admit, check, register, validate,
}
use securetunnel.Handshake.{status_reason, response_of}

-- The codes and reasons that a handler can refuse with.
abbrev pub Refuses : {A : Type 0} → M A → Type 0
Refuses m =
    (w w' : World) (code : ℕ) (why : Reason)
    → m w ≡ (refuse code why, w')
    → (code ≡ 400) ⊎ ((code ≡ 500) × (why ≢ tunnel_is_closed))

check-Refuses : (args : TunnelConnectArgs) (now : Time) → Refuses (check args now)
unfolding check
check-Refuses args now w w' code why e = ground arith

register-Refuses :
    (svc : Services) (args : TunnelConnectArgs) (now : Time) (t : Tunnel) (ref : PeerRef)
    → Refuses (register svc args now t ref)
unfolding register
register-Refuses svc args now t ref w w' code why e = ground arith

preprocess-Refuses : (args : TunnelConnectArgs) → Refuses (preprocess args)
unfolding validate
preprocess-Refuses args w w' code why e = ground arith

bind-cases :
    {A B : Type 0} (r : Reply A) (f : A → M B) (w w' : World) (code : ℕ) (why : Reason)
    → bind r w f ≡ (refuse code why, w')
    → (r ≡ refuse code why) ⊎ ((a : A) × (f a w ≡ (refuse code why, w')))
bind-cases (go a) f w w' code why e = inr (a, e)
bind-cases (refuse c y) f w w' code why e = inl (ground arith)
bind-cases panic f w w' code why e = absurd (ground arith)

>>=-Refuses :
    {A B : Type 0} (m : M A) (f : A → M B)
    → Refuses m
    → ((a : A) → Refuses (f a))
    → Refuses (m >>= f)
>>=-Refuses m f hm hf w w' code why e = elim (bind-cases (m w).0 f (m w).1 w' code why e) [
  | inl r ↦ hm w (m w).1 code why (ap (λ x. (x, (m w).1)) r)
  | inr (a, rest) ↦ hf a (m w).1 w' code why rest
]

pub admit-Refuses :
    (svc : Services) (args : TunnelConnectArgs) (now : Time) → Refuses (admit svc args now)
unfolding admit
admit-Refuses svc args now = >>=-Refuses (preprocess args) _ (preprocess-Refuses args) λ _.
    >>=-Refuses (check args now) _ (check-Refuses args now)
      λ found. register-Refuses svc args now found.0 found.1

status_reason-closed :
    (quoted : Text) (mode : Mode) (why : Reason)
    → (status_reason quoted mode why ≡ status_reason_tunnel_closed) ↔ (why ≡ tunnel_is_closed)
unfolding status_reason
status_reason-closed quoted mode tunnel_is_closed = (λ e. refl, λ e. refl)
status_reason-closed quoted mode _ = ground arith

-- The answers that end `Run`, with what it returns, and those after which it tries again.
pub data Verdict (response : Response) : ℕ → Reason → Type 0 where
  closes :
      result_of (connect_error (some response)) ≡ some err_tunnel_closed
      → Verdict response 400 tunnel_is_closed
  ends :
      (why : Reason)
      → why ≢ tunnel_is_closed
      → result_of (connect_error (some response)) ≡ some (err_connect (some response))
      → Verdict response 400 why
  retries :
      (why : Reason) → result_of (connect_error (some response)) ≡ none → Verdict response 500 why

pub response_of-Verdict :
    (quoted : Text) (mode : Mode) (code : ℕ) (why : Reason)
    → (code ≡ 400) ⊎ ((code ≡ 500) × (why ≢ tunnel_is_closed))
    → Verdict (response_of quoted mode code why) code why
unfolding result_of tunnel_closed retryable status_reason
response_of-Verdict quoted mode code why refusal =
    let iff = status_reason-closed quoted mode why in
    let same = text_eqb_iff (status_reason quoted mode why) status_reason_tunnel_closed in
    elim refusal [
      | inl bad ↦
          elim (Bool-cases (text_eqb (status_reason quoted mode why) status_reason_tunnel_closed)) [
            | inl e ↦
                rw (bad, iff.0 (same.0 e)) (closes (rw (==_refl status_reason_tunnel_closed) refl))
            | inr e ↦
                rw bad (ends why (λ q. absurd (ground (arith, same.1 (iff.1 q), e))) (rw e refl))
          ]
      | inr (failed, live) ↦ rw failed (retries why (ground (arith, same, iff, live)))
    ]

pub closed-Verdict :
    (response : Response)
    → Verdict response 400 tunnel_is_closed
    → result_of (connect_error (some response)) ≡ some err_tunnel_closed
closed-Verdict response (closes e) = e
closed-Verdict response (ends why live e) = absurd (live refl)
