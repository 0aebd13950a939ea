-- ===== src/Cmd/Process.antt =====
-- `main` of cmd/mitra_localproxy/main.go from the goroutine that runs the proxy on, with
-- `ApplicationExit` of cmd/common/common.go. A timer fires at its time: no time passes beyond one that
-- is armed.
use securetunnel.Base.{
  ℕ, ◌+◌, ◌*◌, ◌≤◌, ◌≡◌, refl, ◌⊎◌, inl, inr, Bool, true, false, ◌||◌, List, [], ◌∷◌, Option, none,
  some, arith, ◌-◌, eqb, leb, All, Bool-cases, Option-cases, sym, subst, ◌∙◌, ap,
}
use securetunnel.Cmd.Options.{seconds}

-- Nanoseconds: 12 hours for the tunnel, one more for the process, and 30 seconds behind a signal.
abbrev pub tunnel_max_life_time : ℕ
tunnel_max_life_time = seconds (12 * 3600)

abbrev pub local_proxy_max_life_time : ℕ
local_proxy_max_life_time = tunnel_max_life_time + seconds 3600

abbrev pub terminate_wait_time : ℕ
terminate_wait_time = seconds 30

-- `now` counts from the `select` of `main`, and `timers` are those of `time.After`, both of which exit
-- with status 1. `signalled_at` is when the handler of the signal ran, and
-- `cancelled` whether the context is. `terminated` stands for the closed `chTerminate`, and
-- `run_failed` for the error of `NewLocalProxy` or `Run`, which is logged. `exited` is the exit status.
pub record Process : Type 0 where
  pub now : ℕ
  pub timers : List ℕ
  pub signalled_at : Option ℕ
  pub cancelled : Bool
  pub terminated : Bool
  pub run_failed : Bool
  pub exited : Option ℕ

abbrev pub started : Process
started = record {
  now = 0;
  timers = local_proxy_max_life_time ∷ [];
  signalled_at = none;
  cancelled = false;
  terminated = false;
  run_failed = false;
  exited = none;
}

abbrev pub is_due : ℕ → List ℕ → Bool
is_due now [] = false
is_due now (at ∷ timers) = eqb at now || is_due now timers

pub data Step (p : Process) : Process → Type 0 where
  passes :
      (d : ℕ)
      → p.exited ≡ none
      → All (λ at. p.now + d ≤ at) p.timers
      → Step p (record p { now = p.now + d })
  receives_signal :
      p.exited ≡ none
      → p.signalled_at ≡ none
      → Step p (record p {
        signalled_at = some p.now;
        cancelled = true;
        timers = (p.now + terminate_wait_time) ∷ p.timers;
      })
  finishes_proxy :
      (failed : Bool)
      → p.exited ≡ none
      → p.terminated ≡ false
      → Step p (record p { terminated = true; run_failed = failed })
  stops : p.exited ≡ none → p.terminated ≡ true → Step p (record p { exited = some 0 })
  kills : p.exited ≡ none → is_due p.now p.timers ≡ true → Step p (record p { exited = some 1 })

pub data Reach : Process → Type 0 where
  starts : Reach started
  later : {p q : Process} → Reach p → Step p q → Reach q

-- Why the process has exited: 13 hours, or 30 seconds, in nanoseconds.
abbrev pub Explains : Process → ℕ → Type 0
Explains p status =
    ((status ≡ 0) × (p.terminated ≡ true))
    ⊎ ((status ≡ 1) × (p.now ≡ 46_800_000_000_000))
    ⊎ ((status ≡ 1) × ((at : ℕ) × (p.signalled_at ≡ some at) × (p.now ≡ at + 30_000_000_000)))

pub record IsTimely (p : Process) : Type 0 where
  pub within_life : p.now ≤ 46_800_000_000_000
  pub within_wait : (at : ℕ) → p.signalled_at ≡ some at → p.now ≤ at + 30_000_000_000
  pub cancelled_by_signal : (at : ℕ) → p.signalled_at ≡ some at → p.cancelled ≡ true
  pub explained : (status : ℕ) → p.exited ≡ some status → Explains p status

-- The timers of a process, by its signal.
abbrev armed : Option ℕ → List ℕ
armed none = local_proxy_max_life_time ∷ []
armed (some at) = (at + terminate_wait_time) ∷ local_proxy_max_life_time ∷ []

record Armed (p : Process) : Type 0 where
  timers_are : p.timers ≡ armed p.signalled_at
  ahead : All (λ at. p.now ≤ at) p.timers
  cancelled_by_signal : (at : ℕ) → p.signalled_at ≡ some at → p.cancelled ≡ true
  explained : (status : ℕ) → p.exited ≡ some status → Explains p status

due-Explains :
    (p : Process) → p.timers ≡ armed p.signalled_at → is_due p.now p.timers ≡ true → Explains p 1
due-Explains p are due = elim (Option-cases p.signalled_at) [
  | inl quiet ↦
      let timers : p.timers ≡ armed none = are ∙ ap armed quiet in
      let now_due : is_due p.now (armed none) ≡ true =
        subst (λ ts. is_due p.now ts ≡ true) timers due in
      inr (inl (refl, ground arith))
  | inr (at, signal) ↦
      let timers : p.timers ≡ armed (some at) = are ∙ ap armed signal in
      let now_due : is_due p.now (armed (some at)) ≡ true =
        subst (λ ts. is_due p.now ts ≡ true) timers due in
      elim (Bool-cases (eqb (at + terminate_wait_time) p.now)) [
        | inl here ↦ inr (inr (refl, (at, signal, ground arith)))
        | inr there ↦ inr (inl (refl, ground arith))
      ]
]

Step-Armed : {p q : Process} → Step p q → Armed p → Armed q
Step-Armed {p} (passes d on h) t = record {
  timers_are = t.timers_are;
  ahead = h;
  cancelled_by_signal = t.cancelled_by_signal;
  explained = λ status e. absurd (ground (arith, on));
}
Step-Armed {p} (receives_signal on first) t = record {
  timers_are = ap (λ ts. (p.now + terminate_wait_time) ∷ ts) (t.timers_are ∙ ap armed first);
  ahead = (omega arith, t.ahead);
  cancelled_by_signal = λ at e. refl;
  explained = λ status e. absurd (ground (arith, on));
}
Step-Armed {p} (finishes_proxy failed on pending) t = record {
  timers_are = t.timers_are;
  ahead = t.ahead;
  cancelled_by_signal = t.cancelled_by_signal;
  explained = λ status e. absurd (ground (arith, on));
}
Step-Armed {p} (stops on done) t = record {
  timers_are = t.timers_are;
  ahead = t.ahead;
  cancelled_by_signal = t.cancelled_by_signal;
  explained = λ status e. inl (ground arith, done);
}
Step-Armed {p} (kills on due) t = record {
  timers_are = t.timers_are;
  ahead = t.ahead;
  cancelled_by_signal = t.cancelled_by_signal;
  explained = λ status e.
      let same : 1 ≡ status = ground arith in
      subst (Explains p) same (due-Explains p t.timers_are due);
}

Reach-Armed : {p : Process} → Reach p → Armed p
Reach-Armed starts = record {
  timers_are = refl;
  ahead = (omega arith, tt);
  cancelled_by_signal = λ at e. absurd (ground arith);
  explained = λ status e. absurd (ground arith);
}
Reach-Armed (later reach step) = Step-Armed step (Reach-Armed reach)

Armed-life : (p : Process) → Armed p → p.now ≤ local_proxy_max_life_time
Armed-life p t = elim (Option-cases p.signalled_at) [
  | inl quiet ↦ (subst (All (λ at. p.now ≤ at)) (t.timers_are ∙ ap armed quiet) t.ahead).0
  | inr (at, signal) ↦ (subst (All (λ at. p.now ≤ at)) (t.timers_are ∙ ap armed signal) t.ahead).1.0
]

Armed-wait :
    (p : Process) (at : ℕ) → Armed p → p.signalled_at ≡ some at → p.now ≤ at + terminate_wait_time
Armed-wait p at t signal =
    (subst (All (λ at. p.now ≤ at)) (t.timers_are ∙ ap armed signal) t.ahead).0

pub data Steps : Process → Process → Type 0 where
  done : {p : Process} → Steps p p
  goes : {p q r : Process} → Step p q → Steps q r → Steps p r

exit_at :
    (p : Process) (d : ℕ)
    → p.exited ≡ none
    → All (λ at. p.now + d ≤ at) p.timers
    → is_due (p.now + d) p.timers ≡ true
    → (q : Process) × Steps p q × (q.exited ≡ some 1)
exit_at p d on free due = (
  record p { now = p.now + d; exited = some 1 },
  goes (passes d on free) (goes (kills on due) done),
  refl,
)

abbrev Free : Process → ℕ → List ℕ → Type 0
Free p d timers = All (λ at. p.now + d ≤ at) timers × (is_due (p.now + d) timers ≡ true)

-- Even if the proxy never ends, a process that has not exited can go on, with time alone, to exit
-- with status 1.
pub Reach-exits :
    {p : Process} → Reach p → p.exited ≡ none → (q : Process) × Steps p q × (q.exited ≡ some 1)
Reach-exits {p} reach on =
    let t = Reach-Armed reach in
    let life = Armed-life p t in
    let exit_free : (d : ℕ) → Free p d p.timers → (q : Process) × Steps p q × (q.exited ≡ some 1) =
      λ d h. exit_at p d on h.0 h.1 in
    elim (Option-cases p.signalled_at) [
      | inl quiet ↦
          let d : ℕ = local_proxy_max_life_time - p.now in
          exit_free d (
            subst (Free p d) (sym (t.timers_are ∙ ap armed quiet))
              ((omega arith, tt), ground (arith, life)))
      | inr (at, signal) ↦
          let wait = Armed-wait p at t signal in
          elim (Bool-cases (leb (at + terminate_wait_time) local_proxy_max_life_time)) [
            | inl first ↦
                let d : ℕ = at + terminate_wait_time - p.now in
                exit_free d (
                  subst (Free p d) (sym (t.timers_are ∙ ap armed signal))
                    ((omega arith, (ground (arith, first), tt)), ground (arith, wait)))
            | inr last ↦
                let d : ℕ = local_proxy_max_life_time - p.now in
                exit_free d (
                  subst (Free p d) (sym (t.timers_are ∙ ap armed signal))
                    ((ground (arith, last), (omega arith, tt)), ground (arith, life)))
          ]
    ]
