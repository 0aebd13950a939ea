-- ===== src/Tests/Processes.antt =====
-- A process of mitra_localproxy that is stopped by a signal, and what it prints.
use securetunnel.Base.{
  ◌≡◌, refl, true, false, List, [], ◌∷◌, ◌++◌, none, some, Text, codes, text_eqb, arith, ap, sym,
  ◌∙◌, append_assoc,
}
use securetunnel.Cmd.Logger.{Logs}
use securetunnel.Cmd.Options.{Arguments}
use securetunnel.Cmd.Process.{
  Process, started, local_proxy_max_life_time, passes, receives_signal, finishes_proxy, stops,
  Reach, starts, later, Steps, Reach-exits,
}
use securetunnel.Cmd.Console.{
  Flag, flags_of, dump, shown, exit_on_error, Contains, GivesDefaults, dump-token,
  exit_on_error-token,
}

abbrev waiting : Process
waiting = record started {
  now = 7;
  signalled_at = some 7;
  cancelled = true;
  timers = 30_000_000_007 ∷ local_proxy_max_life_time ∷ [];
}

Reach-waiting : Reach waiting
Reach-waiting = later (later starts (passes 7 refl (omega arith, tt))) (receives_signal refl refl)

Reach-exits_example : (q : Process) × Steps waiting q × (q.exited ≡ some 1)
Reach-exits_example = Reach-exits Reach-waiting refl

-- An error of `Run` is logged, and yet the status is 0.
abbrev failed : Process
failed = record started { terminated = true; run_failed = true; exited = some 0 }

Reach-failed : Reach failed
Reach-failed = later (later starts (finishes_proxy true refl refl)) (stops refl refl)

abbrev args : Arguments
args = record {
  endpoint = codes "wss://example.org/tunnel";
  source_services = [];
  destination_services = codes "22";
  token = codes "secret";
  skip_ssl_verify = false;
  log_level = codes "debug";
}

abbrev all_on : Logs
all_on = record { debug_on = true; info_on = true; warn_on = true; error_on = true }

abbrev env : Text → Text
env name = codes "secret"

dump_run :
    dump all_on (flags_of (λ name. []) (λ s. none) args)
    ≡ (codes "endpoint", codes "wss://example.org/tunnel")
      ∷ (codes "source-services", codes "[ empty ]")
      ∷ (codes "destination-services", codes "22")
      ∷ (codes "token", codes "*****")
      ∷ (codes "skip-ssl-verify", codes "false")
      ∷ (codes "log", codes "debug")
      ∷ []
unfolding dump shown flags_of text_eqb
dump_run = refl

dump-token_example :
    dump all_on (flags_of env (λ s. none) (record args { token = codes "secret" }))
    ≡ dump all_on (flags_of env (λ s. none) (record args { token = codes "other" }))
dump-token_example = dump-token all_on env (λ s. none) args (codes "secret") (codes "other") refl

-- A text for the flags that is all their defaults.
defaults : List Flag → Text
defaults [] = []
defaults (f ∷ fs) = f.def_value ++ defaults fs

defaults-GivesDefaults : GivesDefaults defaults
unfolding defaults
defaults-GivesDefaults [] after f is given plain = ([], defaults after, refl)
defaults-GivesDefaults (g ∷ before) after f is given plain =
    let (front, back, e) = defaults-GivesDefaults before after f is given plain in
    (g.def_value ++ front, back, ap (◌++◌ g.def_value) e ∙ sym (append_assoc g.def_value front _))

exit_on_error-token_example :
    (written : Text) × (exit_on_error
        (some (codes "token is empty"))
        []
        defaults
        (flags_of env (λ s. none) args)
      ≡ some written)
    × Contains written (codes "secret")
exit_on_error-token_example =
    exit_on_error-token env (λ s. none) args (codes "token is empty") [] defaults
      defaults-GivesDefaults refl (ground arith)
