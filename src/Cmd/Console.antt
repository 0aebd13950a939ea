-- ===== src/Cmd/Console.antt =====
-- What cmd/mitra_localproxy/cli.go and main.go print of the arguments: `dump`, the usage, and
-- `exitOnError`. pflag's text for the flags is an argument.
use securetunnel.Base.{
  Bool, true, false, not, ◌&&◌, ◌≡◌, refl, sym, ap, ◌∙◌, List, [], ◌∷◌, ◌++◌, map, Option, none,
  some, Text, text_eq, text_eqb, codes, ◌==◌, if◌then◌else◌, arith, append_assoc, ◌≤◌, ◌<◌, ◌≢◌,
  All,
}
use securetunnel.Proxy.Listener.{is_empty}
use securetunnel.Cmd.Logger.{Logs}
use securetunnel.Cmd.Options.{Arguments, get_or}

-- A `pflag.Flag`: its value, the default, and whether it is a string.
pub record Flag : Type 0 where
  pub name : Text
  pub value : Text
  pub def_value : Text
  pub is_string : Bool

abbrev pub bool_text : Bool → Text
bool_text true = codes "true"
bool_text false = codes "false"

abbrev flag : Text → Text → Text → Flag
flag name value def_value = record {
  name = name;
  value = value;
  def_value = def_value;
  is_string = true;
}

-- The flags that `setupCLI` defines in front of the token's, and behind it.
abbrev flags_before : (Text → Text) → Arguments → List Flag
flags_before env args =
    flag (codes "endpoint") args.endpoint (env (codes "MITRA_LOCALPROXY_ENDPOINT"))
    ∷ flag (codes "source-services") args.source_services
        (env (codes "MITRA_LOCALPROXY_SOURCE_SERVICES"))
    ∷ flag (codes "destination-services") args.destination_services
        (env (codes "MITRA_LOCALPROXY_DESTINATION_SERVICES"))
    ∷ []

abbrev flags_behind : (Text → Text) → (Text → Option Bool) → Arguments → List Flag
flags_behind env parse_bool args =
    record {
      name = codes "skip-ssl-verify";
      value = bool_text args.skip_ssl_verify;
      def_value =
          bool_text (get_or false (parse_bool (env (codes "MITRA_LOCALPROXY_SKIP_SSL_VERIFY"))));
      is_string = false;
    }
    ∷ flag (codes "log") args.log_level (codes "info")
    ∷ []

abbrev token_variable : Text
token_variable = codes "MITRA_LOCALPROXY_TOKEN"

-- The flags in their order, after `pflag.Parse`.
unfoldable pub flags_of : (Text → Text) → (Text → Option Bool) → Arguments → List Flag
flags_of env parse_bool args =
    flags_before env args
    ++ (flag (codes "token") args.token (env token_variable) ∷ flags_behind env parse_bool args)

-- What `dump` shows for a flag.
unfoldable pub shown : Flag → Text
shown f =
    let masked =
      if f.name == codes "token" && not (is_empty f.value) then codes "*****" else f.value in
    if is_empty masked then codes "[ empty ]" else masked

-- `dump`: the lines between its rulers, as names and texts, if the level prints them.
unfoldable pub dump : Logs → List Flag → List (Text × Text)
dump logs flags = if logs.debug_on then map (λ f. (f.name, shown f)) flags else []

-- The function that is `pflag.Usage`; `flag_usages` is pflag's `FlagUsages`.
unfoldable pub usage : Text → (List Flag → Text) → List Flag → Text
usage description flag_usages flags = description ++ codes "Flags:\n" ++ flag_usages flags

-- `exitOnError`: what goes to the standard error, if the process exits.
unfoldable pub exit_on_error : Option Text → Text → (List Flag → Text) → List Flag → Option Text
unfolding usage
exit_on_error none description flag_usages flags = none
exit_on_error (some error) description flag_usages flags =
    some (error ++ codes "\n\n" ++ usage description flag_usages flags)

-- A text that `%q` writes as it is, between quotation marks.
abbrev pub IsPlain : Text → Type 0
IsPlain = All (λ c. (32 ≤ c) × (c < 127) × (c ≢ 0x22) × (c ≢ 0x5c))

abbrev pub Contains : Text → Text → Type 0
Contains text part = (before after : Text) × (text ≡ before ++ (part ++ after))

-- pflag's text gives the default of each flag that is a string, unless it is empty.
abbrev pub GivesDefaults : (List Flag → Text) → Type 0
GivesDefaults flag_usages =
    (before after : List Flag) (f : Flag)
    → f.is_string ≡ true
    → is_empty f.def_value ≡ false
    → IsPlain f.def_value
    → Contains (flag_usages (before ++ (f ∷ after))) f.def_value

shown-token :
    (t u d : Text)
    → is_empty t ≡ is_empty u
    → shown (flag (codes "token") t d) ≡ shown (flag (codes "token") u d)
unfolding shown text_eqb
shown-token [] [] d e = refl
shown-token [] (c ∷ u) d e = absurd (ground arith)
shown-token (c ∷ t) [] d e = absurd (ground arith)
shown-token (c ∷ t) (b ∷ u) d e = refl

-- What `dump` prints does not depend on the token, but for whether it is empty.
pub dump-token :
    (logs : Logs) (env : Text → Text) (parse_bool : Text → Option Bool) (args : Arguments)
    (t u : Text)
    → is_empty t ≡ is_empty u
    → dump logs (flags_of env parse_bool (record args { token = t }))
      ≡ dump logs (flags_of env parse_bool (record args { token = u }))
unfolding dump flags_of
dump-token logs env parse_bool args t u e =
    rw (shown-token t u (env (codes "MITRA_LOCALPROXY_TOKEN")) e) refl

Contains-append : (a text part : Text) → Contains text part → Contains (a ++ text) part
Contains-append a text part (before, after, e) =
    (a ++ before, after, ap (◌++◌ a) e ∙ sym (append_assoc a before (part ++ after)))

-- If pflag gives the defaults of the flags, and the token stands in the environment, not empty and
-- plain, then what `exitOnError` writes of an error contains the token.
pub exit_on_error-token :
    (env : Text → Text) (parse_bool : Text → Option Bool) (args : Arguments)
    (error description : Text) (flag_usages : List Flag → Text)
    → GivesDefaults flag_usages
    → is_empty (env (codes "MITRA_LOCALPROXY_TOKEN")) ≡ false
    → IsPlain (env (codes "MITRA_LOCALPROXY_TOKEN"))
    → (written : Text) × (exit_on_error
          (some error)
          description
          flag_usages
          (flags_of env parse_bool args)
        ≡ some written)
      × Contains written (env (codes "MITRA_LOCALPROXY_TOKEN"))
unfolding exit_on_error flags_of
exit_on_error-token env parse_bool args error description flag_usages gives set plain =
    let text = flag_usages (flags_of env parse_bool args) in
    (
      error ++ codes "\n\n" ++ usage description flag_usages (flags_of env parse_bool args),
      refl,
      Contains-append (error ++ codes "\n\n") _ (env token_variable) (
          Contains-append (description ++ codes "Flags:\n") text (env token_variable) (
            gives (flags_before env args) (flags_behind env parse_bool args)
              (flag (codes "token") args.token (env token_variable)) refl set plain)),
    )
