-- ===== src/Stonesh/Process/Erases.antt =====
-- Without its messages and its static storage, `process_main` is `main`.
use stonesh.Auth.{auth_user, by_type, local_user, ldap_user}
use stonesh.AuthLdap.{get_auth_ldap}
use stonesh.Hosts.{HostEntry, gethostentry}
use stonesh.Libc.{c_str, read_lines}
use stonesh.Prelude.{
  Bool, true, false, not, ◌&&◌, List, [], ◌∷◌, Option, none, some, ℤ, pos, int_eq, Run, ok, fault,
  ◌>>=◌, ◌≡◌, inl, inr, refl, ap, ap₂, ◌∙◌, Bytes, Bool-cases,
}
use stonesh.Readconf.Options.{Options}
use stonesh.Stonesh.{
  World, Request, Outcome, execute, host_room, without_last, prompt_host, wanted_host,
  parse_request, short_name, access_mode, check_country, run_command, logged, command_line, is_null,
  with_entry, enter_host, serve, after, with_options,
}
use stonesh.Stonesh.Country.{check_country-data}
use stonesh.Stonesh.Process.{Process, with_pw_name, shown, clean_exit, report_country, prompt}
use stonesh.Stonesh.Process.Serve.{
  launch, conclude, authorized, look_up, ask_for, shorten, prompt_lines, find_host, attend,
  then_run, with_process,
}

abbrev pub strip : Run (Outcome × Process) → Run Outcome
strip fault = fault
strip (ok (out, p)) = ok out

abbrev pub erase : Option (Run (Outcome × Process)) → Option (Run Outcome)
erase none = none
erase (some m) = some (strip m)

strip-bind {ℓ} :
    {A : Type ℓ} (m : Run A) (f : A → Run (Outcome × Process)) (g : A → Run Outcome)
    → ((a : A) → strip (f a) ≡ g a)
    → strip (m >>= f) ≡ (m >>= g)
strip-bind fault f g h = refl
strip-bind (ok a) f g h = h a

pub erase-then_run {ℓ} :
    {A : Type ℓ} (m : Run A) (f : A → Option (Run (Outcome × Process)))
    (g : A → Option (Run Outcome))
    → ((a : A) → erase (f a) ≡ g a)
    → erase (then_run m f) ≡ after m g
erase-then_run fault f g h = refl
erase-then_run (ok a) f g h = h a

launch-strip :
    (name : Bytes) (argv : List (Option Bytes)) (p : Process)
    → strip (launch name argv p) ≡ logged (execute argv)
unfolding launch logged
launch-strip name argv p = strip-bind (command_line argv) _ _ (λ text. refl)

conclude-strip :
    (w : World) (r : Request) (name host : Bytes) (auth : ℤ) (p : Process)
    → strip (conclude w.isatty r name host auth p)
      ≡ logged (run_command w p.options r p.hostent.host p.hostent.port auth)
unfolding conclude run_command clean_exit
conclude-strip w r name host auth p = elim (Bool-cases (int_eq auth (pos 0))) [
  | inl e ↦ rw e (unfold logged in refl)
  | inr e ↦ elim (Bool-cases r.proxy) [
    | inl x ↦ rw (e, x) (launch-strip _ _ _)
    | inr x ↦ elim (Bool-cases (not w.isatty && is_null r.args)) [
      | inl t ↦ rw (e, x, t) (unfold logged in refl)
      | inr t ↦ rw (e, x, t) (launch-strip _ _ _)
    ]
  ]
]

-- What is only said leaves the rest of the process.
abbrev pub Keeps : Process → Process → Type 0
Keeps p q = (q.options ≡ p.options) × (q.hostent ≡ p.hostent)

report_country-Keeps :
    (countries rhost : Option Bytes) (name host : Bytes) (before auth : ℤ) (p : Process)
    → Keeps p (report_country countries rhost name host before auth p)
unfolding report_country
report_country-Keeps none rhost name host before auth p = (refl, refl)
report_country-Keeps (some c) none name host before auth p = (refl, refl)
report_country-Keeps (some c) (some r) name host before auth p =
    elim (Bool-cases (int_eq before (pos 0))) [
      | inl e ↦ rw e (refl, refl)
      | inr e ↦ elim (Bool-cases (int_eq auth (pos 0))) [
        | inl x ↦ rw (e, x) (refl, refl)
        | inr x ↦ rw (e, x) (refl, refl)
      ]
    ]

authorized-strip :
    (w : World) (r : Request) (host : Bytes) (user host' : Option Bytes) (before : ℤ) (p : Process)
    → strip (authorized w r host user host' before p)
      ≡ logged (
          run_command w p.options r host' p.hostent.port
            (check_country w.net p.options p.hostent.countries w.rhost before))
unfolding authorized
authorized-strip w r host user host' before p =
    let auth = check_country w.net p.options p.hostent.countries w.rhost before in
    let (o, he) =
      report_country-Keeps p.hostent.countries w.rhost (shown user) host before auth
        (with_pw_name (shown user) (record p { hostent = record p.hostent { host = host' } })) in
    conclude-strip w r (shown user) host auth _
    ∙ ap₂ (λ (x : Options) (y : HostEntry). logged (run_command w x r y.host y.port auth)) o he

look_up-strip :
    (w : World) (r : Request) (host : Bytes) (found : Bool) (p : Process)
    → strip (look_up w r host found p) ≡ with_entry w p.options r host (found, p.hostent)
unfolding look_up with_entry clean_exit
look_up-strip w r host false p = refl
look_up-strip w r host true p =
    strip-bind
      (auth_user w.files w.ldap p.options (some w.pw_name) p.hostent.host (access_mode r.cval host))
      _ _ (λ answer. authorized-strip w r host answer.user answer.host answer.auth _)

bind-same {ℓ κ} :
    {A : Type ℓ} {B : Type κ} (m : Run A) (f g : A → Run B)
    → ((a : A) → f a ≡ g a)
    → (m >>= f) ≡ (m >>= g)
bind-same fault f g h = refl
bind-same (ok a) f g h = h a

-- The host among the options is not looked at behind the prompt.
with_entry-host :
    (w : World) (o : Options) (r : Request) (host : Bytes) (other : Option Bytes)
    (found : Bool × HostEntry)
    → with_entry w (record o { host = other }) r host found ≡ with_entry w o r host found
unfolding with_entry run_command auth_user by_type local_user ldap_user get_auth_ldap
with_entry-host w o r host other (false, he) = refl
with_entry-host w o r host other (true, he) =
    bind-same (auth_user w.files w.ldap o (some w.pw_name) he.host (access_mode r.cval host)) _ _
      (λ answer.
        ap (λ v. logged (run_command w o r answer.host he.port v))
          (check_country-data w.net (record o { host = other }) o refl refl he.countries w.rhost
            answer.auth))

shorten-strip :
    (w : World) (r : Request) (wanted : Bytes) (p : Process)
    → strip (shorten w r wanted p) ≡ enter_host w p.options r p.hostent wanted
unfolding shorten ask_for enter_host
shorten-strip w r wanted p = strip-bind (short_name p.options.allowfqdn wanted) _ _ (λ host.
    look_up-strip w r host (gethostentry w.files (some host) p.options.hosts_file p.hostent).0 _
    ∙ with_entry-host w p.options r host (some host)
        (gethostentry w.files (some host) p.options.hosts_file p.hostent))

-- The prompt finds the same host, and keeps the rest.
abbrev Prompted : Process → Option Bytes → Option (Bytes × Process) → Type 0
Prompted p none m = m ≡ none
Prompted p (some host) m = (q : Process) × (m ≡ some (host, q)) × Keeps p q

prompt_lines-Prompted :
    (lines : List Bytes) (p : Process) → Prompted p (prompt_host lines) (prompt_lines lines p)
unfolding prompt_host prompt_lines prompt
prompt_lines-Prompted [] p = refl
prompt_lines-Prompted (line ∷ lines) p =
    by_text (prompt_lines-Prompted lines (prompt p)) (without_last (c_str line))
  where
    kept :
        (found : Option Bytes) (m : Option (Bytes × Process))
        → Prompted (prompt p) found m
        → Prompted p found m
    kept none m h = h
    kept (some host) m (q, e, k) = (q, e, k)

    by_text :
        Prompted (prompt p) (prompt_host lines) (prompt_lines lines (prompt p))
        → (text : Bytes)
        → Prompted p
            (elim text [ [] ↦ prompt_host lines | c ∷ s ↦ some (c ∷ s) ])
            (elim text [ [] ↦ prompt_lines lines (prompt p) | c ∷ s ↦ some (c ∷ s, prompt p) ])
    by_text later [] = kept (prompt_host lines) _ later
    by_text later (c ∷ s) = (prompt p, refl, (refl, refl))

find_host-Prompted :
    (host : Option Bytes) (stdin : Bytes) (p : Process)
    → Prompted p (wanted_host host stdin) (find_host host stdin p)
unfolding wanted_host find_host
find_host-Prompted (some host) stdin p = (p, refl, (refl, refl))
find_host-Prompted none stdin p = prompt_lines-Prompted (read_lines host_room stdin) p

attend-erase :
    (w : World) (r : Request) (p : Process) → erase (attend w r p) ≡ serve w p.options p.hostent r
unfolding attend serve
attend-erase w r p =
    by_host (wanted_host r.host w.stdin) (find_host r.host w.stdin p)
      (find_host-Prompted r.host w.stdin p)
  where
    by_host :
        (found : Option Bytes) (m : Option (Bytes × Process))
        → Prompted p found m
        → erase (elim m [ none ↦ none | some (wanted, q) ↦ some (shorten w r wanted q) ])
          ≡ (elim found [
            | none ↦ none
            | some wanted ↦ some (enter_host w p.options r p.hostent wanted)
          ])
    by_host none m h = rw h
    by_host (some host) m (q, e, (o, he)) =
        rw e (ap some (shorten-strip w r host q ∙ ap₂ (λ x y. enter_host w x r y host) o he))

pub with_process-erase :
    (w : World) (cval : Option Bytes) (p : Process)
    → erase (with_process w cval p) ≡ with_options w p.options p.hostent cval
unfolding with_process with_options
with_process-erase w cval p =
    erase-then_run (parse_request cval p.options.proxy_keyword) _ _ (λ r. attend-erase w r p)
