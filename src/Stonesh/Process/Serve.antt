-- ===== src/Stonesh/Process/Serve.antt =====
-- stonesh.c with its messages: `main` from the request to the command.
use stonesh.Auth.{auth_user}
use stonesh.Hosts.{gethostentry}
use stonesh.Libc.{c_str, read_lines}
use stonesh.Log.{notice, error, debug}
use stonesh.Prelude.{
  Bool, true, false, not, ◌&&◌, List, [], ◌∷◌, Option, none, some, ℤ, pos, int_eq, Run, ok, fault,
  ◌>>=◌, Bytes, codes, if◌then◌else◌,
}
use stonesh.Stonesh.{
  World, Request, Outcome, execute, exit_success, exit_failure, host_room, without_last,
  parse_request, short_name, access_mode, check_country, nc_command, ssh_command, command_line,
  is_null,
}
use stonesh.Stonesh.Process.{
  Process, with_pw_name, say, shown, clean_exit, refuse, admit, report_country, no_terminal, prompt,
}

-- The command, behind the message that has its text.
unfoldable pub launch : Bytes → List (Option Bytes) → Process → Run (Outcome × Process)
launch name argv p = do
  text ← command_line argv
  ok (execute argv, say (notice (codes "(%s) executing '%s'") (name ∷ text ∷ [])) p)

-- Behind the authorization, which has the result `auth`.
unfoldable pub conclude : Bool → Request → Bytes → Bytes → ℤ → Process → Run (Outcome × Process)
conclude tty r name host auth p =
    if int_eq auth (pos 0)
    then ok (clean_exit true exit_success (refuse r.proxy name host p))
    else if r.proxy
    then launch name (nc_command p.options p.hostent.host p.hostent.port)
        (admit r.proxy name host p)
    else if not tty && is_null r.args
    then ok (clean_exit true exit_failure (no_terminal name (admit r.proxy name host p)))
    else launch name (ssh_command p.options p.hostent.host p.hostent.port r.args)
        (admit r.proxy name host p)

-- Behind `auth_user`, which leaves its strings as `user` and `host'`, in the passwd entry and in the
-- entry of the host.
unfoldable pub authorized :
    World → Request → Bytes → Option Bytes → Option Bytes → ℤ → Process → Run (Outcome × Process)
authorized w r host user host' before p =
    let q = with_pw_name (shown user) (record p { hostent = record p.hostent { host = host' } }) in
    let auth = check_country w.net p.options p.hostent.countries w.rhost before in
    conclude w.isatty r (shown user) host auth
      (report_country p.hostent.countries w.rhost (shown user) host before auth q)

-- Behind `gethostentry`, which has filled the entry, and returns NULL if nothing was found.
unfoldable pub look_up : World → Request → Bytes → Bool → Process → Run (Outcome × Process)
look_up w r host false p = ok (
    clean_exit false exit_failure
      (say (error (codes "(%s) requested invalid host '%s', exiting") (w.pw_name ∷ host ∷ [])) p))
look_up w r host true p = do
  answer ←
      auth_user w.files w.ldap p.options (some w.pw_name) p.hostent.host (access_mode r.cval host)
  authorized w r host answer.user answer.host answer.auth (
      say
        (debug (codes "(%s) requested valid host '%s:%s' (%s)") (
          w.pw_name ∷ shown p.hostent.host ∷ shown p.hostent.port ∷ shown p.hostent.countries ∷ []))
        p)

abbrev pub with_host : Bytes → Process → Process
with_host host p = record p { options = record p.options { host = some host } }

-- On the host that is shortened.
unfoldable pub ask_for : World → Request → Bytes → Process → Run (Outcome × Process)
ask_for w r host p =
    let q = with_host host p in
    let (found, he) = gethostentry w.files (some host) q.options.hosts_file q.hostent in
    look_up w r host found
      (record (say (debug (codes "cval = %s") (shown r.cval ∷ []))
        (say (debug (codes "host = %s") (host ∷ [])) q)) { hostent = he })

-- From the host that is wanted on.
unfoldable pub shorten : World → Request → Bytes → Process → Run (Outcome × Process)
shorten w r wanted p = do
  host ← short_name p.options.allowfqdn wanted
  ask_for w r host (with_host wanted p)

-- The prompt, on the lines of the standard input.
unfoldable pub prompt_lines : List Bytes → Process → Option (Bytes × Process)
prompt_lines [] p = none
prompt_lines (line ∷ lines) p = elim (without_last (c_str line)) [
  | [] ↦ prompt_lines lines (prompt p)
  | c ∷ s ↦ some (c ∷ s, prompt p)
]

unfoldable pub find_host : Option Bytes → Bytes → Process → Option (Bytes × Process)
find_host (some host) stdin p = some (host, p)
find_host none stdin p = prompt_lines (read_lines host_room stdin) p

-- On the request.
unfoldable pub attend : World → Request → Process → Option (Run (Outcome × Process))
attend w r p = elim (find_host r.host w.stdin p) [
  | none ↦ none
  | some (wanted, q) ↦ some (shorten w r wanted q)
]

-- A fault ends the program.
abbrev pub then_run {ℓ} :
    {A : Type ℓ} → Run A → (A → Option (Run (Outcome × Process))) → Option (Run (Outcome × Process))
then_run fault f = some fault
then_run (ok a) f = f a

-- Behind the reading of the options, for the value of the option `-c`.
unfoldable pub with_process : World → Option Bytes → Process → Option (Run (Outcome × Process))
with_process w cval p = then_run (parse_request cval p.options.proxy_keyword) (λ r. attend w r p)
