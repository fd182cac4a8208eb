-- ===== src/Stonesh.antt =====
-- stonesh.c: `main` behind the reading of the options, from the request to the command that is
-- executed (the start of `main` is in Startup). What it prints and logs is left out, but for the
-- text of the command.
mod Parsing
mod Command
pub mod Startup
pub mod Texts
pub mod Process
pub mod Lines
pub mod Entering
pub mod Start
pub mod Serving
pub mod Completes
pub mod Meant
pub mod Country
pub mod Requests
pub mod Tables
pub mod Logins
pub use Parsing.{Request, blanks, remaining, bastion_request, host_room, without_last}
unfoldable pub use Parsing.{
  is_keyword, proxy_request, parse_request, prompt_host, wanted_host, short_name, access_mode,
}
pub use Command.{
  Outcome, exit_with, execute, exit_success, exit_failure, nc_command, args_list, ssh_command,
  total_length, line_size,
}
unfoldable pub use Command.{append_within, append_args, command_line}
use stonesh.Auth.{auth_user}
use stonesh.AuthLdap.{Ldap}
use stonesh.Geoip.{Net, is_from_valid_country}
use stonesh.Hosts.{HostEntry, gethostentry}
use stonesh.Prelude.{
  Bool, true, false, not, ◌&&◌, [], ◌∷◌, Option, none, some, ℤ, pos, int_eq, Run, ok, fault, ◌>>=◌,
  Bytes, if◌then◌else◌,
}
use stonesh.Readconf.File.{FileSystem}
use stonesh.Readconf.Options.{Options}

-- What the program finds around it: the files, the LDAP and network libraries, the user's name, the
-- client's address if there is one, the standard input, and whether that is a terminal.
pub record World : Type 0 where
  pub files : FileSystem
  pub ldap : Ldap
  pub net : Net
  pub pw_name : Bytes
  pub rhost : Option Bytes
  pub stdin : Bytes
  pub isatty : Bool

-- Whether the client's country has to be looked at, and what comes of it.
unfoldable pub check_country : Net → Options → Option Bytes → Option Bytes → ℤ → ℤ
check_country net o (some countries) (some rhost) auth =
    if int_eq auth (pos 0)
    then auth
    else is_from_valid_country net o rhost (some countries) (some (b',' ∷ []))
check_country net o countries rhost auth = auth

abbrev pub is_null : Option Bytes → Bool
is_null none = true
is_null (some s) = false

-- Behind the authorization, which has the result `auth`: a refusal ends the program with success.
unfoldable pub run_command : World → Options → Request → Option Bytes → Option Bytes → ℤ → Outcome
run_command w o r host port auth =
    if int_eq auth (pos 0)
    then exit_with exit_success
    else if r.proxy
    then execute (nc_command o host port)
    else if not w.isatty && is_null r.args
    then exit_with exit_failure
    else execute (ssh_command o host port r.args)

-- The text of the command is written to the log in front of `execvp`.
unfoldable pub logged : Outcome → Run Outcome
logged (exit_with status) = ok (exit_with status)
logged (execute argv) = do text ← command_line argv; ok (execute argv)

-- On what `gethostentry` gives.
unfoldable pub with_entry : World → Options → Request → Bytes → Bool × HostEntry → Run Outcome
with_entry w o r host (false, he) = ok (exit_with exit_failure)
with_entry w o r host (true, he) = do
  answer ← auth_user w.files w.ldap o (some w.pw_name) he.host (access_mode r.cval host)
  logged (
      run_command w o r answer.host he.port
        (check_country w.net o he.countries w.rhost answer.auth))

-- From the host that is wanted on.
unfoldable pub enter_host : World → Options → Request → HostEntry → Bytes → Run Outcome
enter_host w o r he wanted = do
  host ← short_name o.allowfqdn wanted
  with_entry w o r host (gethostentry w.files (some host) o.hosts_file he)

-- On the request. `none`: the program asks for a host for ever.
unfoldable pub serve : World → Options → HostEntry → Request → Option (Run Outcome)
serve w o he r = elim (wanted_host r.host w.stdin) [
  | none ↦ none
  | some wanted ↦ some (enter_host w o r he wanted)
]

-- A fault ends the program.
abbrev pub after {ℓ} : {A : Type ℓ} → Run A → (A → Option (Run Outcome)) → Option (Run Outcome)
after fault f = some fault
after (ok a) f = f a

-- Behind the reading of the options, for the value of the option `-c`.
unfoldable pub with_options : World → Options → HostEntry → Option Bytes → Option (Run Outcome)
with_options w o he cval = after (parse_request cval o.proxy_keyword) (λ r. serve w o he r)
