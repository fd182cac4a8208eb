-- ===== src/Stonesh/Process.antt =====
-- stonesh.c with its messages and its static storage: the functions of Stonesh once more, on the
-- process as state. The messages of the functions that `main` calls are left out.
pub mod Serve
pub mod Launch
pub mod Erases
pub mod Starts
pub mod Follows
pub mod Trail
pub mod Ends
pub mod Audit
pub mod Finish
use stonesh.Hosts.{HostEntry}
use stonesh.Log.{Log, notice, error, debug}
use stonesh.Prelude.{
  Bool, true, false, [], ◌∷◌, ◌++◌, Option, none, some, ℤ, pos, int_eq, Bytes, codes, if◌then◌else◌,
}
use stonesh.Readconf.Options.{Options, free_options}
use stonesh.Stonesh.{Outcome, exit_with}

-- The log, the options, the entry that `gethostentry` fills, the name in the user's entry of the passwd
-- file, and what was written to stdout.
pub record Process : Type 0 where
  pub log : Log
  pub options : Options
  pub hostent : HostEntry
  pub pw_name : Bytes
  pub stdout : Bytes

abbrev pub with_pw_name : Bytes → Process → Process
with_pw_name name p = record p { pw_name = name }

abbrev pub say : (Log → Log) → Process → Process
say f p = record p { log = f p.log }

-- `%s` for NULL, as the GNU library has it.
abbrev pub shown : Option Bytes → Bytes
shown none = codes "(null)"
shown (some s) = s

-- `fprintf(stderr, …)` and `printf(…)`
abbrev pub to_stderr : Bytes → Process → Process
to_stderr text p = say (λ log. record log { stderr = log.stderr ++ text }) p

abbrev pub to_stdout : Bytes → Process → Process
to_stdout text p = record p { stdout = p.stdout ++ text }

-- HOSTS_FREE for each string of the entry
abbrev pub freed_entry : HostEntry
freed_entry = record { host = none; countries = none; port = none }

-- From `clean_exit` on; `found` tells whether `hostent` is not NULL.
unfoldable pub clean_exit : Bool → ℤ → Process → Outcome × Process
clean_exit found status p = (
  exit_with status,
  record p { options = free_options p.options; hostent = if found then freed_entry else p.hostent },
)

-- The message on a refusal, and on an admission.
unfoldable pub refuse : Bool → Bytes → Bytes → Process → Process
refuse false name host p =
    say (error (codes "(%s) not authorized to access host '%s', exiting") (name ∷ host ∷ [])) p
refuse true name host p =
    say
      (error (codes "(%s) not authorized for proxy access to host '%s', exiting")
        (name ∷ host ∷ []))
      p

unfoldable pub admit : Bool → Bytes → Bytes → Process → Process
admit false name host p =
    say (debug (codes "(%s) authorized for access to host '%s'") (name ∷ host ∷ [])) p
admit true name host p =
    say (debug (codes "(%s) authorized for proxy access to host '%s'") (name ∷ host ∷ [])) p

-- The messages on the country, where it is looked at: on the list of countries, the client's address,
-- the user, the host, and the result before and after.
unfoldable pub report_country :
    Option Bytes → Option Bytes → Bytes → Bytes → ℤ → ℤ → Process → Process
report_country none rhost name host before auth p = p
report_country (some countries) none name host before auth p = p
report_country (some countries) (some rhost) name host before auth p =
    if int_eq before (pos 0)
    then p
    else if int_eq auth (pos 0)
    then say (error (codes "(%s) not authorized for '%s' from '%s'") (name ∷ host ∷ rhost ∷ [])) p
    else say (debug (codes "(%s) authorized for '%s' from '%s'") (name ∷ host ∷ rhost ∷ [])) p

-- Without a terminal and a command.
unfoldable pub no_terminal : Bytes → Process → Process
no_terminal name p =
    to_stderr
      (codes "You have no TTY and you have not specified a command "
        ++ codes "to be run on the remote host.  Try again with ssh -t\n")
      (say (error (codes "(%s) has no TTY and did not specify a command to be run") (name ∷ [])) p)

-- What the loop of the prompt writes in each round.
unfoldable pub prompt : Process → Process
prompt p =
    to_stdout (codes "Host: ")
      (say (debug (codes "no host specified, prompting user for value") []) p)
