-- ===== src/Stonesh/Startup.antt =====
-- stonesh.c: the start of `main`, up to the reading of the options.
use stonesh.AuthLdap.{Ldap}
use stonesh.Geoip.{Net}
use stonesh.Hosts.{HostEntry}
use stonesh.Libc.{strtok}
use stonesh.Prelude.{
  Bool, true, false, List, [], ◌∷◌, map, Option, none, some, ℤ, pos, int_eq, Run, ok, fault, Bytes,
  codes, if◌then◌else◌,
}
use stonesh.Readconf.File.{FileSystem, read_config_file}
use stonesh.Readconf.Options.{Options}
use stonesh.Stonesh.{
  World, Outcome, exit_with, exit_failure, blanks, command_line, after, with_options,
}

-- What `getopt` answers for "c:C:lhv", one after the other: an option with its argument, or another
-- letter, which is `illegal`.
pub data Switch : Type 0 where
  command : Bytes → Switch
  config_file : Bytes → Switch
  help log_to_stderr version illegal : Switch

-- What the program finds: the system as in `World`, the name that `getpwuid` gives, the value of
-- SSH_CLIENT, the arguments, and what `getopt` makes of them.
pub record Environment : Type 0 where
  pub files : FileSystem
  pub ldap : Ldap
  pub net : Net
  pub passwd : Option Bytes
  pub ssh_client : Option Bytes
  pub stdin : Bytes
  pub isatty : Bool
  pub argv : List Bytes
  pub switches : List Switch

-- `cval`, `Cval` and `log_to_stderr`.
pub record Chosen : Type 0 where
  pub cval : Option Bytes
  pub config : Option Bytes
  pub log_to_stderr : Bool

abbrev pub nothing_chosen : Chosen
nothing_chosen = record { cval = none; config = none; log_to_stderr = false }

-- The loop over the options, where the last of a kind counts. `-h` and `-v` end the program: `none`.
unfoldable pub parse_switches : List Switch → Chosen → Option Chosen
parse_switches [] c = some c
parse_switches (command arg ∷ more) c = parse_switches more (record c { cval = some arg })
parse_switches (config_file arg ∷ more) c = parse_switches more (record c { config = some arg })
parse_switches (help ∷ more) c = none
parse_switches (log_to_stderr ∷ more) c = parse_switches more (record c { log_to_stderr = true })
parse_switches (version ∷ more) c = none
parse_switches (illegal ∷ more) c = parse_switches more c

-- The client's address, the first word of SSH_CLIENT. Without that variable the code passes NULL to
-- `strtok`, with no string from an earlier call to go on with: a fault.
unfoldable pub client_address : Option Bytes → Run (Option Bytes)
client_address none = fault
client_address (some value) = elim (strtok value blanks) [
  | none ↦ ok none
  | some (rhost, rest) ↦ ok (some rhost)
]

abbrev pub default_config : Bytes
default_config = codes "/etc/stonesh/stonesh.conf"

abbrev pub config_name : Option Bytes → Bytes
config_name none = default_config
config_name (some name) = name

-- `-l` overrides the option of the file.
abbrev pub log_option : Bool → Options → Options
log_option true o = record o { log_to_stderr = pos 1 }
log_option false o = o

-- Behind the reading of the file. If that is not accepted, `clean_exit` reads `hostent`, which is not
-- initialized: a fault. The text of the arguments is written to the log.
unfoldable pub with_config :
    World → List Bytes → Chosen → HostEntry → Options × ℤ → Option (Run Outcome)
with_config w argv c he (o, accepted) =
    if int_eq accepted (pos 0)
    then some fault
    else after (command_line (map some argv))
        (λ text. with_options w (log_option c.log_to_stderr o) he c.cval)

-- From the reading of the file on.
unfoldable pub start : World → List Bytes → Chosen → Options → HostEntry → Option (Run Outcome)
start w argv c o he =
    after (read_config_file w.files (config_name c.config) o) (λ r. with_config w argv c he r)

-- The system with the user's name and the client's address.
abbrev pub world_of : Environment → Bytes → Option Bytes → World
world_of env name rhost = record {
  files = env.files;
  ldap = env.ldap;
  net = env.net;
  pw_name = name;
  rhost = rhost;
  stdin = env.stdin;
  isatty = env.isatty;
}

unfoldable pub with_switches :
    Environment → Bytes → Option Bytes → Options → HostEntry → Option Chosen → Option (Run Outcome)
with_switches env name rhost o he none = some (ok (exit_with exit_failure))
with_switches env name rhost o he (some c) = start (world_of env name rhost) env.argv c o he

-- On the name that `getpwuid` gives; without one `fatal` ends the program.
unfoldable pub with_name : Environment → Options → HostEntry → Option Bytes → Option (Run Outcome)
with_name env o he none = some (ok (exit_with exit_failure))
with_name env o he (some name) =
    after (client_address env.ssh_client)
      (λ rhost. with_switches env name rhost o he (parse_switches env.switches nothing_chosen))

-- `main`, with the options and the host entry as they stand in static storage.
unfoldable pub main : Environment → Options → HostEntry → Option (Run Outcome)
main env o he = with_name env o he env.passwd
