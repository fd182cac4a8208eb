-- ===== src/Stonesh/Process/Launch.antt =====
-- stonesh.c with its messages: the start of `main`, up to the reading of the options.
use stonesh.Libc.{strtok, decimal}
use stonesh.Log.{notice, fatal, debug}
use stonesh.Prelude.{
  Bool, true, List, [], ◌∷◌, map, Option, none, some, ℤ, pos, int_eq, Run, ok, fault, Bytes, codes,
  if◌then◌else◌,
}
use stonesh.Readconf.File.{read_config_file}
use stonesh.Readconf.Options.{Options}
use stonesh.Stonesh.{World, Outcome, exit_with, exit_failure, blanks, command_line}
use stonesh.Stonesh.Process.{Process, with_pw_name, say, shown, to_stderr, to_stdout}
use stonesh.Stonesh.Process.Serve.{then_run, with_process}
use stonesh.Stonesh.Startup.{
  Switch, Environment, Chosen, nothing_chosen, client_address, config_name, log_option, world_of,
}
use stonesh.Stonesh.Texts.{version_text, usage_text}

-- PACKAGE_NAME, which is `progname` too, and PACKAGE_VERSION.
pub record Package : Type 0 where
  pub package_name : Bytes
  pub package_version : Bytes

unfoldable pub print_version : Package → Process → Process
print_version n p =
    let out = version_text n.package_name n.package_version in
    to_stderr out.stderr (to_stdout out.stdout p)

unfoldable pub print_usage : Package → Process → Process
print_usage n p =
    let out = usage_text n.package_name n.package_version n.package_name in
    to_stderr out.stderr (to_stdout out.stdout p)

-- The loop over the options, with the messages; `getopt` answers `?` for an option that is illegal.
unfoldable pub read_switches : Package → List Switch → Chosen → Process → Option Chosen × Process
read_switches n [] c p = (some c, p)
read_switches n (Switch.command arg ∷ more) c p =
    read_switches n more (record c { cval = some arg }) p
read_switches n (Switch.config_file arg ∷ more) c p =
    read_switches n more (record c { config = some arg }) p
read_switches n (Switch.help ∷ more) c p = (none, print_usage n p)
read_switches n (Switch.log_to_stderr ∷ more) c p =
    read_switches n more (record c { log_to_stderr = true })
      (say (λ log. record log { log_to_stderr = pos 1 }) p)
read_switches n (Switch.version ∷ more) c p = (none, print_version n p)
read_switches n (Switch.illegal ∷ more) c p =
    read_switches n more c (print_usage n (to_stderr (codes "Illegal option '?'\n") p))

abbrev first_word : Option (Bytes × Bytes) → Option Bytes
first_word none = none
first_word (some (word, rest)) = some word

-- The message on the connection, with the port, the second word of SSH_CLIENT. Without that variable
-- the program has faulted.
unfoldable pub report_connection : Bytes → Option (Bytes × Bytes) → Process → Process
report_connection name none p = say (notice (codes "(%s) local connection") (name ∷ [])) p
report_connection name (some (rhost, rest)) p =
    say
      (notice (codes "(%s) connection via %s:%s")
        (name ∷ rhost ∷ shown (first_word (strtok rest blanks)) ∷ []))
      p

unfoldable pub connection : Bytes → Option Bytes → Process → Process
connection name none p = p
connection name (some ssh_client) p = report_connection name (strtok ssh_client blanks) p

abbrev pub say_all : List (Bytes × Bytes) → Process → Process
say_all [] p = p
say_all ((fmt, arg) ∷ messages) p = say_all messages (say (debug fmt (arg ∷ [])) p)

-- The messages on the options: the formats and their arguments.
abbrev pub option_messages : Option Bytes → Options → List (Bytes × Bytes)
option_messages rhost o =
    (codes "rhost = '%s'", shown rhost)
    ∷ (codes "ssh_path = '%s'", shown o.ssh_path)
    ∷ (codes "nc_path = '%s'", shown o.nc_path)
    ∷ (codes "nc_timeout = '%s'", shown o.nc_timeout)
    ∷ (codes "enable_proxy = '%i'", decimal o.enable_proxy)
    ∷ (codes "proxy_keyword = '%s'", shown o.proxy_keyword)
    ∷ (codes "hosts_file = '%s'", shown o.hosts_file)
    ∷ (codes "users_file = '%s'", shown o.users_file)
    ∷ (codes "use_ldap = '%i'", decimal o.use_ldap)
    ∷ (codes "ldap_uri = '%s'", shown o.ldap_uri)
    ∷ (codes "ldap_base = '%s", shown o.ldap_base)
    ∷ (codes "authorized_service_tag = '%s'", shown o.authorized_service_tag)
    ∷ (codes "geoip_dat = '%s'", shown o.geoip_dat)
    ∷ (codes "geoip6_dat = '%s'", shown o.geoip6_dat)
    ∷ []

unfoldable pub report_options : Option Bytes → Process → Process
report_options rhost p = say_all (option_messages rhost p.options) p

-- The options as they are used from now on, and `debugging`.
unfoldable pub set_options : Bool → Options → Process → Process
set_options to_stderr o p =
    let o' = log_option to_stderr o in
    say (λ log. record log { debugging = o'.debug }) (record p { options = o' })

-- Behind the reading of the file. If that is not accepted, `clean_exit` reads `hostent`, which is not
-- initialized: a fault.
unfoldable pub configured :
    World → List Bytes → Chosen → Process → Options × ℤ → Option (Run (Outcome × Process))
configured w argv c p (o, accepted) =
    if int_eq accepted (pos 0)
    then some fault
    else then_run (command_line (map some argv)) (λ text. with_process w c.cval (
        say (debug (codes "cmdline = '%s'") (text ∷ []))
          (report_options w.rhost (set_options c.log_to_stderr o p))))

unfoldable pub configure : World → List Bytes → Chosen → Process → Option (Run (Outcome × Process))
configure w argv c p =
    then_run (read_config_file w.files (config_name c.config) p.options)
      (λ r. configured w argv c p r)

unfoldable pub with_chosen :
    Environment → Bytes → Option Bytes → Option Chosen × Process → Option (Run (Outcome × Process))
with_chosen env name rhost (none, p) = some (ok (exit_with exit_failure, p))
with_chosen env name rhost (some c, p) = configure (world_of env name rhost) env.argv c p

-- On the name that `getpwuid` gives; without one `fatal` ends the program.
unfoldable pub with_user :
    Package → Environment → Process → Option Bytes → Option (Run (Outcome × Process))
with_user n env p none = some (
    ok (
      exit_with exit_failure,
      say (λ log. (fatal (codes "unable to get the username") [] log).0) p,
    ))
with_user n env p (some name) = then_run (client_address env.ssh_client) (λ rhost.
    with_chosen env name rhost (
      read_switches n env.switches nothing_chosen
        (connection name env.ssh_client (with_pw_name name p))))

-- `main`, on the process as it starts.
unfoldable pub process_main : Package → Environment → Process → Option (Run (Outcome × Process))
process_main n env p = with_user n env p env.passwd
