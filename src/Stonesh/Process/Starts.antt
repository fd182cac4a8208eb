-- ===== src/Stonesh/Process/Starts.antt =====
-- `process_main` and `main` from the start on.
use stonesh.Libc.{strtok}
use stonesh.Log.{debug}
use stonesh.Prelude.{
  codes, true, List, [], ◌∷◌, map, Option, none, some, ℤ, pos, int_eq, ◌≡◌, inl, inr, refl, ap, ap₂,
  ◌∙◌, Bytes, Bool-cases,
}
use stonesh.Readconf.File.{read_config_file}
use stonesh.Readconf.Options.{Options}
use stonesh.Stonesh.{World, with_options, command_line, blanks}
use stonesh.Stonesh.Process.{Process, with_pw_name, say}
use stonesh.Stonesh.Process.Erases.{Keeps, erase, erase-then_run, with_process-erase}
use stonesh.Stonesh.Process.Launch.{
  Package, print_version, print_usage, read_switches, report_connection, connection,
  option_messages, say_all, report_options, set_options, configured, configure, with_chosen,
  with_user, process_main,
}
use stonesh.Stonesh.Process.Serve.{with_process}
use stonesh.Stonesh.Startup.{
  Switch, Environment, Chosen, nothing_chosen, parse_switches, client_address, config_name,
  log_option, with_config, start, world_of, with_switches, with_name, main,
}

say_all-Keeps : (messages : List (Bytes × Bytes)) (p : Process) → Keeps p (say_all messages p)
say_all-Keeps [] p = (refl, refl)
say_all-Keeps ((fmt, arg) ∷ messages) p = say_all-Keeps messages _

report_options-Keeps : (rhost : Option Bytes) (p : Process) → Keeps p (report_options rhost p)
unfolding report_options
report_options-Keeps rhost p = say_all-Keeps (option_messages rhost p.options) p

report_connection-Keeps :
    (name : Bytes) (m : Option (Bytes × Bytes)) (p : Process) → Keeps p (report_connection name m p)
unfolding report_connection
report_connection-Keeps name none p = (refl, refl)
report_connection-Keeps name (some (rhost, rest)) p = (refl, refl)

connection-Keeps :
    (name : Bytes) (ssh_client : Option Bytes) (p : Process)
    → Keeps p (connection name ssh_client p)
unfolding connection
connection-Keeps name none p = (refl, refl)
connection-Keeps name (some ssh_client) p =
    report_connection-Keeps name (strtok ssh_client blanks) p

-- The loop over the options comes to the same, and keeps the rest.
pub read_switches-same :
    (n : Package) (switches : List Switch) (c : Chosen) (p : Process)
    → ((read_switches n switches c p).0 ≡ parse_switches switches c)
      × Keeps p (read_switches n switches c p).1
unfolding read_switches parse_switches print_usage print_version
read_switches-same n [] c p = (refl, (refl, refl))
read_switches-same n (Switch.command arg ∷ more) c p =
    read_switches-same n more (record c { cval = some arg }) p
read_switches-same n (Switch.config_file arg ∷ more) c p =
    read_switches-same n more (record c { config = some arg }) p
read_switches-same n (Switch.help ∷ more) c p = (refl, (refl, refl))
read_switches-same n (Switch.log_to_stderr ∷ more) c p =
    read_switches-same n more (record c { log_to_stderr = true }) _
read_switches-same n (Switch.version ∷ more) c p = (refl, (refl, refl))
read_switches-same n (Switch.illegal ∷ more) c p = read_switches-same n more c _

configured-erase :
    (w : World) (argv : List Bytes) (c : Chosen) (p : Process) (r : Options × ℤ)
    → erase (configured w argv c p r) ≡ with_config w argv c p.hostent r
unfolding configured with_config set_options
configured-erase w argv c p (o, accepted) = elim (Bool-cases (int_eq accepted (pos 0))) [
  | inl e ↦ rw e
  | inr e ↦ rw e (erase-then_run (command_line (map some argv)) _ _ served)
]
  where
    served :
        (text : Bytes)
        → erase (
            with_process w c.cval (
              say
                (debug (codes "cmdline = '%s'") (text ∷ []))
                (report_options w.rhost (set_options c.log_to_stderr o p))))
          ≡ with_options w (log_option c.log_to_stderr o) p.hostent c.cval
    served text =
        let (same, entry) = report_options-Keeps w.rhost (set_options c.log_to_stderr o p) in
        with_process-erase w c.cval _ ∙ ap₂ (λ x y. with_options w x y c.cval) same entry

configure-erase :
    (w : World) (argv : List Bytes) (c : Chosen) (p : Process)
    → erase (configure w argv c p) ≡ start w argv c p.options p.hostent
unfolding configure start
configure-erase w argv c p =
    erase-then_run (read_config_file w.files (config_name c.config) p.options) _ _
      (λ r. configured-erase w argv c p r)

with_chosen-erase :
    (env : Environment) (name : Bytes) (rhost : Option Bytes) (r : Option Chosen × Process)
    → erase (with_chosen env name rhost r)
      ≡ with_switches env name rhost r.1.options r.1.hostent r.0
unfolding with_chosen with_switches
with_chosen-erase env name rhost (none, p) = refl
with_chosen-erase env name rhost (some c, p) =
    configure-erase (world_of env name rhost) env.argv c p

with_user-erase :
    (n : Package) (env : Environment) (p : Process) (m : Option Bytes)
    → erase (with_user n env p m) ≡ with_name env p.options p.hostent m
unfolding with_user with_name
with_user-erase n env p none = refl
with_user-erase n env p (some name) = erase-then_run (client_address env.ssh_client) _ _ (λ rhost.
    let q = connection name env.ssh_client (with_pw_name name p) in
    let (chosen, (o, he)) = read_switches-same n env.switches nothing_chosen q in
    let (o', he') = connection-Keeps name env.ssh_client (with_pw_name name p) in
    let r = read_switches n env.switches nothing_chosen q in
    with_chosen-erase env name rhost r
    ∙ ap (λ m. with_switches env name rhost r.1.options r.1.hostent m) chosen
    ∙ ap₂ (λ x y. with_switches env name rhost x y (parse_switches env.switches nothing_chosen))
        (o ∙ o') (he ∙ he'))

-- With its messages, and with the options and the entry in static storage, the program ends as it does
-- in the model without them, whatever was in that storage: with the same status, with the same
-- command, in the same faults, and in no end at the end of the standard input.
pub process_main-outcome :
    (n : Package) (env : Environment) (p : Process)
    → erase (process_main n env p) ≡ main env p.options p.hostent
unfolding process_main main
process_main-outcome n env p = with_user-erase n env p env.passwd
