-- ===== src/Stonesh/Process/Audit.antt =====
-- What the whole program of stonesh.c leaves behind.
use stonesh.Libc.{strtok}
use stonesh.Log.{Log}
use stonesh.Prelude.{
  Bool, true, false, List, [], ◌∷◌, ◌++◌, append_assoc, map, Option, none, some, ℤ, pos, int_eq,
  Run, ok, fault, ◌≡◌, inl, inr, refl, sym, subst, ap, ◌∙◌, Bytes, Bool-cases, if◌then◌else◌,
}
use stonesh.Readconf.File.{read_config_file}
use stonesh.Readconf.Options.{Options}
use stonesh.Stonesh.{World, Outcome, blanks, command_line}
use stonesh.Stonesh.Process.{Process, with_pw_name}
use stonesh.Stonesh.Process.Ends.{EndsWith, EndsWith-then_run, EndsWith-after, with_process-Ends}
use stonesh.Stonesh.Process.Follows.{
  Follows, Follows-refl, Follows-trans, notice-Follows, debug-Follows,
}
use stonesh.Stonesh.Process.Launch.{
  Package, print_version, print_usage, read_switches, report_connection, connection,
  option_messages, say_all, report_options, set_options, configured, configure, with_chosen,
  with_user, process_main,
}
use stonesh.Stonesh.Process.Trail.{Reported, Frees, Ends, failed}
use stonesh.Stonesh.Startup.{
  Switch, Environment, Chosen, nothing_chosen, client_address, config_name, world_of,
  parse_switches,
}
use stonesh.Stonesh.Process.Starts.{read_switches-same}

say_all-Follows : (messages : List (Bytes × Bytes)) (p : Process) → Follows p (say_all messages p)
say_all-Follows [] p = Follows-refl p p refl
say_all-Follows ((fmt, arg) ∷ messages) p =
    Follows-trans (debug-Follows fmt (arg ∷ []) p) (say_all-Follows messages _)

report_options-Follows : (rhost : Option Bytes) (p : Process) → Follows p (report_options rhost p)
unfolding report_options
report_options-Follows rhost p = say_all-Follows (option_messages rhost p.options) p

-- The options of the file set `debugging` and nothing else of the log.
set_options-Follows : (b : Bool) (o : Options) (p : Process) → Follows p (set_options b o p)
unfolding set_options
set_options-Follows b o p =
    let f = Follows-refl p p refl in
    record { more = f.more; grown = f.grown; same_sink = f.same_sink }

report_connection-Follows :
    (name : Bytes) (m : Option (Bytes × Bytes)) (p : Process)
    → Follows p (report_connection name m p)
unfolding report_connection
report_connection-Follows name none p = notice-Follows _ _ p
report_connection-Follows name (some (rhost, rest)) p = notice-Follows _ _ p

connection-Follows :
    (name : Bytes) (ssh_client : Option Bytes) (p : Process)
    → Follows p (connection name ssh_client p)
unfolding connection
connection-Follows name none p = Follows-refl p p refl
connection-Follows name (some ssh_client) p =
    report_connection-Follows name (strtok ssh_client blanks) p

configured-Ends :
    (w : World) (argv : List Bytes) (c : Chosen) (p : Process) (r : Options × ℤ)
    → EndsWith (Ends p) (configured w argv c p r)
unfolding configured
configured-Ends w argv c p (o, accepted) = elim (Bool-cases (int_eq accepted (pos 0))) [
  | inl e ↦ rw e tt
  | inr e ↦ rw e (
      EndsWith-then_run (Ends p) (command_line (map some argv)) _ (λ text.
        let q = set_options c.log_to_stderr o p in
        EndsWith-after _
          (Follows-trans (set_options-Follows c.log_to_stderr o p)
            (Follows-trans (report_options-Follows w.rhost q) (debug-Follows _ _ _)))
          (with_process-Ends w c.cval _)))
]

configure-Ends :
    (w : World) (argv : List Bytes) (c : Chosen) (p : Process)
    → EndsWith (Ends p) (configure w argv c p)
unfolding configure
configure-Ends w argv c p =
    EndsWith-then_run (Ends p) (read_config_file w.files (config_name c.config) p.options) _
      (λ r. configured-Ends w argv c p r)

-- Whether `-l` stands in front of what ends the program.
abbrev pub asks_stderr : List Switch → Bool
asks_stderr [] = false
asks_stderr (Switch.command arg ∷ more) = asks_stderr more
asks_stderr (Switch.config_file arg ∷ more) = asks_stderr more
asks_stderr (Switch.help ∷ more) = false
asks_stderr (Switch.log_to_stderr ∷ more) = true
asks_stderr (Switch.version ∷ more) = false
asks_stderr (Switch.illegal ∷ more) = asks_stderr more

abbrev pub sink_after : Bool → ℤ → ℤ
sink_after asked sink = if asked then pos 1 else sink

-- `-l` once is `-l` for good.
sink_stays : (b : Bool) → sink_after b (pos 1) ≡ pos 1
sink_stays true = refl
sink_stays false = refl

read_switches-log :
    (n : Package) (switches : List Switch) (c : Chosen) (p : Process)
    → ((read_switches n switches c p).1.log.syslog ≡ p.log.syslog)
      × ((read_switches n switches c p).1.log.log_to_stderr
          ≡ sink_after (asks_stderr switches) p.log.log_to_stderr)
unfolding read_switches print_usage print_version
read_switches-log n [] c p = (refl, refl)
read_switches-log n (Switch.command arg ∷ more) c p =
    read_switches-log n more (record c { cval = some arg }) p
read_switches-log n (Switch.config_file arg ∷ more) c p =
    read_switches-log n more (record c { config = some arg }) p
read_switches-log n (Switch.help ∷ more) c p = (refl, refl)
read_switches-log n (Switch.log_to_stderr ∷ more) c p =
    let (log, sink) = read_switches-log n more (record c { log_to_stderr = true }) _ in
    (log, sink ∙ sink_stays (asks_stderr more))
read_switches-log n (Switch.version ∷ more) c p = (refl, refl)
read_switches-log n (Switch.illegal ∷ more) c p = read_switches-log n more c _

-- What holds at the end, when the log was `log` at first and `sink` is the flag of `-l`.
pub record Audited (log : Log) (sink : ℤ) (r : Outcome × Process) : Type 0 where
  pub reported : Reported r.0 r.1
  pub more : List Bytes
  pub grown : r.1.log.syslog ≡ log.syslog ++ more
  pub sunk : r.1.log.log_to_stderr ≡ sink

audited :
    (q : Process) (log : Log) (more : List Bytes) (sink : ℤ) (m : Option (Run (Outcome × Process)))
    → q.log.syslog ≡ log.syslog ++ more
    → q.log.log_to_stderr ≡ sink
    → EndsWith (Ends q) m
    → EndsWith (Audited log sink) m
audited q log more sink none g s h = tt
audited q log more sink (some fault) g s h = tt
audited q log more sink (some (ok r)) g s h = record {
  reported = h.reported;
  more = more ++ h.follows.more;
  grown =
      h.follows.grown
      ∙ ap (λ x. x ++ h.follows.more) g
      ∙ append_assoc log.syslog more h.follows.more;
  sunk = h.follows.same_sink ∙ s;
}

with_chosen-Audited :
    (env : Environment) (name : Bytes) (rhost : Option Bytes) (r : Option Chosen × Process)
    (log : Log) (more : List Bytes) (sink : ℤ)
    → r.1.log.syslog ≡ log.syslog ++ more
    → r.1.log.log_to_stderr ≡ sink
    → EndsWith (Audited log sink) (with_chosen env name rhost r)
unfolding with_chosen
with_chosen-Audited env name rhost (none, q) log more sink g s = record {
  reported = failed;
  more = more;
  grown = g;
  sunk = s;
}
with_chosen-Audited env name rhost (some c, q) log more sink g s =
    audited q log more sink _ g s (configure-Ends (world_of env name rhost) env.argv c q)

-- However the program ends, or comes to `execvp`, for a user who has a name: if it comes to `execvp`, the
-- last message that syslog has got names the command, and if it ends with success, that message tells
-- of the refusal, both cut to 1023 bytes; what syslog had got before is still in front; and messages
-- go to stderr from now on if `-l` was given, and otherwise as before, whatever the configuration says.
pub process_main-Audited :
    (n : Package) (env : Environment) (p : Process) (name : Bytes)
    → env.passwd ≡ some name
    → EndsWith
        (Audited p.log (if asks_stderr env.switches then pos 1 else p.log.log_to_stderr))
        (process_main n env p)
unfolding process_main with_user
process_main-Audited n env p name has_name =
    subst
      (λ m.
        EndsWith (Audited p.log (if asks_stderr env.switches then pos 1 else p.log.log_to_stderr))
          (with_user n env p m))
      (sym has_name)
      (EndsWith-then_run _ (client_address env.ssh_client) _ (λ rhost.
        let q = connection name env.ssh_client (with_pw_name name p) in
        let f = connection-Follows name env.ssh_client (with_pw_name name p) in
        let (log, sink) = read_switches-log n env.switches nothing_chosen q in
        with_chosen-Audited env name rhost (read_switches n env.switches nothing_chosen q) p.log
          f.more _ (log ∙ f.grown) (sink ∙ ap (sink_after (asks_stderr env.switches)) f.same_sink)))

freed :
    (q : Process) (m : Option (Run (Outcome × Process)))
    → EndsWith (Ends q) m
    → EndsWith (λ r. Frees r.0 r.1) m
freed q none h = tt
freed q (some fault) h = tt
freed q (some (ok r)) h = h.frees

-- Up to the call of `execvp`.
pub process_main-Frees :
    (n : Package) (env : Environment) (p : Process) (name : Bytes) (chosen : Chosen)
    → env.passwd ≡ some name
    → parse_switches env.switches nothing_chosen ≡ some chosen
    → EndsWith (λ r. Frees r.0 r.1) (process_main n env p)
unfolding process_main with_user with_chosen
process_main-Frees n env p name chosen has_name chose =
    subst (λ m. EndsWith (λ r. Frees r.0 r.1) (with_user n env p m)) (sym has_name)
      (EndsWith-then_run _ (client_address env.ssh_client) _ (λ rhost.
        let r =
          read_switches n env.switches nothing_chosen
            (connection name env.ssh_client (with_pw_name name p)) in
        let same =
          (read_switches-same n env.switches nothing_chosen
            (connection name env.ssh_client (with_pw_name name p))).0 in
        by_chosen rhost r.0 r.1 (same ∙ chose)))
  where
    by_chosen :
        (rhost : Option Bytes) (m : Option Chosen) (q : Process)
        → m ≡ some chosen
        → EndsWith (λ r. Frees r.0 r.1) (with_chosen env name rhost (m, q))
    by_chosen rhost none q e = absurd cc
    by_chosen rhost (some c) q e = freed q _ (configure-Ends (world_of env name rhost) env.argv c q)
