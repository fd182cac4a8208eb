-- ===== src/Stonesh/Start.antt =====
-- The program of stonesh.c from its start to the command.
use stonesh.Prelude.{
  map, Bool, true, false, ◌+◌, ◌≤◌, List, Option, none, some, ℤ, pos, int_eq, int_eq_iff, ok, Safe,
  ◌≡◌, ◌⊎◌, inl, inr, refl, ap, ◌∙◌, subst, arith, Bytes, Bool-cases, length,
}
use stonesh.Readconf.Options.{Flag, get_flag, Options}
use stonesh.Readconf.Options.Defaults.{IsFlag, IsComplete, IsFreed}
use stonesh.Readconf.Options.Extends.{set_flag-same}
use stonesh.Stonesh.{command_line, World, Request, execute, parse_request, wanted_host, args_list}
use stonesh.Stonesh.Entering.{after-eq, Enters, command, with_options-Enters}
use stonesh.Stonesh.Startup.{
  Environment, Chosen, nothing_chosen, parse_switches, client_address, config_name, log_option,
  with_config, start, world_of, with_switches, with_name, main,
}
use stonesh.Hosts.{HostEntry}
use stonesh.Readconf.File.{read_config_file}
use stonesh.Readconf.File.Outcome.{read_config_file-outcome}

-- The options and the request, and who is let in.
abbrev pub Serves : World → Options → HostEntry → Option Bytes → List (Option Bytes) → Type 0
Serves w o he cval argv =
    (r : Request) × (wanted : Bytes) × (parse_request cval o.proxy_keyword ≡ ok r)
    × (wanted_host r.host w.stdin ≡ some wanted)
    × Enters w o r he wanted argv

accepted_options :
    (w : World) (filename : Bytes) (o o' : Options) (v : ℤ)
    → read_config_file w.files filename o ≡ ok (o', v)
    → int_eq v (pos 0) ≡ false
    → (v ≡ pos 1) × IsComplete o'
accepted_options w filename o o' v read nonzero = by_outcome (
    subst (Safe (λ r. ((r.1 ≡ pos 1) × IsComplete r.0) ⊎ ((r.1 ≡ pos 0) × IsFreed r.0))) read
      (read_config_file-outcome w.files filename o))
  where
    by_outcome :
        ((v ≡ pos 1) × IsComplete o') ⊎ ((v ≡ pos 0) × IsFreed o') → (v ≡ pos 1) × IsComplete o'
    by_outcome (inl h) = h
    by_outcome (inr (z, f)) = absurd (let t = (int_eq_iff v (pos 0)).1 z in cc)

log_flag :
    (o : Options)
    → ((f : Flag) → IsFlag (get_flag f o))
    → (f : Flag) → IsFlag (get_flag f (log_option true o))
log_flag o h Flag.log_to_stderr = inr refl
log_flag o h Flag.debug = h Flag.debug
log_flag o h f = h f

log_option-IsComplete : (b : Bool) (o : Options) → IsComplete o → IsComplete (log_option b o)
log_option-IsComplete false o c = c
log_option-IsComplete true o c = record {
  flags = log_flag o c.flags;
  strings = λ t u b.
      let (s, e) = c.strings t u b in (s, (set_flag-same Flag.log_to_stderr (pos 1) o).0 t ∙ e);
  auth_type_known = c.auth_type_known;
  method = c.method;
  no_host = c.no_host;
}

-- What stands behind a command: the name and the address, the options of the command line, the
-- configuration, and who is let in.
pub record Executes (env : Environment) (o : Options) (he : HostEntry) (argv : List (Option Bytes))
    : Type 0 where
  pub name : Bytes
  pub rhost : Option Bytes
  pub chosen : Chosen
  pub config : Options
  pub named : env.passwd ≡ some name
  pub addressed : client_address env.ssh_client ≡ ok rhost
  pub chose : parse_switches env.switches nothing_chosen ≡ some chosen
  pub accepted : read_config_file env.files (config_name chosen.config) o ≡ ok (config, pos 1)
  pub complete : IsComplete config
  pub executes :
      Serves (world_of env name rhost) (log_option chosen.log_to_stderr config) he chosen.cval argv

-- Behind the reading of the file.
with_config-executes :
    (w : World) (args : List Bytes) (c : Chosen) (he : HostEntry) (filename : Bytes)
    (o o' : Options) (v : ℤ) (argv : List (Option Bytes))
    → read_config_file w.files filename o ≡ ok (o', v)
    → with_config w args c he (o', v) ≡ some (ok (execute argv))
    → (v ≡ pos 1) × IsComplete o' × Serves w (log_option c.log_to_stderr o') he c.cval argv
unfolding with_config
with_config-executes w args c he filename o o' v argv read h =
    elim (Bool-cases (int_eq v (pos 0))) [
      | inl z ↦ absurd (let h' = rw z at h in cc)
      | inr nz ↦
          let (one, complete) = accepted_options w filename o o' v read nz in
          let (text, logged, rest) =
            after-eq (command_line (map some args)) _ (execute argv) (rw nz at h) in
          (
            one,
            complete,
            with_options-Enters w (log_option c.log_to_stderr o') he c.cval argv
                (log_option-IsComplete c.log_to_stderr o' complete) rest,
          )
    ]

-- If the program executes a command, then the user has a name, the options of the command line ask for
-- no help and no version, the configuration file is accepted, with options that are complete, and
-- on these options the request is read, it names a host or the prompt does, that host has an entry
-- in the hosts file, `auth_user` answers success for the user and the host, the client's country
-- is not refused, and the command is that for the entry of the host.
pub main-Executes :
    (env : Environment) (o : Options) (he : HostEntry) (argv : List (Option Bytes))
    → main env o he ≡ some (ok (execute argv))
    → Executes env o he argv
unfolding main with_name with_switches start
main-Executes env o he argv h = by_name env.passwd refl h
  where
    by_chosen :
        (name : Bytes) (rhost : Option Bytes) (m : Option Chosen)
        → env.passwd ≡ some name
        → client_address env.ssh_client ≡ ok rhost
        → parse_switches env.switches nothing_chosen ≡ m
        → with_switches env name rhost o he m ≡ some (ok (execute argv))
        → Executes env o he argv
    by_chosen name rhost none n a e g = absurd cc
    by_chosen name rhost (some c) n a e g =
        let w = world_of env name rhost in
        let ((o', v), read, rest) =
          after-eq (read_config_file env.files (config_name c.config) o) _ (execute argv) g in
        let (one, complete, done) =
          with_config-executes w env.argv c he (config_name c.config) o o' v argv read rest in
        record {
          name = name;
          rhost = rhost;
          chosen = c;
          config = o';
          named = n;
          addressed = a;
          chose = e;
          accepted = read ∙ ap (λ (x : ℤ). ok (o', x)) one;
          complete = complete;
          executes = done;
        }

    by_name :
        (m : Option Bytes)
        → env.passwd ≡ m
        → with_name env o he m ≡ some (ok (execute argv))
        → Executes env o he argv
    by_name none e g = absurd cc
    by_name (some name) e g =
        let (rhost, a, rest) = after-eq (client_address env.ssh_client) _ (execute argv) g in
        by_chosen name rhost (parse_switches env.switches nothing_chosen) e a refl rest

length-args_list : (args : Option Bytes) → length (args_list args) ≤ 1
length-args_list none = omega arith
length-args_list (some args) = omega arith

length-command :
    (o : Options) (r : Request) (host port : Option Bytes) → length (command o r host port) ≤ 7
length-command o r host port = elim (Bool-cases r.proxy) [
  | inl e ↦ rw e (omega arith)
  | inr e ↦ rw e (omega (arith, length-args_list r.args))
]

-- What the program executes, with the NULL behind it, fits into the 12 places of `newargv`.
pub main-fits :
    (env : Environment) (o : Options) (he : HostEntry) (argv : List (Option Bytes))
    → main env o he ≡ some (ok (execute argv))
    → length argv + 1 ≤ 12
main-fits env o he argv h =
    let launches = main-Executes env o he argv h in
    let (r, wanted, parsed, named, enters) = launches.executes in
    let same = ap (λ (x : List (Option Bytes)). length x) enters.argv_same in
    omega (
      arith,
      same,
      length-command (log_option launches.chosen.log_to_stderr launches.config) r enters.answer.host
          enters.entry.port,
    )
