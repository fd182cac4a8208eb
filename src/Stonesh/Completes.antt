-- ===== src/Stonesh/Completes.antt =====
-- The whole program of stonesh.c serves whoever may enter: the other direction of Stonesh/Start.
use stonesh.Hosts.{HostEntry}
use stonesh.Prelude.{Bool, true, false, List, [], ◌∷◌, map, Option, some, ok, ◌≡◌, ◌≢◌, refl, Bytes}
use stonesh.Readconf.Options.{Options, Setting}
use stonesh.Readconf.Options.Defaults.{IsComplete}
use stonesh.Stonesh.{execute, command_line}
use stonesh.Stonesh.Lines.{command_line-fits}
use stonesh.Stonesh.Serving.{CanRun, HasPrograms, with_options-runs}
use stonesh.Stonesh.Start.{Executes}
use stonesh.Stonesh.Startup.{
  Environment, log_option, with_config, start, world_of, with_switches, with_name, main,
}

complete-HasPrograms : (b : Bool) (o : Options) → IsComplete o → HasPrograms (log_option b o)
complete-HasPrograms true o c =
    (c.strings Setting.nc_path (λ h. cc) (λ h. cc), c.strings Setting.ssh_path (λ h. cc) (λ h. cc))
complete-HasPrograms false o c =
    (c.strings Setting.nc_path (λ h. cc) (λ h. cc), c.strings Setting.ssh_path (λ h. cc) (λ h. cc))

pub args_logged :
    (argv : List Bytes) → argv ≢ [] → (text : Bytes) × (command_line (map some argv) ≡ ok text)
args_logged [] ne = absurd (ne refl)
args_logged (arg ∷ argv) ne = (_, command_line-fits arg (map some argv))

-- The program executes the command for the host for every user who has a name and may enter it, whose
-- command line asks for no help and no version, and whose configuration file is accepted, if
-- SSH_CLIENT is set, there is a terminal or a command to run or the request is for proxy access, and
-- the program is called with at least its own name as an argument.
pub main-runs :
    (env : Environment) (o : Options) (he : HostEntry) (argv : List (Option Bytes))
    (e : Executes env o he argv)
    → env.argv ≢ []
    → CanRun (world_of env e.name e.rhost) e.executes.0
    → main env o he ≡ some (ok (execute argv))
unfolding main with_name with_switches start with_config
main-runs env o he argv e ne can =
    let (r, wanted, parsed, named, enters) = e.executes in
    let (text, logged) = args_logged env.argv ne in
    rw e.named (
      rw e.addressed (
        rw e.chose (
          rw e.accepted (
            rw logged (
              with_options-runs (world_of env e.name e.rhost)
                (log_option e.chosen.log_to_stderr e.config) he e.chosen.cval r wanted argv
                (complete-HasPrograms e.chosen.log_to_stderr e.config e.complete) parsed named
                enters can)))))
