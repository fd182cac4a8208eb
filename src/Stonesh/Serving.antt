-- ===== src/Stonesh/Serving.antt =====
-- Whoever may enter a host is served by stonesh.c: the other direction of Stonesh/Entering.
use stonesh.Hosts.{HostEntry}
use stonesh.Prelude.{
  Bool, true, false, not, ◌&&◌, List, Option, none, some, ℤ, pos, int_eq, int_eq_iff, ok, ◌≡◌, ◌≢◌,
  ◌⊎◌, inl, inr, refl, sym, ap, ◌∙◌, subst, Bytes, Bool-cases, ◌∷◌,
}
use stonesh.Readconf.Options.{Options}
use stonesh.Stonesh.{
  World, Request, execute, parse_request, wanted_host, check_country, is_null, run_command,
  with_entry, enter_host, serve, with_options, logged,
}
use stonesh.Stonesh.Lines.{command_line-fits}
use stonesh.Stonesh.Entering.{Enters, command}

-- A request for `ssh` needs a terminal or a command to run.
abbrev pub CanRun : World → Request → Type 0
CanRun w r = (r.proxy ≡ true) ⊎ (w.isatty ≡ true) ⊎ (r.args ≢ none)

no_terminal_test :
    (tty : Bool) (args : Option Bytes)
    → (tty ≡ true) ⊎ (args ≢ none)
    → (not tty && is_null args) ≡ false
no_terminal_test true args h = refl
no_terminal_test false (some a) h = refl
no_terminal_test false none (inl e) = absurd cc
no_terminal_test false none (inr n) = absurd (n refl)

pub run_command-runs :
    (w : World) (o : Options) (r : Request) (host port : Option Bytes) (auth : ℤ)
    → auth ≢ pos 0
    → CanRun w r
    → run_command w o r host port auth ≡ execute (command o r host port)
unfolding run_command
run_command-runs w o r host port auth nz can = elim (Bool-cases (int_eq auth (pos 0))) [
  | inl e ↦ absurd (nz ((int_eq_iff auth (pos 0)).0 e))
  | inr e ↦ elim (Bool-cases r.proxy) [
    | inl p ↦ rw (e, p)
    | inr p ↦ let t = no_terminal_test w.isatty r.args (rest p can) in rw (e, p, t)
  ]
]
  where
    rest : r.proxy ≡ false → CanRun w r → (w.isatty ≡ true) ⊎ (r.args ≢ none)
    rest p (inl q) = absurd cc
    rest p (inr h) = h

-- The paths of the programs, which every configuration has.
abbrev pub HasPrograms : Options → Type 0
HasPrograms o = ((nc : Bytes) × (o.nc_path ≡ some nc)) × ((ssh : Bytes) × (o.ssh_path ≡ some ssh))

first_arg-logged :
    (program : Option Bytes) (args : List (Option Bytes))
    → (path : Bytes) × (program ≡ some path)
    → logged (execute (program ∷ args)) ≡ ok (execute (program ∷ args))
unfolding logged
first_arg-logged (some p) args h = rw (command_line-fits p args)
first_arg-logged none args (path, e) = absurd cc

pub command-logged :
    (o : Options) (r : Request) (host port : Option Bytes)
    → HasPrograms o
    → logged (execute (command o r host port)) ≡ ok (execute (command o r host port))
command-logged o r host port (nc, ssh) = elim (Bool-cases r.proxy) [
  | inl e ↦ rw e (first_arg-logged o.nc_path _ nc)
  | inr e ↦ rw e (first_arg-logged o.ssh_path _ ssh)
]

enter_host-runs :
    (w : World) (o : Options) (r : Request) (he : HostEntry) (wanted : Bytes)
    (argv : List (Option Bytes))
    → HasPrograms o
    → Enters w o r he wanted argv
    → CanRun w r
    → enter_host w o r he wanted ≡ ok (execute argv)
unfolding enter_host with_entry
enter_host-runs w o r he wanted argv programs e can =
    let through =
      subst (λ v. check_country w.net o e.entry.countries w.rhost v ≢ pos 0) (sym e.let_in)
        e.country in
    rw e.shortened (
      rw e.listed (
        rw e.asked (
          ap logged (run_command-runs w o r e.answer.host e.entry.port _ through can)
          ∙ command-logged o r e.answer.host e.entry.port programs
          ∙ ap (λ a. ok (execute a)) (sym e.argv_same))))

-- With paths for its programs, the program executes the command for the host for whoever asks for it,
-- or names it to the prompt, and may enter it, if there is a terminal or a command to run or the
-- request is for proxy access.
pub with_options-runs :
    (w : World) (o : Options) (he : HostEntry) (cval : Option Bytes) (r : Request) (wanted : Bytes)
    (argv : List (Option Bytes))
    → HasPrograms o
    → parse_request cval o.proxy_keyword ≡ ok r
    → wanted_host r.host w.stdin ≡ some wanted
    → Enters w o r he wanted argv
    → CanRun w r
    → with_options w o he cval ≡ some (ok (execute argv))
unfolding with_options serve
with_options-runs w o he cval r wanted argv programs parsed named e can =
    rw (parsed, with_options)
      (rw (named, serve) (ap some (enter_host-runs w o r he wanted argv programs e can)))
