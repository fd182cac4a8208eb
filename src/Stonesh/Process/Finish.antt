-- ===== src/Stonesh/Process/Finish.antt =====
-- stonesh.c from `execvp` on, which is a parameter: it does not return where the command is executed, and
-- otherwise the error has a text.
use stonesh.Log.{Log, error}
use stonesh.Prelude.{
  sym, ap, ◌∙◌, ◌↔◌, refl, ℤ, true, [], ◌∷◌, List, Option, none, some, Run, ok, fault, ◌≡◌, Bytes,
  codes,
}
use stonesh.Readconf.Options.Defaults.{IsFreed, free-IsFreed}
use stonesh.Stonesh.{Outcome, execute, exit_with, exit_failure}
use stonesh.Stonesh.Process.{Process, say, clean_exit}
use stonesh.Stonesh.Process.Audit.{Audited, process_main-Audited, process_main-Frees}
use stonesh.Stonesh.Process.Ends.{EndsWith}
use stonesh.Stonesh.Process.Launch.{Package, process_main}
use stonesh.Stonesh.Process.Trail.{Frees, Reported, failed}
use stonesh.Stonesh.Process.Erases.{erase}
use stonesh.Stonesh.Process.Starts.{process_main-outcome}
use stonesh.Stonesh.Startup.{main, Environment, Chosen, nothing_chosen, parse_switches}

-- The text of the error of `execvp` for a command that cannot be executed.
abbrev pub Execvp : Type 0
Execvp = List (Option Bytes) → Option Bytes

unfoldable pub execvp_failed : Bytes → Process → Outcome × Process
execvp_failed strerror p =
    clean_exit true exit_failure
      (say (error (codes "(%s) Unable to execute command: %s") (p.pw_name ∷ strerror ∷ [])) p)

-- On what `execvp` answers for the command.
unfoldable pub after_execvp : List (Option Bytes) → Process → Option Bytes → Outcome × Process
after_execvp argv p none = (execute argv, p)
after_execvp argv p (some strerror) = execvp_failed strerror p

unfoldable pub end_process : Execvp → Outcome × Process → Outcome × Process
end_process execvp (execute argv, p) = after_execvp argv p (execvp argv)
end_process execvp (exit_with status, p) = (exit_with status, p)

abbrev finish_run : Execvp → Option (Run (Outcome × Process)) → Option (Run (Outcome × Process))
finish_run execvp none = none
finish_run execvp (some fault) = some fault
finish_run execvp (some (ok r)) = some (ok (end_process execvp r))

-- The whole of `main`.
unfoldable pub run_main :
    Execvp → Package → Environment → Process → Option (Run (Outcome × Process))
run_main execvp n env p = finish_run execvp (process_main n env p)

-- Either another program has taken over, behind the message that has its text, or the program returns,
-- with success only behind the message on a refusal, and leaves no string in the options.
abbrev pub IsFinished : Execvp → Outcome × Process → Type 0
IsFinished execvp (execute argv, p) = (execvp argv ≡ none) × Reported (execute argv) p
IsFinished execvp (exit_with status, p) = IsFreed p.options × Reported (exit_with status) p

end_process-IsFinished :
    (execvp : Execvp) (r : Outcome × Process)
    → Reported r.0 r.1
    → Frees r.0 r.1
    → IsFinished execvp (end_process execvp r)
unfolding end_process
end_process-IsFinished execvp (exit_with status, p) said h = (h, said)
end_process-IsFinished execvp (execute argv, p) said h = by_answer (execvp argv) refl
  where
    by_answer :
        (answer : Option Bytes)
        → execvp argv ≡ answer
        → IsFinished execvp (after_execvp argv p answer)
    by_answer none e = unfold after_execvp in (e, said)
    by_answer (some strerror) e =
        unfold after_execvp in
        unfold execvp_failed in unfold clean_exit in ((free-IsFreed p.options).0, λ s. failed s)

-- If the user has a name and the command line asks for no help and no version, then the program ends, if
-- it ends and does not fault, in one of two ways. Either `execvp` has executed a command, and the last message that syslog has got names it, or
-- the program returns, also where `execvp` has failed: it then leaves no string in the options, and if it returns
-- EXIT_SUCCESS, that message tells of a refusal. Messages are cut to 1023 bytes.
pub run_main-IsFinished :
    (execvp : Execvp) (n : Package) (env : Environment) (p : Process) (name : Bytes)
    (chosen : Chosen)
    → env.passwd ≡ some name
    → parse_switches env.switches nothing_chosen ≡ some chosen
    → EndsWith (IsFinished execvp) (run_main execvp n env p)
unfolding run_main
run_main-IsFinished execvp n env p name chosen has_name chose =
    finished _ _ (process_main n env p) (process_main-Audited n env p name has_name)
      (process_main-Frees n env p name chosen has_name chose)
  where
    finished :
        (log : Log) (sink : ℤ) (m : Option (Run (Outcome × Process)))
        → EndsWith (Audited log sink) m
        → EndsWith (λ r. Frees r.0 r.1) m
        → EndsWith (IsFinished execvp) (finish_run execvp m)
    finished log sink none a h = tt
    finished log sink (some fault) a h = tt
    finished log sink (some (ok r)) a h = end_process-IsFinished execvp r a.reported h

run_executes :
    (execvp : Execvp) (m : Option (Run (Outcome × Process))) (argv : List (Option Bytes))
    → ((q : Process) × (finish_run execvp m ≡ some (ok (execute argv, q))))
      ↔ ((erase m ≡ some (ok (execute argv))) × (execvp argv ≡ none))
run_executes execvp none argv = (λ (q, e). absurd cc, λ h. absurd cc)
run_executes execvp (some fault) argv = (λ (q, e). absurd cc, λ h. absurd cc)
run_executes execvp (some (ok (exit_with status, p))) argv =
    unfold end_process in (λ (q, e). absurd cc, λ h. absurd cc)
run_executes execvp (some (ok (execute argv', p))) argv =
    unfold end_process in by_answer (execvp argv') refl
  where
    by_answer :
        (answer : Option Bytes)
        → execvp argv' ≡ answer
        → ((q : Process) × (some (ok (after_execvp argv' p answer)) ≡ some (ok (execute argv, q))))
          ↔ ((some (ok (execute argv')) ≡ some (ok (execute argv))) × (execvp argv ≡ none))
    by_answer none e =
        unfold after_execvp in
        (
          λ (q, same).
              let a : argv' ≡ argv = cc in
              (ap (λ x. some (ok (execute x))) a, ap execvp (sym a) ∙ e),
          λ (same, works). let a : argv' ≡ argv = cc in (p, ap (λ x. some (ok (execute x, p))) a),
        )
    by_answer (some strerror) e =
        unfold after_execvp in
        unfold execvp_failed in
        unfold clean_exit in
        (
          λ (q, same). absurd cc,
          λ (same, works).
              let a : argv' ≡ argv = cc in absurd (let t = sym (ap execvp a ∙ works) ∙ e in cc),
        )

-- The program executes a command exactly if `main` without messages comes to that command, and `execvp` can
-- execute it.
pub run_main-executes_iff :
    (execvp : Execvp) (n : Package) (env : Environment) (p : Process) (argv : List (Option Bytes))
    → ((q : Process) × (run_main execvp n env p ≡ some (ok (execute argv, q))))
      ↔ ((main env p.options p.hostent ≡ some (ok (execute argv))) × (execvp argv ≡ none))
unfolding run_main
run_main-executes_iff execvp n env p argv =
    rw (sym (process_main-outcome n env p)) (run_executes execvp (process_main n env p) argv)
