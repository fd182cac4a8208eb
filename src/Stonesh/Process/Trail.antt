-- ===== src/Stonesh/Process/Trail.antt =====
-- What stonesh.c leaves behind: the last message, the log and the options, from the request on.
use stonesh.Libc.{format_from, format}
use stonesh.Log.{Log, notice}
use stonesh.Log.Messages.{log_levels}
use stonesh.Prelude.{
  Bool, true, false, not, ◌&&◌, List, [], ◌∷◌, ◌++◌, Option, ℤ, pos, int_eq, Run, ok, fault, ◌>>=◌,
  Safe, ◌≡◌, inl, inr, refl, ap, Bytes, codes, take, Bool-cases,
}
use stonesh.Readconf.Options.Defaults.{IsFreed, free-IsFreed}
use stonesh.Stonesh.{
  Request, Outcome, execute, exit_with, exit_success, exit_failure, is_null, command_line,
}
use stonesh.Stonesh.Process.{Process, say, clean_exit, refuse, admit, no_terminal}
use stonesh.Stonesh.Process.Follows.{
  Follows, Follows-trans, notice-Follows, refuse-Follows, admit-Follows, no_terminal-Follows,
}
use stonesh.Stonesh.Process.Serve.{launch, conclude}

-- The last message that syslog was given, cut to 1023 bytes.
abbrev pub LastLine : Process → Bytes → Type 0
LastLine p text = (before : List Bytes) × (p.log.syslog ≡ before ++ take 1023 text ∷ [])

abbrev pub executing : Bytes → Bytes → Bytes
executing name text = codes "notice: (" ++ (name ++ (codes ") executing '" ++ (text ++ codes "'")))

abbrev pub refusing : Bool → Bytes → Bytes → Bytes
refusing false name host =
    codes "error: ("
    ++ (name ++ (codes ") not authorized to access host '" ++ (host ++ codes "', exiting")))
refusing true name host =
    codes "error: ("
    ++ (name
        ++ (codes ") not authorized for proxy access to host '" ++ (host ++ codes "', exiting")))

-- A command is executed behind the message that has its text, and the program ends with success only
-- behind the message on a refusal.
abbrev pub Reported : Outcome → Process → Type 0
Reported (execute argv) p =
    (name : Bytes) × (text : Bytes) × (command_line argv ≡ ok text)
    × LastLine p (executing name text)
Reported (exit_with status) p =
    status ≡ exit_success
    → (proxy : Bool) × (name : Bytes) × (host : Bytes) × LastLine p (refusing proxy name host)

abbrev pub Frees : Outcome → Process → Type 0
Frees (execute argv) p = Unit
Frees (exit_with status) p = IsFreed p.options

pub record Ends (p : Process) (r : Outcome × Process) : Type 0 where
  pub reported : Reported r.0 r.1
  pub follows : Follows p r.1
  pub frees : Frees r.0 r.1

pub Ends-after : {p q : Process} (r : Outcome × Process) → Follows p q → Ends q r → Ends p r
Ends-after r f e = record {
  reported = e.reported;
  follows = Follows-trans f e.follows;
  frees = e.frees;
}

pub Safe-after :
    {p q : Process} (m : Run (Outcome × Process)) → Follows p q → Safe (Ends q) m → Safe (Ends p) m
Safe-after fault f h = tt
Safe-after (ok r) f h = Ends-after r f h

notice_line :
    (name text : Bytes) (p : Process)
    → LastLine
        (say (notice (codes "(%s) executing '%s'") (name ∷ text ∷ [])) p)
        (executing name text)
unfolding format format_from
notice_line name text p = (
  p.log.syslog,
  ap (λ (l : Log). l.syslog) (log_levels (codes "(%s) executing '%s'") (name ∷ text ∷ []) p.log).0,
)

refuse_line :
    (proxy : Bool) (name host : Bytes) (p : Process)
    → LastLine (refuse proxy name host p) (refusing proxy name host)
unfolding refuse format format_from
refuse_line false name host p = (
  p.log.syslog,
  ap (λ (l : Log). l.syslog)
      (log_levels (codes "(%s) not authorized to access host '%s', exiting") (name ∷ host ∷ [])
        p.log).1,
)
refuse_line true name host p = (
  p.log.syslog,
  ap (λ (l : Log). l.syslog)
      (log_levels (codes "(%s) not authorized for proxy access to host '%s', exiting")
        (name ∷ host ∷ []) p.log).1,
)

launch-Ends :
    (name : Bytes) (argv : List (Option Bytes)) (p : Process) → Safe (Ends p) (launch name argv p)
unfolding launch
launch-Ends name argv p = by_text (command_line argv) refl
  where
    by_text :
        (m : Run Bytes)
        → command_line argv ≡ m
        → Safe (Ends p) (
            m >>= (λ text.
              ok (execute argv, say (notice (codes "(%s) executing '%s'") (name ∷ text ∷ [])) p)))
    by_text fault e = tt
    by_text (ok text) e = record {
      reported = (name, text, e, notice_line name text p);
      follows = notice-Follows _ _ p;
      frees = tt;
    }

-- `clean_exit` leaves the log.
pub exit-Ends :
    (found : Bool) (status : ℤ) (p q : Process)
    → Follows p q
    → (status ≡ exit_success
        → (proxy : Bool) × (name : Bytes) × (host : Bytes) × LastLine q (refusing proxy name host))
    → Ends p (clean_exit found status q)
unfolding clean_exit
exit-Ends found status p q f h = record {
  reported = h;
  follows = record { more = f.more; grown = f.grown; same_sink = f.same_sink };
  frees = (free-IsFreed q.options).0;
}

pub failed : {A : Type 0} → exit_failure ≡ exit_success → A
failed e = absurd cc

pub conclude-Ends :
    (tty : Bool) (r : Request) (name host : Bytes) (auth : ℤ) (p : Process)
    → Safe (Ends p) (conclude tty r name host auth p)
unfolding conclude
conclude-Ends tty r name host auth p = elim (Bool-cases (int_eq auth (pos 0))) [
  | inl e ↦ rw e (
      exit-Ends true exit_success p (refuse r.proxy name host p)
        (refuse-Follows r.proxy name host p)
        (λ s. (r.proxy, name, host, refuse_line r.proxy name host p)))
  | inr e ↦ elim (Bool-cases r.proxy) [
    | inl x ↦ rw (e, x) (Safe-after _ (admit-Follows true name host p) (launch-Ends _ _ _))
    | inr x ↦ elim (Bool-cases (not tty && is_null r.args)) [
      | inl t ↦
          rw (e, x, t)
            (exit-Ends true exit_failure p (no_terminal name (admit false name host p))
              (Follows-trans (admit-Follows false name host p)
                (no_terminal-Follows name (admit false name host p)))
              failed)
      | inr t ↦ rw (e, x, t) (Safe-after _ (admit-Follows false name host p) (launch-Ends _ _ _))
    ]
  ]
]
