-- ===== src/Stonesh/Process/Follows.antt =====
-- What the messages of stonesh.c do to the log: it grows, and goes where it went.
use stonesh.Log.{send, do_log, notice, error, fatal, debug}
use stonesh.Prelude.{
  Bool, true, false, List, [], ◌++◌, append_assoc, append-nil, Option, none, some, ℤ, pos, int_eq,
  ◌≡◌, inl, inr, refl, sym, ap, ◌∙◌, Bytes, Bool-cases,
}
use stonesh.Stonesh.Process.{Process, say, refuse, admit, report_country, no_terminal, prompt}

-- Nothing that syslog was given is lost, and `log_to_stderr` stays.
pub record Follows (p q : Process) : Type 0 where
  pub more : List Bytes
  pub grown : q.log.syslog ≡ p.log.syslog ++ more
  pub same_sink : q.log.log_to_stderr ≡ p.log.log_to_stderr

pub Follows-refl : (p q : Process) → q.log ≡ p.log → Follows p q
Follows-refl p q e = record {
  more = [];
  grown = ap (λ l. l.syslog) e ∙ sym (append-nil p.log.syslog);
  same_sink = ap (λ l. l.log_to_stderr) e;
}

pub Follows-trans : {p q r : Process} → Follows p q → Follows q r → Follows p r
Follows-trans {p} {q} {r} f g = record {
  more = f.more ++ g.more;
  grown = g.grown ∙ ap (λ s. s ++ g.more) f.grown ∙ append_assoc p.log.syslog f.more g.more;
  same_sink = g.same_sink ∙ f.same_sink;
}

module _ (fmt : Bytes) (args : List Bytes) (p : Process) where
  pub notice-Follows : Follows p (say (notice fmt args) p)
  unfolding notice do_log send
  notice-Follows = record { more = _; grown = refl; same_sink = refl }

  pub error-Follows : Follows p (say (error fmt args) p)
  unfolding error do_log send
  error-Follows = record { more = _; grown = refl; same_sink = refl }

  pub fatal-Follows : Follows p (say (λ log. (fatal fmt args log).0) p)
  unfolding fatal do_log send
  fatal-Follows = record { more = _; grown = refl; same_sink = refl }

  pub debug-Follows : Follows p (say (debug fmt args) p)
  unfolding debug do_log send
  debug-Follows = elim (Bool-cases (int_eq p.log.debugging (pos 1))) [
    | inl e ↦ rw e (record { more = _; grown = refl; same_sink = refl })
    | inr e ↦ rw e (Follows-refl p p refl)
  ]

pub refuse-Follows :
    (proxy : Bool) (name host : Bytes) (p : Process) → Follows p (refuse proxy name host p)
unfolding refuse
refuse-Follows false name host p = error-Follows _ _ p
refuse-Follows true name host p = error-Follows _ _ p

pub admit-Follows :
    (proxy : Bool) (name host : Bytes) (p : Process) → Follows p (admit proxy name host p)
unfolding admit
admit-Follows false name host p = debug-Follows _ _ p
admit-Follows true name host p = debug-Follows _ _ p

pub report_country-Follows :
    (countries rhost : Option Bytes) (name host : Bytes) (before auth : ℤ) (p : Process)
    → Follows p (report_country countries rhost name host before auth p)
unfolding report_country
report_country-Follows none rhost name host before auth p = Follows-refl p p refl
report_country-Follows (some c) none name host before auth p = Follows-refl p p refl
report_country-Follows (some c) (some r) name host before auth p =
    elim (Bool-cases (int_eq before (pos 0))) [
      | inl e ↦ rw e (Follows-refl p p refl)
      | inr e ↦ elim (Bool-cases (int_eq auth (pos 0))) [
        | inl x ↦ rw (e, x) (error-Follows _ _ p)
        | inr x ↦ rw (e, x) (debug-Follows _ _ p)
      ]
    ]

pub no_terminal-Follows : (name : Bytes) (p : Process) → Follows p (no_terminal name p)
unfolding no_terminal
no_terminal-Follows name p =
    let f = error-Follows _ _ p in
    record { more = f.more; grown = f.grown; same_sink = f.same_sink }

pub prompt-Follows : (p : Process) → Follows p (prompt p)
unfolding prompt
prompt-Follows p =
    let f = debug-Follows _ _ p in
    record { more = f.more; grown = f.grown; same_sink = f.same_sink }
