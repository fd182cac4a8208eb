-- ===== src/Stonesh/Process/Ends.antt =====
-- What stonesh.c leaves behind, on every way through `main`.
use stonesh.Auth.{auth_user}
use stonesh.Libc.{c_str, read_lines}
use stonesh.Prelude.{
  Bool, true, false, List, [], ◌∷◌, Option, none, some, ℤ, Run, ok, fault, ◌>>=◌, Safe, refl, Bytes,
  codes,
}
use stonesh.Stonesh.{
  World, Request, Outcome, exit_failure, host_room, without_last, parse_request, short_name,
  access_mode, check_country,
}
use stonesh.Stonesh.Process.{Process, with_pw_name, shown, prompt}
use stonesh.Stonesh.Process.Follows.{
  Follows, Follows-refl, Follows-trans, error-Follows, debug-Follows, report_country-Follows,
  prompt-Follows,
}
use stonesh.Stonesh.Process.Serve.{
  authorized, look_up, with_host, ask_for, shorten, prompt_lines, find_host, attend, then_run,
  with_process,
}
use stonesh.Stonesh.Process.Trail.{Ends, Safe-after, exit-Ends, failed, conclude-Ends}

pub Safe-bind {ℓ κ} :
    {A : Type ℓ} {B : Type κ} (Q : B → Type κ) (m : Run A) (f : A → Run B)
    → ((a : A) → Safe Q (f a))
    → Safe Q (m >>= f)
Safe-bind Q fault f h = tt
Safe-bind Q (ok a) f h = h a

-- If there is an end, and no fault.
abbrev pub EndsWith {ℓ} : (Outcome × Process → Type ℓ) → Option (Run (Outcome × Process)) → Type ℓ
EndsWith P none = Unit
EndsWith P (some m) = Safe P m

pub EndsWith-then_run {ℓ κ} :
    {A : Type ℓ} (P : Outcome × Process → Type κ) (m : Run A)
    (f : A → Option (Run (Outcome × Process)))
    → ((a : A) → EndsWith P (f a))
    → EndsWith P (then_run m f)
EndsWith-then_run P fault f h = tt
EndsWith-then_run P (ok a) f h = h a

pub EndsWith-after :
    {p q : Process} (m : Option (Run (Outcome × Process)))
    → Follows p q
    → EndsWith (Ends q) m
    → EndsWith (Ends p) m
EndsWith-after none f h = tt
EndsWith-after (some m) f h = Safe-after m f h

authorized-Ends :
    (w : World) (r : Request) (host : Bytes) (user host' : Option Bytes) (before : ℤ) (p : Process)
    → Safe (Ends p) (authorized w r host user host' before p)
unfolding authorized
authorized-Ends w r host user host' before p =
    let auth = check_country w.net p.options p.hostent.countries w.rhost before in
    let q = with_pw_name (shown user) (record p { hostent = record p.hostent { host = host' } }) in
    Safe-after _
      (Follows-trans (Follows-refl p q refl)
        (report_country-Follows p.hostent.countries w.rhost (shown user) host before auth q))
      (conclude-Ends w.isatty r (shown user) host auth _)

look_up-Ends :
    (w : World) (r : Request) (host : Bytes) (found : Bool) (p : Process)
    → Safe (Ends p) (look_up w r host found p)
unfolding look_up
look_up-Ends w r host false p = exit-Ends false exit_failure p _ (error-Follows _ _ p) failed
look_up-Ends w r host true p =
    Safe-bind (Ends p)
      (auth_user w.files w.ldap p.options (some w.pw_name) p.hostent.host (access_mode r.cval host))
      _
      (λ answer.
        Safe-after _ (debug-Follows _ _ p)
          (authorized-Ends w r host answer.user answer.host answer.auth _))

ask_for-Ends :
    (w : World) (r : Request) (host : Bytes) (p : Process) → Safe (Ends p) (ask_for w r host p)
unfolding ask_for
ask_for-Ends w r host p =
    let q = with_host host p in
    let f =
      Follows-trans (debug-Follows (codes "host = %s") (host ∷ []) q)
        (debug-Follows (codes "cval = %s") (shown r.cval ∷ []) _) in
    Safe-after _
      (Follows-trans (Follows-refl p q refl)
        (record { more = f.more; grown = f.grown; same_sink = f.same_sink }))
      (look_up-Ends w r host _ _)

shorten-Ends :
    (w : World) (r : Request) (wanted : Bytes) (p : Process) → Safe (Ends p) (shorten w r wanted p)
unfolding shorten
shorten-Ends w r wanted p = Safe-bind (Ends p) (short_name p.options.allowfqdn wanted) _ (λ host.
    Safe-after _ (Follows-refl p (with_host wanted p) refl)
      (ask_for-Ends w r host (with_host wanted p)))

-- What the prompt has said.
abbrev Asked : Process → Option (Bytes × Process) → Type 0
Asked p none = Unit
Asked p (some (host, q)) = Follows p q

Asked-after : {p q : Process} (m : Option (Bytes × Process)) → Follows p q → Asked q m → Asked p m
Asked-after none f h = tt
Asked-after (some (host, r)) f h = Follows-trans f h

prompt_lines-Asked : (lines : List Bytes) (p : Process) → Asked p (prompt_lines lines p)
unfolding prompt_lines
prompt_lines-Asked [] p = tt
prompt_lines-Asked (line ∷ lines) p =
    by_text (prompt_lines-Asked lines (prompt p)) (without_last (c_str line))
  where
    by_text :
        Asked (prompt p) (prompt_lines lines (prompt p))
        → (text : Bytes)
        → Asked p
            (elim text [ [] ↦ prompt_lines lines (prompt p) | c ∷ s ↦ some (c ∷ s, prompt p) ])
    by_text later [] = Asked-after _ (prompt-Follows p) later
    by_text later (c ∷ s) = prompt-Follows p

find_host-Asked :
    (host : Option Bytes) (stdin : Bytes) (p : Process) → Asked p (find_host host stdin p)
unfolding find_host
find_host-Asked (some host) stdin p = Follows-refl p p refl
find_host-Asked none stdin p = prompt_lines-Asked (read_lines host_room stdin) p

attend-Ends : (w : World) (r : Request) (p : Process) → EndsWith (Ends p) (attend w r p)
unfolding attend
attend-Ends w r p = by_host (find_host r.host w.stdin p) (find_host-Asked r.host w.stdin p)
  where
    by_host :
        (m : Option (Bytes × Process))
        → Asked p m
        → EndsWith
            (Ends p)
            (elim m [ none ↦ none | some (wanted, q) ↦ some (shorten w r wanted q) ])
    by_host none a = tt
    by_host (some (wanted, q)) a = Safe-after _ a (shorten-Ends w r wanted q)

pub with_process-Ends :
    (w : World) (cval : Option Bytes) (p : Process) → EndsWith (Ends p) (with_process w cval p)
unfolding with_process
with_process-Ends w cval p =
    EndsWith-then_run (Ends p) (parse_request cval p.options.proxy_keyword) _
      (λ r. attend-Ends w r p)
