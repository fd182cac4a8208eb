-- ===== src/Stonesh/Entering.antt =====
-- Whom stonesh.c lets go on to a host, and with which command.
use stonesh.Auth.{Answer, auth_bastion, auth_success, auth_user}
use stonesh.Auth.Verdict.{IsVerdict, auth_user-IsVerdict}
use stonesh.Hosts.{HostEntry, gethostentry}
use stonesh.Libc.{strncmp}
use stonesh.Libc.Fields.{StartsWith, strncmp-prefix_iff}
use stonesh.Prelude.{
  Bool, true, false, not, ◌&&◌, List, Option, none, some, ℤ, pos, int_eq, int_eq_iff, Run, ok,
  fault, bind-eq-ok, ok_injective, Safe, ◌≡◌, ◌≢◌, ◌↔◌, inl, inr, refl, sym, ap, ◌∙◌, subst, Bytes,
  Bool-cases, length, if◌then◌else◌,
}
use stonesh.Readconf.Options.{Options}
use stonesh.Readconf.Options.Defaults.{IsComplete}
use stonesh.Stonesh.{
  World, Request, Outcome, exit_with, execute, parse_request, wanted_host, short_name, access_mode,
  check_country, nc_command, ssh_command, is_null, run_command, logged, after, command_line,
  with_entry, enter_host, serve, with_options,
}

-- With a value of the option `-c`, bastion access is asked for exactly if the host starts with that
-- value, as `strtok` has left it.
pub access_mode_iff :
    (cval host : Bytes) → (access_mode (some cval) host ≡ auth_bastion) ↔ StartsWith cval host
unfolding access_mode
access_mode_iff cval host = elim (Bool-cases (strncmp cval host (length cval))) [
  | inl e ↦ rw e (λ h. (strncmp-prefix_iff cval host).0 e, λ h. refl)
  | inr e ↦ rw e (λ h. absurd cc, λ h. absurd (let t = (strncmp-prefix_iff cval host).1 h in cc))
]

abbrev pub command : Options → Request → Option Bytes → Option Bytes → List (Option Bytes)
command o r host port = if r.proxy then nc_command o host port else ssh_command o host port r.args

-- The host that is asked for is in the hosts file, the user is let in, and the client's country is
-- not refused; then `argv` is the command for the entry of the host.
pub record Enters (w : World) (o : Options) (r : Request) (he : HostEntry) (wanted : Bytes)
    (argv : List (Option Bytes)) : Type 0 where
  pub host : Bytes
  pub entry : HostEntry
  pub answer : Answer
  pub shortened : short_name o.allowfqdn wanted ≡ ok host
  pub listed : gethostentry w.files (some host) o.hosts_file he ≡ (true, entry)
  pub asked :
      auth_user w.files w.ldap o (some w.pw_name) entry.host (access_mode r.cval host) ≡ ok answer
  pub let_in : answer.auth ≡ auth_success
  pub country : check_country w.net o entry.countries w.rhost auth_success ≢ pos 0
  pub argv_same : argv ≡ command o r answer.host entry.port

executed : (argv argv' : List (Option Bytes)) → execute argv ≡ execute argv' → argv ≡ argv'
executed argv argv' h = cc

run_command-execute :
    (w : World) (o : Options) (r : Request) (host port : Option Bytes) (auth : ℤ)
    (argv : List (Option Bytes))
    → run_command w o r host port auth ≡ execute argv
    → (auth ≢ pos 0) × (argv ≡ command o r host port)
unfolding run_command
run_command-execute w o r host port auth argv h = elim (Bool-cases (int_eq auth (pos 0))) [
  | inl e ↦ absurd (let h' = rw e at h in cc)
  | inr e ↦ (λ z. let t = (int_eq_iff auth (pos 0)).1 z in cc, by_kind (rw e at h))
]
  where
    by_kind :
        (if r.proxy
            then execute (nc_command o host port)
            else if not w.isatty && is_null r.args
            then exit_with (pos 1)
            else execute (ssh_command o host port r.args))
          ≡ execute argv
        → argv ≡ command o r host port
    by_kind g = elim (Bool-cases r.proxy) [
      | inl p ↦ rw p (sym (executed _ _ (rw p at g)))
      | inr p ↦ elim (Bool-cases (not w.isatty && is_null r.args)) [
        | inl n ↦ absurd (let g' = rw (p, n) at g in cc)
        | inr n ↦ rw p (sym (executed _ _ (rw (p, n) at g)))
      ]
    ]

logged-execute :
    (out : Outcome) (argv : List (Option Bytes))
    → logged out ≡ ok (execute argv)
    → out ≡ execute argv
unfolding logged
logged-execute (exit_with status) argv h = ok_injective _ _ h
logged-execute (execute argv') argv h =
    let (text, e, same) = bind-eq-ok (command_line argv') _ h in ok_injective _ _ same

pub after-eq {ℓ} :
    {A : Type ℓ} (m : Run A) (f : A → Option (Run Outcome)) (out : Outcome)
    → after m f ≡ some (ok out)
    → (a : A) × (m ≡ ok a) × (f a ≡ some (ok out))
after-eq fault f out h = absurd cc
after-eq (ok a) f out h = (a, refl, h)

pub refused_stays :
    (w : World) (o : Options) (countries rhost : Option Bytes)
    → check_country w.net o countries rhost (pos 0) ≡ pos 0
unfolding check_country
refused_stays w o none rhost = refl
refused_stays w o (some c) none = refl
refused_stays w o (some c) (some r) = refl

module _ (w : World) (o : Options) (r : Request) (he : HostEntry) (wanted : Bytes)
    (complete : IsComplete o) where
  let_in-Enters :
      (argv : List (Option Bytes)) (host : Bytes) (entry : HostEntry) (answer : Answer)
      → short_name o.allowfqdn wanted ≡ ok host
      → gethostentry w.files (some host) o.hosts_file he ≡ (true, entry)
      → auth_user w.files w.ldap o (some w.pw_name) entry.host (access_mode r.cval host) ≡ ok answer
      → IsVerdict answer.auth
      → run_command w o r answer.host entry.port
          (check_country w.net o entry.countries w.rhost answer.auth)
        ≡ execute argv
      → Enters w o r he wanted argv
  let_in-Enters argv host entry answer short listed asked verdict run =
      let (through, same) = run_command-execute w o r answer.host entry.port _ argv run in
      let granted = success verdict through in
      record {
        host = host;
        entry = entry;
        answer = answer;
        shortened = short;
        listed = listed;
        asked = asked;
        let_in = granted;
        country =
            subst (λ v. check_country w.net o entry.countries w.rhost v ≢ pos 0) granted through;
        argv_same = same;
      }
    where
      success :
          IsVerdict answer.auth
          → check_country w.net o entry.countries w.rhost answer.auth ≢ pos 0
          → answer.auth ≡ auth_success
      success (inr e) t = e
      success (inl e) t = absurd (
          t (
            ap (check_country w.net o entry.countries w.rhost) e
            ∙ refused_stays w o entry.countries w.rhost))

  with_entry-Enters :
      (argv : List (Option Bytes)) (host : Bytes) (found : Bool × HostEntry)
      → short_name o.allowfqdn wanted ≡ ok host
      → gethostentry w.files (some host) o.hosts_file he ≡ found
      → with_entry w o r host found ≡ ok (execute argv)
      → Enters w o r he wanted argv
  unfolding with_entry
  with_entry-Enters argv host (false, entry) short listed h = absurd cc
  with_entry-Enters argv host (true, entry) short listed h =
      let (answer, asked, run) =
        bind-eq-ok
          (auth_user w.files w.ldap o (some w.pw_name) entry.host (access_mode r.cval host)) _ h in
      let verdict = subst (Safe (λ (a : Answer). IsVerdict a.auth)) asked (
        auth_user-IsVerdict w.files w.ldap o (some w.pw_name) entry.host (access_mode r.cval host)
          complete) in
      let_in-Enters argv host entry answer short listed asked verdict (logged-execute _ argv run)

  enter_host-Enters :
      (argv : List (Option Bytes))
      → enter_host w o r he wanted ≡ ok (execute argv)
      → Enters w o r he wanted argv
  unfolding enter_host
  enter_host-Enters argv h =
      let (host, short, rest) = bind-eq-ok (short_name o.allowfqdn wanted) _ h in
      with_entry-Enters argv host (gethostentry w.files (some host) o.hosts_file he) short refl rest

some_injective : (m n : Run Outcome) → some m ≡ some n → m ≡ n
some_injective m n h = cc

serve-Enters :
    (w : World) (o : Options) (he : HostEntry) (r : Request) (argv : List (Option Bytes))
    → IsComplete o
    → serve w o he r ≡ some (ok (execute argv))
    → (wanted : Bytes) × (wanted_host r.host w.stdin ≡ some wanted) × Enters w o r he wanted argv
unfolding serve
serve-Enters w o he r argv complete h = by_host (wanted_host r.host w.stdin) refl h
  where
    by_host :
        (m : Option Bytes)
        → wanted_host r.host w.stdin ≡ m
        → (elim m [ none ↦ none | some wanted ↦ some (enter_host w o r he wanted) ])
          ≡ some (ok (execute argv))
        → (wanted : Bytes) × (wanted_host r.host w.stdin ≡ some wanted)
          × Enters w o r he wanted argv
    by_host none e g = absurd cc
    by_host (some wanted) e g =
        (wanted, e, enter_host-Enters w o r he wanted complete argv (some_injective _ _ g))

-- If the program executes a command on options that are complete, then the request is read, it names a
-- host or the prompt does, that host has an entry in the hosts file, `auth_user` answers
-- success for it, the client's country is not refused, and the command is that for `nc` in a
-- proxy request and that for `ssh` otherwise, with the host and the port of the entry.
pub with_options-Enters :
    (w : World) (o : Options) (he : HostEntry) (cval : Option Bytes) (argv : List (Option Bytes))
    → IsComplete o
    → with_options w o he cval ≡ some (ok (execute argv))
    → (r : Request) × (wanted : Bytes) × (parse_request cval o.proxy_keyword ≡ ok r)
      × (wanted_host r.host w.stdin ≡ some wanted)
      × Enters w o r he wanted argv
unfolding with_options
with_options-Enters w o he cval argv complete h =
    let (r, parsed, rest) = after-eq (parse_request cval o.proxy_keyword) _ (execute argv) h in
    let (wanted, named, enters) = serve-Enters w o he r argv complete rest in
    (r, wanted, parsed, named, enters)
