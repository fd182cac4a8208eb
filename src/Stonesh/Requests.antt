-- ===== src/Stonesh/Requests.antt =====
-- stonesh.c behind the look-up of the host, for the method "local" and a users file that is a table.
use stonesh.Auth.{auth_success, auth_failure, auth_user, by_type}
use stonesh.Auth.Verdict.{IsVerdict}
use stonesh.Stonesh.Entering.{command, refused_stays}
use stonesh.Stonesh.Serving.{CanRun, HasPrograms, run_command-runs, command-logged}
use stonesh.Prelude.{
  pos, Bool-cases, int_eq, int_eq_iff, ◌≢◌, true, List, map, some, ℤ, ok, ◌≡◌, ◌↔◌, inl, inr, refl,
  ap, ◌∙◌, subst, Bytes, All, Any,
}
use stonesh.Auth.Branches.{by_type-local, local_permission, mode_cases, ModeAllowed, permission}
use stonesh.AuthLocal.{LocalAuth, auth_lines, get_auth_file}
use stonesh.AuthLocal.Grants.{get_auth_file-cases}
use stonesh.AuthLocal.Table.{User, user_row, IsUser, UserAllows, get_auth_file-table_iff}
use stonesh.Hosts.{HostEntry}
use stonesh.Hosts.Format.{entry_of}
use stonesh.Hosts.Table.{Host, port_of, countries_of}
use stonesh.Libc.Rows.{text_of}
use stonesh.Readconf.File.{FileSystem}
use stonesh.Readconf.Options.{Options, auth_type_local}
use stonesh.AuthLdap.{Ldap}
use stonesh.Stonesh.{
  World, Request, execute, exit_with, exit_success, check_country, access_mode, run_command, logged,
  with_entry,
}
use stonesh.Util.{trim}
use stonesh.Util.Clean.{IsField, clean_trim, field-IsClean}

file_host :
    (files : FileSystem) (user host file content : Bytes) (proxy : ℤ)
    → files file ≡ some content
    → (get_auth_file files (some user) (some host) (some file) proxy).host ≡ some (trim host)
unfolding get_auth_file auth_lines
file_host files user host file content proxy e = rw e

-- What `auth_user` answers: the name of the host, and success for those whom the table allows.
pub record Judged (o : Options) (mode : ℤ) (user : Bytes) (h : Host) (users : List User)
    (answer : LocalAuth) : Type 0 where
  pub host_kept : answer.host ≡ some h.name
  pub known : IsVerdict answer.auth
  pub allowed_iff :
      (answer.auth ≡ auth_success)
      ↔ (ModeAllowed o mode × Any (UserAllows (trim user) h.name (permission o mode)) users)

module _ (files : FileSystem) (ldap : Ldap) (o : Options) (user : Bytes) (h : Host) (uf : Bytes)
    (users : List User) (mode : ℤ) (field : IsField h.name) (type : o.auth_type ≡ auth_type_local)
    (named : o.users_file ≡ some uf) (opened : files uf ≡ some (text_of (map user_row users)))
    (are_users : All IsUser users) where
  abbrev granted : LocalAuth
  granted = get_auth_file files (some user) (some h.name) (some uf) (permission o mode)

  trimmed : trim h.name ≡ h.name
  trimmed = clean_trim h.name (field-IsClean h.name field.1)

  granted_iff :
      (granted.auth ≡ auth_success) ↔ Any (UserAllows (trim user) h.name (permission o mode)) users
  granted_iff =
      subst
        (λ n.
          (granted.auth ≡ auth_success) ↔ Any (UserAllows (trim user) n (permission o mode)) users)
        trimmed
        (get_auth_file-table_iff files user h.name uf (permission o mode) users are_users opened)

  asked_file : by_type files ldap o (some user) (some h.name) mode ≡ ok granted
  asked_file =
      by_type-local files ldap o (some user) (some h.name) mode type
      ∙ ap ok (local_permission files o (some user) (some h.name) mode)
      ∙ ap (λ f. ok (get_auth_file files (some user) (some h.name) f (permission o mode))) named

  granted-Judged : ModeAllowed o mode → Judged o mode user h users granted
  granted-Judged a = record {
    host_kept = file_host files user h.name uf _ (permission o mode) opened ∙ ap some trimmed;
    known = get_auth_file-cases files (some user) (some h.name) (some uf) (permission o mode);
    allowed_iff = (λ s. (a, granted_iff.0 s), λ (b, u). granted_iff.1 u);
  }

  refused : LocalAuth
  refused = record { auth = auth_failure; user = some user; host = some h.name }

  refused-Judged : ¬ ModeAllowed o mode → Judged o mode user h users refused
  unfolding refused
  refused-Judged n = record {
    host_kept = refl;
    known = inl refl;
    allowed_iff = (λ s. absurd cc, λ (a, u). absurd (n a));
  }

  pub judged :
      (answer : LocalAuth) × (auth_user files ldap o (some user) (some h.name) mode ≡ ok answer)
      × Judged o mode user h users answer
  unfolding auth_user refused
  judged = elim (mode_cases files ldap o (some user) (some h.name) mode) [
    | inl (a, e) ↦ (granted, rw e asked_file, granted-Judged a)
    | inr (n, e) ↦ (refused, rw e, refused-Judged n)
  ]

-- Behind the look-up of the host, which has the name of a host of the table.
module _ (w : World) (o : Options) (r : Request) (h : Host) (uf : Bytes) (users : List User)
    (host : Bytes) (field : IsField h.name) (type : o.auth_type ≡ auth_type_local)
    (named : o.users_file ≡ some uf) (opened : w.files uf ≡ some (text_of (map user_row users)))
    (are_users : All IsUser users) where
  abbrev entry : HostEntry
  entry = entry_of h.name (port_of h.details) (countries_of h.details)

  abbrev LetIn : Type 0
  LetIn =
      ModeAllowed o (access_mode r.cval host)
      × Any (UserAllows (trim w.pw_name) h.name (permission o (access_mode r.cval host))) users

  abbrev checked : ℤ → ℤ
  checked auth = check_country w.net o (some (countries_of h.details)) w.rhost auth

  entry_step :
      (answer : LocalAuth)
      → auth_user w.files w.ldap o (some w.pw_name) (some h.name) (access_mode r.cval host)
        ≡ ok answer
      → Judged o (access_mode r.cval host) w.pw_name h users answer
      → with_entry w o r host (true, entry)
        ≡ logged (run_command w o r (some h.name) (some (port_of h.details)) (checked answer.auth))
  unfolding with_entry
  entry_step answer asked j = rw (asked, j.host_kept)

  pub with_entry-allowed :
      HasPrograms o
      → CanRun w r
      → LetIn
      → checked auth_success ≢ pos 0
      → with_entry w o r host (true, entry)
        ≡ ok (execute (command o r (some h.name) (some (port_of h.details))))
  with_entry-allowed programs can a passes =
      let (answer, asked, j) =
        judged w.files w.ldap o w.pw_name h uf users (access_mode r.cval host) field type named
          opened are_users in
      let success = ap checked (j.allowed_iff.1 a) in
      entry_step answer asked j
      ∙ ap logged (
          ap (λ v. run_command w o r (some h.name) (some (port_of h.details)) v) success
          ∙ run_command-runs w o r (some h.name) (some (port_of h.details)) (checked auth_success)
              passes can)
      ∙ command-logged o r (some h.name) (some (port_of h.details)) programs

  pub with_entry-refused :
      ¬ (LetIn × (checked auth_success ≢ pos 0))
      → with_entry w o r host (true, entry) ≡ ok (exit_with exit_success)
  unfolding run_command logged
  with_entry-refused n =
      let (answer, asked, j) =
        judged w.files w.ldap o w.pw_name h uf users (access_mode r.cval host) field type named
          opened are_users in
      entry_step answer asked j
      ∙ ap (λ v. logged (run_command w o r (some h.name) (some (port_of h.details)) v))
          (no_way answer.auth j.known (λ s. j.allowed_iff.0 s))
    where
      no_way : (v : ℤ) → IsVerdict v → ((v ≡ auth_success) → LetIn) → checked v ≡ pos 0
      no_way v (inl e) f = ap checked e ∙ refused_stays w o (some (countries_of h.details)) w.rhost
      no_way v (inr e) f = elim (Bool-cases (int_eq (checked auth_success) (pos 0))) [
        | inl z ↦ ap checked e ∙ (int_eq_iff (checked auth_success) (pos 0)).0 z
        | inr nz ↦
            absurd (n (f e, λ z. let t = (int_eq_iff (checked auth_success) (pos 0)).1 z in cc))
      ]
