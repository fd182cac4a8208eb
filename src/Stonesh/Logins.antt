-- ===== src/Stonesh/Logins.antt =====
-- An interactive login, as a request to the program of stonesh.c on tables.
use stonesh.Geoip.{Net}
use stonesh.Stonesh.Country.{no_countries}
use stonesh.Stonesh.Meant.{PassesCountry, setting_meant, IsLetIn, command_meant}
use stonesh.Prelude.{
  sym, true, false, List, [], map, Option, none, some, pos, ok, ◌≡◌, ◌≢◌, refl, ap, ◌∙◌, Bytes, All,
  Any, ◌↔◌, codes, ◌∷◌, inl, inr,
}
use stonesh.AuthLocal.Table.{User, user_row, IsUser, UserAllows}
use stonesh.Hosts.{HostEntry}
use stonesh.Hosts.Table.{Host, row_of, countries_of, IsHost, find, port_of}
use stonesh.Libc.Rows.{text_of}
use stonesh.Readconf.Options.{Options, auth_type_local, Flag, Setting}
use stonesh.Stonesh.{
  execute, exit_with, exit_success, short_name, parse_request, wanted_host, Request, access_mode,
}
use stonesh.Readconf.Directives.{Directive, directive_row, IsDirective, flag_value_of}
use stonesh.Readconf.Directives.Refines.{flag_meant, method_meant}
use stonesh.Stonesh.Startup.{
  Environment, Chosen, nothing_chosen, parse_switches, client_address, config_name, main,
}
use stonesh.Util.{trim}
use stonesh.Auth.{auth_bastion}
use stonesh.Stonesh.Tables.{main-request}

-- The request of an interactive login.
abbrev pub login : Request
login = record { host = none; args = none; proxy = false; cval = none }

abbrev pub login_command : Bytes → Host → List (Option Bytes)
login_command ssh h =
    some ssh
    ∷ some (codes "-p")
    ∷ some (port_of h.details)
    ∷ some (codes "-q")
    ∷ some h.name
    ∷ some (codes "--")
    ∷ []

no_request : (keyword : Option Bytes) → parse_request none keyword ≡ ok login
unfolding parse_request
no_request keyword = refl

bastion : (host : Bytes) → access_mode none host ≡ auth_bastion
unfolding access_mode
bastion host = refl

login-IsLetIn :
    (ds : List Directive) (users : List User) (name host : Bytes) (h : Host)
    → IsLetIn ds users name h (access_mode none host)
      ↔ Any (UserAllows (trim name) h.name (pos 0)) users
unfolding access_mode
login-IsLetIn ds users name host h = ((λ (a, u). u), λ u. ((λ (e, m). cc), u))

login-PassesCountry :
    (net : Net) (o : Options) (ds : List Directive) (rhost : Option Bytes) (h : Host)
    → countries_of h.details ≡ []
    → PassesCountry net o ds rhost h
login-PassesCountry net o ds rhost h e =
    rw e (λ z. let t = sym (no_countries net _ rhost) ∙ z in cc)

login-command_meant :
    (ds : List Directive) (h : Host) (ssh : Bytes)
    → setting_meant Setting.ssh_path ds ≡ some ssh
    → command_meant ds login h ≡ login_command ssh h
login-command_meant ds h ssh e = rw e

-- An interactive login on tables. The configuration file, the hosts file and the users file list
-- directives, hosts and users, row by row; the directives neither disable the authorization nor
-- use LDAP. The program is called from a terminal, with at least its own name as an argument, with
-- SSH_CLIENT set, by a user who has a name, and asked for no help, no version and no command, and
-- the host that is typed, shortened as the directives say, is one of the hosts, with no countries.
-- Then the program executes ssh, by the path and for the port that the tables give, if a user of
-- the users file has a name that starts with that of the user and a first host that starts with the
-- host, both but for case, and otherwise it ends with success.
pub main-login :
    (env : Environment) (o : Options) (he : HostEntry) (name wanted host : Bytes)
    (rhost : Option Bytes) (chosen : Chosen) (ds : List Directive) (hosts : List Host)
    (users : List User) (h : Host) (hosts_file users_file ssh : Bytes)
    → env.passwd ≡ some name
    → client_address env.ssh_client ≡ ok rhost
    → parse_switches env.switches nothing_chosen ≡ some chosen
    → chosen.cval ≡ none
    → env.argv ≢ []
    → env.isatty ≡ true
    → env.files (config_name chosen.config) ≡ some (text_of (map directive_row ds))
    → All IsDirective ds
    → method_meant (flag_value_of Flag.disable_authorization ds) (flag_value_of Flag.use_ldap ds)
      ≡ auth_type_local
    → setting_meant Setting.ssh_path ds ≡ some ssh
    → setting_meant Setting.hosts_file ds ≡ some hosts_file
    → env.files hosts_file ≡ some (text_of (map row_of hosts))
    → All IsHost hosts
    → setting_meant Setting.users_file ds ≡ some users_file
    → env.files users_file ≡ some (text_of (map user_row users))
    → All IsUser users
    → wanted_host none env.stdin ≡ some wanted
    → short_name (flag_meant (flag_value_of Flag.allowfqdn ds)) wanted ≡ ok host
    → find host hosts ≡ some h
    → countries_of h.details ≡ []
    → (Any (UserAllows (trim name) h.name (pos 0)) users
        → main env o he ≡ some (ok (execute (login_command ssh h))))
      × (¬ Any (UserAllows (trim name) h.name (pos 0)) users
          → main env o he ≡ some (ok (exit_with exit_success)))
main-login env o he name wanted host rhost chosen ds hosts users h hosts_file users_file ssh named
      addressed chose no_command called terminal config_opened are_directives local ssh_named
      hosts_named hosts_opened are_hosts users_named users_opened are_users asked_for short listed
      open_to_all =
    let parsed =
      ap (λ v. parse_request v (setting_meant Setting.proxy_keyword ds)) no_command
      ∙ no_request (setting_meant Setting.proxy_keyword ds) in
    let (enters, refuses) =
      main-request env o he name wanted host rhost chosen login ds hosts users h hosts_file
        users_file named addressed chose called config_opened are_directives local hosts_named
        hosts_opened are_hosts users_named users_opened are_users parsed asked_for short listed
        (inr (inl terminal)) in
    let passes : PassesCountry env.net o ds rhost h =
      login-PassesCountry env.net o ds rhost h open_to_all in
    let let_in = login-IsLetIn ds users name host h in
    (
      λ allowed.
          enters (let_in.1 allowed, passes)
          ∙ ap (λ a. some (ok (execute a))) (login-command_meant ds h ssh ssh_named),
      λ refused. refuses (λ (a, p). refused (let_in.0 a)),
    )
