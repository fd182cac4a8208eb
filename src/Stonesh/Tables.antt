-- ===== src/Stonesh/Tables.antt =====
-- The program of stonesh.c on tables: the configuration, the hosts and the users are given by their
-- specifications.
use stonesh.AuthLocal.Table.{User, user_row, IsUser}
use stonesh.Hosts.{HostEntry, gethostentry}
use stonesh.Hosts.Table.{Host, row_of, IsHost, find, find-IsHost, entry_for, gethostentry-find}
use stonesh.Libc.Rows.{text_of}
use stonesh.Prelude.{
  Bool, List, [], map, Option, some, pos, ok, ◌≡◌, ◌≢◌, ap, ◌∙◌, Bytes, All, sym, subst,
}
use stonesh.Readconf.Options.{Options, auth_type_local, Flag, Setting}
use stonesh.Stonesh.{
  World, execute, exit_with, exit_success, short_name, logged, with_entry, enter_host,
  parse_request, wanted_host, serve, with_options, Request, access_mode,
}
use stonesh.Readconf.Directives.{Directive, directive_row, IsDirective, flag_value_of}
use stonesh.Readconf.Directives.Refines.{flag_meant, method_meant, read_config_file-refines}
use stonesh.Readconf.File.{read_config_file}
use stonesh.Stonesh.Completes.{args_logged}
use stonesh.Stonesh.Startup.{
  Environment, Chosen, nothing_chosen, parse_switches, client_address, config_name, log_option,
  with_config, start, world_of, with_switches, with_name, main,
}
use stonesh.Stonesh.Requests.{with_entry-allowed, with_entry-refused}
use stonesh.Stonesh.Serving.{CanRun}
use stonesh.Stonesh.Meant.{
  setting_meant, Meant, option-setting, option-auth_type, option-flag, IsLetIn, command_meant,
  PassesCountry, checked-meant, IsLetIn-eq, command-meant, meant-HasPrograms,
}

-- `main` up to `with_options`, with a configuration that is accepted.
main-starts :
    (env : Environment) (o : Options) (he : HostEntry) (name : Bytes) (rhost : Option Bytes)
    (chosen : Chosen) (config : Options)
    → env.passwd ≡ some name
    → client_address env.ssh_client ≡ ok rhost
    → parse_switches env.switches nothing_chosen ≡ some chosen
    → env.argv ≢ []
    → read_config_file env.files (config_name chosen.config) o ≡ ok (config, pos 1)
    → main env o he
      ≡ with_options
          (world_of env name rhost)
          (log_option chosen.log_to_stderr config)
          he
          chosen.cval
unfolding main with_name with_switches start with_config
main-starts env o he name rhost chosen config named addressed chose called read =
    let (text, logged) = args_logged env.argv called in rw (named, addressed, chose, read, logged)

-- Behind a request that names a host, or a prompt that does.
request-serves :
    (w : World) (o : Options) (he : HostEntry) (cval : Option Bytes) (r : Request)
    (wanted host : Bytes) (found : Bool × HostEntry)
    → parse_request cval o.proxy_keyword ≡ ok r
    → wanted_host r.host w.stdin ≡ some wanted
    → short_name o.allowfqdn wanted ≡ ok host
    → gethostentry w.files (some host) o.hosts_file he ≡ found
    → with_options w o he cval ≡ some (with_entry w o r host found)
unfolding with_options serve enter_host
request-serves w o he cval r wanted host found parsed asked_for short listed =
    rw parsed (rw (asked_for, serve) (rw (short, enter_host) (rw listed)))

-- A request on tables. The configuration file, the hosts file and the users file list directives,
-- hosts and users, row by row; the directives neither disable the authorization nor use LDAP. The
-- program is called with at least its own name as an argument, with SSH_CLIENT set, by a user who
-- has a name, and asked for no help and no version. The request can be read, and the host that it
-- names, or that is typed, shortened as the directives say, is one of the hosts. There is a
-- terminal or a command to run, or the request is for proxy access. Then, if the directives enable
-- the kind of access that `access_mode` gives, and a user of the users file has a name that starts
-- with that of the user, and a first host that starts with the host and allows the access, all but
-- for case, and the client's country is not refused, the program executes nc or ssh as the tables
-- say; and otherwise it ends with success. Proxy access needs the permission for it, unless the
-- directives disable that.
pub main-request :
    (env : Environment) (o : Options) (he : HostEntry) (name wanted host : Bytes)
    (rhost : Option Bytes) (chosen : Chosen) (r : Request) (ds : List Directive) (hosts : List Host)
    (users : List User) (h : Host) (hosts_file users_file : Bytes)
    → env.passwd ≡ some name
    → client_address env.ssh_client ≡ ok rhost
    → parse_switches env.switches nothing_chosen ≡ some chosen
    → env.argv ≢ []
    → env.files (config_name chosen.config) ≡ some (text_of (map directive_row ds))
    → All IsDirective ds
    → method_meant (flag_value_of Flag.disable_authorization ds) (flag_value_of Flag.use_ldap ds)
      ≡ auth_type_local
    → setting_meant Setting.hosts_file ds ≡ some hosts_file
    → env.files hosts_file ≡ some (text_of (map row_of hosts))
    → All IsHost hosts
    → setting_meant Setting.users_file ds ≡ some users_file
    → env.files users_file ≡ some (text_of (map user_row users))
    → All IsUser users
    → parse_request chosen.cval (setting_meant Setting.proxy_keyword ds) ≡ ok r
    → wanted_host r.host env.stdin ≡ some wanted
    → short_name (flag_meant (flag_value_of Flag.allowfqdn ds)) wanted ≡ ok host
    → find host hosts ≡ some h
    → CanRun (world_of env name rhost) r
    → (IsLetIn ds users name h (access_mode r.cval host) × PassesCountry env.net o ds rhost h
        → main env o he ≡ some (ok (execute (command_meant ds r h))))
      × (¬ (IsLetIn ds users name h (access_mode r.cval host) × PassesCountry env.net o ds rhost h)
          → main env o he ≡ some (ok (exit_with exit_success)))
main-request env o he name wanted host rhost chosen r ds hosts users h hosts_file users_file named
      addressed chose called config_opened are_directives local hosts_named hosts_opened are_hosts
      users_named users_opened are_users parsed asked_for short listed can =
    let (config, read, flags, strings, method) =
      read_config_file-refines env.files (config_name chosen.config) o ds are_directives
        config_opened in
    let meant : Meant ds config = (flags, strings, method) in
    let w = world_of env name rhost in
    let b = chosen.log_to_stderr in
    let c = log_option b config in
    let type = option-auth_type b config ds meant ∙ local in
    let users_set = option-setting b config ds meant Setting.users_file ∙ users_named in
    let field = (find-IsHost host hosts h are_hosts listed).0 in
    let fqdn =
      ap (λ v. short_name v wanted) (option-flag b config ds meant Flag.allowfqdn (λ e. cc)) in
    let keyword =
      ap (λ v. parse_request chosen.cval v)
        (option-setting b config ds meant Setting.proxy_keyword) in
    let found =
      ap (λ f. gethostentry w.files (some host) f he)
        (option-setting b config ds meant Setting.hosts_file ∙ hosts_named)
      ∙ gethostentry-find w.files host hosts_file he hosts are_hosts hosts_opened
      ∙ ap entry_for listed in
    let served =
      main-starts env o he name rhost chosen config named addressed chose called read
      ∙ request-serves w c he chosen.cval r wanted host _ (keyword ∙ parsed) asked_for
          (fqdn ∙ short) found in
    let same = IsLetIn-eq b config ds meant users name h (access_mode r.cval host) in
    let through = checked-meant b config ds meant env.net o rhost h in
    (
      λ (allowed, passes).
          served
          ∙ ap some (
              with_entry-allowed w c r h users_file users host field type users_set users_opened
                are_users (meant-HasPrograms b config ds meant) can
                (subst (λ t. t) (sym same) allowed) (subst (λ t. t) (sym through) passes)
              ∙ ap (λ a. ok (execute a)) (command-meant b config ds meant r h)),
      λ refused.
          served
          ∙ ap some (
              with_entry-refused w c r h users_file users host field type users_set users_opened
                are_users (λ (a, p). refused (subst (λ t. t) same a, subst (λ t. t) through p))),
    )
