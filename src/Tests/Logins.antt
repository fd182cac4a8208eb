-- ===== src/Tests/Logins.antt =====
-- An interactive login and a proxy request on tables.
use stonesh.AuthLocal.Entries.{IsEntry}
use stonesh.AuthLocal.Table.{User, user_row}
use stonesh.Hosts.Table.{Host, at_port, row_of, find}
use stonesh.Libc.Rows.{text_of}
use stonesh.Libc.{read_lines, read_loop, fgets, get_line, c_str, strtok, one_of, is_space, strncmp}
use stonesh.Prelude.{
  true, false, List, [], ◌∷◌, map, none, some, ok, ◌≡◌, ◌≢◌, refl, arith, codes, str_eq, All,
  if◌then◌else◌, inl,
}
use stonesh.Readconf.Directives.{
  Directive, switch, directive_row, IsDirective, flag_value_of, string_value_of,
  flag_value_of-other,
}
use stonesh.Readconf.Directives.Refines.{flag_meant, method_meant}
use stonesh.Readconf.File.{FileSystem}
use stonesh.Readconf.Options.{Flag, Setting, auth_type_local}
use stonesh.Stonesh.{
  execute, exit_with, exit_success, wanted_host, prompt_host, short_name, Request, parse_request,
  proxy_request, is_keyword, access_mode,
}
use stonesh.Stonesh.Meant.{PassesCountry, IsLetIn, command_meant, setting_meant}
use stonesh.Stonesh.Startup.{
  command, Environment, Chosen, config_file, main, parse_switches, client_address, nothing_chosen,
}
use stonesh.Stonesh.Tables.{main-request}
use stonesh.Tests.Samples.{net, one_entry, unset, no_entry}
use stonesh.Util.Clean.{IsField}

abbrev directives : List Directive
directives = switch Flag.enable_proxy true ∷ []

abbrev db : Host
db = record { name = codes "db"; details = at_port (codes "20") }

abbrev al : User
al = record { name = codes "al"; entries = record { name = codes "db"; plus = true } ∷ [] }

abbrev files : FileSystem
files name =
    if str_eq name (codes "c")
    then some (text_of (map directive_row directives))
    else if str_eq name (codes "/etc/stonesh/hosts.lst")
    then some (text_of (map row_of (db ∷ [])))
    else some (text_of (map user_row (al ∷ [])))

abbrev environment : Environment
environment = record {
  files = files;
  ldap = one_entry;
  net = net;
  passwd = some (codes "al");
  ssh_client = some (codes "8.0.0.0 1 2");
  stdin = codes "db\n";
  isatty = true;
  argv = codes "stonesh" ∷ codes "-C" ∷ codes "c" ∷ [];
  switches = config_file (codes "c") ∷ [];
}

abbrev chosen : Chosen
chosen = record { cval = none; config = some (codes "c"); log_to_stderr = false }

addressed : client_address environment.ssh_client ≡ ok (some (codes "8.0.0.0"))
unfolding client_address strtok one_of
addressed = refl

chose : parse_switches environment.switches nothing_chosen ≡ some chosen
unfolding parse_switches
chose = refl

directives_AreDirectives : All IsDirective directives
directives_AreDirectives = (
  (
    tt,
    (
      (
        omega arith,
        (
          omega arith,
          (
            omega arith,
            (
              omega arith,
              (
                omega arith,
                (
                  omega arith,
                  (
                    omega arith,
                    (
                      omega arith,
                      (
                        omega arith,
                        (
                          omega arith,
                          (
                            omega arith,
                            (omega arith, (omega arith, (omega arith, (omega arith, tt)))),
                          ),
                        ),
                      ),
                    ),
                  ),
                ),
              ),
            ),
          ),
        ),
      ),
      omega arith,
    ),
  ),
  tt,
)

unset_flag : (f : Flag) → f ≢ Flag.enable_proxy → flag_value_of f directives ≡ none
unfolding flag_value_of
unset_flag f n = flag_value_of-other f Flag.enable_proxy true [] n

local :
    method_meant
      (flag_value_of Flag.disable_authorization directives)
      (flag_value_of Flag.use_ldap directives)
    ≡ auth_type_local
local = rw (unset_flag Flag.disable_authorization (λ h. cc), unset_flag Flag.use_ldap (λ h. cc))

ssh_named : setting_meant Setting.ssh_path directives ≡ some (codes "/usr/bin/ssh")
unfolding string_value_of
ssh_named = refl

hosts_named : setting_meant Setting.hosts_file directives ≡ some (codes "/etc/stonesh/hosts.lst")
unfolding string_value_of
hosts_named = refl

users_named : setting_meant Setting.users_file directives ≡ some (codes "/etc/stonesh/users.lst")
unfolding string_value_of
users_named = refl

opened :
    (files (codes "c") ≡ some (text_of (map directive_row directives)))
    × (files (codes "/etc/stonesh/hosts.lst") ≡ some (text_of (map row_of (db ∷ []))))
    × (files (codes "/etc/stonesh/users.lst") ≡ some (text_of (map user_row (al ∷ []))))
unfolding str_eq
opened = (refl, refl, refl)

field : IsField (codes "db") × IsField (codes "20") × IsField (codes "al")
unfolding is_space
field = (
  (
    λ h. cc,
    (
      ((refl, omega arith, omega arith), omega arith),
      (((refl, omega arith, omega arith), omega arith), tt),
    ),
  ),
  (
    λ h. cc,
    (
      ((refl, omega arith, omega arith), omega arith),
      (((refl, omega arith, omega arith), omega arith), tt),
    ),
  ),
  (
    λ h. cc,
    (
      ((refl, omega arith, omega arith), omega arith),
      (((refl, omega arith, omega arith), omega arith), tt),
    ),
  ),
)

entries_AreEntries : All IsEntry al.entries
unfolding is_space
entries_AreEntries = (
  (
    λ h. cc,
    (
      (((refl, omega arith, omega arith), omega arith), omega arith, omega arith),
      ((((refl, omega arith, omega arith), omega arith), omega arith, omega arith), tt),
    ),
  ),
  tt,
)

typed : wanted_host none (codes "db\n") ≡ some (codes "db")
unfolding wanted_host prompt_host read_lines read_loop fgets get_line c_str
typed = refl

shortened :
    short_name (flag_meant (flag_value_of Flag.allowfqdn directives)) (codes "db") ≡ ok (codes "db")
unfolding short_name strtok one_of
shortened = rw (unset_flag Flag.allowfqdn (λ h. cc))

listed : find (codes "db") (db ∷ []) ≡ some db
unfolding find str_eq
listed = refl

-- The proxy request `direct db`.
abbrev proxy_environment : Environment
proxy_environment = record environment {
  switches = command (codes "direct db") ∷ config_file (codes "c") ∷ [];
}

abbrev proxy_chosen : Chosen
proxy_chosen = record {
  cval = some (codes "direct db");
  config = some (codes "c");
  log_to_stderr = false;
}

abbrev request : Request
request = record {
  host = some (codes "db");
  args = none;
  proxy = true;
  cval = some (codes "direct");
}

proxy_chose : parse_switches proxy_environment.switches nothing_chosen ≡ some proxy_chosen
unfolding parse_switches
proxy_chose = refl

parsed :
    parse_request (some (codes "direct db")) (setting_meant Setting.proxy_keyword directives)
    ≡ ok request
unfolding parse_request proxy_request is_keyword string_value_of strtok strncmp one_of
parsed = refl

wanted_db : wanted_host (some (codes "db")) (codes "db\n") ≡ some (codes "db")
unfolding wanted_host
wanted_db = refl

-- The user is let in, from every country.
abbrev LetIn : Type 0
LetIn =
    IsLetIn directives (al ∷ []) (codes "al") db (access_mode (some (codes "direct")) (codes "db"))
    × PassesCountry net unset directives (some (codes "8.0.0.0")) db

main-request_example :
    (LetIn
      → main proxy_environment unset no_entry
        ≡ some (ok (execute (command_meant directives request db))))
    × (¬ LetIn → main proxy_environment unset no_entry ≡ some (ok (exit_with exit_success)))
main-request_example =
    main-request proxy_environment unset no_entry (codes "al") (codes "db") (codes "db")
      (some (codes "8.0.0.0")) proxy_chosen request directives (db ∷ []) (al ∷ []) db
      (codes "/etc/stonesh/hosts.lst") (codes "/etc/stonesh/users.lst") refl addressed proxy_chose
      (λ h. cc) opened.0 directives_AreDirectives local hosts_named opened.1
      ((field.0, field.1, omega arith), tt) users_named opened.2
      ((field.2, entries_AreEntries, omega arith), tt) parsed wanted_db shortened listed (inl refl)
