-- ===== src/Tests/Samples.antt =====
-- Sample options and files.
use stonesh.Geoip.Countries.{loopback6}
use stonesh.Prelude.{
  str_eq, if◌then◌else◌, [], true, none, some, ℤ, pos, minus_one, Bytes, codes, List, ◌∷◌, Option,
  str_eq, if◌then◌else◌,
}
use stonesh.AuthLdap.{Ldap, SearchMessage, entry}
use stonesh.Geoip.{Net, af_inet}
use stonesh.Stonesh.Startup.{Environment, config_file}
use stonesh.Hosts.{HostEntry}
use stonesh.Readconf.File.{FileSystem}
use stonesh.Readconf.Options.{Options}

abbrev pub users_text : Bytes
users_text = codes "al:web+,db\n"

abbrev pub hosts_text : Bytes
hosts_text = codes "db:2022\n"

abbrev pub config_text : Bytes
config_text = codes "usesql yes\n"

-- Every file holds the same text.
abbrev pub files_with : Bytes → FileSystem
files_with content name = some content

abbrev number_of_entries : Option SearchMessage → ℤ
number_of_entries (some entry) = pos 1
number_of_entries _ = pos 0

abbrev pub one_entry : Ldap
one_entry = record {
  uri_option = none;
  base_option = some (some (codes "dc=a"));
  initialize = λ uri. true;
  bind_result = λ uri. pos 97;
  search_answer = λ uri base filter. some entry;
  count_entries = λ m. number_of_entries m;
}

-- Options that no file has set, and options as they are used.
abbrev pub unset : Options
unset = record {
  debug = minus_one;
  log_to_stderr = minus_one;
  use_ldap = minus_one;
  enable_proxy = minus_one;
  auth_type = minus_one;
  allowfqdn = minus_one;
  disable_authorization = minus_one;
  disable_proxy_authorization = minus_one;
  host = none;
  port = none;
  authorized_service_tag = none;
  proxy_keyword = none;
  ldap_uri = none;
  ldap_base = none;
  hosts_file = none;
  users_file = none;
  ssh_path = none;
  nc_path = none;
  nc_timeout = none;
  geoip_dat = none;
  geoip6_dat = none;
}

abbrev pub with_flags : ℤ → ℤ → ℤ → Options
with_flags auth_type ldap proxy = record {
  debug = pos 0;
  log_to_stderr = pos 0;
  use_ldap = ldap;
  enable_proxy = proxy;
  auth_type = auth_type;
  allowfqdn = pos 0;
  disable_authorization = pos 0;
  disable_proxy_authorization = pos 0;
  host = none;
  port = none;
  authorized_service_tag = some (codes "t");
  proxy_keyword = some (codes "direct");
  ldap_uri = some (codes "ldap://a");
  ldap_base = none;
  hosts_file = some (codes "h");
  users_file = some (codes "u");
  ssh_path = some (codes "s");
  nc_path = some (codes "n");
  nc_timeout = some (codes "1");
  geoip_dat = some (codes "g");
  geoip6_dat = some (codes "g6");
}

abbrev pub local_options : Options
local_options = with_flags (pos 1) (pos 0) (pos 1)

abbrev pub ldap_options : Options
ldap_options = with_flags (pos 2) (pos 1) (pos 1)

abbrev pub no_entry : HostEntry
no_entry = record { host = none; countries = none; port = none }

-- Every address is an address of AF_INET, from the US.
abbrev pub net : Net
net = record {
  getaddrinfo = λ a. some (some af_inet);
  inet_pton = λ a. (pos 1, 8);
  inet_pton6 = λ a. if str_eq a (codes "::1") then (pos 1, loopback6) else (pos 0, []);
  geoip_open = λ f. true;
  country_code_by_addr = λ f a. some (codes "US");
  country_code_by_addr_v6 = λ f a. none;
}

abbrev pub files : FileSystem
files name =
    if str_eq name (codes "c")
    then some (codes "disableauthorization yes\n")
    else some (codes "db\n")

abbrev pub environment : Environment
environment = record {
  files = files;
  ldap = one_entry;
  net = net;
  passwd = some (codes "al");
  ssh_client = some (codes "8.0.0.0 1 2");
  stdin = codes "db\n";
  isatty = true;
  argv = codes "stonesh" ∷ codes "-C" ∷ codes "c" ∷ [];
  switches = config_file (codes "c") ∷ [];
}

abbrev pub ssh_db : List (Option Bytes)
ssh_db =
    some (codes "/usr/bin/ssh")
    ∷ some (codes "-p")
    ∷ some (codes "22")
    ∷ some (codes "-q")
    ∷ some (codes "db")
    ∷ some (codes "--")
    ∷ []
