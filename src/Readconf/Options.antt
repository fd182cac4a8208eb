-- ===== src/Readconf/Options.antt =====
-- The options structure of readconf.h, and the functions of readconf.c that set all of it. A string
-- that is not set is NULL, a flag that is not set is -1. Memory is assumed to be granted.
pub mod Defaults
pub mod Extends
mod Values
use Values.{
  hosts_file_default, users_file_default, authorized_service_tag_default, proxy_keyword_default,
  nc_timeout_default, nc_path_default, ssh_path_default, geoip_dat_default, geoip6_dat_default,
}
use stonesh.Prelude.{
  ℕ, Bool, true, false, Option, none, some, ℤ, pos, minus_one, int_eq, Bytes, codes, if◌then◌else◌,
}

pub record Options : Type 0 where
  pub debug : ℤ
  pub log_to_stderr : ℤ
  pub use_ldap : ℤ
  pub enable_proxy : ℤ
  pub auth_type : ℤ
  pub allowfqdn : ℤ
  pub disable_authorization : ℤ
  pub disable_proxy_authorization : ℤ
  pub host : Option Bytes
  pub port : Option Bytes
  pub authorized_service_tag : Option Bytes
  pub proxy_keyword : Option Bytes
  pub ldap_uri : Option Bytes
  pub ldap_base : Option Bytes
  pub hosts_file : Option Bytes
  pub users_file : Option Bytes
  pub ssh_path : Option Bytes
  pub nc_path : Option Bytes
  pub nc_timeout : Option Bytes
  pub geoip_dat : Option Bytes
  pub geoip6_dat : Option Bytes

-- The authorization methods of auth.h.
abbrev pub auth_type_any : ℤ
auth_type_any = pos 0

abbrev pub auth_type_local : ℤ
auth_type_local = pos 1

abbrev pub auth_type_ldap : ℤ
auth_type_ldap = pos 2

-- The flags that `intptr` points to, and the strings that `charptr` points to.
pub data Flag : Type 0 where
  debug log_to_stderr use_ldap enable_proxy allowfqdn : Flag
  disable_authorization disable_proxy_authorization : Flag

pub data Setting : Type 0 where
  authorized_service_tag proxy_keyword ldap_uri ldap_base hosts_file users_file : Setting
  ssh_path nc_path nc_timeout geoip_dat geoip6_dat : Setting

abbrev pub get_flag : Flag → Options → ℤ
get_flag debug o = o.debug
get_flag log_to_stderr o = o.log_to_stderr
get_flag use_ldap o = o.use_ldap
get_flag enable_proxy o = o.enable_proxy
get_flag allowfqdn o = o.allowfqdn
get_flag disable_authorization o = o.disable_authorization
get_flag disable_proxy_authorization o = o.disable_proxy_authorization

abbrev pub set_flag : Flag → ℤ → Options → Options
set_flag debug v o = record o { debug = v }
set_flag log_to_stderr v o = record o { log_to_stderr = v }
set_flag use_ldap v o = record o { use_ldap = v }
set_flag enable_proxy v o = record o { enable_proxy = v }
set_flag allowfqdn v o = record o { allowfqdn = v }
set_flag disable_authorization v o = record o { disable_authorization = v }
set_flag disable_proxy_authorization v o = record o { disable_proxy_authorization = v }

abbrev pub get_setting : Setting → Options → Option Bytes
get_setting authorized_service_tag o = o.authorized_service_tag
get_setting proxy_keyword o = o.proxy_keyword
get_setting ldap_uri o = o.ldap_uri
get_setting ldap_base o = o.ldap_base
get_setting hosts_file o = o.hosts_file
get_setting users_file o = o.users_file
get_setting ssh_path o = o.ssh_path
get_setting nc_path o = o.nc_path
get_setting nc_timeout o = o.nc_timeout
get_setting geoip_dat o = o.geoip_dat
get_setting geoip6_dat o = o.geoip6_dat

abbrev pub set_setting : Setting → Option Bytes → Options → Options
set_setting authorized_service_tag v o = record o { authorized_service_tag = v }
set_setting proxy_keyword v o = record o { proxy_keyword = v }
set_setting ldap_uri v o = record o { ldap_uri = v }
set_setting ldap_base v o = record o { ldap_base = v }
set_setting hosts_file v o = record o { hosts_file = v }
set_setting users_file v o = record o { users_file = v }
set_setting ssh_path v o = record o { ssh_path = v }
set_setting nc_path v o = record o { nc_path = v }
set_setting nc_timeout v o = record o { nc_timeout = v }
set_setting geoip_dat v o = record o { geoip_dat = v }
set_setting geoip6_dat v o = record o { geoip6_dat = v }

-- `OPT_FREE`: free a string that is set, and make the pointer NULL.
abbrev pub opt_free : Option Bytes → Option Bytes
opt_free (some s) = none
opt_free none = none

unfoldable pub free_options : Options → Options
free_options o = record o {
  ldap_uri = opt_free o.ldap_uri;
  ldap_base = opt_free o.ldap_base;
  nc_path = opt_free o.nc_path;
  ssh_path = opt_free o.ssh_path;
  proxy_keyword = opt_free o.proxy_keyword;
  hosts_file = opt_free o.hosts_file;
  users_file = opt_free o.users_file;
  nc_timeout = opt_free o.nc_timeout;
  authorized_service_tag = opt_free o.authorized_service_tag;
  host = opt_free o.host;
  port = opt_free o.port;
  geoip_dat = opt_free o.geoip_dat;
  geoip6_dat = opt_free o.geoip6_dat;
}

-- `memset(options, 0, sizeof *options)`
abbrev zeroed : Options
zeroed = record {
  debug = pos 0;
  log_to_stderr = pos 0;
  use_ldap = pos 0;
  enable_proxy = pos 0;
  auth_type = pos 0;
  allowfqdn = pos 0;
  disable_authorization = pos 0;
  disable_proxy_authorization = pos 0;
  host = none;
  port = none;
  authorized_service_tag = none;
  proxy_keyword = none;
  ldap_uri = none;
  ldap_base = none;
  hosts_file = none;
  users_file = none;
  ssh_path = none;
  nc_path = none;
  nc_timeout = none;
  geoip_dat = none;
  geoip6_dat = none;
}

-- The pointers are NULL before the calls of `OPT_FREE`, which then change nothing.
unfoldable pub initialize_options : Options → Options
unfolding free_options
initialize_options o = free_options (record zeroed {
  debug = minus_one;
  log_to_stderr = minus_one;
  use_ldap = minus_one;
  enable_proxy = minus_one;
  disable_authorization = minus_one;
  disable_proxy_authorization = minus_one;
  auth_type = minus_one;
  allowfqdn = minus_one;
})

-- `if (flag == -1) flag = 0;`
abbrev pub default_flag : ℤ → ℤ
default_flag v = if int_eq v minus_one then pos 0 else v

abbrev pub default_setting : Option Bytes → Bytes → Option Bytes
default_setting none d = some d
default_setting (some s) d = some s

-- The method, from the flags with their defaults.
unfoldable pub default_auth_type : ℤ → ℤ → ℤ → ℤ
default_auth_type auth_type disabled ldap =
    if int_eq auth_type minus_one
    then if int_eq disabled (pos 1)
      then auth_type_any
      else if int_eq ldap (pos 1)
      then auth_type_ldap
      else auth_type_local
    else auth_type

unfoldable pub fill_default_options : Options → Options
unfolding default_auth_type
fill_default_options o = record o {
  debug = default_flag o.debug;
  log_to_stderr = default_flag o.log_to_stderr;
  use_ldap = default_flag o.use_ldap;
  enable_proxy = default_flag o.enable_proxy;
  disable_authorization = default_flag o.disable_authorization;
  disable_proxy_authorization = default_flag o.disable_proxy_authorization;
  allowfqdn = default_flag o.allowfqdn;
  auth_type =
      default_auth_type o.auth_type (default_flag o.disable_authorization)
        (default_flag o.use_ldap);
  authorized_service_tag = default_setting o.authorized_service_tag authorized_service_tag_default;
  proxy_keyword = default_setting o.proxy_keyword proxy_keyword_default;
  hosts_file = default_setting o.hosts_file hosts_file_default;
  users_file = default_setting o.users_file users_file_default;
  ssh_path = default_setting o.ssh_path ssh_path_default;
  nc_path = default_setting o.nc_path nc_path_default;
  nc_timeout = default_setting o.nc_timeout nc_timeout_default;
  geoip_dat = default_setting o.geoip_dat geoip_dat_default;
  geoip6_dat = default_setting o.geoip6_dat geoip6_dat_default;
}
