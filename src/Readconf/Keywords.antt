-- ===== src/Readconf/Keywords.antt =====
-- The opcodes of readconf.h, and the table of keywords and `parse_token` of readconf.c.
pub mod Lookup
use stonesh.Prelude.{List, [], ◌∷◌, Bytes, codes, if◌then◌else◌}
use stonesh.Libc.{strcasecmp}

pub data OpCode : Type 0 where
  o_bad_option o_authorized_service_tag o_auth_type o_allow_fqdn o_debug : OpCode
  o_disable_authorization o_disable_proxy_authorization o_log_to_stderr o_use_ldap : OpCode
  o_proxy_keyword o_ldap_uri o_ldap_base o_hosts_file o_users_file o_enable_proxy : OpCode
  o_ssh_path o_nc_path o_nc_timeout o_geoip o_geoip6 : OpCode

-- The table without the entry of the name NULL that ends it.
abbrev pub keywords : List (Bytes × OpCode)
keywords =
    (codes "authorizedservicetag", o_authorized_service_tag)
    ∷ (codes "allowfqdn", o_allow_fqdn)
    ∷ (codes "debug", o_debug)
    ∷ (codes "logtostderr", o_log_to_stderr)
    ∷ (codes "useldap", o_use_ldap)
    ∷ (codes "proxykeyword", o_proxy_keyword)
    ∷ (codes "ldapuri", o_ldap_uri)
    ∷ (codes "ldapbase", o_ldap_base)
    ∷ (codes "hostsfile", o_hosts_file)
    ∷ (codes "usersfile", o_users_file)
    ∷ (codes "enableproxy", o_enable_proxy)
    ∷ (codes "disableauthorization", o_disable_authorization)
    ∷ (codes "disableproxyauthorization", o_disable_proxy_authorization)
    ∷ (codes "sshpath", o_ssh_path)
    ∷ (codes "ncpath", o_nc_path)
    ∷ (codes "nctimeout", o_nc_timeout)
    ∷ (codes "geoip", o_geoip)
    ∷ (codes "geoip6", o_geoip6)
    ∷ []

unfoldable pub find_keyword : Bytes → List (Bytes × OpCode) → OpCode
find_keyword cp [] = o_bad_option
find_keyword cp ((name, opcode) ∷ table) =
    if strcasecmp cp name then opcode else find_keyword cp table

unfoldable pub parse_token : Bytes → OpCode
parse_token cp = find_keyword cp keywords
