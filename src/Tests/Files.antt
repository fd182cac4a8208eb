-- ===== src/Tests/Files.antt =====
-- Cases of the repository's own tests of readconf.c, from test: whole configuration files.
use stonesh.Libc.{
  read_lines, read_loop, fgets, get_line, c_str, strcasecmp, tolower, is_space, one_of, strpbrk,
  atoi_pos,
}
use stonesh.Prelude.{
  [], ◌∷◌, ◌++◌, List, none, some, ℤ, pos, ◌≡◌, refl, Bytes, codes, str_eq, Run, ok,
}
use stonesh.Readconf.Delim.{strdelim, split_word, quoted_word, skip_equals, skip_blank}
use stonesh.Readconf.File.{read_config_file, read_opened, read_options, finish_options}
use stonesh.Readconf.Keywords.{parse_token, find_keyword}
use stonesh.Readconf.Line.{
  process_config_line, process_trimmed, process_line, process_opcode, dispatch, check_end,
  parse_flag, flag_argument, flag_value, parse_string, string_argument, store_setting,
  parse_timeout,
}
use stonesh.Readconf.Options.{Options, initialize_options, fill_default_options, free_options}
use stonesh.Tests.Samples.{files_with, unset}
use stonesh.Util.{trim}

abbrev lines_of : List Bytes → Bytes
lines_of [] = []
lines_of (line ∷ lines) = line ++ b'\n' ∷ lines_of lines

-- The options afterwards and the result of reading a file that holds the lines.
read_lines_of : List Bytes → Run (Options × ℤ)
unfolding read_config_file read_opened read_options finish_options initialize_options
    fill_default_options free_options process_config_line process_trimmed process_line
    process_opcode dispatch check_end parse_flag flag_argument flag_value parse_string
    string_argument store_setting parse_timeout parse_token find_keyword strdelim split_word
    quoted_word skip_equals skip_blank strpbrk one_of trim strcasecmp atoi_pos str_eq tolower
    read_lines read_loop fgets get_line c_str is_space
read_lines_of lines = read_config_file (files_with (lines_of lines)) (codes "f") unset

-- test_stonesh_03.conf without its comments
abbrev test_stonesh_03 : List Bytes
test_stonesh_03 =
    codes "debug true"
    ∷ codes "logToStderr true"
    ∷ codes "authorizedServiceTag proxy"
    ∷ codes "enableProxy true"
    ∷ codes "proxyKeyword foolean"
    ∷ codes "useLDAP true"
    ∷ codes "LDAPuri ldap://example"
    ∷ codes "LDAPbase \"dc=example,dc=padl,dc=com\""
    ∷ codes "HostsFile /usr/local/etc/stonesh/hosts.lst"
    ∷ codes "AllowFQDN true"
    ∷ codes "UsersFile /usr/local/etc/stonesh/users.lst"
    ∷ codes "disableAuthorization true"
    ∷ codes "disableProxyAuthorization true"
    ∷ codes "sshPath /usr/local/bin/ssh"
    ∷ codes "ncPath /usr/local/bin/nc"
    ∷ codes "ncTimeout 300"
    ∷ codes "GeoIP /usr/local/share/GeoIP/GeoIP.dat"
    ∷ codes "GeoIP6 /usr/local/share/GeoIP/GeoIPv6.dat"
    ∷ []

-- test_read_config_file_03.c, with the values of the two LDAP options as well
read_config_file_03 :
    read_lines_of test_stonesh_03
    ≡ ok (
      record {
        debug = pos 1;
        log_to_stderr = pos 1;
        use_ldap = pos 1;
        enable_proxy = pos 1;
        auth_type = pos 0;
        allowfqdn = pos 1;
        disable_authorization = pos 1;
        disable_proxy_authorization = pos 1;
        host = none;
        port = none;
        authorized_service_tag = some (codes "proxy");
        proxy_keyword = some (codes "foolean");
        ldap_uri = some (codes "ldap://example");
        ldap_base = some (codes "dc=example,dc=padl,dc=com");
        hosts_file = some (codes "/usr/local/etc/stonesh/hosts.lst");
        users_file = some (codes "/usr/local/etc/stonesh/users.lst");
        ssh_path = some (codes "/usr/local/bin/ssh");
        nc_path = some (codes "/usr/local/bin/nc");
        nc_timeout = some (codes "300");
        geoip_dat = some (codes "/usr/local/share/GeoIP/GeoIP.dat");
        geoip6_dat = some (codes "/usr/local/share/GeoIP/GeoIPv6.dat");
      },
      pos 1,
    )
unfolding read_lines_of
read_config_file_03 = refl

-- test_read_config_file_01.c, on a few lines of test_stonesh_01.conf, in which every directive stands
-- in a comment: the defaults, which test_fill_default_options.c lists too
read_config_file_01 :
    read_lines_of (codes "# stonesh.conf " ∷ codes "" ∷ codes "#debug false" ∷ [])
    ≡ ok (
      record {
        debug = pos 0;
        log_to_stderr = pos 0;
        use_ldap = pos 0;
        enable_proxy = pos 0;
        auth_type = pos 1;
        allowfqdn = pos 0;
        disable_authorization = pos 0;
        disable_proxy_authorization = pos 0;
        host = none;
        port = none;
        authorized_service_tag = some (codes "proxy");
        proxy_keyword = some (codes "direct");
        ldap_uri = none;
        ldap_base = none;
        hosts_file = some (codes "/etc/stonesh/hosts.lst");
        users_file = some (codes "/etc/stonesh/users.lst");
        ssh_path = some (codes "/usr/bin/ssh");
        nc_path = some (codes "/bin/nc");
        nc_timeout = some (codes "1");
        geoip_dat = some (codes "/usr/share/GeoIP/GeoIP.dat");
        geoip6_dat = some (codes "/usr/share/GeoIP/GeoIPv6.dat");
      },
      pos 1,
    )
unfolding read_lines_of
read_config_file_01 = refl
