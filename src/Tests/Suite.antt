-- ===== src/Tests/Suite.antt =====
-- Cases of the repository's own test programs, from test: strings, filters, hosts and users.
use stonesh.AuthLdap.{get_host_filter, get_service_filter}
use stonesh.AuthLocal.{get_auth_file, auth_lines, scan_users, scan_line, scan_field, scan_hosts}
use stonesh.Geoip.{Net, is_private, is_private6, is_local}
use stonesh.Hosts.{
  HostEntry, field_or, fill_entry, host_line, search_hosts, lookup_host, gethostentry,
}
use stonesh.Libc.{
  read_lines, read_loop, fgets, get_line, c_str, strsep, strncasecmp, strncmp, strcasecmp,
  strtok_all, strtok_loop, strtok, tolower, is_space, snprintf, one_of, strpbrk,
}
use stonesh.Prelude.{
  ◌+◌, ◌*◌, ℕ, Bool, true, false, [], ◌∷◌, ◌++◌, Option, none, some, ℤ, pos, ◌≡◌, refl, Bytes,
  codes,
}
use stonesh.Readconf.Delim.{strdelim, split_word, quoted_word, skip_equals, skip_blank}
use stonesh.Readconf.Keywords
use stonesh.Readconf.Keywords.{parse_token, find_keyword}
use stonesh.Tests.Samples.{files_with, no_entry, net}
use stonesh.Util.{trim, strtolower}

-- test_trim.c
trim_cases :
    (trim (codes "# 7SwiOkBazo") ≡ [])
    × (trim (codes "7SwiOkBazo # 7SwiOkBazo") ≡ codes "7SwiOkBazo")
    × (trim (codes "\t \t 7SwiOkBazo \t \t") ≡ codes "7SwiOkBazo")
    × (trim (codes "\t \n \t \n7SwiOkBazo") ≡ codes "7SwiOkBazo")
unfolding trim
trim_cases = (refl, refl, refl, refl)

-- test_strtolower.c
strtolower_case :
    strtolower (codes "AnOtfitchExgunilyerHawv1oScubded") ≡ codes "anotfitchexgunilyerhawv1oscubded"
unfolding strtolower tolower
strtolower_case = refl

-- test_strdelim.c: the first two words of a line.
two_words : Bytes → Option Bytes × Option Bytes
unfolding strdelim split_word quoted_word skip_equals skip_blank strpbrk one_of trim
two_words line = let (word, rest) = strdelim (some line) in (word, (strdelim rest).0)

abbrev pair_of_words : Option Bytes × Option Bytes
pair_of_words = (some (codes "brmxtkfukx"), some (codes "rarhoxcdia"))

strdelim_cases :
    (two_words (codes "brmxtkfukx rarhoxcdia") ≡ pair_of_words)
    × (two_words (codes "brmxtkfukx = rarhoxcdia") ≡ pair_of_words)
    × (two_words (codes "brmxtkfukx= rarhoxcdia") ≡ pair_of_words)
    × (two_words (codes "brmxtkfukx =rarhoxcdia") ≡ pair_of_words)
    × (two_words (codes " brmxtkfukx=rarhoxcdia ") ≡ pair_of_words)
unfolding two_words
strdelim_cases = (refl, refl, refl, refl, refl)

-- test_parse_token.c
parse_token_cases :
    (parse_token (codes "AllowFQDN") ≡ Keywords.o_allow_fqdn)
    × (parse_token (codes "LogToStderr") ≡ Keywords.o_log_to_stderr)
    × (parse_token (codes "LDAPURI") ≡ Keywords.o_ldap_uri)
unfolding parse_token find_keyword strcasecmp tolower
parse_token_cases = (refl, refl, refl)

-- test_get_host_filter.c
get_host_filter_cases :
    (get_host_filter (some (codes "hqyfprvvot")) (some (codes "daipiisdoq"))
      ≡ some (codes "(&(|(host=\\*)(host=hqyfprvvot))(uid=daipiisdoq))"))
    × (get_host_filter (some (codes "hqyfprvvot")) (some []) ≡ none)
    × (get_host_filter none (some (codes "daipiisdoq")) ≡ none)
unfolding get_host_filter snprintf
get_host_filter_cases = (refl, refl, refl)

-- test_get_service_filter.c
get_service_filter_cases :
    (get_service_filter
        (some (codes "aqlanjajnj"))
        (some (codes "fqrobfmznt"))
        (some (codes "nacuhqrzgy"))
      ≡ some (
          codes "(&(|(host=\\*)(host=aqlanjajnj))(|(authorizedService=nacuhqrzgy-\\*)"
          ++ codes "(authorizedService=nacuhqrzgy-aqlanjajnj))(uid=fqrobfmznt))"))
    × (get_service_filter (some (codes "aqlanjajnj")) (some (codes "fqrobfmznt")) (some []) ≡ none)
unfolding get_service_filter snprintf
get_service_filter_cases = (refl, refl)

-- test_gethostentry.c, on the first lines of test_hosts.lst
abbrev test_hosts : Bytes
test_hosts = codes "# test_hosts.lst\n#\n\nykjomrrsng\nuancrvxwbo::UA,SW,PA,GV\navgrrvakrz:52112\n"

found_host : Bytes → Bool × HostEntry
unfolding gethostentry lookup_host search_hosts host_line fill_entry field_or trim strcasecmp
    tolower read_lines read_loop fgets get_line c_str strsep is_space strncmp strncasecmp
found_host name = gethostentry (files_with test_hosts) (some name) (some (codes "f")) no_entry

gethostentry_cases :
    (found_host (codes "ykjomrrsng") ≡ (
      true,
      record { host = some (codes "ykjomrrsng"); countries = some []; port = some (codes "22") },
    ))
    × (found_host (codes "uancrvxwbo") ≡ (
      true,
      record {
        host = some (codes "uancrvxwbo");
        countries = some (codes "UA,SW,PA,GV");
        port = some (codes "22");
      },
    ))
    × ((found_host (codes "noykjomrrsng")).0 ≡ false)
unfolding found_host
gethostentry_cases = (refl, refl, refl)

-- test_get_auth_file.c, on the first lines of test_users.lst
abbrev test_users : Bytes
test_users =
    codes
      "# test_users.lst\n#\n\ntitpnevf:qignax+,bcxwqs,ttfqhx+\nninooukl:iyrsjv+,rddxdn+,hracqf\n"

authorized_as : Bytes → Bytes → ℤ → ℤ
unfolding get_auth_file auth_lines scan_users scan_line scan_field scan_hosts read_lines read_loop
    fgets get_line c_str trim strsep strncasecmp strtok_all strtok_loop strtok tolower is_space
authorized_as user host proxy =
    (get_auth_file (files_with test_users) (some user) (some host) (some (codes "f")) proxy).auth

get_auth_file_cases :
    (authorized_as (codes "titpnevf") (codes "qignax") (pos 0) ≡ pos 1)
    × (authorized_as (codes "titpnevf") (codes "qignax") (pos 1) ≡ pos 1)
    × (authorized_as (codes "titpnevf") (codes "bcxwqs") (pos 0) ≡ pos 1)
    × (authorized_as (codes "titpnevf") (codes "bcxwqs") (pos 1) ≡ pos 0)
    × (authorized_as (codes "ninooukl") (codes "hracqf") (pos 0) ≡ pos 1)
    × (authorized_as (codes "ninooukl") (codes "hracqf") (pos 1) ≡ pos 0)
unfolding authorized_as
get_auth_file_cases = (refl, refl, refl, refl, refl, refl)

-- test_is_private.c, test_is_private6.c and test_is_local.c, with the answer of `inet_pton` to the
-- address: for AF_INET the bytes of the address, the first as the lowest of the number.
abbrev address : ℕ → ℕ → ℕ → ℕ → ℕ
address a b c d = a + 0x100 * b + 0x10000 * c + 0x1000000 * d

abbrev answering : ℕ → Bytes → Net
answering s_addr ip = record {
  getaddrinfo = net.getaddrinfo;
  inet_pton = λ a. (pos 1, s_addr);
  inet_pton6 = λ a. (pos 1, ip);
  geoip_open = net.geoip_open;
  country_code_by_addr = net.country_code_by_addr;
  country_code_by_addr_v6 = net.country_code_by_addr_v6;
}

is_private_cases :
    (is_private (answering (address 10 91 40 140) []) (codes "10.91.40.140") ≡ pos 1)
    × (is_private (answering (address 192 168 38 45) []) (codes "192.168.38.45") ≡ pos 1)
    × (is_private (answering (address 172 25 137 128) []) (codes "172.25.137.128") ≡ pos 1)
    × (is_private (answering (address 24 6 183 231) []) (codes "24.6.183.231") ≡ pos 0)
    × (is_private (answering (address 110 196 250 164) []) (codes "110.196.250.164") ≡ pos 0)
unfolding is_private
is_private_cases = (refl, refl, refl, refl, refl)

-- The address whose first byte is `a`, and all others 0.
abbrev first_byte : ℕ → Bytes
first_byte a = a ∷ 0 ∷ 0 ∷ 0 ∷ 0 ∷ 0 ∷ 0 ∷ 0 ∷ 0 ∷ 0 ∷ 0 ∷ 0 ∷ 0 ∷ 0 ∷ 0 ∷ 0 ∷ []

is_private6_cases :
    (is_private6 (answering 0 (first_byte 0xFC)) (codes "fc00::") ≡ pos 1)
    × (is_private6 (answering 0 (first_byte 0xEC)) (codes "ec00::") ≡ pos 0)
unfolding is_private6
is_private6_cases = (refl, refl)

is_local_cases :
    (is_local (answering (address 127 0 0 1) []) (codes "127.0.0.1") ≡ pos 1)
    × (is_local (answering (address 127 168 100 100) []) (codes "127.168.100.100") ≡ pos 1)
    × (is_local (answering (address 192 168 100 100) []) (codes "192.168.100.100") ≡ pos 0)
unfolding is_local
is_local_cases = (refl, refl, refl)
