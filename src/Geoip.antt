-- ===== src/Geoip.antt =====
-- geoip.c: the check of the client's country. The resolver and the GeoIP library are a parameter. The
-- program runs on a little-endian machine, as the masks of `is_private` suppose.
pub mod Countries
pub mod Format
pub mod Bits
pub mod Addresses
use Prim.Native.Nat.{bit_and}
use stonesh.Prelude.{
  ℕ, Bool, true, false, not, ◌&&◌, ◌||◌, List, [], ◌∷◌, Option, none, some, ℤ, pos, int_eq, Bytes,
  codes, str_eq, length, ◌==◌, if◌then◌else◌,
}
use stonesh.Libc.{strncmp, strtok_all}
use stonesh.Readconf.Options.{Options}
use stonesh.Util.{trim, strtoupper}

-- AF_INET, AF_INET6, and any other family.
pub data Family : Type 0 where
  af_inet af_inet6 af_other : Family

-- The answers of the libraries. `getaddrinfo` is `none` for an error, and otherwise the family of the
-- first answer, if there is one. `inet_pton` gives its result and the address that it stores, as a
-- number for AF_INET and as the bytes for AF_INET6; what is stored counts only for the result 1.
-- `geoip_open` tells whether a data file can be opened, and the last two give the country code that
-- the data of a file has for an address.
pub record Net : Type 0 where
  pub getaddrinfo : Bytes → Option (Option Family)
  pub inet_pton : Bytes → ℤ × ℕ
  pub inet_pton6 : Bytes → ℤ × Bytes
  pub geoip_open : Bytes → Bool
  pub country_code_by_addr : Bytes → Bytes → Option Bytes
  pub country_code_by_addr_v6 : Bytes → Bytes → Option Bytes

-- -1 is `none`.
unfoldable pub getafbyaddr : Net → Bytes → Option Family
getafbyaddr net addr = elim (net.getaddrinfo addr) [
  | none ↦ none
  | some none ↦ none
  | some (some family) ↦ some family
]

-- GEOIP_DAT, GEOIP6_DAT and GEOIP_DELIM of geoip.h.
abbrev geoip_file : Bytes
geoip_file = codes "/usr/share/GeoIP/GeoIP.dat"

abbrev geoip6_file : Bytes
geoip6_file = codes "/usr/share/GeoIP/GeoIPv6.dat"

abbrev geoip_delim : Bytes
geoip_delim = b',' ∷ []

abbrev file_or : Option Bytes → Bytes → Bytes
file_or none d = d
file_or (some file) d = file

unfoldable pub getcountrybyaddr : Net → Bytes → Option Bytes → Option Bytes
getcountrybyaddr net address geoip_data_file =
    let data_file = file_or geoip_data_file geoip_file in
    if net.geoip_open data_file then net.country_code_by_addr data_file address else none

unfoldable pub getcountrybyaddr6 : Net → Bytes → Option Bytes → Option Bytes
getcountrybyaddr6 net address geoip_data_file =
    let data_file = file_or geoip_data_file geoip6_file in
    if net.geoip_open data_file then net.country_code_by_addr_v6 data_file address else none

-- `htonl(0xFF000000)` and so on, on a little-endian machine: the first byte of the address is the
-- lowest of the number.
abbrev pub class_a_mask : ℕ
class_a_mask = 0xFF

abbrev pub loopback_net : ℕ
loopback_net = 0x7F

unfoldable pub is_local : Net → Bytes → ℤ
is_local net address =
    let (result, s_addr) = net.inet_pton address in
    if not (int_eq result (pos 1))
    then result
    else if bit_and s_addr class_a_mask == loopback_net
    then pos 1
    else pos 0

unfoldable pub is_local6 : Net → Bytes → ℤ
is_local6 net address =
    let (result, ip) = net.inet_pton6 address in
    let (local_result, local) = net.inet_pton6 (codes "::1") in
    if not (int_eq result (pos 1))
    then result
    else if not (int_eq local_result (pos 1))
    then local_result
    else if str_eq ip local
    then pos 1
    else pos 0

unfoldable pub is_private : Net → Bytes → ℤ
is_private net address =
    let (result, stored) = net.inet_pton address in
    let s_addr = if int_eq result (pos 1) then stored else 0 in
    if int_eq result (pos 0)
    then result
    else if bit_and s_addr 0x000000FF == 0x0A
        || (bit_and s_addr 0x0000FFFF == 0xA8C0 || bit_and s_addr 0x0000F0FF == 0x10AC)
    then pos 1
    else pos 0

-- On the first byte of the address.
abbrev is_fc_or_fd : Bytes → Bool
is_fc_or_fd [] = false
is_fc_or_fd (c ∷ ip) = c == 0xFC || c == 0xFD

unfoldable pub is_private6 : Net → Bytes → ℤ
is_private6 net address =
    let (result, ip) = net.inet_pton6 address in
    if not (int_eq result (pos 1)) then result else if is_fc_or_fd ip then pos 1 else pos 0

-- The loop over the list of countries.
unfoldable pub match_country : Bytes → List Bytes → ℤ
match_country country_code [] = pos 0
match_country country_code (token ∷ tokens) =
    let country = strtoupper (trim token) in
    let later = match_country country_code tokens in
    if length country_code == length country && strncmp country_code country (length country)
    then pos 1
    else later

-- Behind the switch; GEOIP_FAIL_ON_ERROR is 1.
unfoldable pub check_code : Option Bytes → Bytes → Bytes → ℤ
check_code none country_list delimiter = pos 0
check_code (some country_code) country_list delimiter =
    match_country country_code (strtok_all country_list delimiter)

-- The switch on the family of the address.
unfoldable pub by_family : Net → Options → Bytes → Bytes → Bytes → Option Family → ℤ
by_family net o address country_list delimiter (some af_inet) =
    if int_eq (is_local net address) (pos 1)
    then pos 1
    else check_code (getcountrybyaddr net address o.geoip_dat) country_list delimiter
by_family net o address country_list delimiter (some af_inet6) =
    if int_eq (is_local6 net address) (pos 1)
    then pos 1
    else check_code (getcountrybyaddr6 net address o.geoip6_dat) country_list delimiter
by_family net o address country_list delimiter (some af_other) =
    check_code none country_list delimiter
by_family net o address country_list delimiter none = check_code none country_list delimiter

abbrev delimiter_or : Option Bytes → Bytes
delimiter_or none = geoip_delim
delimiter_or (some delim) = delim

-- The result. What `strtok`, `trim` and `strtoupper` leave in the list, nothing reads any more.
unfoldable pub is_from_valid_country : Net → Options → Bytes → Option Bytes → Option Bytes → ℤ
is_from_valid_country net o address none delim = pos 1
is_from_valid_country net o address (some []) delim = pos 1
is_from_valid_country net o address (some (c ∷ country_list)) delim =
    by_family net o address (c ∷ country_list) (delimiter_or delim) (getafbyaddr net address)
