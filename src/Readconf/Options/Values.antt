-- ===== src/Readconf/Options/Values.antt =====
-- readconf.h: the values for what no configuration file sets.
use stonesh.Prelude.{Bytes, codes}

abbrev pub hosts_file_default : Bytes
hosts_file_default = codes "/etc/stonesh/hosts.lst"

abbrev pub users_file_default : Bytes
users_file_default = codes "/etc/stonesh/users.lst"

abbrev pub authorized_service_tag_default : Bytes
authorized_service_tag_default = codes "proxy"

abbrev pub proxy_keyword_default : Bytes
proxy_keyword_default = codes "direct"

abbrev pub nc_timeout_default : Bytes
nc_timeout_default = codes "1"

abbrev pub nc_path_default : Bytes
nc_path_default = codes "/bin/nc"

abbrev pub ssh_path_default : Bytes
ssh_path_default = codes "/usr/bin/ssh"

abbrev pub geoip_dat_default : Bytes
geoip_dat_default = codes "/usr/share/GeoIP/GeoIP.dat"

abbrev pub geoip6_dat_default : Bytes
geoip6_dat_default = codes "/usr/share/GeoIP/GeoIPv6.dat"
