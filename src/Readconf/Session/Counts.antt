-- ===== src/Readconf/Session/Counts.antt =====
-- The strings that freeing and filling the options of readconf.c give back and take.
use stonesh.Prelude.{ℕ, ◌+◌, ◌-◌, ◌≡◌, List, [], ◌∷◌, Option, none, some, Bytes, refl, arith}
use stonesh.Readconf.Options.{
  Options, initialize_options, free_options, fill_default_options, opt_free, default_setting,
}
use stonesh.Readconf.Session.Books.{held_settings}
use stonesh.Readconf.Session.Reading.{free_strings, settings_of, fill_strings, defaulted}
use stonesh.Streams.{Io, new_string, free_string, one}

abbrev pub total : List (Option Bytes) → ℕ
total [] = 0
total (s ∷ strings) = one s + total strings

pub free_strings-strings :
    (strings : List (Option Bytes)) (io : Io)
    → ((free_strings strings io).strings ≡ io.strings - total strings)
      × ((free_strings strings io).streams ≡ io.streams)
      × ((free_strings strings io).log ≡ io.log)
unfolding free_strings free_string
free_strings-strings [] io = (omega arith, refl, refl)
free_strings-strings (none ∷ strings) io =
    let (count, streams, log) = free_strings-strings strings io in
    (omega (arith, count), streams, log)
free_strings-strings (some s ∷ strings) io =
    let (count, streams, log) = free_strings-strings strings (free_string (some s) io) in
    (omega (arith, count), streams, log)

-- The number of pointers that are NULL.
abbrev pub gap : Option Bytes → ℕ
gap none = 1
gap (some s) = 0

abbrev pub gaps : List (Option Bytes) → ℕ
gaps [] = 0
gaps (s ∷ strings) = gap s + gaps strings

pub fill_strings-strings :
    (strings : List (Option Bytes)) (io : Io)
    → ((fill_strings strings io).strings ≡ io.strings + gaps strings)
      × ((fill_strings strings io).streams ≡ io.streams)
      × ((fill_strings strings io).log ≡ io.log)
unfolding fill_strings new_string
fill_strings-strings [] io = (omega arith, refl, refl)
fill_strings-strings (none ∷ strings) io =
    let (count, streams, log) = fill_strings-strings strings (new_string io) in
    (omega (arith, count), streams, log)
fill_strings-strings (some s ∷ strings) io =
    let (count, streams, log) = fill_strings-strings strings io in
    (omega (arith, count), streams, log)

freed : (s : Option Bytes) → one (opt_free s) ≡ 0
freed none = refl
freed (some s) = refl

filled : (s : Option Bytes) (d : Bytes) → one (default_setting s d) ≡ one s + gap s
filled none d = refl
filled (some s) d = refl

pub free_options-held : (o : Options) → held_settings (free_options o) ≡ 0
unfolding free_options
free_options-held o = omega (
  arith,
  freed o.ldap_uri,
  freed o.ldap_base,
  freed o.nc_path,
  freed o.ssh_path,
  freed o.proxy_keyword,
  freed o.hosts_file,
  freed o.users_file,
  freed o.nc_timeout,
  freed o.authorized_service_tag,
  freed o.host,
  freed o.port,
  freed o.geoip_dat,
  freed o.geoip6_dat,
)

pub settings_of-total : (o : Options) → total (settings_of o) ≡ held_settings o
settings_of-total o = omega arith

pub initialize_options-held : (o : Options) → held_settings (initialize_options o) ≡ 0
unfolding initialize_options
initialize_options-held o = refl

pub fill_default_options-held :
    (o : Options) → held_settings (fill_default_options o) ≡ held_settings o + gaps (defaulted o)
unfolding fill_default_options
fill_default_options-held o = omega (
  arith,
  filled o.authorized_service_tag _,
  filled o.proxy_keyword _,
  filled o.hosts_file _,
  filled o.users_file _,
  filled o.ssh_path _,
  filled o.nc_path _,
  filled o.nc_timeout _,
  filled o.geoip_dat _,
  filled o.geoip6_dat _,
)
