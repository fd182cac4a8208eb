-- ===== src/Readconf/Directives.antt =====
-- A configuration file as a list of directives, for the specification of `read_config_file` of
-- readconf.c: each option has the first value that the directives give it.
pub mod Rows
pub mod Fold
pub mod Refines
use stonesh.Libc.Rows.{IsRow}
use stonesh.Prelude.{
  ℕ, Bool, true, false, List, [], ◌∷◌, ◌++◌, Option, none, some, ℤ, pos, ◌≡◌, ◌≢◌, refl, Bytes,
  codes, All, if◌then◌else◌, length, ◌<◌,
}
use stonesh.Readconf.File.{config_room}
use stonesh.Readconf.Options.{Flag, Setting}

-- `switch` sets a flag, and `assign` a string.
pub data Directive : Type 0 where
  switch : Flag → Bool → Directive
  assign : Setting → Bytes → Directive

abbrev pub flag_key : Flag → Bytes
flag_key Flag.debug = codes "debug"
flag_key Flag.log_to_stderr = codes "logtostderr"
flag_key Flag.use_ldap = codes "useldap"
flag_key Flag.enable_proxy = codes "enableproxy"
flag_key Flag.allowfqdn = codes "allowfqdn"
flag_key Flag.disable_authorization = codes "disableauthorization"
flag_key Flag.disable_proxy_authorization = codes "disableproxyauthorization"

abbrev pub setting_key : Setting → Bytes
setting_key Setting.authorized_service_tag = codes "authorizedservicetag"
setting_key Setting.proxy_keyword = codes "proxykeyword"
setting_key Setting.ldap_uri = codes "ldapuri"
setting_key Setting.ldap_base = codes "ldapbase"
setting_key Setting.hosts_file = codes "hostsfile"
setting_key Setting.users_file = codes "usersfile"
setting_key Setting.ssh_path = codes "sshpath"
setting_key Setting.nc_path = codes "ncpath"
setting_key Setting.nc_timeout = codes "nctimeout"
setting_key Setting.geoip_dat = codes "geoip"
setting_key Setting.geoip6_dat = codes "geoip6"

abbrev pub bit : Bool → ℕ
bit true = 1
bit false = 0

abbrev pub answer_of : Bool → Bytes
answer_of true = codes "yes"
answer_of false = codes "no"

-- A text in quotes.
abbrev pub quote : Bytes → Bytes
quote v = b'"' ∷ (v ++ b'"' ∷ [])

-- The line `key yes`, `key no` or `key "value"`.
abbrev pub directive_row : Directive → Bytes
directive_row (switch f b) = flag_key f ++ b' ' ∷ answer_of b
directive_row (assign t v) = setting_key t ++ b' ' ∷ quote v

-- A byte that may stand in quotes.
abbrev pub IsQuoted : ℕ → Type 0
IsQuoted c = (c ≢ b'"') × (c ≢ b'#') × (c ≢ 0)

abbrev IsAssigned : Directive → Type 0
IsAssigned (switch f b) = Unit
IsAssigned (assign t v) = (t ≢ Setting.nc_timeout) × (v ≢ []) × All IsQuoted v

-- A string is not empty and holds no quote and no comment mark; the row is one line, and fits into the
-- buffer. The timeout has to be a number, and is left out.
abbrev pub IsDirective : Directive → Type 0
IsDirective d = IsAssigned d × IsRow config_room (directive_row d)

-- The specification: the first value that the directives give to a flag and to a string.
pub Flag-discrete : Discrete Flag
Flag-discrete = hlevel

pub Setting-discrete : Discrete Setting
Setting-discrete = hlevel

unfoldable pub flag_value_of : Flag → List Directive → Option Bool
flag_value_of f [] = none
flag_value_of f (assign t v ∷ ds) = flag_value_of f ds
flag_value_of f (switch g b ∷ ds) =
    let rest = flag_value_of f ds in elim (Flag-discrete f g) [ yes e ↦ some b | no n ↦ rest ]

-- A directive for another flag changes nothing.
pub flag_value_of-other :
    (f g : Flag) (b : Bool) (ds : List Directive)
    → f ≢ g
    → flag_value_of f (switch g b ∷ ds) ≡ flag_value_of f ds
unfolding flag_value_of
flag_value_of-other f g b ds n =
    elim (Flag-discrete f g)
      as (λ d. (elim d [ yes e ↦ some b | no m ↦ flag_value_of f ds ]) ≡ flag_value_of f ds) [
        | yes e ↦ absurd (n e)
        | no m ↦ refl
      ]

unfoldable pub string_value_of : Setting → List Directive → Option Bytes
string_value_of t [] = none
string_value_of t (switch g b ∷ ds) = string_value_of t ds
string_value_of t (assign u v ∷ ds) =
    let rest = string_value_of t ds in elim (Setting-discrete t u) [ yes e ↦ some v | no n ↦ rest ]
