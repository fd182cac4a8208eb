-- ===== src/Readconf/Session/Books.antt =====
-- The strings that the options of readconf.c hold, and what a line adds to the log.
use stonesh.Log.Errors.{HasError}
use stonesh.Log.{Log}
use stonesh.Prelude.{
  ℕ, ◌+◌, ◌≡◌, ◌≢◌, ◌⊎◌, Option, none, some, ℤ, pos, minus_one, int_eq, Bytes, inl, inr, refl, ap,
  arith, Bool-cases, [], ◌∷◌,
}
use stonesh.Readconf.Line.{store_flag, flag_value, flag_argument}
use stonesh.Readconf.Options.{Options, Flag, Setting, get_flag, set_flag, get_setting, set_setting}
use stonesh.Streams.{Io, one}

-- The number of strings that the options hold.
abbrev pub held_settings : Options → ℕ
held_settings o =
    one o.host
    + (one o.port
        + (one o.authorized_service_tag
            + (one o.proxy_keyword
                + (one o.ldap_uri
                    + (one o.ldap_base
                        + (one o.hosts_file
                            + (one o.users_file
                                + (one o.ssh_path
                                    + (one o.nc_path
                                        + (one o.nc_timeout
                                            + (one o.geoip_dat + one o.geoip6_dat)))))))))))

pub set_setting-held :
    (t : Setting) (s : Bytes) (o : Options)
    → get_setting t o ≡ none
    → held_settings (set_setting t (some s) o) ≡ held_settings o + 1
set_setting-held Setting.authorized_service_tag s o h = omega (arith, ap one h)
set_setting-held Setting.proxy_keyword s o h = omega (arith, ap one h)
set_setting-held Setting.ldap_uri s o h = omega (arith, ap one h)
set_setting-held Setting.ldap_base s o h = omega (arith, ap one h)
set_setting-held Setting.hosts_file s o h = omega (arith, ap one h)
set_setting-held Setting.users_file s o h = omega (arith, ap one h)
set_setting-held Setting.ssh_path s o h = omega (arith, ap one h)
set_setting-held Setting.nc_path s o h = omega (arith, ap one h)
set_setting-held Setting.nc_timeout s o h = omega (arith, ap one h)
set_setting-held Setting.geoip_dat s o h = omega (arith, ap one h)
set_setting-held Setting.geoip6_dat s o h = omega (arith, ap one h)

set_flag-held : (f : Flag) (v : ℤ) (o : Options) → held_settings (set_flag f v o) ≡ held_settings o
set_flag-held Flag.debug v o = refl
set_flag-held Flag.log_to_stderr v o = refl
set_flag-held Flag.use_ldap v o = refl
set_flag-held Flag.enable_proxy v o = refl
set_flag-held Flag.allowfqdn v o = refl
set_flag-held Flag.disable_authorization v o = refl
set_flag-held Flag.disable_proxy_authorization v o = refl

store_flag-held :
    (f : Flag) (v : ℤ) (active : Option ℤ) (o : Options)
    → held_settings (store_flag f v active o) ≡ held_settings o
store_flag-held f v none o = refl
store_flag-held f v (some a) o = elim (Bool-cases (int_eq (get_flag f o) minus_one)) [
  | inl e ↦ rw e (set_flag-held f v o)
  | inr e ↦ rw e
]

pub flag_argument-held :
    (f : Flag) (o : Options) (active : Option ℤ) (arg s : Option Bytes)
    → held_settings (flag_argument f o active arg s).options ≡ held_settings o
unfolding flag_argument
flag_argument-held f o active none s = refl
flag_argument-held f o active (some []) s = refl
flag_argument-held f o active (some (c ∷ arg)) s =
    store_flag-held f (flag_value (c ∷ arg)).0 active o

-- What goes with a status: no message for 0, and one error otherwise.
abbrev pub IsTold : ℤ → Log → Log → Type 0
IsTold status log log' = ((status ≡ pos 0) × (log' ≡ log)) ⊎ ((status ≢ pos 0) × HasError log log')

-- What a line leaves: as many streams as there were, and but for `n` strings those of the options.
abbrev pub IsBooked : ℕ → Io → Options → Io → Type 0
IsBooked n before o io = (io.streams ≡ before.streams) × (io.strings ≡ n + held_settings o)
