-- ===== src/Stonesh/Meant.antt =====
-- What a list of directives means for the program of stonesh.c.
use stonesh.Geoip.{Net}
use stonesh.Auth.{auth_success, auth_proxy}
use stonesh.Hosts.Table.{countries_of, Host, port_of}
use stonesh.Stonesh.{check_country, Request, args_list}
use stonesh.Stonesh.Country.{check_country-data}
use stonesh.Prelude.{
  ◌≢◌, pos, ap, Bool, true, false, List, [], Option, none, some, ◌≡◌, refl, ◌∙◌, Bytes, Any, sym,
  codes, ℤ, ◌∷◌, int_eq, ◌&&◌, inl, inr, if◌then◌else◌,
}
use stonesh.AuthLocal.Table.{User, UserAllows}
use stonesh.Readconf.Options.{Options, Flag, Setting, get_flag, get_setting}
use stonesh.Readconf.Directives.{Directive, flag_value_of, string_value_of}
use stonesh.Readconf.Directives.Fold.{string_or}
use stonesh.Readconf.Directives.Refines.{default_value, flag_meant, method_meant}
use stonesh.Stonesh.Startup.{log_option}
use stonesh.Util.{trim}
use stonesh.Stonesh.Entering.{command}
use stonesh.Stonesh.Serving.{HasPrograms}
use stonesh.Auth.Branches.{ModeAllowed, permission}
use stonesh.Readconf.Options.Extends.{get-set_flag}

log_option-setting :
    (t : Setting) (b : Bool) (o : Options) → get_setting t (log_option b o) ≡ get_setting t o
log_option-setting Setting.ssh_path true o = refl
log_option-setting _ true o = refl
log_option-setting _ false o = refl

log_option-auth_type : (b : Bool) (o : Options) → (log_option b o).auth_type ≡ o.auth_type
log_option-auth_type true o = refl
log_option-auth_type false o = refl

log_option-flag :
    (f : Flag) (b : Bool) (o : Options)
    → f ≢ Flag.log_to_stderr
    → get_flag f (log_option b o) ≡ get_flag f o
log_option-flag f true o n = elim (get-set_flag Flag.log_to_stderr f (pos 1) o) [
  | inl (same, _) ↦ absurd (n (sym same))
  | inr kept ↦ kept
]
log_option-flag f false o n = refl

-- The value of a string by the directives.
abbrev pub setting_meant : Setting → List Directive → Option Bytes
setting_meant t ds = string_or (string_value_of t ds) (default_value t)

-- What the directives mean for the options.
abbrev pub Meant : List Directive → Options → Type 0
Meant ds o =
    ((f : Flag) → get_flag f o ≡ flag_meant (flag_value_of f ds))
    × ((t : Setting) → get_setting t o ≡ setting_meant t ds)
    × (o.auth_type
        ≡ method_meant (flag_value_of Flag.disable_authorization ds)
            (flag_value_of Flag.use_ldap ds))

module _ (b : Bool) (config : Options) (ds : List Directive) (meant : Meant ds config) where
  pub option-setting : (t : Setting) → get_setting t (log_option b config) ≡ setting_meant t ds
  option-setting t = log_option-setting t b config ∙ meant.1 t

  pub option-auth_type :
      (log_option b config).auth_type
      ≡ method_meant (flag_value_of Flag.disable_authorization ds) (flag_value_of Flag.use_ldap ds)
  option-auth_type = log_option-auth_type b config ∙ meant.2

  pub option-flag :
      (f : Flag)
      → f ≢ Flag.log_to_stderr
      → get_flag f (log_option b config) ≡ flag_meant (flag_value_of f ds)
  option-flag f n = log_option-flag f b config n ∙ meant.0 f

-- Proxy access is only asked for where the directives enable it.
abbrev pub AllowsMode : List Directive → ℤ → Type 0
AllowsMode ds mode =
    ¬ ((flag_meant (flag_value_of Flag.enable_proxy ds) ≡ pos 0) × (mode ≡ auth_proxy))

-- The permission that the users file has to give.
abbrev pub permission_meant : List Directive → ℤ → ℤ
permission_meant ds mode =
    if int_eq mode auth_proxy
      && int_eq (flag_meant (flag_value_of Flag.disable_proxy_authorization ds)) (pos 0)
    then pos 1
    else pos 0

-- Who is let in, by the directives and the users.
abbrev pub IsLetIn : List Directive → List User → Bytes → Host → ℤ → Type 0
IsLetIn ds users name h mode =
    AllowsMode ds mode × Any (UserAllows (trim name) h.name (permission_meant ds mode)) users

-- nc for proxy access, and ssh otherwise.
abbrev pub command_meant : List Directive → Request → Host → List (Option Bytes)
command_meant ds r h =
    if r.proxy
    then setting_meant Setting.nc_path ds
      ∷ some (codes "-w")
      ∷ setting_meant Setting.nc_timeout ds
      ∷ some h.name
      ∷ some (port_of h.details)
      ∷ []
    else setting_meant Setting.ssh_path ds
      ∷ some (codes "-p")
      ∷ some (port_of h.details)
      ∷ some (codes "-q")
      ∷ some h.name
      ∷ some (codes "--")
      ∷ args_list r.args

-- The client's country is not refused, with the data files that the directives name.
abbrev pub PassesCountry : Net → Options → List Directive → Option Bytes → Host → Type 0
PassesCountry net o ds rhost h =
    check_country net
      (record o {
        geoip_dat = setting_meant Setting.geoip_dat ds;
        geoip6_dat = setting_meant Setting.geoip6_dat ds;
      })
      (some (countries_of h.details)) rhost auth_success
    ≢ pos 0

has_value : (v : Option Bytes) (d : Bytes) → (x : Bytes) × (string_or v (some d) ≡ some x)
has_value none d = (d, refl)
has_value (some x) d = (x, refl)

module _ (b : Bool) (config : Options) (ds : List Directive) (meant : Meant ds config) where
  pub IsLetIn-eq :
      (users : List User) (name : Bytes) (h : Host) (mode : ℤ)
      → (ModeAllowed (log_option b config) mode
          × Any (UserAllows (trim name) h.name (permission (log_option b config) mode)) users)
        ≡ IsLetIn ds users name h mode
  IsLetIn-eq users name h mode =
      rw
        (
          option-flag b config ds meant Flag.enable_proxy (λ e. cc),
          option-flag b config ds meant Flag.disable_proxy_authorization (λ e. cc),
        )
        refl

  pub checked-meant :
      (net : Net) (o : Options) (rhost : Option Bytes) (h : Host)
      → (check_country net (log_option b config) (some (countries_of h.details)) rhost auth_success
          ≢ pos 0)
        ≡ PassesCountry net o ds rhost h
  checked-meant net o rhost h =
      ap (λ v. v ≢ pos 0)
        (check_country-data net (log_option b config) _
          (option-setting b config ds meant Setting.geoip_dat)
          (option-setting b config ds meant Setting.geoip6_dat) (some (countries_of h.details))
          rhost auth_success)

  pub command-meant :
      (r : Request) (h : Host)
      → command (log_option b config) r (some h.name) (some (port_of h.details))
        ≡ command_meant ds r h
  command-meant r h =
      rw
        (
          option-setting b config ds meant Setting.nc_path,
          option-setting b config ds meant Setting.nc_timeout,
          option-setting b config ds meant Setting.ssh_path,
        )
        refl

  pub meant-HasPrograms : HasPrograms (log_option b config)
  meant-HasPrograms =
      let (nc, named_nc) = has_value (string_value_of Setting.nc_path ds) (codes "/bin/nc") in
      let (ssh, named_ssh) =
        has_value (string_value_of Setting.ssh_path ds) (codes "/usr/bin/ssh") in
      (
        (nc, option-setting b config ds meant Setting.nc_path ∙ named_nc),
        (ssh, option-setting b config ds meant Setting.ssh_path ∙ named_ssh),
      )
