-- ===== src/Readconf/Directives/Refines.antt =====
-- `read_config_file` of readconf.c against its specification by directives.
use stonesh.Libc.{read_lines}
use stonesh.Libc.Rows.{with_newline, text_of, IsRow, read_lines-text_of}
use stonesh.Prelude.{
  Bool, true, false, List, [], ◌∷◌, map, Option, none, some, ℤ, pos, minus_one, ok, ◌≡◌, refl, sym,
  ap, ◌∙◌, subst, Bytes, codes, All, if◌then◌else◌,
}
use stonesh.Readconf.Directives.{
  Directive, bit, directive_row, IsDirective, flag_value_of, string_value_of,
}
use stonesh.Readconf.Directives.Fold.{
  apply, flag_or, string_or, get_flag-apply, get_setting-apply, auth_type-apply,
}
use stonesh.Readconf.Directives.Rows.{apply_one, directive_line}
use stonesh.Readconf.File.{FileSystem, config_room, read_config_file}
use stonesh.Readconf.File.Outcome.{Reads, end, line, read_config_file-accepts}
use stonesh.Readconf.Options.{
  Options, Flag, Setting, get_flag, get_setting, default_flag, default_setting, initialize_options,
  fill_default_options, default_auth_type, auth_type_any, auth_type_local, auth_type_ldap,
}

directives-Reads :
    (ds : List Directive) (o : Options)
    → All IsDirective ds
    → Reads o (map with_newline (map directive_row ds)) (apply ds o)
directives-Reads [] o h = end
directives-Reads (d ∷ ds) o (h, hs) =
    line (directive_line o d h) (directives-Reads ds (apply_one d o) hs)

rows-AreRows :
    (ds : List Directive) → All IsDirective ds → All (IsRow config_room) (map directive_row ds)
rows-AreRows [] h = tt
rows-AreRows (d ∷ ds) (h, hs) = (h.1, rows-AreRows ds hs)

fill-get_flag :
    (f : Flag) (o : Options) → get_flag f (fill_default_options o) ≡ default_flag (get_flag f o)
unfolding fill_default_options
fill-get_flag Flag.debug o = refl
fill-get_flag _ o = refl

-- The value of a string that no directive sets.
abbrev pub default_value : Setting → Option Bytes
default_value Setting.authorized_service_tag = some (codes "proxy")
default_value Setting.proxy_keyword = some (codes "direct")
default_value Setting.ldap_uri = none
default_value Setting.ldap_base = none
default_value Setting.hosts_file = some (codes "/etc/stonesh/hosts.lst")
default_value Setting.users_file = some (codes "/etc/stonesh/users.lst")
default_value Setting.ssh_path = some (codes "/usr/bin/ssh")
default_value Setting.nc_path = some (codes "/bin/nc")
default_value Setting.nc_timeout = some (codes "1")
default_value Setting.geoip_dat = some (codes "/usr/share/GeoIP/GeoIP.dat")
default_value Setting.geoip6_dat = some (codes "/usr/share/GeoIP/GeoIPv6.dat")

default_setting-or : (v : Option Bytes) (d : Bytes) → default_setting v d ≡ string_or v (some d)
default_setting-or none d = refl
default_setting-or (some s) d = refl

or_none : (v : Option Bytes) → v ≡ string_or v none
or_none none = refl
or_none (some s) = refl

fill-get_setting :
    (t : Setting) (o : Options)
    → get_setting t (fill_default_options o) ≡ string_or (get_setting t o) (default_value t)
unfolding fill_default_options
fill-get_setting Setting.ldap_uri o = or_none o.ldap_uri
fill-get_setting Setting.ldap_base o = or_none o.ldap_base
fill-get_setting _ o = default_setting-or _ _

unset_flag : (f : Flag) (o : Options) → get_flag f (initialize_options o) ≡ minus_one
unfolding initialize_options
unset_flag Flag.debug o = refl
unset_flag _ o = refl

unset_setting : (t : Setting) (o : Options) → get_setting t (initialize_options o) ≡ none
unfolding initialize_options
unset_setting Setting.ssh_path o = refl
unset_setting _ o = refl

-- A flag is off unless the directives turn it on first.
abbrev pub flag_meant : Option Bool → ℤ
flag_meant none = pos 0
flag_meant (some b) = pos (bit b)

default_flag-meant : (v : Option Bool) → default_flag (flag_or minus_one v) ≡ flag_meant v
default_flag-meant none = refl
default_flag-meant (some true) = refl
default_flag-meant (some false) = refl

-- The method: any if authorization is disabled, and otherwise LDAP if that is used.
abbrev pub is_on : Option Bool → Bool
is_on none = false
is_on (some b) = b

abbrev pub method_meant : Option Bool → Option Bool → ℤ
method_meant disabled ldap =
    if is_on disabled then auth_type_any else if is_on ldap then auth_type_ldap else auth_type_local

default_auth_type-meant :
    (disabled ldap : Option Bool)
    → default_auth_type minus_one (flag_meant disabled) (flag_meant ldap)
      ≡ method_meant disabled ldap
unfolding default_auth_type
default_auth_type-meant none none = refl
default_auth_type-meant none (some true) = refl
default_auth_type-meant none (some false) = refl
default_auth_type-meant (some true) l = refl
default_auth_type-meant (some false) none = refl
default_auth_type-meant (some false) (some true) = refl
default_auth_type-meant (some false) (some false) = refl

fill-auth_type :
    (o : Options)
    → (fill_default_options o).auth_type
      ≡ default_auth_type o.auth_type
          (default_flag o.disable_authorization)
          (default_flag o.use_ldap)
unfolding fill_default_options
fill-auth_type o = refl

unset_auth_type : (o : Options) → (initialize_options o).auth_type ≡ minus_one
unfolding initialize_options
unset_auth_type o = refl

module _ (ds : List Directive) (o : Options) where
  abbrev final : Options
  final = fill_default_options (apply ds (initialize_options o))

  final-flag : (f : Flag) → get_flag f final ≡ flag_meant (flag_value_of f ds)
  final-flag f =
      fill-get_flag f (apply ds (initialize_options o))
      ∙ ap default_flag (
          get_flag-apply f ds (initialize_options o)
          ∙ ap (λ v. flag_or v (flag_value_of f ds)) (unset_flag f o))
      ∙ default_flag-meant (flag_value_of f ds)

  final-string :
      (t : Setting) → get_setting t final ≡ string_or (string_value_of t ds) (default_value t)
  final-string t =
      fill-get_setting t (apply ds (initialize_options o))
      ∙ ap (λ v. string_or v (default_value t))
          (get_setting-apply t ds (initialize_options o)
            ∙ ap (λ v. string_or v (string_value_of t ds)) (unset_setting t o))

  meant_flag :
      (f : Flag)
      → default_flag (get_flag f (apply ds (initialize_options o)))
        ≡ flag_meant (flag_value_of f ds)
  meant_flag f = sym (fill-get_flag f (apply ds (initialize_options o))) ∙ final-flag f

  final-auth_type :
      final.auth_type
      ≡ method_meant (flag_value_of Flag.disable_authorization ds) (flag_value_of Flag.use_ldap ds)
  final-auth_type =
      fill-auth_type (apply ds (initialize_options o))
      ∙ rw
          (
            auth_type-apply ds (initialize_options o) ∙ unset_auth_type o,
            meant_flag Flag.disable_authorization,
            meant_flag Flag.use_ldap,
          )
          (default_auth_type-meant (flag_value_of Flag.disable_authorization ds)
            (flag_value_of Flag.use_ldap ds))

-- A file of directives, row by row, is accepted, and each option is then what its first directive says,
-- in the order of the file; a flag that no directive sets is off, and a string has its default. The
-- method is any if authorization is disabled, otherwise LDAP if that is used, and otherwise local. It
-- is supposed of each directive that it does not set the timeout, that a value stands in quotes, is not
-- empty and holds no quote, comment mark, newline or NUL, and that the row has fewer than 1023 bytes.
pub read_config_file-refines :
    (files : FileSystem) (filename : Bytes) (o : Options) (ds : List Directive)
    → All IsDirective ds
    → files filename ≡ some (text_of (map directive_row ds))
    → (o' : Options) × (read_config_file files filename o ≡ ok (o', pos 1))
      × ((f : Flag) → get_flag f o' ≡ flag_meant (flag_value_of f ds))
      × ((t : Setting) → get_setting t o' ≡ string_or (string_value_of t ds) (default_value t))
      × (o'.auth_type
          ≡ method_meant
              (flag_value_of Flag.disable_authorization ds)
              (flag_value_of Flag.use_ldap ds))
read_config_file-refines files filename o ds hs opened =
    (final ds o, accepted, final-flag ds o, final-string ds o, final-auth_type ds o)
  where
    read :
        Reads
          (initialize_options o)
          (read_lines config_room (text_of (map directive_row ds)))
          (apply ds (initialize_options o))
    read =
        subst (λ ls. Reads (initialize_options o) ls (apply ds (initialize_options o)))
          (sym (read_lines-text_of config_room (map directive_row ds) (rows-AreRows ds hs)))
          (directives-Reads ds (initialize_options o) hs)

    accepted : read_config_file files filename o ≡ ok (final ds o, pos 1)
    accepted =
        (read_config_file-accepts files filename o (text_of (map directive_row ds)) (final ds o)
            opened).1
          (apply ds (initialize_options o), read, refl)
