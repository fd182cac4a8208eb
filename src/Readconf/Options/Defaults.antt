-- ===== src/Readconf/Options/Defaults.antt =====
-- What `fill_default_options` of readconf.c leaves: every flag and string that has a default is set,
-- what was set stays, and the authorization method follows from the flags.
use stonesh.Prelude.{Option, none, some, ℤ, pos, minus_one, ◌≡◌, ◌≢◌, ◌⊎◌, inl, refl, arith, Bytes}
use stonesh.Readconf.Options.{
  Options, Flag, Setting, default_setting, get_flag, get_setting, fill_default_options,
  initialize_options, free_options, auth_type_any, auth_type_local, auth_type_ldap,
}

-- The value of a flag in a file is 0 or 1.
abbrev pub IsFlag : ℤ → Type 0
IsFlag v = (v ≡ pos 0) ⊎ (v ≡ pos 1)

abbrev pub IsUnsetOrFlag : ℤ → Type 0
IsUnsetOrFlag v = (v ≡ minus_one) ⊎ IsFlag v

-- The authorization methods that `auth_user` knows.
abbrev pub IsAuthType : ℤ → Type 0
IsAuthType v = (v ≡ auth_type_any) ⊎ (v ≡ auth_type_local) ⊎ (v ≡ auth_type_ldap)

-- What reading a file may make of the options: each flag is unset, 0 or 1, and the method, the host
-- and the port, which no keyword sets, are unset.
pub record IsPartial (o : Options) : Type 0 where
  pub flags : (f : Flag) → IsUnsetOrFlag (get_flag f o)
  pub no_auth_type : o.auth_type ≡ minus_one
  pub no_host : o.host ≡ none
  pub no_port : o.port ≡ none

-- The method that the flags of `o` ask for.
abbrev pub MethodOf : Options → Type 0
MethodOf o =
    (o.disable_authorization ≡ pos 1 → o.auth_type ≡ auth_type_any)
    × (o.disable_authorization ≡ pos 0 → o.use_ldap ≡ pos 1 → o.auth_type ≡ auth_type_ldap)
    × (o.disable_authorization ≡ pos 0 → o.use_ldap ≡ pos 0 → o.auth_type ≡ auth_type_local)

-- The options as the program uses them. The LDAP uri and base have no default here.
pub record IsComplete (o : Options) : Type 0 where
  pub flags : (f : Flag) → IsFlag (get_flag f o)
  pub strings :
      (t : Setting)
      → t ≢ Setting.ldap_uri
      → t ≢ Setting.ldap_base
      → (s : Bytes) × (get_setting t o ≡ some s)
  pub auth_type_known : IsAuthType o.auth_type
  pub method : MethodOf o
  pub no_host : o.host ≡ none

fill-flags :
    (o : Options) (f : Flag)
    → IsUnsetOrFlag (get_flag f o)
    → IsFlag (get_flag f (fill_default_options o))
unfolding fill_default_options
fill-flags o Flag.debug h = ground arith
fill-flags o _ h = ground arith

default_setting_set : (v : Option Bytes) (d : Bytes) → (s : Bytes) × (default_setting v d ≡ some s)
default_setting_set none d = (d, refl)
default_setting_set (some s) d = (s, refl)

fill-strings :
    (o : Options) (t : Setting)
    → t ≢ Setting.ldap_uri
    → t ≢ Setting.ldap_base
    → (s : Bytes) × (get_setting t (fill_default_options o) ≡ some s)
unfolding fill_default_options
fill-strings o Setting.ldap_uri nu nb = absurd (nu refl)
fill-strings o Setting.ldap_base nu nb = absurd (nb refl)
fill-strings o _ nu nb = default_setting_set _ _

-- What was set stays as it was.
pub fill-keeps :
    (o : Options)
    → ((f : Flag) → get_flag f o ≢ minus_one → get_flag f (fill_default_options o) ≡ get_flag f o)
      × ((t : Setting) (s : Bytes)
          → get_setting t o ≡ some s
          → get_setting t (fill_default_options o) ≡ some s)
fill-keeps o = (keeps_flag, keeps_setting)
  where
    keeps_flag :
        (f : Flag) → get_flag f o ≢ minus_one → get_flag f (fill_default_options o) ≡ get_flag f o
    keeps_flag Flag.debug h = unfold fill_default_options in ground arith
    keeps_flag _ h = unfold fill_default_options in ground arith

    keeps_setting :
        (t : Setting) (s : Bytes)
        → get_setting t o ≡ some s
        → get_setting t (fill_default_options o) ≡ some s
    keeps_setting Setting.ssh_path s h = unfold fill_default_options in ground arith
    keeps_setting _ s h = unfold fill_default_options in ground arith

fill-auth_type :
    (o : Options)
    → IsPartial o
    → IsAuthType (fill_default_options o).auth_type × MethodOf (fill_default_options o)
unfolding fill_default_options
fill-auth_type o p =
    ground (arith, p.flags Flag.disable_authorization, p.flags Flag.use_ldap, p.no_auth_type)

-- Filling the defaults completes the options that a file has left partial.
pub fill-IsComplete : (o : Options) → IsPartial o → IsComplete (fill_default_options o)
fill-IsComplete o p = record {
  flags = λ f. fill-flags o f (p.flags f);
  strings = fill-strings o;
  auth_type_known = (fill-auth_type o p).0;
  method = (fill-auth_type o p).1;
  no_host = unfold fill_default_options in p.no_host;
}

pub initialize-IsPartial : (o : Options) → IsPartial (initialize_options o)
unfolding initialize_options
initialize-IsPartial o = record {
  flags = unset;
  no_auth_type = refl;
  no_host = refl;
  no_port = refl;
}
  where
    unset : (f : Flag) → IsUnsetOrFlag (get_flag f (initialize_options o))
    unset Flag.debug = inl refl
    unset _ = inl refl

-- No string is left.
abbrev pub IsFreed : Options → Type 0
IsFreed o = ((t : Setting) → get_setting t o ≡ none) × (o.host ≡ none) × (o.port ≡ none)

-- Freeing the options leaves no string and no other change.
pub free-IsFreed :
    (o : Options)
    → IsFreed (free_options o)
      × ((f : Flag) → get_flag f (free_options o) ≡ get_flag f o)
      × ((free_options o).auth_type ≡ o.auth_type)
unfolding free_options
free-IsFreed o = ((gone, ground arith, ground arith), same, refl)
  where
    gone : (t : Setting) → get_setting t (free_options o) ≡ none
    gone Setting.ssh_path = ground arith
    gone _ = ground arith

    same : (f : Flag) → get_flag f (free_options o) ≡ get_flag f o
    same Flag.debug = refl
    same _ = refl
