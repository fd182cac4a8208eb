-- ===== src/Readconf/Options/Extends.antt =====
-- Options that extend others, and the functions that set one option.
use stonesh.Prelude.{
  Option, none, ℤ, minus_one, ◌≡◌, ◌⊎◌, inl, inr, refl, sym, ◌∙◌, subst, arith, Bytes,
}
use stonesh.Readconf.Options.{Options, Flag, Setting, get_flag, set_flag, get_setting, set_setting}
use stonesh.Readconf.Options.Defaults.{IsFlag}

-- `o'` is `o` with options set that were not set, the flags among them to 0 or 1.
pub record Extends (o o' : Options) : Type 0 where
  pub flags :
      (f : Flag)
      → (get_flag f o' ≡ get_flag f o) ⊎ ((get_flag f o ≡ minus_one) × IsFlag (get_flag f o'))
  pub strings : (t : Setting) → (get_setting t o' ≡ get_setting t o) ⊎ (get_setting t o ≡ none)
  pub auth_type_same : o'.auth_type ≡ o.auth_type
  pub host_same : o'.host ≡ o.host
  pub port_same : o'.port ≡ o.port

pub Extends-refl : (o : Options) → Extends o o
Extends-refl o = record {
  flags = λ f. inl refl;
  strings = λ t. inl refl;
  auth_type_same = refl;
  host_same = refl;
  port_same = refl;
}

pub Extends-trans : {a b c : Options} → Extends a b → Extends b c → Extends a c
Extends-trans {a} {b} {c} p q = record {
  flags = λ f. flag_trans f (p.flags f) (q.flags f);
  strings = λ t. string_trans t (p.strings t) (q.strings t);
  auth_type_same = q.auth_type_same ∙ p.auth_type_same;
  host_same = q.host_same ∙ p.host_same;
  port_same = q.port_same ∙ p.port_same;
}
  where
    flag_trans :
        (f : Flag)
        → (get_flag f b ≡ get_flag f a) ⊎ ((get_flag f a ≡ minus_one) × IsFlag (get_flag f b))
        → (get_flag f c ≡ get_flag f b) ⊎ ((get_flag f b ≡ minus_one) × IsFlag (get_flag f c))
        → (get_flag f c ≡ get_flag f a) ⊎ ((get_flag f a ≡ minus_one) × IsFlag (get_flag f c))
    flag_trans f (inl x) (inl y) = inl (y ∙ x)
    flag_trans f (inl x) (inr (y, v)) = inr (sym x ∙ y, v)
    flag_trans f (inr (x, v)) (inl y) = inr (x, subst IsFlag (sym y) v)
    flag_trans f (inr (x, v)) (inr (y, w)) = inr (x, w)

    string_trans :
        (t : Setting)
        → (get_setting t b ≡ get_setting t a) ⊎ (get_setting t a ≡ none)
        → (get_setting t c ≡ get_setting t b) ⊎ (get_setting t b ≡ none)
        → (get_setting t c ≡ get_setting t a) ⊎ (get_setting t a ≡ none)
    string_trans t (inl x) (inl y) = inl (y ∙ x)
    string_trans t (inl x) (inr y) = inr (sym x ∙ y)
    string_trans t (inr x) y = inr x

pub get-set_flag :
    (f g : Flag) (v : ℤ) (o : Options)
    → ((f ≡ g) × (get_flag g (set_flag f v o) ≡ v)) ⊎ (get_flag g (set_flag f v o) ≡ get_flag g o)
get-set_flag Flag.debug Flag.debug v o = inl (refl, refl)
get-set_flag Flag.log_to_stderr Flag.log_to_stderr v o = inl (refl, refl)
get-set_flag Flag.use_ldap Flag.use_ldap v o = inl (refl, refl)
get-set_flag Flag.enable_proxy Flag.enable_proxy v o = inl (refl, refl)
get-set_flag Flag.allowfqdn Flag.allowfqdn v o = inl (refl, refl)
get-set_flag Flag.disable_authorization Flag.disable_authorization v o = inl (refl, refl)
get-set_flag Flag.disable_proxy_authorization Flag.disable_proxy_authorization v o =
    inl (refl, refl)
get-set_flag _ _ v o = inr refl

pub set_flag-same :
    (f : Flag) (v : ℤ) (o : Options)
    → ((t : Setting) → get_setting t (set_flag f v o) ≡ get_setting t o)
      × ((set_flag f v o).auth_type ≡ o.auth_type)
      × ((set_flag f v o).host ≡ o.host)
      × ((set_flag f v o).port ≡ o.port)
set_flag-same f v o = (strings f, ground arith, ground arith, ground arith)
  where
    strings : (g : Flag) (t : Setting) → get_setting t (set_flag g v o) ≡ get_setting t o
    strings Flag.debug Setting.ssh_path = refl
    strings _ Setting.ssh_path = refl
    strings _ _ = refl

pub set_flag-Extends :
    (f : Flag) (v : ℤ) (o : Options)
    → get_flag f o ≡ minus_one
    → IsFlag v
    → Extends o (set_flag f v o)
set_flag-Extends f v o unset h = record {
  flags = λ g. flag_case g (get-set_flag f g v o);
  strings = λ t. inl ((set_flag-same f v o).0 t);
  auth_type_same = (set_flag-same f v o).1;
  host_same = (set_flag-same f v o).2;
  port_same = (set_flag-same f v o).3;
}
  where
    flag_case :
        (g : Flag)
        → ((f ≡ g) × (get_flag g (set_flag f v o) ≡ v))
          ⊎ (get_flag g (set_flag f v o) ≡ get_flag g o)
        → (get_flag g (set_flag f v o) ≡ get_flag g o)
          ⊎ ((get_flag g o ≡ minus_one) × IsFlag (get_flag g (set_flag f v o)))
    flag_case g (inl (e, w)) =
        inr (subst (λ x. get_flag x o ≡ minus_one) e unset, subst IsFlag (sym w) h)
    flag_case g (inr same) = inl same

pub get-set_setting :
    (t u : Setting) (v : Option Bytes) (o : Options)
    → ((t ≡ u) × (get_setting u (set_setting t v o) ≡ v))
      ⊎ (get_setting u (set_setting t v o) ≡ get_setting u o)
get-set_setting Setting.authorized_service_tag Setting.authorized_service_tag v o = inl (refl, refl)
get-set_setting Setting.proxy_keyword Setting.proxy_keyword v o = inl (refl, refl)
get-set_setting Setting.ldap_uri Setting.ldap_uri v o = inl (refl, refl)
get-set_setting Setting.ldap_base Setting.ldap_base v o = inl (refl, refl)
get-set_setting Setting.hosts_file Setting.hosts_file v o = inl (refl, refl)
get-set_setting Setting.users_file Setting.users_file v o = inl (refl, refl)
get-set_setting Setting.ssh_path Setting.ssh_path v o = inl (refl, refl)
get-set_setting Setting.nc_path Setting.nc_path v o = inl (refl, refl)
get-set_setting Setting.nc_timeout Setting.nc_timeout v o = inl (refl, refl)
get-set_setting Setting.geoip_dat Setting.geoip_dat v o = inl (refl, refl)
get-set_setting Setting.geoip6_dat Setting.geoip6_dat v o = inl (refl, refl)
get-set_setting _ _ v o = inr refl

set_setting-same :
    (t : Setting) (v : Option Bytes) (o : Options)
    → ((f : Flag) → get_flag f (set_setting t v o) ≡ get_flag f o)
      × ((set_setting t v o).auth_type ≡ o.auth_type)
      × ((set_setting t v o).host ≡ o.host)
      × ((set_setting t v o).port ≡ o.port)
set_setting-same t v o = (flags t, ground arith, ground arith, ground arith)
  where
    flags : (u : Setting) (f : Flag) → get_flag f (set_setting u v o) ≡ get_flag f o
    flags Setting.ssh_path Flag.debug = refl
    flags _ Flag.debug = refl
    flags _ _ = refl

pub set_setting-Extends :
    (t : Setting) (v : Option Bytes) (o : Options)
    → get_setting t o ≡ none
    → Extends o (set_setting t v o)
set_setting-Extends t v o unset = record {
  flags = λ f. inl ((set_setting-same t v o).0 f);
  strings = λ u. string_case u (get-set_setting t u v o);
  auth_type_same = (set_setting-same t v o).1;
  host_same = (set_setting-same t v o).2;
  port_same = (set_setting-same t v o).3;
}
  where
    string_case :
        (u : Setting)
        → ((t ≡ u) × (get_setting u (set_setting t v o) ≡ v))
          ⊎ (get_setting u (set_setting t v o) ≡ get_setting u o)
        → (get_setting u (set_setting t v o) ≡ get_setting u o) ⊎ (get_setting u o ≡ none)
    string_case u (inl (e, w)) = inr (subst (λ x. get_setting x o ≡ none) e unset)
    string_case u (inr same) = inl same
