-- ===== src/Stonesh/Country.antt =====
-- The check of the client's country in stonesh.c, on the options that it reads.
use stonesh.Auth.{auth_success}
use stonesh.Geoip.{
  Net, Family, af_inet, af_inet6, af_other, getcountrybyaddr, getcountrybyaddr6, getafbyaddr,
  is_local, is_local6, check_code, by_family, is_from_valid_country,
}
use stonesh.Prelude.{
  [], ◌∷◌, Option, none, some, ℤ, pos, int_eq, ◌≡◌, refl, ap, Bytes, if◌then◌else◌,
}
use stonesh.Readconf.Options.{Options}
use stonesh.Stonesh.{check_country}

-- Only the two data files count.
module _ (net : Net) (o o' : Options) (dat : o.geoip_dat ≡ o'.geoip_dat)
    (dat6 : o.geoip6_dat ≡ o'.geoip6_dat) where
  by_family-data :
      (address countries delim : Bytes) (family : Option Family)
      → by_family net o address countries delim family
        ≡ by_family net o' address countries delim family
  unfolding by_family
  by_family-data address countries delim (some af_inet) =
      ap
        (λ f.
          if int_eq (is_local net address) (pos 1)
          then pos 1
          else check_code (getcountrybyaddr net address f) countries delim)
        dat
  by_family-data address countries delim (some af_inet6) =
      ap
        (λ f.
          if int_eq (is_local6 net address) (pos 1)
          then pos 1
          else check_code (getcountrybyaddr6 net address f) countries delim)
        dat6
  by_family-data address countries delim (some af_other) = refl
  by_family-data address countries delim none = refl

  is_from_valid_country-data :
      (address countries delim : Bytes)
      → is_from_valid_country net o address (some countries) (some delim)
        ≡ is_from_valid_country net o' address (some countries) (some delim)
  unfolding is_from_valid_country
  is_from_valid_country-data address [] delim = refl
  is_from_valid_country-data address (c ∷ countries) delim =
      by_family-data address (c ∷ countries) delim (getafbyaddr net address)

  pub check_country-data :
      (countries rhost : Option Bytes) (auth : ℤ)
      → check_country net o countries rhost auth ≡ check_country net o' countries rhost auth
  unfolding check_country
  check_country-data none rhost auth = refl
  check_country-data (some countries) none auth = refl
  check_country-data (some countries) (some r) auth =
      ap (λ v. if int_eq auth (pos 0) then auth else v)
        (is_from_valid_country-data r countries (b',' ∷ []))

-- Without a list of countries no one is refused for the country.
pub no_countries :
    (net : Net) (o : Options) (rhost : Option Bytes)
    → check_country net o (some []) rhost auth_success ≡ auth_success
unfolding check_country is_from_valid_country
no_countries net o none = refl
no_countries net o (some r) = refl
