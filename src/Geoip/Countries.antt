-- ===== src/Geoip/Countries.antt =====
-- Which clients `is_from_valid_country` of geoip.c lets through.
use stonesh.Geoip.{
  Family, af_inet, af_inet6, af_other, Net, getafbyaddr, getcountrybyaddr, getcountrybyaddr6,
  is_local, is_local6, match_country, check_code, by_family, is_from_valid_country,
}
use stonesh.Libc.{strncmp, strtok_all}
use stonesh.Libc.Fields.{strncmp-eq_iff}
use stonesh.Geoip.Addresses.{first_byte_test}
use stonesh.Prelude.{
  Bool, true, false, ◌&&◌, &&-eq-true, ==_iff, List, [], ◌∷◌, Option, none, some, ℤ, pos, int_eq,
  int_eq_iff, codes, str_eq, str_eq_iff, ap₂, ◌%◌, ◌≡◌, ◌≢◌, ◌⊎◌, ◌↔◌, inl, inr, refl, ap, subst,
  Bytes, ◌==◌, length, Any, Bool-cases, if◌then◌else◌,
}
use stonesh.Readconf.Options.{Options}
use stonesh.Util.{trim, strtoupper}

-- A part of the list is the country, but for blanks around it and the case.
abbrev pub IsCountry : Bytes → Bytes → Type 0
IsCountry country_code token = country_code ≡ strtoupper (trim token)

same_text : Bytes → Bytes → Bool
same_text a b = length a == length b && strncmp a b (length b)

same_text_iff : (a b : Bytes) → (same_text a b ≡ true) ↔ (a ≡ b)
unfolding same_text
same_text_iff a b = (forth, back)
  where
    forth : same_text a b ≡ true → a ≡ b
    forth h =
        let (l, s) = &&-eq-true (length a == length b) _ h in
        (strncmp-eq_iff a b ((==_iff _ _).0 l)).0 s

    back : a ≡ b → same_text a b ≡ true
    back e =
        let l = ap (λ (x : Bytes). length x) e in rw ((==_iff _ _).1 l) ((strncmp-eq_iff a b l).1 e)

match_country_iff :
    (country_code : Bytes) (tokens : List Bytes)
    → (match_country country_code tokens ≡ pos 1) ↔ Any (IsCountry country_code) tokens
unfolding match_country same_text
match_country_iff country_code [] = (λ h. absurd cc, λ h. absurd h)
match_country_iff country_code (token ∷ tokens) =
    let same = same_text_iff country_code (strtoupper (trim token)) in
    elim (Bool-cases (same_text country_code (strtoupper (trim token)))) [
      | inl e ↦ rw e (λ h. inl (same.0 e), λ h. refl)
      | inr e ↦ rw e (
        λ h. inr ((match_country_iff country_code tokens).0 h),
        λ h. (match_country_iff country_code tokens).1 (later same e h),
      )
    ]
  where
    later :
        (same_text country_code (strtoupper (trim token)) ≡ true) ↔ IsCountry country_code token
        → same_text country_code (strtoupper (trim token)) ≡ false
        → Any (IsCountry country_code) (token ∷ tokens)
        → Any (IsCountry country_code) tokens
    later same e (inl h) = absurd (let t = same.1 h in cc)
    later same e (inr h) = h

-- The bytes of `::1`.
abbrev pub loopback6 : Bytes
loopback6 = 0 ∷ 0 ∷ 0 ∷ 0 ∷ 0 ∷ 0 ∷ 0 ∷ 0 ∷ 0 ∷ 0 ∷ 0 ∷ 0 ∷ 0 ∷ 0 ∷ 0 ∷ 1 ∷ []

-- The client's address is a loopback address of its family: one in 127/8, or `::1`. The first byte of
-- an address is the lowest of the number.
abbrev pub IsLoopback : Net → Bytes → Option Family → Type 0
IsLoopback net address none = ⊥
IsLoopback net address (some af_inet) =
    ((net.inet_pton address).0 ≡ pos 1) × ((net.inet_pton address).1 % 256 ≡ 127)
IsLoopback net address (some af_inet6) = net.inet_pton6 address ≡ (pos 1, loopback6)
IsLoopback net address (some af_other) = ⊥

is_local_iff :
    (net : Net) (address : Bytes)
    → (is_local net address ≡ pos 1) ↔ IsLoopback net address (some af_inet)
unfolding is_local
is_local_iff net address = elim (Bool-cases (int_eq (net.inet_pton address).0 (pos 1))) [
  | inr e ↦ rw e (
    λ h. absurd (let t = (int_eq_iff (net.inet_pton address).0 (pos 1)).1 h in cc),
    λ h. absurd (let t = (int_eq_iff (net.inet_pton address).0 (pos 1)).1 h.0 in cc),
  )
  | inl e ↦
      let t = first_byte_test (net.inet_pton address).1 in
      rw e (λ h. ((int_eq_iff _ _).0 e, t.0 h), λ h. t.1 h.1)
]

is_local6_iff :
    (net : Net) (address : Bytes)
    → net.inet_pton6 (codes "::1") ≡ (pos 1, loopback6)
    → (is_local6 net address ≡ pos 1) ↔ IsLoopback net address (some af_inet6)
unfolding is_local6
is_local6_iff net address one =
    rw one (elim (Bool-cases (int_eq (net.inet_pton6 address).0 (pos 1))) [
      | inr e ↦ rw e (
        λ h. absurd (let t = (int_eq_iff (net.inet_pton6 address).0 (pos 1)).1 h in cc),
        λ h.
            absurd
              (let t = (int_eq_iff (net.inet_pton6 address).0 (pos 1)).1 (ap (λ r. r.0) h) in cc),
      )
      | inl e ↦
          let result = (int_eq_iff _ _).0 e in
          let t = str_eq_iff (net.inet_pton6 address).1 loopback6 in
          elim (Bool-cases (str_eq (net.inet_pton6 address).1 loopback6)) [
            | inl m ↦ rw (e, m) (λ h. ap₂ (λ x y. (x, y)) result (t.0 m), λ h. refl)
            | inr m ↦ rw (e, m) (λ h. absurd cc, λ h. absurd (let m' = t.1 (ap (λ r. r.1) h) in cc))
          ]
    ])

-- The country code that the data file for the address's family has for it.
abbrev pub country_of : Net → Options → Bytes → Option Family → Option Bytes
country_of net o address none = none
country_of net o address (some af_inet) = getcountrybyaddr net address o.geoip_dat
country_of net o address (some af_inet6) = getcountrybyaddr6 net address o.geoip6_dat
country_of net o address (some af_other) = none

-- Some part of the list is the country.
abbrev pub ListsCountry : Bytes → Bytes → Option Bytes → Type 0
ListsCountry country_list delim country =
    (code : Bytes) × (country ≡ some code) × Any (IsCountry code) (strtok_all country_list delim)

pub check_code_iff :
    (country : Option Bytes) (country_list delim : Bytes)
    → (check_code country country_list delim ≡ pos 1) ↔ ListsCountry country_list delim country
unfolding check_code
check_code_iff none country_list delim = (λ h. absurd cc, λ (c, e, a). absurd cc)
check_code_iff (some code) country_list delim =
    let m = match_country_iff code (strtok_all country_list delim) in
    (λ h. (code, refl, m.0 h), λ (c, e, a). m.1 (retarget c e a))
  where
    retarget :
        (c : Bytes)
        → some code ≡ some c
        → Any (IsCountry c) (strtok_all country_list delim)
        → Any (IsCountry code) (strtok_all country_list delim)
    retarget c e a =
        let same : c ≡ code = cc in
        subst (λ x. Any (IsCountry x) (strtok_all country_list delim)) same a

loopback_or :
    (v : ℤ) (rest : ℤ) {L G : Type 0}
    → (v ≡ pos 1) ↔ L
    → (rest ≡ pos 1) ↔ G
    → ((if int_eq v (pos 1) then pos 1 else rest) ≡ pos 1) ↔ (L ⊎ G)
loopback_or v rest {L} {G} l g = elim (Bool-cases (int_eq v (pos 1))) [
  | inl e ↦ rw e (λ h. inl (l.0 ((int_eq_iff v (pos 1)).0 e)), λ h. refl)
  | inr e ↦ rw e (λ h. inr (g.0 h), λ h. g.1 (other e h))
]
  where
    other : int_eq v (pos 1) ≡ false → L ⊎ G → G
    other e (inl h) = absurd (let t = (int_eq_iff v (pos 1)).1 (l.1 h) in cc)
    other e (inr h) = h

by_family_iff :
    (net : Net) (o : Options) (address country_list delim : Bytes) (family : Option Family)
    → net.inet_pton6 (codes "::1") ≡ (pos 1, loopback6)
    → (by_family net o address country_list delim family ≡ pos 1) ↔ (
        IsLoopback net address family
        ⊎ ListsCountry country_list delim (country_of net o address family))
unfolding by_family
by_family_iff net o address country_list delim none one =
    let c = check_code_iff none country_list delim in
    (λ h. inr (c.0 h), λ h. elim h [ inl f ↦ absurd f | inr g ↦ c.1 g ])
by_family_iff net o address country_list delim (some af_other) one =
    let c = check_code_iff none country_list delim in
    (λ h. inr (c.0 h), λ h. elim h [ inl f ↦ absurd f | inr g ↦ c.1 g ])
by_family_iff net o address country_list delim (some af_inet) one =
    loopback_or (is_local net address) _ (is_local_iff net address)
      (check_code_iff _ country_list delim)
by_family_iff net o address country_list delim (some af_inet6) one =
    loopback_or (is_local6 net address) _ (is_local6_iff net address one)
      (check_code_iff _ country_list delim)

-- For a list that is not empty, and if `inet_pton` reads `::1` as it should, `is_from_valid_country`
-- returns 1 exactly if the address is a loopback address of its family, in 127/8 or `::1`, or the data file for its family has a country code for it and some part
-- of the list is that code, but for blanks around it and small letters. Without a code it fails.
pub is_from_valid_country_iff :
    (net : Net) (o : Options) (address country_list delim : Bytes)
    → net.inet_pton6 (codes "::1") ≡ (pos 1, loopback6)
    → country_list ≢ []
    → (is_from_valid_country net o address (some country_list) (some delim) ≡ pos 1) ↔ (
        IsLoopback net address (getafbyaddr net address)
        ⊎ ListsCountry country_list delim (country_of net o address (getafbyaddr net address)))
unfolding is_from_valid_country
is_from_valid_country_iff net o address [] delim one ne = absurd (ne refl)
is_from_valid_country_iff net o address (c ∷ country_list) delim one ne =
    by_family_iff net o address (c ∷ country_list) delim (getafbyaddr net address) one
