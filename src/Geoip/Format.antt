-- ===== src/Geoip/Format.antt =====
-- The list of countries `us,ca` of the hosts file, as geoip.c reads it.
use stonesh.Geoip.{check_code}
use stonesh.Geoip.Countries.{IsCountry, ListsCountry, check_code_iff}
use stonesh.Libc.{strtok_all}
use stonesh.Libc.Fields.{join, IsToken, strtok_all-join}
use stonesh.Prelude.{
  List, [], ◌∷◌, some, pos, ◌≡◌, ◌↔◌, inl, inr, refl, sym, ap, ◌∙◌, subst, Bytes, All, Any,
}
use stonesh.Util.{trim, strtoupper}
use stonesh.Util.Clean.{IsClean, clean_trim}

-- A name in the list: not empty, and without blanks, comment marks and commas.
abbrev pub IsName : Bytes → Type 0
IsName name = IsToken b',' name × All IsClean name

name_tokens : (names : List Bytes) → All IsName names → All (IsToken b',') names
name_tokens [] h = tt
name_tokens (n ∷ names) (h, hs) = (h.0, name_tokens names hs)

names_iff :
    (code : Bytes) (names : List Bytes)
    → All IsName names
    → Any (IsCountry code) names ↔ Any (λ name. code ≡ strtoupper name) names
names_iff code [] h = (λ a. a, λ a. a)
names_iff code (n ∷ names) (h, hs) =
    let same : strtoupper (trim n) ≡ strtoupper n = ap strtoupper (clean_trim n h.1) in
    (
      λ a. elim a [ inl e ↦ inl (e ∙ same) | inr m ↦ inr ((names_iff code names hs).0 m) ],
      λ a. elim a [ inl e ↦ inl (e ∙ sym same) | inr m ↦ inr ((names_iff code names hs).1 m) ],
    )

Lists-join_iff :
    (code : Bytes) (names : List Bytes)
    → All IsName names
    → ListsCountry (join b',' names) (b',' ∷ []) (some code)
      ↔ Any (λ name. code ≡ strtoupper name) names
Lists-join_iff code names h = (forth, back)
  where
    parts : strtok_all (join b',' names) (b',' ∷ []) ≡ names
    parts = strtok_all-join b',' names (name_tokens names h)

    same_code : (c : Bytes) → some code ≡ some c → c ≡ code
    same_code c e = cc

    forth :
        ListsCountry (join b',' names) (b',' ∷ []) (some code)
        → Any (λ name. code ≡ strtoupper name) names
    forth (c, e, a) = (names_iff code names h).0 (
        subst (Any (IsCountry code)) parts (
          subst (λ x. Any (IsCountry x) (strtok_all (join b',' names) (b',' ∷ []))) (same_code c e)
            a))

    back :
        Any (λ name. code ≡ strtoupper name) names
        → ListsCountry (join b',' names) (b',' ∷ []) (some code)
    back a = (code, refl, subst (Any (IsCountry code)) (sym parts) ((names_iff code names h).1 a))

-- A list that is written as names with commas between them lets a country code through exactly if one
-- of the names is the code, but for small letters. A name is not empty and has no blank, comma or
-- comment mark.
pub check_code-join_iff :
    (code : Bytes) (names : List Bytes)
    → All IsName names
    → (check_code (some code) (join b',' names) (b',' ∷ []) ≡ pos 1)
      ↔ Any (λ name. code ≡ strtoupper name) names
check_code-join_iff code names h =
    let c = check_code_iff (some code) (join b',' names) (b',' ∷ []) in
    let l = Lists-join_iff code names h in (λ e. l.0 (c.0 e), λ a. c.1 (l.1 a))
