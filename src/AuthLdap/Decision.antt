-- ===== src/AuthLdap/Decision.antt =====
-- What `get_auth_ldap` of auth_ldap.c decides.
use stonesh.AuthLdap.{
  Ldap, SearchMessage, entry, ldap_auth_success, get_ldap_uri, get_ldap_base, get_filter,
  is_positive, search_ldap, with_server, get_auth_ldap,
}
use stonesh.Prelude.{
  ℕ, suc, zero, true, Option, none, some, ℤ, pos, negsuc, int_eq, int_eq_iff, ok, ◌≡◌, ◌↔◌, inl,
  inr, refl, ap, arith, Bytes, Bool-cases,
}
use stonesh.Readconf.Options.{Options}

-- What `ldap_count_entries` does on one message: it counts 1 for an entry and for nothing else.
abbrev pub CountsEntries : Ldap → Type 0
CountsEntries ldap = (m : Option SearchMessage) → (ldap.count_entries m ≡ pos 1) ↔ (m ≡ some entry)

-- The server can be reached, the bind is answered, and the first message for the search is an entry.
abbrev pub FindsEntry : Ldap → Bytes → Bytes → Bytes → Type 0
FindsEntry ldap uri base filter =
    (ldap.initialize uri ≡ true)
    × ((n : ℕ) × (ldap.bind_result uri ≡ pos (suc n)))
    × (ldap.search_answer uri base filter ≡ some entry)

is_positive_iff : (v : ℤ) → (is_positive v ≡ true) ↔ ((n : ℕ) × (v ≡ pos (suc n)))
unfolding is_positive
is_positive_iff (pos zero) = (λ h. absurd cc, λ (n, e). absurd cc)
is_positive_iff (pos (suc n)) = (λ h. (n, refl), λ h. ground arith)
is_positive_iff (negsuc n) = (λ h. absurd cc, λ (m, e). absurd cc)

pub search_ldap_iff :
    (ldap : Ldap) (uri base filter : Bytes)
    → CountsEntries ldap
    → (search_ldap ldap uri base filter ≡ ldap_auth_success) ↔ FindsEntry ldap uri base filter
unfolding search_ldap
search_ldap_iff ldap uri base filter counts = elim (Bool-cases (ldap.initialize uri)) [
  | inr e ↦ rw e (λ h. absurd cc, λ h. absurd cc)
  | inl e ↦ elim (Bool-cases (is_positive (ldap.bind_result uri))) [
    | inr p ↦ rw e (
        rw p (
          λ h. absurd cc,
          λ h. let q = (is_positive_iff (ldap.bind_result uri)).1 h.1 in absurd cc,
        ))
    | inl p ↦
        elim (Bool-cases
          (int_eq (ldap.count_entries (ldap.search_answer uri base filter)) (pos 1))) [
            | inr c ↦ rw e (
                rw p (
                  rw c (
                    λ h. absurd cc,
                    λ h.
                        let one = (counts (ldap.search_answer uri base filter)).1 h.2 in
                        let q =
                          (int_eq_iff (ldap.count_entries (ldap.search_answer uri base filter))
                              (pos 1)).1
                            one in
                        absurd cc,
                  )))
            | inl c ↦ rw e (
                rw p (
                  rw c (
                    λ h. (refl, (is_positive_iff _).0 p, (counts _).0 ((int_eq_iff _ _).0 c)),
                    λ h. refl,
                  )))
          ]
  ]
]

-- What the switch on missing data does: a uri, a base and a filter are needed.
with_server_iff :
    (ldap : Ldap) (uri base filter : Option Bytes)
    → CountsEntries ldap
    → (with_server ldap uri base filter ≡ ok ldap_auth_success) ↔ (
        (u : Bytes) × (b : Bytes) × (f : Bytes) × (uri ≡ some u)
        × (base ≡ some b)
        × (filter ≡ some f)
        × FindsEntry ldap u b f)
unfolding with_server
with_server_iff ldap (some u) (some b) (some f) counts = (
  λ h. (u, b, f, refl, refl, refl, (search_ldap_iff ldap u b f counts).0 cc),
  λ (u', b', f', eu, eb, ef, found).
      let pu : u ≡ u' = cc in
      let pb : b ≡ b' = cc in
      let pf : f ≡ f' = cc in
      ap ok (rw (pu, pb, pf) ((search_ldap_iff ldap u' b' f' counts).1 found)),
)
with_server_iff ldap none b f counts = (λ h. absurd cc, λ (u', b', f', eu, eb, ef, r). absurd cc)
with_server_iff ldap (some u) none f counts =
    (λ h. absurd cc, λ (u', b', f', eu, eb, ef, r). absurd cc)
with_server_iff ldap (some u) (some b) none counts =
    (λ h. absurd cc, λ (u', b', f', eu, eb, ef, r). absurd cc)

-- If LDAP is used, `get_auth_ldap` returns success exactly if there are a uri, a base and a filter,
-- the server at the uri can be reached and answers the bind, and the first message that it sends for
-- the search below the base for the filter is an entry, where `ldap_count_entries` counts 1 for an
-- entry and for no other message.
pub get_auth_ldap_iff :
    (ldap : Ldap) (o : Options) (user host tag : Option Bytes)
    → CountsEntries ldap
    → o.use_ldap ≡ pos 1
    → (get_auth_ldap ldap o user host tag ≡ ok ldap_auth_success) ↔ (
        (u : Bytes) × (b : Bytes) × (f : Bytes) × (get_ldap_uri ldap o.ldap_uri ≡ some u)
        × (get_ldap_base ldap o.ldap_base ≡ some b)
        × (get_filter user host tag ≡ some f)
        × FindsEntry ldap u b f)
unfolding get_auth_ldap
get_auth_ldap_iff ldap o user host tag counts used = rw used (
    with_server_iff ldap (get_ldap_uri ldap o.ldap_uri) (get_ldap_base ldap o.ldap_base)
      (get_filter user host tag) counts)
