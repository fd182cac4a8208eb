-- ===== src/Auth/Branches.antt =====
-- The branches of `auth_user` of auth.c, and the guard in front of them.
use stonesh.Auth.{
  Answer, auth_proxy, auth_success, auth_failure, local_user, ldap_user, by_type, auth_user,
}
use stonesh.AuthLdap.{Ldap}
use stonesh.AuthLocal.{get_auth_file}
use stonesh.Prelude.{
  true, false, ◌&&◌, &&-eq-true, Option, none, ℤ, pos, int_eq, int_eq_iff, Run, ok, fault, ◌>>=◌,
  ◌≡◌, ◌⊎◌, ◌↔◌, inl, inr, refl, ap, ◌∙◌, Bytes, Bool-cases, ok_injective, if◌then◌else◌,
}
use stonesh.Readconf.File.{FileSystem}
use stonesh.Readconf.Options.{Options, auth_type_any, auth_type_local, auth_type_ldap}

-- The call returns, and returns success.
abbrev pub Succeeds : Run Answer → Type 0
Succeeds m = (a : Answer) × (m ≡ ok a) × (a.auth ≡ auth_success)

-- Proxy access is only asked for where it is enabled.
abbrev pub ModeAllowed : Options → ℤ → Type 0
ModeAllowed o mode = ¬ ((o.enable_proxy ≡ pos 0) × (mode ≡ auth_proxy))

-- What the method is asked for: the permission of the users file, and the service tag, if proxy access
-- is asked for and its authorization is not disabled.
abbrev pub permission : Options → ℤ → ℤ
permission o mode =
    if int_eq mode auth_proxy && int_eq o.disable_proxy_authorization (pos 0) then pos 1 else pos 0

abbrev pub asked_tag : Options → ℤ → Option Bytes
asked_tag o mode =
    if int_eq mode auth_proxy && int_eq o.disable_proxy_authorization (pos 0)
    then o.authorized_service_tag
    else none

module _ (files : FileSystem) (ldap : Ldap) (o : Options) (user host : Option Bytes)
    (mode : ℤ) where
  pub mode_cases :
      (ModeAllowed o mode × ((int_eq o.enable_proxy (pos 0) && int_eq mode auth_proxy) ≡ false))
      ⊎ (¬ ModeAllowed o mode × ((int_eq o.enable_proxy (pos 0) && int_eq mode auth_proxy) ≡ true))
  mode_cases = elim (Bool-cases (int_eq o.enable_proxy (pos 0) && int_eq mode auth_proxy)) [
    | inl e ↦
        let (p, m) = &&-eq-true _ _ e in
        inr (λ allowed. allowed ((int_eq_iff _ _).0 p, (int_eq_iff _ _).0 m), e)
    | inr e ↦ inl (
      λ (p, m).
          let p' = (int_eq_iff o.enable_proxy (pos 0)).1 p in
          let m' = (int_eq_iff mode auth_proxy).1 m in cc,
      e,
    )
  ]

  -- The guard in front of the switch.
  pub guarded_iff :
      {G : Type 0}
      → Succeeds (by_type files ldap o user host mode) ↔ G
      → Succeeds (auth_user files ldap o user host mode) ↔ (ModeAllowed o mode × G)
  unfolding auth_user
  guarded_iff {G} inside = elim mode_cases [
    | inl (allowed, e) ↦ rw e (λ s. (allowed, inside.0 s), λ (a, g). inside.1 g)
    | inr (refused, e) ↦ rw e (
      λ (a, h, s). absurd (let q : auth_failure ≡ a.auth = ap (λ r. answer_of r) h in cc),
      λ (a, g). absurd (refused a),
    )
  ]
    where
      answer_of : Run Answer → ℤ
      answer_of (ok a) = a.auth
      answer_of fault = auth_failure

  pub returned_iff : (a : Answer) → Succeeds (ok a) ↔ (a.auth ≡ auth_success)
  returned_iff a = (λ (b, h, s). ap (λ x. x.auth) (ok_injective a b h) ∙ s, λ s. (a, refl, s))

  -- What the switch does for the known methods.
  pub by_type-any :
      o.auth_type ≡ auth_type_any
      → by_type files ldap o user host mode
        ≡ ok (record { auth = auth_success; user = user; host = host })
  unfolding by_type
  by_type-any e =
      let e1 : int_eq o.auth_type auth_type_any ≡ true = ap (λ t. int_eq t auth_type_any) e in rw e1

  pub by_type-local :
      o.auth_type ≡ auth_type_local
      → by_type files ldap o user host mode ≡ ok (local_user files o user host mode)
  unfolding by_type
  by_type-local e =
      let e1 : int_eq o.auth_type auth_type_any ≡ false = ap (λ t. int_eq t auth_type_any) e in
      let e2 : int_eq o.auth_type auth_type_local ≡ true = ap (λ t. int_eq t auth_type_local) e in
      rw (e1, e2)

  pub by_type-ldap :
      o.auth_type ≡ auth_type_ldap
      → by_type files ldap o user host mode ≡ (
          ldap_user ldap o user host mode
          >>= (λ auth. ok (record { auth = auth; user = user; host = host })))
  unfolding by_type
  by_type-ldap e =
      let e1 : int_eq o.auth_type auth_type_any ≡ false = ap (λ t. int_eq t auth_type_any) e in
      let e2 : int_eq o.auth_type auth_type_local ≡ false = ap (λ t. int_eq t auth_type_local) e in
      let e3 : int_eq o.auth_type auth_type_ldap ≡ true = ap (λ t. int_eq t auth_type_ldap) e in
      rw (e1, e2, e3)

pub local_permission :
    (files : FileSystem) (o : Options) (user host : Option Bytes) (mode : ℤ)
    → local_user files o user host mode
      ≡ get_auth_file files user host o.users_file (permission o mode)
unfolding local_user
local_permission files o user host mode =
    elim (Bool-cases (int_eq mode auth_proxy && int_eq o.disable_proxy_authorization (pos 0))) [
      | inl e ↦ rw e
      | inr e ↦ rw e
    ]
