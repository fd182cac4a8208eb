-- ===== src/Auth/Methods.antt =====
-- Whom `auth_user` of auth.c lets in, for each method.
use stonesh.Auth.{auth_proxy, local_user, ldap_user, by_type, auth_user}
use stonesh.AuthLdap.{
  Ldap, get_ldap_uri, get_ldap_base, get_filter, ldap_auth_success, get_auth_ldap,
}
use stonesh.AuthLdap.Decision.{CountsEntries, FindsEntry, get_auth_ldap_iff}
use stonesh.AuthLdap.Filters.{meant_filter, get_filter-whole}
use stonesh.AuthLocal.{get_auth_file}
use stonesh.AuthLocal.Grants.{get_auth_file_iff}
use stonesh.AuthLocal.Scans.{LineGrants}
use stonesh.Hosts.{line_room}
use stonesh.Libc.{read_lines}
use stonesh.Prelude.{
  ◌&&◌, int_eq, [], Option, some, ℤ, pos, Run, ok, fault, ◌>>=◌, ◌≡◌, ◌≢◌, ◌↔◌, inl, inr, refl, sym,
  ap, ◌∙◌, subst, Bytes, Any, Bool-cases, ok_injective,
}
use stonesh.Readconf.File.{FileSystem}
use stonesh.Readconf.Options.{Options, auth_type_any, auth_type_local, auth_type_ldap}
use stonesh.Util.{trim}
use stonesh.Auth.Branches.{
  Succeeds, ModeAllowed, permission, asked_tag, guarded_iff, returned_iff, by_type-any,
  by_type-local, by_type-ldap, local_permission,
}

module _ (files : FileSystem) (ldap : Ldap) (o : Options) (user host : Option Bytes)
    (mode : ℤ) where
  any_iff :
      o.auth_type ≡ auth_type_any
      → Succeeds (by_type files ldap o user host mode) ↔ (o.auth_type ≡ auth_type_any)
  any_iff e = (λ s. e, λ t. (_, by_type-any files ldap o user host mode e, refl))

  -- With the method "any", `auth_user` lets everyone in, but for proxy access where that is disabled.
  pub auth_user_any_iff :
      o.auth_type ≡ auth_type_any
      → Succeeds (auth_user files ldap o user host mode) ↔ ModeAllowed o mode
  auth_user_any_iff e =
      let g = guarded_iff files ldap o user host mode (any_iff e) in
      (λ s. (g.0 s).0, λ a. g.1 (a, e))

local_iff :
    (files : FileSystem) (ldap : Ldap) (o : Options) (user host file content : Bytes) (mode : ℤ)
    → o.auth_type ≡ auth_type_local
    → o.users_file ≡ some file
    → files file ≡ some content
    → Succeeds (by_type files ldap o (some user) (some host) mode)
      ↔ Any (LineGrants (trim user) (trim host) (permission o mode)) (read_lines line_room content)
local_iff files ldap o user host file content mode type named opened =
    let r =
      returned_iff files ldap o (some user) (some host) mode
        (local_user files o (some user) (some host) mode) in
    let g = get_auth_file_iff files user host file content (permission o mode) opened in
    let same : local_user files o (some user) (some host) mode
        ≡ get_auth_file files (some user) (some host) (some file) (permission o mode) =
      local_permission files o (some user) (some host) mode
      ∙ ap (λ f. get_auth_file files (some user) (some host) f (permission o mode)) named in
    rw (by_type-local files ldap o (some user) (some host) mode type)
      (λ s. g.0 (sym (ap (λ x. x.auth) same) ∙ r.0 s), λ a. r.1 (ap (λ x. x.auth) same ∙ g.1 a))

-- With the method "local" and a users file that can be opened, `auth_user` lets in exactly those whom
-- a line of the file grants the access: for the permission to use the proxy if proxy access is asked
-- for and its authorization is not disabled, and never for proxy access where that is disabled.
pub auth_user_local_iff :
    (files : FileSystem) (ldap : Ldap) (o : Options) (user host file content : Bytes) (mode : ℤ)
    → o.auth_type ≡ auth_type_local
    → o.users_file ≡ some file
    → files file ≡ some content
    → Succeeds (auth_user files ldap o (some user) (some host) mode) ↔ (
        ModeAllowed o mode
        × Any
            (LineGrants (trim user) (trim host) (permission o mode))
            (read_lines line_room content))
auth_user_local_iff files ldap o user host file content mode type named opened =
    guarded_iff files ldap o (some user) (some host) mode
      (local_iff files ldap o user host file content mode type named opened)

ldap_tag :
    (ldap : Ldap) (o : Options) (user host : Option Bytes) (mode : ℤ)
    → ldap_user ldap o user host mode ≡ get_auth_ldap ldap o user host (asked_tag o mode)
unfolding ldap_user
ldap_tag ldap o user host mode =
    elim (Bool-cases (int_eq mode auth_proxy && int_eq o.disable_proxy_authorization (pos 0))) [
      | inl e ↦ rw e
      | inr e ↦ rw e
    ]

passed_iff :
    (m : Run ℤ) (user host : Option Bytes)
    → Succeeds (m >>= (λ auth. ok (record { auth = auth; user = user; host = host })))
      ↔ (m ≡ ok ldap_auth_success)
passed_iff (ok v) user host = (
  λ (a, h, s). ap ok (ap (λ x. x.auth) (ok_injective _ a h) ∙ s),
  λ h. (_, refl, ok_injective v ldap_auth_success h),
)
passed_iff fault user host = (λ (a, h, s). absurd cc, λ h. absurd cc)

ldap_iff :
    (files : FileSystem) (ldap : Ldap) (o : Options) (user host : Option Bytes) (mode : ℤ)
    → o.auth_type ≡ auth_type_ldap
    → Succeeds (by_type files ldap o user host mode)
      ↔ (get_auth_ldap ldap o user host (asked_tag o mode) ≡ ok ldap_auth_success)
ldap_iff files ldap o user host mode type =
    let p = passed_iff (ldap_user ldap o user host mode) user host in
    let t = ldap_tag ldap o user host mode in
    rw (by_type-ldap files ldap o user host mode type) (λ s. sym t ∙ p.0 s, λ h. p.1 (t ∙ h))

-- With the method "LDAP", for a user, a host and a tag that are not empty, `auth_user` lets the user in
-- exactly if there are a uri and a base, and the server at the uri can be reached and answers the bind,
-- and the first message that it sends for the search below the base for the filter that is meant is
-- an entry: with the tag if proxy access is asked for and its authorization is not disabled. It never
-- does so for proxy access where that is disabled. `ldap_count_entries` counts 1 for an entry and for
-- no other message.
pub auth_user_ldap_iff :
    (files : FileSystem) (ldap : Ldap) (o : Options) (user host : Bytes) (mode : ℤ)
    → CountsEntries ldap
    → o.auth_type ≡ auth_type_ldap
    → o.use_ldap ≡ pos 1
    → user ≢ []
    → host ≢ []
    → asked_tag o mode ≢ some []
    → Succeeds (auth_user files ldap o (some user) (some host) mode) ↔ (
        ModeAllowed o mode
        × ((u : Bytes) × (b : Bytes) × (get_ldap_uri ldap o.ldap_uri ≡ some u)
            × (get_ldap_base ldap o.ldap_base ≡ some b)
            × FindsEntry ldap u b (meant_filter host user (asked_tag o mode))))
auth_user_ldap_iff files ldap o user host mode counts type used nu nh nt =
    guarded_iff files ldap o (some user) (some host) mode (forth, back)
  where
    whole :
        get_filter (some user) (some host) (asked_tag o mode)
        ≡ some (meant_filter host user (asked_tag o mode))
    whole = get_filter-whole user host (asked_tag o mode) nu nh nt

    type_iff :
        Succeeds (by_type files ldap o (some user) (some host) mode)
        ↔ (get_auth_ldap ldap o (some user) (some host) (asked_tag o mode) ≡ ok ldap_auth_success)
    type_iff = ldap_iff files ldap o (some user) (some host) mode type

    Found : Type 0
    Found =
        (u : Bytes) × (b : Bytes) × (get_ldap_uri ldap o.ldap_uri ≡ some u)
        × (get_ldap_base ldap o.ldap_base ≡ some b)
        × FindsEntry ldap u b (meant_filter host user (asked_tag o mode))

    same_text : (f g : Bytes) → some f ≡ some g → f ≡ g
    same_text f g h = cc

    forth : Succeeds (by_type files ldap o (some user) (some host) mode) → Found
    forth s =
        let (u, b, f, eu, eb, ef, one) =
          (get_auth_ldap_iff ldap o (some user) (some host) (asked_tag o mode) counts used).0
            (type_iff.0 s) in
        (u, b, eu, eb, subst (FindsEntry ldap u b) (same_text f _ (sym ef ∙ whole)) one)

    back : Found → Succeeds (by_type files ldap o (some user) (some host) mode)
    back (u, b, eu, eb, one) = type_iff.1 (
        (get_auth_ldap_iff ldap o (some user) (some host) (asked_tag o mode) counts used).1
          (u, b, meant_filter host user (asked_tag o mode), eu, eb, whole, one))
