-- ===== src/Auth/Verdict.antt =====
-- Laws of `auth_user` of auth.c that hold for every method.
use stonesh.Auth.{
  asks_proxy, auth_proxy, auth_bastion, auth_success, auth_failure, local_user, ldap_user, by_type,
  auth_user,
}
use stonesh.Auth.Branches.{
  Succeeds, permission, by_type-any, by_type-local, by_type-ldap, local_permission,
}
use stonesh.Auth.Methods.{auth_user_local_iff}
use stonesh.AuthLdap.{Ldap, search_ldap, with_server, get_auth_ldap}
use stonesh.AuthLocal.Grants.{get_auth_file-cases}
use stonesh.AuthLocal.Scans.{HostGrants, here, later, LineGrants}
use stonesh.Prelude.{
  Bool, true, false, ◌&&◌, List, [], ◌∷◌, Option, none, some, ℤ, pos, int_eq, Safe, bind-Safe, ◌≡◌,
  ◌⊎◌, inl, inr, refl, Bytes, Any, Bool-cases, if◌then◌else◌,
}
use stonesh.Readconf.File.{FileSystem}
use stonesh.Readconf.Options.{Options, auth_type_local}
use stonesh.Readconf.Options.Defaults.{IsComplete}
use stonesh.Util.{trim}

-- A failure or a success, and no error.
abbrev pub IsVerdict : ℤ → Type 0
IsVerdict v = (v ≡ auth_failure) ⊎ (v ≡ auth_success)

test-IsVerdict : (b : Bool) (v : ℤ) → IsVerdict v → IsVerdict (if b then v else auth_failure)
test-IsVerdict true v h = h
test-IsVerdict false v h = inl refl

search_ldap-IsVerdict :
    (ldap : Ldap) (uri base filter : Bytes) → IsVerdict (search_ldap ldap uri base filter)
unfolding search_ldap
search_ldap-IsVerdict ldap uri base filter = test-IsVerdict (ldap.initialize uri) _ (
    test-IsVerdict _ _ (
      test-IsVerdict (int_eq (ldap.count_entries (ldap.search_answer uri base filter)) (pos 1)) _
        (inr refl)))

with_server-IsVerdict :
    (ldap : Ldap) (uri base filter : Option Bytes)
    → Safe IsVerdict (with_server ldap uri base filter)
unfolding with_server
with_server-IsVerdict ldap (some u) (some b) (some f) = search_ldap-IsVerdict ldap u b f
with_server-IsVerdict ldap none b f = tt
with_server-IsVerdict ldap (some u) none f = tt
with_server-IsVerdict ldap (some u) (some b) none = tt

get_auth_ldap-IsVerdict :
    (ldap : Ldap) (o : Options) (user host tag : Option Bytes)
    → Safe IsVerdict (get_auth_ldap ldap o user host tag)
unfolding get_auth_ldap
get_auth_ldap-IsVerdict ldap o user host tag = elim (Bool-cases (int_eq o.use_ldap (pos 0))) [
  | inl e ↦ rw e (inr refl)
  | inr e ↦ rw e (with_server-IsVerdict ldap _ _ _)
]

ldap_user-IsVerdict :
    (ldap : Ldap) (o : Options) (user host : Option Bytes) (mode : ℤ)
    → Safe IsVerdict (ldap_user ldap o user host mode)
unfolding ldap_user
ldap_user-IsVerdict ldap o user host mode = elim (Bool-cases (asks_proxy o mode)) [
  | inl e ↦ rw e (get_auth_ldap-IsVerdict ldap o user host o.authorized_service_tag)
  | inr e ↦ rw e (get_auth_ldap-IsVerdict ldap o user host none)
]

local_user-IsVerdict :
    (files : FileSystem) (o : Options) (user host : Option Bytes) (mode : ℤ)
    → IsVerdict (local_user files o user host mode).auth
local_user-IsVerdict files o user host mode =
    rw (local_permission files o user host mode)
      (get_auth_file-cases files user host o.users_file (permission o mode))

module _ (files : FileSystem) (ldap : Ldap) (o : Options) (user host : Option Bytes)
    (mode : ℤ) where
  by_type-IsVerdict :
      IsComplete o → Safe (λ a. IsVerdict a.auth) (by_type files ldap o user host mode)
  by_type-IsVerdict c = elim c.auth_type_known [
    | inl any ↦ rw (by_type-any files ldap o user host mode any) (inr refl)
    | inr (inl local) ↦
        rw (by_type-local files ldap o user host mode local)
          (local_user-IsVerdict files o user host mode)
    | inr (inr type) ↦ rw (by_type-ldap files ldap o user host mode type) (
        bind-Safe IsVerdict (λ a. IsVerdict a.auth) (ldap_user ldap o user host mode) _
          (ldap_user-IsVerdict ldap o user host mode) (λ v h. h))
  ]

  -- On options that are complete, `auth_user` never returns AUTH_ERROR: if it returns, it returns
  -- failure or success.
  pub auth_user-IsVerdict :
      IsComplete o → Safe (λ a. IsVerdict a.auth) (auth_user files ldap o user host mode)
  unfolding auth_user
  auth_user-IsVerdict c =
      elim (Bool-cases (int_eq o.enable_proxy (pos 0) && int_eq mode auth_proxy)) [
        | inl e ↦ rw e (inl refl)
        | inr e ↦ rw e (by_type-IsVerdict c)
      ]

bastion_host :
    (host : Bytes) (tokens : List Bytes)
    → HostGrants host (pos 1) tokens
    → HostGrants host (pos 0) tokens
bastion_host host [] g = elim g [ ]
bastion_host host (token ∷ tokens) (here s a) = here s (λ e. absurd cc)
bastion_host host (token ∷ tokens) (later n g) = later n (bastion_host host tokens g)

bastion_lines :
    (user host : Bytes) (lines : List Bytes)
    → Any (LineGrants user host (pos 1)) lines
    → Any (LineGrants user host (pos 0)) lines
bastion_lines user host [] h = absurd h
bastion_lines user host (line ∷ lines) (inl (ne, s, (hosts, e, g))) =
    inl (ne, s, (hosts, e, bastion_host host _ g))
bastion_lines user host (line ∷ lines) (inr h) = inr (bastion_lines user host lines h)

proxy_bastion :
    (user host : Bytes) (o : Options) (lines : List Bytes)
    → Any (LineGrants user host (permission o auth_proxy)) lines
    → Any (LineGrants user host (permission o auth_bastion)) lines
proxy_bastion user host o lines h = elim (Bool-cases (asks_proxy o auth_proxy)) [
  | inl e ↦ let h' = rw e at h in bastion_lines user host lines h'
  | inr e ↦ rw e at h
]

-- With the method "local" and a users file that can be opened, whoever `auth_user` lets in as a proxy
-- user of a host it also lets in as a bastion user.
pub auth_user-bastion :
    (files : FileSystem) (ldap : Ldap) (o : Options) (user host file content : Bytes)
    → o.auth_type ≡ auth_type_local
    → o.users_file ≡ some file
    → files file ≡ some content
    → Succeeds (auth_user files ldap o (some user) (some host) auth_proxy)
    → Succeeds (auth_user files ldap o (some user) (some host) auth_bastion)
auth_user-bastion files ldap o user host file content type named opened s =
    let proxy =
      auth_user_local_iff files ldap o user host file content auth_proxy type named opened in
    let bastion =
      auth_user_local_iff files ldap o user host file content auth_bastion type named opened in
    bastion.1 (λ (p, m). cc, proxy_bastion (trim user) (trim host) o _ (proxy.0 s).1)
