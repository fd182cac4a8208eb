-- ===== src/Auth.antt =====
-- auth.c: `auth_user`, which picks the authorization method.
pub mod Branches
pub mod Methods
pub mod Verdict
pub mod Session
pub mod Once
use stonesh.AuthLdap.{Ldap, get_auth_ldap}
use stonesh.AuthLocal.{LocalAuth, get_auth_file}
use stonesh.Prelude.{
  Bool, true, false, ◌&&◌, Option, none, some, ℤ, pos, minus_one, int_eq, Run, ok, fault, ◌>>=◌,
  Bytes, if◌then◌else◌,
}
use stonesh.Readconf.File.{FileSystem}
use stonesh.Readconf.Options.{Options, auth_type_any, auth_type_local, auth_type_ldap}

abbrev pub auth_bastion : ℤ
auth_bastion = pos 1

abbrev pub auth_proxy : ℤ
auth_proxy = pos 2

abbrev pub auth_error : ℤ
auth_error = minus_one

abbrev pub auth_failure : ℤ
auth_failure = pos 0

abbrev pub auth_success : ℤ
auth_success = pos 1

-- The result, and the strings of the caller as they are after the call.
abbrev pub Answer : Type 0
Answer = LocalAuth

abbrev pub answer : Option Bytes → Option Bytes → ℤ → Answer
answer user host auth = record { auth = auth; user = user; host = host }

-- `mode == AUTH_PROXY && options.disable_proxy_authorization == 0`
abbrev pub asks_proxy : Options → ℤ → Bool
asks_proxy o mode = int_eq mode auth_proxy && int_eq o.disable_proxy_authorization (pos 0)

-- The branch for AUTH_TYPE_LOCAL.
unfoldable pub local_user : FileSystem → Options → Option Bytes → Option Bytes → ℤ → Answer
local_user files o user host mode =
    if asks_proxy o mode
    then get_auth_file files user host o.users_file (pos 1)
    else get_auth_file files user host o.users_file (pos 0)

-- The branch for AUTH_TYPE_LDAP.
unfoldable pub ldap_user : Ldap → Options → Option Bytes → Option Bytes → ℤ → Run ℤ
ldap_user ldap o user host mode =
    if asks_proxy o mode
    then get_auth_ldap ldap o user host o.authorized_service_tag
    else get_auth_ldap ldap o user host none

-- The switch on the method.
unfoldable pub by_type : FileSystem → Ldap → Options → Option Bytes → Option Bytes → ℤ → Run Answer
by_type files ldap o user host mode =
    if int_eq o.auth_type auth_type_any
    then ok (answer user host auth_success)
    else if int_eq o.auth_type auth_type_local
    then ok (local_user files o user host mode)
    else if int_eq o.auth_type auth_type_ldap
    then ldap_user ldap o user host mode >>= (λ auth. ok (answer user host auth))
    else ok (answer user host auth_error)

unfoldable pub auth_user :
    FileSystem → Ldap → Options → Option Bytes → Option Bytes → ℤ → Run Answer
auth_user files ldap o user host mode =
    if int_eq o.enable_proxy (pos 0) && int_eq mode auth_proxy
    then ok (answer user host auth_failure)
    else by_type files ldap o user host mode
