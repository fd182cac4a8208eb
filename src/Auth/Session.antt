-- ===== src/Auth/Session.antt =====
-- `auth_user` of auth.c once more, with its messages and those of the functions that it calls.
use stonesh.Auth.{Answer, auth_proxy, auth_error, auth_failure, auth_success, asks_proxy, answer}
use stonesh.AuthLdap.{Ldap}
use stonesh.AuthLdap.Report.{Ends, get_auth_ldap_io}
use stonesh.AuthLocal.Session.{get_auth_file_io}
use stonesh.Libc.{decimal}
use stonesh.Log.{error}
use stonesh.Prelude.{
  ◌&&◌, [], ◌∷◌, Option, none, ℤ, pos, int_eq, Run, ok, ◌>>=◌, Bytes, codes, if◌then◌else◌,
}
use stonesh.Readconf.Options.{Options, auth_type_any, auth_type_local, auth_type_ldap}
use stonesh.Streams.{Disk, Io, tell}

-- The branch for AUTH_TYPE_LOCAL.
unfoldable pub local_user_io : Disk → Options → Option Bytes → Option Bytes → ℤ → Io → Answer × Io
local_user_io disk o user host mode io =
    if asks_proxy o mode
    then get_auth_file_io disk user host o.users_file (pos 1) io
    else get_auth_file_io disk user host o.users_file (pos 0) io

-- The branch for AUTH_TYPE_LDAP.
unfoldable pub ldap_user_io :
    Ldap → Ends → Options → Option Bytes → Option Bytes → ℤ → Io → Run (ℤ × Io)
ldap_user_io ldap ends o user host mode io =
    if asks_proxy o mode
    then get_auth_ldap_io ldap ends o user host o.authorized_service_tag io
    else get_auth_ldap_io ldap ends o user host none io

-- The switch on the method.
unfoldable pub by_type_io :
    Disk → Ldap → Ends → Options → Option Bytes → Option Bytes → ℤ → Io → Run (Answer × Io)
by_type_io disk ldap ends o user host mode io =
    if int_eq o.auth_type auth_type_any
    then ok (answer user host auth_success, io)
    else if int_eq o.auth_type auth_type_local
    then ok (local_user_io disk o user host mode io)
    else if int_eq o.auth_type auth_type_ldap
    then (do
      (auth, io') ← ldap_user_io ldap ends o user host mode io
      ok (answer user host auth, io'))
    else ok (
      answer user host auth_error,
      tell (error (codes "Invalid authorization type: %i") (decimal o.auth_type ∷ [])) io,
    )

unfoldable pub auth_user_io :
    Disk → Ldap → Ends → Options → Option Bytes → Option Bytes → ℤ → Io → Run (Answer × Io)
auth_user_io disk ldap ends o user host mode io =
    if int_eq o.enable_proxy (pos 0) && int_eq mode auth_proxy
    then ok (answer user host auth_failure, io)
    else by_type_io disk ldap ends o user host mode io
