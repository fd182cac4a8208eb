-- ===== src/Auth/Once.antt =====
-- `auth_user` of auth.c, with its messages and without.
use stonesh.Auth.{Answer, auth_proxy, asks_proxy, local_user, ldap_user, by_type, auth_user}
use stonesh.Auth.Session.{local_user_io, ldap_user_io, by_type_io, auth_user_io}
use stonesh.AuthLdap.{Ldap}
use stonesh.AuthLdap.Agreement.{Reports, get_auth_ldap_io-Agrees}
use stonesh.AuthLdap.Report.{Ends}
use stonesh.AuthLdap.Told.{LdapTold, IsCalm}
use stonesh.AuthLocal.{get_auth_file}
use stonesh.AuthLocal.Accounts.{get_auth_file_io-closes, get_auth_file_io-quiet}
use stonesh.AuthLocal.Session.{closing, get_auth_file_io}
use stonesh.Log.{Log}
use stonesh.Log.Errors.{HasError, IsQuiet}
use stonesh.Prelude.{
  ◌≡◌, ◌⊎◌, ◌&&◌, Option, none, some, ℤ, pos, int_eq, ok, Agrees, both, bind-Agrees, Agrees-weaken,
  forget, forget-Agrees, Safe, Safe-Agrees, Bytes, inl, inr, refl, sym, Bool-cases, Option-cases,
}
use stonesh.Readconf.Options.{Options, auth_type_any, auth_type_local, auth_type_ldap}
use stonesh.Streams.{Disk, Io, IsEven, reported}

-- No message, or one error.
abbrev pub IsToldOnce : Log → Log → Type 0
IsToldOnce log log' = (log' ≡ log) ⊎ HasError log log'

reported-once :
    (disk : Disk) (opening closing file : Bytes) (log : Log)
    → IsToldOnce log (reported disk opening closing file log)
reported-once disk opening closing file log = elim (Option-cases (disk.files file)) [
  | inl e ↦ rw (e, reported) (inr (_, _, refl))
  | inr (content, e) ↦
      rw (e, reported)
        (elim (Bool-cases (disk.closes file)) [
          | inl c ↦ rw c (inl refl)
          | inr c ↦ rw c (inr (_, _, refl))
        ])
]

get_auth_file_io-once :
    (disk : Disk) (user host file : Option Bytes) (proxy : ℤ) (io : Io)
    → IsQuiet io.log
    → IsToldOnce io.log (get_auth_file_io disk user host file proxy io).1.log
get_auth_file_io-once disk none host file proxy io q = unfold get_auth_file_io in inl refl
get_auth_file_io-once disk (some user) none file proxy io q = unfold get_auth_file_io in inl refl
get_auth_file_io-once disk (some user) (some host) none proxy io q =
    unfold get_auth_file_io in inl refl
get_auth_file_io-once disk (some user) (some host) (some file) proxy io q =
    rw (get_auth_file_io-quiet disk user host file proxy io q)
      (reported-once disk _ closing file io.log)

module _ (disk : Disk) (ldap : Ldap) (ends : Ends) (o : Options) (user host : Option Bytes)
    (mode : ℤ) (io : Io) where
  abbrev Leaves : Answer → Io → Type 0
  Leaves a io' = IsEven io io' × (IsCalm ends io.log → IsToldOnce io.log io'.log)

  from_file :
      (proxy : ℤ)
      → Agrees Leaves
          (ok (get_auth_file disk.files user host o.users_file proxy))
          (ok (get_auth_file_io disk user host o.users_file proxy io))
  from_file proxy =
      let (same, streams, strings) = get_auth_file_io-closes disk user host o.users_file proxy io in
      rw (sym same) (
        both (
          (streams, strings),
          λ calm. get_auth_file_io-once disk user host o.users_file proxy io calm.0,
        ))

  local_case :
      Agrees Leaves
        (ok (local_user disk.files o user host mode))
        (ok (local_user_io disk o user host mode io))
  unfolding local_user local_user_io
  local_case = elim (Bool-cases (asks_proxy o mode)) [
    | inl e ↦ rw e (from_file (pos 1))
    | inr e ↦ rw e (from_file (pos 0))
  ]

  from_server :
      Agrees
        (Reports ldap ends io)
        (ldap_user ldap o user host mode)
        (ldap_user_io ldap ends o user host mode io)
  unfolding ldap_user ldap_user_io
  from_server = elim (Bool-cases (asks_proxy o mode)) [
    | inl e ↦ rw e (get_auth_ldap_io-Agrees ldap ends io o user host o.authorized_service_tag)
    | inr e ↦ rw e (get_auth_ldap_io-Agrees ldap ends io o user host none)
  ]

  one_error : (auth : ℤ) (log' : Log) → LdapTold auth io.log log' → IsToldOnce io.log log'
  one_error auth log' (inl same) = inl same
  one_error auth log' (inr (failed, told)) = inr told

  by_type_io-Agrees :
      Agrees Leaves
        (by_type disk.files ldap o user host mode)
        (by_type_io disk ldap ends o user host mode io)
  unfolding by_type by_type_io
  by_type_io-Agrees = elim (Bool-cases (int_eq o.auth_type auth_type_any)) [
    | inl e ↦ rw e (both ((refl, refl), λ calm. inl refl))
    | inr e ↦ rw e (elim (Bool-cases (int_eq o.auth_type auth_type_local)) [
      | inl l ↦ rw l local_case
      | inr l ↦ rw l (elim (Bool-cases (int_eq o.auth_type auth_type_ldap)) [
        | inl s ↦ rw s (
            bind-Agrees _ _ from_server
              (λ auth io' told. both (told.0, λ calm. one_error auth io'.log (told.1 calm))))
        | inr s ↦ rw s (both ((refl, refl), λ calm. inr (_, _, refl)))
      ])
    ])
  ]

  auth_user_io-Agrees :
      Agrees Leaves
        (auth_user disk.files ldap o user host mode)
        (auth_user_io disk ldap ends o user host mode io)
  unfolding auth_user auth_user_io
  auth_user_io-Agrees =
      elim (Bool-cases (int_eq o.enable_proxy (pos 0) && int_eq mode auth_proxy)) [
        | inl e ↦ rw e (both ((refl, refl), λ calm. inl refl))
        | inr e ↦ rw e by_type_io-Agrees
      ]

-- With its messages and those of the functions that it calls, `auth_user` does what it does in the model
-- without them; and if it returns, it leaves as many streams open and strings allocated as there were.
pub auth_user_io-IsEven :
    (disk : Disk) (ldap : Ldap) (ends : Ends) (o : Options) (user host : Option Bytes) (mode : ℤ)
    (io : Io)
    → (forget (auth_user_io disk ldap ends o user host mode io)
        ≡ auth_user disk.files ldap o user host mode)
      × Safe (λ r. IsEven io r.1) (auth_user_io disk ldap ends o user host mode io)
auth_user_io-IsEven disk ldap ends o user host mode io =
    let agrees = auth_user_io-Agrees disk ldap ends o user host mode io in
    (
      forget-Agrees agrees,
      Safe-Agrees (Agrees-weaken {Q = λ a io'. IsEven io io'} (λ a io' leaves. leaves.0) agrees),
    )

-- With debugging off, and if the LDAP library can close a connection and reset the default base,
-- `auth_user` logs at most one message, an error, where it returns.
pub auth_user_io-IsToldOnce :
    (disk : Disk) (ldap : Ldap) (ends : Ends) (o : Options) (user host : Option Bytes) (mode : ℤ)
    (io : Io)
    → IsCalm ends io.log
    → Safe (λ r. IsToldOnce io.log r.1.log) (auth_user_io disk ldap ends o user host mode io)
auth_user_io-IsToldOnce disk ldap ends o user host mode io calm = Safe-Agrees (
    Agrees-weaken {Q = λ a io'. IsToldOnce io.log io'.log} (λ a io' leaves. leaves.1 calm)
      (auth_user_io-Agrees disk ldap ends o user host mode io))
