-- ===== src/AuthLdap/Report.antt =====
-- `get_auth_ldap` of auth_ldap.c once more, with its messages and the strings that it allocates. Memory is assumed to be granted and
-- `snprintf` not to fail, as in the model without them.
use stonesh.AuthLdap.{
  Ldap, ldap_auth_failure, ldap_auth_success, is_empty, is_positive, get_host_filter,
  get_service_filter,
}
use stonesh.AuthLdap.Session.{ldap_free}
use stonesh.Libc.{decimal}
use stonesh.Log.{Log, error, debug}
use stonesh.Prelude.{
  Bool, [], ◌∷◌, Option, none, some, pos, ℤ, int_eq, Run, ok, fault, Bytes, codes, if◌then◌else◌,
}
use stonesh.Readconf.Options.{Options}
use stonesh.Streams.{Io, tell, new_string, free_string}

-- The answers of the library that only messages depend on: whether the default base can be reset, and
-- whether `ldap_unbind_ext` succeeds.
pub record Ends : Type 0 where
  pub resets : Bool
  pub unbinds : Bool

-- On what `ldap_get_option` gives; the copy is one string more, and what the library has allocated goes
-- back to it.
unfoldable pub uri_option_io : Option (Option Bytes) → Io → Option Bytes × Io
uri_option_io none io = (none, tell (error (codes "ldap_get_option failed to get the uri") []) io)
uri_option_io (some none) io = (none, io)
uri_option_io (some (some value)) io = (some value, new_string io)

unfoldable pub get_ldap_uri_io : Ldap → Option Bytes → Io → Option Bytes × Io
get_ldap_uri_io ldap (some uri) io = (some uri, new_string io)
get_ldap_uri_io ldap none io = uri_option_io ldap.uri_option io

-- The default base is reset where it was copied.
unfoldable pub base_option_io : Ends → Option (Option Bytes) → Io → Option Bytes × Io
base_option_io ends none io =
    (none, tell (error (codes "ldap_get_option failed to get the default base dn") []) io)
base_option_io ends (some none) io = (none, io)
base_option_io ends (some (some value)) io =
    (some value, tell (ldap_free ends.resets) (new_string io))

unfoldable pub get_ldap_base_io : Ldap → Ends → Option Bytes → Io → Option Bytes × Io
get_ldap_base_io ldap ends (some base) io = (some base, new_string io)
get_ldap_base_io ldap ends none io = base_option_io ends ldap.base_option io

-- A message of the function for the filter, and the one of its caller.
abbrev pub twice : Bytes → Bytes → Io → Option Bytes × Io
twice message failed io = (none, tell (error failed []) (tell (error message []) io))

-- `get_host_filter`, which allocates the filter, and what its caller says
unfoldable pub host_filter_io : Option Bytes → Option Bytes → Io → Option Bytes × Io
host_filter_io host user io =
    let failed = codes "unable to get host filter" in
    if is_empty host
    then twice (codes "must specify host for the host filter") failed io
    else if is_empty user
    then twice (codes "must specify username for the host filter") failed io
    else (get_host_filter host user, new_string io)

-- `get_service_filter`, which allocates the filter, and what its caller says
unfoldable pub service_filter_io :
    Option Bytes → Option Bytes → Option Bytes → Io → Option Bytes × Io
service_filter_io host user tag io =
    let failed = codes "unable to get host and authorizeService filter" in
    if is_empty host
    then twice (codes "must specify host for the service filter") failed io
    else if is_empty user
    then twice (codes "must specify username for the service filter") failed io
    else if is_empty tag
    then twice (codes "must specify tag for the service filter") failed io
    else (get_service_filter host user tag, new_string io)

unfoldable pub get_filter_io : Option Bytes → Option Bytes → Option Bytes → Io → Option Bytes × Io
get_filter_io user host none io = host_filter_io host user io
get_filter_io user host (some tag) io = service_filter_io host user (some tag) io

-- `clean_return` for a connection
unfoldable pub unbind_log : Ends → Bytes → Log → Log
unbind_log ends uri log =
    let unbinding = debug (codes "unbinding from uri: %s") (uri ∷ []) log in
    if ends.unbinds
    then unbinding
    else error (codes "unable to unbind from %s") (uri ∷ []) unbinding

-- Behind a bind that was answered.
unfoldable pub count_log : Ldap → Bytes → Bytes → Bytes → Log → ℤ × Log
count_log ldap uri base filter log =
    let auth =
      if int_eq (ldap.count_entries (ldap.search_answer uri base filter)) (pos 1)
      then ldap_auth_success
      else ldap_auth_failure in
    (
      auth,
      debug (codes "setting auth to '%i'") (decimal auth ∷ [])
          (debug (codes "bound to uri: %s") (uri ∷ []) log),
    )

-- From `ldap_initialize` on.
unfoldable pub search_ldap_log : Ldap → Ends → Bytes → Bytes → Bytes → Log → ℤ × Log
search_ldap_log ldap ends uri base filter log =
    if ldap.initialize uri
    then (let (auth, log') =
          if is_positive (ldap.bind_result uri)
          then count_log ldap uri base filter log
          else (ldap_auth_failure, error (codes "unable to bind to server") [] log) in
        (auth, unbind_log ends uri log'))
    else (ldap_auth_failure, error (codes "unable to initialize connection to %s") (uri ∷ []) log)

-- LDAP_FREE for the three strings, at the end of `clean_return`
unfoldable pub ldap_free_strings : Bytes → Bytes → Bytes → Io → Io
ldap_free_strings uri base filter io =
    free_string (some filter) (free_string (some base) (free_string (some uri) io))

-- From `ldap_initialize` to the end of `clean_return`.
unfoldable pub search_ldap_io : Ldap → Ends → Bytes → Bytes → Bytes → Io → ℤ × Io
search_ldap_io ldap ends uri base filter io =
    let (auth, log) = search_ldap_log ldap ends uri base filter io.log in
    (auth, ldap_free_strings uri base filter (record io { log = log }))

-- With the results of the functions for the uri, the base and the filter, in this order; without one of
-- them `ld` is read without being initialized.
unfoldable pub with_filter_io : Ldap → Ends → Bytes → Bytes → Option Bytes × Io → Run (ℤ × Io)
with_filter_io ldap ends uri base (none, io) = fault
with_filter_io ldap ends uri base (some filter, io) = ok (
    search_ldap_io ldap ends uri base filter
      (tell (debug (codes "using filter: '%s'") (filter ∷ [])) io))

unfoldable pub with_base_io :
    Ldap
    → Ends
    → Option Bytes
    → Option Bytes
    → Option Bytes
    → Bytes
    → Option Bytes × Io
    → Run (ℤ × Io)
with_base_io ldap ends user host tag uri (none, io) = fault
with_base_io ldap ends user host tag uri (some base, io) =
    with_filter_io ldap ends uri base
      (get_filter_io user host tag (tell (debug (codes "using base dn '%s'") (base ∷ [])) io))

unfoldable pub with_uri_io :
    Ldap
    → Ends
    → Options
    → Option Bytes
    → Option Bytes
    → Option Bytes
    → Option Bytes × Io
    → Run (ℤ × Io)
with_uri_io ldap ends o user host tag (none, io) = fault
with_uri_io ldap ends o user host tag (some uri, io) =
    with_base_io ldap ends user host tag uri
      (get_ldap_base_io ldap ends o.ldap_base (tell (debug (codes "using uri '%s'") (uri ∷ [])) io))

unfoldable pub get_auth_ldap_io :
    Ldap → Ends → Options → Option Bytes → Option Bytes → Option Bytes → Io → Run (ℤ × Io)
get_auth_ldap_io ldap ends o user host tag io =
    if int_eq o.use_ldap (pos 0)
    then ok (ldap_auth_success, io)
    else with_uri_io ldap ends o user host tag (get_ldap_uri_io ldap o.ldap_uri io)
