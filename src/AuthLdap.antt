-- ===== src/AuthLdap.antt =====
-- auth_ldap.c. The LDAP library is a parameter: what it answers to the calls that the code makes.
-- Memory is assumed to be granted and `snprintf` not to fail.
pub mod Filters
pub mod Decision
pub mod Session
pub mod Balance
pub mod Report
pub mod Told
pub mod Agreement
use stonesh.Prelude.{
  ℕ, ◌+◌, ◌*◌, Bool, true, false, not, ◌||◌, List, [], ◌∷◌, Option, none, some, ℤ, pos, int_eq, Run,
  ok, fault, Bytes, codes, length, ltb, ◌==◌, if◌then◌else◌,
}
use stonesh.Libc.{snprintf}
use stonesh.Readconf.Options.{Options}

-- What a server sends for a search: an entry, a reference to another server, or that it is done.
pub data SearchMessage : Type 0 where
  entry reference done : SearchMessage

-- The answers of libldap. `uri_option` and `base_option` are what `ldap_get_option` gives: `none` if
-- it fails, and otherwise the value, which may be NULL. `initialize` tells whether `ldap_initialize`
-- returns LDAP_SUCCESS; if not, it has set the handle to NULL. `bind_result` is the first
-- `ldap_result` on the connection. `search_answer` is the message that `ldap_result`, which is asked for
-- one message, gives for the search below a base for a filter, by the server at the uri, if it gives
-- one, and `count_entries` what `ldap_count_entries` says of that.
pub record Ldap : Type 0 where
  pub uri_option : Option (Option Bytes)
  pub base_option : Option (Option Bytes)
  pub initialize : Bytes → Bool
  pub bind_result : Bytes → ℤ
  pub search_answer : Bytes → Bytes → Bytes → Option SearchMessage
  pub count_entries : Option SearchMessage → ℤ

abbrev pub ldap_auth_failure : ℤ
ldap_auth_failure = pos 0

abbrev pub ldap_auth_success : ℤ
ldap_auth_success = pos 1

-- LDAP_HOST_FILTER and LDAP_SERVICE_FILTER
abbrev pub host_format : Bytes
host_format = codes "(&(|(host=\\*)(host=%s))(uid=%s))"

abbrev pub service_format : Bytes
service_format =
    codes "(&(|(host=\\*)(host=%s))(|(authorizedService=%s-\\*)(authorizedService=%s-%s))(uid=%s))"

abbrev pub or_null : Option (Option Bytes) → Option Bytes
or_null none = none
or_null (some value) = value

unfoldable pub get_ldap_uri : Ldap → Option Bytes → Option Bytes
get_ldap_uri ldap (some uri) = some uri
get_ldap_uri ldap none = or_null ldap.uri_option

unfoldable pub get_ldap_base : Ldap → Option Bytes → Option Bytes
get_ldap_base ldap (some base) = some base
get_ldap_base ldap none = or_null ldap.base_option

-- `s == NULL || strlen(s) == 0`
abbrev pub is_empty : Option Bytes → Bool
is_empty none = true
is_empty (some []) = true
is_empty (some (c ∷ s)) = false

abbrev text : Option Bytes → Bytes
text none = []
text (some s) = s

unfoldable pub get_host_filter : Option Bytes → Option Bytes → Option Bytes
get_host_filter host user =
    if is_empty host
    then none
    else if is_empty user
    then none
    else some (
        snprintf (length (text host) + length (text user) + length host_format) host_format
          (text host ∷ text user ∷ []))

unfoldable pub get_service_filter : Option Bytes → Option Bytes → Option Bytes → Option Bytes
get_service_filter host user tag =
    if is_empty host
    then none
    else if is_empty user
    then none
    else if is_empty tag
    then none
    else some (
        snprintf
          (length (text host) * 2
            + length (text user)
            + length (text tag) * 2
            + length service_format)
          service_format (text host ∷ text tag ∷ text tag ∷ text host ∷ text user ∷ []))

-- The filter for a tag that may be NULL.
unfoldable pub get_filter : Option Bytes → Option Bytes → Option Bytes → Option Bytes
get_filter user host none = get_host_filter host user
get_filter user host (some tag) = get_service_filter host user (some tag)

unfoldable pub is_positive : ℤ → Bool
is_positive (pos n) = ltb 0 n
is_positive _ = false

-- From `ldap_initialize` on; `auth` is a failure before it.
unfoldable pub search_ldap : Ldap → Bytes → Bytes → Bytes → ℤ
unfolding is_positive
search_ldap ldap uri base filter =
    if ldap.initialize uri
    then (if is_positive (ldap.bind_result uri)
        then (if int_eq (ldap.count_entries (ldap.search_answer uri base filter)) (pos 1)
            then ldap_auth_success
            else ldap_auth_failure)
        else ldap_auth_failure)
    else ldap_auth_failure

-- Without a uri, a base or a filter the code goes to `clean_return` with `ld` not initialized, and
-- reads it there: a fault.
unfoldable pub with_server : Ldap → Option Bytes → Option Bytes → Option Bytes → Run ℤ
with_server ldap (some uri) (some base) (some filter) = ok (search_ldap ldap uri base filter)
with_server ldap uri base filter = fault

unfoldable pub get_auth_ldap : Ldap → Options → Option Bytes → Option Bytes → Option Bytes → Run ℤ
get_auth_ldap ldap o user host tag =
    if int_eq o.use_ldap (pos 0)
    then ok ldap_auth_success
    else with_server ldap (get_ldap_uri ldap o.ldap_uri) (get_ldap_base ldap o.ldap_base)
        (get_filter user host tag)
