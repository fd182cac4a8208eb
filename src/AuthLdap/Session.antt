-- ===== src/AuthLdap/Session.antt =====
-- What `get_auth_ldap` of auth_ldap.c takes and gives back: memory, messages of the LDAP library and the
-- connection.
use stonesh.AuthLdap.{Ldap, ldap_auth_failure, ldap_auth_success, is_positive}
use stonesh.Log.{Log, error}
use stonesh.Prelude.{
  codes, Bool, true, false, List, [], ◌∷◌, ◌++◌, Option, none, some, ℤ, pos, int_eq, Bytes,
  if◌then◌else◌,
}

-- The copies of the uri and the base, the filter, a value that `ldap_get_option` allocates, a message
-- that `ldap_result` stores, and the connection.
pub data Resource : Type 0 where
  uri_copy base_copy filter_text option_value message connection : Resource

pub data Call : Type 0 where
  acquire release employ : Resource → Call

-- Whether `ldap_result` stores a message for the bind and for the search; if not, it stores NULL.
pub record Messages : Type 0 where
  pub for_bind : Bool
  pub for_search : Bool

abbrev pub when : Bool → Call → List Call
when true call = call ∷ []
when false call = []

-- The calls of `get_ldap_uri` and `get_ldap_base` that copy a string into `copy`.
unfoldable pub copy_calls : Resource → Option Bytes → Option (Option Bytes) → List Call
copy_calls copy (some configured) value = acquire copy ∷ []
copy_calls copy none none = []
copy_calls copy none (some none) = []
copy_calls copy none (some (some value)) =
    acquire option_value ∷ employ option_value ∷ acquire copy ∷ release option_value ∷ []

-- The verdict, and the calls.
pub record Session : Type 0 where
  pub auth : ℤ
  pub calls : List Call

-- Behind a bind that was answered: the message of the bind is freed, and the search is made.
unfoldable pub search_calls : Ldap → Messages → Bytes → Bytes → Bytes → Session
search_calls ldap m uri base filter = record {
  auth =
      if int_eq (ldap.count_entries (ldap.search_answer uri base filter)) (pos 1)
      then ldap_auth_success
      else ldap_auth_failure;
  calls =
      when m.for_bind (release message)
      ++ (employ connection
          ∷ employ base_copy
          ∷ employ filter_text
          ∷ (when m.for_search (acquire message)
              ++ (when m.for_search (employ message) ++ when m.for_search (release message))));
}

-- Behind `ldap_initialize`: the bind, and `clean_return` for the connection.
unfoldable pub bind_calls : Ldap → Messages → Bytes → Bytes → Bytes → Session
bind_calls ldap m uri base filter =
    if is_positive (ldap.bind_result uri)
    then (let s = search_calls ldap m uri base filter in
        record {
          auth = s.auth;
          calls =
              acquire connection
              ∷ employ connection
              ∷ (when m.for_bind (acquire message) ++ (s.calls ++ release connection ∷ []));
        })
    else record {
      auth = ldap_auth_failure;
      calls =
          acquire connection
          ∷ employ connection
          ∷ (when m.for_bind (acquire message)
              ++ (when m.for_bind (release message) ++ release connection ∷ []));
    }

-- With a uri, a base and a filter: from `ldap_initialize` to the end of `clean_return`.
unfoldable pub server_calls : Ldap → Messages → Bytes → Bytes → Bytes → Session
server_calls ldap m uri base filter =
    let s =
      if ldap.initialize uri
      then bind_calls ldap m uri base filter
      else record { auth = ldap_auth_failure; calls = [] } in
    record {
      auth = s.auth;
      calls =
          employ uri_copy
          ∷ (s.calls ++ release uri_copy ∷ release base_copy ∷ release filter_text ∷ []);
    }

-- The whole call, with the options for the uri and the base.
unfoldable pub session_calls :
    Ldap → Messages → Option Bytes → Option Bytes → Bytes → Bytes → Bytes → Session
session_calls ldap m ldap_uri ldap_base uri base filter =
    let s = server_calls ldap m uri base filter in
    record {
      auth = s.auth;
      calls =
          copy_calls uri_copy ldap_uri ldap.uri_option
          ++ (copy_calls base_copy ldap_base ldap.base_option ++ (acquire filter_text ∷ s.calls));
    }

-- `ldap_free` resets an option of the library, which may fail.
unfoldable pub ldap_free : Bool → Log → Log
ldap_free reset log =
    if reset then log else error (codes "unable to set global defbase to null") [] log
