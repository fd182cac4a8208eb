-- ===== src/AuthLdap/Told.antt =====
-- What the functions that `get_auth_ldap` of auth_ldap.c calls return and log.
use stonesh.AuthLdap.{
  Ldap, ldap_auth_failure, or_null, is_empty, is_positive, get_ldap_uri, get_ldap_base, get_filter,
  get_host_filter, get_service_filter, search_ldap,
}
use stonesh.AuthLdap.Report.{
  Ends, get_ldap_uri_io, uri_option_io, base_option_io, get_ldap_base_io, host_filter_io,
  service_filter_io, get_filter_io, unbind_log, count_log, search_ldap_log, search_ldap_io,
  ldap_free_strings,
}
use stonesh.AuthLdap.Session.{ldap_free}
use stonesh.Log.{Log, debug}
use stonesh.Log.Errors.{HasError, IsQuiet, debug-quiet, error-IsQuiet}
use stonesh.Streams.{Io, IsEven, tell, new_string, free_string}
use stonesh.Prelude.{
  ℕ, ◌+◌, List, arith, true, [], ◌∷◌, Option, none, some, ℤ, Bytes, codes, ◌≡◌, ◌⊎◌, inl, inr, refl,
  subst, ◌∙◌, Bool-cases,
}

-- Nothing new in the log, or a failure and one error.
abbrev pub LdapTold : ℤ → Log → Log → Type 0
LdapTold auth log log' = (log' ≡ log) ⊎ ((auth ≡ ldap_auth_failure) × HasError log log')

-- Debugging is off, and the library can close a connection and reset the default base.
abbrev pub IsCalm : Ends → Log → Type 0
IsCalm ends log = IsQuiet log × (ends.resets ≡ true) × (ends.unbinds ≡ true)

-- From `io` to `io'`: `n` strings more, as many streams, and nothing said.
pub record Holds (ends : Ends) (io : Io) (n : ℕ) (io' : Io) : Type 0 where
  pub streams : io'.streams ≡ io.streams
  pub strings : io'.strings ≡ io.strings + n
  pub quiet : IsCalm ends io.log → io'.log ≡ io.log

pub Holds-trans :
    (ends : Ends) (io io' io'' : Io) (m n : ℕ)
    → Holds ends io m io'
    → Holds ends io' n io''
    → Holds ends io (m + n) io''
Holds-trans ends io io' io'' m n h k = record {
  streams = k.streams ∙ h.streams;
  strings = omega (arith, h.strings, k.strings);
  quiet = λ calm. k.quiet (rw (h.quiet calm) calm) ∙ h.quiet calm;
}

pub debug-Holds :
    (ends : Ends) (fmt : Bytes) (args : List Bytes) (io : Io)
    → Holds ends io 0 (tell (debug fmt args) io)
debug-Holds ends fmt args io = record {
  streams = refl;
  strings = omega arith;
  quiet = λ calm. debug-quiet fmt args io.log calm.0;
}

new_string-Holds : (ends : Ends) (io : Io) → Holds ends io 1 (new_string io)
unfolding new_string
new_string-Holds ends io = record { streams = refl; strings = refl; quiet = λ calm. refl }

reset-Holds :
    (ends : Ends) (io : Io) → Holds ends io 1 (tell (ldap_free ends.resets) (new_string io))
unfolding new_string ldap_free
reset-Holds ends io = record { streams = refl; strings = refl; quiet = λ calm. rw calm.1 }

-- A string that is got is that of the model without messages, and is one more.
abbrev pub GotAs : Ends → Option Bytes → Io → Option Bytes × Io → Type 0
GotAs ends value io r = (r.0 ≡ value) × ((s : Bytes) → r.0 ≡ some s → Holds ends io 1 r.1)

pub get_ldap_uri_io-GotAs :
    (ldap : Ldap) (ends : Ends) (option : Option Bytes) (io : Io)
    → GotAs ends (get_ldap_uri ldap option) io (get_ldap_uri_io ldap option io)
unfolding get_ldap_uri_io get_ldap_uri
get_ldap_uri_io-GotAs ldap ends (some uri) io = (refl, λ s h. new_string-Holds ends io)
get_ldap_uri_io-GotAs ldap ends none io = by_value ldap.uri_option
  where
    by_value : (v : Option (Option Bytes)) → GotAs ends (or_null v) io (uri_option_io v io)
    by_value none = unfold uri_option_io in (refl, λ s h. absurd cc)
    by_value (some none) = unfold uri_option_io in (refl, λ s h. absurd cc)
    by_value (some (some value)) = unfold uri_option_io in (refl, λ s h. new_string-Holds ends io)

pub get_ldap_base_io-GotAs :
    (ldap : Ldap) (ends : Ends) (option : Option Bytes) (io : Io)
    → GotAs ends (get_ldap_base ldap option) io (get_ldap_base_io ldap ends option io)
unfolding get_ldap_base_io get_ldap_base
get_ldap_base_io-GotAs ldap ends (some base) io = (refl, λ s h. new_string-Holds ends io)
get_ldap_base_io-GotAs ldap ends none io = by_value ldap.base_option
  where
    by_value : (v : Option (Option Bytes)) → GotAs ends (or_null v) io (base_option_io ends v io)
    by_value none = unfold base_option_io in (refl, λ s h. absurd cc)
    by_value (some none) = unfold base_option_io in (refl, λ s h. absurd cc)
    by_value (some (some value)) = unfold base_option_io in (refl, λ s h. reset-Holds ends io)

pub get_filter_io-GotAs :
    (ends : Ends) (user host tag : Option Bytes) (io : Io)
    → GotAs ends (get_filter user host tag) io (get_filter_io user host tag io)
unfolding get_filter_io get_filter host_filter_io service_filter_io get_host_filter
    get_service_filter
get_filter_io-GotAs ends user host none io = elim (Bool-cases (is_empty host)) [
  | inl e ↦ rw e (refl, λ s h. absurd cc)
  | inr e ↦ rw e (elim (Bool-cases (is_empty user)) [
    | inl e' ↦ rw e' (refl, λ s h. absurd cc)
    | inr e' ↦ rw e' (refl, λ s h. new_string-Holds ends io)
  ])
]
get_filter_io-GotAs ends user host (some tag) io = elim (Bool-cases (is_empty host)) [
  | inl e ↦ rw e (refl, λ s h. absurd cc)
  | inr e ↦ rw e (elim (Bool-cases (is_empty user)) [
    | inl e' ↦ rw e' (refl, λ s h. absurd cc)
    | inr e' ↦ rw e' (elim (Bool-cases (is_empty (some tag))) [
      | inl e'' ↦ rw e'' (refl, λ s h. absurd cc)
      | inr e'' ↦ rw e'' (refl, λ s h. new_string-Holds ends io)
    ])
  ])
]

search_ldap_log-result :
    (ldap : Ldap) (ends : Ends) (uri base filter : Bytes) (log : Log)
    → (search_ldap_log ldap ends uri base filter log).0 ≡ search_ldap ldap uri base filter
unfolding search_ldap_log search_ldap count_log
search_ldap_log-result ldap ends uri base filter log = elim (Bool-cases (ldap.initialize uri)) [
  | inl e ↦
      rw e (elim (Bool-cases (is_positive (ldap.bind_result uri))) [ inl p ↦ rw p | inr p ↦ rw p ])
  | inr e ↦ rw e
]

unbind_log-quiet :
    (ends : Ends) (uri : Bytes) (log : Log)
    → IsQuiet log
    → ends.unbinds ≡ true
    → unbind_log ends uri log ≡ log
unfolding unbind_log
unbind_log-quiet ends uri log q unbinds = rw unbinds (debug-quiet _ _ log q)

count_log-quiet :
    (ldap : Ldap) (uri base filter : Bytes) (log : Log)
    → IsQuiet log
    → (count_log ldap uri base filter log).1 ≡ log
unfolding count_log
count_log-quiet ldap uri base filter log q =
    let bound = debug-quiet (codes "bound to uri: %s") (uri ∷ []) log q in
    debug-quiet _ _ _ (rw bound q) ∙ bound

search_ldap_log-LdapTold :
    (ldap : Ldap) (ends : Ends) (uri base filter : Bytes) (log : Log)
    → IsQuiet log
    → ends.unbinds ≡ true
    → LdapTold
        (search_ldap_log ldap ends uri base filter log).0
        log
        (search_ldap_log ldap ends uri base filter log).1
unfolding search_ldap_log
search_ldap_log-LdapTold ldap ends uri base filter log q unbinds =
    elim (Bool-cases (ldap.initialize uri)) [
      | inl e ↦ rw e (elim (Bool-cases (is_positive (ldap.bind_result uri))) [
        | inl p ↦
            let same = count_log-quiet ldap uri base filter log q in
            rw p (inl (unbind_log-quiet ends uri _ (rw same q) unbinds ∙ same))
        | inr p ↦
            rw p (inr (refl, (_, _, unbind_log-quiet ends uri _ (error-IsQuiet _ _ log q) unbinds)))
      ])
      | inr e ↦ rw e (inr (refl, (_, _, refl)))
    ]

pub search_ldap_io-result :
    (ldap : Ldap) (ends : Ends) (uri base filter : Bytes) (io : Io)
    → (search_ldap_io ldap ends uri base filter io).0 ≡ search_ldap ldap uri base filter
unfolding search_ldap_io
search_ldap_io-result ldap ends uri base filter io =
    search_ldap_log-result ldap ends uri base filter io.log

-- The search, with `uri`, `base` and `filter` among the strings, frees these three.
pub search_ldap_io-IsEven :
    (ldap : Ldap) (ends : Ends) (uri base filter : Bytes) (io io' : Io)
    → Holds ends io 3 io'
    → IsEven io (search_ldap_io ldap ends uri base filter io').1
unfolding search_ldap_io ldap_free_strings free_string
search_ldap_io-IsEven ldap ends uri base filter io io' h = (h.streams, omega (arith, h.strings))

pub search_ldap_io-LdapTold :
    (ldap : Ldap) (ends : Ends) (uri base filter : Bytes) (io io' : Io)
    → Holds ends io 3 io'
    → IsCalm ends io.log
    → LdapTold
        (search_ldap_io ldap ends uri base filter io').0
        io.log
        (search_ldap_io ldap ends uri base filter io').1.log
unfolding search_ldap_io ldap_free_strings free_string
search_ldap_io-LdapTold ldap ends uri base filter io io' h calm =
    let told =
      search_ldap_log-LdapTold ldap ends uri base filter io'.log (rw (h.quiet calm) calm.0)
        calm.2 in
    subst
      (λ l.
        LdapTold (search_ldap_log ldap ends uri base filter io'.log).0 l
          (search_ldap_log ldap ends uri base filter io'.log).1)
      (h.quiet calm) told
