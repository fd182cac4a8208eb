-- ===== src/AuthLdap/Balance.antt =====
-- `get_auth_ldap` of auth_ldap.c gives back what it takes.
use stonesh.AuthLdap.{Ldap, or_null, is_positive, get_ldap_uri, get_ldap_base, search_ldap}
use stonesh.AuthLdap.Session.{
  Resource, uri_copy, base_copy, filter_text, option_value, message, connection, Call, acquire,
  release, employ, Messages, when, copy_calls, search_calls, bind_calls, server_calls,
  session_calls,
}
use stonesh.Prelude.{
  Bool, true, false, List, [], ◌∷◌, ◌++◌, Option, none, some, ◌≡◌, inl, inr, refl, ap, ◌∙◌, Bytes,
  Bool-cases, if◌then◌else◌,
}

-- What is held.
pub record Held : Type 0 where
  pub uri : Bool
  pub base : Bool
  pub filter : Bool
  pub value : Bool
  pub result : Bool
  pub ld : Bool

abbrev pub nothing : Held
nothing = record {
  uri = false;
  base = false;
  filter = false;
  value = false;
  result = false;
  ld = false;
}

abbrev holds : Resource → Held → Bool
holds uri_copy h = h.uri
holds base_copy h = h.base
holds filter_text h = h.filter
holds option_value h = h.value
holds message h = h.result
holds connection h = h.ld

abbrev hold : Resource → Bool → Held → Held
hold uri_copy b h = record h { uri = b }
hold base_copy b h = record h { base = b }
hold filter_text b h = record h { filter = b }
hold option_value b h = record h { value = b }
hold message b h = record h { result = b }
hold connection b h = record h { ld = b }

-- What is held may be used and given back, and only what is not held may be taken; `none` is a leak, a
-- second release or a use of what was released.
abbrev step : Call → Held → Option Held
step (acquire r) h = if holds r h then none else some (hold r true h)
step (release r) h = if holds r h then some (hold r false h) else none
step (employ r) h = if holds r h then some h else none

abbrev chain : Option Held → (Held → Option Held) → Option Held
chain none f = none
chain (some h) f = f h

abbrev pub replay : List Call → Held → Option Held
replay [] h = some h
replay (call ∷ calls) h = chain (step call h) (replay calls)

chain_through :
    (o : Option Held) (f k g : Held → Option Held)
    → ((h : Held) → f h ≡ chain (k h) g)
    → chain o f ≡ chain (chain o k) g
chain_through none f k g e = refl
chain_through (some h) f k g e = e h

replay-append : (a b : List Call) (h : Held) → replay (a ++ b) h ≡ chain (replay a h) (replay b)
replay-append [] b h = refl
replay-append (call ∷ a) b h =
    chain_through (step call h) (replay (a ++ b)) (replay a) (replay b) (replay-append a b)

then_replay :
    (a b : List Call) (h h' : Held) → replay a h ≡ some h' → replay (a ++ b) h ≡ replay b h'
then_replay a b h h' e = replay-append a b h ∙ ap (λ o. chain o (replay b)) e

-- The three strings are held; with them the connection too.
abbrev strings : Held
strings = record nothing { uri = true; base = true; filter = true }

bound : (first second : Bool) → List Call
bound first second =
    acquire connection
    ∷ employ connection
    ∷ (when first (acquire message)
        ++ ((when first (release message)
              ++ (employ connection
                  ∷ employ base_copy
                  ∷ employ filter_text
                  ∷ (when second (acquire message)
                      ++ (when second (employ message) ++ when second (release message)))))
            ++ release connection ∷ []))

bound-balanced : (first second : Bool) → replay (bound first second) strings ≡ some strings
unfolding bound
bound-balanced true true = refl
bound-balanced true false = refl
bound-balanced false true = refl
bound-balanced false false = refl

refused : (first : Bool) → List Call
refused first =
    acquire connection
    ∷ employ connection
    ∷ (when first (acquire message) ++ (when first (release message) ++ release connection ∷ []))

refused-balanced : (first : Bool) → replay (refused first) strings ≡ some strings
unfolding refused
refused-balanced true = refl
refused-balanced false = refl

module _ (ldap : Ldap) (m : Messages) (uri base filter : Bytes) where
  bind_calls-balanced : replay (bind_calls ldap m uri base filter).calls strings ≡ some strings
  unfolding bind_calls search_calls bound refused
  bind_calls-balanced = elim (Bool-cases (is_positive (ldap.bind_result uri))) [
    | inl e ↦ rw e (bound-balanced m.for_bind m.for_search)
    | inr e ↦ rw e (refused-balanced m.for_bind)
  ]

  server_calls-balanced : replay (server_calls ldap m uri base filter).calls strings ≡ some nothing
  unfolding server_calls
  server_calls-balanced = elim (Bool-cases (ldap.initialize uri)) [
    | inl e ↦ rw e (
        then_replay (bind_calls ldap m uri base filter).calls _ strings strings bind_calls-balanced)
    | inr e ↦ rw e
  ]

  -- The verdict of the session is that of `search_ldap`.
  server_calls-auth : (server_calls ldap m uri base filter).auth ≡ search_ldap ldap uri base filter
  unfolding server_calls bind_calls search_calls search_ldap
  server_calls-auth = elim (Bool-cases (ldap.initialize uri)) [
    | inl e ↦
        rw e
          (elim (Bool-cases (is_positive (ldap.bind_result uri))) [ inl p ↦ rw p | inr p ↦ rw p ])
    | inr e ↦ rw e
  ]

uri_calls-held :
    (ldap : Ldap) (ldap_uri : Option Bytes) (uri : Bytes)
    → get_ldap_uri ldap ldap_uri ≡ some uri
    → replay (copy_calls uri_copy ldap_uri ldap.uri_option) nothing
      ≡ some (record nothing { uri = true })
unfolding get_ldap_uri
uri_calls-held ldap (some c) uri h = unfold copy_calls in refl
uri_calls-held ldap none uri h = by_value ldap.uri_option h
  where
    by_value :
        (v : Option (Option Bytes))
        → or_null v ≡ some uri
        → replay (copy_calls uri_copy none v) nothing ≡ some (record nothing { uri = true })
    by_value none k = absurd cc
    by_value (some none) k = absurd cc
    by_value (some (some x)) k = unfold copy_calls in refl

base_calls-held :
    (ldap : Ldap) (ldap_base : Option Bytes) (base : Bytes)
    → get_ldap_base ldap ldap_base ≡ some base
    → replay (copy_calls base_copy ldap_base ldap.base_option) (record nothing { uri = true })
      ≡ some (record nothing { uri = true; base = true })
unfolding get_ldap_base
base_calls-held ldap (some c) base h = unfold copy_calls in refl
base_calls-held ldap none base h = by_value ldap.base_option h
  where
    by_value :
        (v : Option (Option Bytes))
        → or_null v ≡ some base
        → replay (copy_calls base_copy none v) (record nothing { uri = true })
          ≡ some (record nothing { uri = true; base = true })
    by_value none k = absurd cc
    by_value (some none) k = absurd cc
    by_value (some (some x)) k = unfold copy_calls in refl

-- With a uri, a base and a filter, the calls of `get_auth_ldap` decide as `search_ldap` does, and give
-- back whatever they take, once: each string, message and connection is taken only while it is not
-- held, used and released only while it is, and nothing is held at the end, whatever the
-- server answers.
pub session_calls-balanced :
    (ldap : Ldap) (m : Messages) (ldap_uri ldap_base : Option Bytes) (uri base filter : Bytes)
    → get_ldap_uri ldap ldap_uri ≡ some uri
    → get_ldap_base ldap ldap_base ≡ some base
    → ((session_calls ldap m ldap_uri ldap_base uri base filter).auth
        ≡ search_ldap ldap uri base filter)
      × (replay (session_calls ldap m ldap_uri ldap_base uri base filter).calls nothing
          ≡ some nothing)
unfolding session_calls
session_calls-balanced ldap m ldap_uri ldap_base uri base filter u b = (
  server_calls-auth ldap m uri base filter,
  then_replay (copy_calls uri_copy ldap_uri ldap.uri_option) _ nothing _
        (uri_calls-held ldap ldap_uri uri u)
      ∙ then_replay (copy_calls base_copy ldap_base ldap.base_option) _ _ _
          (base_calls-held ldap ldap_base base b)
      ∙ server_calls-balanced ldap m uri base filter,
)
