-- ===== src/AuthLdap/Agreement.antt =====
-- `get_auth_ldap` of auth_ldap.c, with its messages and strings and without.
use stonesh.AuthLdap.{Ldap, get_ldap_uri, get_ldap_base, get_filter, with_server, get_auth_ldap}
use stonesh.AuthLdap.Report.{
  Ends, get_ldap_uri_io, get_ldap_base_io, get_filter_io, with_filter_io, with_base_io, with_uri_io,
  get_auth_ldap_io,
}
use stonesh.Log.{debug}
use stonesh.Prelude.{
  ℕ, ◌+◌, [], ◌∷◌, Option, none, some, ℤ, pos, int_eq, Agrees, both, faults, Bytes, codes, inl, inr,
  refl, sym, Bool-cases,
}
use stonesh.Readconf.Options.{Options}
use stonesh.Streams.{Io, IsEven, tell}
use stonesh.AuthLdap.Told.{
  LdapTold, IsCalm, GotAs, Holds, Holds-trans, debug-Holds, get_ldap_uri_io-GotAs,
  get_ldap_base_io-GotAs, get_filter_io-GotAs, search_ldap_io-result, search_ldap_io-IsEven,
  search_ldap_io-LdapTold,
}

module _ (ldap : Ldap) (ends : Ends) (io : Io) where
  abbrev pub Reports : ℤ → Io → Type 0
  Reports auth io' = IsEven io io' × (IsCalm ends io.log → LdapTold auth io.log io'.log)

  -- One string more, and a message for debugging.
  got :
      (n : ℕ) (value : Option Bytes) (io' io'' : Io) (fmt s : Bytes)
      → Holds ends io n io'
      → GotAs ends value io' (some s, io'')
      → Holds ends io (n + 1 + 0) (tell (debug fmt (s ∷ [])) io'')
  got n value io' io'' fmt s h (e, more) =
      Holds-trans ends io io'' _ (n + 1) 0 (Holds-trans ends io io' io'' n 1 h (more s refl))
        (debug-Holds ends fmt (s ∷ []) io'')

  on_filter :
      (uri base : Bytes) (value : Option Bytes) (io' : Io) (r : Option Bytes × Io)
      → Holds ends io 2 io'
      → GotAs ends value io' r
      → Agrees Reports
          (with_server ldap (some uri) (some base) value)
          (with_filter_io ldap ends uri base r)
  unfolding with_server with_filter_io
  on_filter uri base value io' (none, io'') h g = rw (sym g.0) faults
  on_filter uri base value io' (some filter, io'') h g =
      let using = tell (debug (codes "using filter: '%s'") (filter ∷ [])) io'' in
      let three = got 2 value io' io'' (codes "using filter: '%s'") filter h g in
      rw (sym g.0) (
        rw (sym (search_ldap_io-result ldap ends uri base filter using)) (
          both (
            search_ldap_io-IsEven ldap ends uri base filter io using three,
            search_ldap_io-LdapTold ldap ends uri base filter io using three,
          )))

  on_base :
      (user host tag : Option Bytes) (uri : Bytes) (value : Option Bytes) (io' : Io)
      (r : Option Bytes × Io)
      → Holds ends io 1 io'
      → GotAs ends value io' r
      → Agrees Reports
          (with_server ldap (some uri) value (get_filter user host tag))
          (with_base_io ldap ends user host tag uri r)
  unfolding with_server with_base_io
  on_base user host tag uri value io' (none, io'') h g = rw (sym g.0) faults
  on_base user host tag uri value io' (some base, io'') h g =
      let using = tell (debug (codes "using base dn '%s'") (base ∷ [])) io'' in
      rw (sym g.0) (
        on_filter uri base (get_filter user host tag) using (get_filter_io user host tag using)
          (got 1 value io' io'' (codes "using base dn '%s'") base h g)
          (get_filter_io-GotAs ends user host tag using))

  on_uri :
      (o : Options) (user host tag : Option Bytes) (value : Option Bytes) (r : Option Bytes × Io)
      → GotAs ends value io r
      → Agrees Reports
          (with_server ldap value (get_ldap_base ldap o.ldap_base) (get_filter user host tag))
          (with_uri_io ldap ends o user host tag r)
  unfolding with_server with_uri_io
  on_uri o user host tag value (none, io') g = rw (sym g.0) faults
  on_uri o user host tag value (some uri, io') g =
      let using = tell (debug (codes "using uri '%s'") (uri ∷ [])) io' in
      rw (sym g.0) (
        on_base user host tag uri (get_ldap_base ldap o.ldap_base) using
          (get_ldap_base_io ldap ends o.ldap_base using)
          (Holds-trans ends io io' using 1 0 (g.1 uri refl) (debug-Holds ends _ _ io'))
          (get_ldap_base_io-GotAs ldap ends o.ldap_base using))

  pub get_auth_ldap_io-Agrees :
      (o : Options) (user host tag : Option Bytes)
      → Agrees Reports
          (get_auth_ldap ldap o user host tag)
          (get_auth_ldap_io ldap ends o user host tag io)
  unfolding get_auth_ldap get_auth_ldap_io
  get_auth_ldap_io-Agrees o user host tag = elim (Bool-cases (int_eq o.use_ldap (pos 0))) [
    | inl e ↦ rw e (both ((refl, refl), λ calm. inl refl))
    | inr e ↦ rw e (
        on_uri o user host tag (get_ldap_uri ldap o.ldap_uri) (get_ldap_uri_io ldap o.ldap_uri io)
          (get_ldap_uri_io-GotAs ldap ends o.ldap_uri io))
  ]
