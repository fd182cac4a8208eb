-- ===== src/AuthLocal/Format.antt =====
-- Whom a line `user:host,host+,…` of the users file grants access, as auth_local.c reads it.
use stonesh.Prelude.{
  true, List, [], ◌∷◌, ◌++◌, map, some, ℤ, pos, ◌≡◌, ◌≢◌, ◌⊎◌, ◌↔◌, inl, inr, refl, sym, ap, ◌∙◌,
  subst, arith, Bytes, All, All-append, append-ne-nil,
}
use stonesh.AuthLocal.Scans.{HostGrants, here, later, first_entry, LineGrants, FieldGrants}
use stonesh.Hosts.{colon}
use stonesh.Libc.{c_str, strsep, strtok_all}
use stonesh.Libc.Fields.{
  StartsFolded, c_str-Lacks, strsep-found, strsep-none, join, strtok_all-join,
}
use stonesh.Util.{trim}
use stonesh.Util.Clean.{
  IsClean, IsField, clean_content, clean_trim, clean-IsCStr, field-IsClean, field-Lacks,
  colon-IsClean,
}
use stonesh.AuthLocal.Entries.{
  Entry, encode, IsEntry, Allows, allowed, skipped, users_line, encode-entry, tokens, join_fields,
}

module _ (host : Bytes) (proxy : ℤ) where
  first_allowed :
      {e : Entry} {es : List Entry}
      → Allows host proxy (e ∷ es)
      → (StartsFolded host e.name × (proxy ≡ pos 1 → e.plus ≡ true))
        ⊎ (¬ StartsFolded host e.name × Allows host proxy es)
  first_allowed (allowed s a) = inl (s, a)
  first_allowed (skipped n a) = inr (n, a)

  Allows→HostGrants :
      (es : List Entry)
      → All IsEntry es
      → Allows host proxy es
      → HostGrants host proxy (map encode es)
  Allows→HostGrants [] h a = elim a [ ]
  Allows→HostGrants (e ∷ es) (h, hs) a =
      let (same, plus) = encode-entry e.name e.plus h.1 in
      elim (first_allowed a) [
        | inl (s, ok_plus) ↦ here (subst (StartsFolded host) (sym same) s) (λ p. plus ∙ ok_plus p)
        | inr (n, rest) ↦
            later (λ s. n (subst (StartsFolded host) same s)) (Allows→HostGrants es hs rest)
      ]

  HostGrants→Allows :
      (es : List Entry)
      → All IsEntry es
      → HostGrants host proxy (map encode es)
      → Allows host proxy es
  HostGrants→Allows [] h g = elim g [ ]
  HostGrants→Allows (e ∷ es) (h, hs) g =
      let (same, plus) = encode-entry e.name e.plus h.1 in
      elim (first_entry host proxy g) [
        | inl (s, ok_plus) ↦ allowed (subst (StartsFolded host) same s) (λ p. sym plus ∙ ok_plus p)
        | inr (n, rest) ↦
            skipped (λ s. n (subst (StartsFolded host) (sym same) s)) (HostGrants→Allows es hs rest)
      ]

module _ (name : Bytes) (es : List Entry) (n : IsField name) (h : All IsEntry es) where
  abbrev listed : Bytes
  listed = join b',' (map encode es)

  pub line-IsClean : All IsClean (users_line name es)
  line-IsClean =
      All-append IsClean name _ (field-IsClean name n.1)
        (colon-IsClean, field-IsClean listed (join_fields es h))

  line_text : c_str (users_line name es ++ b'\n' ∷ []) ≡ users_line name es ++ b'\n' ∷ []
  line_text =
      c_str-Lacks _
        (All-append _ (users_line name es) _ (clean-IsCStr _ line-IsClean) (omega arith, tt))

  line_fields : strsep (users_line name es) colon ≡ (name, some listed)
  line_fields = strsep-found name colon listed (field-Lacks name n.1)

  listed_field : (strsep listed colon).0 ≡ listed
  listed_field = rw (strsep-none listed colon (field-Lacks listed (join_fields es h)))

  listed_grants :
      (host : Bytes) (proxy : ℤ) → FieldGrants host proxy (some listed) ↔ Allows host proxy es
  listed_grants host proxy = (
    λ (hosts, e, g). HostGrants→Allows host proxy es h (retarget hosts e g),
    λ a. (
      listed,
      refl,
      subst (HostGrants host proxy) (sym hosts_are) (Allows→HostGrants host proxy es h a),
    ),
  )
    where
      hosts_are : strtok_all listed (b',' ∷ []) ≡ map encode es
      hosts_are = strtok_all-join b',' (map encode es) (tokens es h)

      retarget :
          (hosts : Bytes)
          → some listed ≡ some hosts
          → HostGrants host proxy (strtok_all hosts (b',' ∷ []))
          → HostGrants host proxy (map encode es)
      retarget hosts e g =
          let same : hosts ≡ listed = cc in
          subst (HostGrants host proxy) (ap (λ x. strtok_all x (b',' ∷ [])) same ∙ hosts_are) g

  -- A line `user:host,host+,…` of the users file grants access to those whose user name the line's
  -- name starts with, but for case, if the first host that starts with the host asked for, but for
  -- case, has the permission. The names have no blank and none of the marks `#`, `:`, `,` and `+`.
  pub LineGrants-iff :
      (user host : Bytes) (proxy : ℤ)
      → LineGrants user host proxy (users_line name es ++ b'\n' ∷ [])
        ↔ (StartsFolded user name × Allows host proxy es)
  LineGrants-iff user host proxy = (forth, back)
    where
      content : trim (c_str (users_line name es ++ b'\n' ∷ [])) ≡ users_line name es
      content = clean_content (users_line name es) line-IsClean

      trimmed : trim name ≡ name
      trimmed = clean_trim name (field-IsClean name n.1)

      text_ne_nil : c_str (users_line name es ++ b'\n' ∷ []) ≢ []
      text_ne_nil =
          rw line_text (append-ne-nil _ (b'\n' ∷ []) (append-ne-nil name (colon ∷ listed) n.0))

      forth :
          LineGrants user host proxy (users_line name es ++ b'\n' ∷ [])
          → StartsFolded user name × Allows host proxy es
      forth g =
          let (_, starts, granted) = rw (content, line_fields, listed_field, trimmed) at g in
          (starts, (listed_grants host proxy).0 granted)

      back :
          StartsFolded user name × Allows host proxy es
          → LineGrants user host proxy (users_line name es ++ b'\n' ∷ [])
      back (s, a) =
          rw (content, line_fields, listed_field, trimmed)
            (text_ne_nil, s, (listed_grants host proxy).1 a)
