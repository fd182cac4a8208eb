-- ===== src/AuthLocal/Grants.antt =====
-- Whom the users file authorizes, as `get_auth_file` of auth_local.c reads it.
use stonesh.Prelude.{
  Bool, true, false, List, [], ◌∷◌, Option, none, some, ℤ, ◌≡◌, ◌⊎◌, ◌↔◌, inl, inr, refl, Bytes,
  Bool-cases, length, Any,
}
use stonesh.AuthLocal.{
  auth_local_failure, auth_local_success, scan_line, scan_users, auth_lines, get_auth_file,
}
use stonesh.Hosts.{line_room, colon, next_field}
use stonesh.Libc.{c_str, read_lines, strncasecmp, strsep}
use stonesh.Libc.Fields.{StartsFolded, strncasecmp-prefix_iff}
use stonesh.Readconf.File.{FileSystem}
use stonesh.Util.{trim}
use stonesh.AuthLocal.Scans.{FieldGrants, TextGrants, LineGrants, Scanned, scan_field-Scanned}

module _ (user host : Bytes) (proxy : ℤ) where
  scan_line-Scanned :
      (s : Bytes) → Scanned (TextGrants user host proxy s) (scan_line user host proxy s false)
  unfolding scan_line
  scan_line-Scanned [] = inr (λ g. g.0 refl, refl)
  scan_line-Scanned (c ∷ s) = elim (Bool-cases (strncasecmp user name (length user))) [
    | inl match ↦ rw match (by_field (scan_field-Scanned host proxy _) match)
    | inr miss ↦ rw miss (inr (λ g. absurd_match g.1 miss, refl))
  ]
    where
      name : Bytes
      name = trim (strsep (trim (c ∷ s)) colon).0

      by_field :
          {r : ℤ × Bool}
          → Scanned (FieldGrants host proxy (next_field (strsep (trim (c ∷ s)) colon).1).0) r
          → strncasecmp user name (length user) ≡ true
          → Scanned (TextGrants user host proxy (c ∷ s)) r
      by_field (inl (g, e)) m = inl ((cc, (strncasecmp-prefix_iff user name).0 m, g), e)
      by_field (inr (n, e)) m = inr (λ g. n g.2, e)

      absurd_match : StartsFolded user name → strncasecmp user name (length user) ≡ false → ⊥
      absurd_match g miss = let e = (strncasecmp-prefix_iff user name).1 g in cc

  scan_users_iff :
      (lines : List Bytes)
      → (scan_users user host proxy lines false ≡ auth_local_success)
        ↔ Any (LineGrants user host proxy) lines
  unfolding scan_users
  scan_users_iff [] = (λ h. cc, λ h. absurd h)
  scan_users_iff (line ∷ lines) = elim (scan_line-Scanned (c_str line)) [
    | inl (g, e) ↦ (λ h. inl g, λ h. rw e)
    | inr (n, e) ↦
        rw e (λ h. inr ((scan_users_iff lines).0 h), λ h. (scan_users_iff lines).1 (other h n))
  ]
    where
      other :
          Any (LineGrants user host proxy) (line ∷ lines)
          → ¬ LineGrants user host proxy line
          → Any (LineGrants user host proxy) lines
      other (inl g) n = absurd (n g)
      other (inr g) n = g

  scan_users-cases :
      (lines : List Bytes)
      → (scan_users user host proxy lines false ≡ auth_local_failure)
        ⊎ (scan_users user host proxy lines false ≡ auth_local_success)
  unfolding scan_users
  scan_users-cases [] = inl refl
  scan_users-cases (line ∷ lines) = elim (scan_line-Scanned (c_str line)) [
    | inl (g, e) ↦ rw e (inr refl)
    | inr (n, e) ↦ rw e (scan_users-cases lines)
  ]

-- The result is a failure or a success.
pub get_auth_file-cases :
    (files : FileSystem) (user host file : Option Bytes) (proxy : ℤ)
    → ((get_auth_file files user host file proxy).auth ≡ auth_local_failure)
      ⊎ ((get_auth_file files user host file proxy).auth ≡ auth_local_success)
unfolding get_auth_file
get_auth_file-cases files none host file proxy = inl refl
get_auth_file-cases files (some user) none file proxy = inl refl
get_auth_file-cases files (some user) (some host) none proxy = inl refl
get_auth_file-cases files (some user) (some host) (some file) proxy = opened (files file)
  where
    opened :
        (content : Option Bytes)
        → ((auth_lines user host proxy content).auth ≡ auth_local_failure)
          ⊎ ((auth_lines user host proxy content).auth ≡ auth_local_success)
    opened none = unfold auth_lines in inl refl
    opened (some content) =
        unfold auth_lines in
        scan_users-cases (trim user) (trim host) proxy (read_lines line_room content)

-- For a users file that can be opened, access is granted exactly if some line grants it to the user
-- and the host, both trimmed.
pub get_auth_file_iff :
    (files : FileSystem) (user host file content : Bytes) (proxy : ℤ)
    → files file ≡ some content
    → ((get_auth_file files (some user) (some host) (some file) proxy).auth ≡ auth_local_success)
      ↔ Any (LineGrants (trim user) (trim host) proxy) (read_lines line_room content)
unfolding get_auth_file
get_auth_file_iff files user host file content proxy opened = rw opened (
    unfold auth_lines in
    scan_users_iff (trim user) (trim host) proxy (read_lines line_room content))
