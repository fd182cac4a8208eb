-- ===== src/AuthLocal/Table.antt =====
-- A users file as a table: `get_auth_file` of auth_local.c against a list of users and their hosts.
use stonesh.AuthLocal.{auth_local_success, get_auth_file}
use stonesh.AuthLocal.Format.{LineGrants-iff, line-IsClean}
use stonesh.AuthLocal.Entries.{Entry, IsEntry, Allows, users_line}
use stonesh.AuthLocal.Grants.{get_auth_file_iff}
use stonesh.AuthLocal.Scans.{LineGrants}
use stonesh.Hosts.{line_room}
use stonesh.Libc.Fields.{StartsFolded}
use stonesh.Libc.Rows.{with_newline, text_of, IsRow, read_lines-text_of}
use stonesh.Prelude.{
  ◌<◌, List, [], ◌∷◌, map, some, ℤ, ◌≡◌, ◌↔◌, inl, inr, sym, subst, Bytes, All, Any, length,
}
use stonesh.Readconf.File.{FileSystem}
use stonesh.Util.{trim}
use stonesh.Util.Clean.{IsField, clean-Lacks_newline}

-- A user and the hosts that the user may go to, each with its permission for proxy access.
pub record User : Type 0 where
  pub name : Bytes
  pub entries : List Entry

abbrev pub user_row : User → Bytes
user_row u = users_line u.name u.entries

-- The names are not empty and hold no blank and none of the marks `#`, `:`, `,` and `+`; the row fits
-- into the buffer.
abbrev pub IsUser : User → Type 0
IsUser u = IsField u.name × All IsEntry u.entries × (length (user_row u) < line_room)

-- The user's name starts with `user`, and the first of the hosts that starts with `host` allows the
-- access, both but for case.
abbrev pub UserAllows : Bytes → Bytes → ℤ → User → Type 0
UserAllows user host proxy u = StartsFolded user u.name × Allows host proxy u.entries

rows-AreRows : (users : List User) → All IsUser users → All (IsRow line_room) (map user_row users)
rows-AreRows [] hs = tt
rows-AreRows (u ∷ users) ((n, es, l), hs) = (
  (clean-Lacks_newline (user_row u) (line-IsClean u.name u.entries n es), l),
  rows-AreRows users hs,
)

module _ (user host : Bytes) (proxy : ℤ) where
  lines_iff :
      (users : List User)
      → All IsUser users
      → Any (LineGrants user host proxy) (map with_newline (map user_row users))
        ↔ Any (UserAllows user host proxy) users
  lines_iff [] hs = (λ a. a, λ a. a)
  lines_iff (u ∷ users) ((n, es, l), hs) =
      let first = LineGrants-iff u.name u.entries n es user host proxy in
      let more = lines_iff users hs in
      (
        λ a. elim a [ inl g ↦ inl (first.0 g) | inr m ↦ inr (more.0 m) ],
        λ a. elim a [ inl g ↦ inl (first.1 g) | inr m ↦ inr (more.1 m) ],
      )

-- On a users file that lists some users, row by row, `get_auth_file` authorizes exactly those for whom
-- some user of the list has a name that starts with theirs and, as the first host that starts with
-- the host asked for, one that allows the access, all but for case and blanks around what is asked.
-- The names of the list are not empty and hold no blank and none of the marks `#`, `:`, `,` and
-- `+`, and a row has fewer than 1023 bytes.
pub get_auth_file-table_iff :
    (files : FileSystem) (user host file : Bytes) (proxy : ℤ) (users : List User)
    → All IsUser users
    → files file ≡ some (text_of (map user_row users))
    → ((get_auth_file files (some user) (some host) (some file) proxy).auth ≡ auth_local_success)
      ↔ Any (UserAllows (trim user) (trim host) proxy) users
get_auth_file-table_iff files user host file proxy users hs opened =
    let granted = get_auth_file_iff files user host file _ proxy opened in
    let lines = lines_iff (trim user) (trim host) proxy users hs in
    let read = read_lines-text_of line_room (map user_row users) (rows-AreRows users hs) in
    (
      λ e. lines.0 (subst (Any (LineGrants (trim user) (trim host) proxy)) read (granted.0 e)),
      λ a.
          granted.1 (subst (Any (LineGrants (trim user) (trim host) proxy)) (sym read) (lines.1 a)),
    )
