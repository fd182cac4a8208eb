-- ===== src/Tests/Users.antt =====
-- Instances of the theorems on the users file.
use stonesh.AuthLocal.{get_auth_file, auth_local_success}
use stonesh.AuthLocal.Table.{User, user_row, UserAllows, get_auth_file-table_iff}
use stonesh.Libc.Rows.{text_of}
use stonesh.Util.Clean.{IsField}
use stonesh.Prelude.{map, All, true, [], ◌∷◌, some, pos, ◌≡◌, ◌↔◌, refl, arith, codes, Any}
use stonesh.AuthLocal.Entries.{IsEntry, Entry}
use stonesh.AuthLocal.Grants.{get_auth_file_iff}
use stonesh.AuthLocal.Scans.{LineGrants}
use stonesh.Hosts.{line_room}
use stonesh.Libc.{read_lines, is_space}
use stonesh.Tests.Samples.{users_text, files_with}
use stonesh.Util.{trim}

get_auth_file_iff_example :
    ((get_auth_file
        (files_with users_text)
        (some (codes "al"))
        (some (codes "web"))
        (some (codes "u"))
        (pos 1)).auth
      ≡ auth_local_success)
    ↔ Any
        (LineGrants (trim (codes "al")) (trim (codes "web")) (pos 1))
        (read_lines line_room users_text)
get_auth_file_iff_example =
    get_auth_file_iff (files_with users_text) (codes "al") (codes "web") (codes "u") users_text
      (pos 1) refl

abbrev web : Entry
web = record { name = codes "web"; plus = true }

al_IsField : IsField (codes "al")
unfolding is_space
al_IsField = (
  λ h. cc,
  (
    ((refl, omega arith, omega arith), omega arith),
    (((refl, omega arith, omega arith), omega arith), tt),
  ),
)

web_AreEntries : All IsEntry (web ∷ [])
unfolding is_space
web_AreEntries = (
  (
    λ h. cc,
    (
      (((refl, omega arith, omega arith), omega arith), omega arith, omega arith),
      (
        (((refl, omega arith, omega arith), omega arith), omega arith, omega arith),
        ((((refl, omega arith, omega arith), omega arith), omega arith, omega arith), tt),
      ),
    ),
  ),
  tt,
)

abbrev al : User
al = record { name = codes "al"; entries = web ∷ [] }

get_auth_file-table_iff_example :
    ((get_auth_file
        (files_with (text_of (map user_row (al ∷ []))))
        (some (codes "AL"))
        (some (codes "we"))
        (some (codes "u"))
        (pos 1)).auth
      ≡ auth_local_success)
    ↔ Any (UserAllows (trim (codes "AL")) (trim (codes "we")) (pos 1)) (al ∷ [])
get_auth_file-table_iff_example =
    get_auth_file-table_iff (files_with (text_of (map user_row (al ∷ [])))) (codes "AL")
      (codes "we") (codes "u") (pos 1) (al ∷ []) ((al_IsField, web_AreEntries, omega arith), tt)
      refl
