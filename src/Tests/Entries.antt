-- ===== src/Tests/Entries.antt =====
-- Instances of the theorems on the hosts file.
use stonesh.Hosts.{HostEntry, line_room, empty_entry, gethostentry}
use stonesh.Hosts.Lookup.{FirstLine, Names, gethostentry_iff}
use stonesh.Hosts.Table.{Host, at_port, row_of, IsHost, find, entry_for, gethostentry-find}
use stonesh.Libc.Rows.{text_of}
use stonesh.Prelude.{map, List, true, false, [], ◌∷◌, some, ◌≡◌, ◌↔◌, refl, arith, codes, All}
use stonesh.Libc.{read_lines, is_space}
use stonesh.Tests.Samples.{hosts_text, files_with, no_entry}
use stonesh.Util.Clean.{IsField}

gethostentry_iff_example :
    ((entry : HostEntry)
      → (gethostentry (files_with hosts_text) (some (codes "db")) (some (codes "h")) no_entry
          ≡ (true, entry))
        ↔ FirstLine (codes "db") entry (read_lines line_room hosts_text))
    × ((gethostentry (files_with hosts_text) (some (codes "db")) (some (codes "h")) no_entry
          ≡ (false, empty_entry))
        ↔ All (λ line. ¬ Names (codes "db") line) (read_lines line_room hosts_text))
gethostentry_iff_example =
    gethostentry_iff (files_with hosts_text) (codes "db") (codes "h") hosts_text no_entry refl

db_IsField : IsField (codes "db")
unfolding is_space
db_IsField = (
  λ h. cc,
  (
    ((refl, omega arith, omega arith), omega arith),
    (((refl, omega arith, omega arith), omega arith), tt),
  ),
)

port_IsField : IsField (codes "20")
unfolding is_space
port_IsField = (
  λ h. cc,
  (
    ((refl, omega arith, omega arith), omega arith),
    (((refl, omega arith, omega arith), omega arith), tt),
  ),
)

abbrev hosts : List Host
hosts = record { name = codes "db"; details = at_port (codes "20") } ∷ []

hosts_AreHosts : All IsHost hosts
hosts_AreHosts = ((db_IsField, port_IsField, omega arith), tt)

gethostentry-find_example :
    gethostentry
      (files_with (text_of (map row_of hosts)))
      (some (codes "db"))
      (some (codes "h"))
      no_entry
    ≡ entry_for (find (codes "db") hosts)
gethostentry-find_example =
    gethostentry-find (files_with (text_of (map row_of hosts))) (codes "db") (codes "h") no_entry
      hosts hosts_AreHosts refl
