-- ===== src/Hosts.antt =====
-- hosts.c: `gethostentry`, and the static host entry that it fills. What it prints goes to the log.
pub mod Lookup
pub mod Format
pub mod Table
pub mod Session
pub mod Accounts
use stonesh.Prelude.{
  ℕ, Bool, true, false, ◌&&◌, List, [], ◌∷◌, Option, none, some, Bytes, codes, length, ◌==◌,
  if◌then◌else◌,
}
use stonesh.Libc.{c_str, read_lines, strncmp, strsep}
use stonesh.Readconf.File.{FileSystem}
use stonesh.Util.{trim}

pub record HostEntry : Type 0 where
  pub host : Option Bytes
  pub countries : Option Bytes
  pub port : Option Bytes

-- `MAXLINELEN - 1`
abbrev pub line_room : ℕ
line_room = 1023

abbrev pub colon : ℕ
colon = b':'

-- `strsep(&lineptr, ":")`, where `lineptr` may be NULL
abbrev pub next_field : Option Bytes → Option Bytes × Option Bytes
next_field none = (none, none)
next_field (some s) = let (field, rest) = strsep s colon in (some field, rest)

-- The copy of a field, or the default for a missing or an empty one, trimmed.
unfoldable pub field_or : Option Bytes → Bytes → Bytes
field_or none d = trim d
field_or (some []) d = trim d
field_or (some (c ∷ s)) d = trim (c ∷ s)

-- The entry that is filled in for a host, from what stands behind its name.
unfoldable pub fill_entry : Bytes → Option Bytes → HostEntry
fill_entry host rest =
    let (port, rest') = next_field rest in
    let (countries, rest'') = next_field rest' in
    record {
      host = some host;
      countries = some (field_or countries []);
      port = some (field_or port (codes "22"));
    }

-- One round of the loop, on the trimmed line: the entry, if the line has the name that is sought.
unfoldable pub host_line : Bytes → Bytes → Option HostEntry
host_line hostname [] = none
host_line hostname (c ∷ s) =
    let (host, rest) = strsep (c ∷ s) colon in
    if length host == length hostname && strncmp host hostname (length hostname)
    then some (fill_entry host rest)
    else none

unfoldable pub search_hosts : Bytes → List Bytes → Option HostEntry
search_hosts hostname [] = none
search_hosts hostname (line ∷ lines) = elim (host_line hostname (trim (c_str line))) [
  | some entry ↦ some entry
  | none ↦ search_hosts hostname lines
]

-- `he` with its three strings freed
abbrev pub empty_entry : HostEntry
empty_entry = record { host = none; countries = none; port = none }

-- Whether the pointer to `he` is returned, or NULL, and `he` afterwards.
abbrev pub found : Option HostEntry → Bool × HostEntry
found none = (false, empty_entry)
found (some entry) = (true, entry)

-- On what `fopen` gives.
unfoldable pub lookup_host : Bytes → Option Bytes → Bool × HostEntry
lookup_host hostname none = (false, empty_entry)
lookup_host hostname (some content) = found (search_hosts hostname (read_lines line_room content))

unfoldable pub gethostentry :
    FileSystem → Option Bytes → Option Bytes → HostEntry → Bool × HostEntry
gethostentry files none hosts_file he = (false, he)
gethostentry files (some hostname) none he = (false, he)
gethostentry files (some hostname) (some hosts_file) he = lookup_host hostname (files hosts_file)
