-- ===== src/Hosts/Session.antt =====
-- `gethostentry` of hosts.c once more, with its messages, the file that it opens, and the strings of the
-- static entry.
use stonesh.Hosts.{HostEntry, line_room, host_line, empty_entry}
use stonesh.Libc.{c_str, read_lines}
use stonesh.Log.{error, debug}
use stonesh.Prelude.{Bool, true, false, List, [], ◌∷◌, Option, none, some, Bytes, codes}
use stonesh.Streams.{Disk, Io, tell, open_file, close_file, new_string, free_string}
use stonesh.Util.{trim}

-- What `gethostentry` returns and leaves in `he`, and the state behind it.
pub record Lookup : Type 0 where
  pub returned : Bool
  pub entry : HostEntry
  pub io : Io

-- HOSTS_FREE for each string of `he`
unfoldable pub free_entry : HostEntry → Io → Io
free_entry he io = free_string he.countries (free_string he.port (free_string he.host io))

abbrev close_message : Bytes
close_message = codes "unable to close hosts file '%s': %s"

-- A copy of a field, and the message on it.
unfoldable pub copy_field : Bytes → Option Bytes → Io → Io
copy_field message none io = io
copy_field message (some field) io = tell (debug message (field ∷ [])) (new_string io)

-- What filling the entry does, from the copy of the name on.
unfoldable pub copy_entry : HostEntry → Io → Io
copy_entry entry io =
    copy_field (codes "countries = '%s'") entry.countries
      (copy_field (codes "port = '%s'") entry.port (copy_field (codes "host = '%s'") entry.host io))

-- The loop over the lines, and what is behind it.
unfoldable pub search_io : Disk → Bytes → Bytes → List Bytes → Io → Lookup
search_io disk hostname hosts_file [] io = record {
  returned = false;
  entry = empty_entry;
  io = close_file disk close_message hosts_file io;
}
search_io disk hostname hosts_file (line ∷ lines) io =
    elim (host_line hostname (trim (c_str line))) [
      | some entry ↦ record {
        returned = true;
        entry = entry;
        io = close_file disk close_message hosts_file (copy_entry entry io);
      }
      | none ↦ search_io disk hostname hosts_file lines io
    ]

-- On what `fopen` gives.
unfoldable pub lookup_io : Disk → Bytes → Bytes → Option Bytes → Io → Lookup
lookup_io disk hostname hosts_file none io = record {
  returned = false;
  entry = empty_entry;
  io =
      tell
        (error (codes "unable to open hosts file '%s': %s")
          (hosts_file ∷ disk.strerror hosts_file ∷ []))
        io;
}
lookup_io disk hostname hosts_file (some content) io =
    search_io disk hostname hosts_file (read_lines line_room content) (open_file hosts_file io)

unfoldable pub gethostentry_io : Disk → Option Bytes → Option Bytes → HostEntry → Io → Lookup
gethostentry_io disk none hosts_file he io = record { returned = false; entry = he; io = io }
gethostentry_io disk (some hostname) none he io = record { returned = false; entry = he; io = io }
gethostentry_io disk (some hostname) (some hosts_file) he io =
    lookup_io disk hostname hosts_file (disk.files hosts_file) (free_entry he io)
