-- ===== src/Readconf/Session/Reading.antt =====
-- `read_config_file` of readconf.c once more, with its messages, the file that it opens, and the strings
-- of the options.
use stonesh.Libc.{c_str, read_lines, decimal}
use stonesh.Log.{error}
use stonesh.Prelude.{
  ℕ, ◌+◌, ◌-◌, ltb, List, [], ◌∷◌, Option, none, some, ℤ, pos, minus_one, int_eq, Run, ok, ◌>>=◌,
  Bytes, codes, if◌then◌else◌,
}
use stonesh.Readconf.File.{config_room}
use stonesh.Readconf.Options.{Options, initialize_options, free_options, fill_default_options}
use stonesh.Readconf.Session.{process_config_line_io}
use stonesh.Streams.{Disk, Io, tell, new_string, free_string}

-- OPT_FREE for each of some strings
unfoldable pub free_strings : List (Option Bytes) → Io → Io
free_strings [] io = io
free_strings (s ∷ strings) io = free_strings strings (free_string s io)

-- The strings that `free_options` frees, in its order.
abbrev pub settings_of : Options → List (Option Bytes)
settings_of o =
    o.ldap_uri ∷ o.ldap_base ∷ o.nc_path ∷ o.ssh_path ∷ o.proxy_keyword ∷ o.hosts_file
    ∷ o.users_file ∷ o.nc_timeout ∷ o.authorized_service_tag ∷ o.host ∷ o.port ∷ o.geoip_dat
    ∷ o.geoip6_dat ∷ []

-- A string is allocated for each pointer that is NULL.
unfoldable pub fill_strings : List (Option Bytes) → Io → Io
fill_strings [] io = io
fill_strings (none ∷ strings) io = fill_strings strings (new_string io)
fill_strings (some s ∷ strings) io = fill_strings strings io

-- The strings that `fill_default_options` looks at, in its order.
abbrev pub defaulted : Options → List (Option Bytes)
defaulted o =
    o.authorized_service_tag ∷ o.proxy_keyword ∷ o.hosts_file ∷ o.users_file ∷ o.ssh_path
    ∷ o.nc_path ∷ o.nc_timeout ∷ o.geoip_dat ∷ o.geoip6_dat ∷ []

-- The loop over the lines, with `linenum` in front of a line, and `bad_options`.
unfoldable pub read_options_io :
    Bytes → ℕ → List Bytes → Options → ℕ → Io → Run ((Options × ℕ) × Io)
read_options_io filename linenum [] o bad io = ok ((o, bad), io)
read_options_io filename linenum (line ∷ lines) o bad io = do
  ((o', err), io') ←
      process_config_line_io (filename ∷ decimal (pos (linenum + 1)) ∷ []) o (c_str line)
        (some (pos 1)) io
  (let more =
        read_options_io filename (linenum + 1) lines o'
          (if int_eq err (pos 0) then bad else bad + 1) io' in
      if int_eq err minus_one then ok ((o', bad + 1), io') else more)

-- `fclose`, with a message only where it fails
unfoldable pub close_config : Disk → Bytes → Io → Io
close_config disk filename io =
    let closed = record io { streams = io.streams - 1 } in
    if disk.closes filename
    then closed
    else tell (error (codes "unable to close '%s': %s") (filename ∷ disk.strerror filename ∷ []))
        closed

-- Behind the loop.
unfoldable pub finish_options_io : Disk → Bytes → Options × ℕ → Io → (Options × ℤ) × Io
finish_options_io disk filename (o, bad) io =
    let io' = close_config disk filename io in
    if ltb 0 bad
    then (
      (free_options o, pos 0),
      free_strings (settings_of o) (
          tell
            (error (codes "%s: terminating, %d bad configuration options")
              (filename ∷ decimal (pos bad) ∷ []))
            io'),
    )
    else ((fill_default_options o, pos 1), fill_strings (defaulted o) io')

-- On what `fopen` gives. `initialize_options` clears the pointers in front of its calls of OPT_FREE,
-- which then free nothing.
unfoldable pub read_opened_io :
    Disk → Bytes → Option Bytes → Options → Io → Run ((Options × ℤ) × Io)
read_opened_io disk filename none o io = ok (
  (free_options o, pos 0),
  tell (error (codes "unable to open file '%s': %s") (filename ∷ disk.strerror filename ∷ []))
      (free_strings (settings_of o) io),
)
read_opened_io disk filename (some content) o io = do
  (r, io') ←
      read_options_io filename 0 (read_lines config_room content) (initialize_options o) 0
        (record io { streams = io.streams + 1 })
  ok (finish_options_io disk filename r io')

unfoldable pub read_config_file_io : Disk → Bytes → Options → Io → Run ((Options × ℤ) × Io)
read_config_file_io disk filename o io = read_opened_io disk filename (disk.files filename) o io
