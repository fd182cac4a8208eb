-- ===== src/AuthLocal/Session.antt =====
-- `get_auth_file` of auth_local.c once more, with its messages and the file that it opens.
use stonesh.AuthLocal.{auth_local_failure, scan_field, LocalAuth}
use stonesh.Hosts.{line_room, colon, next_field}
use stonesh.Libc.{c_str, read_lines, strncasecmp, strsep}
use stonesh.Log.{error, debug}
use stonesh.Prelude.{
  Bool, false, List, [], ◌∷◌, Option, none, some, ℤ, int_eq, Bytes, codes, length, if◌then◌else◌,
}
use stonesh.Streams.{Disk, Io, tell, open_file, close_file}
use stonesh.Util.{trim}

-- The message on the list of hosts, in front of the loop over it.
unfoldable pub tell_hosts : Option Bytes → Io → Io
tell_hosts none io = io
tell_hosts (some hosts) io = tell (debug (codes "hosts = '%s'") (hosts ∷ [])) io

-- One round of the loop over the lines: `auth` and `can_proxy` behind it, and the state.
unfoldable pub scan_line_io : Bytes → Bytes → ℤ → Bytes → Bool → Io → (ℤ × Bool) × Io
scan_line_io user host proxy [] can_proxy io = ((auth_local_failure, can_proxy), io)
scan_line_io user host proxy (c ∷ s) can_proxy io =
    let (username, rest) = strsep (trim (c ∷ s)) colon in
    let hosts = (next_field rest).0 in
    if strncasecmp user (trim username) (length user)
    then (scan_field host proxy hosts can_proxy, tell_hosts hosts io)
    else ((auth_local_failure, can_proxy), io)

unfoldable pub scan_users_io : Bytes → Bytes → ℤ → List Bytes → Bool → Io → ℤ × Io
scan_users_io user host proxy [] can_proxy io = (auth_local_failure, io)
scan_users_io user host proxy (line ∷ lines) can_proxy io =
    let ((auth, can_proxy'), io') = scan_line_io user host proxy (c_str line) can_proxy io in
    let later = scan_users_io user host proxy lines can_proxy' io' in
    if int_eq auth auth_local_failure then later else (auth, io')

abbrev pub closing : Bytes
closing = codes "unable to close file '%s': %s"

-- On what `fopen` gives.
unfoldable pub auth_lines_io : Disk → Bytes → Bytes → Bytes → ℤ → Option Bytes → Io → LocalAuth × Io
auth_lines_io disk user host file proxy none io = (
  record { auth = auth_local_failure; user = some user; host = some host },
  tell (error (codes "unable to open file '%s': %s") (file ∷ disk.strerror file ∷ [])) io,
)
auth_lines_io disk user host file proxy (some content) io =
    let (auth, io') =
      scan_users_io (trim user) (trim host) proxy (read_lines line_room content) false
        (open_file file io) in
    (
      record { auth = auth; user = some (trim user); host = some (trim host) },
      close_file disk closing file io',
    )

unfoldable pub get_auth_file_io :
    Disk → Option Bytes → Option Bytes → Option Bytes → ℤ → Io → LocalAuth × Io
get_auth_file_io disk (some user) (some host) (some file) proxy io =
    auth_lines_io disk user host file proxy (disk.files file) io
get_auth_file_io disk user host file proxy io =
    (record { auth = auth_local_failure; user = user; host = host }, io)
