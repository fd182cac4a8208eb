-- ===== src/AuthLocal.antt =====
-- auth_local.c: `get_auth_file`, the authorization by the users file.
pub mod Scans
pub mod Grants
pub mod Entries
pub mod Format
pub mod Table
pub mod Session
pub mod Accounts
use stonesh.Prelude.{
  ℕ, suc, Bool, true, false, ◌&&◌, List, [], ◌∷◌, Option, none, some, ℤ, pos, int_eq, Bytes, length,
  not, ◌==◌, if◌then◌else◌,
}
use stonesh.Hosts.{line_room, colon, next_field}
use stonesh.Libc.{c_str, read_lines, strncasecmp, strsep, strtok_all}
use stonesh.Readconf.File.{FileSystem}
use stonesh.Util.{trim}

abbrev pub auth_local_failure : ℤ
auth_local_failure = pos 0

abbrev pub auth_local_success : ℤ
auth_local_success = pos 1

-- `hostname[strlen(hostname) - 1] == '+'`. For an empty name this reads the byte in front of it in
-- the line: the NUL that ended what stands there, or a comma.
abbrev pub ends_plus : Bytes → Bool
ends_plus [] = false
ends_plus (c ∷ []) = c == b'+'
ends_plus (c ∷ d ∷ s) = ends_plus (d ∷ s)

abbrev pub drop_last : Bytes → Bytes
drop_last [] = []
drop_last (c ∷ []) = []
drop_last (c ∷ d ∷ s) = c ∷ drop_last (d ∷ s)

-- The loop over the list of hosts, with `can_proxy`: `auth` and `can_proxy` behind it.
unfoldable pub scan_hosts : Bytes → ℤ → List Bytes → Bool → ℤ × Bool
scan_hosts host proxy [] can_proxy = (auth_local_failure, can_proxy)
scan_hosts host proxy (token ∷ tokens) can_proxy =
    let entry = trim token in
    let hostname = if ends_plus entry then drop_last entry else entry in
    let can_proxy' = if ends_plus entry then true else can_proxy in
    let later = scan_hosts host proxy tokens false in
    if strncasecmp host hostname (length host)
    then (if not can_proxy' && int_eq proxy (pos 1)
        then (auth_local_failure, can_proxy')
        else (auth_local_success, can_proxy'))
    else later

-- On the second field of a line.
unfoldable pub scan_field : Bytes → ℤ → Option Bytes → Bool → ℤ × Bool
scan_field host proxy none can_proxy = (auth_local_failure, can_proxy)
scan_field host proxy (some hosts) can_proxy =
    scan_hosts host proxy (strtok_all hosts (b',' ∷ [])) can_proxy

-- One round of the loop over the lines, on the string that `fgets` stored.
unfoldable pub scan_line : Bytes → Bytes → ℤ → Bytes → Bool → ℤ × Bool
scan_line user host proxy [] can_proxy = (auth_local_failure, can_proxy)
scan_line user host proxy (c ∷ s) can_proxy =
    let (username, rest) = strsep (trim (c ∷ s)) colon in
    if strncasecmp user (trim username) (length user)
    then scan_field host proxy (next_field rest).0 can_proxy
    else (auth_local_failure, can_proxy)

unfoldable pub scan_users : Bytes → Bytes → ℤ → List Bytes → Bool → ℤ
scan_users user host proxy [] can_proxy = auth_local_failure
scan_users user host proxy (line ∷ lines) can_proxy =
    let (auth, can_proxy') = scan_line user host proxy (c_str line) can_proxy in
    let later = scan_users user host proxy lines can_proxy' in
    if int_eq auth auth_local_failure then later else auth

-- The result, and the strings of the caller, which are trimmed in place.
pub record LocalAuth : Type 0 where
  pub auth : ℤ
  pub user : Option Bytes
  pub host : Option Bytes

-- On what `fopen` gives.
unfoldable pub auth_lines : Bytes → Bytes → ℤ → Option Bytes → LocalAuth
auth_lines user host proxy none = record {
  auth = auth_local_failure;
  user = some user;
  host = some host;
}
auth_lines user host proxy (some content) = record {
  auth = scan_users (trim user) (trim host) proxy (read_lines line_room content) false;
  user = some (trim user);
  host = some (trim host);
}

unfoldable pub get_auth_file :
    FileSystem → Option Bytes → Option Bytes → Option Bytes → ℤ → LocalAuth
get_auth_file files (some user) (some host) (some file) proxy =
    auth_lines user host proxy (files file)
get_auth_file files user host file proxy = record {
  auth = auth_local_failure;
  user = user;
  host = host;
}
