-- ===== src/Stonesh/Parsing.antt =====
-- stonesh.c: what `main` makes of the value of the option `-c`, of the prompt and of the host's name.
use stonesh.Auth.{auth_bastion, auth_proxy}
use stonesh.Libc.{c_str, one_of, read_lines, strncmp, strtok}
use stonesh.Prelude.{
  ℕ, ◌-◌, Bool, true, false, ◌&&◌, List, [], ◌∷◌, ◌++◌, Option, none, some, ℤ, pos, int_eq, Run, ok,
  fault, ◌>>=◌, Bytes, length, take, drop, take_while, ◌==◌, if◌then◌else◌,
}

-- The host, the command and the kind of access that are asked for, and `cval` as `strtok` leaves it.
pub record Request : Type 0 where
  pub host : Option Bytes
  pub args : Option Bytes
  pub proxy : Bool
  pub cval : Option Bytes

abbrev pub blanks : Bytes
blanks = b' ' ∷ []

-- `strtok(NULL, "")`: what is left, if that is not empty.
abbrev pub remaining : Bytes → Option Bytes
remaining [] = none
remaining (c ∷ s) = some (c ∷ s)

-- `strlen(host) == strlen(keyword) && strncmp(host, keyword, strlen(keyword)) == 0`; the keyword is set.
unfoldable pub is_keyword : Bytes → Option Bytes → Run Bool
is_keyword host none = fault
is_keyword host (some keyword) =
    ok (length host == length keyword && strncmp host keyword (length keyword))

-- A request for proxy access, with what stands behind the keyword. Without a host the code goes to
-- `clean_exit` with `hostent` not initialized, and reads it there: a fault.
unfoldable pub proxy_request : Bytes → Bytes → Run Request
proxy_request cval rest = elim (strtok rest blanks) [
  | none ↦ fault
  | some (host, more) ↦
      ok (record { host = some host; args = none; proxy = true; cval = some cval })
]

abbrev pub bastion_request : Bytes → Bytes → Bytes → Request
bastion_request cval host rest = record {
  host = some host;
  args = remaining rest;
  proxy = false;
  cval = some cval;
}

-- A command of blanks alone ends in `strlen(NULL)`.
unfoldable pub parse_request : Option Bytes → Option Bytes → Run Request
parse_request none keyword = ok (record { host = none; args = none; proxy = false; cval = none })
parse_request (some cval) keyword = elim (strtok cval blanks) [
  | none ↦ fault
  | some (word, rest) ↦
      let cut = take_while (one_of blanks) cval ++ word in
      (do
        same ← is_keyword word keyword
        (if same then proxy_request cut rest else ok (bastion_request cut word rest)))
]

abbrev pub without_last : Bytes → Bytes
without_last s = take (length s - 1) s

-- The prompt, on the lines of the standard input. `none`: at its end the loop goes on for ever.
unfoldable pub prompt_host : List Bytes → Option Bytes
prompt_host [] = none
prompt_host (line ∷ lines) = elim (without_last (c_str line)) [
  | [] ↦ prompt_host lines
  | c ∷ s ↦ some (c ∷ s)
]

-- `MAXHOSTNAMELEN - 1`
abbrev pub host_room : ℕ
host_room = 63

unfoldable pub wanted_host : Option Bytes → Bytes → Option Bytes
wanted_host (some host) stdin = some host
wanted_host none stdin = prompt_host (read_lines host_room stdin)

-- `strncpy(s, host, strlen(host))`, where `host` points into `s` at or behind its start: the bytes of
-- the host go over the first bytes of `s`, in order.
unfoldable pub short_name : ℤ → Bytes → Run Bytes
short_name allowfqdn s =
    if int_eq allowfqdn (pos 0)
    then elim (strtok s (b'.' ∷ [])) [
      | none ↦ fault
      | some (host, rest) ↦
          let dots = take_while (one_of (b'.' ∷ [])) s in
          ok (host ++ drop (length host) (dots ++ host))
    ]
    else ok s

-- The kind of access that `auth_user` is asked for.
unfoldable pub access_mode : Option Bytes → Bytes → ℤ
access_mode none host = auth_bastion
access_mode (some cval) host = if strncmp cval host (length cval) then auth_bastion else auth_proxy
