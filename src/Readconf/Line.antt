-- ===== src/Readconf/Line.antt =====
-- `process_config_line` of readconf.c. Its messages go to the log alone and are left out here, and with
-- them the file name and the line number, which nothing else reads; Session has them. `activep` points
-- to an `int` or is NULL; the function never writes through it.
pub mod Keeps
pub mod Dispatch
pub mod Sets
pub mod Garbage
pub mod Stores
use stonesh.Prelude.{
  Bool, true, false, not, ◌&&◌, ◌||◌, [], ◌∷◌, Option, none, some, ℤ, pos, minus_one, int_eq, Run,
  ok, fault, ◌>>=◌, Bytes, codes, str_eq, if◌then◌else◌,
}
use stonesh.Libc.{atoi_pos}
use stonesh.Util.{trim}
use stonesh.Readconf.Delim.{strdelim}
use stonesh.Readconf.Keywords
use stonesh.Readconf.Keywords.{OpCode, parse_token}
use stonesh.Readconf.Options.{Options, Flag, Setting, get_flag, set_flag, get_setting, set_setting}

-- The options, the rest of the line and `status`, where the switch is left.
pub record Parsed : Type 0 where
  pub options : Options
  pub rest : Option Bytes
  pub status : ℤ

abbrev pub is_missing : Option Bytes → Bool
is_missing none = true
is_missing (some []) = true
is_missing (some (c ∷ s)) = false

abbrev pub is_null : Option Bytes → Bool
is_null none = true
is_null (some s) = false

-- `value` and `status` for the argument of a flag.
unfoldable pub flag_value : Bytes → ℤ × ℤ
flag_value arg =
    if str_eq arg (codes "yes") || str_eq arg (codes "true")
    then (pos 1, pos 0)
    else if str_eq arg (codes "no") || str_eq arg (codes "false")
    then (pos 0, pos 0)
    else (pos 0, minus_one)

-- `*intptr` is written once.
abbrev pub store_flag : Flag → ℤ → Option ℤ → Options → Options
store_flag f v none o = o
store_flag f v (some active) o = if int_eq (get_flag f o) minus_one then set_flag f v o else o

-- the label `parse_flag`, on the argument that `strdelim` found
unfoldable pub flag_argument : Flag → Options → Option ℤ → Option Bytes → Option Bytes → Parsed
flag_argument f o active none s = record { options = o; rest = s; status = minus_one }
flag_argument f o active (some []) s = record { options = o; rest = s; status = minus_one }
flag_argument f o active (some (c ∷ arg)) s =
    let (value, status) = flag_value (c ∷ arg) in
    record { options = store_flag f value active o; rest = s; status = status }

unfoldable pub parse_flag : Flag → Options → Option ℤ → Option Bytes → Run Parsed
parse_flag f o active s = let (arg, s') = strdelim s in ok (flag_argument f o active arg s')

-- `strdup`, which reads through its argument
abbrev pub strdup : Option Bytes → Run Bytes
strdup none = fault
strdup (some s) = ok s

-- `if (*activep != 0 && *charptr == NULL) *charptr = strdup(arg);`
unfoldable pub store_setting : Setting → Option Bytes → Option ℤ → Options → Run Options
store_setting t arg none o = fault
store_setting t arg (some active) o =
    if not (int_eq active (pos 0)) && is_null (get_setting t o)
    then (do copy ← strdup arg; ok (set_setting t (some copy) o))
    else ok o

-- the label `parse_string`, on the argument that `strdelim` found
unfoldable pub string_argument :
    Setting → Options → Option ℤ → Option Bytes → Option Bytes → Run Parsed
string_argument t o active arg s = do
  o' ← store_setting t arg active o
  ok (record { options = o'; rest = s; status = if is_missing arg then minus_one else pos 0 })

unfoldable pub parse_string : Setting → Options → Option ℤ → Option Bytes → Run Parsed
parse_string t o active s = let (arg, s') = strdelim s in string_argument t o active arg s'

abbrev pub timeout_status : Option Bytes → ℤ
timeout_status none = minus_one
timeout_status (some []) = minus_one
timeout_status (some (c ∷ arg)) = if atoi_pos (c ∷ arg) then pos 0 else minus_one

-- `case oNCTimeout`
unfoldable pub parse_timeout : Options → Option ℤ → Option Bytes → Run Parsed
parse_timeout o active s =
    let (arg, s') = strdelim s in
    do
      o' ← store_setting Setting.nc_timeout arg active o
      ok (record { options = o'; rest = s'; status = timeout_status arg })

-- The switch, for an opcode other than `o_bad_option`.
unfoldable pub dispatch : OpCode → Options → Option ℤ → Option Bytes → Run Parsed
dispatch Keywords.o_debug = parse_flag Flag.debug
dispatch Keywords.o_use_ldap = parse_flag Flag.use_ldap
dispatch Keywords.o_enable_proxy = parse_flag Flag.enable_proxy
dispatch Keywords.o_log_to_stderr = parse_flag Flag.log_to_stderr
dispatch Keywords.o_disable_authorization = parse_flag Flag.disable_authorization
dispatch Keywords.o_disable_proxy_authorization = parse_flag Flag.disable_proxy_authorization
dispatch Keywords.o_allow_fqdn = parse_flag Flag.allowfqdn
dispatch Keywords.o_authorized_service_tag = parse_string Setting.authorized_service_tag
dispatch Keywords.o_proxy_keyword = parse_string Setting.proxy_keyword
dispatch Keywords.o_hosts_file = parse_string Setting.hosts_file
dispatch Keywords.o_users_file = parse_string Setting.users_file
dispatch Keywords.o_ldap_uri = parse_string Setting.ldap_uri
dispatch Keywords.o_ldap_base = parse_string Setting.ldap_base
dispatch Keywords.o_ssh_path = parse_string Setting.ssh_path
dispatch Keywords.o_nc_path = parse_string Setting.nc_path
dispatch Keywords.o_geoip = parse_string Setting.geoip_dat
dispatch Keywords.o_geoip6 = parse_string Setting.geoip6_dat
dispatch Keywords.o_nc_timeout = parse_timeout
dispatch Keywords.o_auth_type =
    λ o active s. ok (record { options = o; rest = s; status = minus_one })
dispatch Keywords.o_bad_option = λ o active s. ok (record { options = o; rest = s; status = pos 1 })

-- The check for garbage at the end of the line: `free` of a pointer into the line is a fault.
unfoldable pub check_end : Parsed → Run (Options × ℤ)
check_end p =
    if int_eq p.status (pos 0) && not (is_missing (strdelim p.rest).0)
    then fault
    else ok (p.options, p.status)

-- `o_bad_option` returns at once.
unfoldable pub process_opcode : OpCode → Options → Option ℤ → Option Bytes → Run (Options × ℤ)
process_opcode Keywords.o_bad_option o active s = ok (o, pos 1)
process_opcode opcode o active s = do p ← dispatch opcode o active s; check_end p

unfoldable pub process_line : Options → Option ℤ → Option Bytes → Run (Options × ℤ)
process_line o active s =
    let (word, s') = strdelim s in
    do keyword ← strdup word; process_opcode (parse_token keyword) o active s'

-- On the trimmed line: an empty one is accepted as it is.
unfoldable pub process_trimmed : Options → Option ℤ → Bytes → Run (Options × ℤ)
process_trimmed o active [] = ok (o, pos 0)
process_trimmed o active (c ∷ s) = process_line o active (some (c ∷ s))

-- The options afterwards, and the result.
unfoldable pub process_config_line : Options → Bytes → Option ℤ → Run (Options × ℤ)
process_config_line o line active = process_trimmed o active (trim line)
