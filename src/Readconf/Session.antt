-- ===== src/Readconf/Session.antt =====
-- `process_config_line` of readconf.c once more, with its messages and the strings that it allocates.
pub mod Books
pub mod Agreement
pub mod Opcodes
pub mod Lines
pub mod Reading
pub mod Counts
pub mod Rounds
pub mod Files
use stonesh.Libc.{atoi_pos, strcasecmp}
use stonesh.Log.{error, debug}
use stonesh.Prelude.{
  Bool, true, false, not, ◌&&◌, List, [], ◌∷◌, ◌++◌, Option, none, some, ℤ, pos, minus_one, int_eq,
  Run, ok, fault, ◌>>=◌, Bytes, codes, if◌then◌else◌,
}
use stonesh.Readconf.Delim.{strdelim}
use stonesh.Readconf.Keywords
use stonesh.Readconf.Keywords.{OpCode, keywords}
use stonesh.Readconf.Line.{
  Parsed, is_missing, is_null, flag_value, store_flag, flag_argument, strdup, check_end,
}
use stonesh.Readconf.Options.{Options, Flag, Setting, get_setting, set_setting}
use stonesh.Streams.{Io, tell, new_string, free_string}
use stonesh.Util.{trim}

-- The arguments of the messages that say where a line stands: the name of the file, and the digits of the
-- number of the line.
abbrev pub Where : Type 0
Where = List Bytes

-- `parse_token`
unfoldable pub find_keyword_io : Where → Bytes → List (Bytes × OpCode) → Io → OpCode × Io
find_keyword_io at cp [] io = (
  Keywords.o_bad_option,
  tell (error (codes "%s: line %d: Bad configuration option: %s") (at ++ cp ∷ [])) io,
)
find_keyword_io at cp ((name, opcode) ∷ table) io =
    if strcasecmp cp name then (opcode, io) else find_keyword_io at cp table io

-- The label `parse_flag`, on the argument.
unfoldable pub flag_message : Where → Option Bytes → Io → Io
flag_message at none io = tell (error (codes "%.200s line %d: Missing yes/no argument.") at) io
flag_message at (some []) io = tell (error (codes "%.200s line %d: Missing yes/no argument.") at) io
flag_message at (some (c ∷ arg)) io =
    if int_eq (flag_value (c ∷ arg)).1 minus_one
    then tell (error (codes "%.200s line %d: Bad yes/no argument.") at) io
    else io

unfoldable pub parse_flag_io :
    Where → Flag → Options → Option ℤ → Option Bytes → Io → Run (Parsed × Io)
parse_flag_io at f o active s io =
    let (arg, s') = strdelim s in ok (flag_argument f o active arg s', flag_message at arg io)

unfoldable pub store_setting_io :
    Setting → Option Bytes → Option ℤ → Options → Io → Run (Options × Io)
store_setting_io t arg none o io = fault
store_setting_io t arg (some active) o io =
    if not (int_eq active (pos 0)) && is_null (get_setting t o)
    then (do copy ← strdup arg; ok (set_setting t (some copy) o, new_string io))
    else ok (o, io)

-- The label `parse_string`
unfoldable pub missing_message : Where → Option Bytes → Io → Io
missing_message at arg io =
    if is_missing arg then tell (error (codes "%.200s line %d: Missing argument.") at) io else io

unfoldable pub parse_string_io :
    Where → Setting → Options → Option ℤ → Option Bytes → Io → Run (Parsed × Io)
parse_string_io at t o active s io =
    let (arg, s') = strdelim s in
    do
      (o', io') ← store_setting_io t arg active o (missing_message at arg io)
      ok (
        record { options = o'; rest = s'; status = if is_missing arg then minus_one else pos 0 },
        io',
      )

-- `case oNCTimeout`: `status` and the message on the argument
unfoldable pub check_timeout : Where → Option Bytes → Io → ℤ × Io
check_timeout at none io = (minus_one, missing_message at none io)
check_timeout at (some []) io = (minus_one, missing_message at (some []) io)
check_timeout at (some (c ∷ arg)) io = if atoi_pos (c ∷ arg) then (pos 0, io) else (
  minus_one,
  tell (error (codes "%.200s line %d: Invalid timeout value '%s'") (at ++ (c ∷ arg) ∷ [])) io,
)

unfoldable pub parse_timeout_io : Where → Options → Option ℤ → Option Bytes → Io → Run (Parsed × Io)
parse_timeout_io at o active s io =
    let (arg, s') = strdelim s in
    let (status, io') = check_timeout at arg io in
    do
      (o', io'') ← store_setting_io Setting.nc_timeout arg active o io'
      ok (record { options = o'; rest = s'; status = status }, io'')

-- The switch. OAuthType is the third opcode, and has no case of its own.
unfoldable pub dispatch_io :
    OpCode → Where → Options → Option ℤ → Option Bytes → Io → Run (Parsed × Io)
dispatch_io Keywords.o_debug at = parse_flag_io at Flag.debug
dispatch_io Keywords.o_use_ldap at = parse_flag_io at Flag.use_ldap
dispatch_io Keywords.o_enable_proxy at = parse_flag_io at Flag.enable_proxy
dispatch_io Keywords.o_log_to_stderr at = parse_flag_io at Flag.log_to_stderr
dispatch_io Keywords.o_disable_authorization at = parse_flag_io at Flag.disable_authorization
dispatch_io Keywords.o_disable_proxy_authorization at =
    parse_flag_io at Flag.disable_proxy_authorization
dispatch_io Keywords.o_allow_fqdn at = parse_flag_io at Flag.allowfqdn
dispatch_io Keywords.o_authorized_service_tag at = λ o active s io.
    parse_string_io at Setting.authorized_service_tag o active s
      (tell (debug (codes "processing authorized_service_tag") []) io)
dispatch_io Keywords.o_proxy_keyword at = parse_string_io at Setting.proxy_keyword
dispatch_io Keywords.o_hosts_file at = parse_string_io at Setting.hosts_file
dispatch_io Keywords.o_users_file at = parse_string_io at Setting.users_file
dispatch_io Keywords.o_ldap_uri at = parse_string_io at Setting.ldap_uri
dispatch_io Keywords.o_ldap_base at = parse_string_io at Setting.ldap_base
dispatch_io Keywords.o_ssh_path at = parse_string_io at Setting.ssh_path
dispatch_io Keywords.o_nc_path at = parse_string_io at Setting.nc_path
dispatch_io Keywords.o_geoip at = parse_string_io at Setting.geoip_dat
dispatch_io Keywords.o_geoip6 at = parse_string_io at Setting.geoip6_dat
dispatch_io Keywords.o_nc_timeout at = parse_timeout_io at
dispatch_io Keywords.o_auth_type at = λ o active s io. ok (
  record { options = o; rest = s; status = minus_one },
  tell (error (codes "process_config_line: Unimplemented opcode %d") (codes "2" ∷ [])) io,
)
dispatch_io Keywords.o_bad_option at =
    λ o active s io. ok (record { options = o; rest = s; status = pos 1 }, io)

unfoldable pub process_opcode_io :
    Where → OpCode → Options → Option ℤ → Option Bytes → Io → Run ((Options × ℤ) × Io)
process_opcode_io at Keywords.o_bad_option o active s io = ok ((o, pos 1), io)
process_opcode_io at opcode o active s io = do
  (p, io') ← dispatch_io opcode at o active s io
  r ← check_end p
  ok (r, io')

-- The copy of the keyword is freed behind `parse_token`.
unfoldable pub process_line_io : Where → Options → Option ℤ → Bytes → Io → Run ((Options × ℤ) × Io)
process_line_io at o active s io =
    let (word, s') = strdelim (some s) in
    do
      keyword ← strdup word
      (let (opcode, io') = find_keyword_io at keyword keywords (new_string io) in
          process_opcode_io at opcode o active s' (free_string (some keyword) io'))

unfoldable pub process_trimmed_io :
    Where → Options → Option ℤ → Bytes → Io → Run ((Options × ℤ) × Io)
process_trimmed_io at o active [] io = ok ((o, pos 0), io)
process_trimmed_io at o active (c ∷ s) io =
    process_line_io at o active (c ∷ s)
      (tell (debug (codes "%s: line %d: parsing '%s'") (at ++ (c ∷ s) ∷ [])) io)

unfoldable pub process_config_line_io :
    Where → Options → Bytes → Option ℤ → Io → Run ((Options × ℤ) × Io)
process_config_line_io at o line active io = process_trimmed_io at o active (trim line) io
