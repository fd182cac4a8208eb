-- ===== src/Readconf/Session/Opcodes.antt =====
-- The cases of the switch of `process_config_line` in readconf.c, with its messages and its strings, and
-- without.
use stonesh.Log.Errors.{debug-quiet}
use stonesh.Log.{debug}
use stonesh.Prelude.{
  ℕ, ◌+◌, ◌≡◌, ◌≢◌, not, ◌&&◌, List, [], Option, ℤ, pos, int_eq, Run, ok, ◌>>=◌, Agrees, both,
  faults, bind-Agrees, Agrees-weaken, Bytes, codes, inl, inr, refl, subst, Bool-cases,
}
use stonesh.Readconf.Delim.{strdelim}
use stonesh.Readconf.Keywords
use stonesh.Readconf.Keywords.{OpCode, keywords, find_keyword, parse_token}
use stonesh.Readconf.Line.{
  parse_flag, parse_string, Parsed, is_missing, check_end, process_opcode, dispatch,
}
use stonesh.Readconf.Options.{Options, Flag, Setting}
use stonesh.Readconf.Session.{parse_flag_io, parse_string_io, Where, dispatch_io, process_opcode_io}
use stonesh.Readconf.Session.Agreement.{
  LeavesLine, LeavesParsed, rejected, parse_flag_io-Agrees, parse_string_io-Agrees,
  parse_timeout_io-Agrees,
}
use stonesh.Readconf.Session.Books.{held_settings, IsTold}
use stonesh.Streams.{Io, tell}

abbrev pub LeavesResult : ℕ → Io → Options × ℤ → Io → Type 0
LeavesResult n before r io = LeavesLine n before r.0 r.1 io

checked :
    (n : ℕ) (before : Io) (m : Run Parsed) (r : Run (Parsed × Io))
    → Agrees (LeavesParsed n before) m r
    → Agrees
        (LeavesResult n before)
        (do p ← m; check_end p)
        (do (p, io') ← r; q ← check_end p; ok (q, io'))
checked n before m r h = bind-Agrees _ _ h (λ p io' leaves. ended p io' leaves)
  where
    ended :
        (p : Parsed) (io' : Io)
        → LeavesParsed n before p io'
        → Agrees (LeavesResult n before) (check_end p) (do q ← check_end p; ok (q, io'))
    ended p io' leaves =
        elim (Bool-cases (int_eq p.status (pos 0) && not (is_missing (strdelim p.rest).0))) [
          | inl e ↦ unfold check_end in rw e faults
          | inr e ↦ unfold check_end in rw e (both leaves)
        ]

-- A message for debugging in front changes nothing where debugging is off.
pub behind_debug :
    (n : ℕ) (fmt : Bytes) (args : List Bytes) (io : Io) (o : Options) (status : ℤ) (io' : Io)
    → LeavesLine n (tell (debug fmt args) io) o status io'
    → LeavesLine n io o status io'
behind_debug n fmt args io o status io' (booked, told) = (
  booked,
  λ q.
      let same = debug-quiet fmt args io.log q in
      subst (λ log. IsTold status log io'.log) same (told (rw same q)),
)

module _ (n : ℕ) (at : Where) (o : Options) (active : Option ℤ) (s : Option Bytes) (io : Io)
    (owned : io.strings ≡ n + held_settings o) where
  flag_case :
      (f : Flag)
      → Agrees
          (LeavesResult n io)
          (do p ← parse_flag f o active s; check_end p)
          (do (p, io') ← parse_flag_io at f o active s io; q ← check_end p; ok (q, io'))
  flag_case f = checked n io _ _ (parse_flag_io-Agrees n at f o active s io owned)

  string_case :
      (t : Setting)
      → Agrees
          (LeavesResult n io)
          (do p ← parse_string t o active s; check_end p)
          (do (p, io') ← parse_string_io at t o active s io; q ← check_end p; ok (q, io'))
  string_case t = checked n io _ _ (parse_string_io-Agrees n at t o active s io owned)

  pub process_opcode_io-Agrees :
      (opcode : OpCode)
      → opcode ≢ Keywords.o_bad_option
      → Agrees
          (LeavesResult n io)
          (process_opcode opcode o active s)
          (process_opcode_io at opcode o active s io)
  unfolding process_opcode process_opcode_io dispatch dispatch_io
  process_opcode_io-Agrees Keywords.o_bad_option h = absurd (h refl)
  process_opcode_io-Agrees Keywords.o_debug h = flag_case Flag.debug
  process_opcode_io-Agrees Keywords.o_use_ldap h = flag_case Flag.use_ldap
  process_opcode_io-Agrees Keywords.o_enable_proxy h = flag_case Flag.enable_proxy
  process_opcode_io-Agrees Keywords.o_log_to_stderr h = flag_case Flag.log_to_stderr
  process_opcode_io-Agrees Keywords.o_disable_authorization h = flag_case Flag.disable_authorization
  process_opcode_io-Agrees Keywords.o_disable_proxy_authorization h =
      flag_case Flag.disable_proxy_authorization
  process_opcode_io-Agrees Keywords.o_allow_fqdn h = flag_case Flag.allowfqdn
  process_opcode_io-Agrees Keywords.o_proxy_keyword h = string_case Setting.proxy_keyword
  process_opcode_io-Agrees Keywords.o_hosts_file h = string_case Setting.hosts_file
  process_opcode_io-Agrees Keywords.o_users_file h = string_case Setting.users_file
  process_opcode_io-Agrees Keywords.o_ldap_uri h = string_case Setting.ldap_uri
  process_opcode_io-Agrees Keywords.o_ldap_base h = string_case Setting.ldap_base
  process_opcode_io-Agrees Keywords.o_ssh_path h = string_case Setting.ssh_path
  process_opcode_io-Agrees Keywords.o_nc_path h = string_case Setting.nc_path
  process_opcode_io-Agrees Keywords.o_geoip h = string_case Setting.geoip_dat
  process_opcode_io-Agrees Keywords.o_geoip6 h = string_case Setting.geoip6_dat
  process_opcode_io-Agrees Keywords.o_nc_timeout h =
      checked n io _ _ (parse_timeout_io-Agrees n at o active s io owned)
  process_opcode_io-Agrees Keywords.o_authorized_service_tag h = checked n io _ _ (
      Agrees-weaken (λ p io' leaves. behind_debug n _ [] io p.options p.status io' leaves)
        (parse_string_io-Agrees n at Setting.authorized_service_tag o active s
          (tell (debug (codes "processing authorized_service_tag") []) io) owned))
  process_opcode_io-Agrees Keywords.o_auth_type h =
      checked n io _ _ (both ((refl, owned), λ q. inr (rejected, (_, _, refl))))
