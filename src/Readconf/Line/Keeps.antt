-- ===== src/Readconf/Line/Keeps.antt =====
-- What one line of the file may do to the options: it sets what is not set, and nothing else.
use stonesh.Prelude.{
  true, not, ◌&&◌, [], ◌∷◌, Option, none, some, ℤ, pos, minus_one, int_eq, int_eq_iff, Run, ok,
  fault, ◌>>=◌, Safe, bind-Safe, ◌≡◌, inl, inr, refl, arith, Bytes, Bool-cases, &&-eq-true,
}
use stonesh.Util.{trim}
use stonesh.Readconf.Delim.{strdelim}
use stonesh.Readconf.Keywords
use stonesh.Readconf.Keywords.{OpCode, parse_token}
use stonesh.Readconf.Line.{
  Parsed, flag_value, store_flag, flag_argument, parse_flag, store_setting, string_argument,
  parse_string, parse_timeout, dispatch, check_end, process_opcode, process_line, process_trimmed,
  process_config_line, strdup, is_null, is_missing,
}
use stonesh.Readconf.Options.{Options, Flag, Setting, get_flag, get_setting, set_setting}
use stonesh.Readconf.Options.Defaults.{IsFlag}
use stonesh.Readconf.Options.Extends.{Extends, Extends-refl, set_flag-Extends, set_setting-Extends}

store_flag-Extends :
    (f : Flag) (v : ℤ) (active : Option ℤ) (o : Options)
    → IsFlag v
    → Extends o (store_flag f v active o)
store_flag-Extends f v none o h = Extends-refl o
store_flag-Extends f v (some a) o h = elim (Bool-cases (int_eq (get_flag f o) minus_one)) [
  | inl unset ↦ rw unset (set_flag-Extends f v o ((int_eq_iff _ _).0 unset) h)
  | inr set ↦ rw set (Extends-refl o)
]

flag_value-IsFlag : (arg : Bytes) → IsFlag (flag_value arg).0
unfolding flag_value
flag_value-IsFlag arg = ground arith

flag_argument-Extends :
    (f : Flag) (o : Options) (active : Option ℤ) (arg s : Option Bytes)
    → Extends o (flag_argument f o active arg s).options
flag_argument-Extends f o active none s = unfold flag_argument in Extends-refl o
flag_argument-Extends f o active (some []) s = unfold flag_argument in Extends-refl o
flag_argument-Extends f o active (some (c ∷ arg)) s =
    unfold flag_argument in
    store_flag-Extends f (flag_value (c ∷ arg)).0 active o (flag_value-IsFlag (c ∷ arg))

null-setting : (v : Option Bytes) → is_null v ≡ true → v ≡ none
null-setting none h = refl
null-setting (some s) h = cc

strdup-Extends :
    (t : Setting) (arg : Option Bytes) (o : Options)
    → get_setting t o ≡ none
    → Safe (Extends o) (do copy ← strdup arg; ok (set_setting t (some copy) o))
strdup-Extends t none o h = tt
strdup-Extends t (some s) o h = set_setting-Extends t (some s) o h

store_setting-Extends :
    (t : Setting) (arg : Option Bytes) (active : Option ℤ) (o : Options)
    → Safe (Extends o) (store_setting t arg active o)
unfolding store_setting
store_setting-Extends t arg none o = tt
store_setting-Extends t arg (some a) o =
    elim (Bool-cases (not (int_eq a (pos 0)) && is_null (get_setting t o))) [
      | inl unset ↦ rw unset (strdup-Extends t arg o (null-setting _ (&&-eq-true _ _ unset).1))
      | inr set ↦ rw set (Extends-refl o)
    ]

-- What a case of the switch leaves.
abbrev Parses : Options → Run Parsed → Type 0
Parses o = Safe (λ p. Extends o p.options)

parse_flag-Extends :
    (f : Flag) (o : Options) (active : Option ℤ) (s : Option Bytes)
    → Parses o (parse_flag f o active s)
unfolding parse_flag
parse_flag-Extends f o active s = flag_argument-Extends f o active (strdelim s).0 (strdelim s).1

parse_string-Extends :
    (t : Setting) (o : Options) (active : Option ℤ) (s : Option Bytes)
    → Parses o (parse_string t o active s)
unfolding parse_string string_argument
parse_string-Extends t o active s =
    bind-Safe (Extends o) (λ p. Extends o p.options) _ _
      (store_setting-Extends t (strdelim s).0 active o) (λ o' e. e)

parse_timeout-Extends :
    (o : Options) (active : Option ℤ) (s : Option Bytes) → Parses o (parse_timeout o active s)
unfolding parse_timeout
parse_timeout-Extends o active s =
    bind-Safe (Extends o) (λ p. Extends o p.options) _ _
      (store_setting-Extends Setting.nc_timeout (strdelim s).0 active o) (λ o' e. e)

dispatch-Extends :
    (opcode : OpCode) (o : Options) (active : Option ℤ) (s : Option Bytes)
    → Parses o (dispatch opcode o active s)
unfolding dispatch
dispatch-Extends Keywords.o_debug = parse_flag-Extends Flag.debug
dispatch-Extends Keywords.o_use_ldap = parse_flag-Extends Flag.use_ldap
dispatch-Extends Keywords.o_enable_proxy = parse_flag-Extends Flag.enable_proxy
dispatch-Extends Keywords.o_log_to_stderr = parse_flag-Extends Flag.log_to_stderr
dispatch-Extends Keywords.o_disable_authorization = parse_flag-Extends Flag.disable_authorization
dispatch-Extends Keywords.o_disable_proxy_authorization =
    parse_flag-Extends Flag.disable_proxy_authorization
dispatch-Extends Keywords.o_allow_fqdn = parse_flag-Extends Flag.allowfqdn
dispatch-Extends Keywords.o_authorized_service_tag =
    parse_string-Extends Setting.authorized_service_tag
dispatch-Extends Keywords.o_proxy_keyword = parse_string-Extends Setting.proxy_keyword
dispatch-Extends Keywords.o_hosts_file = parse_string-Extends Setting.hosts_file
dispatch-Extends Keywords.o_users_file = parse_string-Extends Setting.users_file
dispatch-Extends Keywords.o_ldap_uri = parse_string-Extends Setting.ldap_uri
dispatch-Extends Keywords.o_ldap_base = parse_string-Extends Setting.ldap_base
dispatch-Extends Keywords.o_ssh_path = parse_string-Extends Setting.ssh_path
dispatch-Extends Keywords.o_nc_path = parse_string-Extends Setting.nc_path
dispatch-Extends Keywords.o_geoip = parse_string-Extends Setting.geoip_dat
dispatch-Extends Keywords.o_geoip6 = parse_string-Extends Setting.geoip6_dat
dispatch-Extends Keywords.o_nc_timeout = parse_timeout-Extends
dispatch-Extends Keywords.o_auth_type = λ o active s. Extends-refl o
dispatch-Extends Keywords.o_bad_option = λ o active s. Extends-refl o

-- What a whole line leaves.
abbrev pub Sets : Options → Run (Options × ℤ) → Type 0
Sets o = Safe (λ r. Extends o r.0)

check_end-Extends : (o : Options) (p : Parsed) → Extends o p.options → Sets o (check_end p)
unfolding check_end
check_end-Extends o p e =
    elim (Bool-cases (int_eq p.status (pos 0) && not (is_missing (strdelim p.rest).0))) [
      | inl garbage ↦ rw garbage tt
      | inr end ↦ rw end e
    ]

process_opcode-Extends :
    (opcode : OpCode) (o : Options) (active : Option ℤ) (s : Option Bytes)
    → Sets o (process_opcode opcode o active s)
unfolding process_opcode
process_opcode-Extends Keywords.o_bad_option o active s = Extends-refl o
process_opcode-Extends opcode o active s =
    bind-Safe (λ p. Extends o p.options) (λ r. Extends o r.0) (dispatch _ o active s) check_end
      (dispatch-Extends _ o active s) (check_end-Extends o)

process_line-Extends :
    (o : Options) (active : Option ℤ) (s : Option Bytes) → Sets o (process_line o active s)
unfolding process_line
process_line-Extends o active s =
    bind-Safe (λ k. Unit {0}) (λ r. Extends o r.0) (strdup (strdelim s).0) _ (no_claim _)
      (λ k _. process_opcode-Extends (parse_token k) o active (strdelim s).1)
  where
    no_claim : (m : Run Bytes) → Safe (λ k. Unit {0}) m
    no_claim (ok k) = tt
    no_claim fault = tt

process_trimmed-Extends :
    (o : Options) (active : Option ℤ) (s : Bytes) → Sets o (process_trimmed o active s)
unfolding process_trimmed
process_trimmed-Extends o active [] = Extends-refl o
process_trimmed-Extends o active (c ∷ s) = process_line-Extends o active (some (c ∷ s))

-- One line of the file, whatever it holds, sets options that were not set, the flags among them to
-- 0 or 1, and leaves all the others: what was set first stays. A fault ends the program.
pub process_config_line-Extends :
    (o : Options) (line : Bytes) (active : Option ℤ)
    → Safe (λ r. Extends o r.0) (process_config_line o line active)
unfolding process_config_line
process_config_line-Extends o line active = process_trimmed-Extends o active (trim line)
