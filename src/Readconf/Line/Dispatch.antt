-- ===== src/Readconf/Line/Dispatch.antt =====
-- How a well-formed line of the configuration file reaches the case of its keyword.
use stonesh.Prelude.{
  ℕ, true, [], ◌∷◌, ◌++◌, Option, none, some, ℤ, pos, ok, ◌>>=◌, ◌≡◌, ◌≢◌, ◌⊎◌, inl, inr, refl, ◌∙◌,
  arith, Bytes, codes, str_eq,
}
use stonesh.Readconf.Delim.{strdelim}
use stonesh.Readconf.Delim.Values.{
  IsTail, IsValue, key_value-IsTail, key_value-trim, key_value-strdelim,
}
use stonesh.Readconf.Delim.Words.{IsWord, Separates}
use stonesh.Readconf.Keywords
use stonesh.Readconf.Keywords.{OpCode, parse_token}
use stonesh.Readconf.Line.{
  flag_value, parse_flag, store_setting, string_argument, parse_string, dispatch, check_end,
  process_opcode, process_line, process_trimmed, process_config_line, is_missing,
}
use stonesh.Readconf.Options.{Options, Flag, Setting}

-- The string that a keyword sets, and the flag that a keyword sets.
abbrev pub setting_of : OpCode → Option Setting
setting_of Keywords.o_authorized_service_tag = some Setting.authorized_service_tag
setting_of Keywords.o_proxy_keyword = some Setting.proxy_keyword
setting_of Keywords.o_hosts_file = some Setting.hosts_file
setting_of Keywords.o_users_file = some Setting.users_file
setting_of Keywords.o_ldap_uri = some Setting.ldap_uri
setting_of Keywords.o_ldap_base = some Setting.ldap_base
setting_of Keywords.o_ssh_path = some Setting.ssh_path
setting_of Keywords.o_nc_path = some Setting.nc_path
setting_of Keywords.o_geoip = some Setting.geoip_dat
setting_of Keywords.o_geoip6 = some Setting.geoip6_dat
setting_of _ = none

abbrev pub flag_of : OpCode → Option Flag
flag_of Keywords.o_debug = some Flag.debug
flag_of Keywords.o_log_to_stderr = some Flag.log_to_stderr
flag_of Keywords.o_use_ldap = some Flag.use_ldap
flag_of Keywords.o_enable_proxy = some Flag.enable_proxy
flag_of Keywords.o_allow_fqdn = some Flag.allowfqdn
flag_of Keywords.o_disable_authorization = some Flag.disable_authorization
flag_of Keywords.o_disable_proxy_authorization = some Flag.disable_proxy_authorization
flag_of _ = none

pub dispatch-setting :
    (op : OpCode) (t : Setting) → setting_of op ≡ some t → dispatch op ≡ parse_string t
unfolding dispatch
dispatch-setting Keywords.o_proxy_keyword t h = cc
dispatch-setting _ t h = cc

pub dispatch-flag : (op : OpCode) (f : Flag) → flag_of op ≡ some f → dispatch op ≡ parse_flag f
unfolding dispatch
dispatch-flag Keywords.o_debug f h = cc
dispatch-flag _ f h = cc

-- An opcode other than that of a bad option is dispatched.
pub process_opcode-dispatch :
    (op : OpCode) (o : Options) (active : Option ℤ) (s : Option Bytes)
    → op ≢ Keywords.o_bad_option
    → process_opcode op o active s ≡ (do p ← dispatch op o active s; check_end p)
unfolding process_opcode
process_opcode-dispatch Keywords.o_bad_option o active s ne = absurd (ne refl)
process_opcode-dispatch _ o active s ne = refl

process_trimmed-line :
    (o : Options) (active : Option ℤ) (s : Bytes)
    → s ≢ []
    → process_trimmed o active s ≡ process_line o active (some s)
unfolding process_trimmed
process_trimmed-line o active [] ne = absurd (ne refl)
process_trimmed-line o active (c ∷ s) ne = refl

-- A line `key value` is handed to the case of its keyword.
pub process_key_value :
    (o : Options) (active : Option ℤ) (key : Bytes) (c : ℕ) {src : Bytes}
    → IsWord key
    → Separates c
    → IsTail src
    → process_config_line o (key ++ c ∷ src) active
      ≡ process_opcode (parse_token key) o active (some src)
unfolding process_config_line
process_key_value o active key c {src} k sep w =
    rw (key_value-trim key c k sep w)
      (process_trimmed-line o active _ (key_value-IsTail key c k sep w).ne_nil ∙ line)
  where
    line :
        process_line o active (some (key ++ c ∷ src))
        ≡ process_opcode (parse_token key) o active (some src)
    line = unfold process_line in rw (key_value-strdelim key c k sep w)

abbrev pub Ends : Option Bytes → Type 0
Ends s = ((strdelim s).0 ≡ none) ⊎ ((strdelim s).0 ≡ some [])

Ends-missing : (s : Option Bytes) → Ends s → is_missing (strdelim s).0 ≡ true
Ends-missing s (inl e) = rw e
Ends-missing s (inr e) = rw e

pub check_end-Ends :
    (o : Options) (s : Option Bytes) (status : ℤ)
    → Ends s
    → check_end (record { options = o; rest = s; status = status }) ≡ ok (o, status)
unfolding check_end
check_end-Ends o s status h = rw (Ends-missing s h) (ground arith)

pub setting-ne_bad :
    (op : OpCode) (t : Setting) → setting_of op ≡ some t → op ≢ Keywords.o_bad_option
setting-ne_bad Keywords.o_bad_option t h = cc
setting-ne_bad _ t h = cc

pub flag-ne_bad : (op : OpCode) (f : Flag) → flag_of op ≡ some f → op ≢ Keywords.o_bad_option
flag-ne_bad Keywords.o_bad_option t h = cc
flag-ne_bad _ t h = cc

pub parse_string-value :
    (t : Setting) (o : Options) (src v : Bytes) (w : IsValue src v)
    → v ≢ []
    → parse_string t o (some (pos 1)) (some src) ≡ (do
      o' ← store_setting t (some v) (some (pos 1)) o
      ok (record { options = o'; rest = w.rest; status = pos 0 }))
unfolding parse_string string_argument
parse_string-value t o src [] w ne = absurd (ne refl)
parse_string-value t o src (c ∷ v) w ne = rw w.reads

-- The words for a flag.
pub data Answers : Bytes → ℕ → Type 0 where
  answer_yes : Answers (codes "yes") 1
  answer_true : Answers (codes "true") 1
  answer_no : Answers (codes "no") 0
  answer_false : Answers (codes "false") 0

pub Answers-value : {v : Bytes} {n : ℕ} → Answers v n → flag_value v ≡ (pos n, pos 0)
unfolding flag_value str_eq
Answers-value answer_yes = refl
Answers-value answer_true = refl
Answers-value answer_no = refl
Answers-value answer_false = refl
