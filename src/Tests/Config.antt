-- ===== src/Tests/Config.antt =====
-- Runs of the functions of util.c and readconf.c, and instances of the theorems on readconf.c.
use stonesh.Prelude.{
  codes, ◌≡◌, refl, Option, some, none, ok, fault, pos, Bytes, str_eq, Run, ℤ, Safe, ◌⊎◌, ◌↔◌, ap,
  arith, minus_one, true,
}
use stonesh.Libc.{strcasecmp, tolower, strpbrk, one_of, atoi_pos, is_space}
use stonesh.Readconf.Delim.{delimiters, strdelim, split_word, quoted_word, skip_equals, skip_blank}
use stonesh.Readconf.File.{read_config_file}
use stonesh.Readconf.Keywords
use stonesh.Readconf.Keywords.{parse_token, find_keyword}
use stonesh.Readconf.Line.{
  process_config_line, process_trimmed, process_line, process_opcode, dispatch, check_end,
  parse_flag, flag_argument, flag_value, parse_string, string_argument, store_setting,
  parse_timeout,
}
use stonesh.Readconf.Options.{Options, initialize_options, Setting, set_setting}
use stonesh.Readconf.Delim.Values.{plain, quoted}
use stonesh.Readconf.Delim.Words.{IsWord}
use stonesh.Readconf.File.Outcome.{AcceptedAs, read_config_file-accepts, read_config_file-outcome}
use stonesh.Readconf.Line.Garbage.{process_config_line-garbage}
use stonesh.Readconf.Line.Keeps.{process_config_line-Extends}
use stonesh.Readconf.Line.Dispatch.{setting_of}
use stonesh.Readconf.Line.Sets.{process_config_line-sets}
use stonesh.Readconf.Options.Defaults.{IsComplete, IsFreed}
use stonesh.Readconf.Options.Extends.{Extends}
use stonesh.Tests.Samples.{config_text, files_with, unset, local_options}
use stonesh.Util.{trim}

trim_runs : trim (codes "  ab c\t # x") ≡ codes "ab c"
unfolding trim
trim_runs = refl

-- `strdelim`, with all that it calls open.
abbrev word : Bytes → Option Bytes × Option Bytes
unfolding strdelim split_word quoted_word skip_equals skip_blank strpbrk one_of trim
word s = strdelim (some s)

word_runs : word (codes "geoip = x y") ≡ (some (codes "geoip"), some (codes "x y"))
unfolding strdelim split_word quoted_word skip_equals skip_blank strpbrk one_of trim
word_runs = refl

word_quoted : word (codes "\"a b\" c") ≡ (some (codes "a b"), some (codes "c"))
unfolding strdelim split_word quoted_word skip_equals skip_blank strpbrk one_of trim
word_quoted = refl

-- One line on unset options, with all that it calls open.
run_line : Options → Bytes → Run (Options × ℤ)
unfolding process_config_line process_trimmed process_line process_opcode dispatch check_end
    parse_flag flag_argument flag_value parse_string string_argument store_setting parse_timeout
    parse_token find_keyword strdelim split_word quoted_word skip_equals skip_blank strpbrk one_of
    trim strcasecmp atoi_pos str_eq tolower
run_line o line = process_config_line o line (some (pos 1))

status_of : Run (Options × ℤ) → Option ℤ
status_of (ok r) = some r.1
status_of fault = none

run_statuses :
    (o : Options)
    → (status_of (run_line (initialize_options o) (codes "EnableProxy yes")) ≡ some (pos 0))
      × (status_of (run_line (initialize_options o) (codes "enableproxy foolean")) ≡ some minus_one)
      × (status_of (run_line (initialize_options o) (codes "usesql true")) ≡ some (pos 1))
      × (status_of (run_line (initialize_options o) (codes "nctimeout -3")) ≡ some minus_one)
      × (status_of (run_line (initialize_options o) (codes "geoip /a /b")) ≡ none)
unfolding run_line status_of initialize_options
run_statuses o = (refl, refl, refl, refl, refl)

read_config_file-accepts_example :
    (read_config_file (files_with config_text) (codes "c") unset ≡ ok (local_options, pos 1))
    ↔ AcceptedAs config_text unset local_options
read_config_file-accepts_example =
    read_config_file-accepts (files_with config_text) (codes "c") unset config_text local_options
      refl

read_config_file-outcome_example :
    Safe
      (λ r. ((r.1 ≡ pos 1) × IsComplete r.0) ⊎ ((r.1 ≡ pos 0) × IsFreed r.0))
      (read_config_file (files_with config_text) (codes "c") unset)
read_config_file-outcome_example =
    read_config_file-outcome (files_with config_text) (codes "c") unset

process_config_line-Extends_example :
    Safe (λ r. Extends unset r.0) (process_config_line unset (codes "debug yes") (some (pos 1)))
process_config_line-Extends_example =
    process_config_line-Extends unset (codes "debug yes") (some (pos 1))

geoip_IsWord : IsWord (codes "geoip")
unfolding is_space one_of
geoip_IsWord = (
  λ h. cc,
  (
    (refl, refl, omega arith, omega arith),
    (
      (refl, refl, omega arith, omega arith),
      (
        (refl, refl, omega arith, omega arith),
        ((refl, refl, omega arith, omega arith), ((refl, refl, omega arith, omega arith), tt)),
      ),
    ),
  ),
)

debug_IsWord : IsWord (codes "debug")
unfolding is_space one_of
debug_IsWord = (
  λ h. cc,
  (
    (refl, refl, omega arith, omega arith),
    (
      (refl, refl, omega arith, omega arith),
      (
        (refl, refl, omega arith, omega arith),
        ((refl, refl, omega arith, omega arith), ((refl, refl, omega arith, omega arith), tt)),
      ),
    ),
  ),
)

yes_IsWord : IsWord (codes "yes")
unfolding is_space one_of
yes_IsWord = (
  λ h. cc,
  (
    (refl, refl, omega arith, omega arith),
    ((refl, refl, omega arith, omega arith), ((refl, refl, omega arith, omega arith), tt)),
  ),
)

is_geoip : parse_token (codes "geoip") ≡ Keywords.o_geoip
unfolding parse_token find_keyword strcasecmp tolower
is_geoip = refl

is_debug : parse_token (codes "debug") ≡ Keywords.o_debug
unfolding parse_token find_keyword strcasecmp tolower
is_debug = refl

blank : one_of delimiters b' ' ≡ true
unfolding one_of
blank = refl

process_config_line-sets_example :
    process_config_line unset (codes "geoip \"yes\"") (some (pos 1))
    ≡ ok (set_setting Setting.geoip_dat (some (codes "yes")) unset, pos 0)
process_config_line-sets_example =
    process_config_line-sets unset (codes "geoip") b' ' (codes "\"yes\"") (codes "yes")
      Setting.geoip_dat geoip_IsWord (ap setting_of is_geoip) (blank, omega arith)
      (quoted (λ h. cc)
        (
          (omega arith, omega arith, omega arith),
          ((omega arith, omega arith, omega arith), ((omega arith, omega arith, omega arith), tt)),
        ))
      refl

process_config_line-garbage_example :
    process_config_line unset (codes "geoip yes debug") (some (pos 1)) ≡ fault
process_config_line-garbage_example =
    process_config_line-garbage unset (codes "geoip") b' ' (codes "yes") b' ' (codes "debug")
      (codes "debug") Setting.geoip_dat geoip_IsWord (ap setting_of is_geoip) (blank, omega arith)
      yes_IsWord (blank, omega arith) (plain debug_IsWord)
