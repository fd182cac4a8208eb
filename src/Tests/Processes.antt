-- ===== src/Tests/Processes.antt =====
-- A run of the program with its messages, and instances of the theorems on it.
use stonesh.Log.{notice, error, debug, do_log, send, message_text, tagged_format}
use stonesh.Libc.{
  format, format_from, snprintf, read_lines, read_loop, fgets, get_line, c_str, strsep, strncmp,
  strcasecmp, strpbrk, one_of, strtok, tolower, is_space,
}
use stonesh.Geoip.{is_from_valid_country}
use stonesh.Prelude.{
  ◌↔◌, Run, none, false, List, [], ◌∷◌, Option, some, pos, ok, ◌≡◌, refl, Bytes, codes, str_eq,
}
use stonesh.Stonesh.Startup.{main, parse_switches, client_address, Chosen, nothing_chosen}
use stonesh.Util.{trim}
use stonesh.Auth.{by_type, auth_user}
use stonesh.Hosts.{field_or, fill_entry, host_line, search_hosts, lookup_host, gethostentry}
use stonesh.Readconf.Delim.{strdelim, split_word, quoted_word, skip_equals, skip_blank}
use stonesh.Readconf.File.{read_config_file, read_opened, read_options, finish_options}
use stonesh.Readconf.Keywords.{parse_token, find_keyword}
use stonesh.Readconf.Line.{
  process_config_line, process_trimmed, process_line, process_opcode, dispatch, check_end,
  parse_flag, flag_argument, flag_value,
}
use stonesh.Readconf.Options.{initialize_options, fill_default_options}
use stonesh.Stonesh.{
  execute, parse_request, short_name, access_mode, check_country, command_line, append_args,
  append_within, Outcome,
}
use stonesh.Tests.Samples.{ssh_db, environment, unset, no_entry}
use stonesh.Stonesh.Process.{Process, clean_exit, refuse, admit, report_country, prompt}
use stonesh.Stonesh.Process.Audit.{Audited, process_main-Audited}
use stonesh.Stonesh.Process.Ends.{EndsWith}
use stonesh.Stonesh.Process.Erases.{erase}
use stonesh.Stonesh.Process.Launch.{
  Package, read_switches, report_connection, connection, report_options, set_options, configured,
  configure, with_chosen, with_user, process_main,
}
use stonesh.Stonesh.Process.Serve.{
  launch, conclude, authorized, look_up, ask_for, shorten, prompt_lines, find_host, attend,
  with_process,
}
use stonesh.Stonesh.Process.Starts.{process_main-outcome}
use stonesh.Stonesh.Process.Finish.{
  Execvp, IsFinished, execvp_failed, after_execvp, end_process, run_main, run_main-IsFinished,
  run_main-executes_iff,
}

abbrev build : Package
build = record { package_name = codes "stonesh"; package_version = codes "1" }

abbrev process : Process
process = record {
  log = record { log_to_stderr = pos 0; debugging = pos 0; stderr = []; syslog = [] };
  options = unset;
  hostent = no_entry;
  pw_name = [];
  stdout = [];
}

process_main-outcome_example :
    erase (process_main build environment process) ≡ main environment unset no_entry
process_main-outcome_example = process_main-outcome build environment process

process_main-Audited_example :
    EndsWith (Audited process.log (pos 0)) (process_main build environment process)
process_main-Audited_example = process_main-Audited build environment process (codes "al") refl

abbrev chosen : Chosen
chosen = record { cval = none; config = some (codes "c"); log_to_stderr = false }

chose : parse_switches environment.switches nothing_chosen ≡ some chosen
unfolding parse_switches
chose = refl

-- There is no `ssh`.
abbrev not_found : Execvp
not_found argv = some (codes "No such file or directory")

run_main-IsFinished_example :
    EndsWith (IsFinished not_found) (run_main not_found build environment process)
run_main-IsFinished_example =
    run_main-IsFinished not_found build environment process (codes "al") chosen refl chose

abbrev takes_over : Execvp
takes_over argv = none

run_main-executes_iff_example :
    ((q : Process) × (run_main takes_over build environment process
        ≡ some (ok (execute ssh_db, q))))
    ↔ ((main environment unset no_entry ≡ some (ok (execute ssh_db))) × (takes_over ssh_db ≡ none))
run_main-executes_iff_example = run_main-executes_iff takes_over build environment process ssh_db

abbrev syslog_of : Option (Run (Outcome × Process)) → List Bytes
syslog_of (some (ok (out, p))) = p.log.syslog
syslog_of m = []

process_says :
    syslog_of (process_main build environment process)
    ≡ codes "notice: (al) connection via 8.0.0.0:1"
      ∷ codes "notice: (al) executing '/usr/bin/ssh \"-p\" \"22\" \"-q\" \"db\" \"--\"'"
      ∷ []
unfolding process_main with_user with_chosen configure configured set_options report_options
    read_switches connection report_connection with_process attend find_host prompt_lines prompt
    shorten ask_for look_up authorized conclude launch admit refuse report_country clean_exit notice
    error debug do_log send message_text tagged_format snprintf format format_from client_address
    command_line append_args append_within check_country is_from_valid_country access_mode
    short_name parse_request auth_user by_type gethostentry lookup_host search_hosts host_line
    fill_entry field_or read_config_file read_opened read_options finish_options initialize_options
    fill_default_options process_config_line process_trimmed process_line process_opcode dispatch
    check_end parse_flag flag_argument flag_value parse_token find_keyword strdelim split_word
    quoted_word skip_equals skip_blank strpbrk one_of trim strcasecmp str_eq tolower read_lines
    read_loop fgets get_line c_str strsep strncmp strtok is_space
process_says = refl

-- The same run where `execvp` fails.
run_main_says :
    syslog_of (run_main not_found build environment process)
    ≡ codes "notice: (al) connection via 8.0.0.0:1"
      ∷ codes "notice: (al) executing '/usr/bin/ssh \"-p\" \"22\" \"-q\" \"db\" \"--\"'"
      ∷ codes "error: (al) Unable to execute command: No such file or directory"
      ∷ []
unfolding run_main end_process after_execvp execvp_failed process_main with_user with_chosen
    configure configured set_options report_options read_switches connection report_connection
    with_process attend find_host prompt_lines prompt shorten ask_for look_up authorized conclude
    launch admit refuse report_country clean_exit notice error debug do_log send message_text
    tagged_format snprintf format format_from client_address command_line append_args append_within
    check_country is_from_valid_country access_mode short_name parse_request auth_user by_type
    gethostentry lookup_host search_hosts host_line fill_entry field_or read_config_file read_opened
    read_options finish_options initialize_options fill_default_options process_config_line
    process_trimmed process_line process_opcode dispatch check_end parse_flag flag_argument
    flag_value parse_token find_keyword strdelim split_word quoted_word skip_equals skip_blank
    strpbrk one_of trim strcasecmp str_eq tolower read_lines read_loop fgets get_line c_str strsep
    strncmp strtok is_space
run_main_says = refl
