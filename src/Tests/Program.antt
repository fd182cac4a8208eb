-- ===== src/Tests/Program.antt =====
-- A run of the program, and instances of the theorems on stonesh.c and geoip.c.
use stonesh.Geoip.{check_code, getafbyaddr, is_from_valid_country}
use stonesh.Geoip.Format.{IsName, check_code-join_iff}
use stonesh.Prelude.{
  str_eq, Any, arith, inl, inr, [], ◌∷◌, some, pos, ok, ◌≡◌, ◌⊎◌, ◌↔◌, refl, codes, str_eq,
}
use stonesh.Stonesh.Completes.{main-runs}
use stonesh.Stonesh.Startup.{
  world_of, main, with_name, with_switches, parse_switches, client_address, start, with_config,
}
use stonesh.Util.{strtoupper, trim}
use stonesh.Auth.{auth_bastion, by_type, auth_user}
use stonesh.Geoip.Countries.{
  loopback6, IsLoopback, ListsCountry, country_of, is_from_valid_country_iff,
}
use stonesh.Hosts.{field_or, fill_entry, host_line, search_hosts, lookup_host, gethostentry}
use stonesh.Libc.{
  read_lines, read_loop, fgets, get_line, c_str, strsep, strncmp, strcasecmp, strpbrk, one_of,
  strtok, tolower, is_space,
}
use stonesh.Libc.Fields.{StartsWith}
use stonesh.Readconf.Delim.{strdelim, split_word, quoted_word, skip_equals, skip_blank}
use stonesh.Readconf.File.{read_config_file, read_opened, read_options, finish_options}
use stonesh.Readconf.Keywords.{parse_token, find_keyword}
use stonesh.Readconf.Line.{
  process_config_line, process_trimmed, process_line, process_opcode, dispatch, check_end,
  parse_flag, flag_argument, flag_value,
}
use stonesh.Readconf.Options.{initialize_options, fill_default_options}
use stonesh.Stonesh.{
  World, execute, parse_request, prompt_host, wanted_host, short_name, access_mode, check_country,
  run_command, with_entry, enter_host, serve, with_options, logged, command_line, append_args,
  append_within,
}
use stonesh.Stonesh.Entering.{access_mode_iff}
use stonesh.Stonesh.Start.{Executes, main-Executes}
use stonesh.Tests.Samples.{environment, ssh_db, net, unset, local_options, no_entry}

abbrev world : World
world = world_of environment (codes "al") (some (codes "8.0.0.0"))

main_executes : main environment unset no_entry ≡ some (ok (execute ssh_db))
unfolding main with_name with_switches parse_switches client_address start with_config command_line
    append_args append_within with_options serve enter_host with_entry run_command logged
    check_country is_from_valid_country access_mode short_name wanted_host prompt_host parse_request
    auth_user by_type gethostentry lookup_host search_hosts host_line fill_entry field_or
    read_config_file read_opened read_options finish_options initialize_options fill_default_options
    process_config_line process_trimmed process_line process_opcode dispatch check_end parse_flag
    flag_argument flag_value parse_token find_keyword strdelim split_word quoted_word skip_equals
    skip_blank strpbrk one_of trim strcasecmp str_eq tolower read_lines read_loop fgets get_line
    c_str strsep strncmp strtok is_space
main_executes = refl

main-Executes_example : Executes environment unset no_entry ssh_db
main-Executes_example = main-Executes environment unset no_entry ssh_db main_executes

main-runs_example : main environment unset no_entry ≡ some (ok (execute ssh_db))
main-runs_example =
    main-runs environment unset no_entry ssh_db
      (main-Executes environment unset no_entry ssh_db main_executes) (λ h. cc) (inr (inl refl))

-- The keyword for proxy access, and a host whose name starts with it.
access_mode_iff_example :
    (access_mode (some (codes "direct")) (codes "direct1") ≡ auth_bastion)
    ↔ StartsWith (codes "direct") (codes "direct1")
access_mode_iff_example = access_mode_iff (codes "direct") (codes "direct1")

reads_loopback6 : net.inet_pton6 (codes "::1") ≡ (pos 1, loopback6)
unfolding str_eq
reads_loopback6 = refl

is_from_valid_country_iff_example :
    (is_from_valid_country net local_options
        (codes "8.0.0.0")
        (some (codes "ca, us"))
        (some (codes ","))
      ≡ pos 1)
    ↔ (IsLoopback net (codes "8.0.0.0") (getafbyaddr net (codes "8.0.0.0"))
        ⊎ ListsCountry
            (codes "ca, us")
            (codes ",")
            (country_of net local_options (codes "8.0.0.0") (getafbyaddr net (codes "8.0.0.0"))))
is_from_valid_country_iff_example =
    is_from_valid_country_iff net local_options (codes "8.0.0.0") (codes "ca, us") (codes ",")
      reads_loopback6 (λ h. cc)

us_IsName : IsName (codes "us")
unfolding is_space
us_IsName = (
  (λ h. cc, (omega arith, (omega arith, tt))),
  ((refl, omega arith, omega arith), ((refl, omega arith, omega arith), tt)),
)

check_code-join_iff_example :
    (check_code (some (codes "US")) (codes "us") (b',' ∷ []) ≡ pos 1)
    ↔ Any (λ name. codes "US" ≡ strtoupper name) (codes "us" ∷ [])
check_code-join_iff_example = check_code-join_iff (codes "US") (codes "us" ∷ []) (us_IsName, tt)
