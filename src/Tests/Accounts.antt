-- ===== src/Tests/Accounts.antt =====
-- Instances of the theorems on the files, strings and messages of hosts.c, auth_local.c, readconf.c and
-- auth.c.
use stonesh.Auth.{auth_proxy, auth_user}
use stonesh.Streams.{IsEven, Disk, Io}
use stonesh.Auth.Once.{IsToldOnce, auth_user_io-IsEven, auth_user_io-IsToldOnce}
use stonesh.Auth.Session.{auth_user_io}
use stonesh.AuthLdap.Report.{Ends}
use stonesh.Tests.Samples.{
  one_entry, ldap_options, config_text, unset, files_with, hosts_text, users_text, no_entry,
}
use stonesh.Prelude.{Safe, forget, ◌∷◌, true, [], some, pos, ◌≡◌, refl, codes, Bytes}
use stonesh.Readconf.File.{read_config_file}
use stonesh.Readconf.Session.{Where, process_config_line_io}
use stonesh.Readconf.Session.Books.{IsTold, IsBooked}
use stonesh.Readconf.Session.Files.{read_config_file_io-books, read_config_file_io-IsReported}
use stonesh.Readconf.Session.Lines.{process_config_line_io-IsTold}
use stonesh.Readconf.Session.Reading.{read_config_file_io}
use stonesh.Readconf.Session.Rounds.{IsReported}
use stonesh.AuthLocal.{get_auth_file}
use stonesh.AuthLocal.Accounts.{get_auth_file_io-closes}
use stonesh.AuthLocal.Session.{get_auth_file_io}
use stonesh.Hosts.{gethostentry}
use stonesh.Hosts.Accounts.{Accounts, gethostentry_io-Accounts}
use stonesh.Hosts.Session.{gethostentry_io}
use stonesh.Log.{Log}

abbrev disk_with : Bytes → Disk
disk_with content = record {
  files = files_with content;
  strerror = λ file. codes "No such file or directory";
  closes = λ file. true;
}

-- Debugging is on.
abbrev verbose : Log
verbose = record { log_to_stderr = pos 0; debugging = pos 1; stderr = []; syslog = [] }

abbrev io : Io
io = record { log = verbose; streams = 3; strings = 5 }

gethostentry_io-Accounts_example :
    Accounts io 5
      (gethostentry (files_with hosts_text) (some (codes "db")) (some (codes "h")) no_entry)
      (gethostentry_io (disk_with hosts_text) (some (codes "db")) (some (codes "h")) no_entry io)
gethostentry_io-Accounts_example =
    gethostentry_io-Accounts (disk_with hosts_text) (some (codes "db")) (some (codes "h")) no_entry
      io 5 refl

get_auth_file_io-closes_example :
    ((get_auth_file_io
        (disk_with users_text)
        (some (codes "al"))
        (some (codes "web"))
        (some (codes "u"))
        (pos 1)
        io).0
      ≡ get_auth_file
          (files_with users_text)
          (some (codes "al"))
          (some (codes "web"))
          (some (codes "u"))
          (pos 1))
    × ((get_auth_file_io
          (disk_with users_text)
          (some (codes "al"))
          (some (codes "web"))
          (some (codes "u"))
          (pos 1)
          io).1.streams
        ≡ 3)
    × ((get_auth_file_io
          (disk_with users_text)
          (some (codes "al"))
          (some (codes "web"))
          (some (codes "u"))
          (pos 1)
          io).1.strings
        ≡ 5)
get_auth_file_io-closes_example =
    get_auth_file_io-closes (disk_with users_text) (some (codes "al")) (some (codes "web"))
      (some (codes "u")) (pos 1) io

-- Debugging is off.
abbrev quiet_io : Io
quiet_io = record {
  log = record { log_to_stderr = pos 0; debugging = pos 0; stderr = []; syslog = [] };
  streams = 3;
  strings = 5;
}

abbrev place : Where
place = codes "c" ∷ codes "1" ∷ []

process_config_line_io-IsTold_example :
    Safe
      (λ r. IsTold r.0.1 quiet_io.log r.1.log)
      (process_config_line_io place unset (codes "debug foolean") (some (pos 1)) quiet_io)
process_config_line_io-IsTold_example =
    process_config_line_io-IsTold 5 place unset (codes "debug foolean") (some (pos 1)) quiet_io refl
      refl

read_config_file_io-books_example :
    (forget (read_config_file_io (disk_with config_text) (codes "c") unset io)
      ≡ read_config_file (files_with config_text) (codes "c") unset)
    × Safe
        (λ r. IsBooked 5 io r.0.0 r.1)
        (read_config_file_io (disk_with config_text) (codes "c") unset io)
read_config_file_io-books_example =
    read_config_file_io-books (disk_with config_text) (codes "c") 5 unset io refl refl

read_config_file_io-IsReported_example :
    Safe
      (λ r. IsReported (disk_with config_text) (codes "c") r.0.1 quiet_io.log r.1.log)
      (read_config_file_io (disk_with config_text) (codes "c") unset quiet_io)
read_config_file_io-IsReported_example =
    read_config_file_io-IsReported (disk_with config_text) (codes "c") 5 unset quiet_io refl refl
      refl

abbrev ends : Ends
ends = record { resets = true; unbinds = true }

auth_user_io-IsEven_example :
    (forget (
        auth_user_io
          (disk_with users_text)
          one_entry
          ends
          ldap_options
          (some (codes "al"))
          (some (codes "web"))
          auth_proxy
          io)
      ≡ auth_user
          (files_with users_text)
          one_entry
          ldap_options
          (some (codes "al"))
          (some (codes "web"))
          auth_proxy)
    × Safe
        (λ r. IsEven io r.1)
        (auth_user_io
          (disk_with users_text)
          one_entry
          ends
          ldap_options
          (some (codes "al"))
          (some (codes "web"))
          auth_proxy
          io)
auth_user_io-IsEven_example =
    auth_user_io-IsEven (disk_with users_text) one_entry ends ldap_options (some (codes "al"))
      (some (codes "web")) auth_proxy io

auth_user_io-IsToldOnce_example :
    Safe
      (λ r. IsToldOnce quiet_io.log r.1.log)
      (auth_user_io
        (disk_with users_text)
        one_entry
        ends
        ldap_options
        (some (codes "al"))
        (some (codes "web"))
        auth_proxy
        quiet_io)
auth_user_io-IsToldOnce_example =
    auth_user_io-IsToldOnce (disk_with users_text) one_entry ends ldap_options (some (codes "al"))
      (some (codes "web")) auth_proxy quiet_io (refl, refl, refl)
