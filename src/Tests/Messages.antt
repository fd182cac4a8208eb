-- ===== src/Tests/Messages.antt =====
-- Instances of the theorems on the log, the text of the command, the calls of auth_ldap.c and the
-- addresses of geoip.c.
use stonesh.AuthLdap.Balance.{nothing, replay, session_calls-balanced}
use stonesh.AuthLdap.{get_ldap_uri, get_ldap_base, search_ldap}
use stonesh.AuthLdap.Session.{Messages, session_calls}
use stonesh.Geoip.{Net, af_inet, is_local, is_private}
use stonesh.Geoip.Addresses.{IsReserved, s_addr, address_ranges}
use stonesh.Libc.{format}
use stonesh.Log.{Log, notice, error, fatal, debug}
use stonesh.Log.Messages.{tagged, log_with, log_levels}
use stonesh.Prelude.{ℕ, true, [], ◌∷◌, ◌++◌, none, some, pos, ok, ◌≡◌, ◌↔◌, refl, arith, codes}
use stonesh.Stonesh.{command_line}
use stonesh.Stonesh.Lines.{quoted_args, command_line-fits}
use stonesh.Tests.Samples.{one_entry}

command_line-fits_example :
    command_line (some (codes "ssh") ∷ none ∷ some (codes "db") ∷ [])
    ≡ ok (codes "ssh" ++ quoted_args (none ∷ some (codes "db") ∷ []))
command_line-fits_example = command_line-fits (codes "ssh") (none ∷ some (codes "db") ∷ [])

abbrev log : Log
log = record { log_to_stderr = pos 1; debugging = pos 0; stderr = []; syslog = [] }

log_levels_example :
    (notice (codes "(%s)") (codes "al" ∷ []) log
      ≡ log_with (tagged (codes "notice") (format (codes "(%s)") (codes "al" ∷ []))) log)
    × (error (codes "(%s)") (codes "al" ∷ []) log
        ≡ log_with (tagged (codes "error") (format (codes "(%s)") (codes "al" ∷ []))) log)
    × (fatal (codes "(%s)") (codes "al" ∷ []) log
        ≡ (log_with (tagged (codes "fatal") (format (codes "(%s)") (codes "al" ∷ []))) log, pos 1))
    × (debug (codes "(%s)") (codes "al" ∷ []) log ≡ log)
log_levels_example = log_levels (codes "(%s)") (codes "al" ∷ []) log

abbrev messages : Messages
messages = record { for_bind = true; for_search = true }

uri_given : get_ldap_uri one_entry (some (codes "ldap://a")) ≡ some (codes "ldap://a")
unfolding get_ldap_uri
uri_given = refl

base_given : get_ldap_base one_entry none ≡ some (codes "dc=a")
unfolding get_ldap_base
base_given = refl

session_calls-balanced_example :
    ((session_calls one_entry messages
        (some (codes "ldap://a"))
        none
        (codes "ldap://a")
        (codes "dc=a")
        (codes "f")).auth
      ≡ search_ldap one_entry (codes "ldap://a") (codes "dc=a") (codes "f"))
    × (replay
          (session_calls one_entry messages
            (some (codes "ldap://a"))
            none
            (codes "ldap://a")
            (codes "dc=a")
            (codes "f")).calls
          nothing
        ≡ some nothing)
session_calls-balanced_example =
    session_calls-balanced one_entry messages (some (codes "ldap://a")) none (codes "ldap://a")
      (codes "dc=a") (codes "f") uri_given base_given

-- Every address is 192.168.0.1.
abbrev net : Net
net = record {
  getaddrinfo = λ a. some (some af_inet);
  inet_pton = λ a. (pos 1, s_addr 192 168 0 1);
  inet_pton6 = λ a. (pos 0, []);
  geoip_open = λ f. true;
  country_code_by_addr = λ f a. none;
  country_code_by_addr_v6 = λ f a. none;
}

address_ranges_example :
    ((is_local net (codes "192.168.0.1") ≡ pos 1) ↔ (◌≡◌ {A = ℕ} 192 127))
    × ((is_private net (codes "192.168.0.1") ≡ pos 1) ↔ IsReserved 192 168)
address_ranges_example =
    address_ranges net (codes "192.168.0.1") 192 168 0 1 (omega arith) (omega arith) refl
