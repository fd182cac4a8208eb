-- ===== src/Tests/Access.antt =====
-- Instances of the theorems on the authorization.
use stonesh.Auth.{auth_user, by_type, local_user, auth_proxy, auth_bastion}
use stonesh.Auth.Branches.{Succeeds, ModeAllowed, permission, asked_tag}
use stonesh.Auth.Methods.{auth_user_local_iff, auth_user_ldap_iff}
use stonesh.Auth.Verdict.{IsVerdict, auth_user-IsVerdict, auth_user-bastion}
use stonesh.AuthLdap.{
  entry, reference, done, get_ldap_uri, get_ldap_base, get_filter, get_auth_ldap, ldap_auth_success,
}
use stonesh.AuthLdap.Decision.{CountsEntries, FindsEntry, get_auth_ldap_iff}
use stonesh.AuthLdap.Filters.{meant_filter, get_filter-whole}
use stonesh.AuthLocal.{auth_lines, scan_users, scan_line, scan_field, scan_hosts, get_auth_file}
use stonesh.Prelude.{[], none, some, ok, Safe, ◌≡◌, ◌↔◌, refl, Bytes, codes, Any}
use stonesh.AuthLocal.Scans.{LineGrants}
use stonesh.Hosts.{line_room}
use stonesh.Libc.{
  read_lines, read_loop, fgets, get_line, c_str, strsep, strncasecmp, strtok_all, strtok_loop,
  strtok, tolower, is_space,
}
use stonesh.Readconf.Options.{initialize_options, fill_default_options}
use stonesh.Readconf.Options.Defaults.{IsComplete, initialize-IsPartial, fill-IsComplete}
use stonesh.Tests.Samples.{users_text, files_with, one_entry, unset, local_options, ldap_options}
use stonesh.Util.{trim}

auth_user_local_iff_example :
    Succeeds (
      auth_user
        (files_with users_text)
        one_entry
        local_options
        (some (codes "al"))
        (some (codes "web"))
        auth_proxy)
    ↔ (ModeAllowed local_options auth_proxy
        × Any
            (LineGrants
              (trim (codes "al"))
              (trim (codes "web"))
              (permission local_options auth_proxy))
            (read_lines line_room users_text))
auth_user_local_iff_example =
    auth_user_local_iff (files_with users_text) one_entry local_options (codes "al") (codes "web")
      (codes "u") users_text auth_proxy refl refl refl

counts_one : CountsEntries one_entry
counts_one none = (λ h. absurd cc, λ h. absurd cc)
counts_one (some entry) = (λ h. refl, λ h. refl)
counts_one (some reference) = (λ h. absurd cc, λ h. absurd cc)
counts_one (some done) = (λ h. absurd cc, λ h. absurd cc)

auth_user_ldap_iff_example :
    Succeeds (
      auth_user
        (files_with [])
        one_entry
        ldap_options
        (some (codes "al"))
        (some (codes "web"))
        auth_proxy)
    ↔ (ModeAllowed ldap_options auth_proxy
        × ((u : Bytes) × (b : Bytes) × (get_ldap_uri one_entry (some (codes "ldap://a")) ≡ some u)
            × (get_ldap_base one_entry none ≡ some b)
            × FindsEntry one_entry u b
                (meant_filter (codes "web") (codes "al") (asked_tag ldap_options auth_proxy))))
auth_user_ldap_iff_example =
    auth_user_ldap_iff (files_with []) one_entry ldap_options (codes "al") (codes "web") auth_proxy
      counts_one refl refl (λ h. cc) (λ h. cc) (λ h. cc)

filled : IsComplete (fill_default_options (initialize_options unset))
filled = fill-IsComplete _ (initialize-IsPartial unset)

auth_user-IsVerdict_example :
    Safe
      (λ a. IsVerdict a.auth)
      (auth_user
        (files_with users_text)
        one_entry
        (fill_default_options (initialize_options unset))
        (some (codes "al"))
        none
        auth_bastion)
auth_user-IsVerdict_example =
    auth_user-IsVerdict (files_with users_text) one_entry
      (fill_default_options (initialize_options unset)) (some (codes "al")) none auth_bastion filled

get_filter-whole_example :
    get_filter (some (codes "al")) (some (codes "web")) (some (codes "t"))
    ≡ some (meant_filter (codes "web") (codes "al") (some (codes "t")))
get_filter-whole_example =
    get_filter-whole (codes "al") (codes "web") (some (codes "t")) (λ h. cc) (λ h. cc) (λ h. cc)

get_auth_ldap_iff_example :
    (get_auth_ldap one_entry ldap_options (some (codes "al")) (some (codes "web")) none
      ≡ ok ldap_auth_success)
    ↔ ((u : Bytes) × (b : Bytes) × (f : Bytes) × (get_ldap_uri one_entry (some (codes "ldap://a"))
          ≡ some u)
        × (get_ldap_base one_entry none ≡ some b)
        × (get_filter (some (codes "al")) (some (codes "web")) none ≡ some f)
        × FindsEntry one_entry u b f)
get_auth_ldap_iff_example =
    get_auth_ldap_iff one_entry ldap_options (some (codes "al")) (some (codes "web")) none
      counts_one refl

let_in : Succeeds (
    auth_user
      (files_with users_text)
      one_entry
      local_options
      (some (codes "al"))
      (some (codes "web"))
      auth_proxy)
unfolding auth_user by_type local_user get_auth_file auth_lines scan_users scan_line scan_field
    scan_hosts read_lines read_loop fgets get_line c_str trim strsep strncasecmp strtok_all
    strtok_loop strtok tolower is_space
let_in = (_, refl, refl)

auth_user-bastion_example : Succeeds (
    auth_user
      (files_with users_text)
      one_entry
      local_options
      (some (codes "al"))
      (some (codes "web"))
      auth_bastion)
auth_user-bastion_example =
    auth_user-bastion (files_with users_text) one_entry local_options (codes "al") (codes "web")
      (codes "u") users_text refl refl refl let_in
