-- ===== src/AuthLdap/Filters.antt =====
-- The search filters that auth_ldap.c assembles.
use stonesh.Prelude.{
  ℕ, ◌+◌, ◌*◌, ◌-◌, ◌≤◌, [], ◌∷◌, ◌++◌, Option, none, some, ◌≡◌, ◌≢◌, refl, ap, ◌∙◌, arith, Bytes,
  codes, length, length-append, take, take_short,
}
use stonesh.AuthLdap.{host_format, service_format, get_host_filter, get_service_filter, get_filter}
use stonesh.Libc.{format, snprintf}

-- The filters as they are meant to read.
abbrev pub host_filter : Bytes → Bytes → Bytes
host_filter host user =
    codes "(&(|(host=\\*)(host=" ++ (host ++ (codes "))(uid=" ++ (user ++ codes "))")))

abbrev pub service_filter : Bytes → Bytes → Bytes → Bytes
service_filter host user tag =
    codes "(&(|(host=\\*)(host="
    ++ (host
        ++ (codes "))(|(authorizedService="
            ++ (tag
                ++ (codes "-\\*)(authorizedService="
                    ++ (tag
                        ++ (codes "-" ++ (host ++ (codes "))(uid=" ++ (user ++ codes "))")))))))))

format_host : (host user : Bytes) → format host_format (host ∷ user ∷ []) ≡ host_filter host user
unfolding format
format_host host user = refl

format_service :
    (host user tag : Bytes)
    → format service_format (host ∷ tag ∷ tag ∷ host ∷ user ∷ []) ≡ service_filter host user tag
unfolding format
format_service host user tag = refl

host-length :
    (host user : Bytes)
    → length (host_filter host user) ≤ length host + length user + length host_format - 1
host-length host user =
    rw
      (
        length-append host (codes "))(uid=" ++ (user ++ codes "))")),
        length-append user (codes "))"),
      )
      (omega arith)

service-length :
    (host user tag : Bytes)
    → length (service_filter host user tag)
      ≤ length host * 2 + length user + length tag * 2 + length service_format - 1
service-length host user tag =
    rw
      (
        length-append host (
            codes "))(|(authorizedService="
            ++ (tag
                ++ (codes "-\\*)(authorizedService="
                    ++ (tag
                        ++ (codes "-" ++ (host ++ (codes "))(uid=" ++ (user ++ codes "))")))))))),
        length-append tag (
            codes "-\\*)(authorizedService="
            ++ (tag ++ (codes "-" ++ (host ++ (codes "))(uid=" ++ (user ++ codes "))")))))),
        length-append tag (codes "-" ++ (host ++ (codes "))(uid=" ++ (user ++ codes "))")))),
        length-append host (codes "))(uid=" ++ (user ++ codes "))")),
        length-append user (codes "))"),
      )
      (omega arith)

-- The filter for a host and a user that are not empty is the one that is meant: `snprintf` cuts
-- nothing off.
get_host_filter-whole :
    (c d : ℕ) (host user : Bytes)
    → get_host_filter (some (c ∷ host)) (some (d ∷ user)) ≡ some (host_filter (c ∷ host) (d ∷ user))
unfolding get_host_filter snprintf
get_host_filter-whole c d host user = ap some (
    ap (take _) (format_host (c ∷ host) (d ∷ user))
    ∙ take_short _ _ (host-length (c ∷ host) (d ∷ user)))

get_service_filter-whole :
    (c d e : ℕ) (host user tag : Bytes)
    → get_service_filter (some (c ∷ host)) (some (d ∷ user)) (some (e ∷ tag))
      ≡ some (service_filter (c ∷ host) (d ∷ user) (e ∷ tag))
unfolding get_service_filter snprintf
get_service_filter-whole c d e host user tag = ap some (
    ap (take _) (format_service (c ∷ host) (d ∷ user) (e ∷ tag))
    ∙ take_short _ _ (service-length (c ∷ host) (d ∷ user) (e ∷ tag)))

-- The filter for a tag that may be NULL.
abbrev pub meant_filter : Bytes → Bytes → Option Bytes → Bytes
meant_filter host user none = host_filter host user
meant_filter host user (some tag) = service_filter host user tag

-- For a user, a host and a tag, if there is one, that are not empty, the buffer that is allocated for
-- the filter is large enough: the filter is the text that is meant, with nothing cut off.
pub get_filter-whole :
    (user host : Bytes) (tag : Option Bytes)
    → user ≢ []
    → host ≢ []
    → tag ≢ some []
    → get_filter (some user) (some host) tag ≡ some (meant_filter host user tag)
unfolding get_filter
get_filter-whole [] host tag u h t = absurd (u refl)
get_filter-whole (d ∷ user) [] tag u h t = absurd (h refl)
get_filter-whole (d ∷ user) (c ∷ host) none u h t = get_host_filter-whole c d host user
get_filter-whole (d ∷ user) (c ∷ host) (some []) u h t = absurd (t refl)
get_filter-whole (d ∷ user) (c ∷ host) (some (e ∷ tag)) u h t =
    get_service_filter-whole c d e host user tag
