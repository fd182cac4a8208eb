-- ===== src/Hosts/Format.antt =====
-- The lines `host`, `host:port` and `host:port:countries` of the hosts file, as hosts.c reads them.
use stonesh.Prelude.{
  [], ◌∷◌, ◌++◌, none, some, ◌≡◌, ◌≢◌, refl, ap, ◌∙◌, Bytes, codes, All, All-append, append-ne-nil,
}
use stonesh.Hosts.{HostEntry, colon, field_or, fill_entry, host_line}
use stonesh.Hosts.Lookup.{host_line-entry}
use stonesh.Libc.{strsep}
use stonesh.Libc.Fields.{strsep-found, strsep-none}
use stonesh.Util.{trim}
use stonesh.Util.Clean.{
  IsClean, IsField, content_of, clean_content, clean_trim, field-IsClean, field-Lacks,
  colon-IsClean,
}

-- A line of the hosts file for `host`, its port and its countries.
pub data Lists (host : Bytes) : Bytes → Bytes → Bytes → Type 0 where
  bare : Lists host host (codes "22") []
  with_port : {p : Bytes} → IsField p → Lists host (host ++ colon ∷ p) p []
  with_countries :
      {p cs : Bytes} → IsField p → IsField cs → Lists host (host ++ colon ∷ (p ++ colon ∷ cs)) p cs

pub Lists-IsClean : {host l p cs : Bytes} → IsField host → Lists host l p cs → All IsClean l
Lists-IsClean {host} h bare = field-IsClean host h.1
Lists-IsClean {host} h (with_port {p} k) =
    All-append _ host _ (field-IsClean host h.1) (colon-IsClean, field-IsClean p k.1)
Lists-IsClean {host} h (with_countries {p} {cs} k m) =
    All-append _ host _ (field-IsClean host h.1)
      (colon-IsClean, All-append _ p _ (field-IsClean p k.1) (colon-IsClean, field-IsClean cs m.1))

field_or-IsField : (p d : Bytes) → IsField p → field_or (some p) d ≡ p
unfolding field_or
field_or-IsField [] d h = absurd (h.0 refl)
field_or-IsField (c ∷ p) d h = clean_trim (c ∷ p) (field-IsClean (c ∷ p) h.1)

abbrev pub entry_of : Bytes → Bytes → Bytes → HostEntry
entry_of host p cs = record { host = some host; countries = some cs; port = some p }

port_22 : trim (codes "22") ≡ codes "22"
port_22 = unfold trim in refl

defaults : field_or none (codes "22") ≡ codes "22"
unfolding field_or
defaults = port_22

no_list : field_or none [] ≡ []
unfolding field_or trim
no_list = refl

Lists-ne_nil : {host l p cs : Bytes} → IsField host → Lists host l p cs → l ≢ []
Lists-ne_nil {host} h bare = h.0
Lists-ne_nil {host} h (with_port {p} k) = append-ne-nil host (colon ∷ p) h.0
Lists-ne_nil {host} h (with_countries {p} {cs} k m) =
    append-ne-nil host (colon ∷ (p ++ colon ∷ cs)) h.0

pub Lists-fields :
    {host l p cs : Bytes}
    → IsField host
    → Lists host l p cs
    → ((strsep l colon).0 ≡ host) × (fill_entry host (strsep l colon).1 ≡ entry_of host p cs)
unfolding fill_entry
Lists-fields {host} h bare =
    rw (strsep-none host colon (field-Lacks host h.1)) (refl, rw (defaults, no_list))
Lists-fields {host} h (with_port {p} k) =
    rw (strsep-found host colon p (field-Lacks host h.1), strsep-none p colon (field-Lacks p k.1))
      (refl, rw (field_or-IsField p (codes "22") k, no_list))
Lists-fields {host} h (with_countries {p} {cs} k m) =
    rw
      (
        strsep-found host colon (p ++ colon ∷ cs) (field-Lacks host h.1),
        strsep-found p colon cs (field-Lacks p k.1),
        strsep-none cs colon (field-Lacks cs m.1),
      )
      (refl, rw (field_or-IsField p (codes "22") k, field_or-IsField cs [] m))

-- A line of the hosts file for a host, with a port and countries or without, gives the entry of
-- that host: the port is 22 and the countries are empty unless they are given.
pub host_line-Lists :
    (host l p cs : Bytes)
    → IsField host
    → Lists host l p cs
    → host_line host (content_of (l ++ b'\n' ∷ []))
      ≡ some (record { host = some host; countries = some cs; port = some p })
host_line-Lists host l p cs h w =
    let (name, entry) = Lists-fields h w in
    rw (clean_content l (Lists-IsClean h w))
      (host_line-entry host l (Lists-ne_nil h w) name ∙ ap some entry)
